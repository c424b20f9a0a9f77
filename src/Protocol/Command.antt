-- ===== src/Protocol/Command.antt =====
-- `Command` of protocol/parser.rs and its argument vector.
use ferrum_kv.Prelude.{ℕ, Option, none, some, List, [], ◌∷◌, Bytes, codes}
use ferrum_kv.Prelude.Int.{ℤ}
use ferrum_kv.Prelude.Decimal.{print_int, print_nat}
use ferrum_kv.Floats.{Floats}

pub data Command (fl : Floats) : Type 0 where
  set set_nx append : Bytes → Bytes → Command fl
  mset : List (Bytes × Bytes) → Command fl
  mget del exists : List Bytes → Command fl
  incr_by : Bytes → ℤ → Command fl
  incr_by_float : Bytes → fl.F64 → Command fl
  get str_len persist ttl p_ttl memory_usage : Bytes → Command fl
  ping info : Option Bytes → Command fl
  db_size flush_db rewrite_aof monitor : Command fl
  expire p_expire p_expire_at : Bytes → ℤ → Command fl
  config slow_log : Bytes → List Bytes → Command fl
  auth : Bytes → Command fl
  hello : Option ℕ → Command fl

-- The keys and values of an `MSET`, in order.
abbrev pub flatten : List (Bytes × Bytes) → List Bytes
flatten [] = []
flatten ((k, v) ∷ pairs) = k ∷ v ∷ flatten pairs

-- A name and what may follow it.
abbrev pub with_option : Bytes → Option Bytes → List Bytes
with_option name none = name ∷ []
with_option name (some a) = name ∷ a ∷ []

module _ {fl : Floats} where
  unfoldable pub args : Command fl → List Bytes
  args (set key value) = codes "SET" ∷ key ∷ value ∷ []
  args (set_nx key value) = codes "SETNX" ∷ key ∷ value ∷ []
  args (mset pairs) = codes "MSET" ∷ flatten pairs
  args (mget keys) = codes "MGET" ∷ keys
  args (incr_by key delta) = codes "INCRBY" ∷ key ∷ print_int delta ∷ []
  args (incr_by_float key delta) = codes "INCRBYFLOAT" ∷ key ∷ fl.f64_print delta ∷ []
  args (get key) = codes "GET" ∷ key ∷ []
  args (del keys) = codes "DEL" ∷ keys
  args (exists keys) = codes "EXISTS" ∷ keys
  args (ping msg) = with_option (codes "PING") msg
  args (append key value) = codes "APPEND" ∷ key ∷ value ∷ []
  args (str_len key) = codes "STRLEN" ∷ key ∷ []
  args db_size = codes "DBSIZE" ∷ []
  args flush_db = codes "FLUSHDB" ∷ []
  args (expire key seconds) = codes "EXPIRE" ∷ key ∷ print_int seconds ∷ []
  args (p_expire key millis) = codes "PEXPIRE" ∷ key ∷ print_int millis ∷ []
  args (p_expire_at key abs_epoch_ms) = codes "PEXPIREAT" ∷ key ∷ print_int abs_epoch_ms ∷ []
  args (persist key) = codes "PERSIST" ∷ key ∷ []
  args (ttl key) = codes "TTL" ∷ key ∷ []
  args (p_ttl key) = codes "PTTL" ∷ key ∷ []
  args (memory_usage key) = codes "MEMORY" ∷ codes "USAGE" ∷ key ∷ []
  args (info section) = with_option (codes "INFO") section
  args (config sub rest) = codes "CONFIG" ∷ sub ∷ rest
  args (auth password) = codes "AUTH" ∷ password ∷ []
  args (slow_log sub rest) = codes "SLOWLOG" ∷ sub ∷ rest
  args rewrite_aof = codes "BGREWRITEAOF" ∷ []
  args monitor = codes "MONITOR" ∷ []
  args (hello none) = codes "HELLO" ∷ []
  args (hello (some version)) = codes "HELLO" ∷ print_nat version ∷ []

  -- `args_redacted`: a password is masked.
  unfoldable pub args_redacted : Command fl → List Bytes
  unfolding args
  args_redacted (auth password) = codes "AUTH" ∷ codes "***" ∷ []
  args_redacted c = args c
