-- ===== src/Protocol/Args.antt =====
-- `build_command` reads the argument vector of a command back as that command.
use ferrum_kv.Prelude.{
  ℕ, ◌≤◌, ◌<◌, ◌≡◌, refl, ap, ◌∙◌, ◌++◌, length, true, Option, none, some, List, [], ◌∷◌, arith,
  Bytes, codes, bytes_eq,
}
use ferrum_kv.Prelude.Int.{ℤ, in_i64}
use ferrum_kv.Prelude.Decimal.{print_int, print_nat, parse_i64-print_int}
use ferrum_kv.Error.{wrong_arity, Result, ok, err}
use ferrum_kv.Floats.{Floats}
use ferrum_kv.Protocol.Text.{Rendering, is_utf8, ascii_uppercase}
use ferrum_kv.Protocol.Command.{Command, flatten, args}
use ferrum_kv.Protocol.Frame.{
  complete, max_array_elements, encode_command, parse_frame, finish_frame,
}
use ferrum_kv.Protocol.RoundTrip.{AreShort, parse_frame-parts}
use ferrum_kv.Protocol.Build.{
  build_command, build_named, pair_up, parse_integer_argument, parse_float_argument, key_integer,
}

-- The commands that `build_command` can answer, by their arguments.
pub data Canonical {fl : Floats} : Command fl → Type 0 where
  set : (k v : Bytes) → Canonical (Command.set k v)
  set_nx : (k v : Bytes) → Canonical (Command.set_nx k v)
  append : (k v : Bytes) → Canonical (Command.append k v)
  mset : (k v : Bytes) (pairs : List (Bytes × Bytes)) → Canonical (Command.mset ((k, v) ∷ pairs))
  mget : (k : Bytes) (ks : List Bytes) → Canonical (Command.mget (k ∷ ks))
  del : (k : Bytes) (ks : List Bytes) → Canonical (Command.del (k ∷ ks))
  exists : (k : Bytes) (ks : List Bytes) → Canonical (Command.exists (k ∷ ks))
  incr_by : (k : Bytes) (n : ℤ) → in_i64 n ≡ true → Canonical (Command.incr_by k n)
  incr_by_float :
      (k : Bytes) (x : fl.F64)
      → is_utf8 (fl.f64_print x) ≡ true
      → fl.f64_parse (fl.f64_print x) ≡ some x
      → Canonical (Command.incr_by_float k x)
  get : (k : Bytes) → Canonical (Command.get k)
  str_len : (k : Bytes) → Canonical (Command.str_len k)
  persist : (k : Bytes) → Canonical (Command.persist k)
  ttl : (k : Bytes) → Canonical (Command.ttl k)
  p_ttl : (k : Bytes) → Canonical (Command.p_ttl k)
  memory_usage : (k : Bytes) → Canonical (Command.memory_usage k)
  ping : (m : Option Bytes) → Canonical (Command.ping m)
  info : (s : Option Bytes) → Canonical (Command.info s)
  db_size : Canonical Command.db_size
  flush_db : Canonical Command.flush_db
  rewrite_aof : Canonical Command.rewrite_aof
  monitor : Canonical Command.monitor
  expire : (k : Bytes) (n : ℤ) → in_i64 n ≡ true → Canonical (Command.expire k n)
  p_expire : (k : Bytes) (n : ℤ) → in_i64 n ≡ true → Canonical (Command.p_expire k n)
  p_expire_at : (k : Bytes) (n : ℤ) → in_i64 n ≡ true → Canonical (Command.p_expire_at k n)
  config_get : (p : Bytes) → Canonical (Command.config (codes "GET") (p ∷ []))
  config_set : (p v : Bytes) → Canonical (Command.config (codes "SET") (p ∷ v ∷ []))
  slowlog_get : Canonical (Command.slow_log (codes "GET") [])
  slowlog_count : (n : Bytes) → Canonical (Command.slow_log (codes "GET") (n ∷ []))
  slowlog_len : Canonical (Command.slow_log (codes "LEN") [])
  slowlog_reset : Canonical (Command.slow_log (codes "RESET") [])
  auth : (p : Bytes) → Canonical (Command.auth p)
  hello : Canonical (Command.hello none)
  hello_2 : Canonical (Command.hello (some 2))
  hello_3 : Canonical (Command.hello (some 3))

-- `build_command` on a whole argument vector.
abbrev pub build : {fl : Floats} → Rendering → List Bytes → Result (Command fl)
build r [] = err (wrong_arity [])
build r (name ∷ as') = build_command r name as'

pair_up-flatten : (pairs : List (Bytes × Bytes)) → pair_up (flatten pairs) ≡ some pairs
unfolding pair_up
pair_up-flatten [] = refl
pair_up-flatten ((k, v) ∷ pairs) = rw (pair_up, pair_up-flatten pairs) refl

parse_integer_argument-print_int :
    (n : ℤ) → in_i64 n ≡ true → parse_integer_argument (print_int n) ≡ ok n
unfolding parse_integer_argument
parse_integer_argument-print_int n h = rw (parse_integer_argument, parse_i64-print_int n h) refl

parse_float_argument-f64_print :
    (fl : Floats) (x : fl.F64)
    → is_utf8 (fl.f64_print x) ≡ true
    → fl.f64_parse (fl.f64_print x) ≡ some x
    → parse_float_argument fl (fl.f64_print x) ≡ ok x
unfolding parse_float_argument
parse_float_argument-f64_print fl x u p = rw (parse_float_argument, u, p) refl

module _ {fl : Floats} (r : Rendering) where
  -- The argument vector of a canonical command is read back as that command.
  pub build-args : (c : Command fl) → Canonical c → build r (args c) ≡ ok c
  unfolding build_command build_named args ascii_uppercase bytes_eq print_nat
  build-args _ (set k v) = refl
  build-args _ (set_nx k v) = refl
  build-args _ (append k v) = refl
  build-args _ (mget k ks) = refl
  build-args _ (del k ks) = refl
  build-args _ (exists k ks) = refl
  build-args _ (get k) = refl
  build-args _ (str_len k) = refl
  build-args _ (persist k) = refl
  build-args _ (ttl k) = refl
  build-args _ (p_ttl k) = refl
  build-args _ (memory_usage k) = refl
  build-args _ (ping none) = refl
  build-args _ (ping (some m)) = refl
  build-args _ (info none) = refl
  build-args _ (info (some s)) = refl
  build-args _ db_size = refl
  build-args _ flush_db = refl
  build-args _ rewrite_aof = refl
  build-args _ monitor = refl
  build-args _ (config_get p) = refl
  build-args _ (config_set p v) = refl
  build-args _ slowlog_get = refl
  build-args _ (slowlog_count n) = refl
  build-args _ slowlog_len = refl
  build-args _ slowlog_reset = refl
  build-args _ (auth p) = refl
  build-args _ hello = refl
  build-args _ hello_2 = refl
  build-args _ hello_3 = refl
  build-args _ (incr_by k n h) = rw (key_integer, parse_integer_argument-print_int n h) refl
  build-args _ (expire k n h) = rw (key_integer, parse_integer_argument-print_int n h) refl
  build-args _ (p_expire k n h) = rw (key_integer, parse_integer_argument-print_int n h) refl
  build-args _ (p_expire_at k n h) = rw (key_integer, parse_integer_argument-print_int n h) refl
  build-args _ (mset k v pairs) = rw (pair_up-flatten pairs) refl
  build-args _ (incr_by_float k x u p) = rw (parse_float_argument-f64_print fl x u p) refl

  build_nonempty : (parts : List Bytes) (c : Command fl) → build r parts ≡ ok c → 0 < length parts
  build_nonempty [] c q = ground (arith, q)
  build_nonempty (name ∷ as') c q = omega arith

  finish-build :
      (n : ℕ) (parts : List Bytes) (c : Command fl)
      → build r parts ≡ ok c
      → finish_frame r n parts ≡ complete c n
  unfolding finish_frame
  finish-build n [] c q = ground (arith, q)
  finish-build n (name ∷ as') c q = rw (finish_frame, q) refl

  -- A canonical command of at most 1,048,576 arguments of at most 512 MiB each, written by
  -- `encode_command`, is parsed back as that command, with exactly its bytes consumed, whatever stands
  -- behind them.
  pub parse_frame-args :
      (c : Command fl) (rest : Bytes)
      → Canonical c
      → length (args c) ≤ max_array_elements
      → AreShort (args c)
      → parse_frame r (encode_command (args c) ++ rest)
        ≡ ok (complete c (length (encode_command (args c))))
  parse_frame-args c rest k u h =
      parse_frame-parts r (args c) rest (build_nonempty (args c) c (build-args c k)) u h
      ∙ ap ok (finish-build (length (encode_command (args c))) (args c) c (build-args c k))
