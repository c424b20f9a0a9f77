-- ===== src/Error.antt =====
-- `FerrumError` of error/kind.rs and the results that carry it. Lock poisoning does not arise: the
-- model has no panics. A message is its bytes.
use ferrum_kv.Prelude.{ℕ, Bytes, codes, ◌++◌, ◌≡◌, refl, ◌⊎◌, inl, inr}
use ferrum_kv.Prelude.Decimal.{print_nat}

pub data FerrumError : Type 0 where
  io_error lock_poisoned internal parse_error unknown_command : Bytes → FerrumError
  wrong_arity : Bytes → FerrumError
  key_too_long value_too_large : ℕ → ℕ → FerrumError
  out_of_memory : FerrumError
  persistence_error : Bytes → FerrumError
  aof_not_enabled : FerrumError

-- `Display`. The first two hold what is displayed behind their heads.
unfoldable pub display : FerrumError → Bytes
display (io_error e) = codes "io error: " ++ e
display (lock_poisoned msg) = codes "lock poisoned: " ++ msg
display (internal msg) = codes "internal error: " ++ msg
display (parse_error msg) = msg
display (unknown_command cmd) = codes "unknown command: '" ++ (cmd ++ codes "'")
display (wrong_arity cmd) = codes "wrong number of arguments for '" ++ (cmd ++ codes "' command")
display (key_too_long len max) =
    codes "key too long ("
    ++ (print_nat len ++ (codes " bytes, max " ++ (print_nat max ++ codes ")")))
display (value_too_large len max) =
    codes "value too large ("
    ++ (print_nat len ++ (codes " bytes, max " ++ (print_nat max ++ codes ")")))
display out_of_memory = codes "command not allowed when used memory > maxmemory"
display (persistence_error msg) = codes "persistence error: " ++ msg
display aof_not_enabled = codes "BGREWRITEAOF cannot be issued when AOF is not enabled"

pub data Result {ℓ} (A : Type ℓ) : Type ℓ where
  ok : A → Result A
  err : FerrumError → Result A

-- The `?` operator.
infixl 5 ◌>>=◌ ◌>>◌
abbrev pub ◌>>=◌ {ℓ κ} : {A : Type ℓ} {B : Type κ} → Result A → (A → Result B) → Result B
ok a >>= f = f a
err e >>= f = err e

abbrev pub ◌>>◌ {ℓ κ} : {A : Type ℓ} {B : Type κ} → Result A → Result B → Result B
m >> k = m >>= λ _. k

pub Result-cases {ℓ} :
    {A : Type ℓ} (r : Result A) → ((e : FerrumError) × (r ≡ err e)) ⊎ ((a : A) × (r ≡ ok a))
Result-cases (ok a) = inr (a, refl)
Result-cases (err e) = inl (e, refl)
