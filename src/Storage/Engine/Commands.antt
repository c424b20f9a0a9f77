-- ===== src/Storage/Engine/Commands.antt =====
-- The commands of `KvEngine` that write: each begins a guard, runs its operation and drops the guard.
-- The lock is never poisoned here, so `begin` succeeds.
use ferrum_kv.Prelude.{
  Bool, Option, none, some, List, [], ◌∷◌, ◌++◌, ℕ, Bytes, codes, length, if◌then◌else◌,
}
use ferrum_kv.Prelude.Int.{ℤ, pos, ◌+ℤ◌, in_i64}
use ferrum_kv.Prelude.Decimal.{parse_i64, print_int}
use ferrum_kv.Error.{FerrumError, parse_error, Result, ok, err, ◌>>=◌}
use ferrum_kv.Floats.{Floats}
use ferrum_kv.Storage.Entry.{Clock}
use ferrum_kv.Storage.Engine.{Host, KvEngine}
use ferrum_kv.Storage.Engine.Guard.{WriteGuard, begin, release, validate_key, validate_value}
use ferrum_kv.Storage.Engine.Guard.Writes.{
  insert, insert_nx, insert_many, insert_keep_ttl, read_state, remove_key, remove_many, clear,
}
use ferrum_kv.Storage.Engine.Guard.Expiry
use ferrum_kv.Storage.Engine.Guard.Expiry.{expire_at}

abbrev pub not_an_integer : FerrumError
not_an_integer = parse_error (codes "value is not an integer or out of range")

abbrev pub not_a_float : FerrumError
not_a_float = parse_error (codes "value is not a valid float")

abbrev pub not_finite : FerrumError
not_finite = parse_error (codes "increment would produce NaN or Infinity")

-- The number and the deadline that `read_state` found, or zero and none.
unfoldable pub current_integer : Option (Bytes × Option ℕ) → Result (ℤ × Option ℕ)
current_integer none = ok (pos 0, none)
current_integer (some (payload, ttl)) = elim (parse_i64 payload) [
  | none ↦ err not_an_integer
  | some n ↦ ok (n, ttl)
]

-- `checked_add`
unfoldable pub checked_add : ℤ → ℤ → Option ℤ
checked_add a b = if in_i64 (a +ℤ b) then some (a +ℤ b) else none

abbrev pub appended : Option (Bytes × Option ℕ) → Bytes → Bytes × Option ℕ
appended none suffix = (suffix, none)
appended (some (payload, ttl)) suffix = (payload ++ suffix, ttl)

unfoldable pub current_float :
    (fl : Floats) → Option (Bytes × Option ℕ) → Result (fl.F64 × Option ℕ)
current_float fl none = ok (fl.f64_zero, none)
current_float fl (some (payload, ttl)) = elim (fl.f64_parse payload) [
  | none ↦ err not_a_float
  | some n ↦ ok (n, ttl)
]

module _ {h : Host} where
  -- A guarded command on an engine.
  abbrev pub guarded {ℓ} :
      {A : Type ℓ} → Clock → KvEngine h → (WriteGuard h → WriteGuard h × A) → KvEngine h × A
  guarded c e f = let (g, a) = f (begin e c) in (release g, a)

  unfoldable pub set : Clock → KvEngine h → Bytes → Bytes → KvEngine h × Result (Option Bytes)
  unfolding begin release insert
  set c e key value = guarded c e (λ g. insert g key value)

  unfoldable pub set_nx : Clock → KvEngine h → Bytes → Bytes → KvEngine h × Result Bool
  unfolding begin release insert_nx
  set_nx c e key value = guarded c e (λ g. insert_nx g key value)

  unfoldable pub mset : Clock → KvEngine h → List (Bytes × Bytes) → KvEngine h × Result (Unit {0})
  unfolding begin release insert_many
  mset c e pairs = guarded c e (λ g. insert_many g pairs)

  unfoldable pub del : Clock → KvEngine h → Bytes → KvEngine h × Bool
  unfolding begin release remove_key
  del c e key = guarded c e (λ g. remove_key g key)

  unfoldable pub del_many : Clock → KvEngine h → List Bytes → KvEngine h × ℕ
  unfolding begin release remove_many
  del_many c e [] = (e, 0)
  del_many c e (key ∷ keys) = guarded c e (λ g. remove_many g (key ∷ keys))

  unfoldable pub flushdb : Clock → KvEngine h → KvEngine h
  unfolding begin release clear
  flushdb c e = release (clear (begin e c))

  unfoldable pub expire_at_ms : Clock → KvEngine h → Bytes → ℤ → KvEngine h × Bool
  unfolding begin release expire_at
  expire_at_ms c e key abs_epoch_ms = guarded c e (λ g. expire_at g key abs_epoch_ms)

  unfoldable pub persist : Clock → KvEngine h → Bytes → KvEngine h × Bool
  unfolding begin release Expiry.persist
  persist c e key = guarded c e (λ g. Expiry.persist g key)

  -- The write of a value computed from the old one. `a` is the command's answer.
  unfoldable pub store_kept {ℓ} :
      {A : Type ℓ} → WriteGuard h → Bytes → Bytes → Option ℕ → A → WriteGuard h × Result A
  unfolding insert_keep_ttl
  store_kept g key value ttl a =
      let (g1, r) = insert_keep_ttl g key value ttl in (g1, r >>= λ _. ok a)

  -- `incr_by` behind the validation of its key.
  unfoldable pub incr_guarded : WriteGuard h → Bytes → ℤ → WriteGuard h × Result ℤ
  unfolding read_state store_kept current_integer checked_add
  incr_guarded g key delta =
      let (g1, state) = read_state g key in
      elim (current_integer state) [
        | err x ↦ (g1, err x)
        | ok (n, ttl) ↦ elim (checked_add n delta) [
          | none ↦ (g1, err not_an_integer)
          | some sum ↦ store_kept g1 key (print_int sum) ttl sum
        ]
      ]

  unfoldable pub incr_by : Clock → KvEngine h → Bytes → ℤ → KvEngine h × Result ℤ
  unfolding begin release incr_guarded
  incr_by c e key delta = elim (validate_key key) [
    | err x ↦ (e, err x)
    | ok _ ↦ guarded c e (λ g. incr_guarded g key delta)
  ]

  unfoldable pub incr_float_guarded :
      WriteGuard h → Bytes → h.floats.F64 → WriteGuard h × Result h.floats.F64
  unfolding read_state store_kept current_float
  incr_float_guarded g key delta =
      let (g1, state) = read_state g key in
      elim (current_float h.floats state) [
        | err x ↦ (g1, err x)
        | ok (n, ttl) ↦
            let sum = h.floats.f64_add n delta in
            if h.floats.f64_is_finite sum
            then store_kept g1 key (h.floats.f64_print sum) ttl sum
            else (g1, err not_finite)
      ]

  unfoldable pub incr_by_float :
      Clock → KvEngine h → Bytes → h.floats.F64 → KvEngine h × Result h.floats.F64
  unfolding begin release incr_float_guarded
  incr_by_float c e key delta = elim (validate_key key) [
    | err x ↦ (e, err x)
    | ok _ ↦ guarded c e (λ g. incr_float_guarded g key delta)
  ]

  unfoldable pub append_guarded : WriteGuard h → Bytes → Bytes → WriteGuard h × Result ℕ
  unfolding read_state store_kept
  append_guarded g key suffix =
      let (g1, state) = read_state g key in
      let (value, ttl) = appended state suffix in
      elim (validate_value value) [
        | err x ↦ (g1, err x)
        | ok _ ↦ store_kept g1 key value ttl (length value)
      ]

  unfoldable pub append_value : Clock → KvEngine h → Bytes → Bytes → KvEngine h × Result ℕ
  unfolding begin release append_guarded
  append_value c e key suffix = elim (validate_key key) [
    | err x ↦ (e, err x)
    | ok _ ↦ guarded c e (λ g. append_guarded g key suffix)
  ]
