-- ===== src/Persistence/Snapshot/Records.antt =====
-- The records of a compact file, their bounds, and what a client sees of them.
use ferrum_kv.Prelude.{
  ℕ, ◌+◌, ◌-◌, ◌/◌, ◌^◌, ◌≤◌, ◌<◌, ◌≡◌, refl, sym, ap, min, leb, Option, none, some, List, [], ◌∷◌,
  ◌++◌, arith, Bytes, length, All, All-append, Bool-cases, inl, inr, subst,
}
use ferrum_kv.Prelude.Int.{ℤ, pos}
use ferrum_kv.Prelude.Decimal.{print_int, length-print_int}
use ferrum_kv.Error.{ok, ◌>>◌}
use ferrum_kv.Protocol.Frame.{encode_command}
use ferrum_kv.Storage.Entry.{Clock, ValueEntry, is_expired}
use ferrum_kv.Storage.Keyspace.{Keyspace}
use ferrum_kv.Storage.Engine.Guard.{
  deadline_to_epoch_ms, set_record, pexpireat_record, validate_key, validate_value,
}
use ferrum_kv.Storage.Engine.Refinement.Deadlines.{with_deadline}
use ferrum_kv.Persistence.Restore.{encode_records, Fits}
use ferrum_kv.Persistence.Snapshot.{ttl_of_deadline, snapshot, serialise_compact_aof}

-- The records of an entry.
abbrev pub entry_records : Bytes → Bytes → Option ℤ → List (List Bytes)
entry_records k v none = set_record k v ∷ []
entry_records k v (some abs_ms) = set_record k v ∷ pexpireat_record k abs_ms ∷ []

abbrev pub records_of : List (Bytes × Bytes × Option ℤ) → List (List Bytes)
records_of [] = []
records_of ((k, v, ttl) ∷ entries) = entry_records k v ttl ++ records_of entries

pub serialise_compact_aof-encode_records :
    (entries : List (Bytes × Bytes × Option ℤ))
    → serialise_compact_aof entries ≡ encode_records (records_of entries)
unfolding serialise_compact_aof
serialise_compact_aof-encode_records [] = refl
serialise_compact_aof-encode_records ((k, v, none) ∷ entries) =
    ap (λ b. encode_command (set_record k v) ++ b) (serialise_compact_aof-encode_records entries)
serialise_compact_aof-encode_records ((k, v, some ms) ∷ entries) =
    ap (λ b. encode_command (set_record k v) ++ (encode_command (pexpireat_record k ms) ++ b))
      (serialise_compact_aof-encode_records entries)

-- What a client sees, with its deadline in the milliseconds of the epoch.
abbrev pub in_epoch : Clock → Option (Bytes × Option ℕ) → Option (Bytes × Option ℤ)
in_epoch c none = none
in_epoch c (some x) = some (x.0, ttl_of_deadline c x.1)

-- What a client sees at a clock of what was saved, or what was there before.
abbrev pub restored :
    Clock → Option (Bytes × Option ℤ) → Option (Bytes × Option ℕ) → Option (Bytes × Option ℕ)
restored c none old = old
restored c (some (v, none)) old = some (v, none)
restored c (some (v, some ms)) old = with_deadline c ms (some (v, none))

-- A time that the log can tell.
abbrev pub IsTime : Option ℤ → Type 0
IsTime none = Unit
IsTime (some ms) = (n : ℕ) × (ms ≡ pos n) × (n < 2 ^ 63)

pub ttl_of_deadline-IsTime : (c : Clock) (d : Option ℕ) → IsTime (ttl_of_deadline c d)
unfolding deadline_to_epoch_ms
ttl_of_deadline-IsTime c none = tt
ttl_of_deadline-IsTime c (some d) = elim (Bool-cases (leb d c.now)) [
  | inl y ↦ rw y tt
  | inr n ↦ rw n (min (c.now_ms + (d - c.now) / 1_000_000) (2 ^ 63 - 1), refl, omega arith)
]

abbrev pub IsValid : Bytes × ValueEntry → Type 0
IsValid p = (validate_key p.0 >> validate_value p.1.payload) ≡ ok tt

valid_lengths :
    (k v : Bytes)
    → (validate_key k >> validate_value v) ≡ ok tt
    → (length k < 2 ^ 63) × (length v < 2 ^ 63)
unfolding validate_key validate_value
valid_lengths k v valid = ground (arith, valid)

entry_records-Fits :
    (k v : Bytes) (ttl : Option ℤ)
    → (validate_key k >> validate_value v) ≡ ok tt
    → IsTime ttl
    → All Fits (entry_records k v ttl)
entry_records-Fits k v none valid t = ground (arith, valid_lengths k v valid)
entry_records-Fits k v (some ms) valid (n, p, l) =
    let digits : length (print_int ms) ≤ 20 =
      subst (λ z. length (print_int z) ≤ 20) (sym p)
        (length-print_int (pos n) (ground (arith, l))) in
    ground (arith, valid_lengths k v valid, digits)

pub snapshot-Fits :
    (s : Clock) (m : Keyspace) → All IsValid m → All Fits (records_of (snapshot s m))
unfolding snapshot
snapshot-Fits s [] v = tt
snapshot-Fits s ((k, entry) ∷ m) v = elim (Bool-cases (is_expired entry s.now)) [
  | inl over ↦ rw (snapshot, over) (snapshot-Fits s m v.1)
  | inr live ↦
      let ttl = ttl_of_deadline s entry.expire_at in
      rw (snapshot, live)
        (All-append Fits (entry_records k entry.payload ttl) _
          (entry_records-Fits k entry.payload ttl v.0 (ttl_of_deadline-IsTime s entry.expire_at))
          (snapshot-Fits s m v.1))
]
