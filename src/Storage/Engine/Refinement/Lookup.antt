-- ===== src/Storage/Engine/Refinement/Lookup.antt =====
-- A lookup of a key on the keyspace, and what of it a client sees.
use ferrum_kv.Prelude.{
  ℕ, ◌-◌, ◌/◌, ◌≡◌, refl, ◌∙◌, ◌⊎◌, Bool, true, false, Option, none, some, arith, Bytes, length,
  bytes_eq, bytes_eq_iff, Bool-cases, inl, inr,
}
use ferrum_kv.Storage.Assoc.{get, insert, remove, Distinct}
use ferrum_kv.Storage.Entry.{ValueEntry, is_expired}
use ferrum_kv.Storage.Keyspace.{Keyspace}
use ferrum_kv.Storage.Engine.Guard.{TtlStatus, missing, no_expire, millis}
use ferrum_kv.Storage.Engine.Guard.Expiry.{remaining}
use ferrum_kv.Storage.Engine.Refinement.{seen, seen_at, view, view-insert, view-remove}

-- How a lookup at a time leaves the keyspace, and the live entry that it finds.
pub data Lookup (m : Keyspace) (k : Bytes) (now : ℕ) : Keyspace → Option ValueEntry → Type 0 where
  absent : get k m ≡ none → Lookup m k now m none
  expired :
      (e : ValueEntry)
      → get k m ≡ some e
      → is_expired e now ≡ true
      → Lookup m k now (remove k m) none
  peeked :
      (e : ValueEntry) → get k m ≡ some e → is_expired e now ≡ false → Lookup m k now m (some e)
  touched :
      (e e1 : ValueEntry)
      → get k m ≡ some e
      → is_expired e now ≡ false
      → e1.payload ≡ e.payload
      → e1.expire_at ≡ e.expire_at
      → Lookup m k now (insert k e1 m) (some e)

seen_same :
    (e e1 : ValueEntry) (now : ℕ)
    → e1.payload ≡ e.payload
    → e1.expire_at ≡ e.expire_at
    → seen e1 now ≡ seen e now
unfolding is_expired
seen_same e e1 now p x = rw (p, x) refl

-- A lookup changes nothing of the abstract keyspace.
pub Lookup-view :
    {m : Keyspace} {k : Bytes} {now : ℕ} {m1 : Keyspace} {o : Option ValueEntry} (j : Bytes)
    → Lookup m k now m1 o
    → Distinct m
    → view m1 now j ≡ view m now j
Lookup-view j (absent q) d = refl
Lookup-view {m = m} {k = k} {now = now} j (expired e q x) d = elim (Bool-cases (bytes_eq k j)) [
  | inl y ↦
      let same : k ≡ j = (bytes_eq_iff k j).0 y in
      view-remove m now k j d ∙ rw (y, ← same, q, x) refl
  | inr n ↦ view-remove m now k j d ∙ rw n refl
]
Lookup-view j (peeked e q x) d = refl
Lookup-view {m = m} {k = k} {now = now} j (touched e e1 q x p t) d =
    elim (Bool-cases (bytes_eq k j)) [
      | inl y ↦
          let same : k ≡ j = (bytes_eq_iff k j).0 y in
          view-insert m now k j e1 ∙ rw (y, ← same, q) (seen_same e e1 now p t)
      | inr n ↦ view-insert m now k j e1 ∙ rw n refl
    ]

-- A lookup finds the entry that the abstract keyspace has.
pub Lookup-seen :
    {m : Keyspace} {k : Bytes} {now : ℕ} {m1 : Keyspace} {o : Option ValueEntry}
    → Lookup m k now m1 o
    → seen_at o now ≡ view m now k
Lookup-seen (absent q) = rw q refl
Lookup-seen (expired e q x) = rw (q, x) refl
Lookup-seen (peeked e q x) = rw q refl
Lookup-seen (touched e e1 q x p t) = rw q refl

abbrev pub payload_of : Option ValueEntry → Option Bytes
payload_of none = none
payload_of (some e) = some e.payload

abbrev pub present_of : Option ValueEntry → Bool
present_of none = false
present_of (some e) = true

abbrev pub size_of : Option ValueEntry → ℕ
size_of none = 0
size_of (some e) = length e.payload

abbrev pub ttl_of_entry : Option ValueEntry → ℕ → TtlStatus
ttl_of_entry none now = missing
ttl_of_entry (some e) now = remaining e now

-- What a client is told of what it sees.
abbrev pub value_of : Option (Bytes × Option ℕ) → Option Bytes
value_of none = none
value_of (some x) = some x.0

abbrev pub is_some : Option (Bytes × Option ℕ) → Bool
is_some none = false
is_some (some x) = true

abbrev pub length_of : Option (Bytes × Option ℕ) → ℕ
length_of none = 0
length_of (some x) = length x.0

abbrev pub status_of : Option (Bytes × Option ℕ) → ℕ → TtlStatus
status_of none now = missing
status_of (some x) now = elim x.1 [ none ↦ no_expire | some d ↦ millis ((d - now) / 1_000_000) ]

pub Lookup-live :
    {m : Keyspace} {k : Bytes} {now : ℕ} {m1 : Keyspace} {o : Option ValueEntry}
    → Lookup m k now m1 o
    → (o ≡ none) ⊎ ((e : ValueEntry) × (o ≡ some e) × (is_expired e now ≡ false))
Lookup-live (absent q) = inl refl
Lookup-live (expired e q x) = inl refl
Lookup-live (peeked e q x) = inr (e, refl, x)
Lookup-live (touched e e1 q x p t) = inr (e, refl, x)

pub payload_of_seen :
    (now : ℕ) (o : Option ValueEntry)
    → (o ≡ none) ⊎ ((e : ValueEntry) × (o ≡ some e) × (is_expired e now ≡ false))
    → payload_of o ≡ value_of (seen_at o now)
payload_of_seen now none h = refl
payload_of_seen now (some e) h = let x : is_expired e now ≡ false = ground (arith, h) in rw x refl

pub present_of_seen :
    (now : ℕ) (o : Option ValueEntry)
    → (o ≡ none) ⊎ ((e : ValueEntry) × (o ≡ some e) × (is_expired e now ≡ false))
    → present_of o ≡ is_some (seen_at o now)
present_of_seen now none h = refl
present_of_seen now (some e) h = let x : is_expired e now ≡ false = ground (arith, h) in rw x refl

pub size_of_seen :
    (now : ℕ) (o : Option ValueEntry)
    → (o ≡ none) ⊎ ((e : ValueEntry) × (o ≡ some e) × (is_expired e now ≡ false))
    → size_of o ≡ length_of (seen_at o now)
size_of_seen now none h = refl
size_of_seen now (some e) h = let x : is_expired e now ≡ false = ground (arith, h) in rw x refl

pub ttl_of_entry_seen :
    (now : ℕ) (o : Option ValueEntry)
    → (o ≡ none) ⊎ ((e : ValueEntry) × (o ≡ some e) × (is_expired e now ≡ false))
    → ttl_of_entry o now ≡ status_of (seen_at o now) now
ttl_of_entry_seen now none h = refl
ttl_of_entry_seen now (some e) h = let x : is_expired e now ≡ false = ground (arith, h) in rw x refl
