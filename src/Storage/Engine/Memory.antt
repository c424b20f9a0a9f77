-- ===== src/Storage/Engine/Memory.antt =====
-- The memory counter is the sum of the costs of the entries, through every tracked change.
use ferrum_kv.Prelude.{
  ℕ, ◌+◌, ◌-◌, ◌^◌, ◌≤◌, ◌<◌, ◌≡◌, refl, ◌∙◌, List, [], ◌∷◌, arith, Bytes, bytes_eq_iff,
}
use ferrum_kv.Prelude.Int.{sub_ℕ}
use ferrum_kv.Storage.Assoc.{get, insert, remove, Distinct}
use ferrum_kv.Storage.Assoc.Laws.{insert-Distinct, remove-Distinct}
use ferrum_kv.Storage.Entry.{ValueEntry}
use ferrum_kv.Storage.Keyspace.{Keyspace}
use ferrum_kv.Storage.Engine.{Host, KvEngine, entry_bytes}
use ferrum_kv.Storage.Engine.Track.{
  bytes_at, shift_memory, track_insert, track_remove, track_clear, append,
}

-- The cost of all entries.
abbrev pub total : Keyspace → ℕ
total [] = 0
total ((key, entry) ∷ m) = entry_bytes key entry + total m

-- The keys are distinct, the counter is the total, and the total is a u64.
pub record IsTracked {h : Host} (e : KvEngine h) : Type 0 where
  pub counter : e.used_memory ≡ total e.store
  pub bounded : total e.store < 2 ^ 64
  pub distinct : Distinct e.store

-- Only the keyspace and the counter matter.
pub IsTracked-same :
    {h : Host} {a b : KvEngine h}
    → a.store ≡ b.store
    → a.used_memory ≡ b.used_memory
    → IsTracked b
    → IsTracked a
IsTracked-same s u t = record {
  counter = u ∙ rw s t.counter;
  bounded = rw s t.bounded;
  distinct = rw s t.distinct;
}

module _ (h : Host) where
  pub total-remove :
      (k : Bytes) (m : Keyspace) → total (remove k m) + bytes_at h k (get k m) ≡ total m
  unfolding bytes_at
  total-remove k [] = refl
  total-remove k ((j, w) ∷ m) = ground (arith, bytes_eq_iff j k, total-remove k m)

  pub total-insert :
      (k : Bytes) (v : ValueEntry) (m : Keyspace)
      → total (insert k v m) + bytes_at h k (get k m) ≡ total m + entry_bytes k v
  unfolding bytes_at
  total-insert k v [] = omega arith
  total-insert k v ((j, w) ∷ m) = ground (arith, bytes_eq_iff j k, total-insert k v m)

  shift_down : (used b : ℕ) → shift_memory h used (sub_ℕ 0 b) ≡ used - b
  unfolding shift_memory
  shift_down used b = ground arith

  shift_lem :
      (used new old : ℕ)
      → old ≤ used
      → used + new - old < 2 ^ 64
      → shift_memory h used (sub_ℕ new old) ≡ used + new - old
  unfolding shift_memory
  shift_lem used new old l b = ground arith

  pub track_remove-IsTracked :
      (e : KvEngine h) (k : Bytes) → IsTracked e → IsTracked (track_remove h e k).0
  unfolding track_remove
  track_remove-IsTracked e k t = record {
    counter = omega (
      arith,
      shift_down e.used_memory (bytes_at h k (get k e.store)),
      total-remove k e.store,
      t.counter,
    );
    bounded = omega (arith, total-remove k e.store, t.bounded);
    distinct = remove-Distinct k e.store t.distinct;
  }

  -- The new entry must leave the total a u64.
  pub track_insert-IsTracked :
      (e : KvEngine h) (k : Bytes) (v : ValueEntry)
      → IsTracked e
      → total e.store + entry_bytes k v < 2 ^ 64
      → IsTracked (track_insert h e k v).0
  unfolding track_insert
  track_insert-IsTracked e k v t b =
      let i = total-insert k v e.store in
      let r = total-remove k e.store in
      let old = bytes_at h k (get k e.store) in
      record {
        counter =
            shift_lem e.used_memory (entry_bytes k v) old (omega (arith, r, t.counter))
              (omega (arith, t.counter, b))
            ∙ omega (arith, i, r, t.counter);
        bounded = omega (arith, i, b);
        distinct = insert-Distinct k v e.store t.distinct;
      }

  pub track_clear-IsTracked : (e : KvEngine h) → IsTracked (track_clear h e)
  unfolding track_clear
  track_clear-IsTracked e = record { counter = refl; bounded = omega arith; distinct = tt }

  pub append-IsTracked :
      (e : KvEngine h) (recs : List (List Bytes)) → IsTracked e → IsTracked (append h e recs)
  unfolding append
  append-IsTracked e recs t = ground arith
