-- ===== src/Storage/Engine/Refinement.antt =====
-- The abstract keyspace: each key that is present and not expired, with its value and its deadline.
-- Eviction metadata, order and expired entries are forgotten.
pub mod Lookup
pub mod Lookups
pub mod Updates
pub mod Deadlines
pub mod Sweeps
pub mod Unlimited
pub mod Changes
pub mod Counters
pub mod Many
use ferrum_kv.Prelude.{
  ℕ, ◌≡◌, refl, ap, ◌∙◌, Bool, true, false, Option, none, some, List, [], ◌∷◌, arith, Bytes,
  bytes_eq, bytes_eq_iff, Option-cases, Bool-cases, inl, inr, if◌then◌else◌,
}
use ferrum_kv.Storage.Assoc.{get, insert, remove, Distinct}
use ferrum_kv.Storage.Assoc.Laws.{get-insert, get-remove_self, get-remove_ne}
use ferrum_kv.Storage.Entry.{ValueEntry, is_expired}
use ferrum_kv.Storage.Keyspace.{Keyspace}

-- An entry as a client sees it at a time.
abbrev pub seen : ValueEntry → ℕ → Option (Bytes × Option ℕ)
seen entry now = if is_expired entry now then none else some (entry.payload, entry.expire_at)

abbrev pub seen_at : Option ValueEntry → ℕ → Option (Bytes × Option ℕ)
seen_at none now = none
seen_at (some entry) now = seen entry now

-- The value and the deadline of a key at a time, if a client sees one.
abbrev pub view : Keyspace → ℕ → Bytes → Option (Bytes × Option ℕ)
view m now k = seen_at (get k m) now

pub view-insert :
    (m : Keyspace) (now : ℕ) (k j : Bytes) (entry : ValueEntry)
    → view (insert k entry m) now j ≡ (if bytes_eq k j then seen entry now else view m now j)
view-insert m now k j entry = elim (Bool-cases (bytes_eq k j)) [
  | inl y ↦ rw (y, get-insert k j entry m, y) refl
  | inr n ↦ rw (n, get-insert k j entry m, n) refl
]

pub view-remove :
    (m : Keyspace) (now : ℕ) (k j : Bytes)
    → Distinct m
    → view (remove k m) now j ≡ (if bytes_eq k j then none else view m now j)
view-remove m now k j d = elim (Bool-cases (bytes_eq k j)) [
  | inl y ↦ let same : k ≡ j = (bytes_eq_iff k j).0 y in rw (y, ← same, get-remove_self k m d) refl
  | inr n ↦ rw (n, get-remove_ne k j m n) refl
]
