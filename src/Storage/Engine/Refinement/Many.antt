-- ===== src/Storage/Engine/Refinement/Many.antt =====
-- MSET on the abstract keyspace: all of its pairs, in order, or none.
use ferrum_kv.Prelude.{
  ℕ, ◌≡◌, refl, ap, ◌==◌, inl, inr, ◌∙◌, true, Option, none, some, List, [], ◌∷◌, map, arith, Bytes,
  codes, ltb, Option-cases, length, bytes_eq, if◌then◌else◌,
}
use ferrum_kv.Error.{FerrumError, parse_error, key_too_long, value_too_large, Result, ok, err, ◌>>◌}
use ferrum_kv.Storage.Assoc
use ferrum_kv.Storage.Entry.{Clock, new, new_with, is_expired}
use ferrum_kv.Storage.Engine.{Host, KvEngine}
use ferrum_kv.Storage.Engine.Track.{track_insert}
use ferrum_kv.Storage.Engine.Guard.{
  WriteGuard, validate_key, validate_value, begin, log, put, make_room, set_record,
}
use ferrum_kv.Storage.Engine.Guard.Writes.{validate_all, room_for_all, put_all, insert_many}
use ferrum_kv.Storage.Engine.Evict.{enforce_for_write, enforce_memory_limit}
use ferrum_kv.Storage.Engine.Commands.{mset}
use ferrum_kv.Storage.Engine.Behaviour.{release_store, log_store}
use ferrum_kv.Storage.Engine.Refinement.{view, view-insert}

-- What a client sees of a key behind the assignments, the last of which counts.
abbrev pub assigned :
    List (Bytes × Bytes) → Bytes → Option (Bytes × Option ℕ) → Option (Bytes × Option ℕ)
assigned [] j old = old
assigned ((k, v) ∷ pairs) j old = assigned pairs j (if bytes_eq k j then some (v, none) else old)

abbrev pub assigned_unless :
    Option FerrumError
    → List (Bytes × Bytes)
    → Bytes
    → Option (Bytes × Option ℕ)
    → Option (Bytes × Option ℕ)
assigned_unless none pairs j old = assigned pairs j old
assigned_unless (some x) pairs j old = old

-- What is wrong with a pair: an empty key, one of more than 64 KiB, or a value of more than 16 MiB.
abbrev pub fault : Bytes → Bytes → Option FerrumError
fault k v =
    if length k == 0
    then some (parse_error (codes "key must not be empty"))
    else if ltb 65536 (length k)
    then some (key_too_long (length k) 65536)
    else if ltb 16777216 (length v)
    then some (value_too_large (length v) 16777216)
    else none

-- What is wrong with the first pair that has a fault.
abbrev pub first_fault : List (Bytes × Bytes) → Option FerrumError
first_fault [] = none
first_fault ((k, v) ∷ pairs) = elim (fault k v) [ some x ↦ some x | none ↦ first_fault pairs ]

abbrev pub answer : Option FerrumError → Result (Unit {0})
answer none = ok tt
answer (some x) = err x

fault_lem : (k v : Bytes) → validate_key k >> validate_value v ≡ answer (fault k v)
unfolding validate_key validate_value
fault_lem k v = ground arith

-- The pairs behind one that has no fault, or the fault.
onward :
    (f : Option FerrumError) (pairs : List (Bytes × Bytes))
    → validate_all pairs ≡ answer (first_fault pairs)
    → answer f >> validate_all pairs
      ≡ answer (elim f [ some x ↦ some x | none ↦ first_fault pairs ])
onward none pairs rest = rest
onward (some x) pairs rest = refl

validate_all-first_fault :
    (pairs : List (Bytes × Bytes)) → validate_all pairs ≡ answer (first_fault pairs)
unfolding validate_all
validate_all-first_fault [] = refl
validate_all-first_fault ((k, v) ∷ pairs) =
    ap (λ r. r >> validate_all pairs) (fault_lem k v)
    ∙ onward (fault k v) pairs (validate_all-first_fault pairs)

module _ {h : Host} where
  -- Without a limit there is room for all, and nothing changes.
  room_free :
      (g : WriteGuard h) (k : Bytes) (n : ℕ)
      → g.engine.eviction.max_memory ≡ 0
      → make_room g k n ≡ (g, ok tt)
  unfolding make_room enforce_for_write enforce_memory_limit
  room_free g k n z =
      let off : (g.engine.eviction.max_memory == 0) ≡ true = ground (arith, z) in rw off refl

  room_for_all_free :
      (g : WriteGuard h) (pairs : List (Bytes × Bytes))
      → g.engine.eviction.max_memory ≡ 0
      → room_for_all g pairs ≡ (g, ok tt)
  unfolding room_for_all
  room_for_all_free g [] z = refl
  room_for_all_free g ((k, v) ∷ pairs) z =
      ap (λ x. elim x.1 [ err y ↦ (x.0, err y) | ok _ ↦ room_for_all x.0 pairs ])
        (room_free g k (length v) z)
      ∙ room_for_all_free g pairs z

  put_store :
      (g : WriteGuard h) (k v : Bytes)
      → (put g k (new g.clock v)).0.engine.store ≡ Assoc.insert k (new g.clock v) g.engine.store
  unfolding put track_insert
  put_store g k v = refl

  put_all-view :
      (now : ℕ) (g : WriteGuard h) (pairs : List (Bytes × Bytes)) (j : Bytes)
      → view (put_all g pairs).engine.store now j ≡ assigned pairs j (view g.engine.store now j)
  unfolding put_all new new_with is_expired
  put_all-view now g [] j = refl
  put_all-view now g ((k, v) ∷ pairs) j =
      put_all-view now (put g k (new g.clock v)).0 pairs j
      ∙ ap (assigned pairs j) (
          ap (λ m. view m now j) (put_store g k v)
          ∙ view-insert g.engine.store now k j (new g.clock v))

  insert_many-view :
      (now : ℕ) (g : WriteGuard h) (pairs : List (Bytes × Bytes)) (j : Bytes)
      → g.engine.eviction.max_memory ≡ 0
      → ((insert_many g pairs).1 ≡ answer (first_fault pairs))
        × (view (insert_many g pairs).0.engine.store now j
            ≡ assigned_unless (first_fault pairs) pairs j (view g.engine.store now j))
  unfolding insert_many
  insert_many-view now g pairs j z = elim (Option-cases (first_fault pairs)) [
    | inr (x, f) ↦
        let q : validate_all pairs ≡ err x = validate_all-first_fault pairs ∙ ap answer f in
        (rw (insert_many, q, f) refl, rw (insert_many, q, f) refl)
    | inl f ↦
        let q : validate_all pairs ≡ ok tt = validate_all-first_fault pairs ∙ ap answer f in
        let room = room_for_all_free g pairs z in
        let g1 = (room_for_all g pairs).0 in
        let recs = map (λ p. set_record p.0 p.1) pairs in
        let same = log_store g1 recs ∙ ap (λ x. x.0.engine.store) room in
        let ended : (room_for_all g pairs).1 ≡ ok tt = ap (λ x. x.1) room in
        (
          rw (insert_many, q, ended, f) refl,
          rw (insert_many, q, ended, f)
              (put_all-view now (log g1 recs) pairs j
                ∙ ap (λ m. assigned pairs j (view m now j)) same),
        )
  ]

  -- Without a memory limit, MSET of valid pairs gives each key the last value that the pairs have for it,
  -- without a deadline, and changes no other key; if a key is empty or has more than 64 KiB, or a value
  -- more than 16 MiB, it answers the error of the first such pair and changes nothing.
  pub mset-view :
      (c : Clock) (e : KvEngine h) (pairs : List (Bytes × Bytes)) (j : Bytes)
      → e.eviction.max_memory ≡ 0
      → ((mset c e pairs).1 ≡ answer (first_fault pairs))
        × (view (mset c e pairs).0.store c.now j
            ≡ assigned_unless (first_fault pairs) pairs j (view e.store c.now j))
  unfolding mset begin
  mset-view c e pairs j z =
      let p = insert_many-view c.now (begin e c) pairs j z in
      (p.0, ap (λ m. view m c.now j) (release_store (insert_many (begin e c) pairs).0) ∙ p.1)
