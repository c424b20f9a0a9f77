-- ===== src/Storage/Engine/Refinement/Counters.antt =====
-- INCRBY and APPEND, which compute a value from the old one, on the abstract keyspace.
use ferrum_kv.Prelude.{
  ℕ, ◌≡◌, refl, sym, ap, ◌∙◌, subst, Option, none, some, [], ◌∷◌, arith, Bytes, length, bytes_eq,
  bytes_eq_iff, Option-cases, Bool-cases, inl, inr, if◌then◌else◌,
}
use ferrum_kv.Prelude.Int.{ℤ, pos, ◌+ℤ◌, in_i64}
use ferrum_kv.Prelude.Decimal.{print_int, parse_i64}
use ferrum_kv.Error.{Result, ok, err, Result-cases}
use ferrum_kv.Storage.Assoc.{get, remove, Distinct}
use ferrum_kv.Storage.Assoc
use ferrum_kv.Storage.Entry.{Clock, new_with, is_expired}
use ferrum_kv.Storage.Engine.{Host, KvEngine}
use ferrum_kv.Storage.Engine.Track.{track_insert, track_remove, append}
use ferrum_kv.Storage.Engine.Guard.{
  WriteGuard, begin, log, put, make_room, drop_expired, validate_key, validate_value, set_record,
}
use ferrum_kv.Storage.Engine.Guard.Writes.{read_state, insert_keep_ttl, log_deadline}
use ferrum_kv.Storage.Engine.Commands.{
  current_integer, checked_add, not_an_integer, appended, store_kept, incr_guarded, incr_by,
  append_guarded, append_value,
}
use ferrum_kv.Storage.Engine.Behaviour.{release_store, log_store}
use ferrum_kv.Storage.Engine.Refinement.{view, view-insert}
use ferrum_kv.Storage.Engine.Refinement.Lookup.{expired, Lookup-view}
use ferrum_kv.Storage.Engine.Refinement.Lookups.{drop_expired_store}
use ferrum_kv.Storage.Engine.Refinement.Updates.{make_room_free}
use ferrum_kv.Storage.Engine.Refinement.Changes.{
  Change, answer_of, changed, plus, incremented, extended, KeepsAhead, view-Alive,
  incremented-KeepsAhead, extended-KeepsAhead,
}

module _ {h : Host} where
  -- What `read_state` finds is what a client sees, and it changes nothing of that.
  record Reads (g : WriteGuard h) (k : Bytes) : Type 0 where
    state : (read_state g k).1 ≡ view g.engine.store g.clock.now k
    same :
        (j : Bytes)
        → view (read_state g k).0.engine.store g.clock.now j ≡ view g.engine.store g.clock.now j
    limit : (read_state g k).0.engine.eviction ≡ g.engine.eviction

  read_state-Reads : (g : WriteGuard h) (k : Bytes) → Distinct g.engine.store → Reads g k
  unfolding read_state drop_expired append track_remove
  read_state-Reads g k d = elim (Option-cases (get k g.engine.store)) [
    | inl q ↦ record {
      state = rw (read_state, q) refl;
      same = λ j. rw (read_state, q) refl;
      limit = rw (read_state, q) refl;
    }
    | inr (v, q) ↦ elim (Bool-cases (is_expired v g.clock.now)) [
      | inl x ↦ record {
        state = rw (read_state, q, x) refl;
        same = λ j.
            rw (read_state, q, x)
              (ap (λ m. view m g.clock.now j) (drop_expired_store g k)
                ∙ Lookup-view j (expired v q x) d);
        limit = ground (arith, q, x);
      }
      | inr x ↦ record {
        state = rw (read_state, q, x) refl;
        same = λ j. rw (read_state, q, x) refl;
        limit = rw (read_state, q, x) refl;
      }
    ]
  ]

  log_deadline_store :
      (g : WriteGuard h) (k : Bytes) (ttl : Option ℕ)
      → (log_deadline g k ttl).engine.store ≡ g.engine.store
  unfolding log_deadline append log
  log_deadline_store g k none = refl
  log_deadline_store g k (some d) = ground arith

  store_kept_store :
      {A : Type 0} (g : WriteGuard h) (k v : Bytes) (ttl : Option ℕ) (a : A)
      → g.engine.eviction.max_memory ≡ 0
      → ((store_kept g k v ttl a).0.engine.store
          ≡ Assoc.insert k (new_with g.clock v ttl) g.engine.store)
        × ((store_kept g k v ttl a).1 ≡ ok a)
  unfolding store_kept insert_keep_ttl put track_insert
  store_kept_store g k v ttl a z =
      let room = make_room_free g k (length v) z in
      let g1 = (make_room g k (length v)).0 in
      let f =
        log_deadline_store (log g1 (set_record k v ∷ [])) k ttl
        ∙ log_store g1 (set_record k v ∷ []) in
      (
        rw (store_kept, insert_keep_ttl, room.1, f, room.0) refl,
        rw (store_kept, insert_keep_ttl, room.1) refl,
      )

module _ {h : Host} where
  -- The guard's write of a change, or nothing.
  abbrev finish : {A : Type 0} → WriteGuard h → Bytes → Change A → WriteGuard h × Result A
  finish g k (err x) = (g, err x)
  finish g k (ok (a, v, ttl)) = store_kept g k v ttl a

  finish-view :
      {A : Type 0} (now : ℕ) (g : WriteGuard h) (k j : Bytes) (r : Change A)
      → g.engine.eviction.max_memory ≡ 0
      → KeepsAhead r now
      → ((finish g k r).1 ≡ answer_of r)
        × (view (finish g k r).0.engine.store now j ≡ (
            if bytes_eq k j
            then changed r (view g.engine.store now k)
            else view g.engine.store now j))
  unfolding new_with
  finish-view now g k j (err x) z ahead = (
    refl,
    elim (Bool-cases (bytes_eq k j)) [
      | inl y ↦ let same : k ≡ j = (bytes_eq_iff k j).0 y in rw (y, same) refl
      | inr n ↦ rw n refl
    ],
  )
  finish-view now g k j (ok (a, v, ttl)) z ahead =
      let s = store_kept_store g k v ttl a z in
      (
        s.1,
        ap (λ m. view m now j) s.0
            ∙ view-insert g.engine.store now k j (new_with g.clock v ttl)
            ∙ rw (ahead v g.clock) refl,
      )

  -- The sum of the number that was found, and its write.
  abbrev summed : WriteGuard h → Bytes → ℤ → ℤ → Option ℕ → WriteGuard h × Result ℤ
  summed g k delta n ttl = elim (checked_add n delta) [
    | none ↦ (g, err not_an_integer)
    | some sum ↦ store_kept g k (print_int sum) ttl sum
  ]

  summed-finish :
      (g : WriteGuard h) (k : Bytes) (delta n : ℤ) (ttl : Option ℕ)
      → summed g k delta n ttl ≡ finish g k (plus delta ttl (some n))
  unfolding checked_add
  summed-finish g k delta n ttl = elim (Bool-cases (in_i64 (n +ℤ delta))) [
    | inl y ↦ rw (summed, checked_add, y) refl
    | inr m ↦ rw (summed, checked_add, m) refl
  ]

  incr_guarded-finish :
      (g : WriteGuard h) (k : Bytes) (delta : ℤ)
      → incr_guarded g k delta ≡ finish (read_state g k).0 k (incremented delta (read_state g k).1)
  unfolding incr_guarded current_integer
  incr_guarded-finish g k delta = elim (Option-cases (read_state g k).1) [
    | inl q ↦ rw (incr_guarded, q) (summed-finish (read_state g k).0 k delta (pos 0) none)
    | inr ((p, ttl), q) ↦ elim (Option-cases (parse_i64 p)) [
      | inl r ↦ rw (incr_guarded, q, r) refl
      | inr (n, r) ↦ rw (incr_guarded, q, r) (summed-finish (read_state g k).0 k delta n ttl)
    ]
  ]

  append_guarded-finish :
      (g : WriteGuard h) (k suffix : Bytes)
      → append_guarded g k suffix ≡ finish (read_state g k).0 k (extended suffix (read_state g k).1)
  unfolding append_guarded
  append_guarded-finish g k suffix =
      elim (Result-cases (validate_value (appended (read_state g k).1 suffix).0)) [
        | inl (x, q) ↦ rw (append_guarded, q) refl
        | inr (t, q) ↦ rw (append_guarded, q) refl
      ]

  -- A guarded command that reads the old value and finishes with its change.
  guarded-view :
      {A : Type 0} (g : WriteGuard h) (k j : Bytes) (change : Option (Bytes × Option ℕ) → Change A)
      (x : WriteGuard h × Result A)
      → x ≡ finish (read_state g k).0 k (change (read_state g k).1)
      → Distinct g.engine.store
      → g.engine.eviction.max_memory ≡ 0
      → KeepsAhead (change (view g.engine.store g.clock.now k)) g.clock.now
      → (x.1 ≡ answer_of (change (view g.engine.store g.clock.now k)))
        × (view x.0.engine.store g.clock.now j ≡ (
            if bytes_eq k j
            then changed
                (change (view g.engine.store g.clock.now k))
                (view g.engine.store g.clock.now k)
            else view g.engine.store g.clock.now j))
  guarded-view g k j change x e d z ahead =
      let r = read_state-Reads g k d in
      let now = g.clock.now in
      let f =
        finish-view now (read_state g k).0 k j (change (read_state g k).1)
          (ap (λ c. c.max_memory) r.limit ∙ z)
          (subst (λ o. KeepsAhead (change o) now) (sym r.state) ahead) in
      (
        ap (λ y. y.1) e ∙ f.0 ∙ ap (λ o. answer_of (change o)) r.state,
        ap (λ y. view y.0.engine.store now j) e ∙ f.1 ∙ rw (r.state, r.same k, r.same j) refl,
      )

  -- Without a memory limit, INCRBY of a valid key adds to the integer that the abstract keyspace has, or
  -- to zero, keeps the deadline, and answers the sum; an error, where the value is no integer or the sum
  -- is out of range, changes nothing. No other key is changed, and no key stands twice.
  pub incr_by-view :
      (c : Clock) (e : KvEngine h) (k j : Bytes) (delta : ℤ)
      → Distinct e.store
      → e.eviction.max_memory ≡ 0
      → validate_key k ≡ ok tt
      → let r = incremented delta (view e.store c.now k) in
        ((incr_by c e k delta).1 ≡ answer_of r)
        × (view (incr_by c e k delta).0.store c.now j
            ≡ (if bytes_eq k j then changed r (view e.store c.now k) else view e.store c.now j))
  unfolding incr_by begin
  incr_by-view c e k j delta d z valid =
      let g : WriteGuard h = begin e c in
      let p =
        guarded-view g k j (incremented delta) (incr_guarded g k delta)
          (incr_guarded-finish g k delta) d z
          (incremented-KeepsAhead delta (view e.store c.now k) c.now
            (view-Alive e.store c.now k)) in
      rw (incr_by, valid)
        (p.0, ap (λ m. view m c.now j) (release_store (incr_guarded g k delta).0) ∙ p.1)

  -- Without a memory limit, APPEND to a valid key puts the suffix behind the value of the abstract
  -- keyspace, or behind nothing, keeps the deadline, and answers the new length; a value that would be
  -- too long is refused and changes nothing. No other key is changed, and no key stands twice.
  pub append_value-view :
      (c : Clock) (e : KvEngine h) (k j suffix : Bytes)
      → Distinct e.store
      → e.eviction.max_memory ≡ 0
      → validate_key k ≡ ok tt
      → let r = extended suffix (view e.store c.now k) in
        ((append_value c e k suffix).1 ≡ answer_of r)
        × (view (append_value c e k suffix).0.store c.now j
            ≡ (if bytes_eq k j then changed r (view e.store c.now k) else view e.store c.now j))
  unfolding append_value begin
  append_value-view c e k j suffix d z valid =
      let g : WriteGuard h = begin e c in
      let p =
        guarded-view g k j (extended suffix) (append_guarded g k suffix)
          (append_guarded-finish g k suffix) d z
          (extended-KeepsAhead suffix (view e.store c.now k) c.now (view-Alive e.store c.now k)) in
      rw (append_value, valid)
        (p.0, ap (λ m. view m c.now j) (release_store (append_guarded g k suffix).0) ∙ p.1)
