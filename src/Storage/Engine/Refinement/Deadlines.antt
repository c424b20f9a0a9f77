-- ===== src/Storage/Engine/Refinement/Deadlines.antt =====
-- `PEXPIREAT` and `PERSIST` on the abstract keyspace.
use ferrum_kv.Prelude.{
  ℕ, ◌+◌, ◌-◌, ◌*◌, ◌≡◌, refl, sym, ap, ◌∙◌, Bool, true, false, leb, Option, none, some, [], ◌∷◌,
  arith, Bytes, codes, bytes_eq, bytes_eq_iff, Option-cases, Bool-cases, inl, inr, if◌then◌else◌,
}
use ferrum_kv.Prelude.Int.{ℤ, pos_part}
use ferrum_kv.Storage.Assoc.{get, remove, Distinct}
use ferrum_kv.Storage.Assoc
use ferrum_kv.Storage.Assoc.Laws.{get-remove_self, remove-Distinct, insert-Distinct}
use ferrum_kv.Storage.Entry.{ValueEntry, Clock, is_expired}
use ferrum_kv.Storage.Keyspace.{Keyspace}
use ferrum_kv.Storage.Engine.{Host, KvEngine}
use ferrum_kv.Storage.Engine.Track.{
  track_remove, sieve_notify_insert, ac_notify_insert, sieve_notify_remove, ac_notify_remove,
}
use ferrum_kv.Storage.Engine.Guard.{WriteGuard, begin, log, take_out, del_record, pexpireat_record}
use ferrum_kv.Storage.Engine.Guard.Expiry
use ferrum_kv.Storage.Engine.Guard.Expiry.{
  expire_at, drop_if_expired, expire_present, set_deadline, clear_deadline,
}
use ferrum_kv.Storage.Engine.Commands.{expire_at_ms, persist}
use ferrum_kv.Storage.Engine.Behaviour.{release_store, log_store}
use ferrum_kv.Storage.Engine.Refinement.{seen, seen_at, view, view-insert, view-remove}
use ferrum_kv.Storage.Engine.Refinement.Lookups.{drop_expired_store}
use ferrum_kv.Storage.Engine.Refinement.Lookup.{
  is_some, Lookup, absent, expired, peeked, touched, Lookup-view, Lookup-seen, Lookup-live,
}

-- The deadline of a time in milliseconds since the epoch.
abbrev pub deadline_at : Clock → ℤ → ℕ
deadline_at c ms = c.now + (pos_part ms - c.now_ms) * 1_000_000

-- What a client sees of a key whose deadline is set: nothing, once the time is not after the clock.
abbrev pub with_deadline : Clock → ℤ → Option (Bytes × Option ℕ) → Option (Bytes × Option ℕ)
with_deadline c ms none = none
with_deadline c ms (some x) =
    if leb (pos_part ms) c.now_ms then none else some (x.0, some (deadline_at c ms))

abbrev pub without_deadline : Option (Bytes × Option ℕ) → Option (Bytes × Option ℕ)
without_deadline none = none
without_deadline (some x) = some (x.0, none)

abbrev pub has_deadline : Option (Bytes × Option ℕ) → Bool
has_deadline none = false
has_deadline (some x) = elim x.1 [ none ↦ false | some d ↦ true ]

pub Lookup-Distinct :
    {m : Keyspace} {k : Bytes} {now : ℕ} {m1 : Keyspace} {o : Option ValueEntry}
    → Lookup m k now m1 o
    → Distinct m
    → Distinct m1
Lookup-Distinct (absent q) d = d
Lookup-Distinct {m = m} {k = k} (expired e q x) d = remove-Distinct k m d
Lookup-Distinct (peeked e q x) d = d
Lookup-Distinct {m = m} {k = k} (touched e e1 q x p t) d = insert-Distinct k e1 m d

-- At a key that is not seen nothing changes.
pub nothing :
    (m : Keyspace) (now : ℕ) (k j : Bytes)
    → view m now k ≡ none
    → view m now j ≡ (if bytes_eq k j then none else view m now j)
nothing m now k j gone = elim (Bool-cases (bytes_eq k j)) [
  | inl y ↦ let same : k ≡ j = (bytes_eq_iff k j).0 y in rw (y, ← same, gone) refl
  | inr n ↦ rw n refl
]

unchanged :
    (m : Keyspace) (now : ℕ) (k j : Bytes) (x : Bytes × Option ℕ)
    → view m now k ≡ some x
    → view m now j ≡ (if bytes_eq k j then some x else view m now j)
unchanged m now k j x there = elim (Bool-cases (bytes_eq k j)) [
  | inl y ↦ let same : k ≡ j = (bytes_eq_iff k j).0 y in rw (y, ← same, there) refl
  | inr n ↦ rw n refl
]

module _ {h : Host} where
  pub drop_if_expired-Lookup :
      (g : WriteGuard h) (k : Bytes)
      → (o : Option ValueEntry) × Lookup g.engine.store k g.clock.now
          (drop_if_expired g k).engine.store
          o
        × (Distinct g.engine.store → get k (drop_if_expired g k).engine.store ≡ o)
  unfolding drop_if_expired
  drop_if_expired-Lookup g k = elim (Option-cases (get k g.engine.store)) [
    | inl q ↦ (none, rw (drop_if_expired, q) (absent q), λ d. rw (drop_if_expired, q) q)
    | inr (v, q) ↦ elim (Bool-cases (is_expired v g.clock.now)) [
      | inl x ↦
          let s = drop_expired_store g k in
          (
            none,
            rw (drop_if_expired, q, x, s) (expired v q x),
            λ d. rw (drop_if_expired, q, x, s) (get-remove_self k g.engine.store d),
          )
      | inr x ↦
          (some v, rw (drop_if_expired, q, x) (peeked v q x), λ d. rw (drop_if_expired, q, x) q)
    ]
  ]

  pub set_deadline_store :
      (g : WriteGuard h) (k : Bytes) (v : ValueEntry) (ms : ℤ)
      → (set_deadline g k v ms).engine.store
        ≡ Assoc.insert k (record v { expire_at = some (deadline_at g.clock ms) }) g.engine.store
  unfolding set_deadline sieve_notify_insert ac_notify_insert
  set_deadline_store g k v ms =
      let stored =
        Assoc.insert k (record v { expire_at = some (deadline_at g.clock ms) }) g.engine.store in
      let e1 = sieve_notify_insert h (record g.engine { store = stored }) k true in
      log_store (record g { engine = ac_notify_insert h e1 k true }) (pexpireat_record k ms ∷ [])

  clear_deadline_store :
      (g : WriteGuard h) (k : Bytes) (v : ValueEntry)
      → (clear_deadline g k v).engine.store
        ≡ Assoc.insert k (record v { expire_at = none }) g.engine.store
  unfolding clear_deadline sieve_notify_remove ac_notify_remove
  clear_deadline_store g k v =
      let stored = Assoc.insert k (record v { expire_at = none }) g.engine.store in
      let e1 = sieve_notify_remove h (record g.engine { store = stored }) k in
      log_store (record g { engine = ac_notify_remove h e1 k }) ((codes "PERSIST" ∷ k ∷ []) ∷ [])

  pub take_out_logged :
      (g : WriteGuard h) (k : Bytes)
      → (log (take_out g k).0 (del_record k ∷ [])).engine.store ≡ remove k g.engine.store
  unfolding take_out track_remove
  take_out_logged g k = log_store (take_out g k).0 (del_record k ∷ [])

  -- A present key: its entry goes, or takes the deadline.
  delete_expired_lem :
      (g : WriteGuard h) (k j : Bytes) (v : ValueEntry) (ms : ℤ)
      → Distinct g.engine.store
      → get k g.engine.store ≡ some v
      → is_expired v g.clock.now ≡ false
      → ((expire_present g k v ms).1 ≡ true)
        × (view (expire_present g k v ms).0.engine.store g.clock.now j ≡ (
            if bytes_eq k j
            then with_deadline g.clock ms (seen v g.clock.now)
            else view g.engine.store g.clock.now j))
  unfolding expire_present is_expired
  delete_expired_lem g k j v ms d q x = elim (Bool-cases (leb (pos_part ms) g.clock.now_ms)) [
    | inl past ↦
        let w : with_deadline g.clock ms (seen v g.clock.now) ≡ none = rw (x, past) refl in
        (
          rw (expire_present, past) refl,
          rw (expire_present, past, w)
              (ap (λ m. view m g.clock.now j) (take_out_logged g k)
                ∙ view-remove g.engine.store g.clock.now k j d),
        )
    | inr later ↦
        let live : leb (deadline_at g.clock ms) g.clock.now ≡ false = ground (arith, later) in
        let w : with_deadline g.clock ms (seen v g.clock.now)
            ≡ some (v.payload, some (deadline_at g.clock ms)) =
          rw (x, later) refl in
        (
          rw (expire_present, later) refl,
          rw (expire_present, later, w)
              (ap (λ m. view m g.clock.now j) (set_deadline_store g k v ms)
                ∙ view-insert g.engine.store g.clock.now k j
                    (record v { expire_at = some (deadline_at g.clock ms) })
                ∙ rw live refl),
        )
  ]

  set_deadline_lem :
      (g : WriteGuard h) (k j : Bytes) (ms : ℤ)
      → Distinct g.engine.store
      → ((expire_at g k ms).1 ≡ is_some (view g.engine.store g.clock.now k))
        × (view (expire_at g k ms).0.engine.store g.clock.now j ≡ (
            if bytes_eq k j
            then with_deadline g.clock ms (view g.engine.store g.clock.now k)
            else view g.engine.store g.clock.now j))
  unfolding expire_at
  set_deadline_lem g k j ms d =
      let (o, look, at) = drop_if_expired-Lookup g k in
      let g1 = drop_if_expired g k in
      let same = Lookup-view j look d in
      let found = Lookup-seen look in
      elim (Lookup-live look) [
        | inl q ↦
            let gone : view g.engine.store g.clock.now k ≡ none =
              sym found ∙ ap (λ x. seen_at x g.clock.now) q in
            (
              rw (expire_at, at d ∙ q, gone) refl,
              rw (expire_at, at d ∙ q, gone) (same ∙ nothing g.engine.store g.clock.now k j gone),
            )
        | inr (v, q, x) ↦
            let there : seen v g.clock.now ≡ view g.engine.store g.clock.now k =
              ap (λ x. seen_at x g.clock.now) (sym q) ∙ found in
            let there_some : is_some (view g.engine.store g.clock.now k) ≡ true =
              rw (← there, x) refl in
            let p = delete_expired_lem g1 k j v ms (Lookup-Distinct look d) (at d ∙ q) x in
            (
              rw (expire_at, at d ∙ q, there_some) p.0,
              rw (expire_at, at d ∙ q, ← there, ← same) p.1,
            )
      ]

  -- `PEXPIREAT` tells whether the abstract keyspace had the key. It gives a key that is there the
  -- deadline, or removes it where the time is not after the clock, and changes no other key. No key
  -- stands twice.
  pub expire_at_ms-view :
      (c : Clock) (e : KvEngine h) (k j : Bytes) (ms : ℤ)
      → Distinct e.store
      → ((expire_at_ms c e k ms).1 ≡ is_some (view e.store c.now k))
        × (view (expire_at_ms c e k ms).0.store c.now j ≡ (
            if bytes_eq k j
            then with_deadline c ms (view e.store c.now k)
            else view e.store c.now j))
  unfolding expire_at_ms begin
  expire_at_ms-view c e k j ms d =
      let p = set_deadline_lem (begin e c) k j ms d in
      (p.0, ap (λ m. view m c.now j) (release_store (expire_at (begin e c) k ms).0) ∙ p.1)

  -- A live key under `PERSIST`, with or without a deadline.
  persist_live :
      (g : WriteGuard h) (k j : Bytes) (v : ValueEntry)
      → get k g.engine.store ≡ some v
      → is_expired v g.clock.now ≡ false
      → ((Expiry.persist g k).1 ≡ has_deadline (some (v.payload, v.expire_at)))
        × (view (Expiry.persist g k).0.engine.store g.clock.now j
            ≡ (if bytes_eq k j then some (v.payload, none) else view g.engine.store g.clock.now j))
  unfolding Expiry.persist is_expired
  persist_live g k j v q x = elim (Option-cases v.expire_at) [
    | inl plain ↦ (
      rw (Expiry.persist, q, x, plain) refl,
      rw (Expiry.persist, q, x, plain)
          (unchanged g.engine.store g.clock.now k j (v.payload, none) (rw (q, x, plain) refl)),
    )
    | inr (deadline, timed) ↦ (
      rw (Expiry.persist, q, x, timed) refl,
      rw (Expiry.persist, q, x, timed)
          (ap (λ m. view m g.clock.now j) (clear_deadline_store g k v)
            ∙ view-insert g.engine.store g.clock.now k j (record v { expire_at = none })),
    )
  ]

  clear_deadline_lem :
      (g : WriteGuard h) (k j : Bytes)
      → Distinct g.engine.store
      → ((Expiry.persist g k).1 ≡ has_deadline (view g.engine.store g.clock.now k))
        × (view (Expiry.persist g k).0.engine.store g.clock.now j ≡ (
            if bytes_eq k j
            then without_deadline (view g.engine.store g.clock.now k)
            else view g.engine.store g.clock.now j))
  unfolding Expiry.persist
  clear_deadline_lem g k j d = elim (Option-cases (get k g.engine.store)) [
    | inl q ↦
        let gone : view g.engine.store g.clock.now k ≡ none = rw q refl in
        (
          rw (Expiry.persist, q) refl,
          rw (Expiry.persist, q) (nothing g.engine.store g.clock.now k j gone),
        )
    | inr (v, q) ↦ elim (Bool-cases (is_expired v g.clock.now)) [
      | inl x ↦
          let gone : view g.engine.store g.clock.now k ≡ none = rw (q, x) refl in
          let s = ap (λ m. view m g.clock.now j) (drop_expired_store g k) in
          (
            rw (Expiry.persist, q, x) refl,
            rw (gone, Expiry.persist, q, x) (s ∙ view-remove g.engine.store g.clock.now k j d),
          )
      | inr x ↦
          let there : view g.engine.store g.clock.now k ≡ some (v.payload, v.expire_at) =
            rw (q, x) refl in
          let p = persist_live g k j v q x in (p.0 ∙ ap has_deadline (sym there), rw there p.1)
    ]
  ]

  -- `PERSIST` tells whether the abstract keyspace had the key with a deadline. It takes the deadline
  -- from the key, and changes no other key. No key stands twice.
  pub persist-view :
      (c : Clock) (e : KvEngine h) (k j : Bytes)
      → Distinct e.store
      → ((persist c e k).1 ≡ has_deadline (view e.store c.now k))
        × (view (persist c e k).0.store c.now j ≡ (
            if bytes_eq k j then without_deadline (view e.store c.now k) else view e.store c.now j))
  unfolding persist begin
  persist-view c e k j d =
      let p = clear_deadline_lem (begin e c) k j d in
      (p.0, ap (λ m. view m c.now j) (release_store (Expiry.persist (begin e c) k).0) ∙ p.1)
