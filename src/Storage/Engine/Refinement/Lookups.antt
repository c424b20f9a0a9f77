-- ===== src/Storage/Engine/Refinement/Lookups.antt =====
-- The commands that look a key up answer from the abstract keyspace and leave it as it was.
use ferrum_kv.Prelude.{
  ◌≡◌, refl, ap, ◌∙◌, true, false, Option, none, some, arith, Bytes, Option-cases, Bool-cases, inl,
  inr,
}
use ferrum_kv.Storage.Assoc.{get, insert, remove, Distinct}
use ferrum_kv.Storage.Entry.{ValueEntry, Clock, is_expired, touch}
use ferrum_kv.Storage.Engine.{Host, KvEngine}
use ferrum_kv.Storage.Engine.Track.{
  track_remove, append, log_expire_drop, touch_access, record_hit, record_miss,
}
use ferrum_kv.Storage.Engine.Growth.{touch_access_frame}
use ferrum_kv.Storage.Engine.Guard.{
  WriteGuard, missing, begin, drop_expired, miss, fetch_live, contains_live,
}
use ferrum_kv.Storage.Engine.Guard.Expiry.{ttl_of, strlen_of}
use ferrum_kv.Storage.Engine.Commands.{guarded}
use ferrum_kv.Storage.Engine.Reads.{get_value, exists_key, strlen, ttl_ms}
use ferrum_kv.Storage.Engine.Behaviour.{release_store}
use ferrum_kv.Storage.Engine.Refinement.{view}
use ferrum_kv.Storage.Engine.Refinement.Lookup.{
  Lookup, absent, expired, peeked, touched, Lookup-view, Lookup-seen, Lookup-live, payload_of,
  present_of, size_of, ttl_of_entry, payload_of_seen, present_of_seen, size_of_seen,
  ttl_of_entry_seen, value_of, is_some, length_of, status_of,
}

module _ {h : Host} where
  pub drop_expired_store :
      (g : WriteGuard h) (k : Bytes) → (drop_expired g k).engine.store ≡ remove k g.engine.store
  unfolding drop_expired log_expire_drop append track_remove
  drop_expired_store g k = ground arith

  touch_store :
      (c : Clock) (e : KvEngine h) (k : Bytes) (v : ValueEntry)
      → get k e.store ≡ some v
      → (w : ValueEntry) × ((touch_access h c e k).store ≡ insert k w e.store)
        × (w.payload ≡ v.payload)
        × (w.expire_at ≡ v.expire_at)
  unfolding touch
  touch_store c e k v q =
      let f = touch_access_frame c e k v q in (touch h.floats c f.0 v, f.1, refl, refl)

  -- The guard's answer and keyspace at an expired key.
  abbrev Dropped : {A : Type 0} → WriteGuard h → Bytes → WriteGuard h × A → A → Type 0
  Dropped g k out a = (out.0.engine.store ≡ remove k g.engine.store) × (out.1 ≡ a)

  module _ (g : WriteGuard h) (k : Bytes) (v : ValueEntry) (q : get k g.engine.store ≡ some v)
      (x : is_expired v g.clock.now ≡ true) where
    fetch_live-Dropped : Dropped g k (fetch_live g k) none
    unfolding fetch_live miss record_miss
    fetch_live-Dropped =
        (rw (fetch_live, q, x) (drop_expired_store g k), rw (fetch_live, q, x) refl)

    contains_live-Dropped : Dropped g k (contains_live g k) false
    unfolding contains_live miss record_miss
    contains_live-Dropped =
        (rw (contains_live, q, x) (drop_expired_store g k), rw (contains_live, q, x) refl)

    ttl_of-Dropped : Dropped g k (ttl_of g k) missing
    unfolding ttl_of
    ttl_of-Dropped = (rw (ttl_of, q, x) (drop_expired_store g k), rw (ttl_of, q, x) refl)

    strlen_of-Dropped : Dropped g k (strlen_of g k) 0
    unfolding strlen_of
    strlen_of-Dropped = (rw (strlen_of, q, x) (drop_expired_store g k), rw (strlen_of, q, x) refl)

  guarded_store :
      {A : Type 0} (c : Clock) (e : KvEngine h) (k : Bytes) (f : WriteGuard h → WriteGuard h × A)
      (a : A)
      → Dropped (begin e c) k (f (begin e c)) a
      → ((guarded c e f).0.store ≡ remove k e.store) × ((guarded c e f).1 ≡ a)
  unfolding begin
  guarded_store c e k f a d = (release_store (f (begin e c)).0 ∙ d.0, d.1)

  get_value-Lookup :
      (c : Clock) (e : KvEngine h) (k : Bytes)
      → (o : Option ValueEntry) × Lookup e.store k c.now (get_value c e k).0.store o
        × ((get_value c e k).1 ≡ payload_of o)
  unfolding get_value begin record_miss record_hit
  get_value-Lookup c e k = elim (Option-cases (get k e.store)) [
    | inl q ↦ (none, rw (get_value, q) (absent q), rw (get_value, q) refl)
    | inr (v, q) ↦ elim (Bool-cases (is_expired v c.now)) [
      | inl x ↦
          let d =
            guarded_store c e k (λ g. fetch_live g k) none
              (fetch_live-Dropped (begin e c) k v q x) in
          (none, rw (get_value, q, x, d.0) (expired v q x), rw (get_value, q, x) d.1)
      | inr x ↦
          let f = touch_store c e k v q in
          (some v, rw (get_value, q, x, f.1) (touched v f.0 q x f.2 f.3), rw (get_value, q, x) refl)
    ]
  ]

  exists_key-Lookup :
      (c : Clock) (e : KvEngine h) (k : Bytes)
      → (o : Option ValueEntry) × Lookup e.store k c.now (exists_key c e k).0.store o
        × ((exists_key c e k).1 ≡ present_of o)
  unfolding exists_key begin record_miss record_hit
  exists_key-Lookup c e k = elim (Option-cases (get k e.store)) [
    | inl q ↦ (none, rw (exists_key, q) (absent q), rw (exists_key, q) refl)
    | inr (v, q) ↦ elim (Bool-cases (is_expired v c.now)) [
      | inl x ↦
          let d =
            guarded_store c e k (λ g. contains_live g k) false
              (contains_live-Dropped (begin e c) k v q x) in
          (none, rw (exists_key, q, x, d.0) (expired v q x), rw (exists_key, q, x) d.1)
      | inr x ↦ (some v, rw (exists_key, q, x) (peeked v q x), rw (exists_key, q, x) refl)
    ]
  ]

  strlen-Lookup :
      (c : Clock) (e : KvEngine h) (k : Bytes)
      → (o : Option ValueEntry) × Lookup e.store k c.now (strlen c e k).0.store o
        × ((strlen c e k).1 ≡ size_of o)
  unfolding strlen begin
  strlen-Lookup c e k = elim (Option-cases (get k e.store)) [
    | inl q ↦ (none, rw (strlen, q) (absent q), rw (strlen, q) refl)
    | inr (v, q) ↦ elim (Bool-cases (is_expired v c.now)) [
      | inl x ↦
          let d =
            guarded_store c e k (λ g. strlen_of g k) 0 (strlen_of-Dropped (begin e c) k v q x) in
          (none, rw (strlen, q, x, d.0) (expired v q x), rw (strlen, q, x) d.1)
      | inr x ↦ (some v, rw (strlen, q, x) (peeked v q x), rw (strlen, q, x) refl)
    ]
  ]

  ttl_ms-Lookup :
      (c : Clock) (e : KvEngine h) (k : Bytes)
      → (o : Option ValueEntry) × Lookup e.store k c.now (ttl_ms c e k).0.store o
        × ((ttl_ms c e k).1 ≡ ttl_of_entry o c.now)
  unfolding ttl_ms begin
  ttl_ms-Lookup c e k = elim (Option-cases (get k e.store)) [
    | inl q ↦ (none, rw (ttl_ms, q) (absent q), rw (ttl_ms, q) refl)
    | inr (v, q) ↦ elim (Bool-cases (is_expired v c.now)) [
      | inl x ↦
          let d =
            guarded_store c e k (λ g. ttl_of g k) missing (ttl_of-Dropped (begin e c) k v q x) in
          (none, rw (ttl_ms, q, x, d.0) (expired v q x), rw (ttl_ms, q, x) d.1)
      | inr x ↦ (some v, rw (ttl_ms, q, x) (peeked v q x), rw (ttl_ms, q, x) refl)
    ]
  ]

  -- `GET` answers the value that the abstract keyspace has for the key, and changes nothing of that
  -- keyspace at any key, whether it touches the entry, drops an expired one or finds none. No key stands
  -- twice.
  pub get_value-view :
      (c : Clock) (e : KvEngine h) (k j : Bytes)
      → Distinct e.store
      → ((get_value c e k).1 ≡ value_of (view e.store c.now k))
        × (view (get_value c e k).0.store c.now j ≡ view e.store c.now j)
  get_value-view c e k j d =
      let (o, found, a) = get_value-Lookup c e k in
      (
        a ∙ payload_of_seen c.now o (Lookup-live found) ∙ ap (λ x. value_of x) (Lookup-seen found),
        Lookup-view j found d,
      )

  -- `EXISTS` of one key tells whether the abstract keyspace has it, and changes nothing of that
  -- keyspace. No key stands twice.
  exists_key-view :
      (c : Clock) (e : KvEngine h) (k j : Bytes)
      → Distinct e.store
      → ((exists_key c e k).1 ≡ is_some (view e.store c.now k))
        × (view (exists_key c e k).0.store c.now j ≡ view e.store c.now j)
  exists_key-view c e k j d =
      let (o, found, a) = exists_key-Lookup c e k in
      (
        a ∙ present_of_seen c.now o (Lookup-live found) ∙ ap (λ x. is_some x) (Lookup-seen found),
        Lookup-view j found d,
      )

  -- `STRLEN` answers the length of the value of the abstract keyspace, 0 where it has none, and changes
  -- nothing of that keyspace. No key stands twice.
  strlen-view :
      (c : Clock) (e : KvEngine h) (k j : Bytes)
      → Distinct e.store
      → ((strlen c e k).1 ≡ length_of (view e.store c.now k))
        × (view (strlen c e k).0.store c.now j ≡ view e.store c.now j)
  strlen-view c e k j d =
      let (o, found, a) = strlen-Lookup c e k in
      (
        a ∙ size_of_seen c.now o (Lookup-live found) ∙ ap (λ x. length_of x) (Lookup-seen found),
        Lookup-view j found d,
      )

  -- `PTTL` answers the whole milliseconds that remain by the abstract keyspace, no deadline, or no key,
  -- and changes nothing of that keyspace. No key stands twice.
  ttl_ms-view :
      (c : Clock) (e : KvEngine h) (k j : Bytes)
      → Distinct e.store
      → ((ttl_ms c e k).1 ≡ status_of (view e.store c.now k) c.now)
        × (view (ttl_ms c e k).0.store c.now j ≡ view e.store c.now j)
  ttl_ms-view c e k j d =
      let (o, found, a) = ttl_ms-Lookup c e k in
      (
        a
            ∙ ttl_of_entry_seen c.now o (Lookup-live found)
            ∙ ap (λ x. status_of x c.now) (Lookup-seen found),
        Lookup-view j found d,
      )
