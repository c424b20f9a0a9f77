-- ===== src/Storage/Engine/Guard/Expiry.antt =====
-- The guard's operations on deadlines, and its queries that expire: `expire_at`, `persist`, `ttl_of`,
-- `strlen_of` and `memory_of`.
use ferrum_kv.Prelude.{
  ℕ, ◌+◌, ◌-◌, ◌*◌, ◌/◌, Bool, true, false, leb, Option, none, some, [], ◌∷◌, Bytes, codes, length,
  if◌then◌else◌,
}
use ferrum_kv.Prelude.Int.{ℤ, pos_part}
use ferrum_kv.Storage.Assoc.{get, remove, insert}
use ferrum_kv.Storage.Entry.{ValueEntry, is_expired}
use ferrum_kv.Storage.Engine.{Host, entry_bytes}
use ferrum_kv.Storage.Engine.Track.{
  untrack, log_expire_drop, sieve_notify_insert, sieve_notify_remove, ac_notify_insert,
  ac_notify_remove,
}
use ferrum_kv.Storage.Engine.Guard.{
  WriteGuard, TtlStatus, missing, no_expire, millis, log, pexpireat_record, del_record,
  drop_expired, take_out,
}

abbrev pub remaining : ValueEntry → ℕ → TtlStatus
remaining entry now = elim entry.expire_at [
  | none ↦ no_expire
  | some deadline ↦ millis ((deadline - now) / 1_000_000)
]

module _ {h : Host} where
  -- The first test of `expire_at`. What is there afterwards is live.
  unfoldable pub drop_if_expired : WriteGuard h → Bytes → WriteGuard h
  unfolding drop_expired
  drop_if_expired g key = record g {
    engine = elim (get key g.engine.store) [
      | none ↦ g.engine
      | some entry ↦ if is_expired entry g.clock.now then (drop_expired g key).engine else g.engine
    ];
  }

  -- A write of the deadline in place, and the notifications.
  unfoldable pub set_deadline : WriteGuard h → Bytes → ValueEntry → ℤ → WriteGuard h
  unfolding log
  set_deadline g key entry abs_epoch_ms =
      let deadline = g.clock.now + (pos_part abs_epoch_ms - g.clock.now_ms) * 1_000_000 in
      let stored = insert key (record entry { expire_at = some deadline }) g.engine.store in
      let e1 = sieve_notify_insert h (record g.engine { store = stored }) key true in
      log (record g { engine = ac_notify_insert h e1 key true })
        (pexpireat_record key abs_epoch_ms ∷ [])

  -- `expire_at` at a key that is there. A time that is not after the clock removes it.
  unfoldable pub expire_present : WriteGuard h → Bytes → ValueEntry → ℤ → WriteGuard h × Bool
  unfolding set_deadline take_out log
  expire_present g key entry abs_epoch_ms =
      if leb (pos_part abs_epoch_ms) g.clock.now_ms
      then (log (take_out g key).0 (del_record key ∷ []), true)
      else (set_deadline g key entry abs_epoch_ms, true)

  unfoldable pub expire_at : WriteGuard h → Bytes → ℤ → WriteGuard h × Bool
  unfolding drop_if_expired expire_present
  expire_at g key abs_epoch_ms =
      let g1 = drop_if_expired g key in
      elim (get key g1.engine.store) [
        | none ↦ (g1, false)
        | some entry ↦ expire_present g1 key entry abs_epoch_ms
      ]

  -- The removal of a deadline that an entry has.
  unfoldable pub clear_deadline : WriteGuard h → Bytes → ValueEntry → WriteGuard h
  unfolding log
  clear_deadline g key entry =
      let stored = insert key (record entry { expire_at = none }) g.engine.store in
      let e1 = sieve_notify_remove h (record g.engine { store = stored }) key in
      log (record g { engine = ac_notify_remove h e1 key }) ((codes "PERSIST" ∷ key ∷ []) ∷ [])

  unfoldable pub persist : WriteGuard h → Bytes → WriteGuard h × Bool
  unfolding drop_expired clear_deadline
  persist g key = elim (get key g.engine.store) [
    | none ↦ (g, false)
    | some entry ↦
        if is_expired entry g.clock.now then (drop_expired g key, false) else elim entry.expire_at [
          | none ↦ (g, false)
          | some _ ↦ (clear_deadline g key entry, true)
        ]
  ]

  unfoldable pub ttl_of : WriteGuard h → Bytes → WriteGuard h × TtlStatus
  unfolding drop_expired
  ttl_of g key = elim (get key g.engine.store) [
    | none ↦ (g, missing)
    | some entry ↦
        if is_expired entry g.clock.now
        then (drop_expired g key, missing)
        else (g, remaining entry g.clock.now)
  ]

  unfoldable pub strlen_of : WriteGuard h → Bytes → WriteGuard h × ℕ
  unfolding drop_expired
  strlen_of g key = elim (get key g.engine.store) [
    | none ↦ (g, 0)
    | some entry ↦
        if is_expired entry g.clock.now then (drop_expired g key, 0) else (g, length entry.payload)
  ]

  -- Here the expired entry goes without a word to the eviction indexes.
  unfoldable pub memory_of : WriteGuard h → Bytes → WriteGuard h × Option ℕ
  unfolding untrack log_expire_drop
  memory_of g key = elim (get key g.engine.store) [
    | none ↦ (g, none)
    | some entry ↦
        if is_expired entry g.clock.now
        then (
          record g {
            engine =
                log_expire_drop h
                  (untrack h (record g.engine { store = remove key g.engine.store }) key entry) key;
          },
          none,
        )
        else (g, some (entry_bytes key entry))
  ]
