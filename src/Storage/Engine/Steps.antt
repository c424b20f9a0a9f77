-- ===== src/Storage/Engine/Steps.antt =====
-- The reads, the deadlines and the sweep keep the counter exact too.
use ferrum_kv.Prelude.{
  ℕ, zero, suc, ◌≡◌, refl, inl, inr, none, some, List, [], ◌∷◌, arith, Bytes, codes, length, take,
  Option-cases,
}
use ferrum_kv.Prelude.Int.{ℤ}
use ferrum_kv.Storage.Assoc.{get, remove}
use ferrum_kv.Storage.Entry.{ValueEntry, Clock}
use ferrum_kv.Storage.Engine.{Host, KvEngine, entry_bytes}
use ferrum_kv.Storage.Engine.Track.{
  bytes_at, track_remove, untrack, log_expire_drop, touch_access, record_hit, record_miss,
  sieve_notify_insert, sieve_notify_remove, ac_notify_insert, ac_notify_remove,
}
use ferrum_kv.Storage.Engine.Growth.{
  IsWithin, IsWithin-same, track_remove-IsWithin, append-IsWithin, replace-IsWithin,
  touch_access-IsWithin,
}
use ferrum_kv.Storage.Engine.Guard.{
  WriteGuard, log, drop_expired, miss, take_out, del_record, fetch_live, contains_live,
}
use ferrum_kv.Storage.Engine.Guard.Expiry.{
  drop_if_expired, set_deadline, expire_at, clear_deadline, persist, ttl_of, strlen_of, memory_of,
}
use ferrum_kv.Storage.Engine.Budget.{log-IsWithin, drop_expired-IsWithin, take_out-IsWithin}
use ferrum_kv.Storage.Engine.Sweep.{
  rotated, sweep_start, expire_key, advance_cursor, sweep_expired, expire_keys, expired_among,
  sweep_tick,
}

module _ {h : Host} where
  pub miss-IsWithin : (n : ℕ) (g : WriteGuard h) → IsWithin n g.engine → IsWithin n (miss g).engine
  unfolding miss record_miss
  miss-IsWithin n g w = IsWithin-same refl refl w

  pub hit-IsWithin : (n : ℕ) (e : KvEngine h) → IsWithin n e → IsWithin n (record_hit h e)
  unfolding record_hit
  hit-IsWithin n e w = IsWithin-same refl refl w

  pub record_miss-IsWithin : (n : ℕ) (e : KvEngine h) → IsWithin n e → IsWithin n (record_miss h e)
  unfolding record_miss
  record_miss-IsWithin n e w = IsWithin-same refl refl w

  pub fetch_live-IsWithin :
      (n : ℕ) (g : WriteGuard h) (k : Bytes)
      → IsWithin n g.engine
      → IsWithin n (fetch_live g k).0.engine
  unfolding fetch_live
  fetch_live-IsWithin n g k w =
      let touched = touch_access-IsWithin n g.clock g.engine k w in
      ground (
        arith,
        miss-IsWithin n g w,
        miss-IsWithin n (drop_expired g k) (drop_expired-IsWithin n g k w),
        hit-IsWithin n (touch_access h g.clock g.engine k) touched,
      )

  pub contains_live-IsWithin :
      (n : ℕ) (g : WriteGuard h) (k : Bytes)
      → IsWithin n g.engine
      → IsWithin n (contains_live g k).0.engine
  unfolding contains_live
  contains_live-IsWithin n g k w = ground (
    arith,
    miss-IsWithin n g w,
    miss-IsWithin n (drop_expired g k) (drop_expired-IsWithin n g k w),
    hit-IsWithin n g.engine w,
  )

  drop_if_expired-IsWithin :
      (n : ℕ) (g : WriteGuard h) (k : Bytes)
      → IsWithin n g.engine
      → IsWithin n (drop_if_expired g k).engine
  unfolding drop_if_expired
  drop_if_expired-IsWithin n g k w = ground (arith, w, drop_expired-IsWithin n g k w)

  set_deadline-IsWithin :
      (n : ℕ) (g : WriteGuard h) (k : Bytes) (v : ValueEntry) (ms : ℤ)
      → get k g.engine.store ≡ some v
      → IsWithin n g.engine
      → IsWithin n (set_deadline g k v ms).engine
  unfolding set_deadline log sieve_notify_insert ac_notify_insert entry_bytes
  set_deadline-IsWithin n g k v ms q w =
      append-IsWithin n _ _
        (replace-IsWithin n g.engine _ k v (record v { expire_at = some _ }) q refl refl refl w)

  clear_deadline-IsWithin :
      (n : ℕ) (g : WriteGuard h) (k : Bytes) (v : ValueEntry)
      → get k g.engine.store ≡ some v
      → IsWithin n g.engine
      → IsWithin n (clear_deadline g k v).engine
  unfolding clear_deadline log sieve_notify_remove ac_notify_remove entry_bytes
  clear_deadline-IsWithin n g k v q w =
      append-IsWithin n _ _
        (replace-IsWithin n g.engine _ k v (record v { expire_at = none }) q refl refl refl w)

  pub expire_at-IsWithin :
      (n : ℕ) (g : WriteGuard h) (k : Bytes) (ms : ℤ)
      → IsWithin n g.engine
      → IsWithin n (expire_at g k ms).0.engine
  unfolding expire_at
  expire_at-IsWithin n g k ms w =
      let g1 = drop_if_expired g k in
      let dropped = drop_if_expired-IsWithin n g k w in
      let out =
        log-IsWithin n (take_out g1 k).0 (del_record k ∷ []) (take_out-IsWithin n g1 k dropped) in
      elim (Option-cases (get k g1.engine.store)) [
        | inl q ↦ rw (expire_at, q) dropped
        | inr (v, q) ↦
            rw (expire_at, q) (ground (arith, out, set_deadline-IsWithin n g1 k v ms q dropped))
      ]

  pub persist-IsWithin :
      (n : ℕ) (g : WriteGuard h) (k : Bytes)
      → IsWithin n g.engine
      → IsWithin n (persist g k).0.engine
  unfolding persist
  persist-IsWithin n g k w = elim (Option-cases (get k g.engine.store)) [
    | inl q ↦ rw (persist, q) w
    | inr (v, q) ↦
        rw (persist, q)
          (ground (arith, w, drop_expired-IsWithin n g k w, clear_deadline-IsWithin n g k v q w))
  ]

  pub ttl_of-IsWithin :
      (n : ℕ) (g : WriteGuard h) (k : Bytes)
      → IsWithin n g.engine
      → IsWithin n (ttl_of g k).0.engine
  unfolding ttl_of
  ttl_of-IsWithin n g k w = ground (arith, w, drop_expired-IsWithin n g k w)

  pub strlen_of-IsWithin :
      (n : ℕ) (g : WriteGuard h) (k : Bytes)
      → IsWithin n g.engine
      → IsWithin n (strlen_of g k).0.engine
  unfolding strlen_of
  strlen_of-IsWithin n g k w = ground (arith, w, drop_expired-IsWithin n g k w)

  untrack-IsWithin :
      (n : ℕ) (e : KvEngine h) (k : Bytes) (v : ValueEntry)
      → get k e.store ≡ some v
      → IsWithin n e
      → IsWithin n (untrack h (record e { store = remove k e.store }) k v)
  unfolding untrack track_remove bytes_at
  untrack-IsWithin n e k v q w =
      let same : (untrack h (record e { store = remove k e.store }) k v).used_memory
          ≡ (track_remove h e k).0.used_memory =
        rw (track_remove, q) refl in
      IsWithin-same refl same (track_remove-IsWithin n e k w)

  pub memory_of-IsWithin :
      (n : ℕ) (g : WriteGuard h) (k : Bytes)
      → IsWithin n g.engine
      → IsWithin n (memory_of g k).0.engine
  unfolding memory_of log_expire_drop
  memory_of-IsWithin n g k w = elim (Option-cases (get k g.engine.store)) [
    | inl q ↦ rw (memory_of, q) w
    | inr (v, q) ↦
        let gone = untrack-IsWithin n g.engine k v q w in
        rw (memory_of, q)
          (ground (arith, w, append-IsWithin n _ ((codes "DEL" ∷ k ∷ []) ∷ []) gone))
  ]

  expire_key-IsWithin :
      (n : ℕ) (e : KvEngine h) (k : Bytes) → IsWithin n e → IsWithin n (expire_key e k)
  unfolding expire_key
  expire_key-IsWithin n e k w =
      append-IsWithin n _ ((codes "DEL" ∷ k ∷ []) ∷ [])
        (IsWithin-same refl refl (track_remove-IsWithin n e k w))

  expire_keys-IsWithin :
      (n : ℕ) (e : KvEngine h) (keys : List Bytes) → IsWithin n e → IsWithin n (expire_keys e keys)
  unfolding expire_keys
  expire_keys-IsWithin n e [] w = w
  expire_keys-IsWithin n e (k ∷ keys) w =
      expire_keys-IsWithin n (expire_key e k) keys (expire_key-IsWithin n e k w)

  advance_cursor-IsWithin :
      (n : ℕ) (e : KvEngine h) (examined : ℕ)
      → IsWithin n e
      → IsWithin n (advance_cursor e examined)
  unfolding advance_cursor
  advance_cursor-IsWithin n e examined w = IsWithin-same refl refl w

  pub sweep_expired-IsWithin :
      (n : ℕ) (c : Clock) (e : KvEngine h) (sample : ℕ)
      → IsWithin n e
      → IsWithin n (sweep_expired c e sample).0
  unfolding sweep_expired
  sweep_expired-IsWithin n c e sample w =
      let order = rotated (sweep_start e.sweep_cursor (length e.store)) e.store in
      let examined = length (take sample order) in
      let moved = advance_cursor-IsWithin n e examined w in
      ground (
        arith,
        w,
        expire_keys-IsWithin n (advance_cursor e examined) (expired_among order sample c.now) moved,
      )

  pub sweep_tick-IsWithin :
      (n : ℕ) (c : Clock) (e : KvEngine h) (sample rounds : ℕ)
      → IsWithin n e
      → IsWithin n (sweep_tick c e sample rounds)
  unfolding sweep_tick
  sweep_tick-IsWithin n c e sample zero w = w
  sweep_tick-IsWithin n c e sample (suc rounds) w =
      let s = sweep_expired-IsWithin n c e sample w in
      ground (arith, s, sweep_tick-IsWithin n c (sweep_expired c e sample).0 sample rounds s)
