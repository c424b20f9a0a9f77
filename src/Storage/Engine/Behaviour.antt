-- ===== src/Storage/Engine/Behaviour.antt =====
-- What `SET` does to the keyspace under a memory limit.
use ferrum_kv.Prelude.{
  ◌+◌, ◌-◌, ◌^◌, ◌≤◌, ◌<◌, ◌≡◌, refl, ◌⊎◌, inl, inr, false, Option, none, List, [], ◌∷◌, arith,
  Bytes, length, bytes_eq,
}
use ferrum_kv.Error.{FerrumError, Result, ok, err, ◌>>◌, Result-cases}
use ferrum_kv.Storage.Assoc.{get}
use ferrum_kv.Storage.Assoc
use ferrum_kv.Storage.Assoc.Laws.{get-insert}
use ferrum_kv.Storage.Entry.{Clock, new, new_with}
use ferrum_kv.Storage.Keyspace.{Keyspace}
use ferrum_kv.Storage.Engine.{Host, KvEngine, entry_bytes, per_entry_overhead}
use ferrum_kv.Storage.Engine.Track.{bytes_at, track_insert, append}
use ferrum_kv.Storage.Engine.Evict.{enforce_for_write}
use ferrum_kv.Storage.Engine.Memory.{total, total-insert, IsTracked}
use ferrum_kv.Storage.Engine.Limit.{
  Evicts, enforce_memory_limit-Evicts, enforce_memory_limit_bounds,
}
use ferrum_kv.Storage.Engine.Guard.{
  WriteGuard, begin, release, log, put, make_room, validate_key, validate_value, set_record,
}
use ferrum_kv.Storage.Engine.Guard.Writes
use ferrum_kv.Storage.Engine.Commands.{set}

module _ {h : Host} where
  pub release_store : (g : WriteGuard h) → (release g).store ≡ g.engine.store
  unfolding release
  release_store g = ground arith

  pub log_store :
      (g : WriteGuard h) (recs : List (List Bytes)) → (log g recs).engine.store ≡ g.engine.store
  unfolding log append
  log_store g recs = ground arith

  -- How an `insert` ends, with the keyspace that it leaves.
  data Insertion (g : WriteGuard h) (k v : Bytes) : Keyspace → Result (Option Bytes) → Type 0 where
    stored :
        (p : Option Bytes)
        → (make_room g k (length v)).1 ≡ ok tt
        → Insertion g k v
            (Assoc.insert k (new g.clock v) (make_room g k (length v)).0.engine.store)
            (ok p)
    no_room : (x : FerrumError) → Insertion g k v (make_room g k (length v)).0.engine.store (err x)
    refused : (x : FerrumError) → Insertion g k v g.engine.store (err x)

  insert-Insertion :
      (g : WriteGuard h) (k v : Bytes)
      → Insertion g k v (Writes.insert g k v).0.engine.store (Writes.insert g k v).1
  unfolding Writes.insert put track_insert
  insert-Insertion g k v =
      let f = log_store (make_room g k (length v)).0 (set_record k v ∷ []) in
      elim (Result-cases (validate_key k >> validate_value v)) [
        | inl (x, q) ↦ rw (Writes.insert, q) (refused x)
        | inr (u, q) ↦ elim (Result-cases (make_room g k (length v)).1) [
          | inl (x, r) ↦ rw (Writes.insert, q, r) (no_room x)
          | inr (u2, r) ↦ rw (Writes.insert, q, r, f) (stored _ r)
        ]
      ]

  make_room-Evicts :
      (g : WriteGuard h) (k v : Bytes)
      → IsTracked g.engine
      → Evicts g.engine (make_room g k (length v)).0.engine
  unfolding make_room enforce_for_write
  make_room-Evicts g k v t = enforce_memory_limit-Evicts h g.clock _ g.engine t

  Insertion-others :
      {g : WriteGuard h} {k v : Bytes} {m : Keyspace} {r : Result (Option Bytes)} (j : Bytes)
      → Insertion g k v m r
      → IsTracked g.engine
      → bytes_eq k j ≡ false
      → (get j m ≡ none) ⊎ (get j m ≡ get j g.engine.store)
  Insertion-others {g = g} {k = k} {v = v} j (stored p room) t other =
      let w = (make_room-Evicts g k v t).within j in
      ground (arith, w, get-insert k j (new g.clock v) (make_room g k (length v)).0.engine.store)
  Insertion-others {g = g} {k = k} {v = v} j (no_room x) t other =
      (make_room-Evicts g k v t).within j
  Insertion-others j (refused x) t other = inr refl

  make_room_bounds :
      (g : WriteGuard h) (k v : Bytes)
      → IsTracked g.engine
      → 0 < g.engine.eviction.max_memory
      → g.engine.eviction.max_memory < 2 ^ 64 - 1
      → (make_room g k (length v)).1 ≡ ok tt
      → total (make_room g k (length v)).0.engine.store + (length k + length v + per_entry_overhead)
        ≤ g.engine.eviction.max_memory + bytes_at h k (get k g.engine.store)
  unfolding make_room enforce_for_write
  make_room_bounds g k v t l u room =
      omega (arith, enforce_memory_limit_bounds h g.clock _ g.engine t l u room)

  Insertion-total :
      {g : WriteGuard h} {k v : Bytes} {m : Keyspace} {r : Result (Option Bytes)} (p : Option Bytes)
      → Insertion g k v m r
      → IsTracked g.engine
      → 0 < g.engine.eviction.max_memory
      → g.engine.eviction.max_memory < 2 ^ 64 - 1
      → r ≡ ok p
      → total m ≤ g.engine.eviction.max_memory + bytes_at h k (get k g.engine.store)
  unfolding new new_with entry_bytes
  Insertion-total {g = g} {k = k} {v = v} p (stored p' room) t l u q = omega (
    arith,
    make_room_bounds g k v t l u room,
    total-insert h k (new g.clock v) (make_room g k (length v)).0.engine.store,
  )
  Insertion-total p (no_room x) t l u q = ground (arith, q)
  Insertion-total p (refused x) t l u q = ground (arith, q)

  set_store :
      (c : Clock) (e : KvEngine h) (k v : Bytes)
      → (set c e k v).0.store ≡ (Writes.insert (begin e c) k v).0.engine.store
  unfolding set
  set_store c e k v = release_store (Writes.insert (begin e c) k v).0

  -- Whether a `SET` succeeds or fails, every other key has its entry of before or none, when the
  -- counter was exact.
  pub set-others :
      (c : Clock) (e : KvEngine h) (k v j : Bytes)
      → IsTracked e
      → bytes_eq k j ≡ false
      → (get j (set c e k v).0.store ≡ none) ⊎ (get j (set c e k v).0.store ≡ get j e.store)
  unfolding begin
  set-others c e k v j t other =
      rw (set_store c e k v) (Insertion-others j (insert-Insertion (begin e c) k v) t other)

  -- After a `SET` that succeeds under a limit, positive and below `u64::MAX`, the entries cost at most
  -- the limit and what the key's entry cost before, so at most the limit where the key is new. The
  -- counter is exact before.
  pub set-total :
      (c : Clock) (e : KvEngine h) (k v : Bytes) (p : Option Bytes)
      → IsTracked e
      → 0 < e.eviction.max_memory
      → e.eviction.max_memory < 2 ^ 64 - 1
      → (set c e k v).1 ≡ ok p
      → total (set c e k v).0.store ≤ e.eviction.max_memory + bytes_at h k (get k e.store)
  unfolding set begin
  set-total c e k v p t l u q =
      rw (set_store c e k v) (Insertion-total p (insert-Insertion (begin e c) k v) t l u q)
