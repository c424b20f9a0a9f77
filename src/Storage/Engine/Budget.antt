-- ===== src/Storage/Engine/Budget.antt =====
-- What the guarded writes may add to the cost of the entries, and that they keep the counter exact.
use ferrum_kv.Prelude.{
  ℕ, ◌+◌, ◌^◌, ◌≤◌, ◌<◌, inl, inr, Option, none, some, List, [], ◌∷◌, map, arith, Bytes, codes,
  length, Option-cases,
}
use ferrum_kv.Storage.Entry.{new_with, new}
use ferrum_kv.Storage.Engine.{Host, entry_bytes, per_entry_overhead}
use ferrum_kv.Storage.Engine.Track.{track_clear, log_expire_drop}
use ferrum_kv.Storage.Engine.Memory.{track_clear-IsTracked}
use ferrum_kv.Storage.Engine.Growth.{
  IsWithin, IsWithin-weaken, track_remove-IsWithin, track_insert-IsWithin,
  enforce_for_write-IsWithin, append-IsWithin,
}
use ferrum_kv.Storage.Engine.Guard.{
  WriteGuard, release, log, drop_expired, put, take_out, make_room, set_record, del_record,
  pexpireat_record, deadline_to_epoch_ms,
}
use ferrum_kv.Storage.Engine.Guard.Writes
use ferrum_kv.Storage.Engine.Guard.Writes.{
  insert_vacant, insert_nx, validate_all, room_for_all, put_all, insert_many, log_deadline,
  insert_keep_ttl, read_state, is_live, remove_key, take_out_all, log_removals, remove_many, clear,
}

-- The cost of a value at a key.
abbrev pub cost : Bytes → Bytes → ℕ
cost key value = length key + length value + per_entry_overhead

-- The cost of all pairs of an `MSET`.
abbrev pub cost_all : List (Bytes × Bytes) → ℕ
cost_all [] = 0
cost_all ((key, value) ∷ pairs) = cost key value + cost_all pairs

raise : {n : ℕ} (k v : Bytes) → n ≤ n + cost k v
raise k v = omega arith

module _ {h : Host} where
  pub log-IsWithin :
      (n : ℕ) (g : WriteGuard h) (recs : List (List Bytes))
      → IsWithin n g.engine
      → IsWithin n (log g recs).engine
  unfolding log
  log-IsWithin n g recs w = append-IsWithin n g.engine recs w

  pub release-IsWithin : (n : ℕ) (g : WriteGuard h) → IsWithin n g.engine → IsWithin n (release g)
  unfolding release
  release-IsWithin n g w = ground arith

  pub put-IsWithin :
      (n : ℕ) (g : WriteGuard h) (k v : Bytes) (ttl : Option ℕ)
      → IsWithin n g.engine
      → n + cost k v < 2 ^ 64
      → IsWithin (n + cost k v) (put g k (new_with g.clock v ttl)).0.engine
  unfolding put new_with entry_bytes
  put-IsWithin n g k v ttl w l = track_insert-IsWithin n g.engine k (new_with g.clock v ttl) w l

  pub take_out-IsWithin :
      (n : ℕ) (g : WriteGuard h) (k : Bytes)
      → IsWithin n g.engine
      → IsWithin n (take_out g k).0.engine
  unfolding take_out
  take_out-IsWithin n g k w = track_remove-IsWithin n g.engine k w

  pub drop_expired-IsWithin :
      (n : ℕ) (g : WriteGuard h) (k : Bytes)
      → IsWithin n g.engine
      → IsWithin n (drop_expired g k).engine
  unfolding drop_expired log_expire_drop
  drop_expired-IsWithin n g k w = append-IsWithin n _ _ (track_remove-IsWithin n g.engine k w)

  pub make_room-IsWithin :
      (n : ℕ) (g : WriteGuard h) (k : Bytes) (len : ℕ)
      → IsWithin n g.engine
      → IsWithin n (make_room g k len).0.engine
  unfolding make_room
  make_room-IsWithin n g k len w = enforce_for_write-IsWithin n g.clock g.engine k len w

  pub insert-IsWithin :
      (n : ℕ) (g : WriteGuard h) (k v : Bytes)
      → IsWithin n g.engine
      → n + cost k v < 2 ^ 64
      → IsWithin (n + cost k v) (Writes.insert g k v).0.engine
  unfolding Writes.insert new
  insert-IsWithin n g k v w l =
      let room = make_room-IsWithin n g k (length v) w in
      let g2 = log (make_room g k (length v)).0 (set_record k v ∷ []) in
      let logged = log-IsWithin n (make_room g k (length v)).0 (set_record k v ∷ []) room in
      ground (
        arith,
        IsWithin-weaken w (raise k v),
        IsWithin-weaken room (raise k v),
        put-IsWithin n g2 k v none logged l,
      )

  insert_vacant-IsWithin :
      (n : ℕ) (g : WriteGuard h) (k v : Bytes)
      → IsWithin n g.engine
      → n + cost k v < 2 ^ 64
      → IsWithin (n + cost k v) (insert_vacant g k v).0.engine
  unfolding insert_vacant new
  insert_vacant-IsWithin n g k v w l =
      let room = make_room-IsWithin n g k (length v) w in
      let g2 = log (make_room g k (length v)).0 (set_record k v ∷ []) in
      let logged = log-IsWithin n (make_room g k (length v)).0 (set_record k v ∷ []) room in
      ground (arith, IsWithin-weaken room (raise k v), put-IsWithin n g2 k v none logged l)

  pub insert_nx-IsWithin :
      (n : ℕ) (g : WriteGuard h) (k v : Bytes)
      → IsWithin n g.engine
      → n + cost k v < 2 ^ 64
      → IsWithin (n + cost k v) (insert_nx g k v).0.engine
  unfolding insert_nx
  insert_nx-IsWithin n g k v w l = ground (
    arith,
    IsWithin-weaken w (raise k v),
    insert_vacant-IsWithin n g k v w l,
    insert_vacant-IsWithin n (take_out g k).0 k v (take_out-IsWithin n g k w) l,
  )

  room_for_all-IsWithin :
      (n : ℕ) (g : WriteGuard h) (pairs : List (Bytes × Bytes))
      → IsWithin n g.engine
      → IsWithin n (room_for_all g pairs).0.engine
  unfolding room_for_all
  room_for_all-IsWithin n g [] w = w
  room_for_all-IsWithin n g ((k, v) ∷ pairs) w =
      let room = make_room-IsWithin n g k (length v) w in
      ground (arith, room, room_for_all-IsWithin n (make_room g k (length v)).0 pairs room)

  put_all-IsWithin :
      (n : ℕ) (g : WriteGuard h) (pairs : List (Bytes × Bytes))
      → IsWithin n g.engine
      → n + cost_all pairs < 2 ^ 64
      → IsWithin (n + cost_all pairs) (put_all g pairs).engine
  unfolding put_all new
  put_all-IsWithin n g [] w l = IsWithin-weaken w (omega arith)
  put_all-IsWithin n g ((k, v) ∷ pairs) w l =
      IsWithin-weaken
        (put_all-IsWithin (n + cost k v) (put g k (new g.clock v)).0 pairs
          (put-IsWithin n g k v none w (omega arith)) (omega arith))
        (omega arith)

  pub insert_many-IsWithin :
      (n : ℕ) (g : WriteGuard h) (pairs : List (Bytes × Bytes))
      → IsWithin n g.engine
      → n + cost_all pairs < 2 ^ 64
      → IsWithin (n + cost_all pairs) (insert_many g pairs).0.engine
  unfolding insert_many
  insert_many-IsWithin n g pairs w l =
      let room = room_for_all-IsWithin n g pairs w in
      let recs = map (λ p. set_record p.0 p.1) pairs in
      let logged = log-IsWithin n (room_for_all g pairs).0 recs room in
      ground (
        arith,
        IsWithin-weaken {n = n + cost_all pairs} w (omega arith),
        IsWithin-weaken {n = n + cost_all pairs} room (omega arith),
        put_all-IsWithin n (log (room_for_all g pairs).0 recs) pairs logged l,
      )

  log_deadline-IsWithin :
      (n : ℕ) (g : WriteGuard h) (k : Bytes) (ttl : Option ℕ)
      → IsWithin n g.engine
      → IsWithin n (log_deadline g k ttl).engine
  unfolding log_deadline
  log_deadline-IsWithin n g k none w = w
  log_deadline-IsWithin n g k (some d) w = elim (Option-cases (deadline_to_epoch_ms g.clock d)) [
    | inl q ↦ rw (log_deadline, q) w
    | inr (ms, q) ↦ rw (log_deadline, q) (log-IsWithin n g (pexpireat_record k ms ∷ []) w)
  ]

  pub insert_keep_ttl-IsWithin :
      (n : ℕ) (g : WriteGuard h) (k v : Bytes) (ttl : Option ℕ)
      → IsWithin n g.engine
      → n + cost k v < 2 ^ 64
      → IsWithin (n + cost k v) (insert_keep_ttl g k v ttl).0.engine
  unfolding insert_keep_ttl
  insert_keep_ttl-IsWithin n g k v ttl w l =
      let room = make_room-IsWithin n g k (length v) w in
      let g2 = log (make_room g k (length v)).0 (set_record k v ∷ []) in
      let logged = log-IsWithin n (make_room g k (length v)).0 (set_record k v ∷ []) room in
      ground (
        arith,
        IsWithin-weaken room (raise k v),
        put-IsWithin n (log_deadline g2 k ttl) k v ttl (log_deadline-IsWithin n g2 k ttl logged) l,
      )

  pub read_state-IsWithin :
      (n : ℕ) (g : WriteGuard h) (k : Bytes)
      → IsWithin n g.engine
      → IsWithin n (read_state g k).0.engine
  unfolding read_state
  read_state-IsWithin n g k w = ground (arith, w, drop_expired-IsWithin n g k w)

  pub remove_key-IsWithin :
      (n : ℕ) (g : WriteGuard h) (k : Bytes)
      → IsWithin n g.engine
      → IsWithin n (remove_key g k).0.engine
  unfolding remove_key
  remove_key-IsWithin n g k w =
      let out = take_out-IsWithin n g k w in
      ground (arith, out, log-IsWithin n (take_out g k).0 (del_record k ∷ []) out)

  take_out_all-IsWithin :
      (n : ℕ) (g : WriteGuard h) (keys : List Bytes)
      → IsWithin n g.engine
      → IsWithin n (take_out_all g keys).0.engine
  unfolding take_out_all
  take_out_all-IsWithin n g [] w = w
  take_out_all-IsWithin n g (k ∷ keys) w =
      take_out_all-IsWithin n (take_out g k).0 keys (take_out-IsWithin n g k w)

  log_removals-IsWithin :
      (n : ℕ) (g : WriteGuard h) (keys : List Bytes)
      → IsWithin n g.engine
      → IsWithin n (log_removals g keys).engine
  unfolding log_removals
  log_removals-IsWithin n g [] w = w
  log_removals-IsWithin n g (k ∷ keys) w =
      log_removals-IsWithin n (log g (del_record k ∷ [])) keys
        (log-IsWithin n g (del_record k ∷ []) w)

  pub remove_many-IsWithin :
      (n : ℕ) (g : WriteGuard h) (keys : List Bytes)
      → IsWithin n g.engine
      → IsWithin n (remove_many g keys).0.engine
  unfolding remove_many
  remove_many-IsWithin n g keys w =
      log_removals-IsWithin n (take_out_all g keys).0 (take_out_all g keys).1
        (take_out_all-IsWithin n g keys w)

  pub clear-IsWithin : (n : ℕ) (g : WriteGuard h) → IsWithin n (clear g).engine
  unfolding clear track_clear
  clear-IsWithin n g =
      log-IsWithin n (record g { engine = track_clear h g.engine }) ((codes "FLUSHDB" ∷ []) ∷ [])
        (record { tracked = track_clear-IsTracked h g.engine; spent = omega arith })
