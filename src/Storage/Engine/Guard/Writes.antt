-- ===== src/Storage/Engine/Guard/Writes.antt =====
-- The guard's writes of values: `insert`, `insert_nx`, `insert_many`, `insert_keep_ttl`, `read_state`,
-- `remove`, `remove_many` and `clear`.
use ferrum_kv.Prelude.{
  ℕ, Bool, true, false, not, Option, none, some, List, [], ◌∷◌, map, Bytes, codes, length,
  if◌then◌else◌,
}
use ferrum_kv.Error.{Result, ok, err, ◌>>◌}
use ferrum_kv.Storage.Assoc.{get}
use ferrum_kv.Storage.Entry.{ValueEntry, new_with, new, is_expired}
use ferrum_kv.Storage.Engine.{Host}
use ferrum_kv.Storage.Engine.Track.{track_clear}
use ferrum_kv.Storage.Engine.Guard.{
  WriteGuard, validate_key, validate_value, deadline_to_epoch_ms, log, set_record, pexpireat_record,
  del_record, drop_expired, live_of, put, take_out, make_room,
}

unfoldable pub validate_all : List (Bytes × Bytes) → Result (Unit {0})
validate_all [] = ok tt
validate_all ((key, value) ∷ pairs) = validate_key key >> validate_value value >> validate_all pairs

-- Whether an entry is there and not expired.
abbrev pub is_live : Option ValueEntry → ℕ → Bool
is_live none now = false
is_live (some entry) now = not (is_expired entry now)

module _ {h : Host} where
  unfoldable pub insert : WriteGuard h → Bytes → Bytes → WriteGuard h × Result (Option Bytes)
  unfolding make_room put log
  insert g key value =
      let (g1, room) = make_room g key (length value) in
      let (g2, previous) = put (log g1 (set_record key value ∷ [])) key (new g.clock value) in
      elim (validate_key key >> validate_value value) [
        | err x ↦ (g, err x)
        | ok _ ↦ elim room [ err x ↦ (g1, err x) | ok _ ↦ (g2, ok (live_of previous g.clock.now)) ]
      ]

  -- The write of `insert_nx`, where no live entry stands at the key.
  unfoldable pub insert_vacant : WriteGuard h → Bytes → Bytes → WriteGuard h × Result Bool
  unfolding make_room put log
  insert_vacant g key value =
      let (g1, room) = make_room g key (length value) in
      let g2 = (put (log g1 (set_record key value ∷ [])) key (new g.clock value)).0 in
      elim room [ err x ↦ (g1, err x) | ok _ ↦ (g2, ok true) ]

  unfoldable pub insert_nx : WriteGuard h → Bytes → Bytes → WriteGuard h × Result Bool
  unfolding insert_vacant take_out
  insert_nx g key value = elim (validate_key key >> validate_value value) [
    | err x ↦ (g, err x)
    | ok _ ↦ elim (get key g.engine.store) [
      | none ↦ insert_vacant g key value
      | some entry ↦
          if not (is_expired entry g.clock.now)
          then (g, ok false)
          else insert_vacant (take_out g key).0 key value
    ]
  ]

  -- The second loop of `insert_many`.
  unfoldable pub room_for_all :
      WriteGuard h → List (Bytes × Bytes) → WriteGuard h × Result (Unit {0})
  unfolding make_room
  room_for_all g [] = (g, ok tt)
  room_for_all g ((key, value) ∷ pairs) =
      let (g1, room) = make_room g key (length value) in
      let rest = room_for_all g1 pairs in elim room [ err x ↦ (g1, err x) | ok _ ↦ rest ]

  unfoldable pub put_all : WriteGuard h → List (Bytes × Bytes) → WriteGuard h
  unfolding put
  put_all g [] = g
  put_all g ((key, value) ∷ pairs) = put_all (put g key (new g.clock value)).0 pairs

  -- `append_set_many` writes the records of all pairs at once.
  unfoldable pub insert_many :
      WriteGuard h → List (Bytes × Bytes) → WriteGuard h × Result (Unit {0})
  unfolding validate_all room_for_all put_all log
  insert_many g pairs =
      let (g1, room) = room_for_all g pairs in
      let g2 = put_all (log g1 (map (λ p. set_record p.0 p.1) pairs)) pairs in
      elim (validate_all pairs) [
        | err x ↦ (g, err x)
        | ok _ ↦ elim room [ err x ↦ (g1, err x) | ok _ ↦ (g2, ok tt) ]
      ]

  -- The record of the deadline that `insert_keep_ttl` keeps, if that is still to come.
  unfoldable pub log_deadline : WriteGuard h → Bytes → Option ℕ → WriteGuard h
  unfolding log
  log_deadline g key none = g
  log_deadline g key (some deadline) = elim (deadline_to_epoch_ms g.clock deadline) [
    | none ↦ g
    | some ms ↦ log g (pexpireat_record key ms ∷ [])
  ]

  unfoldable pub insert_keep_ttl :
      WriteGuard h → Bytes → Bytes → Option ℕ → WriteGuard h × Result (Option Bytes)
  unfolding make_room put log_deadline log
  insert_keep_ttl g key value keep_ttl =
      let (g1, room) = make_room g key (length value) in
      let logged = log_deadline (log g1 (set_record key value ∷ [])) key keep_ttl in
      let (g2, previous) = put logged key (new_with g.clock value keep_ttl) in
      elim room [ err x ↦ (g1, err x) | ok _ ↦ (g2, ok (live_of previous g.clock.now)) ]

  unfoldable pub read_state : WriteGuard h → Bytes → WriteGuard h × Option (Bytes × Option ℕ)
  unfolding drop_expired
  read_state g key = elim (get key g.engine.store) [
    | none ↦ (g, none)
    | some entry ↦
        if is_expired entry g.clock.now
        then (drop_expired g key, none)
        else (g, some (entry.payload, entry.expire_at))
  ]

  -- `remove`
  unfoldable pub remove_key : WriteGuard h → Bytes → WriteGuard h × Bool
  unfolding take_out log
  remove_key g key =
      let (g1, removed) = take_out g key in
      (
        if is_live removed g.clock.now then log g1 (del_record key ∷ []) else g1,
        is_live removed g.clock.now,
      )

  -- The first loop of `remove_many`: the keys that were live, in order.
  unfoldable pub take_out_all : WriteGuard h → List Bytes → WriteGuard h × List Bytes
  unfolding take_out
  take_out_all g [] = (g, [])
  take_out_all g (key ∷ keys) =
      let (g1, removed) = take_out g key in
      let (g2, rest) = take_out_all g1 keys in
      (g2, if is_live removed g.clock.now then key ∷ rest else rest)

  unfoldable pub log_removals : WriteGuard h → List Bytes → WriteGuard h
  unfolding log
  log_removals g [] = g
  log_removals g (key ∷ keys) = log_removals (log g (del_record key ∷ [])) keys

  unfoldable pub remove_many : WriteGuard h → List Bytes → WriteGuard h × ℕ
  unfolding take_out_all log_removals
  remove_many g keys =
      let (g1, removed) = take_out_all g keys in (log_removals g1 removed, length removed)

  unfoldable pub clear : WriteGuard h → WriteGuard h
  unfolding track_clear log
  clear g = log (record g { engine = track_clear h g.engine }) ((codes "FLUSHDB" ∷ []) ∷ [])
