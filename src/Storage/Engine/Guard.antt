-- ===== src/Storage/Engine/Guard.antt =====
-- `WriteGuard` of storage/engine/write_guard.rs and the validations and deadlines of
-- storage/engine/util.rs. The guard holds the exclusive lock from `begin` to its drop, so a guarded
-- command is one step on the engine. The clock is read once.
pub mod Writes
pub mod Expiry
use ferrum_kv.Prelude.{
  ℕ, ◌+◌, ◌-◌, ◌*◌, ◌/◌, ◌%◌, ◌^◌, Bool, true, false, ltb, leb, ◌==◌, min, Option, none, some, List,
  [], ◌∷◌, ◌++◌, map, Bytes, codes, length, if◌then◌else◌,
}
use ferrum_kv.Prelude.Int.{ℤ, pos, negsuc}
use ferrum_kv.Prelude.Decimal.{print_int}
use ferrum_kv.Error.{
  FerrumError, parse_error, key_too_long, value_too_large, Result, ok, err, ◌>>=◌, ◌>>◌,
}
use ferrum_kv.Storage.Assoc.{get, remove, set_value}
use ferrum_kv.Storage.Entry.{ValueEntry, Clock, new_with, new, is_expired, live_payload}
use ferrum_kv.Storage.Engine.{
  Host, Aof, KvEngine, key_max_bytes, value_max_bytes, entry_bytes, bump,
}
use ferrum_kv.Storage.Engine.Track.{
  track_insert, track_remove, track_clear, untrack, append, log_expire_drop, touch_access,
  record_hit, record_miss, sieve_notify_insert, sieve_notify_remove, ac_notify_insert,
  ac_notify_remove,
}
use ferrum_kv.Storage.Engine.Evict.{enforce_for_write}

unfoldable pub validate_key : Bytes → Result (Unit {0})
validate_key key =
    if length key == 0
    then err (parse_error (codes "key must not be empty"))
    else if ltb key_max_bytes (length key)
    then err (key_too_long (length key) key_max_bytes)
    else ok tt

unfoldable pub validate_value : Bytes → Result (Unit {0})
validate_value value =
    if ltb value_max_bytes (length value)
    then err (value_too_large (length value) value_max_bytes)
    else ok tt

-- A millisecond is 1,000,000 ns. The sum saturates at the largest i64.
unfoldable pub deadline_to_epoch_ms : Clock → ℕ → Option ℤ
deadline_to_epoch_ms c deadline =
    if leb deadline c.now
    then none
    else some (pos (min (c.now_ms + (deadline - c.now) / 1_000_000) (2 ^ 63 - 1)))

pub data TtlStatus : Type 0 where
  missing no_expire : TtlStatus
  millis : ℕ → TtlStatus

abbrev pub set_record : Bytes → Bytes → List Bytes
set_record key value = codes "SET" ∷ key ∷ value ∷ []

abbrev pub del_record : Bytes → List Bytes
del_record key = codes "DEL" ∷ key ∷ []

abbrev pub pexpireat_record : Bytes → ℤ → List Bytes
pexpireat_record key ms = codes "PEXPIREAT" ∷ key ∷ print_int ms ∷ []

pub record WriteGuard (h : Host) : Type 0 where
  pub engine : KvEngine h
  pub clock : Clock
  pub wrote_aof : Bool

-- `prev.and_then(live_payload)`
abbrev pub live_of : Option ValueEntry → ℕ → Option Bytes
live_of none now = none
live_of (some entry) now = live_payload entry now

module _ {h : Host} where
  unfoldable pub begin : KvEngine h → Clock → WriteGuard h
  begin e c = record { engine = e; clock = c; wrote_aof = false }

  -- The destructor: the durability barrier, after a command that appended.
  unfoldable pub release : WriteGuard h → KvEngine h
  release g =
      let synced : KvEngine h = elim g.engine.aof [
        | none ↦ g.engine
        | some a ↦
            if a.syncs then g.engine else record g.engine { aof_errors = bump g.engine.aof_errors }
      ] in
      if g.wrote_aof then synced else g.engine

  -- `log`: the append is made only where there is a writer.
  unfoldable pub log : WriteGuard h → List (List Bytes) → WriteGuard h
  unfolding append
  log g recs = record g {
    engine = append h g.engine recs;
    wrote_aof = elim g.engine.aof [ none ↦ g.wrote_aof | some a ↦ true ];
  }

  -- Lazy expiry: the expired entry goes, and its `DEL` is appended.
  unfoldable pub drop_expired : WriteGuard h → Bytes → WriteGuard h
  unfolding track_remove log_expire_drop
  drop_expired g key = record g { engine = log_expire_drop h (track_remove h g.engine key).0 key }

  unfoldable pub miss : WriteGuard h → WriteGuard h
  unfolding record_miss
  miss g = record g { engine = record_miss h g.engine }

  unfoldable pub fetch_live : WriteGuard h → Bytes → WriteGuard h × Option Bytes
  unfolding drop_expired miss
  fetch_live g key = elim (get key g.engine.store) [
    | none ↦ (miss g, none)
    | some entry ↦ if is_expired entry g.clock.now then (miss (drop_expired g key), none) else (
      record g { engine = record_hit h (touch_access h g.clock g.engine key) },
      some entry.payload,
    )
  ]

  unfoldable pub contains_live : WriteGuard h → Bytes → WriteGuard h × Bool
  unfolding drop_expired miss
  contains_live g key = elim (get key g.engine.store) [
    | none ↦ (miss g, false)
    | some entry ↦
        if is_expired entry g.clock.now
        then (miss (drop_expired g key), false)
        else (record g { engine = record_hit h g.engine }, true)
  ]

  -- `track_insert` and `track_remove` through the guard.
  unfoldable pub put : WriteGuard h → Bytes → ValueEntry → WriteGuard h × Option ValueEntry
  unfolding track_insert
  put g key entry =
      let (e, previous) = track_insert h g.engine key entry in (record g { engine = e }, previous)

  unfoldable pub take_out : WriteGuard h → Bytes → WriteGuard h × Option ValueEntry
  unfolding track_remove
  take_out g key =
      let (e, removed) = track_remove h g.engine key in (record g { engine = e }, removed)

  -- The guard after the limit is enforced for a write, and how that ended.
  unfoldable pub make_room : WriteGuard h → Bytes → ℕ → WriteGuard h × Result (Unit {0})
  make_room g key value_len =
      let (e, r) = enforce_for_write h g.clock g.engine key value_len in
      (record g { engine = e }, r)
