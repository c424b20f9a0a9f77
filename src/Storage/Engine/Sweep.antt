-- ===== src/Storage/Engine/Sweep.antt =====
-- Active expiration: `sweep_expired` of storage/engine/mod.rs, the test by which its caller goes on,
-- and the bounded loop of `run` in storage/expire.rs.
use ferrum_kv.Prelude.{
  ℕ, zero, suc, ◌+◌, ◌*◌, ◌%◌, Bool, ◌&&◌, ltb, ◌==◌, List, [], ◌∷◌, ◌++◌, Bytes, codes, length,
  take, drop, if◌then◌else◌,
}
use ferrum_kv.Storage.Entry.{Clock, is_expired}
use ferrum_kv.Storage.Keyspace.{Keyspace}
use ferrum_kv.Storage.Engine.{Host, KvEngine, bump}
use ferrum_kv.Storage.Engine.Track.{track_remove, append}

pub record SweepStats : Type 0 where
  pub examined : ℕ
  pub evicted : ℕ

unfoldable pub should_continue : SweepStats → Bool
should_continue s = ltb 0 s.examined && ltb s.examined (s.evicted * 4)

-- The keys of the expired entries among the first `sample` of a list.
unfoldable pub expired_among : Keyspace → ℕ → ℕ → List Bytes
expired_among entries zero now = []
expired_among [] (suc sample) now = []
expired_among ((key, entry) ∷ entries) (suc sample) now =
    let rest = expired_among entries sample now in if is_expired entry now then key ∷ rest else rest

-- `iter().skip(start).chain(iter().take(start))`
abbrev pub rotated : ℕ → Keyspace → Keyspace
rotated start store = drop start store ++ take start store

-- Where the sweep of a keyspace begins.
abbrev pub sweep_start : ℕ → ℕ → ℕ
sweep_start cursor len = if len == 0 then 0 else cursor % len

module _ {h : Host} where
  -- The removal of one victim, its count and its record.
  unfoldable pub expire_key : KvEngine h → Bytes → KvEngine h
  unfolding track_remove append
  expire_key e key =
      let e1 = (track_remove h e key).0 in
      append h (record e1 { expired_keys = bump e1.expired_keys }) ((codes "DEL" ∷ key ∷ []) ∷ [])

  unfoldable pub expire_keys : KvEngine h → List Bytes → KvEngine h
  unfolding expire_key
  expire_keys e [] = e
  expire_keys e (key ∷ keys) = expire_keys (expire_key e key) keys

  -- The cursor moves on by the number of entries examined.
  unfoldable pub advance_cursor : KvEngine h → ℕ → KvEngine h
  advance_cursor e examined =
      let len = length e.store in
      record e {
        sweep_cursor =
            if ltb 0 len then (sweep_start e.sweep_cursor len + examined) % len else e.sweep_cursor;
      }

  unfoldable pub sweep_expired : Clock → KvEngine h → ℕ → KvEngine h × SweepStats
  unfolding expired_among expire_keys advance_cursor
  sweep_expired c e sample =
      let order = rotated (sweep_start e.sweep_cursor (length e.store)) e.store in
      let examined = length (take sample order) in
      let victims = expired_among order sample c.now in
      if sample == 0 then (e, record { examined = 0; evicted = 0 }) else (
        expire_keys (advance_cursor e examined) victims,
        record { examined = examined; evicted = length victims },
      )

  -- One tick of the sweeper: at most as many sweeps as there are rounds, each at the time of the clock.
  unfoldable pub sweep_tick : Clock → KvEngine h → ℕ → ℕ → KvEngine h
  unfolding sweep_expired should_continue
  sweep_tick c e sample zero = e
  sweep_tick c e sample (suc rounds) =
      let (e1, stats) = sweep_expired c e sample in
      let more = sweep_tick c e1 sample rounds in if should_continue stats then more else e1
