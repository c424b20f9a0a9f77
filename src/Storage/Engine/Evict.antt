-- ===== src/Storage/Engine/Evict.antt =====
-- `enforce_memory_limit` and `enforce_for_write` of storage/engine/mod.rs.
use ferrum_kv.Prelude.{
  ℕ, zero, suc, ◌+◌, ◌-◌, ◌^◌, Bool, true, false, ◌&&◌, ◌==◌, ltb, leb, min, max, Option, none,
  some, [], ◌∷◌, Bytes, codes, length, if◌then◌else◌,
}
use ferrum_kv.Error.{out_of_memory, Result, ok, err}
use ferrum_kv.Storage.Assoc.{get}
use ferrum_kv.Storage.Entry.{Clock}
use ferrum_kv.Storage.Policy.{
  EvictionPolicy, no_eviction, all_keys_ahe, volatile_ahe, scope, is_sieve, is_adaptive_climb,
  index_kind, kind_is_sieve_ttl,
}
use ferrum_kv.Storage.Candidates.{
  Candidate, sample_candidates, pick_victim, pick_victim_ahe, observe,
}
use ferrum_kv.Storage.Sieve
use ferrum_kv.Storage.AdaptiveClimb
use ferrum_kv.Storage.Engine.{Host, KvEngine, per_entry_overhead, bump}
use ferrum_kv.Storage.Engine.Track.{track_remove, bytes_at, append}

abbrev pub is_ahe : EvictionPolicy → Bool
is_ahe all_keys_ahe = true
is_ahe volatile_ahe = true
is_ahe _ = false

abbrev pub is_no_eviction : EvictionPolicy → Bool
is_no_eviction no_eviction = true
is_no_eviction _ = false

abbrev pub key_of : Option Candidate → Option Bytes
key_of none = none
key_of (some c) = some c.key

-- `used.saturating_add(incoming) <= max_memory`
unfoldable pub fits : ℕ → ℕ → ℕ → Bool
fits used incoming max_memory = leb (min (used + incoming) (2 ^ 64 - 1)) max_memory

module _ (h : Host) where
  unfoldable pub evict_sieve : Clock → KvEngine h → Bool → KvEngine h × Option Bytes
  evict_sieve c e ttl_aware =
      let (sieve, victim) =
        Sieve.evict_one h.sieve_map e.store (scope e.eviction.policy) ttl_aware c.now e.sieve in
      (record e { sieve = sieve }, victim)

  unfoldable pub evict_ac : KvEngine h → KvEngine h × Option Bytes
  evict_ac e =
      let (ac, victim) =
        AdaptiveClimb.evict_one h.climb_map e.store (scope e.eviction.policy) e.ac in
      (record e { ac = ac }, victim)

  -- The `victim_key` of one round.
  unfoldable pub select_victim : Clock → KvEngine h → KvEngine h × Option Bytes
  unfolding evict_sieve evict_ac
  select_victim c e =
      let policy = e.eviction.policy in
      let sample = sample_candidates e.store (scope policy) e.eviction.samples in
      if is_ahe policy
      then (e, key_of (pick_victim_ahe h.floats e.ahe.alpha c.now sample))
      else if is_sieve policy
      then evict_sieve c e (kind_is_sieve_ttl (index_kind policy))
      else if is_adaptive_climb policy
      then evict_ac e
      else (e, key_of (pick_victim h.floats policy c.now sample))

  -- The removal of the victim of a round, its count and its record.
  unfoldable pub evict_key : KvEngine h → Bytes → KvEngine h
  evict_key e key =
      let e1 = (track_remove h e key).0 in
      append h (record e1 { evicted_keys = bump e1.evicted_keys }) ((codes "DEL" ∷ key ∷ []) ∷ [])

  -- The bounded loop, on the rounds that are left. `evicted` counts the rounds that evicted.
  unfoldable pub evict_rounds : Clock → ℕ → ℕ → ℕ → KvEngine h → KvEngine h × ℕ × Result (Unit {0})
  evict_rounds c incoming zero evicted e = (e, evicted, ok tt)
  evict_rounds c incoming (suc rounds) evicted e =
      let (e1, victim) = select_victim c e in
      let next : KvEngine h × ℕ × Result (Unit {0}) = elim victim [
        | none ↦ (e1, evicted, err out_of_memory)
        | some key ↦ evict_rounds c incoming rounds (evicted + 1) (evict_key e1 key)
      ] in
      if fits e.used_memory incoming e.eviction.max_memory
      then (e, evicted, ok tt)
      else if is_no_eviction e.eviction.policy
      then (e, evicted, err out_of_memory)
      else next

  -- What follows the loop: one sample for the AHE controller, and the last test.
  unfoldable pub after_rounds : ℕ → ℕ → KvEngine h → KvEngine h × Result (Unit {0})
  after_rounds incoming evicted e =
      let fed =
        if ltb 0 evicted && is_ahe e.eviction.policy
        then record e { ahe = (observe h.floats e.ahe e.hits e.misses).0 }
        else e in
      (fed, if fits e.used_memory incoming e.eviction.max_memory then ok tt else err out_of_memory)

  unfoldable pub finish_rounds :
      ℕ → KvEngine h × ℕ × Result (Unit {0}) → KvEngine h × Result (Unit {0})
  unfolding after_rounds
  finish_rounds incoming (e, evicted, ok _) = after_rounds incoming evicted e
  finish_rounds incoming (e, evicted, err x) = (e, err x)

  unfoldable pub enforce_memory_limit : Clock → ℕ → KvEngine h → KvEngine h × Result (Unit {0})
  unfolding evict_rounds finish_rounds
  enforce_memory_limit c incoming e =
      if e.eviction.max_memory == 0
      then (e, ok tt)
      else finish_rounds incoming (evict_rounds c incoming (max (length e.store) 1 + 16) 0 e)

  unfoldable pub enforce_for_write : Clock → KvEngine h → Bytes → ℕ → KvEngine h × Result (Unit {0})
  enforce_for_write c e key value_len =
      let incoming = length key + value_len + per_entry_overhead in
      enforce_memory_limit c (incoming - bytes_at h key (get key e.store)) e
