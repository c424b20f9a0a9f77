-- ===== src/Storage/Engine/Track.antt =====
-- The helpers of storage/engine/mod.rs that keep the memory counter, the eviction indexes, the
-- statistics and the log in step with the keyspace.
use Prim.Native.Nat.{bit_xor}
use ferrum_kv.Prelude.{
  ℕ, ◌+◌, ◌-◌, ◌*◌, ◌/◌, ◌%◌, ◌^◌, Bool, Option, none, some, List, [], ◌∷◌, ◌++◌, Bytes, codes,
  ◌==◌, if◌then◌else◌,
}
use ferrum_kv.Prelude.Int.{ℤ, pos, negsuc, sub_ℕ}
use ferrum_kv.Storage.Assoc.{get, insert, remove}
use ferrum_kv.Storage.Entry.{ValueEntry, Clock, has_ttl, touch}
use ferrum_kv.Storage.Policy.{kind_is_sieve, kind_is_ac}
use ferrum_kv.Storage.Sieve
use ferrum_kv.Storage.AdaptiveClimb
use ferrum_kv.Storage.Engine.{Host, KvEngine, entry_bytes, bump}

-- `x ^= x << 13; x ^= x >> 17; x ^= x << 5` on a u32.
unfoldable pub xorshift32 : ℕ → ℕ
xorshift32 state =
    let x = bit_xor state (state * 2 ^ 13 % 2 ^ 32) in
    let y = bit_xor x (x / 2 ^ 17) in bit_xor y (y * 2 ^ 5 % 2 ^ 32)

module _ (h : Host) where
  unfoldable pub sieve_notify_insert : KvEngine h → Bytes → Bool → KvEngine h
  sieve_notify_insert e key has_ttl = record e {
    sieve =
        if kind_is_sieve e.index_kind
        then Sieve.observe_insert h.sieve_map e.sieve key has_ttl
        else e.sieve;
  }

  unfoldable pub sieve_notify_access : KvEngine h → Bytes → KvEngine h
  sieve_notify_access e key = record e {
    sieve =
        if kind_is_sieve e.index_kind
        then Sieve.observe_access h.sieve_map e.sieve key
        else e.sieve;
  }

  unfoldable pub sieve_notify_remove : KvEngine h → Bytes → KvEngine h
  sieve_notify_remove e key = record e {
    sieve =
        if kind_is_sieve e.index_kind
        then Sieve.observe_remove h.sieve_map e.sieve key
        else e.sieve;
  }

  unfoldable pub ac_notify_insert : KvEngine h → Bytes → Bool → KvEngine h
  ac_notify_insert e key has_ttl = record e {
    ac =
        if kind_is_ac e.index_kind
        then AdaptiveClimb.observe_insert h.climb_map e.ac key has_ttl
        else e.ac;
  }

  unfoldable pub ac_notify_access : KvEngine h → Bytes → KvEngine h
  ac_notify_access e key = record e {
    ac =
        if kind_is_ac e.index_kind then AdaptiveClimb.observe_access h.climb_map e.ac key else e.ac;
  }

  unfoldable pub ac_notify_remove : KvEngine h → Bytes → KvEngine h
  ac_notify_remove e key = record e {
    ac =
        if kind_is_ac e.index_kind then AdaptiveClimb.observe_remove h.climb_map e.ac key else e.ac;
  }

  -- The counter after a change of `delta` bytes: an addition wraps, a subtraction stops at 0.
  unfoldable pub shift_memory : ℕ → ℤ → ℕ
  shift_memory used (pos n) = if n == 0 then used else (used + n) % 2 ^ 64
  shift_memory used (negsuc n) = used - (n + 1)

  unfoldable pub apply_delta : KvEngine h → ℤ → KvEngine h
  unfolding shift_memory
  apply_delta e delta = record e { used_memory = shift_memory e.used_memory delta }

  -- `map(entry_bytes).unwrap_or(0)` of the entry that stands at a key.
  unfoldable pub bytes_at : Bytes → Option ValueEntry → ℕ
  bytes_at key none = 0
  bytes_at key (some entry) = entry_bytes key entry

  unfoldable pub track_insert : KvEngine h → Bytes → ValueEntry → KvEngine h × Option ValueEntry
  unfolding apply_delta sieve_notify_insert ac_notify_insert bytes_at
  track_insert e key entry =
      let previous = get key e.store in
      let delta = sub_ℕ (entry_bytes key entry) (bytes_at key previous) in
      let e1 = apply_delta (record e { store = insert key entry e.store }) delta in
      (ac_notify_insert (sieve_notify_insert e1 key (has_ttl entry)) key (has_ttl entry), previous)

  unfoldable pub track_remove : KvEngine h → Bytes → KvEngine h × Option ValueEntry
  unfolding apply_delta sieve_notify_remove ac_notify_remove bytes_at
  track_remove e key =
      let removed = get key e.store in
      let e1 =
        apply_delta (record e { store = remove key e.store }) (sub_ℕ 0 (bytes_at key removed)) in
      (ac_notify_remove (sieve_notify_remove e1 key) key, removed)

  unfoldable pub track_clear : KvEngine h → KvEngine h
  track_clear e = record e {
    store = [];
    sieve = Sieve.clear h.sieve_map e.sieve;
    ac = AdaptiveClimb.clear h.climb_map e.ac;
    used_memory = 0;
  }

  unfoldable pub untrack : KvEngine h → Bytes → ValueEntry → KvEngine h
  unfolding apply_delta
  untrack e key entry = apply_delta e (sub_ℕ 0 (entry_bytes key entry))

  unfoldable pub record_hit : KvEngine h → KvEngine h
  record_hit e = record e { hits = bump e.hits }

  unfoldable pub record_miss : KvEngine h → KvEngine h
  record_miss e = record e { misses = bump e.misses }

  -- One append to the log, where there is one; a failure is counted. Several records are one append.
  unfoldable pub append : KvEngine h → List (List Bytes) → KvEngine h
  append e recs = elim e.aof [
    | none ↦ e
    | some a ↦
        if a.writes
        then record e { aof = some (record a { records = a.records ++ recs }) }
        else record e { aof_errors = bump e.aof_errors }
  ]

  unfoldable pub log_expire_drop : KvEngine h → Bytes → KvEngine h
  unfolding append
  log_expire_drop e key = append e ((codes "DEL" ∷ key ∷ []) ∷ [])

  -- `touch_access`: the entry's metadata change in place, under the shared lock.
  unfoldable pub touch_access : Clock → KvEngine h → Bytes → KvEngine h
  unfolding sieve_notify_access ac_notify_access
  touch_access c e key = elim (get key e.store) [
    | none ↦ e
    | some entry ↦
        let next = xorshift32 e.rng in
        let rand01 = h.floats.f32_div (h.floats.f32_of (next / 2 ^ 8)) (h.floats.f32_of (2 ^ 24)) in
        let e1 = record e {
          store = insert key (touch h.floats c rand01 entry) e.store;
          rng = next;
        } in
        ac_notify_access (sieve_notify_access e1 key) key
  ]
