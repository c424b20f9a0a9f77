-- ===== src/Storage/Sieve.antt =====
-- `SieveState` of storage/sieve.rs, over the interface of `indexmap`.
pub mod Sweep
pub mod Victim
mod Tests
use ferrum_kv.Prelude.{
  ℕ, zero, suc, ◌+◌, ◌-◌, ◌*◌, ◌≤◌, ◌<◌, Bool, true, false, not, ◌&&◌, ◌||◌, ◌==◌, ltb, leb, Option,
  none, some, List, [], ◌∷◌, Bytes, if◌then◌else◌,
}
use ferrum_kv.Storage.Assoc.{get}
use ferrum_kv.Storage.IndexMap.{IndexMap}
use ferrum_kv.Storage.Entry.{ValueEntry, has_ttl}
use ferrum_kv.Storage.Keyspace.{Keyspace, in_scope, is_eligible}
use ferrum_kv.Storage.Policy.{EvictionScope, all_keys, volatile}

-- SIEVE_S_HORIZON_MS, and SIEVE_S_TTL_THRESHOLD in thousandths.
abbrev pub sieve_s_horizon_ms : ℕ
sieve_s_horizon_ms = 60_000

abbrev pub sieve_s_ttl_threshold : ℕ
sieve_s_ttl_threshold = 100

-- Times are nanoseconds, so `remaining <= threshold * horizon` is a comparison of whole numbers:
-- the source compares f64 seconds, and at the threshold 0.1 both say `remaining <= 6 s`.
unfoldable pub is_near_expiry : ValueEntry → ℕ → ℕ → Bool
is_near_expiry entry now threshold = elim entry.expire_at [
  | none ↦ false
  | some deadline ↦
      if leb deadline now
      then true
      else leb ((deadline - now) * 1000) (threshold * (sieve_s_horizon_ms * 1_000_000))
]

pub record SieveState (Map : Type 0) : Type 0 where
  pub queue : Map
  pub hand : ℕ
  pub scope : EvictionScope
  pub ttl_demote_threshold : ℕ

abbrev is_volatile : EvictionScope → Bool
is_volatile volatile = true
is_volatile all_keys = false

module _ (im : IndexMap Bool) where
  open im use {Map, len, get_index, get_index_of, put, assign, assign_index, shift_remove}

  unfoldable pub new : SieveState Map
  new = record {
    queue = im.new;
    hand = 0;
    scope = all_keys;
    ttl_demote_threshold = sieve_s_ttl_threshold;
  }

  unfoldable pub observe_remove : SieveState Map → Bytes → SieveState Map
  observe_remove s key = elim (get_index_of s.queue key) [
    | none ↦ s
    | some idx ↦
        let hand = if ltb idx s.hand then s.hand - 1 else s.hand in
        let queue = shift_remove s.queue key in
        record s { queue = queue; hand = if leb (len queue) hand then 0 else hand }
  ]

  unfoldable pub observe_insert : SieveState Map → Bytes → Bool → SieveState Map
  observe_insert s key has_ttl =
      if is_volatile s.scope && not has_ttl
      then observe_remove s key
      else record s { queue = put s.queue key false }

  unfoldable pub observe_access : SieveState Map → Bytes → SieveState Map
  observe_access s key = record s { queue = assign s.queue key true }

  -- The loop of `rebuild` over the keyspace.
  unfoldable pub enqueue_all : EvictionScope → Keyspace → Map → Map
  enqueue_all scope [] queue = queue
  enqueue_all scope ((key, entry) ∷ rest) queue =
      enqueue_all scope rest (if in_scope scope entry then put queue key false else queue)

  unfoldable pub rebuild : SieveState Map → Keyspace → EvictionScope → SieveState Map
  unfolding enqueue_all
  rebuild s store scope = record s {
    queue = enqueue_all scope store im.new;
    hand = 0;
    scope = scope;
  }

  unfoldable pub clear : SieveState Map → SieveState Map
  clear s = record s { queue = im.new; hand = 0 }

  module _ (store : Keyspace) (scope : EvictionScope) (ttl_aware : Bool) (now : ℕ) where
    unfoldable pub force_demote : ℕ → Bytes → Bool
    force_demote threshold key = elim (get key store) [
      | none ↦ false
      | some entry ↦ ttl_aware && is_near_expiry entry now threshold
    ]

    -- The `while scanned < n + 1` of `evict_one`, on the looks that are left.
    unfoldable pub sweep : ℕ → SieveState Map → SieveState Map × Option Bytes
    sweep zero s = (s, none)
    sweep (suc looks) s =
        let hand = if leb (len s.queue) s.hand then 0 else s.hand in
        elim (get_index s.queue hand) [
          | none ↦ (record s { hand = hand }, none)
          | some (key, visited) ↦
              let skip = sweep looks (record s { queue = shift_remove s.queue key; hand = hand }) in
              let clear =
                sweep looks
                  (record s { queue = assign_index s.queue hand false; hand = hand + 1 }) in
              let queue = shift_remove s.queue key in
              let evict : SieveState Map × Option Bytes = (
                record s { queue = queue; hand = if leb (len queue) hand then 0 else hand },
                some key,
              ) in
              if not (is_eligible store scope key)
              then skip
              else if not visited || force_demote s.ttl_demote_threshold key
              then evict
              else clear
        ]

    unfoldable pub evict_one : SieveState Map → SieveState Map × Option Bytes
    unfolding sweep
    evict_one s = let n = len s.queue in if n == 0 then (s, none) else sweep (n + 1) s
