-- ===== src/Storage/AdaptiveClimb.antt =====
-- `AdaptiveClimbState` of storage/adaptive_climb.rs, over the interface of `indexmap`. The queue is in
-- MRU to LRU order.
pub mod Jump
pub mod Victim
mod Tests
use ferrum_kv.Prelude.{
  ℕ, zero, suc, ◌+◌, ◌-◌, Bool, true, false, not, ◌&&◌, ◌==◌, ltb, leb, min, max, Option, none,
  some, List, [], ◌∷◌, Bytes, if◌then◌else◌,
}
use ferrum_kv.Storage.IndexMap.{IndexMap}
use ferrum_kv.Storage.Keyspace.{Keyspace, in_scope, is_eligible}
use ferrum_kv.Storage.Policy.{EvictionScope, all_keys, volatile}

pub record AdaptiveClimbState (Map : Type 0) : Type 0 where
  pub queue : Map
  pub jump : ℕ
  pub scope : EvictionScope

abbrev pub is_volatile : EvictionScope → Bool
is_volatile volatile = true
is_volatile all_keys = false

module _ (im : IndexMap (Unit {0})) where
  open im use {
    Map, len, get_index, get_index_of, shift_remove, shift_remove_index, insert_before, move_index,
  }

  unfoldable pub new : AdaptiveClimbState Map
  new = record { queue = im.new; jump = 1; scope = all_keys }

  unfoldable pub clamp_jump : AdaptiveClimbState Map → AdaptiveClimbState Map
  clamp_jump s =
      let len = len s.queue in record s { jump = if len == 0 then 1 else min (max s.jump 1) len }

  unfoldable pub observe_remove : AdaptiveClimbState Map → Bytes → AdaptiveClimbState Map
  unfolding clamp_jump
  observe_remove s key = clamp_jump (record s { queue = shift_remove s.queue key })

  -- The adaptation of `jump` and the splice, on a list without the key.
  unfoldable pub insert_absent : AdaptiveClimbState Map → Bytes → AdaptiveClimbState Map
  insert_absent s key =
      let len = len s.queue in
      let jump = if len == 0 then 1 else if ltb s.jump len then s.jump + 1 else s.jump in
      let pos = min (len - jump) len in
      record s { queue = insert_before s.queue pos key tt; jump = jump }

  unfoldable pub observe_insert : AdaptiveClimbState Map → Bytes → Bool → AdaptiveClimbState Map
  unfolding observe_remove insert_absent
  observe_insert s key has_ttl =
      if is_volatile s.scope && not has_ttl
      then observe_remove s key
      else insert_absent (clamp_jump (record s { queue = shift_remove s.queue key })) key

  -- The promotion of the key at position `p`.
  unfoldable pub promote : AdaptiveClimbState Map → ℕ → AdaptiveClimbState Map
  promote s p =
      let jump = if ltb 1 s.jump then s.jump - 1 else s.jump in
      let target = p - jump in
      let queue = if ltb 0 p && ltb target p then move_index s.queue p target else s.queue in
      record s { queue = queue; jump = jump }

  unfoldable pub observe_access : AdaptiveClimbState Map → Bytes → AdaptiveClimbState Map
  unfolding promote
  observe_access s key = elim (get_index_of s.queue key) [ none ↦ s | some p ↦ promote s p ]

  -- The loop of `rebuild` over the keyspace.
  unfoldable pub enqueue_all : EvictionScope → Keyspace → Map → Map
  enqueue_all scope [] queue = queue
  enqueue_all scope ((key, entry) ∷ rest) queue =
      enqueue_all scope rest
        (if in_scope scope entry then insert_before queue (len queue) key tt else queue)

  unfoldable pub rebuild :
      AdaptiveClimbState Map → Keyspace → EvictionScope → AdaptiveClimbState Map
  unfolding enqueue_all
  rebuild s store scope = record { queue = enqueue_all scope store im.new; jump = 1; scope = scope }

  unfoldable pub clear : AdaptiveClimbState Map → AdaptiveClimbState Map
  clear s = record s { queue = im.new; jump = 1 }

  module _ (store : Keyspace) (scope : EvictionScope) where
    -- `for idx in (0..n).rev()`, on the positions that are left.
    unfoldable pub walk : ℕ → AdaptiveClimbState Map → AdaptiveClimbState Map × Option Bytes
    walk zero s = (s, none)
    walk (suc idx) s = elim (get_index s.queue idx) [
      | none ↦ (s, none)
      | some (key, _) ↦
          let rest = walk idx s in
          if is_eligible store scope key
          then (record s { queue = shift_remove_index s.queue idx }, some key)
          else rest
    ]

    unfoldable pub evict_one : AdaptiveClimbState Map → AdaptiveClimbState Map × Option Bytes
    unfolding walk
    evict_one s = let n = len s.queue in if n == 0 then (s, none) else walk n s
