-- ===== src/Storage/AdaptiveClimb/Tests.antt =====
-- A list of three keys, and the theorems at it.
use ferrum_kv.Prelude.{
  ◌≡◌, refl, ◌-◌, true, false, none, some, [], ◌∷◌, arith, codes, bytes_eq, max,
}
use ferrum_kv.Storage.IndexMap.{IndexMap}
use ferrum_kv.Storage.IndexMap.Lists.{list_map}
use ferrum_kv.Storage.Assoc.{index_of}
use ferrum_kv.Storage.Entry.{ValueEntry, has_ttl}
use ferrum_kv.Storage.Keyspace.{Keyspace, is_eligible, in_scope}
use ferrum_kv.Storage.Policy.{volatile}
use ferrum_kv.Storage.AdaptiveClimb.{
  AdaptiveClimbState, new, observe_insert, observe_access, clamp_jump, insert_absent, evict_one,
  walk,
}
use ferrum_kv.Storage.AdaptiveClimb.Jump.{IsClamped, observe_insert_lem, observe_access_lem}
use ferrum_kv.Storage.AdaptiveClimb.Victim.{last_eligible, evict_one-last_eligible}

abbrev maps : IndexMap (Unit {0})
maps = list_map (Unit {0})

abbrev plain : ValueEntry
plain = record { payload = codes "x"; expire_at = none; last_access_ns = 0; lfu = 5 }

abbrev store : Keyspace
store =
    (codes "a", record plain { expire_at = some 9 }) ∷ (codes "b", plain) ∷ (codes "c", plain) ∷ []

program : Unit {0}
unfolding new observe_insert observe_access clamp_jump insert_absent evict_one walk is_eligible
    in_scope has_ttl bytes_eq
program = tt

-- a, b and c inserted: c and b stand before a, and the distance is 3.
abbrev state : AdaptiveClimbState maps.Map
unfolding program
state =
    observe_insert maps
      (observe_insert maps (observe_insert maps (new maps) (codes "a") false) (codes "b") false)
      (codes "c") false

order : maps.entries state.queue ≡ ((codes "c", tt) ∷ (codes "b", tt) ∷ (codes "a", tt) ∷ [])
unfolding program
order = refl

evict_one-last_eligible_example :
    (evict_one maps store volatile state).1
    ≡ last_eligible maps store volatile (maps.entries state.queue)
evict_one-last_eligible_example = evict_one-last_eligible maps store volatile state

observe_insert_example :
    IsClamped maps (observe_insert maps state (codes "d") true)
    × ((observe_insert maps state (codes "d") true).jump ≡ 3)
    × (index_of (codes "d") (maps.entries (observe_insert maps state (codes "d") true).queue)
        ≡ some 0)
unfolding state
observe_insert_example = observe_insert_lem maps state (codes "d") true refl

state-IsClamped : IsClamped maps state
unfolding program
state-IsClamped = record { at_least = omega arith; at_most = omega arith }

last : index_of (codes "a") (maps.entries state.queue) ≡ some 2
unfolding program
last = refl

observe_access_example :
    IsClamped maps (observe_access maps state (codes "a"))
    × ((observe_access maps state (codes "a")).jump ≡ max 1 (state.jump - 1))
    × (index_of (codes "a") (maps.entries (observe_access maps state (codes "a")).queue)
        ≡ some (2 - (observe_access maps state (codes "a")).jump))
observe_access_example = observe_access_lem maps state (codes "a") 2 state-IsClamped last
