-- ===== src/Storage/Sieve/Tests.antt =====
-- A queue of three keys, its sweeps, and the theorems at these inputs.
use ferrum_kv.Prelude.{◌≡◌, refl, Bool, true, false, none, some, [], ◌∷◌, codes, bytes_eq}
use ferrum_kv.Storage.IndexMap.{IndexMap}
use ferrum_kv.Storage.IndexMap.Lists.{list_map}
use ferrum_kv.Storage.Entry.{ValueEntry, has_ttl}
use ferrum_kv.Storage.Keyspace.{Keyspace, is_eligible, in_scope}
use ferrum_kv.Storage.Policy.{all_keys, volatile}
use ferrum_kv.Storage.Sieve.{
  SieveState, new, observe_insert, observe_access, evict_one, force_demote, is_near_expiry,
}
use ferrum_kv.Storage.Sieve.Sweep.{victim, circle}
use ferrum_kv.Storage.Sieve.Victim.{evict_one-victim}

abbrev maps : IndexMap Bool
maps = list_map Bool

abbrev plain : ValueEntry
plain = record { payload = codes "x"; expire_at = none; last_access_ns = 0; lfu = 5 }

abbrev store : Keyspace
store =
    (codes "a", plain)
    ∷ (codes "b", plain)
    ∷ (codes "c", record plain { expire_at = some 9_000_000_000 })
    ∷ []

program : Unit {0}
unfolding evict_one force_demote is_near_expiry is_eligible in_scope has_ttl bytes_eq new
    observe_insert observe_access
program = tt

-- a, b and c inserted, and a and c read.
abbrev state : SieveState maps.Map
unfolding program
state =
    observe_access maps
      (observe_access maps
        (observe_insert maps
          (observe_insert maps (observe_insert maps (new maps) (codes "a") false) (codes "b") false)
          (codes "c") true)
        (codes "a"))
      (codes "c")

second_chance : (evict_one maps store all_keys false 0 state).1 ≡ some (codes "b")
unfolding program
second_chance = refl

near_expiry : (evict_one maps store volatile true 4_000_000_000 state).1 ≡ some (codes "c")
unfolding program
near_expiry = refl

evict_one-victim_example :
    (evict_one maps store all_keys false 0 state).1
    ≡ victim maps store all_keys false 0 state.ttl_demote_threshold (circle maps state)
evict_one-victim_example = evict_one-victim maps store all_keys false 0 state
