-- ===== src/Storage/AdaptiveClimb/Victim.antt =====
-- `evict_one` evicts the last eligible key of the list, the one nearest to its LRU end.
use ferrum_kv.Prelude.{
  ℕ, zero, suc, ◌≤◌, ◌<◌, ◌≡◌, refl, ap, ◌∙◌, ◌==◌, Option, none, some, List, [], ◌∷◌, arith, Bytes,
  length, get_elem?, take, Bool-cases, inl, inr, if◌then◌else◌,
}
use ferrum_kv.Storage.IndexMap.{IndexMap}
use ferrum_kv.Storage.Keyspace.{Keyspace, is_eligible}
use ferrum_kv.Storage.Policy.{EvictionScope}
use ferrum_kv.Storage.AdaptiveClimb.{AdaptiveClimbState, walk, evict_one}

module _ (im : IndexMap (Unit {0})) (store : Keyspace) (scope : EvictionScope) where
  open im use {Map, entries, len}

  abbrev pub last_eligible : List (Bytes × Unit {0}) → Option Bytes
  last_eligible [] = none
  last_eligible ((k, _) ∷ m) = elim (last_eligible m) [
    | none ↦ if is_eligible store scope k then some k else none
    | some j ↦ some j
  ]

  -- One more position at the end.
  last_eligible-snoc :
      (i : ℕ) (k : Bytes) (m : List (Bytes × Unit {0}))
      → get_elem? m i ≡ some (k, tt)
      → last_eligible (take (suc i) m)
        ≡ (if is_eligible store scope k then some k else last_eligible (take i m))
  last_eligible-snoc i k [] e = cc
  last_eligible-snoc zero k ((j, _) ∷ m) e = ground arith
  last_eligible-snoc (suc i) k ((j, _) ∷ m) e = ground (arith, last_eligible-snoc i k m)

  get_elem?-some :
      (i : ℕ) (m : List (Bytes × Unit {0}))
      → i < length m
      → (k : Bytes) × (get_elem? m i ≡ some (k, tt))
  get_elem?-some i [] l = absurd (omega arith)
  get_elem?-some zero ((k, _) ∷ m) l = (k, refl)
  get_elem?-some (suc i) (x ∷ m) l = get_elem?-some i m (omega arith)

  walk_lem :
      (i : ℕ) (s : AdaptiveClimbState Map)
      → i ≤ length (entries s.queue)
      → (walk im store scope i s).1 ≡ last_eligible (take i (entries s.queue))
  unfolding walk
  walk_lem zero s l = refl
  walk_lem (suc i) s l =
      let (k, e) = get_elem?-some i (entries s.queue) l in
      ground (
        arith,
        im.get_index-entries s.queue i,
        last_eligible-snoc i k (entries s.queue),
        walk_lem i s,
      )

  take-length : (m : List (Bytes × Unit {0})) → take (length m) m ≡ m
  take-length [] = refl
  take-length (x ∷ m) = ap (◌∷◌ x) (take-length m)

  -- From every state the victim is the last eligible key, and there is one if any key is eligible.
  pub evict_one-last_eligible :
      (s : AdaptiveClimbState Map)
      → (evict_one im store scope s).1 ≡ last_eligible (entries s.queue)
  unfolding evict_one
  evict_one-last_eligible s = elim (Bool-cases (len s.queue == 0)) [
    | inl empty ↦ rw empty (none_left (entries s.queue) (ground (arith, im.len-entries s.queue)))
    | inr more ↦
        rw (more, im.len-entries)
          (walk_lem (length (entries s.queue)) s (omega arith)
            ∙ ap last_eligible (take-length (entries s.queue)))
  ]
    where
      none_left : (m : List (Bytes × Unit {0})) → length m ≡ 0 → none ≡ last_eligible m
      none_left [] e = refl
      none_left (x ∷ m) e = absurd (omega arith)
