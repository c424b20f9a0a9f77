-- ===== src/Storage/Engine/Progress.antt =====
-- The bounded loop of `enforce_memory_limit` finishes: its rounds are enough for the sampled policies
-- that may evict every key.
use ferrum_kv.Prelude.{
  ℕ, zero, suc, ◌+◌, ◌≤◌, ◌<◌, ◌≡◌, refl, ap, ◌∙◌, ◌⊎◌, inl, inr, Bool, true, false, ◌==◌, max,
  Option, some, List, [], ◌∷◌, arith, Bytes, length, bytes_eq_iff, Bool-cases, All, if◌then◌else◌,
}
use ferrum_kv.Error.{Result, ok, err}
use ferrum_kv.Floats.{Floats}
use ferrum_kv.Storage.Assoc.{remove}
use ferrum_kv.Storage.Entry.{ValueEntry, Clock}
use ferrum_kv.Storage.Keyspace.{Keyspace}
use ferrum_kv.Storage.Policy.{
  EvictionPolicy, all_keys_lru, all_keys_lfu, all_keys_random, all_keys_ahe, scope, all_keys,
  is_sieve, is_adaptive_climb,
}
use ferrum_kv.Storage.Candidates.{
  Candidate, candidate, sample_candidates, min_by, least, eps_score, by_access, by_frequency,
  max_score, pick_victim, pick_victim_ahe,
}
use ferrum_kv.Storage.Engine.{Host, KvEngine}
use ferrum_kv.Storage.Engine.Evict.{
  fits, is_no_eviction, key_of, is_ahe, select_victim, evict_key, evict_rounds, after_rounds,
  finish_rounds, enforce_memory_limit,
}
use ferrum_kv.Storage.Engine.Memory.{total, IsTracked}
use ferrum_kv.Storage.Engine.Limit.{evict_key-Evicts, evict_key_frame}

-- The policies that draw a sample from all keys.
pub data SamplesAll : EvictionPolicy → Type 0 where
  lru : SamplesAll all_keys_lru
  lfu : SamplesAll all_keys_lfu
  random : SamplesAll all_keys_random
  ahe : SamplesAll all_keys_ahe

sampled_policy_tests :
    (p : EvictionPolicy)
    → SamplesAll p
    → (scope p ≡ all_keys)
      × (is_sieve p ≡ false)
      × (is_adaptive_climb p ≡ false)
      × (is_no_eviction p ≡ false)
unfolding scope is_sieve is_adaptive_climb
sampled_policy_tests p lru = (refl, refl, refl, refl)
sampled_policy_tests p lfu = (refl, refl, refl, refl)
sampled_policy_tests p random = (refl, refl, refl, refl)
sampled_policy_tests p ahe = (refl, refl, refl, refl)

-- Removing the key of a candidate makes the keyspace one entry smaller.
abbrev Removable : Keyspace → Candidate → Type 0
Removable m c = length (remove c.key m) + 1 ≡ length m

All-Removable_cons :
    (k : Bytes) (v : ValueEntry) (m : Keyspace) (cs : List Candidate)
    → All (Removable m) cs
    → All (Removable ((k, v) ∷ m)) cs
All-Removable_cons k v m [] h = tt
All-Removable_cons k v m (c ∷ cs) h = (ground (arith, h.0), All-Removable_cons k v m cs h.1)

sample-Removable : (m : Keyspace) (n : ℕ) → All (Removable m) (sample_candidates m all_keys n)
unfolding sample_candidates candidate
sample-Removable [] n = tt
sample-Removable ((k, e) ∷ m) zero = tt
sample-Removable ((k, e) ∷ m) (suc n) = (
  ground (arith, bytes_eq_iff k k),
  All-Removable_cons k e m (sample_candidates m all_keys n) (sample-Removable m n),
)

if-both : {x y : Candidate} (P : Candidate → Type 0) (t : Bool) → P x → P y → P (if t then x else y)
if-both P true p q = p
if-both P false p q = q

min_by-All :
    (P : Candidate → Type 0) (lt : Candidate → Candidate → Bool) (b : Candidate)
    (cs : List Candidate)
    → P b
    → All P cs
    → P (min_by lt b cs)
unfolding min_by
min_by-All P lt b [] p h = p
min_by-All P lt b (c ∷ cs) p h =
    min_by-All P lt (if lt c b then c else b) cs (if-both P (lt c b) h.0 p) h.1

max_score-All :
    (fl : Floats) (alpha : fl.F32) (now : ℕ) (P : Candidate → Type 0) (b : Candidate)
    (cs : List Candidate)
    → P b
    → All P cs
    → P (max_score fl alpha now b cs)
unfolding max_score
max_score-All fl alpha now P b [] p h = p
max_score-All fl alpha now P b (c ∷ cs) p h =
    let lower = fl.f32_lt (eps_score fl alpha c now) (eps_score fl alpha b now) in
    max_score-All fl alpha now P (if lower then b else c) cs (if-both P lower p h.0) h.1

-- What a round that draws a sample selects.
abbrev drawn : (fl : Floats) → EvictionPolicy → fl.F32 → ℕ → List Candidate → Option Candidate
drawn fl p alpha now cs =
    if is_ahe p then pick_victim_ahe fl alpha now cs else pick_victim fl p now cs

drawn-Removable :
    (fl : Floats) (p : EvictionPolicy) (alpha : fl.F32) (now : ℕ) (m : Keyspace) (x : Candidate)
    (cs : List Candidate)
    → SamplesAll p
    → All (Removable m) (x ∷ cs)
    → (y : Candidate) × (drawn fl p alpha now (x ∷ cs) ≡ some y) × Removable m y
unfolding pick_victim pick_victim_ahe least
drawn-Removable fl p alpha now m x cs lru h =
    (min_by by_access x cs, refl, min_by-All (Removable m) by_access x cs h.0 h.1)
drawn-Removable fl p alpha now m x cs lfu h =
    (min_by by_frequency x cs, refl, min_by-All (Removable m) by_frequency x cs h.0 h.1)
drawn-Removable fl p alpha now m x cs random h = (x, refl, h.0)
drawn-Removable fl p alpha now m x cs ahe h =
    let a = fl.f32_clamp alpha (fl.f32_of 0) (fl.f32_of 1) in
    (max_score fl a now x cs, refl, max_score-All fl a now (Removable m) x cs h.0 h.1)

draw_cases :
    (fl : Floats) (p : EvictionPolicy) (alpha : fl.F32) (now : ℕ) (m : Keyspace) (n : ℕ)
    → SamplesAll p
    → (m ≡ [])
      ⊎ (n ≡ 0)
      ⊎ ((y : Candidate) × (drawn fl p alpha now (sample_candidates m all_keys n) ≡ some y)
          × Removable m y)
unfolding sample_candidates
draw_cases fl p alpha now [] n s = inl refl
draw_cases fl p alpha now ((k, v) ∷ m) zero s = inr (inl refl)
draw_cases fl p alpha now ((k, v) ∷ m) (suc n) s = inr (
    inr (
      drawn-Removable fl p alpha now ((k, v) ∷ m) (candidate k v) (sample_candidates m all_keys n) s
        (sample-Removable ((k, v) ∷ m) (suc n))))

total_empty : (m : Keyspace) → length m ≤ 0 → total m ≡ 0
total_empty [] h = refl
total_empty ((k, v) ∷ m) h = ground arith

empty-fits :
    {h : Host} (incoming : ℕ) (e : KvEngine h)
    → IsTracked e
    → incoming ≤ e.eviction.max_memory
    → length e.store ≤ 0
    → fits e.used_memory incoming e.eviction.max_memory ≡ true
unfolding fits
empty-fits incoming e t l q = ground (arith, t.counter, total_empty e.store q)

finish_rounds-ok :
    {h : Host} (incoming : ℕ) (r : KvEngine h × ℕ × Result (Unit {0}))
    → (r.2 ≡ ok tt) × (fits r.0.used_memory incoming r.0.eviction.max_memory ≡ true)
    → (finish_rounds h incoming r).1 ≡ ok tt
unfolding finish_rounds after_rounds
finish_rounds-ok incoming (e, evicted, ok _) q = rw q.1 refl
finish_rounds-ok incoming (e, evicted, err x) q = ground (arith, q.0)

module _ (h : Host) (c : Clock) where
  select_victim-drawn :
      (e : KvEngine h)
      → SamplesAll e.eviction.policy
      → select_victim h c e ≡ (
        e,
        key_of (
            drawn h.floats e.eviction.policy e.ahe.alpha c.now
              (sample_candidates e.store all_keys e.eviction.samples)),
      )
  unfolding select_victim
  select_victim-drawn e s =
      let f = sampled_policy_tests e.eviction.policy s in
      elim (Bool-cases (is_ahe e.eviction.policy)) [
        | inl y ↦ rw (f.0, y) refl
        | inr n ↦ rw (f.0, f.1, f.2, n) refl
      ]

  rounds-fits :
      (incoming rounds evicted : ℕ) (e : KvEngine h)
      → IsTracked e
      → SamplesAll e.eviction.policy
      → 0 < e.eviction.samples
      → incoming ≤ e.eviction.max_memory
      → length e.store ≤ rounds
      → ((evict_rounds h c incoming rounds evicted e).2 ≡ ok tt)
        × (fits
              (evict_rounds h c incoming rounds evicted e).0.used_memory
              incoming
              (evict_rounds h c incoming rounds evicted e).0.eviction.max_memory
            ≡ true)
  unfolding evict_rounds
  rounds-fits incoming zero evicted e t s n l r = (refl, empty-fits incoming e t l r)
  rounds-fits incoming (suc rounds) evicted e t s n l r =
      elim (Bool-cases (fits e.used_memory incoming e.eviction.max_memory)) [
        | inl y ↦ rw y (refl, y)
        | inr over ↦
            let sel = select_victim-drawn e s in
            let f = sampled_policy_tests e.eviction.policy s in
            elim (draw_cases h.floats e.eviction.policy e.ahe.alpha c.now e.store e.eviction.samples
              s) [
                | inl q ↦ ground (arith, over, empty-fits incoming e t l (rw q (omega arith)))
                | inr (inl q) ↦ ground (arith, q, n)
                | inr (inr (y, q, sh)) ↦
                    let chosen : select_victim h c e ≡ (e, some y.key) = sel ∙ rw q refl in
                    let v = evict_key-Evicts h c e y.key t in
                    let g = evict_key_frame h c e y.key in
                    rw (over, f.3, ap (λ x. x.1) chosen, ap (λ x. x.0) chosen)
                      (rounds-fits incoming rounds (evicted + 1) (evict_key h e y.key) v.tracked
                        (rw v.limits s) (rw v.limits n) (rw v.limits l)
                        (rw (g.0 ∙ g.3) (ground (arith, sh))))
              ]
      ]

  -- Under a sampled policy over all keys, with a positive sample size and an incoming size within the
  -- limit, `enforce_memory_limit` on an engine with an exact counter succeeds: its rounds are enough.
  pub enforce_memory_limit-ok :
      (incoming : ℕ) (e : KvEngine h)
      → IsTracked e
      → SamplesAll e.eviction.policy
      → 0 < e.eviction.samples
      → incoming ≤ e.eviction.max_memory
      → (enforce_memory_limit h c incoming e).1 ≡ ok tt
  unfolding enforce_memory_limit
  enforce_memory_limit-ok incoming e t s n l = elim (Bool-cases (e.eviction.max_memory == 0)) [
    | inl y ↦ rw y refl
    | inr over ↦
        let r = max (length e.store) 1 + 16 in
        rw over (
          finish_rounds-ok incoming (evict_rounds h c incoming r 0 e)
            (rounds-fits incoming r 0 e t s n l (omega arith)))
  ]
