-- ===== src/Storage/Candidates.antt =====
-- The sampled policies of storage/eviction.rs, `sample_candidates` of storage/engine/util.rs, and the
-- adaptive state of AHE.

use ferrum_kv.Prelude.{
  ℕ, zero, suc, ◌+◌, ◌-◌, ◌%◌, ◌^◌, Bool, true, false, not, ◌&&◌, ◌||◌, ltb, leb, ◌==◌, Option,
  none, some, List, [], ◌∷◌, Bytes, if◌then◌else◌,
}
use ferrum_kv.Floats.{Floats}
use ferrum_kv.Storage.Entry.{ValueEntry, has_ttl, lfu_counter}
use ferrum_kv.Storage.Keyspace.{Keyspace}
use ferrum_kv.Storage.Policy.{
  EvictionPolicy, no_eviction, all_keys_lru, volatile_lru, all_keys_lfu, volatile_lfu,
  all_keys_random, volatile_random, volatile_ttl, all_keys_ahe, volatile_ahe, EvictionScope,
  all_keys, volatile,
}

-- The source's `last_access` is an option that `sample_candidates` always fills.
pub record Candidate : Type 0 where
  pub key : Bytes
  pub last_access : ℕ
  pub expire_at : Option ℕ
  pub lfu_counter : ℕ

unfoldable pub candidate : Bytes → ValueEntry → Candidate
candidate key e = record {
  key = key;
  last_access = e.last_access_ns;
  expire_at = e.expire_at;
  lfu_counter = lfu_counter e;
}

abbrev out_of_scope : EvictionScope → ValueEntry → Bool
out_of_scope all_keys e = false
out_of_scope volatile e = not (has_ttl e)

-- The loop over the keyspace, with the places left in the sample.
unfoldable pub sample_candidates : Keyspace → EvictionScope → ℕ → List Candidate
unfolding candidate
sample_candidates [] scope sample = []
sample_candidates ((key, e) ∷ store) scope zero = []
sample_candidates ((key, e) ∷ store) scope (suc sample) =
    let skipped = sample_candidates store scope (suc sample) in
    let taken = candidate key e ∷ sample_candidates store scope sample in
    if out_of_scope scope e then skipped else taken

-- `min_by_key`: the first of the least elements. `lt` compares two keys.
unfoldable pub min_by : (Candidate → Candidate → Bool) → Candidate → List Candidate → Candidate
min_by lt best [] = best
min_by lt best (c ∷ cs) = min_by lt (if lt c best then c else best) cs

unfoldable pub least : (Candidate → Candidate → Bool) → List Candidate → Option Candidate
unfolding min_by
least lt [] = none
least lt (c ∷ cs) = some (min_by lt c cs)

abbrev pub by_access : Candidate → Candidate → Bool
by_access a b = ltb a.last_access b.last_access

-- The order of the pairs `(lfu_counter, last_access)`.
abbrev pub by_frequency : Candidate → Candidate → Bool
by_frequency a b =
    ltb a.lfu_counter b.lfu_counter
    || (a.lfu_counter == b.lfu_counter && ltb a.last_access b.last_access)

-- A deadline, and 0 where there is none, which the filter before it excludes.
abbrev pub deadline_of : Candidate → ℕ
deadline_of c = elim c.expire_at [ none ↦ 0 | some d ↦ d ]

abbrev pub by_deadline : Candidate → Candidate → Bool
by_deadline a b = ltb (deadline_of a) (deadline_of b)

unfoldable pub with_ttl : List Candidate → List Candidate
with_ttl [] = []
with_ttl (c ∷ cs) = elim c.expire_at [ none ↦ with_ttl cs | some _ ↦ c ∷ with_ttl cs ]

abbrev pub first : List Candidate → Option Candidate
first [] = none
first (c ∷ cs) = some c

module _ (fl : Floats) where
  open fl use {
    F32, f32_of, f32_decimal, f32_add, f32_sub, f32_mul, f32_div, f32_neg, f32_min, f32_clamp,
    f32_lt, f32_secs,
  }

  -- 600 s, 30 s and 0.2.
  unfoldable pub eps_score : F32 → Candidate → ℕ → F32
  eps_score alpha c now =
      let age = f32_secs (now - c.last_access) in
      let recency = f32_min (f32_div age (f32_secs 600_000_000_000)) (f32_of 1) in
      let infrequency = f32_sub (f32_of 1) (f32_div (f32_of c.lfu_counter) (f32_of 255)) in
      let penalty = f32_decimal 2 1 in
      let ttl_penalty : F32 = elim c.expire_at [
        | none ↦ f32_of 0
        | some deadline ↦
            if ltb now deadline
            then (if leb (deadline - now) 30_000_000_000 then penalty else f32_of 0)
            else penalty
      ] in
      f32_add (f32_add (f32_mul alpha recency) (f32_mul (f32_sub (f32_of 1) alpha) infrequency))
        ttl_penalty

  -- `max_by`: the last of the greatest scores.
  unfoldable pub max_score : F32 → ℕ → Candidate → List Candidate → Candidate
  unfolding eps_score
  max_score alpha now best [] = best
  max_score alpha now best (c ∷ cs) =
      max_score alpha now
        (if f32_lt (eps_score alpha c now) (eps_score alpha best now) then best else c) cs

  unfoldable pub pick_victim_ahe : F32 → ℕ → List Candidate → Option Candidate
  unfolding max_score
  pick_victim_ahe alpha now [] = none
  pick_victim_ahe alpha now (c ∷ cs) =
      some (max_score (f32_clamp alpha (f32_of 0) (f32_of 1)) now c cs)

  -- `pick_victim`; the stateful policies have no sampled victim.
  unfoldable pub pick_victim : EvictionPolicy → ℕ → List Candidate → Option Candidate
  unfolding least with_ttl pick_victim_ahe
  pick_victim no_eviction now cs = none
  pick_victim all_keys_random now cs = first cs
  pick_victim volatile_random now cs = first cs
  pick_victim all_keys_lru now cs = least by_access cs
  pick_victim volatile_lru now cs = least by_access cs
  pick_victim all_keys_lfu now cs = least by_frequency cs
  pick_victim volatile_lfu now cs = least by_frequency cs
  pick_victim volatile_ttl now cs = least by_deadline (with_ttl cs)
  pick_victim all_keys_ahe now cs = pick_victim_ahe (f32_decimal 5 1) now cs
  pick_victim volatile_ahe now cs = pick_victim_ahe (f32_decimal 5 1) now cs
  pick_victim _ now cs = none

  pub record AdaptiveHybridState : Type 0 where
    pub alpha : F32
    pub step : F32
    pub direction : F32
    pub last_hit_ratio : F32
    pub window_size : ℕ
    pub window_count : ℕ
    pub last_hits : ℕ
    pub last_misses : ℕ
    pub primed : Bool

  unfoldable pub default_ahe : AdaptiveHybridState
  default_ahe = record {
    alpha = f32_decimal 5 1;
    step = f32_decimal 5 2;
    direction = f32_of 1;
    last_hit_ratio = f32_of 0;
    window_size = 64;
    window_count = 0;
    last_hits = 0;
    last_misses = 0;
    primed = false;
  }

  -- A completed window of `observe`.
  unfoldable pub adjust : AdaptiveHybridState → ℕ → ℕ → AdaptiveHybridState
  adjust s hits misses =
      let delta_hits = hits - s.last_hits in
      let total = (delta_hits + (misses - s.last_misses)) % 2 ^ 64 in
      let ratio =
        if total == 0 then s.last_hit_ratio else f32_div (f32_of delta_hits) (f32_of total) in
      let direction =
        if f32_lt (f32_add ratio (f32_decimal 1 4)) s.last_hit_ratio
        then f32_neg s.direction
        else s.direction in
      record s {
        alpha =
            f32_clamp (f32_add s.alpha (f32_mul direction s.step)) (f32_decimal 5 2)
              (f32_decimal 95 2);
        direction = direction;
        last_hit_ratio = ratio;
        window_count = 0;
        last_hits = hits;
        last_misses = misses;
      }

  unfoldable pub observe : AdaptiveHybridState → ℕ → ℕ → AdaptiveHybridState × Bool
  unfolding adjust
  observe s hits misses =
      if not s.primed
      then (let total = (hits + misses) % 2 ^ 64 in
          (
            record s {
              primed = true;
              last_hits = hits;
              last_misses = misses;
              last_hit_ratio =
                  if ltb 0 total then f32_div (f32_of hits) (f32_of total) else s.last_hit_ratio;
            },
            false,
          ))
      else if ltb (s.window_count + 1) s.window_size
      then (record s { window_count = s.window_count + 1 }, false)
      else (adjust s hits misses, true)
