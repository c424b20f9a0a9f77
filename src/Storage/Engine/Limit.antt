-- ===== src/Storage/Engine/Limit.antt =====
-- What `enforce_memory_limit` guarantees: the outcome fits, nothing but whole entries is dropped.
use ferrum_kv.Prelude.{
  ℕ, zero, suc, ◌+◌, ◌-◌, ◌^◌, ◌≤◌, ◌<◌, ◌≡◌, refl, ap, ◌∙◌, ◌⊎◌, inl, inr, true, ◌==◌, max, none,
  arith, Bytes, length, bytes_eq, bytes_eq_iff, Option-cases, Bool-cases,
}
use ferrum_kv.Error.{Result, ok, err}
use ferrum_kv.Storage.Assoc.{get, remove}
use ferrum_kv.Storage.Assoc.Laws.{get-remove_self, get-remove_ne}
use ferrum_kv.Storage.Entry.{Clock}
use ferrum_kv.Storage.Keyspace.{Keyspace}
use ferrum_kv.Storage.Engine.{Host, KvEngine}
use ferrum_kv.Storage.Engine.Track.{track_remove, append}
use ferrum_kv.Storage.Engine.Evict.{
  fits, is_no_eviction, select_victim, evict_key, evict_rounds, after_rounds, finish_rounds,
  enforce_memory_limit,
}
use ferrum_kv.Storage.Engine.Memory.{
  total, total-remove, IsTracked, IsTracked-same, track_remove-IsTracked,
}

-- Every key of the first keyspace has there the entry that it has in the second.
abbrev pub Within : Keyspace → Keyspace → Type 0
Within a b = (k : Bytes) → (get k a ≡ none) ⊎ (get k a ≡ get k b)

pub Within-trans : (a b c : Keyspace) → Within a b → Within b c → Within a c
Within-trans a b c p q k = ground (arith, p k, q k)

remove-Within : (k : Bytes) (m : Keyspace) → get k (remove k m) ≡ none → Within (remove k m) m
remove-Within k m h j = elim (Bool-cases (bytes_eq k j)) [
  | inl e ↦ let same : k ≡ j = (bytes_eq_iff k j).0 e in inl (rw (← same) h)
  | inr ne ↦ inr (get-remove_ne k j m ne)
]

-- What a step of the eviction keeps: the counter, the limits, and the entries that stay.
pub record Evicts {h : Host} (a b : KvEngine h) : Type 0 where
  pub tracked : IsTracked b
  pub limits : b.eviction ≡ a.eviction
  pub shrinks : total b.store ≤ total a.store
  pub within : Within b.store a.store

Evicts-refl : {h : Host} {e : KvEngine h} → IsTracked e → Evicts e e
Evicts-refl t = record { tracked = t; limits = refl; shrinks = omega arith; within = λ k. inr refl }

Evicts-trans : {h : Host} {a b c : KvEngine h} → Evicts a b → Evicts b c → Evicts a c
Evicts-trans {a = a} {b = b} {c = c} p q = record {
  tracked = q.tracked;
  limits = q.limits ∙ p.limits;
  shrinks = omega (arith, q.shrinks, p.shrinks);
  within = Within-trans c.store b.store a.store q.within p.within;
}

module _ (h : Host) (c : Clock) where
  select_victim_frame :
      (e : KvEngine h)
      → ((select_victim h c e).0.store ≡ e.store)
        × ((select_victim h c e).0.used_memory ≡ e.used_memory)
        × ((select_victim h c e).0.eviction ≡ e.eviction)
  unfolding select_victim
  select_victim_frame e = ground arith

  select_victim-Evicts : (e : KvEngine h) → IsTracked e → Evicts e (select_victim h c e).0
  select_victim-Evicts e t =
      let f = select_victim_frame e in
      record {
        tracked = IsTracked-same f.0 f.1 t;
        limits = f.2;
        shrinks = omega (arith, ap total f.0);
        within = λ k. inr (rw f.0 refl);
      }

  pub evict_key_frame :
      (e : KvEngine h) (k : Bytes)
      → ((evict_key h e k).store ≡ (track_remove h e k).0.store)
        × ((evict_key h e k).used_memory ≡ (track_remove h e k).0.used_memory)
        × ((evict_key h e k).eviction ≡ e.eviction)
        × ((track_remove h e k).0.store ≡ remove k e.store)
  unfolding evict_key append track_remove
  evict_key_frame e k = ground arith

  pub evict_key-Evicts : (e : KvEngine h) (k : Bytes) → IsTracked e → Evicts e (evict_key h e k)
  evict_key-Evicts e k t =
      let f = evict_key_frame e k in
      record {
        tracked = IsTracked-same f.0 f.1 (track_remove-IsTracked h e k t);
        limits = f.2;
        shrinks = omega (arith, ap total (f.0 ∙ f.3), total-remove h k e.store);
        within = rw (f.0 ∙ f.3) (remove-Within k e.store (get-remove_self k e.store t.distinct));
      }

  pub rounds-Evicts :
      (incoming rounds evicted : ℕ) (e : KvEngine h)
      → IsTracked e
      → Evicts e (evict_rounds h c incoming rounds evicted e).0
  unfolding evict_rounds
  rounds-Evicts incoming zero evicted e t = Evicts-refl t
  rounds-Evicts incoming (suc rounds) evicted e t =
      let s = select_victim-Evicts e t in
      let e1 = (select_victim h c e).0 in
      elim (Bool-cases (fits e.used_memory incoming e.eviction.max_memory)) [
        | inl y ↦ rw y (Evicts-refl t)
        | inr n ↦ elim (Bool-cases (is_no_eviction e.eviction.policy)) [
          | inl y ↦ rw (n, y) (Evicts-refl t)
          | inr m ↦ elim (Option-cases (select_victim h c e).1) [
            | inl q ↦ rw (n, m, q) s
            | inr (key, q) ↦
                let v = evict_key-Evicts e1 key s.tracked in
                rw (n, m, q)
                  (Evicts-trans s (
                    Evicts-trans v
                      (rounds-Evicts incoming rounds (evicted + 1) (evict_key h e1 key) v.tracked)))
          ]
        ]
      ]

  pub after_rounds_frame :
      (incoming evicted : ℕ) (e : KvEngine h)
      → ((after_rounds h incoming evicted e).0.store ≡ e.store)
        × ((after_rounds h incoming evicted e).0.used_memory ≡ e.used_memory)
        × ((after_rounds h incoming evicted e).0.eviction ≡ e.eviction)
  unfolding after_rounds
  after_rounds_frame incoming evicted e = ground arith

  finish_rounds-Evicts :
      (incoming : ℕ) (e : KvEngine h) (r : KvEngine h × ℕ × Result (Unit {0}))
      → Evicts e r.0
      → Evicts e (finish_rounds h incoming r).0
  unfolding finish_rounds
  finish_rounds-Evicts incoming e (a, n, ok _) p =
      let f = after_rounds_frame incoming n a in
      record {
        tracked = IsTracked-same f.0 f.1 p.tracked;
        limits = f.2 ∙ p.limits;
        shrinks = omega (arith, ap total f.0, p.shrinks);
        within = rw f.0 p.within;
      }
  finish_rounds-Evicts incoming e (a, n, err x) p = p

  finish_rounds-fits :
      (incoming : ℕ) (r : KvEngine h × ℕ × Result (Unit {0}))
      → (finish_rounds h incoming r).1 ≡ ok tt
      → (fits
            (finish_rounds h incoming r).0.used_memory
            incoming
            (finish_rounds h incoming r).0.eviction.max_memory
          ≡ true)
  unfolding finish_rounds after_rounds
  finish_rounds-fits incoming (a, n, ok _) h = ground arith
  finish_rounds-fits incoming (a, n, err x) h = ground arith

  -- Whether it succeeds or fails, `enforce_memory_limit` on an engine with an exact counter leaves the
  -- counter exact and the configuration as it was, and every entry that is left is the one before.
  pub enforce_memory_limit-Evicts :
      (incoming : ℕ) (e : KvEngine h)
      → IsTracked e
      → Evicts e (enforce_memory_limit h c incoming e).0
  unfolding enforce_memory_limit
  enforce_memory_limit-Evicts incoming e t = elim (Bool-cases (e.eviction.max_memory == 0)) [
    | inl y ↦ rw y (Evicts-refl t)
    | inr n ↦
        let rounds = max (length e.store) 1 + 16 in
        rw n (
          finish_rounds-Evicts incoming e (evict_rounds h c incoming rounds 0 e)
            (rounds-Evicts incoming rounds 0 e t))
  ]

  -- When the limit is positive and below `u64::MAX` and `enforce_memory_limit` succeeds on an engine
  -- whose counter is exact, the entries that are left and the incoming bytes fit the limit.
  pub enforce_memory_limit_bounds :
      (incoming : ℕ) (e : KvEngine h)
      → IsTracked e
      → 0 < e.eviction.max_memory
      → e.eviction.max_memory < 2 ^ 64 - 1
      → (enforce_memory_limit h c incoming e).1 ≡ ok tt
      → total (enforce_memory_limit h c incoming e).0.store + incoming ≤ e.eviction.max_memory
  unfolding enforce_memory_limit fits
  enforce_memory_limit_bounds incoming e t p b done =
      let v = enforce_memory_limit-Evicts incoming e t in
      let rounds = max (length e.store) 1 + 16 in
      ground (
        arith,
        v.limits,
        v.tracked.counter,
        finish_rounds-fits incoming (evict_rounds h c incoming rounds 0 e),
      )
