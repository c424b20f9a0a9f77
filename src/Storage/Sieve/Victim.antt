-- ===== src/Storage/Sieve/Victim.antt =====
-- Which key `evict_one` evicts, from every state and whatever the bits and the hand.
use mathlib.Core.List.{append-nil}
use ferrum_kv.Prelude.{
  ℕ, zero, suc, ◌+◌, ◌≤◌, ◌<◌, ◌≡◌, refl, sym, ap, ◌∙◌, Bool, leb, ◌==◌, none, [], ◌∷◌, ◌++◌, arith,
  length, length-append, take, drop, length-take, length-drop, take-append-drop, leb→le, Bool-cases,
  inl, inr,
}
use ferrum_kv.Storage.IndexMap.{IndexMap}
use ferrum_kv.Storage.Keyspace.{Keyspace}
use ferrum_kv.Storage.Policy.{EvictionScope}
use ferrum_kv.Storage.Sieve.{SieveState, sweep, evict_one}
use ferrum_kv.Storage.Sieve.Sweep.{circle, Entries, victim, every_look, sweep_wrap}

module _ (im : IndexMap Bool) (store : Keyspace) (scope : EvictionScope) (ttl_aware : Bool)
    (now : ℕ) where
  open im use {Map, entries, len}

  length-circle : (h : ℕ) (m : Entries) → length (drop h m ++ take h m) ≡ length m
  length-circle h m =
      omega (arith, length-append (drop h m) (take h m), length-take h m, length-drop h m)

  take-all : (h : ℕ) (m : Entries) → length m ≤ h → (take h m ≡ m) × (drop h m ≡ [])
  take-all zero [] l = (refl, refl)
  take-all zero (x ∷ m) l = absurd (omega arith)
  take-all (suc h) [] l = (refl, refl)
  take-all (suc h) (x ∷ m) l = ground (arith, take-all h m)

  sweep-victim :
      (looks : ℕ) (s : SieveState Map)
      → length (entries s.queue) < looks
      → (sweep im store scope ttl_aware now looks s).1
        ≡ victim im store scope ttl_aware now s.ttl_demote_threshold (circle im s)
  sweep-victim looks s f = elim (Bool-cases (leb (length (entries s.queue)) s.hand)) [
    | inl past ↦
        let q = entries s.queue in
        let all = take-all s.hand q (leb→le _ _ past) in
        sweep_wrap im store scope ttl_aware now looks s (rw im.len-entries past)
        ∙ every_look im store scope ttl_aware now s.ttl_demote_threshold q [] [] q looks
            (record s { hand = 0 }) refl refl refl refl tt f
        ∙ ap (victim im store scope ttl_aware now s.ttl_demote_threshold) (rw (all.0, all.1))
    | inr within ↦
        let q = entries s.queue in
        every_look im store scope ttl_aware now s.ttl_demote_threshold (circle im s) []
          (take s.hand q) (drop s.hand q) looks s (sym (take-append-drop s.hand q))
          (ground (arith, length-take s.hand q)) refl (sym (append-nil (circle im s))) tt
          (omega (arith, length-circle s.hand q))
  ]

  empty_victim :
      (th h : ℕ) (m : Entries)
      → length m ≡ 0
      → none ≡ victim im store scope ttl_aware now th (drop h m ++ take h m)
  empty_victim th zero [] e = refl
  empty_victim th (suc h) [] e = refl
  empty_victim th h (x ∷ m) e = absurd (omega arith)

  -- `evict_one` evicts the key that the description names, from every state.
  pub evict_one-victim :
      (s : SieveState Map)
      → (evict_one im store scope ttl_aware now s).1
        ≡ victim im store scope ttl_aware now s.ttl_demote_threshold (circle im s)
  unfolding evict_one
  evict_one-victim s = elim (Bool-cases (len s.queue == 0)) [
    | inl empty ↦ rw empty (
        empty_victim s.ttl_demote_threshold s.hand (entries s.queue)
          (ground (arith, im.len-entries s.queue)))
    | inr some_left ↦
        rw some_left (sweep-victim (len s.queue + 1) s (omega (arith, im.len-entries s.queue)))
  ]
