-- ===== src/Storage/Sieve/Sweep.antt =====
-- A description of SIEVE that has no hand and no loop, and the induction over the looks of the sweep.
use mathlib.Core.List.{append-nil, append_assoc}
use ferrum_kv.Prelude.{
  take, drop, ℕ, zero, suc, ◌+◌, ◌<◌, ◌≡◌, refl, sym, ap, ◌∙◌, Bool, true, false, not, ◌&&◌, ◌||◌,
  leb, Option, none, some, List, [], ◌∷◌, ◌++◌, arith, Bytes, length, length-append, get_elem?, All,
  Bool-cases, inl, inr, if◌then◌else◌,
}
use ferrum_kv.Storage.Assoc.Laws.{remove_middle, get_elem?_middle, set_index_middle}
use ferrum_kv.Storage.IndexMap.{IndexMap}
use ferrum_kv.Storage.Keyspace.{Keyspace, is_eligible}
use ferrum_kv.Storage.Policy.{EvictionScope}
use ferrum_kv.Storage.Sieve.{SieveState, force_demote, sweep}

abbrev pub Entries : Type 0
Entries = List (Bytes × Bool)

-- The key of the first entry that passes a test.
abbrev pub first_key : (Bytes × Bool → Bool) → Entries → Option Bytes
first_key p [] = none
first_key p (x ∷ xs) = if p x then some x.0 else first_key p xs

abbrev pub or_else : Option Bytes → Option Bytes → Option Bytes
or_else none o = o
or_else (some k) o = some k

-- The entries in the order in which the hand meets them.
abbrev pub circle : (im : IndexMap Bool) → SieveState im.Map → Entries
circle im s = drop s.hand (im.entries s.queue) ++ take s.hand (im.entries s.queue)

module _ (im : IndexMap Bool) (store : Keyspace) (scope : EvictionScope) (ttl_aware : Bool)
    (now : ℕ) where
  open im use {Map, entries, len, get_index, shift_remove, assign_index}

  abbrev pub eligible : Bytes × Bool → Bool
  eligible x = is_eligible store scope x.0

  -- Eligible, and not visited or near its expiry.
  abbrev pub evictable : ℕ → Bytes × Bool → Bool
  evictable th x = eligible x && (not x.1 || force_demote im store scope ttl_aware now th x.0)

  -- The first evictable entry in the order in which the hand meets them; where every eligible entry
  -- has its second chance, the first eligible one.
  abbrev pub victim : ℕ → Entries → Option Bytes
  victim th circle = or_else (first_key (evictable th) circle) (first_key eligible circle)

  -- What the hand leaves behind: eligible entries with the bit cleared.
  abbrev pub IsCleared : Bytes × Bool → Type 0
  IsCleared x = (eligible x ≡ true) × (x.1 ≡ false)

  abbrev step_of : ℕ → SieveState Map → Bytes → Bool → Option Bytes
  step_of looks s k v =
      if not (is_eligible store scope k)
      then (sweep im store scope ttl_aware now looks
          (record s { queue = shift_remove s.queue k })).1
      else if not v || force_demote im store scope ttl_aware now s.ttl_demote_threshold k
      then some k
      else (sweep im store scope ttl_aware now looks
          (record s { queue = assign_index s.queue s.hand false; hand = s.hand + 1 })).1

  sweep_step :
      (looks : ℕ) (s : SieveState Map) (k : Bytes) (v : Bool)
      → leb (len s.queue) s.hand ≡ false
      → get_index s.queue s.hand ≡ some (k, v)
      → (sweep im store scope ttl_aware now (suc looks) s).1 ≡ step_of looks s k v
  unfolding sweep
  sweep_step looks s k v inside e = ground arith

  pub sweep_wrap :
      (looks : ℕ) (s : SieveState Map)
      → leb (len s.queue) s.hand ≡ true
      → (sweep im store scope ttl_aware now looks s).1
        ≡ (sweep im store scope ttl_aware now looks (record s { hand = 0 })).1
  unfolding sweep
  sweep_wrap zero s h = refl
  sweep_wrap (suc looks) s h = ground arith

  sweep_empty :
      (looks : ℕ) (s : SieveState Map)
      → entries s.queue ≡ []
      → (sweep im store scope ttl_aware now looks s).1 ≡ none
  unfolding sweep
  sweep_empty zero s e = refl
  sweep_empty (suc looks) s e =
      let g : (i : ℕ) → get_index s.queue i ≡ none =
        λ i. im.get_index-entries s.queue i ∙ ap (λ m. get_elem? m i) e in
      rw (g, sweep)

  -- What the sweep returns when the hand has left `done` behind it and has `todo` before it, in a
  -- queue `p ++ b` with the hand at the head of `b`.
  abbrev pub Sweeps : ℕ → Entries → Type 0
  Sweeps th todo =
      (done p b : Entries) (looks : ℕ) (s : SieveState Map)
      → entries s.queue ≡ p ++ b
      → s.hand ≡ length p
      → s.ttl_demote_threshold ≡ th
      → b ++ p ≡ todo ++ done
      → All IsCleared done
      → length todo < looks
      → (sweep im store scope ttl_aware now looks s).1
        ≡ or_else (first_key (evictable th) todo) (first_key eligible (done ++ todo))

  module _ (th : ℕ) (k : Bytes) (v : Bool) (p b : Entries) (s : SieveState Map)
      (queue : entries s.queue ≡ p ++ (k, v) ∷ b) (hand : s.hand ≡ length p) where
    hand_inside : leb (len s.queue) s.hand ≡ false
    hand_inside = ground (arith, im.len-entries s.queue, length-append p ((k, v) ∷ b))

    hand_entry : get_index s.queue s.hand ≡ some (k, v)
    hand_entry =
        im.get_index-entries s.queue s.hand ∙ rw (queue, hand) (get_elem?_middle (k, v) p b)

    queue_without : entries (shift_remove s.queue k) ≡ p ++ b
    queue_without =
        im.entries-shift_remove s.queue k
        ∙ rw queue (remove_middle k v p b (rw queue at (im.distinct s.queue)))

    queue_cleared : entries (assign_index s.queue s.hand false) ≡ (p ++ (k, false) ∷ []) ++ b
    queue_cleared =
        im.entries-assign_index s.queue s.hand false
        ∙ rw (queue, hand, append_assoc) (set_index_middle k v false p b)

  -- At the head of `b`: every pending entry has been passed.
  look_done :
      (th : ℕ) (done p b : Entries) (x : Bytes × Bool) (looks : ℕ) (s : SieveState Map)
      → entries s.queue ≡ p ++ x ∷ b
      → s.hand ≡ length p
      → x ∷ (b ++ p) ≡ done
      → All IsCleared done
      → (sweep im store scope ttl_aware now (suc looks) s).1 ≡ first_key eligible done
  look_done th [] p b x looks s q h e c = ground arith
  look_done th (y ∷ done) p b (k, v) looks s q h e c =
      sweep_step looks s k v (hand_inside th k v p b s q h) (hand_entry th k v p b s q h)
      ∙ ground arith

  first_key-append :
      (f : Bytes × Bool → Bool) (xs ys : Entries)
      → first_key f (xs ++ ys) ≡ or_else (first_key f xs) (first_key f ys)
  first_key-append f [] ys = refl
  first_key-append f (x ∷ xs) ys = ground (arith, first_key-append f xs ys)

  -- The bit of an entry does not matter to its eligibility.
  first_key_cleared :
      (k : Bytes) (v w : Bool) (done todo : Entries)
      → first_key eligible ((done ++ (k, w) ∷ []) ++ todo)
        ≡ first_key eligible (done ++ (k, v) ∷ todo)
  first_key_cleared k v w [] todo = refl
  first_key_cleared k v w (x ∷ done) todo = ground (arith, first_key_cleared k v w done todo)

  All-snoc :
      (done : Entries) (x : Bytes × Bool)
      → All IsCleared done
      → IsCleared x
      → All IsCleared (done ++ x ∷ [])
  All-snoc [] x a c = (c, tt)
  All-snoc (y ∷ done) x a c = (a.0, All-snoc done x a.1 c)

  -- At the head of `b`, with entries pending.
  look_next :
      (th : ℕ) (todo done p b : Entries) (k : Bytes) (v : Bool) (looks : ℕ) (s : SieveState Map)
      → Sweeps th todo
      → entries s.queue ≡ p ++ (k, v) ∷ b
      → s.hand ≡ length p
      → s.ttl_demote_threshold ≡ th
      → b ++ p ≡ todo ++ done
      → All IsCleared done
      → length todo < looks
      → (sweep im store scope ttl_aware now (suc looks) s).1
        ≡ or_else
            (first_key (evictable th) ((k, v) ∷ todo))
            (first_key eligible (done ++ (k, v) ∷ todo))
  look_next th todo done p b k v looks s ih q h t e c f =
      sweep_step looks s k v (hand_inside th k v p b s q h) (hand_entry th k v p b s q h)
      ∙ elim (Bool-cases (is_eligible store scope k)) [
        | inl el ↦ elim (Bool-cases (not v || force_demote im store scope ttl_aware now th k)) [
          | inl ev ↦ ground arith
          | inr keep ↦
              let after =
                ih (done ++ (k, false) ∷ []) (p ++ (k, false) ∷ []) b looks
                  (record s { queue = assign_index s.queue s.hand false; hand = s.hand + 1 })
                  (queue_cleared th k v p b s q h)
                  (omega (arith, length-append p ((k, false) ∷ []))) t
                  (sym (append_assoc b p _)
                    ∙ ap (λ l. l ++ (k, false) ∷ []) e
                    ∙ append_assoc todo done _)
                  (All-snoc done (k, false) c (el, refl)) f in
              ground (arith, after, first_key_cleared k v false done todo)
        ]
        | inr out ↦
            let after =
              ih done p b looks (record s { queue = shift_remove s.queue k })
                (queue_without th k v p b s q h) h t e c f in
            ground (
              arith,
              after,
              first_key-append eligible done todo,
              first_key-append eligible done ((k, v) ∷ todo),
            )
      ]

  abbrev pub SweepsInside : ℕ → Entries → Type 0
  SweepsInside th todo =
      (done p b : Entries) (k : Bytes) (v : Bool) (looks : ℕ) (s : SieveState Map)
      → entries s.queue ≡ p ++ (k, v) ∷ b
      → s.hand ≡ length p
      → s.ttl_demote_threshold ≡ th
      → (k, v) ∷ (b ++ p) ≡ todo ++ done
      → All IsCleared done
      → length todo < suc looks
      → (sweep im store scope ttl_aware now (suc looks) s).1
        ≡ or_else (first_key (evictable th) todo) (first_key eligible (done ++ todo))

  inside_nil : (th : ℕ) → SweepsInside th []
  inside_nil th done p b k v looks s q h t e c f =
      look_done th done p b (k, v) looks s q h e c ∙ ap (first_key eligible) (sym (append-nil done))

  inside_cons :
      (th : ℕ) (x : Bytes × Bool) (todo : Entries) → Sweeps th todo → SweepsInside th (x ∷ todo)
  inside_cons th (j, w) todo ih done p b k v looks s q h t e c f =
      let next = look_next th todo done p b k v looks s ih q h t (ground arith) c (omega arith) in
      ground (arith, next)

  nothing_left :
      (th : ℕ) (todo done : Entries)
      → [] ≡ todo ++ done
      → none ≡ or_else (first_key (evictable th) todo) (first_key eligible (done ++ todo))
  nothing_left th [] [] e = refl
  nothing_left th [] (x ∷ done) e = cc
  nothing_left th (x ∷ todo) done e = cc

  -- With the hand at the end of the queue, the first look brings it to the head.
  wrap : (th : ℕ) (todo : Entries) → SweepsInside th todo → Sweeps th todo
  wrap th todo i done p b zero s q h t e c f = absurd (omega arith)
  wrap th todo i done p ((k, v) ∷ b) (suc looks) s q h t e c f = i done p b k v looks s q h t e c f
  wrap th todo i done [] [] (suc looks) s q h t e c f =
      sweep_empty (suc looks) s q ∙ nothing_left th todo done e
  wrap th todo i done ((k, v) ∷ p) [] (suc looks) s q h t e c f =
      sweep_wrap (suc looks) s (ground (arith, im.len-entries s.queue, append-nil p))
      ∙ i done [] p k v looks (record s { hand = 0 }) (rw append-nil at q) refl t (rw append-nil e)
          c f

  pub every_look : (th : ℕ) (todo : Entries) → Sweeps th todo
  every_look th [] = wrap th [] (inside_nil th)
  every_look th (x ∷ todo) = wrap th (x ∷ todo) (inside_cons th x todo (every_look th todo))
