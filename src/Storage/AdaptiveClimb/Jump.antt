-- ===== src/Storage/AdaptiveClimb/Jump.antt =====
-- `jump` stays in its range, and where an insertion and a hit put the key.
use ferrum_kv.Prelude.{
  not, ℕ, zero, suc, ◌+◌, ◌-◌, ◌≤◌, ◌<◌, ◌≡◌, refl, ap, ◌∙◌, ◌&&◌, ltb, ◌==◌, Bool, true, false,
  min, max, none, some, List, [], ◌∷◌, arith, Bytes, bytes_eq_iff, bytes_eq_refl, length, get_elem?,
  Option-cases, inl, inr, if◌then◌else◌,
}
use ferrum_kv.Storage.Assoc.{get, remove, index_of, Distinct}
use ferrum_kv.Storage.Assoc.Laws.{get-remove_self}
use ferrum_kv.Storage.IndexMap.{IndexMap, splice, delete_at, move_entry}
use ferrum_kv.Storage.IndexMap.Lists.{get-delete_at}
use ferrum_kv.Storage.AdaptiveClimb.{
  AdaptiveClimbState, is_volatile, clamp_jump, observe_remove, insert_absent, observe_insert,
  observe_access, promote, promote,
}

module _ {V : Type 0} where
  length-splice :
      (i : ℕ) (x : Bytes × V) (m : List (Bytes × V)) → length (splice i x m) ≡ suc (length m)
  length-splice zero x m = refl
  length-splice (suc i) x [] = refl
  length-splice (suc i) x (y ∷ m) = ap suc (length-splice i x m)

  length-delete_at :
      (i : ℕ) (x : Bytes × V) (m : List (Bytes × V))
      → get_elem? m i ≡ some x
      → suc (length (delete_at i m)) ≡ length m
  length-delete_at i x [] e = cc
  length-delete_at zero x (y ∷ m) e = refl
  length-delete_at (suc i) x (y ∷ m) e = ap suc (length-delete_at i x m e)

  length-move_entry :
      (from to : ℕ) (m : List (Bytes × V)) → length (move_entry from to m) ≡ length m
  length-move_entry from to m = elim (Option-cases (get_elem? m from)) [
    | inl e ↦ rw (e, move_entry)
    | inr (x, e) ↦
        rw (e, move_entry) (length-splice to x (delete_at from m) ∙ length-delete_at from x m e)
  ]

  index_of-splice :
      (i : ℕ) (k : Bytes) (v : V) (m : List (Bytes × V))
      → i ≤ length m
      → get k m ≡ none
      → index_of k (splice i (k, v) m) ≡ some i
  index_of-splice zero k v m l h = ground (arith, bytes_eq_refl k)
  index_of-splice (suc i) k v [] l h = absurd (omega arith)
  index_of-splice (suc i) k v ((j, w) ∷ m) l h = ground (arith, index_of-splice i k v m)

module _ (im : IndexMap (Unit {0})) where
  open im use {Map, entries, len}

  -- 1 <= jump <= the length of the list, and 1 for the empty list.
  pub record IsClamped (s : AdaptiveClimbState Map) : Type 0 where
    pub at_least : 1 ≤ s.jump
    pub at_most : s.jump ≤ max 1 (length (entries s.queue))

  pub clamp_jump-IsClamped : (s : AdaptiveClimbState Map) → IsClamped (clamp_jump im s)
  unfolding clamp_jump
  clamp_jump-IsClamped s = ground (arith, im.len-entries s.queue)

  -- Every operation that changes the list or the distance keeps the distance in its range.
  pub observe_remove-IsClamped :
      (s : AdaptiveClimbState Map) (key : Bytes) → IsClamped (observe_remove im s key)
  unfolding observe_remove
  observe_remove-IsClamped s key =
      clamp_jump-IsClamped (record s { queue = im.shift_remove s.queue key })

  absent_after : (q : Map) (key : Bytes) → get key (entries (im.shift_remove q key)) ≡ none
  absent_after q key = rw im.entries-shift_remove (get-remove_self key (entries q) (im.distinct q))

  abbrev raised : ℕ → ℕ → ℕ
  raised jump len = if len == 0 then 1 else if ltb jump len then jump + 1 else jump

  raised_lem :
      (jump len : ℕ)
      → 1 ≤ jump
      → jump ≤ max 1 len
      → (raised jump len ≡ min (jump + 1) (max 1 len))
        × (min (len - raised jump len) len ≡ len - raised jump len)
  raised_lem jump len a b = ground arith

  -- Where a key that is not in the list is inserted, and the distance afterwards.
  pub insert_absent_lem :
      (s : AdaptiveClimbState Map) (key : Bytes)
      → IsClamped s
      → get key (entries s.queue) ≡ none
      → IsClamped (insert_absent im s key)
        × ((insert_absent im s key).jump ≡ min (s.jump + 1) (max 1 (length (entries s.queue))))
        × (index_of key (entries (insert_absent im s key).queue)
            ≡ some (length (entries s.queue) - (insert_absent im s key).jump))
  unfolding insert_absent
  insert_absent_lem s key c h =
      let m = entries s.queue in
      let n = length m in
      let j = raised s.jump n in
      let r = raised_lem s.jump n c.at_least c.at_most in
      let q = im.entries-insert_before s.queue (n - j) key tt h in
      rw (im.len-entries s.queue, r.1)
        (
          record {
            at_least = omega (arith, r.0);
            at_most = rw q (rw length-splice (omega (arith, r.0)));
          },
          r.0,
          rw q (index_of-splice (n - j) key tt m (omega arith) h),
        )

  raised_clamped :
      (jump len n : ℕ)
      → len ≡ n
      → min ((if len == 0 then 1 else min (max jump 1) len) + 1) (max 1 n)
        ≡ max 1 (min (max 1 jump + 1) n)
  raised_clamped jump len n e = rw e (ground arith)

  -- After the insertion of a key that the scope tracks, from any state, `len` being the length of the
  -- list without the key: the distance is one more than it was, taken as one if it was 0, but no more
  -- than `len` and no less than one; it is in its range; and the key stands at `len` less that distance.
  pub observe_insert_lem :
      (s : AdaptiveClimbState Map) (key : Bytes) (has_ttl : Bool)
      → is_volatile s.scope && not has_ttl ≡ false
      → let len = length (remove key (entries s.queue)) in
        let distance = max 1 (min (max 1 s.jump + 1) len) in
        IsClamped (observe_insert im s key has_ttl)
        × ((observe_insert im s key has_ttl).jump ≡ distance)
        × (index_of key (entries (observe_insert im s key has_ttl).queue) ≡ some (len - distance))
  unfolding observe_insert clamp_jump
  observe_insert_lem s key has_ttl tracked =
      let q = im.shift_remove s.queue key in
      let s0 : AdaptiveClimbState Map = record s { queue = q } in
      let gone = im.entries-shift_remove s.queue key in
      let r =
        insert_absent_lem (clamp_jump im s0) key (clamp_jump-IsClamped s0)
          (absent_after s.queue key) in
      let j = r.1 ∙ raised_clamped s.jump (im.len q) (length (entries q)) (im.len-entries q) in
      let at = r.2 ∙ ap (λ z. some (length (entries q) - z)) j in
      rw tracked (
        r.0,
        j ∙ ap (λ z. max 1 (min (max 1 s.jump + 1) (length z))) gone,
        at ∙ ap (λ z. some (length z - max 1 (min (max 1 s.jump + 1) (length z)))) gone,
      )

  get_elem_of_index :
      (key : Bytes) (p : ℕ) (m : List (Bytes × Unit {0}))
      → index_of key m ≡ some p
      → get_elem? m p ≡ some (key, tt)
  get_elem_of_index key p [] e = cc
  get_elem_of_index key zero ((j, w) ∷ m) e = ground (arith, bytes_eq_iff j key)
  get_elem_of_index key (suc p) ((j, w) ∷ m) e = ground (arith, get_elem_of_index key p m)

  index_of-lt :
      (key : Bytes) (p : ℕ) (m : List (Bytes × Unit {0})) → index_of key m ≡ some p → p < length m
  index_of-lt key p [] e = cc
  index_of-lt key zero ((j, w) ∷ m) e = omega arith
  index_of-lt key (suc p) ((j, w) ∷ m) e = ground (arith, index_of-lt key p m)

  -- An entry that is moved stands at its new position.
  index_of-move_entry :
      (key : Bytes) (p to : ℕ) (m : List (Bytes × Unit {0}))
      → Distinct m
      → index_of key m ≡ some p
      → to ≤ p
      → index_of key (move_entry p to m) ≡ some to
  index_of-move_entry key p to m d e l =
      let at = get_elem_of_index key p m e in
      rw (at, move_entry)
        (index_of-splice to key tt (delete_at p m)
          (omega (arith, length-delete_at p (key, tt) m at, index_of-lt key p m e))
          (get-delete_at p key tt m d at))

  abbrev lowered : ℕ → ℕ
  lowered jump = if ltb 1 jump then jump - 1 else jump

  promote_lem :
      (s : AdaptiveClimbState Map) (key : Bytes) (p : ℕ)
      → IsClamped s
      → index_of key (entries s.queue) ≡ some p
      → IsClamped (promote im s p)
        × (index_of key (entries (promote im s p).queue) ≡ some (p - lowered s.jump))
  unfolding promote
  promote_lem s key zero c e = (
    record { at_least = ground (arith, c.at_least); at_most = ground (arith, c.at_most) },
    e ∙ ground arith,
  )
  promote_lem s key (suc p) c e =
      let m = entries s.queue in
      let to = suc p - lowered s.jump in
      let moved = im.entries-move_index s.queue (suc p) to in
      let lower : ltb to (suc p) ≡ true = ground (arith, c.at_least) in
      let positive : ltb 0 (suc p) ≡ true = ground arith in
      rw (positive, lower)
        (
          record {
            at_least = ground (arith, c.at_least);
            at_most = rw (moved, length-move_entry (suc p) to m) (ground (arith, c.at_most));
          },
          rw moved (index_of-move_entry key (suc p) to m (im.distinct s.queue) e (omega arith)),
        )

  observe_access-promote :
      (s : AdaptiveClimbState Map) (key : Bytes) (p : ℕ)
      → index_of key (entries s.queue) ≡ some p
      → observe_access im s key ≡ promote im s p
  unfolding observe_access
  observe_access-promote s key p e = ground (arith, im.get_index_of-entries s.queue key)

  -- A hit lowers the distance by one, to no less than one, and moves the key up by the new distance,
  -- to no further than the head; the distance stays in its range.
  pub observe_access_lem :
      (s : AdaptiveClimbState Map) (key : Bytes) (p : ℕ)
      → IsClamped s
      → index_of key (entries s.queue) ≡ some p
      → IsClamped (observe_access im s key)
        × ((observe_access im s key).jump ≡ max 1 (s.jump - 1))
        × (index_of key (entries (observe_access im s key).queue)
            ≡ some (p - (observe_access im s key).jump))
  unfolding promote
  observe_access_lem s key p c e =
      let here : observe_access im s key ≡ promote im s p = observe_access-promote s key p e in
      let r = promote_lem s key p c e in rw here (r.0, ground (arith, c.at_least), r.1)
