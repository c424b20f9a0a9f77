-- ===== src/Storage/Engine/Refinement/Sweeps.antt =====
-- A sweep of expired entries changes nothing of the abstract keyspace.
use ferrum_kv.Prelude.{
  ℕ, zero, suc, ◌≡◌, refl, sym, ap, ◌∙◌, ◌==◌, none, some, List, [], ◌∷◌, arith, Bytes, length,
  take, drop, All, All-append, All-map, bytes_eq_iff, Bool-cases, inl, inr,
}
use ferrum_kv.Storage.Assoc.{get, remove, Distinct}
use ferrum_kv.Storage.Assoc.Laws.{remove-Distinct}
use ferrum_kv.Storage.Entry.{ValueEntry, Clock, is_expired}
use ferrum_kv.Storage.Keyspace.{Keyspace}
use ferrum_kv.Storage.Engine.{Host, KvEngine}
use ferrum_kv.Storage.Engine.Track.{track_remove, append}
use ferrum_kv.Storage.Engine.Sweep.{
  expired_among, rotated, sweep_start, expire_key, expire_keys, advance_cursor, sweep_expired,
}
use ferrum_kv.Storage.Engine.Refinement.{view, view-remove}
use ferrum_kv.Storage.Engine.Refinement.Deadlines.{nothing}

-- The pairs of a list that a keyspace has.
abbrev Stored : Keyspace → Keyspace → Type 0
Stored m entries = All (λ p. get p.0 m ≡ some p.1) entries

Stored-cons :
    (k : Bytes) (v : ValueEntry) (m entries : Keyspace)
    → get k m ≡ none
    → Stored m entries
    → Stored ((k, v) ∷ m) entries
Stored-cons k v m entries a h =
    All-map (λ p. get p.0 m ≡ some p.1) (λ p. get p.0 ((k, v) ∷ m) ≡ some p.1)
      (λ p q. ground (arith, q, a, bytes_eq_iff k p.0)) entries h

Stored-self : (m : Keyspace) → Distinct m → Stored m m
Stored-self [] d = tt
Stored-self ((k, v) ∷ m) d =
    (ground (arith, bytes_eq_iff k k), Stored-cons k v m m d.0 (Stored-self m d.1))

All-take {ℓ} : {A : Type ℓ} (P : A → Type 0) (n : ℕ) (xs : List A) → All P xs → All P (take n xs)
All-take P zero xs h = tt
All-take P (suc n) [] h = tt
All-take P (suc n) (x ∷ xs) h = (h.0, All-take P n xs h.1)

All-drop {ℓ} : {A : Type ℓ} (P : A → Type 0) (n : ℕ) (xs : List A) → All P xs → All P (drop n xs)
All-drop P zero xs h = h
All-drop P (suc n) [] h = tt
All-drop P (suc n) (x ∷ xs) h = All-drop P n xs h.1

rotated-Stored : (m : Keyspace) (start : ℕ) → Distinct m → Stored m (rotated start m)
rotated-Stored m start d =
    let P = λ (p : Bytes × ValueEntry). get p.0 m ≡ some p.1 in
    All-append P (drop start m) (take start m) (All-drop P start m (Stored-self m d))
      (All-take P start m (Stored-self m d))

expired_among-unseen :
    (m entries : Keyspace) (n now : ℕ)
    → Stored m entries
    → All (λ k. view m now k ≡ none) (expired_among entries n now)
unfolding expired_among
expired_among-unseen m entries zero now h = tt
expired_among-unseen m [] (suc n) now h = tt
expired_among-unseen m ((k, v) ∷ entries) (suc n) now h =
    let rest = expired_among-unseen m entries n now h.1 in
    elim (Bool-cases (is_expired v now)) [
      | inl x ↦ rw (expired_among, x) (rw (h.0, x) refl, rest)
      | inr x ↦ rw (expired_among, x) rest
    ]

remove_unseen :
    (m : Keyspace) (now : ℕ) (k j : Bytes)
    → Distinct m
    → view m now k ≡ none
    → view (remove k m) now j ≡ view m now j
remove_unseen m now k j d gone = view-remove m now k j d ∙ sym (nothing m now k j gone)

module _ {h : Host} where
  expire_key_store : (e : KvEngine h) (k : Bytes) → (expire_key e k).store ≡ remove k e.store
  unfolding expire_key append track_remove
  expire_key_store e k = ground arith

  expire_keys-view :
      (e : KvEngine h) (keys : List Bytes) (now : ℕ) (j : Bytes)
      → Distinct e.store
      → All (λ k. view e.store now k ≡ none) keys
      → view (expire_keys e keys).store now j ≡ view e.store now j
  unfolding expire_keys
  expire_keys-view e [] now j d a = refl
  expire_keys-view e (k ∷ keys) now j d a =
      let s = expire_key_store e k in
      let still =
        All-map (λ i. view e.store now i ≡ none) (λ i. view (expire_key e k).store now i ≡ none)
          (λ i q. ap (λ m. view m now i) s ∙ remove_unseen e.store now k i d a.0 ∙ q) keys a.1 in
      expire_keys-view (expire_key e k) keys now j (rw s (remove-Distinct k e.store d)) still
      ∙ ap (λ m. view m now j) s
      ∙ remove_unseen e.store now k j d a.0

  -- A sweep removes no key that a client sees, and changes no value or deadline, at whatever cursor and
  -- sample size. No key stands twice.
  pub sweep_expired-view :
      (c : Clock) (e : KvEngine h) (sample : ℕ) (j : Bytes)
      → Distinct e.store
      → view (sweep_expired c e sample).0.store c.now j ≡ view e.store c.now j
  unfolding sweep_expired advance_cursor
  sweep_expired-view c e sample j d =
      let order = rotated (sweep_start e.sweep_cursor (length e.store)) e.store in
      let victims = expired_among order sample c.now in
      elim (Bool-cases (sample == 0)) [
        | inl y ↦ rw (sweep_expired, y) refl
        | inr n ↦
            rw (sweep_expired, n)
              (expire_keys-view (advance_cursor e (length (take sample order))) victims c.now j d
                (expired_among-unseen e.store order sample c.now (rotated-Stored e.store _ d)))
      ]
