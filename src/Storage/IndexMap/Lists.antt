-- ===== src/Storage/IndexMap/Lists.antt =====
-- An instance of the interface: a list of entries with the proof that its keys are distinct.
use ferrum_kv.Prelude.{
  ℕ, zero, suc, ◌≡◌, refl, false, none, some, List, [], ◌∷◌, arith, Bytes, length, get_elem?,
  Option-cases, inl, inr, bytes_eq_iff, bytes_eq,
}
use ferrum_kv.Storage.Assoc.{get, insert, remove, index_of, set_value, set_index, Distinct}
use ferrum_kv.Storage.Assoc.Laws.{insert-Distinct, remove-Distinct}
use ferrum_kv.Storage.IndexMap.{IndexMap, splice, delete_at, move_entry}

module _ {V : Type 0} where
  get-set_value-none :
      (k j : Bytes) (v : V) (m : List (Bytes × V)) → get j m ≡ none → get j (set_value k v m) ≡ none
  get-set_value-none k j v [] h = refl
  get-set_value-none k j v ((i, w) ∷ m) h = ground (arith, get-set_value-none k j v m)

  pub set_value-Distinct :
      (k : Bytes) (v : V) (m : List (Bytes × V)) → Distinct m → Distinct (set_value k v m)
  set_value-Distinct k v [] h = tt
  set_value-Distinct k v ((i, w) ∷ m) h =
      ground (arith, get-set_value-none k i v m, set_value-Distinct k v m h.1)

  get-set_index-none :
      (i : ℕ) (j : Bytes) (v : V) (m : List (Bytes × V))
      → get j m ≡ none
      → get j (set_index i v m) ≡ none
  get-set_index-none i j v [] h = refl
  get-set_index-none zero j v ((k, w) ∷ m) h = ground arith
  get-set_index-none (suc i) j v ((k, w) ∷ m) h = ground (arith, get-set_index-none i j v m)

  pub set_index-Distinct :
      (i : ℕ) (v : V) (m : List (Bytes × V)) → Distinct m → Distinct (set_index i v m)
  set_index-Distinct i v [] h = tt
  set_index-Distinct zero v ((k, w) ∷ m) h = h
  set_index-Distinct (suc i) v ((k, w) ∷ m) h =
      (get-set_index-none i k v m h.0, set_index-Distinct i v m h.1)

  pub get-delete_at-none :
      (i : ℕ) (j : Bytes) (m : List (Bytes × V)) → get j m ≡ none → get j (delete_at i m) ≡ none
  get-delete_at-none i j [] h = refl
  get-delete_at-none zero j ((k, w) ∷ m) h = ground arith
  get-delete_at-none (suc i) j ((k, w) ∷ m) h = ground (arith, get-delete_at-none i j m)

  pub delete_at-Distinct : (i : ℕ) (m : List (Bytes × V)) → Distinct m → Distinct (delete_at i m)
  delete_at-Distinct i [] h = tt
  delete_at-Distinct zero ((k, w) ∷ m) h = h.1
  delete_at-Distinct (suc i) ((k, w) ∷ m) h =
      (get-delete_at-none i k m h.0, delete_at-Distinct i m h.1)

  -- The key that stood at the deleted position is gone.
  pub get-delete_at :
      (i : ℕ) (k : Bytes) (v : V) (m : List (Bytes × V))
      → Distinct m
      → get_elem? m i ≡ some (k, v)
      → get k (delete_at i m) ≡ none
  get-delete_at i k v [] h e = refl
  get-delete_at zero k v ((j, w) ∷ m) h e = ground arith
  get-delete_at (suc i) k v ((j, w) ∷ m) h e =
      ground (arith, get-delete_at i k v m h.1 e, bytes_eq_iff j k, get_elem i k v m e)
    where
      get_elem :
          (i : ℕ) (k : Bytes) (v : V) (m : List (Bytes × V))
          → get_elem? m i ≡ some (k, v)
          → get k m ≡ none
          → ⊥
      get_elem i k v [] e h = cc
      get_elem zero k v ((j, w) ∷ m) e h = ground (arith, bytes_eq_iff j k)
      get_elem (suc i) k v ((j, w) ∷ m) e h = ground (arith, get_elem i k v m e)

  get-splice-none :
      (i : ℕ) (k j : Bytes) (v : V) (m : List (Bytes × V))
      → bytes_eq k j ≡ false
      → get j m ≡ none
      → get j (splice i (k, v) m) ≡ none
  get-splice-none zero k j v m n h = ground arith
  get-splice-none (suc i) k j v [] n h = ground arith
  get-splice-none (suc i) k j v ((l, w) ∷ m) n h = ground (arith, get-splice-none i k j v m n)

  pub splice-Distinct :
      (i : ℕ) (k : Bytes) (v : V) (m : List (Bytes × V))
      → Distinct m
      → get k m ≡ none
      → Distinct (splice i (k, v) m)
  splice-Distinct zero k v m h n = (n, h)
  splice-Distinct (suc i) k v [] h n = (refl, tt)
  splice-Distinct (suc i) k v ((j, w) ∷ m) h n = ground (
    arith,
    bytes_eq_iff j k,
    bytes_eq_iff k j,
    get-splice-none i k j v m,
    splice-Distinct i k v m h.1,
  )

  pub move_entry-Distinct :
      (from to : ℕ) (m : List (Bytes × V)) → Distinct m → Distinct (move_entry from to m)
  move_entry-Distinct from to m h = elim (Option-cases (get_elem? m from)) [
    | inl e ↦ rw (e, Distinct) h
    | inr ((k, v), e) ↦
        rw (e, Distinct)
          (splice-Distinct to k v (delete_at from m) (delete_at-Distinct from m h)
            (get-delete_at from k v m h e))
  ]

  -- `insert_before` of a key that is there, which the program never asks for, changes nothing here.
  abbrev pub insert_absent : ℕ → Bytes → V → List (Bytes × V) → List (Bytes × V)
  insert_absent i k v m = elim (get k m) [ none ↦ splice i (k, v) m | some _ ↦ m ]

  pub insert_absent-Distinct :
      (i : ℕ) (k : Bytes) (v : V) (m : List (Bytes × V))
      → Distinct m
      → Distinct (insert_absent i k v m)
  insert_absent-Distinct i k v m h = elim (Option-cases (get k m)) [
    | inl e ↦ rw (e, Distinct) (splice-Distinct i k v m h e)
    | inr (w, e) ↦ rw (e, Distinct) h
  ]

abbrev pub list_map : (V : Type 0) → IndexMap V
list_map V = record {
  Map = (m : List (Bytes × V)) × Distinct m;
  entries = λ m. m.0;
  distinct = λ m. m.1;
  new = ([], tt);
  entries-new = refl;
  len = λ m. length m.0;
  len-entries = λ m. refl;
  get_index = λ m i. get_elem? m.0 i;
  get_index-entries = λ m i. refl;
  get_index_of = λ m k. index_of k m.0;
  get_index_of-entries = λ m k. refl;
  put = λ m k v. (insert k v m.0, insert-Distinct k v m.0 m.1);
  entries-put = λ m k v. refl;
  assign = λ m k v. (set_value k v m.0, set_value-Distinct k v m.0 m.1);
  entries-assign = λ m k v. refl;
  assign_index = λ m i v. (set_index i v m.0, set_index-Distinct i v m.0 m.1);
  entries-assign_index = λ m i v. refl;
  shift_remove = λ m k. (remove k m.0, remove-Distinct k m.0 m.1);
  entries-shift_remove = λ m k. refl;
  shift_remove_index = λ m i. (delete_at i m.0, delete_at-Distinct i m.0 m.1);
  entries-shift_remove_index = λ m i. refl;
  insert_before = λ m i k v. (insert_absent i k v m.0, insert_absent-Distinct i k v m.0 m.1);
  entries-insert_before = λ m i k v h. rw (h, insert_absent);
  move_index = λ m from to. (move_entry from to m.0, move_entry-Distinct from to m.0 m.1);
  entries-move_index = λ m from to. refl;
}
