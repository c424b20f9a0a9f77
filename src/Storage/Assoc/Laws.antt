-- ===== src/Storage/Assoc/Laws.antt =====
-- The laws of the association lists.
use ferrum_kv.Prelude.{
  ◌≡◌, refl, ap, ◌≢◌, false, none, some, List, [], ◌∷◌, ◌++◌, arith, Bytes, bytes_eq, bytes_eq_iff,
  bytes_eq_refl, length, get_elem?, if◌then◌else◌,
}
use ferrum_kv.Storage.Assoc.{get, insert, remove, set_index, Distinct}

module _ {ℓ} {V : Type ℓ} where
  pub get-insert :
      (k j : Bytes) (v : V) (m : List (Bytes × V))
      → get j (insert k v m) ≡ (if bytes_eq k j then some v else get j m)
  get-insert k j v [] = refl
  get-insert k j v ((i, w) ∷ m) =
      ground (arith, bytes_eq_iff k j, bytes_eq_iff i k, bytes_eq_iff i j, get-insert k j v m)

  pub get-remove_ne :
      (k j : Bytes) (m : List (Bytes × V)) → bytes_eq k j ≡ false → get j (remove k m) ≡ get j m
  get-remove_ne k j [] h = refl
  get-remove_ne k j ((i, w) ∷ m) h =
      ground (arith, bytes_eq_iff k j, bytes_eq_iff i k, bytes_eq_iff i j, get-remove_ne k j m)

  pub get-remove_self : (k : Bytes) (m : List (Bytes × V)) → Distinct m → get k (remove k m) ≡ none
  get-remove_self k [] h = refl
  get-remove_self k ((i, w) ∷ m) h = ground (arith, bytes_eq_iff i k, get-remove_self k m h.1)

  pub remove_absent : (k : Bytes) (m : List (Bytes × V)) → get k m ≡ none → remove k m ≡ m
  remove_absent k [] h = refl
  remove_absent k ((i, w) ∷ m) h = ground (arith, remove_absent k m)

  get-remove-none :
      (k j : Bytes) (m : List (Bytes × V)) → get j m ≡ none → get j (remove k m) ≡ none
  get-remove-none k j [] h = refl
  get-remove-none k j ((i, w) ∷ m) h = ground (arith, get-remove-none k j m)

  pub insert-Distinct :
      (k : Bytes) (v : V) (m : List (Bytes × V)) → Distinct m → Distinct (insert k v m)
  insert-Distinct k v [] h = (refl, tt)
  insert-Distinct k v ((i, w) ∷ m) h =
      ground
        (arith, bytes_eq_iff i k, bytes_eq_iff k i, get-insert k i v m, insert-Distinct k v m h.1)

  pub remove-Distinct : (k : Bytes) (m : List (Bytes × V)) → Distinct m → Distinct (remove k m)
  remove-Distinct k [] h = tt
  remove-Distinct k ((i, w) ∷ m) h = ground (arith, get-remove-none k i m, remove-Distinct k m h.1)

  -- A key in the middle of a map is found, removed and updated there.
  pub remove_middle :
      (k : Bytes) (v : V) (a b : List (Bytes × V))
      → Distinct (a ++ (k, v) ∷ b)
      → remove k (a ++ (k, v) ∷ b) ≡ a ++ b
  remove_middle k v [] b h = ground (arith, bytes_eq_refl k)
  remove_middle k v ((i, w) ∷ a) b h =
      ground (arith, get_middle k v a b, bytes_eq_iff i k, remove_middle k v a b h.1)
    where
      get_middle : (k : Bytes) (v : V) (a b : List (Bytes × V)) → get k (a ++ (k, v) ∷ b) ≢ none
      get_middle k v [] b = ground (arith, bytes_eq_refl k)
      get_middle k v ((i, w) ∷ a) b = ground (arith, get_middle k v a b)

  pub get_elem?_middle :
      (x : Bytes × V) (a b : List (Bytes × V)) → get_elem? (a ++ x ∷ b) (length a) ≡ some x
  get_elem?_middle x [] b = refl
  get_elem?_middle x (y ∷ a) b = get_elem?_middle x a b

  pub set_index_middle :
      (k : Bytes) (v w : V) (a b : List (Bytes × V))
      → set_index (length a) w (a ++ (k, v) ∷ b) ≡ a ++ (k, w) ∷ b
  set_index_middle k v w [] b = refl
  set_index_middle k v w ((i, u) ∷ a) b = ap (◌∷◌ (i, u)) (set_index_middle k v w a b)
