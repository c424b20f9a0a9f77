-- ===== src/Storage/Assoc.antt =====
-- Association lists with byte-string keys: the model of std's `HashMap<Vec<u8>, _>`, whose iteration
-- order is the order of the list, and the documented meaning of the operations of `indexmap`.
pub mod Laws
use ferrum_kv.Prelude.{
  ℕ, zero, suc, ◌+◌, ◌≡◌, refl, ap, ◌≢◌, Bool, true, false, Option, none, some, List, [], ◌∷◌, ◌++◌,
  arith, Bytes, bytes_eq, bytes_eq_iff, bytes_eq_refl, length, get_elem?, if◌then◌else◌,
}

module _ {ℓ} {V : Type ℓ} where
  -- `HashMap::get`
  abbrev pub get : Bytes → List (Bytes × V) → Option V
  get k [] = none
  get k ((j, v) ∷ m) = if bytes_eq j k then some v else get k m

  -- `insert`: an existing key keeps its place and takes the new value; a new key goes last.
  abbrev pub insert : Bytes → V → List (Bytes × V) → List (Bytes × V)
  insert k v [] = (k, v) ∷ []
  insert k v ((j, w) ∷ m) = if bytes_eq j k then (j, v) ∷ m else (j, w) ∷ insert k v m

  -- `remove`, and `shift_remove` of `indexmap`: the entries behind the key move up by one.
  abbrev pub remove : Bytes → List (Bytes × V) → List (Bytes × V)
  remove k [] = []
  remove k ((j, v) ∷ m) = if bytes_eq j k then m else (j, v) ∷ remove k m

  -- `get_index_of`
  abbrev pub index_of : Bytes → List (Bytes × V) → Option ℕ
  index_of k [] = none
  index_of k ((j, v) ∷ m) =
      if bytes_eq j k then some 0 else elim (index_of k m) [ none ↦ none | some i ↦ some (suc i) ]

  -- `*get_mut(k).unwrap() = v`: nothing happens if the key is absent.
  abbrev pub set_value : Bytes → V → List (Bytes × V) → List (Bytes × V)
  set_value k v [] = []
  set_value k v ((j, w) ∷ m) = if bytes_eq j k then (j, v) ∷ m else (j, w) ∷ set_value k v m

  -- `*get_index_mut(i).unwrap().1 = v`
  abbrev pub set_index : ℕ → V → List (Bytes × V) → List (Bytes × V)
  set_index i v [] = []
  set_index zero v ((j, w) ∷ m) = (j, v) ∷ m
  set_index (suc i) v ((j, w) ∷ m) = (j, w) ∷ set_index i v m

  -- No key stands twice: what a map guarantees of its entries.
  abbrev pub Distinct : List (Bytes × V) → Type ℓ
  Distinct [] = Unit
  Distinct ((k, v) ∷ m) = (get k m ≡ none) × Distinct m
