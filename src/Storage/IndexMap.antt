-- ===== src/Storage/IndexMap.antt =====
-- `indexmap::IndexMap<Vec<u8>, V>`, a third-party crate: an interface of the operations that the
-- eviction structures call, with what the crate documents of each, said over the list of entries in
-- their order. `list_map` shows that the laws can be met.
pub mod Lists
use ferrum_kv.Prelude.{
  ℕ, zero, suc, ◌≡◌, refl, Bool, Option, none, some, List, [], ◌∷◌, ◌++◌, arith, Bytes, length,
  get_elem?, take, drop,
}
use ferrum_kv.Storage.Assoc.{get, insert, remove, index_of, set_value, set_index, Distinct}
use ferrum_kv.Storage.Assoc.Laws.{insert-Distinct, remove-Distinct}

-- `insert_before(i, k, v)` of an absent key: the entry is spliced in at position `i`.
abbrev pub splice {ℓ} : {A : Type ℓ} → ℕ → A → List A → List A
splice i x m = take i m ++ x ∷ drop i m

-- The list without position `i`.
abbrev pub delete_at {ℓ} : {A : Type ℓ} → ℕ → List A → List A
delete_at i [] = []
delete_at zero (x ∷ m) = m
delete_at (suc i) (x ∷ m) = x ∷ delete_at i m

-- `move_index(from, to)`: the entry at `from` is moved to position `to`, the others close up.
abbrev pub move_entry {ℓ} : {A : Type ℓ} → ℕ → ℕ → List A → List A
move_entry from to m = elim (get_elem? m from) [
  | none ↦ m
  | some x ↦ splice to x (delete_at from m)
]

pub record IndexMap (V : Type 0) : Type 1 where
  pub Map : Type 0
  pub entries : Map → List (Bytes × V)
  pub distinct : (m : Map) → Distinct (entries m)
  pub new : Map
  pub entries-new : entries new ≡ []
  pub len : Map → ℕ
  pub len-entries : (m : Map) → len m ≡ length (entries m)
  pub get_index : Map → ℕ → Option (Bytes × V)
  pub get_index-entries : (m : Map) (i : ℕ) → get_index m i ≡ get_elem? (entries m) i
  pub get_index_of : Map → Bytes → Option ℕ
  pub get_index_of-entries : (m : Map) (k : Bytes) → get_index_of m k ≡ index_of k (entries m)
  pub put : Map → Bytes → V → Map
  pub entries-put : (m : Map) (k : Bytes) (v : V) → entries (put m k v) ≡ insert k v (entries m)
  pub assign : Map → Bytes → V → Map
  pub entries-assign :
      (m : Map) (k : Bytes) (v : V) → entries (assign m k v) ≡ set_value k v (entries m)
  pub assign_index : Map → ℕ → V → Map
  pub entries-assign_index :
      (m : Map) (i : ℕ) (v : V) → entries (assign_index m i v) ≡ set_index i v (entries m)
  pub shift_remove : Map → Bytes → Map
  pub entries-shift_remove :
      (m : Map) (k : Bytes) → entries (shift_remove m k) ≡ remove k (entries m)
  pub shift_remove_index : Map → ℕ → Map
  pub entries-shift_remove_index :
      (m : Map) (i : ℕ) → entries (shift_remove_index m i) ≡ delete_at i (entries m)
  pub insert_before : Map → ℕ → Bytes → V → Map
  pub entries-insert_before :
      (m : Map) (i : ℕ) (k : Bytes) (v : V)
      → get k (entries m) ≡ none
      → entries (insert_before m i k v) ≡ splice i (k, v) (entries m)
  pub move_index : Map → ℕ → ℕ → Map
  pub entries-move_index :
      (m : Map) (from to : ℕ) → entries (move_index m from to) ≡ move_entry from to (entries m)
