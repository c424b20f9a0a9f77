-- ===== src/Storage/Engine/Glob/Class.antt =====
-- A class of a pattern: the code's loop over it, and its items.
use ferrum_kv.Prelude.{
  ℕ, suc, ◌<◌, ◌≤◌, ◌≡◌, refl, ap, sym, ◌∙◌, Bool, not, ◌&&◌, ◌||◌, ◌==◌, Option, none, some, List,
  [], ◌∷◌, Bytes, length, arith, Bool-cases, inl, inr,
}
use ferrum_kv.Storage.Engine.Glob.{in_range, scan_class}
use ferrum_kv.Storage.Engine.Glob.Language.{Item, single, range, has, holds, cons_item, class_items}

abbrev pub found : Option (List Item × Bytes) → ℕ → Bool → Option (Bool × Bytes)
found none c matched = none
found (some (items, rest)) c matched = some (matched || holds items c, rest)

found-cons_item :
    (i : Item) (x : Option (List Item × Bytes)) (c : ℕ) (m : Bool)
    → found (cons_item i x) c m ≡ found x c (m || has i c)
found-cons_item i none c m = refl
found-cons_item i (some (items, rest)) c m = ground arith

in_range-has : (lo hi c : ℕ) → in_range lo hi c ≡ has (range lo hi) c
unfolding in_range
in_range-has lo hi c = ground arith

pub scan_class-found :
    (pat : Bytes) (c : ℕ) (m : Bool) → scan_class pat c m ≡ found (class_items pat) c m
unfolding scan_class class_items
scan_class-found [] c m = refl
scan_class-found (k ∷ []) c m = ground arith
scan_class-found (k ∷ d ∷ []) c m = elim (Bool-cases (k == 93)) [
  | inl y ↦ rw (scan_class, class_items, y) (ground arith)
  | inr n ↦ elim (Bool-cases (k == 92)) [
    | inl y ↦ rw (scan_class, class_items, n, y) refl
    | inr o ↦
        rw (scan_class, class_items, n, o)
          (scan_class-found (d ∷ []) c (m || c == k)
            ∙ sym (found-cons_item (single k) (class_items (d ∷ [])) c m))
  ]
]
scan_class-found (k ∷ d ∷ hi ∷ pat) c m = elim (Bool-cases (k == 93)) [
  | inl y ↦ rw (scan_class, class_items, y) (ground arith)
  | inr n ↦ elim (Bool-cases (k == 92)) [
    | inl y ↦
        rw (scan_class, class_items, n, y)
          (scan_class-found (hi ∷ pat) c (m || c == d)
            ∙ sym (found-cons_item (single d) (class_items (hi ∷ pat)) c m))
    | inr o ↦ elim (Bool-cases (d == 45 && not (hi == 93))) [
      | inl y ↦
          rw (scan_class, class_items, n, o, y)
            (scan_class-found pat c (m || in_range k hi c)
              ∙ ap (λ b. found (class_items pat) c (m || b)) (in_range-has k hi c)
              ∙ sym (found-cons_item (range k hi) (class_items pat) c m))
      | inr q ↦
          rw (scan_class, class_items, n, o, q)
            (scan_class-found (d ∷ hi ∷ pat) c (m || c == k)
              ∙ sym (found-cons_item (single k) (class_items (d ∷ hi ∷ pat)) c m))
    ]
  ]
]

-- What is left behind a class is shorter.
abbrev pub Shorter : ℕ → Option (List Item × Bytes) → Type 0
Shorter n none = Unit {0}
Shorter n (some (items, rest)) = length rest < n

Shorter-cons_item :
    (m n : ℕ) (i : Item) (x : Option (List Item × Bytes))
    → m ≤ n
    → Shorter m x
    → Shorter n (cons_item i x)
Shorter-cons_item m n i none l s = tt
Shorter-cons_item m n i (some (items, rest)) l s = omega (arith, l, s)

pub Shorter-more : (m n : ℕ) (x : Option (List Item × Bytes)) → m ≤ n → Shorter m x → Shorter n x
Shorter-more m n none l s = tt
Shorter-more m n (some (items, rest)) l s = omega (arith, l, s)

pub class_items-Shorter : (pat : Bytes) → Shorter (length pat) (class_items pat)
unfolding class_items
class_items-Shorter [] = tt
class_items-Shorter (k ∷ []) = ground arith
class_items-Shorter (k ∷ d ∷ []) =
    ground
      (arith, Shorter-cons_item 1 2 (single k) (class_items (d ∷ [])), class_items-Shorter (d ∷ []))
class_items-Shorter (k ∷ d ∷ hi ∷ pat) = ground (
  arith,
  Shorter-cons_item (suc (length pat)) (suc (suc (suc (length pat)))) (single d)
      (class_items (hi ∷ pat)),
  Shorter-cons_item (suc (suc (length pat))) (suc (suc (suc (length pat)))) (single k)
      (class_items (d ∷ hi ∷ pat)),
  Shorter-cons_item (length pat) (suc (suc (suc (length pat)))) (range k hi) (class_items pat),
  class_items-Shorter (hi ∷ pat),
  class_items-Shorter pat,
  class_items-Shorter (d ∷ hi ∷ pat),
)
