-- ===== src/Storage/Engine/Glob/Reading.antt =====
-- `glob_match` is a test of the tokens of the pattern.
use ferrum_kv.Prelude.{
  ℕ, zero, suc, ◌<◌, ◌≤◌, ◌≡◌, refl, ap, sym, ◌∙◌, Bool, true, false, ◌&&◌, ◌==◌, Option, none,
  some, List, [], ◌∷◌, Bytes, length, arith, Bool-cases, inl, inr,
}
use ferrum_kv.Storage.Engine.Glob.{
  skip_stars, some_suffix, one_byte, negation, differ, class_byte, matches,
}
use ferrum_kv.Storage.Engine.Glob.Language.{
  Item, Token, run, any, literal, class, holds, accepts, behind_stars, exclaimed, class_items,
  class_tokens, tokens_from,
}
use ferrum_kv.Storage.Engine.Glob.Class.{
  found, scan_class-found, Shorter, Shorter-more, class_items-Shorter,
}

-- The tokens as a test.
unfoldable pub fits_tokens : List Token → Bytes → Bool
unfolding some_suffix
fits_tokens [] txt = length txt == 0
fits_tokens (run ∷ ts) txt = some_suffix (fits_tokens ts) txt
fits_tokens (any ∷ ts) txt = one_byte (accepts any) (fits_tokens ts) txt
fits_tokens (literal b ∷ ts) txt = one_byte (accepts (literal b)) (fits_tokens ts) txt
fits_tokens (class negate items ∷ ts) txt =
    one_byte (accepts (class negate items)) (fits_tokens ts) txt

some_suffix_empty : (txt : Bytes) → some_suffix (λ t. length t == 0) txt ≡ true
unfolding some_suffix
some_suffix_empty [] = refl
some_suffix_empty (c ∷ txt) = ground (arith, some_suffix_empty txt)

some_suffix_same :
    (f g : Bytes → Bool) (txt : Bytes)
    → ((t : Bytes) → f t ≡ g t)
    → some_suffix f txt ≡ some_suffix g txt
unfolding some_suffix
some_suffix_same f g [] h = h []
some_suffix_same f g (c ∷ txt) h = rw (some_suffix, h (c ∷ txt), some_suffix_same f g txt h) refl

one_byte_same :
    (test : ℕ → Bool) (f g : Bytes → Bool) (txt : Bytes)
    → ((t : Bytes) → f t ≡ g t)
    → one_byte test f txt ≡ one_byte test g txt
one_byte_same test f g [] h = refl
one_byte_same test f g (c ∷ txt) h = ap (λ b. test c && b) (h txt)

length-skip_stars : (pat : Bytes) → length (skip_stars pat) ≤ length pat
unfolding skip_stars
length-skip_stars [] = omega arith
length-skip_stars (b ∷ pat) = ground (arith, length-skip_stars pat)

skip_stars-behind_stars : (pat : Bytes) → skip_stars pat ≡ behind_stars pat
unfolding skip_stars behind_stars
skip_stars-behind_stars [] = refl
skip_stars-behind_stars (b ∷ pat) = ground (arith, skip_stars-behind_stars pat)

negation-exclaimed : (pat : Bytes) → negation pat ≡ exclaimed pat
unfolding negation exclaimed
negation-exclaimed [] = refl
negation-exclaimed (b ∷ pat) = ground arith

differ-accepts :
    (negate : Bool) (items : List Item) (c : ℕ)
    → differ (holds items c) negate ≡ accepts (class negate items) c
differ-accepts true items c = elim (Bool-cases (holds items c)) [
  | inl y ↦ rw y refl
  | inr n ↦ rw n refl
]
differ-accepts false items c = elim (Bool-cases (holds items c)) [
  | inl y ↦ rw y refl
  | inr n ↦ rw n refl
]

length-negation : (pat : Bytes) → length (negation pat).1 ≤ length pat
unfolding negation
length-negation [] = omega arith
length-negation (b ∷ pat) = ground arith

-- The match on a scanned class.
abbrev after_class :
    (Bytes → Bytes → Bool) → Bool → Bytes → ℕ → Bytes → Option (Bool × Bytes) → Bool
after_class next negate pat c txt x = elim x [
  | none ↦ c == 91 && next pat txt
  | some (matched, rest) ↦ differ matched negate && next rest txt
]

module _ (next : Bytes → Bytes → Bool) (rest_tokens : Bytes → List Token) (pat : Bytes)
    (h : (q txt : Bytes)
      → length q ≤ length pat
      → next q txt ≡ fits_tokens (rest_tokens q) txt) where
  class_found :
      (negate : Bool) (x : Option (List Item × Bytes)) (c : ℕ) (txt : Bytes)
      → Shorter (suc (length pat)) x
      → after_class next negate pat c txt (found x c false)
        ≡ fits_tokens (class_tokens rest_tokens negate pat x) (c ∷ txt)
  unfolding fits_tokens
  class_found negate none c txt s = ap (λ b. c == 91 && b) (h pat txt (omega arith))
  class_found negate (some (items, rest)) c txt s =
      ap (λ b. differ (holds items c) negate && b) (h rest txt (omega (arith, s)))
      ∙ ap (λ b. b && fits_tokens (rest_tokens rest) txt) (differ-accepts negate items c)

  class_nothing :
      (negate : Bool) (x : Option (List Item × Bytes))
      → false ≡ fits_tokens (class_tokens rest_tokens negate pat x) []
  unfolding fits_tokens
  class_nothing negate none = refl
  class_nothing negate (some (items, rest)) = refl

  class_same :
      (txt : Bytes)
      → class_byte next pat txt
        ≡ fits_tokens
            (class_tokens rest_tokens (negation pat).0 pat (class_items (negation pat).1))
            txt
  unfolding class_byte
  class_same [] = class_nothing (negation pat).0 (class_items (negation pat).1)
  class_same (c ∷ txt) =
      let body = (negation pat).1 in
      ap (after_class next (negation pat).0 pat c txt) (scan_class-found body c false)
      ∙ class_found (negation pat).0 (class_items body) c txt (
          Shorter-more (length body) (suc (length pat)) (class_items body)
            (omega (arith, length-negation pat)) (class_items-Shorter body))

matches_empty : (fuel : ℕ) (txt : Bytes) → 0 < fuel → matches fuel [] txt ≡ (length txt == 0)
unfolding matches
matches_empty zero txt l = ground (arith, l)
matches_empty (suc fuel) txt l = refl

tokens_empty : (fuel : ℕ) → tokens_from fuel [] ≡ []
unfolding tokens_from
tokens_empty zero = refl
tokens_empty (suc fuel) = refl

star_same :
    (fuel : ℕ) (rest txt : Bytes)
    → ((t : Bytes) → matches fuel rest t ≡ fits_tokens (tokens_from fuel rest) t)
    → (elim rest as (λ r. Bool) [ [] ↦ true | x ∷ q ↦ some_suffix (matches fuel (x ∷ q)) txt ])
      ≡ some_suffix (fits_tokens (tokens_from fuel rest)) txt
unfolding fits_tokens
star_same fuel [] txt h = rw (tokens_empty fuel) (sym (some_suffix_empty txt))
star_same fuel (x ∷ q) txt h =
    some_suffix_same (matches fuel (x ∷ q)) (fits_tokens (tokens_from fuel (x ∷ q))) txt h

escape_same :
    (fuel b : ℕ) (pat txt : Bytes)
    → 0 < fuel
    → (b == 92) ≡ true
    → ((q t : Bytes)
        → length q < length pat
        → matches fuel q t ≡ fits_tokens (tokens_from fuel q) t)
    → (elim pat as (λ r. Bool) [
      | [] ↦ one_byte (λ c. c == b) (matches fuel []) txt
      | e ∷ rest ↦ one_byte (λ c. c == e) (matches fuel rest) txt
    ])
      ≡ fits_tokens
          (elim pat as (λ r. List Token) [
            | [] ↦ literal 92 ∷ []
            | e ∷ rest ↦ literal e ∷ tokens_from fuel rest
          ])
          txt
unfolding fits_tokens
escape_same fuel b [] txt p y h =
    let e : b ≡ 92 = ground (arith, y) in
    rw e (
      one_byte_same (λ c. c == 92) (matches fuel []) (fits_tokens []) txt
        (λ t. matches_empty fuel t p))
escape_same fuel b (e ∷ rest) txt p y h =
    one_byte_same (λ c. c == e) (matches fuel rest) (fits_tokens (tokens_from fuel rest)) txt
      (λ t. h rest t (omega arith))

pub matches-fits :
    (fuel : ℕ) (pat txt : Bytes)
    → length pat < fuel
    → matches fuel pat txt ≡ fits_tokens (tokens_from fuel pat) txt
unfolding matches tokens_from fits_tokens
matches-fits zero pat txt l = ground (arith, l)
matches-fits (suc fuel) [] txt l = refl
matches-fits (suc fuel) (b ∷ pat) txt l = elim (Bool-cases (b == 42)) [
  | inl y ↦
      rw (matches, tokens_from, y)
        (star_same fuel (skip_stars pat) txt
            (λ t. matches-fits fuel (skip_stars pat) t (omega (arith, l, length-skip_stars pat)))
          ∙ ap (λ p. fits_tokens (run ∷ tokens_from fuel p) txt) (skip_stars-behind_stars pat))
  | inr n ↦ elim (Bool-cases (b == 63)) [
    | inl y ↦
        rw (matches, tokens_from, n, y)
          (one_byte_same (λ c. true) (matches fuel pat) (fits_tokens (tokens_from fuel pat)) txt
            (λ t. matches-fits fuel pat t (omega (arith, l))))
    | inr o ↦ elim (Bool-cases (b == 92)) [
      | inl y ↦
          rw (matches, tokens_from, n, o, y)
            (escape_same fuel b pat txt (omega (arith, l)) y
              (λ q t k. matches-fits fuel q t (omega (arith, l, k))))
      | inr p ↦ elim (Bool-cases (b == 91)) [
        | inl y ↦
            rw (matches, tokens_from, n, o, p, y)
              (class_same (matches fuel) (tokens_from fuel) pat
                  (λ q t k. matches-fits fuel q t (omega (arith, l, k))) txt
                ∙ ap
                    (λ x.
                      fits_tokens (class_tokens (tokens_from fuel) x.0 pat (class_items x.1)) txt)
                    (negation-exclaimed pat))
        | inr q ↦
            rw (matches, tokens_from, n, o, p, q)
              (one_byte_same (λ c. c == b) (matches fuel pat) (fits_tokens (tokens_from fuel pat))
                txt (λ t. matches-fits fuel pat t (omega (arith, l))))
      ]
    ]
  ]
]
