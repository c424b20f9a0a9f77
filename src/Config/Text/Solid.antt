-- ===== src/Config/Text/Solid.antt =====
-- Texts of printed ASCII, which `trim` leaves as they are.
use ferrum_kv.Prelude.{
  ℕ, zero, suc, ◌≡◌, refl, Bool, true, ◌&&◌, ltb, [], ◌∷◌, ◌++◌, arith, Bytes, length, All,
}
use ferrum_kv.Prelude.Decimal.{is_digit}
use ferrum_kv.Config.Text.{
  reverse, reverse_onto, space_len, space_len_back, drop_spaces, trim, lower, ascii_lowercase,
}

abbrev pub is_solid : ℕ → Bool
is_solid b = ltb 32 b && ltb b 128

abbrev pub IsSolid : Bytes → Type 0
IsSolid bs = All (λ b. is_solid b ≡ true) bs

pub digits-IsSolid : (bs : Bytes) → All (λ b. is_digit b ≡ true) bs → IsSolid bs
digits-IsSolid [] h = tt
digits-IsSolid (b ∷ bs) h = (ground (arith, h.0), digits-IsSolid bs h.1)

reverse_onto-append : (xs ys zs : Bytes) → reverse_onto xs (ys ++ zs) ≡ reverse_onto xs ys ++ zs
reverse_onto-append [] ys zs = refl
reverse_onto-append (x ∷ xs) ys zs = reverse_onto-append xs (x ∷ ys) zs

pub reverse-append : (xs ys : Bytes) → reverse (xs ++ ys) ≡ reverse ys ++ reverse xs
reverse-append xs ys = go xs []
  where
    go : (xs zs : Bytes) → reverse_onto (xs ++ ys) zs ≡ reverse ys ++ reverse_onto xs zs
    go [] zs = reverse_onto-append ys [] zs
    go (x ∷ xs) zs = go xs (x ∷ zs)

pub reverse-reverse : (xs : Bytes) → reverse (reverse xs) ≡ xs
reverse-reverse xs = go xs []
  where
    go : (xs zs : Bytes) → reverse (reverse_onto xs zs) ≡ reverse_onto zs xs
    go [] zs = refl
    go (x ∷ xs) zs = go xs (x ∷ zs)

reverse_onto-All :
    (P : ℕ → Type 0) (xs ys : Bytes) → All P xs → All P ys → All P (reverse_onto xs ys)
reverse_onto-All P [] ys h k = k
reverse_onto-All P (x ∷ xs) ys h k = reverse_onto-All P xs (x ∷ ys) h.1 (h.0, k)

pub reverse-All : (P : ℕ → Type 0) (xs : Bytes) → All P xs → All P (reverse xs)
reverse-All P xs h = reverse_onto-All P xs [] h tt

space_len_none : (bs : Bytes) → IsSolid bs → space_len bs ≡ 0
unfolding space_len
space_len_none [] h = refl
space_len_none (a ∷ []) h = ground (arith, h.0)
space_len_none (a ∷ b ∷ []) h = ground (arith, h.0)
space_len_none (a ∷ b ∷ c ∷ bs) h = ground (arith, h.0)

space_len_back_none : (bs : Bytes) → IsSolid bs → space_len_back bs ≡ 0
unfolding space_len_back
space_len_back_none [] h = refl
space_len_back_none (a ∷ []) h = ground (arith, h.0)
space_len_back_none (b ∷ a ∷ []) h = ground (arith, h.0)
space_len_back_none (c ∷ b ∷ a ∷ bs) h = ground (arith, h.0)

drop_spaces_none : (f : Bytes → ℕ) (n : ℕ) (bs : Bytes) → f bs ≡ 0 → drop_spaces f n bs ≡ bs
unfolding drop_spaces
drop_spaces_none f zero bs h = refl
drop_spaces_none f (suc n) bs h = rw h refl

pub trim_solid : (bs : Bytes) → IsSolid bs → trim bs ≡ bs
unfolding trim
trim_solid bs h =
    let front = drop_spaces_none space_len (length bs) bs (space_len_none bs h) in
    let back =
      drop_spaces_none space_len_back (length bs) (reverse bs)
        (space_len_back_none (reverse bs) (reverse-All (λ b. is_solid b ≡ true) bs h)) in
    rw (trim, front, back) (reverse-reverse bs)

-- Digits have no case.
pub lower_digits :
    (bs cs : Bytes)
    → All (λ b. is_digit b ≡ true) bs
    → ascii_lowercase (bs ++ cs) ≡ bs ++ ascii_lowercase cs
unfolding ascii_lowercase lower
lower_digits [] cs h = refl
lower_digits (b ∷ bs) cs h = ground (arith, h.0, lower_digits bs cs h.1)
