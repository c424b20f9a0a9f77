-- ===== src/Config/File/Sizes.antt =====
-- The sizes that `parse_bytes` of config/file.rs is documented to read.
use ferrum_kv.Prelude.{
  ℕ, ◌*◌, ◌^◌, ◌<◌, ◌≡◌, refl, sym, ap, ◌∙◌, true, false, ltb, ◌==◌, Option, none, some, List, [],
  ◌∷◌, ◌++◌, arith, Bytes, codes, length, append_nil, All, All-append, if◌then◌else◌,
}
use ferrum_kv.Prelude.Decimal.{
  is_digit, print_nat, print_nat-digits, parse_digits, parse_digits-print_nat,
}
use ferrum_kv.Config.Text.{reverse, ascii_lowercase, parse_unsigned}
use ferrum_kv.Config.Text.Solid.{
  IsSolid, digits-IsSolid, reverse-append, reverse-reverse, reverse-All, trim_solid, lower_digits,
}
use ferrum_kv.Config.File.{
  parsed, refused, invalid, strip_prefix, strip_suffix, find_suffix, suffixes, scale, parse_bytes,
}

-- The units of the documentation, in lower case, with their bytes.
pub data Measures : Bytes → ℕ → Type 0 where
  bare : Measures [] 1
  in_b : Measures (codes "b") 1
  in_k : Measures (codes "k") 1024
  in_kb : Measures (codes "kb") 1024
  in_m : Measures (codes "m") (1024 * 1024)
  in_mb : Measures (codes "mb") (1024 * 1024)
  in_g : Measures (codes "g") (1024 * 1024 * 1024)
  in_gb : Measures (codes "gb") (1024 * 1024 * 1024)

-- Digits from the last to the first: a digit, and others.
record Ends (ds : Bytes) : Type 0 where
  final : ℕ
  others : Bytes
  shape : reverse ds ≡ final ∷ others
  digit : is_digit final ≡ true

nonempty-Ends :
    (ds back : Bytes)
    → reverse ds ≡ back
    → All (λ b. is_digit b ≡ true) back
    → 0 < length ds
    → Ends ds
nonempty-Ends ds [] e h l =
    let none_left : ds ≡ [] = sym (reverse-reverse ds) ∙ ap reverse e in
    absurd (omega (arith, ap length none_left, l))
nonempty-Ends ds (c ∷ cs) e h l = record { final = c; others = cs; shape = e; digit = h.0 }

some_digits : (bs : Bytes) (n : ℕ) → parse_digits bs ≡ some n → 0 < length bs
unfolding parse_digits
some_digits [] n h = cc
some_digits (b ∷ bs) n h = omega arith

print_nat-Ends : (n : ℕ) → Ends (print_nat n)
print_nat-Ends n =
    nonempty-Ends (print_nat n) (reverse (print_nat n)) refl
      (reverse-All (λ b. is_digit b ≡ true) (print_nat n) (print_nat-digits n))
      (some_digits (print_nat n) n (parse_digits-print_nat n))

parse_unsigned_lem :
    (bs : Bytes) (n width : ℕ)
    → All (λ b. is_digit b ≡ true) bs
    → parse_digits bs ≡ some n
    → n < 2 ^ width
    → parse_unsigned width bs ≡ some n
unfolding parse_unsigned parse_digits
parse_unsigned_lem [] n width h q l = cc
parse_unsigned_lem (b ∷ bs) n width h q l =
    let plus : (b == 43) ≡ false = ground (arith, h.0) in
    let small : ltb n (2 ^ width) ≡ true = ground (arith, l) in
    rw (parse_unsigned, plus, q, small) refl

pub parse_unsigned-print_nat :
    (n width : ℕ) → n < 2 ^ width → parse_unsigned width (print_nat n) ≡ some n
parse_unsigned-print_nat n width l =
    parse_unsigned_lem (print_nat n) n width (print_nat-digits n) (parse_digits-print_nat n) l

-- `find_suffix` on the bytes of the text from the last to the first.
abbrev strip_back : Bytes → Bytes → Option Bytes
strip_back suffix back = elim (strip_prefix (reverse suffix) back) [
  | none ↦ none
  | some rest ↦ some (reverse rest)
]

abbrev find_back : List (Bytes × ℕ) → Bytes → Bytes → Bytes × ℕ
find_back [] back bs = (bs, 1)
find_back ((suffix, factor) ∷ table) back bs = elim (strip_back suffix back) [
  | none ↦ find_back table back bs
  | some rest ↦ (rest, factor)
]

find_suffix_back :
    (table : List (Bytes × ℕ)) (bs : Bytes) → find_suffix table bs ≡ find_back table (reverse bs) bs
unfolding find_suffix strip_suffix
find_suffix_back [] bs = refl
find_suffix_back ((suffix, factor) ∷ table) bs =
    ap (λ z. elim (strip_back suffix (reverse bs)) [ none ↦ z | some rest ↦ (rest, factor) ])
      (find_suffix_back table bs)

find_back_unit :
    (ds s : Bytes) (factor final : ℕ) (others : Bytes)
    → is_digit final ≡ true
    → reverse (final ∷ others) ≡ ds
    → Measures s factor
    → find_back suffixes (reverse s ++ final ∷ others) (ds ++ s) ≡ (ds, factor)
find_back_unit ds s factor final others h q bare = ground (arith, h, append_nil ds)
find_back_unit ds s factor final others h q in_b = ground (arith, h, q)
find_back_unit ds s factor final others h q in_k = ground (arith, h, q)
find_back_unit ds s factor final others h q in_kb = ground (arith, h, q)
find_back_unit ds s factor final others h q in_m = ground (arith, h, q)
find_back_unit ds s factor final others h q in_mb = ground (arith, h, q)
find_back_unit ds s factor final others h q in_g = ground (arith, h, q)
find_back_unit ds s factor final others h q in_gb = ground (arith, h, q)

find_suffix-append :
    (ds s : Bytes) (factor : ℕ)
    → Ends ds
    → Measures s factor
    → find_suffix suffixes (ds ++ s) ≡ (ds, factor)
find_suffix-append ds s factor x u =
    find_suffix_back suffixes (ds ++ s)
    ∙ ap (λ r. find_back suffixes r (ds ++ s))
        (reverse-append ds s ∙ ap (λ r. reverse s ++ r) x.shape)
    ∙ find_back_unit ds s factor x.final x.others x.digit
        (ap reverse (sym x.shape) ∙ reverse-reverse ds) u

-- A number that fits a u64 and a unit, in upper or lower case, are read as so many bytes, and refused
-- exactly if they do not fit a u64.
pub parse_bytes-print_nat :
    (n factor : ℕ) (unit name : Bytes)
    → n < 2 ^ 64
    → IsSolid unit
    → Measures (ascii_lowercase unit) factor
    → let raw = print_nat n ++ unit in
      parse_bytes raw name ≡ (
        if ltb (n * factor) (2 ^ 64)
        then parsed (n * factor)
        else refused (invalid name raw (codes " overflows u64")))
unfolding parse_bytes scale
parse_bytes-print_nat n factor unit name l solid u =
    let digits = print_nat-digits n in
    let own = digits-IsSolid (print_nat n) digits in
    let outer = trim_solid (print_nat n ++ unit) (All-append _ (print_nat n) unit own solid) in
    let found =
      find_suffix-append (print_nat n) (ascii_lowercase unit) factor (print_nat-Ends n) u in
    rw
      (
        parse_bytes,
        outer,
        lower_digits (print_nat n) unit digits,
        found,
        trim_solid (print_nat n) own,
        parse_unsigned-print_nat n 64 l,
      )
      refl
