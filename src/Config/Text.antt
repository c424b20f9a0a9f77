-- ===== src/Config/Text.antt =====
-- What config/ and network/ use of std's texts, as bytes of UTF-8: `trim`, `split` at white space,
-- `lines`, ASCII case, and `parse` of the unsigned integers.
pub mod Solid
use ferrum_kv.Prelude.{
  ℕ, zero, suc, ◌+◌, ◌^◌, Bool, ◌&&◌, ◌||◌, ltb, leb, ◌==◌, Option, none, some, List, [], ◌∷◌,
  Bytes, bytes_eq, length, drop, map, if◌then◌else◌,
}
use ferrum_kv.Prelude.Decimal.{parse_digits}

abbrev pub reverse_onto : Bytes → Bytes → Bytes
reverse_onto [] ys = ys
reverse_onto (x ∷ xs) ys = reverse_onto xs (x ∷ ys)

abbrev pub reverse : Bytes → Bytes
reverse xs = reverse_onto xs []

abbrev one_byte_space : ℕ → Bool
one_byte_space b = b == 32 || (leb 9 b && leb b 13)

-- U+0085 and U+00A0; U+1680, U+2000 to U+200A, U+2028, U+2029, U+202F, U+205F and U+3000.
abbrev two_byte_space : ℕ → ℕ → Bool
two_byte_space a b = a == 194 && (b == 133 || b == 160)

abbrev three_byte_space : ℕ → ℕ → ℕ → Bool
three_byte_space a b c =
    (a == 225 && b == 154 && c == 128)
    || (a == 226 && b == 128 && (leb 128 c && leb c 138 || c == 168 || c == 169 || c == 175))
    || (a == 226 && b == 129 && c == 159)
    || (a == 227 && b == 128 && c == 128)

-- How many bytes the white space at the head of a text has; 0 where there is none.
unfoldable pub space_len : Bytes → ℕ
space_len [] = 0
space_len (a ∷ []) = if one_byte_space a then 1 else 0
space_len (a ∷ b ∷ []) = if one_byte_space a then 1 else if two_byte_space a b then 2 else 0
space_len (a ∷ b ∷ c ∷ bs) =
    if one_byte_space a
    then 1
    else if two_byte_space a b
    then 2
    else if three_byte_space a b c
    then 3
    else 0

-- The same at the end of a text, on its bytes from the last to the first.
unfoldable pub space_len_back : Bytes → ℕ
space_len_back [] = 0
space_len_back (a ∷ []) = if one_byte_space a then 1 else 0
space_len_back (b ∷ a ∷ []) = if one_byte_space b then 1 else if two_byte_space a b then 2 else 0
space_len_back (c ∷ b ∷ a ∷ bs) =
    if one_byte_space c
    then 1
    else if two_byte_space b c
    then 2
    else if three_byte_space a b c
    then 3
    else 0

-- One white space is dropped after the other, on fuel of one for each byte.
unfoldable pub drop_spaces : (Bytes → ℕ) → ℕ → Bytes → Bytes
drop_spaces len zero bs = bs
drop_spaces len (suc fuel) bs =
    let rest = drop_spaces len fuel (drop (len bs) bs) in if len bs == 0 then bs else rest

unfoldable pub trim : Bytes → Bytes
unfolding space_len space_len_back drop_spaces
trim bs =
    let front = drop_spaces space_len (length bs) bs in
    reverse (drop_spaces space_len_back (length front) (reverse front))

-- `splitn(2, char::is_whitespace)`: what stands before the first white space, and what behind it.
unfoldable pub split_space : Bytes → Bytes × Option Bytes
unfolding space_len
split_space [] = ([], none)
split_space (b ∷ bs) =
    let later = split_space bs in
    if space_len (b ∷ bs) == 0
    then (b ∷ later.0, later.1)
    else ([], some (drop (space_len (b ∷ bs)) (b ∷ bs)))

abbrev without_cr : Bytes → Bytes
without_cr line = elim (reverse line) [ [] ↦ line | b ∷ bs ↦ if b == 13 then reverse bs else line ]

-- The lines so far, the bytes of the line at hand from its last, and the text left.
unfoldable pub lines_from : Bytes → Bytes → List Bytes
lines_from seen [] = elim seen [ [] ↦ [] | b ∷ bs ↦ reverse (b ∷ bs) ∷ [] ]
lines_from seen (b ∷ bs) =
    let ended = without_cr (reverse seen) ∷ lines_from [] bs in
    let longer = lines_from (b ∷ seen) bs in if b == 10 then ended else longer

-- `lines`: a line ends at LF or CRLF, and a last line may have no end.
unfoldable pub lines : Bytes → List Bytes
unfolding lines_from
lines text = lines_from [] text

unfoldable pub lower : ℕ → ℕ
lower b = if leb 65 b && leb b 90 then b + 32 else b

-- `to_ascii_lowercase` and `eq_ignore_ascii_case`.
unfoldable pub ascii_lowercase : Bytes → Bytes
unfolding lower
ascii_lowercase bs = map lower bs

unfoldable pub eq_ignore_ascii_case : Bytes → Bytes → Bool
unfolding ascii_lowercase bytes_eq
eq_ignore_ascii_case a b = bytes_eq (ascii_lowercase a) (ascii_lowercase b)

-- `parse` of the unsigned integers of a width: a sign '+' may stand before the digits.
unfoldable pub parse_unsigned : ℕ → Bytes → Option ℕ
unfolding parse_digits
parse_unsigned width [] = none
parse_unsigned width (b ∷ bs) = elim (parse_digits (if b == 43 then bs else b ∷ bs)) [
  | none ↦ none
  | some n ↦ if ltb n (2 ^ width) then some n else none
]
