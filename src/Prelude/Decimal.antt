-- ===== src/Prelude/Decimal.antt =====
-- Decimal numerals: `to_string` and `str::parse` of the integer types.
use ferrum_kv.Prelude.{
  ℕ, zero, suc, ◌+◌, ◌-◌, ◌*◌, ◌/◌, ◌%◌, ◌≤◌, ◌<◌, ◌≡◌, refl, ◌∙◌, Bool, true, false, ◌&&◌, ltb,
  leb, ◌==◌, Option, length, length-append, All, All-append, none, some, [], ◌∷◌, ◌++◌, Bytes,
  arith, Bool-cases, inl, inr, if◌then◌else◌,
}
use ferrum_kv.Prelude.Int.{ℤ, pos, negsuc, in_i64}

-- The digits of a number, the most significant first; the fuel is the number itself.
unfoldable pub digits_with : ℕ → ℕ → Bytes
digits_with zero n = (48 + n % 10) ∷ []
digits_with (suc fuel) n =
    if ltb n 10 then (48 + n % 10) ∷ [] else digits_with fuel (n / 10) ++ (48 + n % 10) ∷ []

-- `to_string` of an unsigned integer.
unfoldable pub print_nat : ℕ → Bytes
unfolding digits_with
print_nat n = digits_with n n

-- `to_string` of a signed integer.
unfoldable pub print_int : ℤ → Bytes
unfolding print_nat
print_int (pos n) = print_nat n
print_int (negsuc n) = 45 ∷ print_nat (suc n)

abbrev pub is_digit : ℕ → Bool
is_digit b = leb 48 b && leb b 57

-- The value of a run of digits after a prefix of value `acc`.
unfoldable pub digits_value : ℕ → Bytes → Option ℕ
digits_value acc [] = some acc
digits_value acc (b ∷ bs) = if is_digit b then digits_value (acc * 10 + (b - 48)) bs else none

-- `parse` of an unsigned integer, before its range is tested.
unfoldable pub parse_digits : Bytes → Option ℕ
unfolding digits_value
parse_digits [] = none
parse_digits (b ∷ bs) = digits_value 0 (b ∷ bs)

-- The signs that `i64::from_str` takes.
unfoldable pub parse_signed : Bytes → Option ℤ
unfolding parse_digits
parse_signed [] = none
parse_signed (b ∷ bs) =
    if b == 45
    then elim (parse_digits bs) [
      | none ↦ none
      | some zero ↦ some (pos 0)
      | some (suc n) ↦ some (negsuc n)
    ]
    else elim (parse_digits (if b == 43 then bs else b ∷ bs)) [
      | none ↦ none
      | some n ↦ some (pos n)
    ]

-- `str::parse::<i64>` on the bytes of a text; bytes that are not UTF-8 hold a byte that is no digit.
unfoldable pub parse_i64 : Bytes → Option ℤ
unfolding parse_signed
parse_i64 bs = elim (parse_signed bs) [ none ↦ none | some n ↦ if in_i64 n then some n else none ]

digits_value-append :
    (acc b : ℕ) (bs : Bytes) (n : ℕ)
    → digits_value acc bs ≡ some n
    → is_digit b ≡ true
    → digits_value acc (bs ++ b ∷ []) ≡ some (n * 10 + (b - 48))
unfolding digits_value
digits_value-append acc b [] n h d = ground arith
digits_value-append acc b (c ∷ bs) n h d =
    ground (arith, digits_value-append (acc * 10 + (c - 48)) b bs n)

digits_value-digits_with : (fuel n : ℕ) → n ≤ fuel → digits_value 0 (digits_with fuel n) ≡ some n
unfolding digits_value digits_with
digits_value-digits_with zero n h = ground arith
digits_value-digits_with (suc fuel) n h = ground (
  arith,
  digits_value-digits_with fuel (n / 10),
  digits_value-append 0 (48 + n % 10) (digits_with fuel (n / 10)) (n / 10),
)

abbrev head_is_digit : Bytes → Bool
head_is_digit [] = false
head_is_digit (b ∷ bs) = is_digit b

head_is_digit-append : (bs cs : Bytes) → head_is_digit bs ≡ true → head_is_digit (bs ++ cs) ≡ true
head_is_digit-append [] cs h = ground arith
head_is_digit-append (b ∷ bs) cs h = h

head_is_digit-digits_with : (fuel n : ℕ) → head_is_digit (digits_with fuel n) ≡ true
unfolding digits_with
head_is_digit-digits_with zero n = ground arith
head_is_digit-digits_with (suc fuel) n = elim (Bool-cases (ltb n 10)) [
  | inl y ↦ rw y (ground arith)
  | inr over ↦ rw over (
      head_is_digit-append (digits_with fuel (n / 10)) ((48 + n % 10) ∷ [])
        (head_is_digit-digits_with fuel (n / 10)))
]

parse_digits_lem : (bs : Bytes) → head_is_digit bs ≡ true → parse_digits bs ≡ digits_value 0 bs
unfolding parse_digits
parse_digits_lem [] h = ground arith
parse_digits_lem (b ∷ bs) h = refl

pub parse_digits-print_nat : (n : ℕ) → parse_digits (print_nat n) ≡ some n
unfolding print_nat
parse_digits-print_nat n =
    parse_digits_lem (digits_with n n) (head_is_digit-digits_with n n)
    ∙ digits_value-digits_with n n (omega arith)

parse_signed_lem :
    (bs : Bytes) (n : ℕ)
    → head_is_digit bs ≡ true
    → parse_digits bs ≡ some n
    → parse_signed bs ≡ some (pos n)
unfolding parse_signed
parse_signed_lem [] n h p = ground arith
parse_signed_lem (b ∷ bs) n h p =
    let minus : (b == 45) ≡ false = ground arith in
    let plus : (b == 43) ≡ false = ground arith in rw (minus, plus, p) refl

pub parse_signed-print_int : (z : ℤ) → parse_signed (print_int z) ≡ some z
unfolding parse_signed print_int print_nat
parse_signed-print_int (pos n) =
    parse_signed_lem (digits_with n n) n (head_is_digit-digits_with n n) (parse_digits-print_nat n)
parse_signed-print_int (negsuc n) = rw (parse_signed, parse_digits-print_nat (suc n)) refl

-- A number in the range of an i64 is read back from its decimal numeral.
pub parse_i64-print_int : (z : ℤ) → in_i64 z ≡ true → parse_i64 (print_int z) ≡ some z
unfolding parse_i64
parse_i64-print_int z h = rw (parse_i64, parse_signed-print_int z, h) refl

abbrev pow10 : ℕ → ℕ
pow10 zero = 1
pow10 (suc d) = 10 * pow10 d

length-digits_with : (fuel d n : ℕ) → n < pow10 (suc d) → length (digits_with fuel n) ≤ suc d
unfolding digits_with
length-digits_with zero d n h = omega arith
length-digits_with (suc fuel) zero n h = ground arith
length-digits_with (suc fuel) (suc d) n h = ground (
  arith,
  length-append (digits_with fuel (n / 10)) ((48 + n % 10) ∷ []),
  length-digits_with fuel d (n / 10),
)

-- The numeral of an i64 has at most 20 bytes.
pub length-print_int : (z : ℤ) → in_i64 z ≡ true → length (print_int z) ≤ 20
unfolding print_int print_nat
length-print_int (pos n) h = ground (arith, length-digits_with n 18 n)
length-print_int (negsuc n) h = ground (arith, length-digits_with (suc n) 18 (suc n))

digits_with-digits : (fuel n : ℕ) → All (λ b. is_digit b ≡ true) (digits_with fuel n)
unfolding digits_with
digits_with-digits zero n = (ground arith, tt)
digits_with-digits (suc fuel) n = elim (Bool-cases (ltb n 10)) [
  | inl y ↦ rw (digits_with, y) (ground arith, tt)
  | inr over ↦
      rw (digits_with, over)
        (All-append (λ b. is_digit b ≡ true) (digits_with fuel (n / 10)) ((48 + n % 10) ∷ [])
          (digits_with-digits fuel (n / 10)) (ground arith, tt))
]

pub print_nat-digits : (n : ℕ) → All (λ b. is_digit b ≡ true) (print_nat n)
unfolding print_nat
print_nat-digits n = digits_with-digits n n
