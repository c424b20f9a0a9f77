-- ===== src/Persistence/Cut.antt =====
-- The reader of the replay on the beginning of what it can read: it answers the same, or it meets the
-- end of the file.
use ferrum_kv.Prelude.{
  ℕ, Bool, zero, suc, ◌+◌, ◌≤◌, ◌<◌, ◌≡◌, refl, ap, true, false, ltb, ◌==◌, some, [], ◌∷◌, ◌++◌,
  arith, Bytes, length, take, drop, length-append, Bool-cases, Option-cases, inl, inr,
  if◌then◌else◌,
}
use ferrum_kv.Prelude.Int.{ℤ, pos, negsuc}
use ferrum_kv.Prelude.Decimal.{parse_i64}
use ferrum_kv.Protocol.Text.{is_utf8}
use ferrum_kv.Persistence.Reader.{
  Cursor, Read, done, unexpected_eof, malformed, and_then, expect_byte, read_exact_tracked,
  read_number, read_lf, decode_number, read_integer, read_terminator, read_bulk_payload, read_part,
  read_elements, read_array, read_record,
}

abbrev at : Bytes → ℕ → Cursor
at rest n = record { rest = rest; consumed = n }

-- The end of the file is met, with `n` bytes of the record or more behind it.
abbrev pub MeetsEof : {A : Type 0} → Read A → ℕ → Type 0
MeetsEof m n = (c : Cursor) × (m ≡ unexpected_eof c) × (n ≤ c.consumed)

-- A reader's answers on an input and on the input with `more` behind it: the first meets the end of
-- the file, or the two are the same but for what is left, or the second is an error.
pub data Cut (more : Bytes) (n : ℕ) {A : Type 0} : Read A → Read A → Type 0 where
  meets_eof : {c : Cursor} {m : Read A} → n ≤ c.consumed → Cut more n (unexpected_eof c) m
  agrees :
      {v : A} {rest : Bytes} {k : ℕ}
      → n ≤ k
      → Cut more n (done v (at rest k)) (done v (at (rest ++ more) k))
  fails : {c : Cursor} {m : Read A} → Cut more n m (malformed c)
  fails_eof : {c : Cursor} {m : Read A} → Cut more n m (unexpected_eof c)

abbrev IsCuttable : {A : Type 0} → (Cursor → Read A) → Type 0
IsCuttable f = (xs more : Bytes) (n : ℕ) → Cut more n (f (at xs n)) (f (at (xs ++ more) n))

weaken :
    {A : Type 0} {more : Bytes} {n k : ℕ} {m l : Read A} → n ≤ k → Cut more k m l → Cut more n m l
weaken h (meets_eof {c = c} x) = meets_eof (omega (arith, h, x))
weaken h (agrees x) = agrees (omega (arith, h, x))
weaken h fails = fails
weaken h fails_eof = fails_eof

and_then-Cut :
    {A B : Type 0} {more : Bytes} {n : ℕ} {m l : Read A} (g : A → Cursor → Read B)
    → Cut more n m l
    → ((v : A) → IsCuttable (g v))
    → Cut more n (and_then m g) (and_then l g)
and_then-Cut g (meets_eof x) h = meets_eof x
and_then-Cut g (agrees {v = v} {rest = rest} {k = k} x) h = weaken x (h v rest _ k)
and_then-Cut g fails h = fails
and_then-Cut g fails_eof h = fails_eof

done-IsCuttable : {A : Type 0} (v : A) → IsCuttable (done v)
done-IsCuttable v xs more n = agrees (omega arith)

expect_byte-IsCuttable : IsCuttable expect_byte
unfolding expect_byte
expect_byte-IsCuttable [] more n = meets_eof (omega arith)
expect_byte-IsCuttable (x ∷ xs) more n = agrees (omega arith)

take-append : (len : ℕ) (xs more : Bytes) → len ≤ length xs → take len (xs ++ more) ≡ take len xs
take-append zero xs more h = refl
take-append (suc len) [] more h = ground (arith, h)
take-append (suc len) (x ∷ xs) more h = ap (◌∷◌ x) (take-append len xs more (ground (arith, h)))

drop-append :
    (len : ℕ) (xs more : Bytes) → len ≤ length xs → drop len (xs ++ more) ≡ drop len xs ++ more
drop-append zero xs more h = refl
drop-append (suc len) [] more h = ground (arith, h)
drop-append (suc len) (x ∷ xs) more h = drop-append len xs more (ground (arith, h))

read_exact_tracked-IsCuttable : (len : ℕ) → IsCuttable (read_exact_tracked len)
unfolding read_exact_tracked
read_exact_tracked-IsCuttable len xs more n = elim (Bool-cases (ltb (length xs) len)) [
  | inl y ↦ rw y (meets_eof (omega arith))
  | inr over ↦
      let enough : len ≤ length xs = ground (arith, over) in
      let long : ltb (length (xs ++ more)) len ≡ false = ground (arith, length-append xs more) in
      rw (over, long, take-append len xs more enough, drop-append len xs more enough)
        (agrees (omega arith))
]

read_lf-IsCuttable : IsCuttable (λ c. read_lf c.rest c.consumed)
unfolding read_lf
read_lf-IsCuttable [] more n = meets_eof (omega arith)
read_lf-IsCuttable (x ∷ xs) more n = elim (Bool-cases (x == 10)) [
  | inl y ↦ rw y (agrees (omega arith))
  | inr other ↦ rw other fails
]

read_number-IsCuttable : IsCuttable (λ c. read_number c.rest c.consumed)
unfolding read_number
read_number-IsCuttable [] more n = meets_eof (omega arith)
read_number-IsCuttable (x ∷ xs) more n = elim (Bool-cases (x == 13)) [
  | inl y ↦ rw y (weaken (omega arith) (read_lf-IsCuttable xs more (n + 1)))
  | inr other ↦ rw other (
      weaken (omega arith) (
        and_then-Cut (λ number c. done (x ∷ number) c) (read_number-IsCuttable xs more (n + 1))
          (λ number. done-IsCuttable (x ∷ number))))
]

decode_number-IsCuttable : (number : Bytes) → IsCuttable (decode_number number)
unfolding decode_number
decode_number-IsCuttable number xs more n = elim (Bool-cases (is_utf8 number)) [
  | inl y ↦ elim (Option-cases (parse_i64 number)) [
    | inl p ↦ rw (y, p) fails
    | inr (v, p) ↦ rw (y, p) (agrees (omega arith))
  ]
  | inr other ↦ rw other fails
]

read_integer-IsCuttable : IsCuttable read_integer
unfolding read_integer
read_integer-IsCuttable xs more n =
    and_then-Cut decode_number (read_number-IsCuttable xs more n) decode_number-IsCuttable

malformed-IsCuttable : {A : Type 0} → IsCuttable {A = A} malformed
malformed-IsCuttable xs more n = fails

if-IsCuttable :
    {A : Type 0} (b : Bool) (f g : Cursor → Read A)
    → IsCuttable f
    → IsCuttable g
    → IsCuttable (λ c. if b then f c else g c)
if-IsCuttable true f g hf hg = hf
if-IsCuttable false f g hf hg = hg

read_terminator-IsCuttable : (payload : Bytes) → IsCuttable (read_terminator payload)
unfolding read_terminator
read_terminator-IsCuttable payload xs more n =
    and_then-Cut _ (expect_byte-IsCuttable xs more n) (λ cr xs1 more n1.
      and_then-Cut _ (expect_byte-IsCuttable xs1 more n1) (λ lf.
        if-IsCuttable (cr == 13) (λ c. if lf == 10 then done payload c else malformed c) malformed
          (if-IsCuttable (lf == 10) (done payload) malformed (done-IsCuttable payload)
            malformed-IsCuttable)
          malformed-IsCuttable))

read_bulk_payload-IsCuttable : (len : ℤ) → IsCuttable (read_bulk_payload len)
unfolding read_bulk_payload
read_bulk_payload-IsCuttable (negsuc len) xs more n = fails
read_bulk_payload-IsCuttable (pos len) xs more n =
    and_then-Cut read_terminator (read_exact_tracked-IsCuttable len xs more n)
      read_terminator-IsCuttable

read_part-IsCuttable : IsCuttable read_part
unfolding read_part
read_part-IsCuttable xs more n = and_then-Cut _ (expect_byte-IsCuttable xs more n) (λ marker.
    if-IsCuttable (marker == 36) (λ c1. and_then (read_integer c1) read_bulk_payload) malformed
      (λ xs1 more n1.
        and_then-Cut read_bulk_payload (read_integer-IsCuttable xs1 more n1)
          read_bulk_payload-IsCuttable)
      malformed-IsCuttable)

read_elements-IsCuttable : (k : ℕ) → IsCuttable (read_elements k)
unfolding read_elements
read_elements-IsCuttable zero xs more n = agrees (omega arith)
read_elements-IsCuttable (suc k) xs more n =
    and_then-Cut _ (read_part-IsCuttable xs more n) (λ part xs1 more n1.
      and_then-Cut _ (read_elements-IsCuttable k xs1 more n1)
        (λ parts. done-IsCuttable (part ∷ parts)))

read_array-IsCuttable : (len : ℤ) → IsCuttable (read_array len)
unfolding read_array
read_array-IsCuttable (negsuc k) xs more n = fails
read_array-IsCuttable (pos k) xs more n =
    and_then-Cut _ (read_elements-IsCuttable k xs more n) (λ parts. done-IsCuttable (some parts))

-- What is read from a record's first byte on.
pub read_record-Cut :
    (b : ℕ) (xs more : Bytes) → Cut more 1 (read_record (b ∷ xs)) (read_record (b ∷ (xs ++ more)))
unfolding read_record
read_record-Cut b xs more =
    if-IsCuttable (b == 42) (λ c. and_then (read_integer c) read_array) malformed
      (λ xs1 more n1.
        and_then-Cut read_array (read_integer-IsCuttable xs1 more n1) read_array-IsCuttable)
      malformed-IsCuttable xs more 1

abbrev pub left : {A : Type 0} → Read A → Bytes
left (done v c) = c.rest
left (unexpected_eof c) = c.rest
left (malformed c) = c.rest

abbrev pub is_done : {A : Type 0} → Read A → Bool
is_done (done v c) = true
is_done _ = false

-- An input whose end is missing meets the end of the file, if the whole input is read to its end.
pub Cut-MeetsEof :
    {A : Type 0} {more : Bytes} {n : ℕ} {m l : Read A}
    → Cut more n m l
    → is_done l ≡ true
    → left l ≡ []
    → 0 < length more
    → MeetsEof m n
Cut-MeetsEof (meets_eof {c = c} x) d p h = (c, refl, x)
Cut-MeetsEof {more = more} (agrees {rest = rest} x) d p h =
    let none_left : length (rest ++ more) ≡ 0 = ap length p in
    ground (arith, length-append rest more, h, none_left)
Cut-MeetsEof fails d p h = ground (arith, d)
Cut-MeetsEof fails_eof d p h = ground (arith, d)
