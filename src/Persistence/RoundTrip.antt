-- ===== src/Persistence/RoundTrip.antt =====
-- What `encode_command` wrote, the reader of the replay reads back.
use ferrum_kv.Prelude.{
  ℕ, ◌+◌, ◌^◌, ◌<◌, ◌≡◌, refl, true, false, ltb, ◌==◌, some, List, [], ◌∷◌, ◌++◌, arith, Bytes,
  length, length-append, append_assoc, take-length-append, drop-length-append, All,
}
use ferrum_kv.Prelude.Int.{pos}
use ferrum_kv.Prelude.Decimal.{print_nat, is_digit, print_nat-digits}
use ferrum_kv.Protocol.Frame.{encode_parts, encode_command}
use ferrum_kv.Protocol.RoundTrip.{digits-is_utf8, parse_i64-print_nat, encode_parts-append}
use ferrum_kv.Persistence.Reader.{
  Cursor, Read, done, and_then, expect_byte, read_exact_tracked, read_number, read_lf,
  decode_number, read_integer, read_terminator, read_bulk_payload, read_part, read_elements,
  read_array, read_record,
}

-- Reading answers a value and leaves the reader at `rest`, from wherever it counts.
abbrev pub Reads : {A : Type 0} → Read A → A → Bytes → Type 0
Reads m v rest = (n : ℕ) × (m ≡ done v (record { rest = rest; consumed = n }))

and_then-Reads :
    {A B : Type 0} (m : Read A) (f : A → Cursor → Read B) (v : A) (w : B) (rest end : Bytes)
    → Reads m v rest
    → ((n : ℕ) → Reads (f v (record { rest = rest; consumed = n })) w end)
    → Reads (and_then m f) w end
and_then-Reads m f v w rest end (n, p) k = rw p (k n)

read_number-digits :
    (line rest : Bytes) (n : ℕ)
    → All (λ b. is_digit b ≡ true) line
    → Reads (read_number (line ++ 13 ∷ 10 ∷ rest) n) line rest
unfolding read_number read_lf
read_number-digits [] rest n h = (n + 1 + 1, refl)
read_number-digits (b ∷ line) rest n h =
    let other : (b == 13) ≡ false = ground (arith, h.0) in
    let (m, p) = read_number-digits line rest (n + 1) h.1 in (m, rw (read_number, other, p) refl)

read_integer-print_nat :
    (k : ℕ) (rest : Bytes) (n : ℕ)
    → k < 2 ^ 63
    → Reads
        (read_integer (record { rest = print_nat k ++ 13 ∷ 10 ∷ rest; consumed = n }))
        (pos k)
        rest
unfolding read_integer decode_number
read_integer-print_nat k rest n h =
    and_then-Reads (read_number (print_nat k ++ 13 ∷ 10 ∷ rest) n) decode_number (print_nat k)
      (pos k) rest rest (read_number-digits (print_nat k) rest n (print_nat-digits k))
      (λ m. (m, rw (decode_number, digits-is_utf8 k, parse_i64-print_nat k h) refl))

read_bulk_payload-append :
    (p rest : Bytes) (n : ℕ)
    → Reads
        (read_bulk_payload (pos (length p)) (record { rest = p ++ 13 ∷ 10 ∷ rest; consumed = n }))
        p
        rest
unfolding read_bulk_payload read_exact_tracked read_terminator expect_byte
read_bulk_payload-append p rest n =
    let long : ltb (length (p ++ 13 ∷ 10 ∷ rest)) (length p) ≡ false =
      ground (arith, length-append p (13 ∷ 10 ∷ rest)) in
    (
      n + length p + 1 + 1,
      rw (long, drop-length-append p (13 ∷ 10 ∷ rest), take-length-append p (13 ∷ 10 ∷ rest)) refl,
    )

read_part-append :
    (p rest : Bytes) (n : ℕ)
    → length p < 2 ^ 63
    → Reads
        (read_part (record {
          rest = 36 ∷ (print_nat (length p) ++ 13 ∷ 10 ∷ (p ++ 13 ∷ 10 ∷ rest));
          consumed = n;
        }))
        p
        rest
unfolding read_part expect_byte
read_part-append p rest n h =
    and_then-Reads
      (read_integer (record {
        rest = print_nat (length p) ++ 13 ∷ 10 ∷ (p ++ 13 ∷ 10 ∷ rest);
        consumed = n + 1;
      }))
      read_bulk_payload (pos (length p)) p (p ++ 13 ∷ 10 ∷ rest) rest
      (read_integer-print_nat (length p) (p ++ 13 ∷ 10 ∷ rest) (n + 1) h)
      (read_bulk_payload-append p rest)

-- The lengths of the parts are those of vectors.
abbrev pub FitLengths : List Bytes → Type 0
FitLengths parts = All (λ p. length p < 2 ^ 63) parts

no_parts :
    (rest : Bytes) (n : ℕ)
    → Reads (read_elements 0 (record { rest = encode_parts [] ++ rest; consumed = n })) [] rest
unfolding read_elements encode_parts
no_parts rest n = (n, refl)

read_elements-encode_parts :
    (parts : List Bytes) (rest : Bytes) (n : ℕ)
    → FitLengths parts
    → Reads
        (read_elements (length parts) (record { rest = encode_parts parts ++ rest; consumed = n }))
        parts
        rest
unfolding read_elements
read_elements-encode_parts [] rest n h = no_parts rest n
read_elements-encode_parts (p ∷ parts) rest n h = rw (encode_parts-append p parts rest) (
    and_then-Reads
      (read_part (record {
        rest =
            36 ∷ (print_nat (length p) ++ 13 ∷ 10 ∷ (p ++ 13 ∷ 10 ∷ (encode_parts parts ++ rest)));
        consumed = n;
      }))
      (λ part c1. and_then (read_elements (length parts) c1) (λ parts c2. done (part ∷ parts) c2)) p
      (p ∷ parts) (encode_parts parts ++ rest) rest
      (read_part-append p (encode_parts parts ++ rest) n h.0)
      (λ m. let (k, q) = read_elements-encode_parts parts rest m h.1 in (k, rw q refl)))

-- The bytes of an encoded command, with anything behind them, are read as the arguments that were
-- encoded, and the reader is left at the bytes behind, if the lengths are those of an i64.
pub read_record-encode_command :
    (parts : List Bytes) (rest : Bytes)
    → length parts < 2 ^ 63
    → FitLengths parts
    → Reads (read_record (encode_command parts ++ rest)) (some parts) rest
unfolding read_record encode_command read_array
read_record-encode_command parts rest l h =
    rw (append_assoc (print_nat (length parts)) (13 ∷ 10 ∷ encode_parts parts) rest) (
      and_then-Reads
        (read_integer (record {
          rest = print_nat (length parts) ++ 13 ∷ 10 ∷ (encode_parts parts ++ rest);
          consumed = 1;
        }))
        read_array (pos (length parts)) (some parts) (encode_parts parts ++ rest) rest
        (read_integer-print_nat (length parts) (encode_parts parts ++ rest) 1 l)
        (λ n. let (k, q) = read_elements-encode_parts parts rest n h in (k, rw q refl)))
