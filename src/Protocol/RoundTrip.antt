-- ===== src/Protocol/RoundTrip.antt =====
-- What `encode_command` writes, the frame parser reads back.
use ferrum_kv.Prelude.{
  ℕ, suc, ◌+◌, ◌-◌, ◌^◌, ◌≤◌, ◌<◌, ◌≡◌, refl, ap, ◌∙◌, true, false, ltb, ◌==◌, some, List, [], ◌∷◌,
  ◌++◌, arith, Bytes, length, bytes_eq, length-append, append_assoc, take-length-append,
  drop-length-append, All, All-map,
}
use ferrum_kv.Prelude.Int.{pos}
use ferrum_kv.Prelude.Decimal.{
  print_nat, print_int, is_digit, print_nat-digits, parse_i64, parse_i64-print_int,
}
use ferrum_kv.Error.{ok}
use ferrum_kv.Floats.{Floats}
use ferrum_kv.Protocol.Text.{Rendering, is_utf8, is_utf8_ascii}
use ferrum_kv.Protocol.Frame.{
  max_array_elements, max_bulk_len, encode_parts, encode_command, split_crlf, read_integer_line,
  read_payload, read_sized, read_bulk_string, read_parts, read_count, read_frame, parse_frame,
  finish_frame,
}

-- No part is longer than a bulk string may be.
abbrev pub AreShort : List Bytes → Type 0
AreShort parts = All (λ p. length p ≤ max_bulk_len) parts

split_crlf-digits :
    (line rest : Bytes)
    → All (λ b. is_digit b ≡ true) line
    → split_crlf (line ++ 13 ∷ 10 ∷ rest) ≡ some (line, rest)
unfolding split_crlf
split_crlf-digits [] rest h = refl
split_crlf-digits (b ∷ line) rest h =
    let other : (b == 13) ≡ false = ground (arith, h.0) in
    rw (split_crlf, other, split_crlf-digits line rest h.1) refl

pub digits-is_utf8 : (n : ℕ) → is_utf8 (print_nat n) ≡ true
digits-is_utf8 n = is_utf8_ascii (print_nat n) (
    All-map (λ b. is_digit b ≡ true) (λ b. b < 128) (λ b d. ground (arith, d)) (print_nat n)
      (print_nat-digits n))

pub parse_i64-print_nat : (n : ℕ) → n < 2 ^ 63 → parse_i64 (print_nat n) ≡ some (pos n)
unfolding print_int
parse_i64-print_nat n h = parse_i64-print_int (pos n) (ground (arith, h))

pub encode_parts-append :
    (p : Bytes) (parts : List Bytes) (rest : Bytes)
    → encode_parts (p ∷ parts) ++ rest
      ≡ 36 ∷ (print_nat (length p) ++ 13 ∷ 10 ∷ (p ++ 13 ∷ 10 ∷ (encode_parts parts ++ rest)))
unfolding encode_parts
encode_parts-append p parts rest =
    ap (λ x. 36 ∷ x)
      (append_assoc (print_nat (length p)) _ rest
        ∙ ap (λ x. print_nat (length p) ++ 13 ∷ 10 ∷ x)
            (append_assoc p (13 ∷ 10 ∷ encode_parts parts) rest))

module _ (r : Rendering) where
  empty : (rest : Bytes) → read_parts r 0 (encode_parts [] ++ rest) ≡ ok (some ([], rest))
  unfolding read_parts encode_parts
  empty rest = refl

  read_integer_line-print_nat :
      (n : ℕ) (rest : Bytes)
      → n < 2 ^ 63
      → read_integer_line r (print_nat n ++ 13 ∷ 10 ∷ rest) ≡ ok (some (pos n, rest))
  unfolding read_integer_line
  read_integer_line-print_nat n rest h =
      rw
        (
          read_integer_line,
          split_crlf-digits (print_nat n) rest (print_nat-digits n),
          digits-is_utf8 n,
          parse_i64-print_nat n h,
        )
        refl

  read_payload-append :
      (p rest : Bytes) → read_payload r (length p) (p ++ 13 ∷ 10 ∷ rest) ≡ ok (some (p, rest))
  unfolding read_payload bytes_eq
  read_payload-append p rest =
      let long : ltb (length (p ++ 13 ∷ 10 ∷ rest)) (length p + 2) ≡ false =
        ground (arith, length-append p (13 ∷ 10 ∷ rest)) in
      rw (long, drop-length-append p (13 ∷ 10 ∷ rest), take-length-append p (13 ∷ 10 ∷ rest)) refl

  read_bulk_string-append :
      (p rest : Bytes)
      → length p ≤ max_bulk_len
      → read_bulk_string r (36 ∷ (print_nat (length p) ++ 13 ∷ 10 ∷ (p ++ 13 ∷ 10 ∷ rest)))
        ≡ ok (some (p, rest))
  unfolding read_bulk_string read_sized
  read_bulk_string-append p rest h =
      let short : ltb max_bulk_len (length p) ≡ false = ground (arith, h) in
      rw (read_integer_line-print_nat (length p) (p ++ 13 ∷ 10 ∷ rest) (omega (arith, h)), short)
        (read_payload-append p rest)

  read_parts_next :
      (n : ℕ) (buf rest end : Bytes) (p : Bytes) (parts : List Bytes)
      → read_bulk_string r buf ≡ ok (some (p, rest))
      → read_parts r n rest ≡ ok (some (parts, end))
      → read_parts r (suc n) buf ≡ ok (some (p ∷ parts, end))
  unfolding read_parts
  read_parts_next n buf rest end p parts b q = rw (read_parts, b, q) refl

  read_parts-encode_parts :
      (parts : List Bytes) (rest : Bytes)
      → AreShort parts
      → read_parts r (length parts) (encode_parts parts ++ rest) ≡ ok (some (parts, rest))
  read_parts-encode_parts [] rest h = empty rest
  read_parts-encode_parts (p ∷ parts) rest h =
      read_parts_next (length parts) (encode_parts (p ∷ parts) ++ rest) (encode_parts parts ++ rest)
        rest p parts
        (rw (encode_parts-append p parts rest)
          (read_bulk_string-append p (encode_parts parts ++ rest) h.0))
        (read_parts-encode_parts parts rest h.1)

  read_count-encode_command :
      (parts : List Bytes) (rest : Bytes)
      → 0 < length parts
      → length parts ≤ max_array_elements
      → read_count r (encode_command parts ++ rest)
        ≡ ok (some (length parts, encode_parts parts ++ rest))
  unfolding read_count encode_command
  read_count-encode_command parts rest l u =
      let q = append_assoc (print_nat (length parts)) (13 ∷ 10 ∷ encode_parts parts) rest in
      let line =
        read_integer_line-print_nat (length parts) (encode_parts parts ++ rest)
          (omega (arith, u)) in
      let some_part : (length parts == 0) ≡ false = ground (arith, l) in
      let few : ltb max_array_elements (length parts) ≡ false = ground (arith, u) in
      rw (q, line, some_part, few) refl

  -- The bytes of an encoded command, with anything behind them, are read as the arguments that were
  -- encoded and the bytes behind, if there are from one to 1,048,576 of at most 512 MiB each.
  pub read_frame-encode_command :
      (parts : List Bytes) (rest : Bytes)
      → 0 < length parts
      → length parts ≤ max_array_elements
      → AreShort parts
      → read_frame r (encode_command parts ++ rest) ≡ ok (some (parts, rest))
  unfolding read_frame
  read_frame-encode_command parts rest l u h =
      rw (read_frame, read_count-encode_command parts rest l u)
        (read_parts-encode_parts parts rest h)

  -- The frame of an encoded command, with anything behind it, is parsed to what `build_command` makes
  -- of the arguments, and exactly its bytes are consumed, under the same bounds.
  pub parse_frame-parts :
      {fl : Floats} (parts : List Bytes) (rest : Bytes)
      → 0 < length parts
      → length parts ≤ max_array_elements
      → AreShort parts
      → parse_frame {fl = fl} r (encode_command parts ++ rest)
        ≡ ok (finish_frame r (length (encode_command parts)) parts)
  unfolding parse_frame
  parse_frame-parts parts rest l u h =
      let buf = encode_command parts in
      let consumed : length (buf ++ rest) - length rest ≡ length buf =
        omega (arith, length-append buf rest) in
      rw (parse_frame, read_frame-encode_command parts rest l u h, consumed) refl
