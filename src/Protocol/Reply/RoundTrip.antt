-- ===== src/Protocol/Reply/RoundTrip.antt =====
-- A client reads back the value whose bytes it is sent.
use ferrum_kv.Prelude.{
  ℕ, zero, suc, ◌*◌, ◌/◌, ◌<◌, ◌≤◌, ◌≡◌, refl, ◌∙◌, true, false, Option, some, [], ◌∷◌, ◌++◌, arith,
  Bytes, length, bytes_eq, take-length-append, drop-length-append, All, All-map,
}
use ferrum_kv.Prelude.Int.{ℤ, pos, negsuc}
use ferrum_kv.Prelude.Decimal.{
  print_nat, print_int, is_digit, print_nat-digits, parse_signed, parse_signed-print_int,
}
use ferrum_kv.Protocol.Frame.{split_crlf}
use ferrum_kv.Protocol.Reply.{
  Reply, simple, error, double, integer, bulk, null_bulk, null, boolean, array, map, Replies, nil,
  cons, count, wire, wire_all, IsLine, IsValid, AllValid, depth, depth_all, read_many, read_line,
  read_bulk, read_aggregate, read_reply,
}

pub split_crlf-line :
    (text rest : Bytes) → IsLine text → split_crlf (text ++ 13 ∷ 10 ∷ rest) ≡ some (text, rest)
unfolding split_crlf
split_crlf-line [] rest h = refl
split_crlf-line (b ∷ text) rest h = rw (split_crlf, h.0.0, split_crlf-line text rest h.1) refl

pub digits-IsLine : (text : Bytes) → All (λ b. is_digit b ≡ true) text → IsLine text
digits-IsLine text h =
    All-map (λ b. is_digit b ≡ true) _ (λ b d. (ground (arith, d), ground (arith, d))) text h

pub print_nat-IsLine : (n : ℕ) → IsLine (print_nat n)
print_nat-IsLine n = digits-IsLine (print_nat n) (print_nat-digits n)

pub print_int-IsLine : (n : ℤ) → IsLine (print_int n)
unfolding print_int
print_int-IsLine (pos n) = print_nat-IsLine n
print_int-IsLine (negsuc n) = ((refl, refl), print_nat-IsLine (suc n))

read_reply-line :
    (f mark : ℕ) (text rest : Bytes)
    → IsLine text
    → read_reply (suc f) (mark ∷ (text ++ 13 ∷ 10 ∷ rest)) ≡ read_line (read_reply f) mark text rest
unfolding read_reply
read_reply-line f mark text rest h = rw (read_reply, split_crlf-line text rest h) refl

bulk_line :
    (read : Bytes → Option (Reply × Bytes)) (payload rest : Bytes)
    → read_line read 36 (print_nat (length payload)) (payload ++ 13 ∷ 10 ∷ rest)
      ≡ some (bulk payload, rest)
unfolding read_line read_bulk bytes_eq print_int
bulk_line read payload rest =
    rw
      (
        read_line,
        parse_signed-print_int (pos (length payload)),
        drop-length-append payload (13 ∷ 10 ∷ rest),
        take-length-append payload (13 ∷ 10 ∷ rest),
      )
      refl

aggregate_line :
    (read : Bytes → Option (Reply × Bytes)) (make : Replies → Reply) (factor n : ℕ) (rs : Replies)
    (bs rest : Bytes)
    → n * factor ≡ count rs
    → read_many read (count rs) bs ≡ some (rs, rest)
    → read_aggregate read make factor (parse_signed (print_nat n)) bs ≡ some (make rs, rest)
unfolding read_aggregate print_int
aggregate_line read make factor n rs bs rest e all =
    rw (parse_signed-print_int (pos n), e, read_aggregate, all) refl

minus_one : parse_signed (45 ∷ 49 ∷ []) ≡ some (negsuc 0)
unfolding parse_signed
minus_one = refl

mutual
  unfolding wire read_line read_many read_bulk

  read-wire :
      (r : Reply) (f : ℕ) (rest : Bytes)
      → IsValid r
      → depth r ≤ f
      → read_reply (suc f) (wire r rest) ≡ some (r, rest)
  read-wire (simple text) f rest h d = read_reply-line f 43 text rest h
  read-wire (error text) f rest h d = read_reply-line f 45 text rest h
  read-wire (double text) f rest h d = read_reply-line f 44 text rest h
  read-wire (integer n) f rest h d =
      read_reply-line f 58 (print_int n) rest (print_int-IsLine n)
      ∙ rw (read_line, parse_signed-print_int n) refl
  read-wire (bulk payload) f rest h d =
      read_reply-line f 36 (print_nat (length payload)) (payload ++ 13 ∷ 10 ∷ rest)
        (print_nat-IsLine (length payload))
      ∙ bulk_line (read_reply f) payload rest
  read-wire null_bulk f rest h d =
      read_reply-line f 36 (45 ∷ 49 ∷ []) rest ((refl, refl), ((refl, refl), tt))
      ∙ rw (read_line, minus_one, read_bulk) refl
  read-wire null f rest h d = read_reply-line f 95 [] rest tt
  read-wire (boolean true) f rest h d = read_reply-line f 35 (116 ∷ []) rest ((refl, refl), tt)
  read-wire (boolean false) f rest h d = read_reply-line f 35 (102 ∷ []) rest ((refl, refl), tt)
  read-wire (array rs) f rest h d =
      read_reply-line f 42 (print_nat (count rs)) (wire_all rs rest) (print_nat-IsLine (count rs))
      ∙ aggregate_line (read_reply f) array 1 (count rs) rs (wire_all rs rest) rest (omega arith)
          (read_all-wire rs f rest h d)
  read-wire (map rs) f rest h d =
      read_reply-line f 37 (print_nat (count rs / 2)) (wire_all rs rest)
        (print_nat-IsLine (count rs / 2))
      ∙ aggregate_line (read_reply f) map 2 (count rs / 2) rs (wire_all rs rest) rest h.0
          (read_all-wire rs f rest h.1 d)

  read_all-wire :
      (rs : Replies) (f : ℕ) (rest : Bytes)
      → AllValid rs
      → depth_all rs ≤ f
      → read_many (read_reply f) (count rs) (wire_all rs rest) ≡ some (rs, rest)
  read_all-wire nil f rest h d = refl
  read_all-wire (cons r rs) zero rest h d = ground (arith, d)
  read_all-wire (cons r rs) (suc f) rest h d =
      let one = read-wire r f (wire_all rs rest) h.0 (omega (arith, d)) in
      let others = read_all-wire rs (suc f) rest h.1 (omega (arith, d)) in
      rw (read_many, one, others) refl

-- The bytes of a conforming value, with anything behind them, are read back as that value and the bytes
-- behind it by a reader that goes as deep as the value.
pub read_reply-wire :
    (r : Reply) (fuel : ℕ) (rest : Bytes)
    → IsValid r
    → depth r < fuel
    → read_reply fuel (wire r rest) ≡ some (r, rest)
read_reply-wire r zero rest h d = ground (arith, d)
read_reply-wire r (suc f) rest h d = read-wire r f rest h (omega (arith, d))
