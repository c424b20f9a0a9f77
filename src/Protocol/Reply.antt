-- ===== src/Protocol/Reply.antt =====
-- What a reply of the RESP2 and RESP3 protocols is, apart from the code that writes it: a value, its
-- bytes, and a client's reader of one value.
pub mod RoundTrip
use ferrum_kv.Prelude.{
  ℕ, zero, suc, ◌+◌, ◌/◌, ◌*◌, ◌<◌, ◌≤◌, ◌^◌, ◌≡◌, max, Bool, true, false, ◌==◌, ◌&&◌, Option, none,
  some, List, [], ◌∷◌, ◌++◌, Bytes, codes, length, take, drop, bytes_eq, ltb, All, if◌then◌else◌,
}
use ferrum_kv.Prelude.Int.{ℤ, pos, negsuc, in_i64}
use ferrum_kv.Prelude.Decimal.{print_nat, print_int, parse_signed}
use ferrum_kv.Protocol.Frame.{split_crlf}

mutual
  pub data Reply : Type 0 where
    simple error double : Bytes → Reply
    integer : ℤ → Reply
    bulk : Bytes → Reply
    null_bulk null : Reply
    boolean : Bool → Reply
    array map : Replies → Reply

  pub data Replies : Type 0 where
    nil : Replies
    cons : Reply → Replies → Replies

abbrev pub count : Replies → ℕ
count nil = 0
count (cons r rs) = suc (count rs)

-- A line of the protocol: its mark, its text and CRLF.
abbrev line : ℕ → Bytes → Bytes → Bytes
line mark text rest = mark ∷ (text ++ 13 ∷ 10 ∷ rest)

-- The bytes of a value, with what stands behind them. A map's values are its keys and values in turn,
-- and its count is that of its pairs.
unfoldable mutual
  pub wire : Reply → Bytes → Bytes
  wire (simple text) rest = line 43 text rest
  wire (error text) rest = line 45 text rest
  wire (integer n) rest = line 58 (print_int n) rest
  wire (bulk payload) rest = line 36 (print_nat (length payload)) (payload ++ 13 ∷ 10 ∷ rest)
  wire null_bulk rest = line 36 (45 ∷ 49 ∷ []) rest
  wire null rest = line 95 [] rest
  wire (boolean b) rest = line 35 (if b then 116 ∷ [] else 102 ∷ []) rest
  wire (double text) rest = line 44 text rest
  wire (array rs) rest = line 42 (print_nat (count rs)) (wire_all rs rest)
  wire (map rs) rest = line 37 (print_nat (count rs / 2)) (wire_all rs rest)

  pub wire_all : Replies → Bytes → Bytes
  wire_all nil rest = rest
  wire_all (cons r rs) rest = wire r (wire_all rs rest)

-- A text on one line: it has no CR and no LF.
abbrev pub IsLine : Bytes → Type 0
IsLine text = All (λ b. ((b == 13) ≡ false) × ((b == 10) ≡ false)) text

-- What a conforming value is: one line where a line is due, and a value with every key of a map.
abbrev mutual
  pub IsValid : Reply → Type 0
  IsValid (simple text) = IsLine text
  IsValid (error text) = IsLine text
  IsValid (double text) = IsLine text
  IsValid (integer n) = Unit {0}
  IsValid (bulk payload) = Unit {0}
  IsValid (array rs) = AllValid rs
  IsValid (map rs) = (count rs / 2 * 2 ≡ count rs) × AllValid rs
  IsValid null_bulk = Unit {0}
  IsValid null = Unit {0}
  IsValid (boolean b) = Unit {0}

  pub AllValid : Replies → Type 0
  AllValid nil = Unit {0}
  AllValid (cons r rs) = IsValid r × AllValid rs

abbrev mutual
  pub depth : Reply → ℕ
  depth (array rs) = depth_all rs
  depth (map rs) = depth_all rs
  depth _ = 0

  pub depth_all : Replies → ℕ
  depth_all nil = 0
  depth_all (cons r rs) = max (suc (depth r)) (depth_all rs)

read_bulk : ℤ → Bytes → Option (Reply × Bytes)
read_bulk (negsuc n) rest = if n == 0 then some (null_bulk, rest) else none
read_bulk (pos n) rest =
    if bytes_eq (take 2 (drop n rest)) (13 ∷ 10 ∷ [])
    then some (bulk (take n rest), drop 2 (drop n rest))
    else none

read_boolean : Bytes → Bytes → Option (Reply × Bytes)
read_boolean (b ∷ []) rest =
    if b == 116
    then some (boolean true, rest)
    else if b == 102
    then some (boolean false, rest)
    else none
read_boolean _ rest = none

read_many : (Bytes → Option (Reply × Bytes)) → ℕ → Bytes → Option (Replies × Bytes)
read_many read zero bs = some (nil, bs)
read_many read (suc n) bs = elim (read bs) [
  | none ↦ none
  | some (r, rest) ↦ elim (read_many read n rest) [
    | none ↦ none
    | some (rs, end) ↦ some (cons r rs, end)
  ]
]

-- The values behind the line of an array or a map.
read_aggregate :
    (Bytes → Option (Reply × Bytes))
    → (Replies → Reply)
    → ℕ
    → Option ℤ
    → Bytes
    → Option (Reply × Bytes)
unfolding read_many
read_aggregate read make factor (some (pos n)) rest = elim (read_many read (n * factor) rest) [
  | none ↦ none
  | some (rs, end) ↦ some (make rs, end)
]
read_aggregate read make factor _ rest = none

read_number : (ℤ → Bytes → Option (Reply × Bytes)) → Option ℤ → Bytes → Option (Reply × Bytes)
read_number next none rest = none
read_number next (some n) rest = next n rest

-- The value that begins with a mark and a line.
read_line : (Bytes → Option (Reply × Bytes)) → ℕ → Bytes → Bytes → Option (Reply × Bytes)
unfolding read_bulk read_boolean read_aggregate read_number
read_line read mark text rest =
    if mark == 43
    then some (simple text, rest)
    else if mark == 45
    then some (error text, rest)
    else if mark == 58
    then read_number (λ n end. some (integer n, end)) (parse_signed text) rest
    else if mark == 36
    then read_number read_bulk (parse_signed text) rest
    else if mark == 95
    then some (null, rest)
    else if mark == 35
    then read_boolean text rest
    else if mark == 44
    then some (double text, rest)
    else if mark == 42
    then read_aggregate read array 1 (parse_signed text) rest
    else if mark == 37
    then read_aggregate read map 2 (parse_signed text) rest
    else none

-- A client's reader of one value, which goes no deeper than the fuel. Its numbers have no bound.
unfoldable pub read_reply : ℕ → Bytes → Option (Reply × Bytes)
unfolding split_crlf read_line
read_reply zero bs = none
read_reply (suc fuel) [] = none
read_reply (suc fuel) (mark ∷ bs) = elim (split_crlf bs) [
  | none ↦ none
  | some (text, rest) ↦ read_line (read_reply fuel) mark text rest
]
