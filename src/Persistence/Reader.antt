-- ===== src/Persistence/Reader.antt =====
-- `read_record` and `resync_to_next_array` of persistence/replay.rs. The reader is what the file holds
-- from its position on, and a read of it does not fail; the texts that are only logged are left out.
use ferrum_kv.Prelude.{
  ℕ, zero, suc, ◌+◌, ltb, ◌==◌, Option, none, some, List, [], ◌∷◌, Bytes, length, take, drop,
  if◌then◌else◌,
}
use ferrum_kv.Prelude.Int.{ℤ, pos, negsuc}
use ferrum_kv.Prelude.Decimal.{parse_i64}
use ferrum_kv.Protocol.Text.{is_utf8}

-- What is left of the file, and the bytes of the record that were read.
pub record Cursor : Type 0 where
  pub rest : Bytes
  pub consumed : ℕ

-- A value, or a `ReadError`, with the reader behind it.
pub data Read (A : Type 0) : Type 0 where
  done : A → Cursor → Read A
  unexpected_eof malformed : Cursor → Read A

abbrev pub and_then : {A B : Type 0} → Read A → (A → Cursor → Read B) → Read B
and_then (done a c) f = f a c
and_then (unexpected_eof c) f = unexpected_eof c
and_then (malformed c) f = malformed c

unfoldable pub expect_byte : Cursor → Read ℕ
expect_byte c = elim c.rest [
  | [] ↦ unexpected_eof c
  | b ∷ bs ↦ done b (record { rest = bs; consumed = c.consumed + 1 })
]

-- The allocation of `len` bytes before it, which a huge length makes fail, is left out.
unfoldable pub read_exact_tracked : ℕ → Cursor → Read Bytes
read_exact_tracked len c =
    if ltb (length c.rest) len
    then unexpected_eof (record { rest = []; consumed = c.consumed + length c.rest })
    else done (take len c.rest) (record { rest = drop len c.rest; consumed = c.consumed + len })

-- The byte behind a CR, which ends the number.
unfoldable pub read_lf : Bytes → ℕ → Read Bytes
read_lf [] consumed = unexpected_eof (record { rest = []; consumed = consumed })
read_lf (b ∷ bs) consumed =
    let c : Cursor = record { rest = bs; consumed = consumed + 1 } in
    if b == 10 then done [] c else malformed c

-- The loop over the bytes of a number.
unfoldable pub read_number : Bytes → ℕ → Read Bytes
unfolding read_lf
read_number [] consumed = unexpected_eof (record { rest = []; consumed = consumed })
read_number (b ∷ bs) consumed =
    let more = and_then (read_number bs (consumed + 1)) (λ number c. done (b ∷ number) c) in
    if b == 13 then read_lf bs (consumed + 1) else more

unfoldable pub decode_number : Bytes → Cursor → Read ℤ
decode_number number c =
    if is_utf8 number
    then (elim (parse_i64 number) [ none ↦ malformed c | some n ↦ done n c ])
    else malformed c

unfoldable pub read_integer : Cursor → Read ℤ
unfolding read_number decode_number
read_integer c = and_then (read_number c.rest c.consumed) decode_number

-- The CRLF behind a payload.
unfoldable pub read_terminator : Bytes → Cursor → Read Bytes
unfolding expect_byte
read_terminator payload c = and_then (expect_byte c) (λ cr c1. and_then (expect_byte c1) (λ lf c2.
    if cr == 13 then (if lf == 10 then done payload c2 else malformed c2) else malformed c2))

unfoldable pub read_bulk_payload : ℤ → Cursor → Read Bytes
unfolding read_exact_tracked read_terminator
read_bulk_payload (negsuc n) c = malformed c
read_bulk_payload (pos len) c = and_then (read_exact_tracked len c) read_terminator

unfoldable pub read_part : Cursor → Read Bytes
unfolding expect_byte read_integer read_bulk_payload
read_part c = and_then (expect_byte c) (λ marker c1.
    if marker == 36 then and_then (read_integer c1) read_bulk_payload else malformed c1)

unfoldable pub read_elements : ℕ → Cursor → Read (List Bytes)
unfolding read_part
read_elements zero c = done [] c
read_elements (suc n) c =
    and_then (read_part c)
      (λ part c1. and_then (read_elements n c1) (λ parts c2. done (part ∷ parts) c2))

unfoldable pub read_array : ℤ → Cursor → Read (Option (List Bytes))
unfolding read_elements
read_array (negsuc n) c = malformed c
read_array (pos n) c = and_then (read_elements n c) (λ parts c1. done (some parts) c1)

-- A clean end of the file gives `none`.
unfoldable pub read_record : Bytes → Read (Option (List Bytes))
unfolding read_integer read_array
read_record [] = done none (record { rest = []; consumed = 0 })
read_record (b ∷ bs) =
    let c : Cursor = record { rest = bs; consumed = 1 } in
    if b == 42 then and_then (read_integer c) read_array else malformed c

-- The reader at the next '*', if there is one.
unfoldable pub resync_to_next_array : Bytes → Option Bytes
resync_to_next_array [] = none
resync_to_next_array (b ∷ bs) =
    let later = resync_to_next_array bs in if b == 42 then some (b ∷ bs) else later
