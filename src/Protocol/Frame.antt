-- ===== src/Protocol/Frame.antt =====
-- `encode_command` of persistence/resp.rs and the frame parser of protocol/parser.rs. The parser's
-- buffer and cursor are here the suffix of the buffer that starts at the cursor.
use ferrum_kv.Prelude.{
  ℕ, zero, suc, ◌+◌, ◌-◌, Bool, false, ◌&&◌, ltb, ◌==◌, Option, none, some, List, [], ◌∷◌, ◌++◌,
  Bytes, codes, length, take, drop, bytes_eq, if◌then◌else◌,
}
use ferrum_kv.Prelude.Int.{ℤ, pos, negsuc}
use ferrum_kv.Prelude.Decimal.{print_nat, print_int, parse_i64}
use ferrum_kv.Error.{FerrumError, parse_error, Result, ok, err}
use ferrum_kv.Floats.{Floats}
use ferrum_kv.Protocol.Text.{Rendering, is_utf8}
use ferrum_kv.Protocol.Command.{Command}
use ferrum_kv.Protocol.Build.{build_command}

-- 1 << 20 elements, and 512 MiB.
abbrev pub max_array_elements : ℕ
max_array_elements = 1_048_576

abbrev pub max_bulk_len : ℕ
max_bulk_len = 536_870_912

unfoldable pub encode_parts : List Bytes → Bytes
encode_parts [] = []
encode_parts (part ∷ parts) =
    36 ∷ (print_nat (length part) ++ 13 ∷ 10 ∷ (part ++ 13 ∷ 10 ∷ encode_parts parts))

unfoldable pub encode_command : List Bytes → Bytes
unfolding encode_parts
encode_command parts = 42 ∷ (print_nat (length parts) ++ 13 ∷ 10 ∷ encode_parts parts)

abbrev pub starts_lf : Bytes → Bool
starts_lf [] = false
starts_lf (b ∷ bs) = b == 10

-- `find_crlf`: what stands before the next CRLF, and what behind it.
unfoldable pub split_crlf : Bytes → Option (Bytes × Bytes)
split_crlf [] = none
split_crlf (b ∷ bs) =
    let later : Option (Bytes × Bytes) = elim (split_crlf bs) [
      | none ↦ none
      | some (line, rest) ↦ some (b ∷ line, rest)
    ] in
    if b == 13 && starts_lf bs then some ([], drop 1 bs) else later

module _ (r : Rendering) where
  -- An incomplete input gives `none`.
  unfoldable pub read_integer_line : Bytes → Result (Option (ℤ × Bytes))
  unfolding split_crlf is_utf8
  read_integer_line buf = elim (split_crlf buf) [
    | none ↦ ok none
    | some (line, rest) ↦
        if is_utf8 line
        then (elim (parse_i64 line) [
          | none ↦ err (parse_error (codes "invalid integer: " ++ r.debug_text line))
          | some value ↦ ok (some (value, rest))
        ])
        else err (parse_error (codes "non-ASCII length prefix"))
  ]

  -- The payload of `len` bytes and its CRLF.
  unfoldable pub read_payload : ℕ → Bytes → Result (Option (Bytes × Bytes))
  read_payload len buf =
      if ltb (length buf) (len + 2)
      then ok none
      else if bytes_eq (take 2 (drop len buf)) (13 ∷ 10 ∷ [])
      then ok (some (take len buf, drop 2 (drop len buf)))
      else err (parse_error (codes "bulk string not terminated by CRLF"))

  -- A length as it was read.
  unfoldable pub read_sized : ℤ → Bytes → Result (Option (Bytes × Bytes))
  unfolding read_payload
  read_sized (negsuc n) buf =
      err (parse_error (codes "null bulk string is not allowed in requests"))
  read_sized (pos len) buf =
      if ltb max_bulk_len len
      then err (parse_error (codes "bulk string too large (" ++ print_nat len ++ codes " bytes)"))
      else read_payload len buf

  unfoldable pub read_bulk_string : Bytes → Result (Option (Bytes × Bytes))
  unfolding read_integer_line read_sized
  read_bulk_string [] = ok none
  read_bulk_string (b ∷ buf) =
      if b == 36
      then (elim (read_integer_line buf) [
        | err x ↦ err x
        | ok none ↦ ok none
        | ok (some (len, rest)) ↦ read_sized len rest
      ])
      else err (parse_error (codes "expected '$' at start of bulk string, got " ++ r.debug_char b))

  -- The loop over the elements of the array.
  unfoldable pub read_parts : ℕ → Bytes → Result (Option (List Bytes × Bytes))
  unfolding read_bulk_string
  read_parts zero buf = ok (some ([], buf))
  read_parts (suc count) buf = elim (read_bulk_string buf) [
    | err x ↦ err x
    | ok none ↦ ok none
    | ok (some (part, rest)) ↦ elim (read_parts count rest) [
      | err x ↦ err x
      | ok none ↦ ok none
      | ok (some (parts, end)) ↦ ok (some (part ∷ parts, end))
    ]
  ]

  -- The header `*<count>\r\n`: the count and what follows it.
  unfoldable pub read_count : Bytes → Result (Option (ℕ × Bytes))
  unfolding read_integer_line
  read_count [] = ok none
  read_count (b ∷ buf) =
      if b == 42
      then (elim (read_integer_line buf) [
        | err x ↦ err x
        | ok none ↦ ok none
        | ok (some (negsuc n, rest)) ↦ err (
            parse_error
              (codes "RESP array must contain at least one element, got " ++ print_int (negsuc n)))
        | ok (some (pos count, rest)) ↦
            if count == 0
            then err (parse_error (codes "RESP array must contain at least one element, got 0"))
            else if ltb max_array_elements count
            then err (
                parse_error (
                  codes "RESP array too large ("
                  ++ print_nat count
                  ++ codes " elements, max 1048576)"))
            else ok (some (count, rest))
      ])
      else err (parse_error (codes "expected '*' at start of RESP array, got " ++ r.debug_char b))

  -- The argument vector of a frame, with the bytes behind it.
  unfoldable pub read_frame : Bytes → Result (Option (List Bytes × Bytes))
  unfolding read_count read_parts
  read_frame buf = elim (read_count buf) [
    | err x ↦ err x
    | ok none ↦ ok none
    | ok (some (count, rest)) ↦ read_parts count rest
  ]

pub data FrameParse (fl : Floats) : Type 0 where
  complete : Command fl → ℕ → FrameParse fl
  invalid : FerrumError → ℕ → FrameParse fl
  incomplete : FrameParse fl

module _ {fl : Floats} where
  -- A frame has at least one element, its name.
  unfoldable pub finish_frame : Rendering → ℕ → List Bytes → FrameParse fl
  unfolding build_command
  finish_frame r consumed [] = incomplete
  finish_frame r consumed (name ∷ as') = elim (build_command r name as') [
    | err x ↦ invalid x consumed
    | ok c ↦ complete c consumed
  ]

  unfoldable pub parse_frame : Rendering → Bytes → Result (FrameParse fl)
  unfolding read_frame finish_frame
  parse_frame r buf = elim (read_frame r buf) [
    | err x ↦ err x
    | ok none ↦ ok incomplete
    | ok (some (parts, rest)) ↦ ok (finish_frame r (length buf - length rest) parts)
  ]
