-- ===== src/Protocol/Encoder.antt =====
-- protocol/encoder.rs and `ProtocolVersion` of protocol/mod.rs: each function appends to the buffer.
use ferrum_kv.Prelude.{
  ℕ, ◌==◌, Bool, Option, none, some, [], ◌∷◌, ◌++◌, Bytes, codes, length, if◌then◌else◌,
}
use ferrum_kv.Prelude.Int.{ℤ}
use ferrum_kv.Prelude.Decimal.{print_nat, print_int}
use ferrum_kv.Floats.{Floats}

pub data ProtocolVersion : Type 0 where
  resp2 resp3 : ProtocolVersion

abbrev pub crlf : Bytes
crlf = 13 ∷ 10 ∷ []

unfoldable pub encode_simple_string : Bytes → Bytes → Bytes
encode_simple_string buf text = buf ++ 43 ∷ (text ++ crlf)

unfoldable pub encode_error : Bytes → Bytes → Bytes
encode_error buf message = buf ++ 45 ∷ (message ++ crlf)

unfoldable pub encode_integer : Bytes → ℤ → Bytes
encode_integer buf n = buf ++ 58 ∷ (print_int n ++ crlf)

unfoldable pub encode_bulk_string : Bytes → Bytes → Bytes
encode_bulk_string buf payload =
    buf ++ 36 ∷ (print_nat (length payload) ++ 13 ∷ 10 ∷ (payload ++ crlf))

unfoldable pub encode_null_bulk : Bytes → Bytes
encode_null_bulk buf = buf ++ codes "$-1\r\n"

unfoldable pub encode_array_header : Bytes → ℕ → Bytes
encode_array_header buf count = buf ++ 42 ∷ (print_nat count ++ crlf)

unfoldable pub encode_null : Bytes → Bytes
encode_null buf = buf ++ codes "_\r\n"

unfoldable pub encode_boolean : Bytes → Bool → Bytes
encode_boolean buf v = buf ++ (if v then codes "#t\r\n" else codes "#f\r\n")

-- `trim_end_matches('0')`
unfoldable pub trim_zeros : Bytes → Bytes
trim_zeros [] = []
trim_zeros (b ∷ bs) = elim (trim_zeros bs) [
  | [] ↦ if b == 48 then [] else b ∷ []
  | c ∷ cs ↦ b ∷ c ∷ cs
]

abbrev pub last : Bytes → Option ℕ
last [] = none
last (b ∷ []) = some b
last (b ∷ c ∷ bs) = last (c ∷ bs)

-- The '0' behind a last '.'; the buffer's last byte is never one where no digit was written.
unfoldable pub dot_zero : Bytes → Bytes
dot_zero buf = elim (last buf) [ none ↦ buf | some b ↦ if b == 46 then buf ++ 48 ∷ [] else buf ]

unfoldable pub encode_double : (fl : Floats) → Bytes → fl.F64 → Bytes
unfolding trim_zeros dot_zero
encode_double fl buf v = dot_zero ((buf ++ 44 ∷ []) ++ trim_zeros (fl.f64_print_17 v)) ++ crlf

unfoldable pub encode_map_header : Bytes → ℕ → Bytes
encode_map_header buf count = buf ++ 37 ∷ (print_nat count ++ crlf)
