-- ===== src/Network/Respond.antt =====
-- The replies of network/server.rs that several commands share.
use ferrum_kv.Prelude.{
  ℕ, ◌+◌, ◌-◌, ◌%◌, ◌^◌, Bool, true, false, ◌||◌, ltb, ◌==◌, Option, none, some, List, [], ◌∷◌,
  ◌++◌, Bytes, codes, map, if◌then◌else◌,
}
use ferrum_kv.Prelude.Int.{ℤ, pos, negsuc}
use ferrum_kv.Error.{FerrumError, out_of_memory, display, Result, ok, err}
use ferrum_kv.Protocol.Encoder.{
  ProtocolVersion, resp2, resp3, encode_simple_string, encode_error, encode_integer,
  encode_bulk_string, encode_null_bulk, encode_array_header, encode_null, encode_boolean,
  encode_map_header,
}

-- `as i64` of a u64 or a usize.
unfoldable pub as_i64 : ℕ → ℤ
as_i64 n = let m = n % 2 ^ 64 in if ltb m (2 ^ 63) then pos m else negsuc (2 ^ 64 - 1 - m)

abbrev pub bool_int : Bool → ℤ
bool_int true = pos 1
bool_int false = pos 0

unfoldable pub enc_null : ProtocolVersion → Bytes → Bytes
unfolding encode_null_bulk encode_null
enc_null resp2 out = encode_null_bulk out
enc_null resp3 out = encode_null out

unfoldable pub enc_bool : ProtocolVersion → Bytes → Bool → Bytes
unfolding encode_integer encode_boolean
enc_bool resp2 out v = encode_integer out (bool_int v)
enc_bool resp3 out v = encode_boolean out v

-- A CR or an LF of a message becomes a space.
unfoldable pub sanitise : Bytes → Bytes
sanitise bs = map (λ b. if b == 13 || b == 10 then 32 else b) bs

abbrev pub prefix_of : FerrumError → Bytes
prefix_of out_of_memory = codes "OOM"
prefix_of _ = codes "ERR"

unfoldable pub write_ferrum_error : Bytes → FerrumError → Bytes
unfolding display sanitise encode_error
write_ferrum_error out e = encode_error out (prefix_of e ++ 32 ∷ sanitise (display e))

-- `+OK`, or the error.
unfoldable pub write_ok : {A : Type 0} → Bytes → Result A → Bytes
unfolding encode_simple_string write_ferrum_error
write_ok out (ok _) = encode_simple_string out (codes "OK")
write_ok out (err e) = write_ferrum_error out e

unfoldable pub write_int : Bytes → Result ℤ → Bytes
unfolding encode_integer write_ferrum_error
write_int out (ok n) = encode_integer out n
write_int out (err e) = write_ferrum_error out e

-- `write_bool_integer`
unfoldable pub write_bool_integer : Bytes → Result Bool → ProtocolVersion → Bytes
unfolding enc_bool write_ferrum_error
write_bool_integer out (ok v) version = enc_bool version out v
write_bool_integer out (err e) version = write_ferrum_error out e

-- A value, or null where there is none.
unfoldable pub write_value : ProtocolVersion → Bytes → Option Bytes → Bytes
unfolding enc_null encode_bulk_string
write_value version out none = enc_null version out
write_value version out (some v) = encode_bulk_string out v

unfoldable pub write_values : ProtocolVersion → Bytes → List (Option Bytes) → Bytes
unfolding write_value
write_values version out [] = out
write_values version out (v ∷ vs) = write_values version (write_value version out v) vs

unfoldable pub write_bulks : Bytes → List Bytes → Bytes
unfolding encode_bulk_string
write_bulks out [] = out
write_bulks out (b ∷ bs) = write_bulks (encode_bulk_string out b) bs

-- The header of `pairs` keys and values: an array of twice as many, or a map.
unfoldable pub pairs_header : ProtocolVersion → Bytes → ℕ → Bytes
unfolding encode_array_header encode_map_header
pairs_header resp2 out pairs = encode_array_header out (pairs + pairs)
pairs_header resp3 out pairs = encode_map_header out pairs

unfoldable pub write_pairs : Bytes → List (Bytes × Bytes) → Bytes
unfolding encode_bulk_string
write_pairs out [] = out
write_pairs out ((name, value) ∷ pairs) =
    write_pairs (encode_bulk_string (encode_bulk_string out name) value) pairs

abbrev pub proto_num : ProtocolVersion → ℤ
proto_num resp2 = pos 2
proto_num resp3 = pos 3

-- The fields of the reply to HELLO before and behind the version of the protocol.
abbrev pub hello_fields : List Bytes
hello_fields =
    codes "server" ∷ codes "ferrum" ∷ codes "version" ∷ codes "0.6.0" ∷ codes "proto" ∷ []

abbrev pub hello_mode : List Bytes
hello_mode = codes "mode" ∷ codes "standalone" ∷ []

unfoldable pub hello_reply : Bytes → ProtocolVersion → Bytes
unfolding pairs_header write_bulks encode_integer
hello_reply out version =
    write_bulks
      (encode_integer (write_bulks (pairs_header version out 4) hello_fields) (proto_num version))
      hello_mode
