-- ===== src/Network/Replies.antt =====
-- What each reply of the server is as a value of the protocol.
pub mod Sequences
pub mod Commands
pub mod Settings
pub mod Dispatch
pub mod ReadBack
use ferrum_kv.Prelude.{
  ℕ, suc, ◌+◌, ◌*◌, ◌/◌, ◌≤◌, ◌≡◌, refl, ap, sym, ◌∙◌, Bool, true, false, ◌&&◌, not, ◌||◌, ◌==◌,
  Option, none, some, List, [], ◌∷◌, ◌++◌, arith, Bytes, codes, length, map, append_assoc, All,
  All-append, Bool-cases, inl, inr, if◌then◌else◌,
}
use ferrum_kv.Prelude.Int.{ℤ, pos, negsuc}
use ferrum_kv.Prelude.Decimal.{print_nat, print_int}
use ferrum_kv.Error.{FerrumError, display, out_of_memory, Result, ok, err}
use ferrum_kv.Protocol.Encoder.{
  ProtocolVersion, resp2, resp3, encode_simple_string, encode_error, encode_integer,
  encode_bulk_string, encode_null_bulk, encode_array_header, encode_null, encode_boolean,
  encode_map_header,
}
use ferrum_kv.Protocol.Reply
use ferrum_kv.Protocol.Reply.{
  Reply, Replies, simple, error, integer, bulk, null_bulk, null, boolean, array, nil, cons, count,
  wire, wire_all, IsLine, IsValid, AllValid, depth, depth_all,
}
use ferrum_kv.Network.Respond.{
  bool_int, enc_null, enc_bool, sanitise, prefix_of, write_ferrum_error, write_ok, write_int,
  write_bool_integer, write_value, write_values, write_bulks, pairs_header, write_pairs,
}

-- The output is the old one and the bytes of a value.
abbrev pub Writes : Bytes → Bytes → Reply → Type 0
Writes out out' r = (rest : Bytes) → out' ++ rest ≡ out ++ wire r rest

abbrev pub WritesAll : Bytes → Bytes → Replies → Type 0
WritesAll out out' rs = (rest : Bytes) → out' ++ rest ≡ out ++ wire_all rs rest

-- Exactly one conforming value, no deeper than `d`, was appended to the output.
pub record Answered (d : ℕ) (out out' : Bytes) : Type 0 where
  pub reply : Reply
  pub valid : IsValid reply
  pub shallow : depth reply ≤ d
  pub writes : Writes out out' reply

abbrev pub one_line : Bytes → Bool
one_line [] = true
one_line (b ∷ bs) = not (b == 13) && (not (b == 10) && one_line bs)

pub one_line-IsLine : (text : Bytes) → one_line text ≡ true → IsLine text
one_line-IsLine [] h = tt
one_line-IsLine (b ∷ bs) h =
    ((ground (arith, h), ground (arith, h)), one_line-IsLine bs (ground (arith, h)))

pub IsLine-append : (a b : Bytes) → IsLine a → IsLine b → IsLine (a ++ b)
IsLine-append a b h k = All-append (λ c. ((c == 13) ≡ false) × ((c == 10) ≡ false)) a b h k

-- A line of text with a mark.
pub line_writes :
    (out text rest : Bytes) (mark : ℕ)
    → (out ++ mark ∷ (text ++ 13 ∷ 10 ∷ [])) ++ rest ≡ out ++ mark ∷ (text ++ 13 ∷ 10 ∷ rest)
line_writes out text rest mark =
    append_assoc out (mark ∷ (text ++ 13 ∷ 10 ∷ [])) rest
    ∙ ap (λ x. out ++ mark ∷ x) (append_assoc text (13 ∷ 10 ∷ []) rest)

pub simple-Answered :
    {d : ℕ} (out text : Bytes) → IsLine text → Answered d out (encode_simple_string out text)
unfolding encode_simple_string wire
simple-Answered out text h = record {
  reply = simple text;
  valid = h;
  shallow = omega arith;
  writes = λ rest. line_writes out text rest 43;
}

pub error-Answered :
    {d : ℕ} (out text : Bytes) → IsLine text → Answered d out (encode_error out text)
unfolding encode_error wire
error-Answered out text h = record {
  reply = error text;
  valid = h;
  shallow = omega arith;
  writes = λ rest. line_writes out text rest 45;
}

integer-Writes : (out : Bytes) (n : ℤ) → Writes out (encode_integer out n) (integer n)
unfolding encode_integer wire
integer-Writes out n rest = line_writes out (print_int n) rest 58

pub bulk-Writes : (out payload : Bytes) → Writes out (encode_bulk_string out payload) (bulk payload)
unfolding encode_bulk_string wire
bulk-Writes out payload rest =
    append_assoc out _ rest
    ∙ ap (λ x. out ++ 36 ∷ x)
        (append_assoc (print_nat (length payload)) (13 ∷ 10 ∷ (payload ++ 13 ∷ 10 ∷ [])) rest
          ∙ ap (λ x. print_nat (length payload) ++ 13 ∷ 10 ∷ x)
              (append_assoc payload (13 ∷ 10 ∷ []) rest))

pub integer-Answered : {d : ℕ} (out : Bytes) (n : ℤ) → Answered d out (encode_integer out n)
integer-Answered out n = record {
  reply = integer n;
  valid = tt;
  shallow = omega arith;
  writes = integer-Writes out n;
}

pub bulk-Answered : {d : ℕ} (out payload : Bytes) → Answered d out (encode_bulk_string out payload)
bulk-Answered out payload = record {
  reply = bulk payload;
  valid = tt;
  shallow = omega arith;
  writes = bulk-Writes out payload;
}

abbrev pub null_of : ProtocolVersion → Reply
null_of resp2 = null_bulk
null_of resp3 = null

pub null-Writes : (v : ProtocolVersion) (out : Bytes) → Writes out (enc_null v out) (null_of v)
unfolding enc_null encode_null_bulk encode_null wire
null-Writes resp2 out rest = append_assoc out _ rest
null-Writes resp3 out rest = append_assoc out _ rest

pub null-IsValid : (v : ProtocolVersion) → IsValid (null_of v) × (depth (null_of v) ≡ 0)
null-IsValid resp2 = (tt, refl)
null-IsValid resp3 = (tt, refl)

pub null-Answered : {d : ℕ} (v : ProtocolVersion) (out : Bytes) → Answered d out (enc_null v out)
null-Answered v out = record {
  reply = null_of v;
  valid = (null-IsValid v).0;
  shallow = omega (arith, (null-IsValid v).1);
  writes = null-Writes v out;
}

pub bool-Answered :
    {d : ℕ} (v : ProtocolVersion) (out : Bytes) (b : Bool) → Answered d out (enc_bool v out b)
unfolding enc_bool encode_boolean wire
bool-Answered resp2 out b = integer-Answered out (bool_int b)
bool-Answered resp3 out true = record {
  reply = boolean true;
  valid = tt;
  shallow = omega arith;
  writes = λ rest. append_assoc out (codes "#t\r\n") rest;
}
bool-Answered resp3 out false = record {
  reply = boolean false;
  valid = tt;
  shallow = omega arith;
  writes = λ rest. append_assoc out (codes "#f\r\n") rest;
}

sanitise-IsLine : (bs : Bytes) → IsLine (sanitise bs)
unfolding sanitise
sanitise-IsLine [] = tt
sanitise-IsLine (b ∷ bs) = ((ground arith, ground arith), sanitise-IsLine bs)

prefix-IsLine : (e : FerrumError) → IsLine (prefix_of e)
prefix-IsLine out_of_memory = one_line-IsLine (codes "OOM") refl
prefix-IsLine e = ((refl, refl), ((refl, refl), ((refl, refl), tt)))

pub ferrum_error-Answered :
    {d : ℕ} (out : Bytes) (e : FerrumError) → Answered d out (write_ferrum_error out e)
unfolding write_ferrum_error
ferrum_error-Answered out e = error-Answered out (prefix_of e ++ 32 ∷ sanitise (display e)) (
    All-append _ (prefix_of e) (32 ∷ sanitise (display e)) (prefix-IsLine e)
      ((refl, refl), sanitise-IsLine (display e)))

pub ok-Answered :
    {A : Type 0} {d : ℕ} (out : Bytes) (r : Result A) → Answered d out (write_ok out r)
unfolding write_ok
ok-Answered out (ok a) = simple-Answered out (codes "OK") (one_line-IsLine (codes "OK") refl)
ok-Answered out (err e) = ferrum_error-Answered out e

pub int-Answered : {d : ℕ} (out : Bytes) (r : Result ℤ) → Answered d out (write_int out r)
unfolding write_int
int-Answered out (ok n) = integer-Answered out n
int-Answered out (err e) = ferrum_error-Answered out e

pub bool_integer-Answered :
    {d : ℕ} (out : Bytes) (r : Result Bool) (v : ProtocolVersion)
    → Answered d out (write_bool_integer out r v)
unfolding write_bool_integer
bool_integer-Answered out (ok b) v = bool-Answered v out b
bool_integer-Answered out (err e) v = ferrum_error-Answered out e

pub value-Answered :
    {d : ℕ} (v : ProtocolVersion) (out : Bytes) (o : Option Bytes)
    → Answered d out (write_value v out o)
unfolding write_value
value-Answered v out none = null-Answered v out
value-Answered v out (some x) = bulk-Answered out x
