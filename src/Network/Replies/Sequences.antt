-- ===== src/Network/Replies/Sequences.antt =====
-- The sequences of values that arrays and maps hold.
use ferrum_kv.Prelude.{
  ℕ, suc, ◌+◌, ◌/◌, ◌≤◌, ◌≡◌, refl, ap, sym, ◌∙◌, Option, List, [], ◌∷◌, ◌++◌, arith, Bytes, length,
}
use ferrum_kv.Prelude.Decimal.{print_nat}
use ferrum_kv.Protocol.Encoder.{
  ProtocolVersion, resp2, resp3, encode_bulk_string, encode_array_header, encode_map_header,
}
use ferrum_kv.Protocol.Reply.{
  Reply, Replies, array, nil, cons, count, wire, wire_all, AllValid, depth_all,
}
use ferrum_kv.Network.Respond.{write_value, write_values, write_bulks, pairs_header, write_pairs}
use ferrum_kv.Network.Replies.{WritesAll, Answered, line_writes, bulk-Answered, value-Answered}

-- A sequence of values that was appended.
pub record AnsweredAll (d : ℕ) (out out' : Bytes) (n : ℕ) : Type 0 where
  pub replies : Replies
  pub counted : count replies ≡ n
  pub valid : AllValid replies
  pub shallow : depth_all replies ≤ d
  pub writes : WritesAll out out' replies

pub nothing-AnsweredAll : {d : ℕ} (out : Bytes) → AnsweredAll d out out 0
unfolding wire_all
nothing-AnsweredAll out = record {
  replies = nil;
  counted = refl;
  valid = tt;
  shallow = omega arith;
  writes = λ rest. refl;
}

pub next-AnsweredAll :
    {d : ℕ} {out mid out' : Bytes} {n : ℕ}
    → Answered d out mid
    → AnsweredAll (suc d) mid out' n
    → AnsweredAll (suc d) out out' (suc n)
unfolding wire_all
next-AnsweredAll a b = record {
  replies = cons a.reply b.replies;
  counted = ap suc b.counted;
  valid = (a.valid, b.valid);
  shallow = omega (arith, a.shallow, b.shallow);
  writes = λ rest. b.writes rest ∙ a.writes (wire_all b.replies rest);
}

pub recount :
    {d n m : ℕ} {out out' : Bytes} → AnsweredAll d out out' n → n ≡ m → AnsweredAll d out out' m
recount a e = record {
  replies = a.replies;
  counted = a.counted ∙ e;
  valid = a.valid;
  shallow = a.shallow;
  writes = a.writes;
}

header_writes :
    (out out' rest : Bytes) (mark n : ℕ) (rs : Replies)
    → WritesAll (out ++ mark ∷ (print_nat n ++ 13 ∷ 10 ∷ [])) out' rs
    → out' ++ rest ≡ out ++ mark ∷ (print_nat n ++ 13 ∷ 10 ∷ wire_all rs rest)
header_writes out out' rest mark n rs w =
    w rest ∙ line_writes out (print_nat n) (wire_all rs rest) mark

pub array-Answered :
    {d : ℕ} (out out' : Bytes) (n : ℕ)
    → AnsweredAll d (encode_array_header out n) out' n
    → Answered d out out'
unfolding encode_array_header wire
array-Answered out out' n a = record {
  reply = array a.replies;
  valid = a.valid;
  shallow = a.shallow;
  writes = λ rest.
      header_writes out out' rest 42 n a.replies a.writes
      ∙ ap (λ k. out ++ 42 ∷ (print_nat k ++ 13 ∷ 10 ∷ wire_all a.replies rest)) (sym a.counted);
}

pub map-Answered :
    {d : ℕ} (out out' : Bytes) (n : ℕ)
    → AnsweredAll d (encode_map_header out n) out' (n + n)
    → Answered d out out'
unfolding encode_map_header wire
map-Answered out out' n a =
    let half : n ≡ count a.replies / 2 = omega (arith, a.counted) in
    record {
      reply = Reply.map a.replies;
      valid = (omega (arith, a.counted), a.valid);
      shallow = a.shallow;
      writes = λ rest.
          header_writes out out' rest 37 n a.replies a.writes
          ∙ ap (λ k. out ++ 37 ∷ (print_nat k ++ 13 ∷ 10 ∷ wire_all a.replies rest)) half;
    }

pub values-AnsweredAll :
    {d : ℕ} (v : ProtocolVersion) (os : List (Option Bytes)) (out : Bytes)
    → AnsweredAll (suc d) out (write_values v out os) (length os)
unfolding write_values
values-AnsweredAll v [] out = nothing-AnsweredAll out
values-AnsweredAll v (o ∷ os) out =
    next-AnsweredAll (value-Answered v out o) (values-AnsweredAll v os (write_value v out o))

-- Bulk strings, and what follows them.
pub bulks-AnsweredAll :
    {d : ℕ} {out' : Bytes} {n : ℕ} (bs : List Bytes) (out : Bytes)
    → AnsweredAll (suc d) (write_bulks out bs) out' n
    → AnsweredAll (suc d) out out' (length bs + n)
unfolding write_bulks
bulks-AnsweredAll {n = n} [] out a = recount a (omega arith)
bulks-AnsweredAll {n = n} (b ∷ bs) out a =
    let more = bulks-AnsweredAll bs (encode_bulk_string out b) a in
    recount (next-AnsweredAll (bulk-Answered out b) more) (omega arith)

pub pairs-AnsweredAll :
    {d : ℕ} (pairs : List (Bytes × Bytes)) (out : Bytes)
    → AnsweredAll (suc d) out (write_pairs out pairs) (length pairs + length pairs)
unfolding write_pairs
pairs-AnsweredAll [] out = nothing-AnsweredAll out
pairs-AnsweredAll ((name, value) ∷ pairs) out =
    let named = encode_bulk_string out name in
    recount
      (next-AnsweredAll (bulk-Answered out name) (
        next-AnsweredAll (bulk-Answered named value)
          (pairs-AnsweredAll pairs (encode_bulk_string named value))))
      (omega arith)

-- A header of pairs and the pairs.
pub pairs-Answered :
    {d : ℕ} (v : ProtocolVersion) (out out' : Bytes) (n : ℕ)
    → AnsweredAll d (pairs_header v out n) out' (n + n)
    → Answered d out out'
unfolding pairs_header
pairs-Answered resp2 out out' n a = array-Answered out out' (n + n) a
pairs-Answered resp3 out out' n a = map-Answered out out' n a
