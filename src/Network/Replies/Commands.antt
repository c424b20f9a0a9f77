-- ===== src/Network/Replies/Commands.antt =====
-- Every command appends exactly one conforming value to the output.
use ferrum_kv.Prelude.{
  ℕ, suc, ◌≡◌, refl, ap, ◌∙◌, ◌==◌, Option, none, some, List, [], ◌∷◌, ◌++◌, arith, Bytes, codes,
  length, append_assoc, All-append, Bool-cases, Option-cases, inl, inr,
}
use ferrum_kv.Error.{Result, ok, err}
use ferrum_kv.Floats.{Floats}
use ferrum_kv.Protocol.Text.{is_utf8}
use ferrum_kv.Protocol.Encoder.{
  ProtocolVersion, resp2, resp3, encode_array_header, encode_map_header, encode_double, trim_zeros,
  dot_zero, last,
}
use ferrum_kv.Protocol.Reply.{double, wire, IsLine}
use ferrum_kv.Config.Text.{eq_ignore_ascii_case}
use ferrum_kv.Storage.Engine.{Host, KvEngine, SlowLogEntry}
use ferrum_kv.Network.Replies.{
  Answered, line_writes, integer-Answered, bulk-Answered, null-Answered, ferrum_error-Answered,
}
use ferrum_kv.Network.Replies.Sequences.{
  AnsweredAll, recount, nothing-AnsweredAll, next-AnsweredAll, array-Answered, map-Answered,
  bulks-AnsweredAll, pairs-AnsweredAll, pairs-Answered,
}
use ferrum_kv.Network.Respond.{
  as_i64, hello_reply, proto_num, pairs_header, hello_fields, hello_mode, write_bulks,
}
use ferrum_kv.Network.Parameters.{write_map, find_pair, parameters, config_get}
use ferrum_kv.Network.Info.{write_info}
use ferrum_kv.Network.Answers.{
  write_slowlog_entry, write_slowlog_list, encode_slowlog_entries, write_float, write_usage,
}

-- The texts of doubles are on one line.
last-append : (xs : Bytes) (b : ℕ) (bs : Bytes) → last (xs ++ b ∷ bs) ≡ last (b ∷ bs)
last-append [] b bs = refl
last-append (x ∷ []) b bs = refl
last-append (x ∷ y ∷ xs) b bs = last-append (y ∷ xs) b bs

trim_zeros-IsLine : (bs : Bytes) → IsLine bs → IsLine (trim_zeros bs)
unfolding trim_zeros
trim_zeros-IsLine [] h = tt
trim_zeros-IsLine (b ∷ bs) h = ground (arith, trim_zeros-IsLine bs h.1)

-- What stands behind the comma of a double.
double_text :
    (out text : Bytes)
    → IsLine text
    → (t : Bytes) × (dot_zero (out ++ 44 ∷ text) ≡ out ++ 44 ∷ t) × IsLine t
unfolding dot_zero
double_text out text h = elim (Option-cases (last (44 ∷ text))) [
  | inl p ↦ (text, rw (dot_zero, last-append out 44 text, p) refl, h)
  | inr (b, p) ↦ elim (Bool-cases (b == 46)) [
    | inr n ↦ (text, rw (dot_zero, last-append out 44 text, p, n) refl, h)
    | inl y ↦ (
      text ++ 48 ∷ [],
      rw (dot_zero, last-append out 44 text, p, y) (append_assoc out (44 ∷ text) (48 ∷ [])),
      All-append _ text (48 ∷ []) h ((refl, refl), tt),
    )
  ]
]

module _ (fl : Floats) (printed : (x : fl.F64) → IsLine (fl.f64_print_17 x)) where
  double-Answered : {d : ℕ} (out : Bytes) (x : fl.F64) → Answered d out (encode_double fl out x)
  unfolding encode_double wire
  double-Answered out x =
      let text = trim_zeros (fl.f64_print_17 x) in
      let (t, p, l) = double_text out text (trim_zeros-IsLine (fl.f64_print_17 x) (printed x)) in
      record {
        reply = double t;
        valid = l;
        shallow = omega arith;
        writes = λ rest.
            ap (λ y. (dot_zero y ++ 13 ∷ 10 ∷ []) ++ rest) (append_assoc out (44 ∷ []) text)
            ∙ ap (λ y. (y ++ 13 ∷ 10 ∷ []) ++ rest) p
            ∙ ap (λ y. y ++ rest) (append_assoc out (44 ∷ t) (13 ∷ 10 ∷ []))
            ∙ line_writes out t rest 44;
      }

  pub float-Answered :
      {d : ℕ} (v : ProtocolVersion) (out : Bytes) (r : Result fl.F64)
      → Answered d out (write_float fl v out r)
  unfolding write_float
  float-Answered resp2 out (ok x) = bulk-Answered out (fl.f64_print x)
  float-Answered resp3 out (ok x) = double-Answered out x
  float-Answered resp2 out (err e) = ferrum_error-Answered out e
  float-Answered resp3 out (err e) = ferrum_error-Answered out e

pub usage-Answered :
    {d : ℕ} (v : ProtocolVersion) (out : Bytes) (n : Option ℕ)
    → Answered d out (write_usage v out n)
unfolding write_usage
usage-Answered v out none = null-Answered v out
usage-Answered v out (some n) = integer-Answered out (as_i64 n)

pub info-Answered :
    {d : ℕ} (v : ProtocolVersion) (out : Bytes) (sections : List (Bytes × Bytes))
    → Answered (suc d) out (write_info v out sections)
unfolding write_info
info-Answered resp2 out sections = bulk-Answered out _
info-Answered resp3 out sections =
    map-Answered out _ (length sections)
      (pairs-AnsweredAll sections (encode_map_header out (length sections)))

pub map_reply-Answered :
    {d : ℕ} (v : ProtocolVersion) (out : Bytes) (pairs : List (Bytes × Bytes))
    → Answered (suc d) out (write_map v out pairs)
unfolding write_map
map_reply-Answered v out pairs =
    pairs-Answered v out _ (length pairs)
      (pairs-AnsweredAll pairs (pairs_header v out (length pairs)))

pub hello-Answered :
    {d : ℕ} (v : ProtocolVersion) (out : Bytes) → Answered (suc d) out (hello_reply out v)
unfolding hello_reply
hello-Answered v out = pairs-Answered v out _ 4 (
    bulks-AnsweredAll hello_fields (pairs_header v out 4) (
      next-AnsweredAll
        (integer-Answered (write_bulks (pairs_header v out 4) hello_fields) (proto_num v))
        (bulks-AnsweredAll hello_mode _ (nothing-AnsweredAll _))))

slowlog_entry-Answered :
    {d : ℕ} (addr_text : ℕ → Bytes) (out : Bytes) (e : SlowLogEntry)
    → Answered (suc (suc d)) out (write_slowlog_entry addr_text out e)
unfolding write_slowlog_entry
slowlog_entry-Answered addr_text out e = array-Answered out _ 6 (
    next-AnsweredAll (integer-Answered _ (as_i64 e.id)) (
      next-AnsweredAll (integer-Answered _ (as_i64 e.ts_secs)) (
        next-AnsweredAll (integer-Answered _ (as_i64 e.duration_us)) (
          next-AnsweredAll
            (array-Answered _ _ (length e.args)
              (recount (bulks-AnsweredAll e.args _ (nothing-AnsweredAll _)) (omega arith)))
            (next-AnsweredAll (bulk-Answered _ (addr_text e.peer))
              (next-AnsweredAll (bulk-Answered _ []) (nothing-AnsweredAll _)))))))

slowlog_list-AnsweredAll :
    {d : ℕ} (addr_text : ℕ → Bytes) (es : List SlowLogEntry) (out : Bytes)
    → AnsweredAll (suc (suc (suc d))) out (write_slowlog_list addr_text out es) (length es)
unfolding write_slowlog_list
slowlog_list-AnsweredAll addr_text [] out = nothing-AnsweredAll out
slowlog_list-AnsweredAll addr_text (e ∷ es) out =
    next-AnsweredAll (slowlog_entry-Answered addr_text out e)
      (slowlog_list-AnsweredAll addr_text es (write_slowlog_entry addr_text out e))

pub slowlog-Answered :
    {d : ℕ} (addr_text : ℕ → Bytes) (out : Bytes) (es : List SlowLogEntry)
    → Answered (suc (suc (suc d))) out (encode_slowlog_entries addr_text out es)
unfolding encode_slowlog_entries
slowlog-Answered addr_text out es =
    array-Answered out _ (length es)
      (slowlog_list-AnsweredAll addr_text es (encode_array_header out (length es)))

pub config_get-Answered :
    {h : Host} {d : ℕ} (e : KvEngine h) (pattern out : Bytes) (v : ProtocolVersion)
    → Answered (suc d) out (config_get e pattern out v)
unfolding config_get
config_get-Answered e pattern out v = elim (Bool-cases (eq_ignore_ascii_case pattern (codes "*"))) [
  | inl y ↦ rw (config_get, y) (map_reply-Answered v out (parameters e))
  | inr n ↦ elim (Bool-cases (is_utf8 pattern)) [
    | inl u ↦ rw (config_get, n, u) (map_reply-Answered v out (find_pair pattern (parameters e)))
    | inr w ↦ rw (config_get, n, w) (map_reply-Answered v out [])
  ]
]
