-- ===== src/Network/Replies/Settings.antt =====
-- The replies to CONFIG SET.
use ferrum_kv.Prelude.{
  ℕ, ◌^◌, ◌*◌, ◌≡◌, refl, true, ltb, Option, none, some, [], ◌∷◌, ◌++◌, arith, Bytes, codes,
  bytes_eq, Bool-cases, Option-cases, inl, inr,
}
use ferrum_kv.Prelude.Decimal.{parse_i64}
use ferrum_kv.Protocol.Text.{is_utf8}
use ferrum_kv.Protocol.Reply.{IsLine}
use ferrum_kv.Config.Text.{trim, ascii_lowercase, parse_unsigned}
use ferrum_kv.Config.File.{
  Parsed, parsed, refused, parse_bytes, find_suffix, suffixes, quoted, scale, invalid,
}
use ferrum_kv.Storage.Policy.{EvictionConfig, from_name}
use ferrum_kv.Storage.Engine.{Host, KvEngine}
use ferrum_kv.Network.Replies.{
  Answered, IsLine-append, one_line, one_line-IsLine, simple-Answered, error-Answered,
}
use ferrum_kv.Network.Parameters.{
  refusal, with_max_memory, install, new_max_memory, new_policy, new_samples, set_threshold,
  set_max_len, set_named, config_set,
}

-- Messages that tell a text of one line are on one line.
pub ascii_lowercase-IsLine : (bs : Bytes) → IsLine bs → IsLine (ascii_lowercase bs)
unfolding ascii_lowercase
ascii_lowercase-IsLine [] h = tt
ascii_lowercase-IsLine (b ∷ bs) h =
    ((ground (arith, h.0.0), ground (arith, h.0.1)), ascii_lowercase-IsLine bs h.1)

pub quoting :
    (before text behind : Bytes)
    → one_line before ≡ true
    → IsLine text
    → one_line behind ≡ true
    → IsLine (before ++ (text ++ behind))
quoting before text behind a h b =
    IsLine-append before (text ++ behind) (one_line-IsLine before a)
      (IsLine-append text behind h (one_line-IsLine behind b))

-- A refusal's message is on one line.
abbrev pub OneLine : {A : Type 0} → Parsed A → Type 0
OneLine (parsed a) = Unit {0}
OneLine (refused m) = IsLine m

invalid-IsLine :
    (raw why : Bytes)
    → IsLine raw
    → one_line why ≡ true
    → IsLine (invalid (codes "maxmemory") raw why)
unfolding invalid
invalid-IsLine raw why h w =
    IsLine-append (codes "invalid maxmemory: ") (quoted raw ++ why)
      (one_line-IsLine (codes "invalid maxmemory: ") refl)
      (IsLine-append (quoted raw) why (quoting (codes "'") raw (codes "'") refl h refl)
        (one_line-IsLine why w))

scale-OneLine :
    (raw : Bytes) (n : Option ℕ) (factor : ℕ)
    → IsLine raw
    → OneLine (scale raw (codes "maxmemory") n factor)
unfolding scale
scale-OneLine raw none factor h = invalid-IsLine raw (codes " is not a byte size") h refl
scale-OneLine raw (some n) factor h = elim (Bool-cases (ltb (n * factor) (2 ^ 64))) [
  | inl y ↦ rw (scale, y) tt
  | inr w ↦ rw (scale, w) (invalid-IsLine raw (codes " overflows u64") h refl)
]

with_max_memory-OneLine :
    (cfg : EvictionConfig) (p : Parsed ℕ) → OneLine p → OneLine (with_max_memory cfg p)
with_max_memory-OneLine cfg (parsed n) h = tt
with_max_memory-OneLine cfg (refused m) h =
    IsLine-append (codes "ERR ") m (one_line-IsLine (codes "ERR ") refl) h

pub new_max_memory-OneLine :
    (cfg : EvictionConfig) (value : Bytes) → IsLine value → OneLine (new_max_memory cfg value)
unfolding new_max_memory parse_bytes
new_max_memory-OneLine cfg value h =
    with_max_memory-OneLine cfg (parse_bytes value (codes "maxmemory")) (
      let (num, factor) = find_suffix suffixes (ascii_lowercase (trim value)) in
      scale-OneLine value (parse_unsigned 64 (trim num)) factor h)

pub new_policy-OneLine :
    (cfg : EvictionConfig) (value : Bytes) → IsLine value → OneLine (new_policy cfg value)
unfolding new_policy
new_policy-OneLine cfg value h = elim (Option-cases (from_name (ascii_lowercase value))) [
  | inl p ↦ rw (new_policy, p) (quoting (codes "ERR Invalid argument '") value _ refl h refl)
  | inr (x, p) ↦ rw (new_policy, p) tt
]

pub new_samples-OneLine : (cfg : EvictionConfig) (value : Bytes) → OneLine (new_samples cfg value)
unfolding new_samples
new_samples-OneLine cfg value = elim (Option-cases (parse_unsigned 64 (trim value))) [
  | inl p ↦
      rw (new_samples, p)
        (one_line-IsLine (refusal (codes "maxmemory-samples") (codes "not an integer")) refl)
  | inr (x, p) ↦ elim (Bool-cases (ltb 0 x)) [
    | inl y ↦ rw (new_samples, p, y) tt
    | inr n ↦
        rw (new_samples, p, n)
          (one_line-IsLine (refusal (codes "maxmemory-samples") (codes "must be > 0")) refl)
  ]
]

-- The reply to a change of a parameter.
module _ {h : Host} where
  install-Answered :
      {d : ℕ} (e : KvEngine h) (out : Bytes) (p : Parsed EvictionConfig)
      → OneLine p
      → Answered d out (install e out p).1
  unfolding install
  install-Answered e out (parsed cfg) l =
      simple-Answered out (codes "OK") (one_line-IsLine (codes "OK") refl)
  install-Answered e out (refused m) l = error-Answered out m l

  threshold-Answered :
      {d : ℕ} (e : KvEngine h) (value out : Bytes) → Answered d out (set_threshold e value out).1
  unfolding set_threshold
  threshold-Answered e value out = elim (Option-cases (parse_i64 (trim value))) [
    | inl p ↦
        rw (set_threshold, p)
          (error-Answered out (refusal (codes "slowlog-log-slower-than") (codes "not an integer")) (
            one_line-IsLine (refusal (codes "slowlog-log-slower-than") (codes "not an integer"))
              refl))
    | inr (x, p) ↦
        rw (set_threshold, p) (simple-Answered out (codes "OK") (one_line-IsLine (codes "OK") refl))
  ]

  max_len-Answered :
      {d : ℕ} (e : KvEngine h) (value out : Bytes) → Answered d out (set_max_len e value out).1
  unfolding set_max_len
  max_len-Answered e value out = elim (Option-cases (parse_unsigned 64 (trim value))) [
    | inl p ↦
        rw (set_max_len, p)
          (error-Answered out (refusal (codes "slowlog-max-len") (codes "not an integer"))
            (one_line-IsLine (refusal (codes "slowlog-max-len") (codes "not an integer")) refl))
    | inr (x, p) ↦ elim (Bool-cases (ltb 0 x)) [
      | inl y ↦
          rw (set_max_len, p, y)
            (simple-Answered out (codes "OK") (one_line-IsLine (codes "OK") refl))
      | inr n ↦
          rw (set_max_len, p, n)
            (error-Answered out (refusal (codes "slowlog-max-len") (codes "must be > 0"))
              (one_line-IsLine (refusal (codes "slowlog-max-len") (codes "must be > 0")) refl))
    ]
  ]

  set_named-Answered :
      {d : ℕ} (e : KvEngine h) (name value out : Bytes)
      → IsLine name
      → IsLine value
      → Answered d out (set_named e name value out).1
  unfolding set_named
  set_named-Answered e name value out n l =
      let done = simple-Answered out (codes "OK") (one_line-IsLine (codes "OK") refl) in
      elim (Bool-cases (bytes_eq name (codes "requirepass"))) [
        | inl y ↦ rw (set_named, y) done
        | inr a ↦ elim (Bool-cases (bytes_eq name (codes "maxmemory"))) [
          | inl y ↦
              rw (set_named, a, y)
                (install-Answered e out _ (new_max_memory-OneLine e.eviction value l))
          | inr b ↦ elim (Bool-cases (bytes_eq name (codes "maxmemory-policy"))) [
            | inl y ↦
                rw (set_named, a, b, y)
                  (install-Answered e out _ (new_policy-OneLine e.eviction value l))
            | inr c ↦ elim (Bool-cases (bytes_eq name (codes "maxmemory-samples"))) [
              | inl y ↦
                  rw (set_named, a, b, c, y)
                    (install-Answered e out _ (new_samples-OneLine e.eviction value))
              | inr d ↦ elim (Bool-cases (bytes_eq name (codes "slowlog-log-slower-than"))) [
                | inl y ↦ rw (set_named, a, b, c, d, y) (threshold-Answered e value out)
                | inr f ↦ elim (Bool-cases (bytes_eq name (codes "slowlog-max-len"))) [
                  | inl y ↦ rw (set_named, a, b, c, d, f, y) (max_len-Answered e value out)
                  | inr g ↦
                      rw (set_named, a, b, c, d, f, g)
                        (error-Answered out (codes "ERR Unknown parameter '" ++ (name ++ codes "'"))
                          (quoting (codes "ERR Unknown parameter '") name (codes "'") refl n refl))
                ]
              ]
            ]
          ]
        ]
      ]

  -- One line or not, a parameter and a value of one line get one reply.
  pub config_set-Answered :
      {d : ℕ} (e : KvEngine h) (param value out : Bytes)
      → IsLine param
      → IsLine value
      → Answered d out (config_set e param value out).1
  unfolding config_set
  config_set-Answered e param value out p l = elim (Bool-cases (is_utf8 param)) [
    | inl y ↦ elim (Bool-cases (is_utf8 value)) [
      | inl z ↦
          rw (config_set, y, z)
            (set_named-Answered e (ascii_lowercase param) value out (ascii_lowercase-IsLine param p)
              l)
      | inr n ↦
          rw (config_set, y, n)
            (error-Answered out (codes "ERR Invalid argument (non-UTF8 value)")
              (one_line-IsLine (codes "ERR Invalid argument (non-UTF8 value)") refl))
    ]
    | inr n ↦
        rw (config_set, n)
          (error-Answered out (codes "ERR Unknown parameter (non-UTF8 parameter name)")
            (one_line-IsLine (codes "ERR Unknown parameter (non-UTF8 parameter name)") refl))
  ]
