-- ===== src/Network/Parameters/Refusals.antt =====
-- A CONFIG SET stores the value in one setting, or it has changed nothing.
use ferrum_kv.Prelude.{
  ℕ, ◌≡◌, refl, subst, inl, inr, false, ◌==◌, some, [], ◌∷◌, ◌++◌, arith, Bytes, codes, bytes_eq,
  length, ltb, Bool-cases, Option-cases,
}
use ferrum_kv.Prelude.Decimal.{parse_i64}
use ferrum_kv.Protocol.Text.{is_utf8}
use ferrum_kv.Protocol.Encoder.{encode_simple_string}
use ferrum_kv.Config.Text.{trim, ascii_lowercase, parse_unsigned}
use ferrum_kv.Config.File.{Parsed, parsed, refused, parse_bytes}
use ferrum_kv.Storage.Policy.{from_name}
use ferrum_kv.Storage.Engine.{Host, KvEngine}
use ferrum_kv.Storage.Engine.Settings.{set_requirepass}
use ferrum_kv.Network.Parameters.{
  refusal, with_max_memory, new_max_memory, new_policy, new_samples, install, set_threshold,
  set_max_len, set_named, config_set,
}
use ferrum_kv.Network.Replies.Settings.{OneLine, new_max_memory-OneLine}
use ferrum_kv.Network.Parameters.Stores.{
  max_memory, policy, samples, no_password, password, slower_than, max_len, same_name, Settles,
  refuses, refuses_line, telling, installed,
}

module _ {h : Host} where
  max_memory-Settles :
      (e : KvEngine h) (name value out : Bytes)
      → name ≡ codes "maxmemory"
      → Settles e name value out (install e out (new_max_memory e.eviction value))
  unfolding new_max_memory install
  max_memory-Settles e name value out named = go (parse_bytes value (codes "maxmemory")) refl
    where
      go :
          (p : Parsed ℕ)
          → parse_bytes value (codes "maxmemory") ≡ p
          → Settles e name value out (install e out (with_max_memory e.eviction p))
      go (parsed n) q = installed e name value out _ (max_memory n named q)
      go (refused m) q = refuses e name value out (codes "ERR " ++ m) (λ n v.
          subst (λ p. OneLine (with_max_memory e.eviction p)) q
            (new_max_memory-OneLine e.eviction value v))

  policy-Settles :
      (e : KvEngine h) (name value out : Bytes)
      → name ≡ codes "maxmemory-policy"
      → Settles e name value out (install e out (new_policy e.eviction value))
  unfolding new_policy install
  policy-Settles e name value out named = elim (Option-cases (from_name (ascii_lowercase value))) [
    | inl q ↦
        rw (new_policy, q)
          (telling e name value out (codes "ERR Invalid argument '") value
            (codes "' for CONFIG SET 'maxmemory-policy'") refl (λ n v. v) refl)
    | inr (p, q) ↦ rw (new_policy, q) (installed e name value out _ (policy p named q))
  ]

  samples-Settles :
      (e : KvEngine h) (name value out : Bytes)
      → name ≡ codes "maxmemory-samples"
      → Settles e name value out (install e out (new_samples e.eviction value))
  unfolding new_samples install
  samples-Settles e name value out named = elim (Option-cases (parse_unsigned 64 (trim value))) [
    | inl q ↦
        rw (new_samples, q)
          (refuses_line e name value out
            (refusal (codes "maxmemory-samples") (codes "not an integer")) refl)
    | inr (n, q) ↦ elim (Bool-cases (ltb 0 n)) [
      | inl y ↦
          rw (new_samples, q, y)
            (installed e name value out _ (samples n named (ground (arith, y)) q))
      | inr o ↦
          rw (new_samples, q, o)
            (refuses_line e name value out
              (refusal (codes "maxmemory-samples") (codes "must be > 0")) refl)
    ]
  ]

  threshold-Settles :
      (e : KvEngine h) (name value out : Bytes)
      → name ≡ codes "slowlog-log-slower-than"
      → Settles e name value out (set_threshold e value out)
  unfolding set_threshold
  threshold-Settles e name value out named = elim (Option-cases (parse_i64 (trim value))) [
    | inl q ↦
        rw (set_threshold, q)
          (refuses_line e name value out
            (refusal (codes "slowlog-log-slower-than") (codes "not an integer")) refl)
    | inr (z, q) ↦ rw (set_threshold, q) (inl (refl, slower_than z named q, refl, refl))
  ]

  max_len-Settles :
      (e : KvEngine h) (name value out : Bytes)
      → name ≡ codes "slowlog-max-len"
      → Settles e name value out (set_max_len e value out)
  unfolding set_max_len
  max_len-Settles e name value out named = elim (Option-cases (parse_unsigned 64 (trim value))) [
    | inl q ↦
        rw (set_max_len, q)
          (refuses_line e name value out
            (refusal (codes "slowlog-max-len") (codes "not an integer")) refl)
    | inr (n, q) ↦ elim (Bool-cases (ltb 0 n)) [
      | inl y ↦
          rw (set_max_len, q, y) (inl (refl, max_len n named (ground (arith, y)) q, refl, refl))
      | inr o ↦
          rw (set_max_len, q, o)
            (refuses_line e name value out (refusal (codes "slowlog-max-len") (codes "must be > 0"))
              refl)
    ]
  ]

  password-Settles :
      (e : KvEngine h) (name value out : Bytes)
      → name ≡ codes "requirepass"
      → Settles e name value out
          (set_requirepass e (some value), encode_simple_string out (codes "OK"))
  unfolding set_requirepass
  password-Settles e name [] out named = inl (refl, no_password named refl, refl, refl)
  password-Settles e name (b ∷ bs) out named =
      let filled : (length (b ∷ bs) == 0) ≡ false = ground arith in
      rw (set_requirepass, filled) (inl (refl, password named (omega arith), refl, refl))

  set_named-Settles :
      (e : KvEngine h) (name value out : Bytes)
      → Settles e name value out (set_named e name value out)
  unfolding set_named
  set_named-Settles e name value out = elim (Bool-cases (bytes_eq name (codes "requirepass"))) [
    | inl y ↦ rw (set_named, y) (password-Settles e name value out (same_name name _ y))
    | inr a ↦ elim (Bool-cases (bytes_eq name (codes "maxmemory"))) [
      | inl y ↦ rw (set_named, a, y) (max_memory-Settles e name value out (same_name name _ y))
      | inr b ↦ elim (Bool-cases (bytes_eq name (codes "maxmemory-policy"))) [
        | inl y ↦ rw (set_named, a, b, y) (policy-Settles e name value out (same_name name _ y))
        | inr c ↦ elim (Bool-cases (bytes_eq name (codes "maxmemory-samples"))) [
          | inl y ↦
              rw (set_named, a, b, c, y) (samples-Settles e name value out (same_name name _ y))
          | inr d ↦ elim (Bool-cases (bytes_eq name (codes "slowlog-log-slower-than"))) [
            | inl y ↦
                rw (set_named, a, b, c, d, y)
                  (threshold-Settles e name value out (same_name name _ y))
            | inr f ↦ elim (Bool-cases (bytes_eq name (codes "slowlog-max-len"))) [
              | inl y ↦
                  rw (set_named, a, b, c, d, f, y)
                    (max_len-Settles e name value out (same_name name _ y))
              | inr g ↦
                  rw (set_named, a, b, c, d, f, g)
                    (telling e name value out (codes "ERR Unknown parameter '") name (codes "'")
                      refl (λ n v. n) refl)
            ]
          ]
        ]
      ]
    ]
  ]

  -- A CONFIG SET answers OK, and then one setting is what the value stands for, the other settings are
  -- kept, and the keys and the log are as they were; or it answers an error, of one line if the name in
  -- lower case and the value are on one line, and the engine is as it was; whatever the parameter and
  -- the value.
  pub config_set-Settles :
      (e : KvEngine h) (param value out : Bytes)
      → Settles e (ascii_lowercase param) value out (config_set e param value out)
  unfolding config_set
  config_set-Settles e param value out =
      let name = ascii_lowercase param in
      elim (Bool-cases (is_utf8 param)) [
        | inl y ↦ elim (Bool-cases (is_utf8 value)) [
          | inl z ↦ rw (config_set, y, z) (set_named-Settles e name value out)
          | inr n ↦
              rw (config_set, y, n)
                (refuses_line e name value out (codes "ERR Invalid argument (non-UTF8 value)") refl)
        ]
        | inr n ↦
            rw (config_set, n)
              (refuses_line e name value out
                (codes "ERR Unknown parameter (non-UTF8 parameter name)") refl)
      ]
