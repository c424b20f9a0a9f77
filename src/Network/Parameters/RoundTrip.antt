-- ===== src/Network/Parameters/RoundTrip.antt =====
-- What CONFIG SET has set, CONFIG GET tells.
use ferrum_kv.Prelude.{
  ℕ, suc, ◌*◌, ◌^◌, ◌<◌, ◌≡◌, refl, ap, ◌∙◌, true, false, ltb, some, List, [], ◌∷◌, ◌++◌, arith,
  Bytes, codes, bytes_eq,
}
use ferrum_kv.Prelude.Int.{ℤ, pos, negsuc, in_i64}
use ferrum_kv.Prelude.Decimal.{
  print_nat, print_int, print_nat-digits, parse_i64, parse_i64-print_int,
}
use ferrum_kv.Protocol.Text.{is_utf8}
use ferrum_kv.Protocol.Encoder.{ProtocolVersion, encode_simple_string}
use ferrum_kv.Config.Text.{trim, lower, ascii_lowercase, eq_ignore_ascii_case, parse_unsigned}
use ferrum_kv.Config.Text.Solid.{IsSolid, digits-IsSolid, trim_solid}
use ferrum_kv.Config.File.{Parsed, parse_bytes, parsed}
use ferrum_kv.Config.File.Sizes.{Measures, parse_bytes-print_nat, parse_unsigned-print_nat}
use ferrum_kv.Storage.Policy
use ferrum_kv.Storage.Policy.{EvictionPolicy, EvictionConfig, from_name}
use ferrum_kv.Storage.Policy.Names.{from_name-name}
use ferrum_kv.Storage.Engine.{Host, KvEngine}
use ferrum_kv.Storage.Engine.Settings.{set_eviction_config}
use ferrum_kv.Network.Parameters.{
  find_pair, write_map, with_max_memory, new_max_memory, new_policy, new_samples, parameters,
  config_get, install, set_threshold, set_max_len, set_named, config_set,
}

-- The parameters with the values that are accepted, and how a value is told.
pub data Setting : (name value told : Bytes) → Type 0 where
  memory :
      (n factor : ℕ) (unit : Bytes)
      → n < 2 ^ 64
      → n * factor < 2 ^ 64
      → IsSolid unit
      → Measures (ascii_lowercase unit) factor
      → Setting (codes "maxmemory") (print_nat n ++ unit) (print_nat (n * factor))
  policy :
      (p : EvictionPolicy) (value : Bytes)
      → ascii_lowercase value ≡ Policy.name p
      → Setting (codes "maxmemory-policy") value (Policy.name p)
  samples :
      (n : ℕ) → 0 < n → n < 2 ^ 64 → Setting (codes "maxmemory-samples") (print_nat n) (print_nat n)
  slower_than :
      (z : ℤ)
      → in_i64 z ≡ true
      → Setting (codes "slowlog-log-slower-than") (print_int z) (print_int z)
  max_len :
      (n : ℕ) → 0 < n → n < 2 ^ 64 → Setting (codes "slowlog-max-len") (print_nat n) (print_nat n)

trim-print_nat : (n : ℕ) → trim (print_nat n) ≡ print_nat n
trim-print_nat n = trim_solid (print_nat n) (digits-IsSolid (print_nat n) (print_nat-digits n))

trim-print_int : (z : ℤ) → trim (print_int z) ≡ print_int z
unfolding print_int
trim-print_int (pos n) = trim-print_nat n
trim-print_int (negsuc n) =
    trim_solid (print_int (negsuc n))
      (refl, digits-IsSolid (print_nat (suc n)) (print_nat-digits (suc n)))

-- Lower case is in lower case.
lower_twice : (bs : Bytes) → ascii_lowercase (ascii_lowercase bs) ≡ ascii_lowercase bs
unfolding ascii_lowercase lower
lower_twice [] = refl
lower_twice (b ∷ bs) = ground (arith, lower_twice bs)

find_pair_lower :
    (param : Bytes) (pairs : List (Bytes × Bytes))
    → find_pair param pairs ≡ find_pair (ascii_lowercase param) pairs
unfolding find_pair eq_ignore_ascii_case
find_pair_lower param [] = refl
find_pair_lower param ((name, value) ∷ pairs) =
    rw (find_pair, lower_twice param, find_pair_lower param pairs) refl

not_all : (name value told : Bytes) → Setting name value told → bytes_eq name (codes "*") ≡ false
unfolding bytes_eq
not_all name value told (memory n factor unit l f solid u) = refl
not_all name value told (policy p v w) = refl
not_all name value told (samples n k l) = refl
not_all name value told (slower_than z l) = refl
not_all name value told (max_len n k l) = refl

module _ {h : Host} where
  install_told :
      (e : KvEngine h) (out : Bytes) (c : Parsed EvictionConfig) (cfg : EvictionConfig)
      → c ≡ parsed cfg
      → ((install e out c).0.eviction ≡ cfg)
        × ((install e out c).1 ≡ encode_simple_string out (codes "OK"))
  unfolding install set_eviction_config
  install_told e out c cfg q = rw q (ground arith, refl)

  -- The change is acknowledged, and the parameter is told so.
  record Tells (e : KvEngine h) (name value told out : Bytes) : Type 0 where
    success : (set_named e name value out).1 ≡ encode_simple_string out (codes "OK")
    pair : find_pair name (parameters (set_named e name value out).0) ≡ (name, told) ∷ []

  set_named-Tells :
      (e : KvEngine h) (name value told out : Bytes)
      → Setting name value told
      → Tells e name value told out
  unfolding set_named bytes_eq find_pair parameters install new_max_memory eq_ignore_ascii_case
      ascii_lowercase
  set_named-Tells e name value told out (memory n factor unit l f solid u) =
      let small : ltb (n * factor) (2 ^ 64) ≡ true = ground (arith, f) in
      let q : parse_bytes (print_nat n ++ unit) (codes "maxmemory") ≡ parsed (n * factor) =
        parse_bytes-print_nat n factor unit (codes "maxmemory") l solid u ∙ rw small refl in
      let t =
        install_told e out (new_max_memory e.eviction (print_nat n ++ unit)) _
          (ap (with_max_memory e.eviction) q) in
      record {
        success = t.1;
        pair = ap (λ c. (codes "maxmemory", print_nat c.max_memory) ∷ []) t.0;
      }
  set_named-Tells e name value told out (policy p v w) =
      let q : from_name (ascii_lowercase v) ≡ some p = ap from_name w ∙ from_name-name p in
      let r : new_policy e.eviction v ≡ parsed (record e.eviction { policy = p }) =
        rw (new_policy, q) refl in
      let t = install_told e out (new_policy e.eviction v) _ r in
      record {
        success = t.1;
        pair = ap (λ c. (codes "maxmemory-policy", Policy.name c.policy) ∷ []) t.0;
      }
  set_named-Tells e name value told out (samples n k l) =
      let q : parse_unsigned 64 (trim (print_nat n)) ≡ some n =
        ap (parse_unsigned 64) (trim-print_nat n) ∙ parse_unsigned-print_nat n 64 l in
      let some_left : ltb 0 n ≡ true = ground (arith, k) in
      let r : new_samples e.eviction (print_nat n) ≡ parsed (record e.eviction { samples = n }) =
        rw (new_samples, q, some_left) refl in
      let t = install_told e out (new_samples e.eviction (print_nat n)) _ r in
      record {
        success = t.1;
        pair = ap (λ c. (codes "maxmemory-samples", print_nat c.samples) ∷ []) t.0;
      }
  set_named-Tells e name value told out (slower_than z l) =
      let q : parse_i64 (trim (print_int z)) ≡ some z =
        ap parse_i64 (trim-print_int z) ∙ parse_i64-print_int z l in
      record { success = rw (set_threshold, q) refl; pair = rw (set_threshold, q) refl }
  set_named-Tells e name value told out (max_len n k l) =
      let q : parse_unsigned 64 (trim (print_nat n)) ≡ some n =
        ap (parse_unsigned 64) (trim-print_nat n) ∙ parse_unsigned-print_nat n 64 l in
      let some_left : ltb 0 n ≡ true = ground (arith, k) in
      record {
        success = rw (set_max_len, q, some_left) refl;
        pair = rw (set_max_len, q, some_left) refl;
      }

  -- CONFIG SET of an accepted value answers OK, and CONFIG GET of the parameter then tells the value: a
  -- size with a unit in bytes, a policy in lower case, and a number as it was set. The name may be in
  -- upper or lower case.
  pub config_set-config_get :
      (e : KvEngine h) (param value told out before : Bytes) (version : ProtocolVersion)
      → Setting (ascii_lowercase param) value told
      → is_utf8 param ≡ true
      → is_utf8 value ≡ true
      → ((config_set e param value out).1 ≡ encode_simple_string out (codes "OK"))
        × (config_get (config_set e param value out).0 param before version
            ≡ write_map version before ((ascii_lowercase param, told) ∷ []))
  unfolding config_set config_get eq_ignore_ascii_case ascii_lowercase lower
  config_set-config_get e param value told out before version s u w =
      let t = set_named-Tells e (ascii_lowercase param) value told out s in
      let star = not_all (ascii_lowercase param) value told s in
      let found =
        find_pair_lower param (parameters (set_named e (ascii_lowercase param) value out).0)
        ∙ t.pair in
      (
        rw (config_set, u, w) t.success,
        rw (config_set, config_get, u, w, star) (ap (write_map version before) found),
      )
