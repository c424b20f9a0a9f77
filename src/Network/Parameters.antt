-- ===== src/Network/Parameters.antt =====
-- `config_get` and `config_set` of network/server.rs.
pub mod Stores
pub mod Refusals
pub mod RoundTrip
use ferrum_kv.Prelude.{
  ℕ, ltb, Option, none, some, List, [], ◌∷◌, ◌++◌, Bytes, codes, bytes_eq, length, if◌then◌else◌,
}
use ferrum_kv.Prelude.Decimal.{print_nat, print_int, parse_i64}
use ferrum_kv.Protocol.Text.{is_utf8}
use ferrum_kv.Protocol.Encoder.{ProtocolVersion, encode_simple_string, encode_error}
use ferrum_kv.Config.Text.{trim, ascii_lowercase, eq_ignore_ascii_case, parse_unsigned}
use ferrum_kv.Config.File.{Parsed, parsed, refused, parse_bytes}
use ferrum_kv.Storage.Policy
use ferrum_kv.Storage.Policy.{EvictionConfig, from_name}
use ferrum_kv.Storage.Engine.{Host, KvEngine}
use ferrum_kv.Storage.Engine.Settings.{set_eviction_config, set_requirepass}
use ferrum_kv.Network.Respond.{pairs_header, write_pairs}

unfoldable pub find_pair : Bytes → List (Bytes × Bytes) → List (Bytes × Bytes)
unfolding eq_ignore_ascii_case
find_pair requested [] = []
find_pair requested ((name, value) ∷ pairs) =
    if eq_ignore_ascii_case name requested then (name, value) ∷ [] else find_pair requested pairs

-- A reply that holds these pairs.
unfoldable pub write_map : ProtocolVersion → Bytes → List (Bytes × Bytes) → Bytes
unfolding pairs_header write_pairs
write_map version out pairs = write_pairs (pairs_header version out (length pairs)) pairs

abbrev pub mask : Option Bytes → Bytes
mask none = []
mask (some pw) = codes "(redacted)"

abbrev pub refusal : Bytes → Bytes → Bytes
refusal name why =
    codes "ERR Invalid argument for CONFIG SET '" ++ (name ++ (codes "' (" ++ (why ++ codes ")")))

abbrev pub with_max_memory : EvictionConfig → Parsed ℕ → Parsed EvictionConfig
with_max_memory cfg (parsed bytes) = parsed (record cfg { max_memory = bytes })
with_max_memory cfg (refused msg) = refused (codes "ERR " ++ msg)

unfoldable pub new_max_memory : EvictionConfig → Bytes → Parsed EvictionConfig
unfolding parse_bytes
new_max_memory cfg value = with_max_memory cfg (parse_bytes value (codes "maxmemory"))

unfoldable pub new_policy : EvictionConfig → Bytes → Parsed EvictionConfig
unfolding ascii_lowercase from_name
new_policy cfg value = elim (from_name (ascii_lowercase value)) [
  | some p ↦ parsed (record cfg { policy = p })
  | none ↦
      refused
        (codes "ERR Invalid argument '" ++ (value ++ codes "' for CONFIG SET 'maxmemory-policy'"))
]

unfoldable pub new_samples : EvictionConfig → Bytes → Parsed EvictionConfig
unfolding trim parse_unsigned
new_samples cfg value = elim (parse_unsigned 64 (trim value)) [
  | none ↦ refused (refusal (codes "maxmemory-samples") (codes "not an integer"))
  | some s ↦
      if ltb 0 s
      then parsed (record cfg { samples = s })
      else refused (refusal (codes "maxmemory-samples") (codes "must be > 0"))
]

module _ {h : Host} where
  -- The parameters in the order in which they are told.
  unfoldable pub parameters : KvEngine h → List (Bytes × Bytes)
  unfolding Policy.name
  parameters e =
      (codes "maxmemory", print_nat e.eviction.max_memory)
      ∷ (codes "maxmemory-policy", Policy.name e.eviction.policy)
      ∷ (codes "maxmemory-samples", print_nat e.eviction.samples)
      ∷ (codes "requirepass", mask e.auth_password)
      ∷ (codes "slowlog-log-slower-than", print_int e.slowlog_slower_than_us)
      ∷ (codes "slowlog-max-len", print_nat e.slowlog_max_len)
      ∷ []

  unfoldable pub config_get : KvEngine h → Bytes → Bytes → ProtocolVersion → Bytes
  unfolding parameters find_pair write_map eq_ignore_ascii_case is_utf8
  config_get e pattern out version =
      if eq_ignore_ascii_case pattern (codes "*")
      then write_map version out (parameters e)
      else if is_utf8 pattern
      then write_map version out (find_pair pattern (parameters e))
      else write_map version out []

  -- The new eviction configuration, installed, or the error.
  unfoldable pub install : KvEngine h → Bytes → Parsed EvictionConfig → KvEngine h × Bytes
  unfolding set_eviction_config encode_simple_string encode_error
  install e out (parsed cfg) = (set_eviction_config e cfg, encode_simple_string out (codes "OK"))
  install e out (refused message) = (e, encode_error out message)

  unfoldable pub set_threshold : KvEngine h → Bytes → Bytes → KvEngine h × Bytes
  unfolding trim parse_i64 encode_simple_string encode_error
  set_threshold e value out = elim (parse_i64 (trim value)) [
    | none ↦
        (e, encode_error out (refusal (codes "slowlog-log-slower-than") (codes "not an integer")))
    | some v ↦ (record e { slowlog_slower_than_us = v }, encode_simple_string out (codes "OK"))
  ]

  unfoldable pub set_max_len : KvEngine h → Bytes → Bytes → KvEngine h × Bytes
  unfolding trim parse_unsigned encode_simple_string encode_error
  set_max_len e value out = elim (parse_unsigned 64 (trim value)) [
    | none ↦ (e, encode_error out (refusal (codes "slowlog-max-len") (codes "not an integer")))
    | some v ↦
        if ltb 0 v
        then (record e { slowlog_max_len = v }, encode_simple_string out (codes "OK"))
        else (e, encode_error out (refusal (codes "slowlog-max-len") (codes "must be > 0")))
  ]

  -- The change of a parameter by its name in lower case.
  unfoldable pub set_named : KvEngine h → Bytes → Bytes → Bytes → KvEngine h × Bytes
  unfolding set_requirepass install new_max_memory new_policy new_samples set_threshold set_max_len
      encode_simple_string encode_error bytes_eq
  set_named e name value out =
      if bytes_eq name (codes "requirepass")
      then (set_requirepass e (some value), encode_simple_string out (codes "OK"))
      else if bytes_eq name (codes "maxmemory")
      then install e out (new_max_memory e.eviction value)
      else if bytes_eq name (codes "maxmemory-policy")
      then install e out (new_policy e.eviction value)
      else if bytes_eq name (codes "maxmemory-samples")
      then install e out (new_samples e.eviction value)
      else if bytes_eq name (codes "slowlog-log-slower-than")
      then set_threshold e value out
      else if bytes_eq name (codes "slowlog-max-len")
      then set_max_len e value out
      else (e, encode_error out (codes "ERR Unknown parameter '" ++ (name ++ codes "'")))

  unfoldable pub config_set : KvEngine h → Bytes → Bytes → Bytes → KvEngine h × Bytes
  unfolding is_utf8 ascii_lowercase set_named encode_error
  config_set e param value out =
      if is_utf8 param
      then (if is_utf8 value
          then set_named e (ascii_lowercase param) value out
          else (e, encode_error out (codes "ERR Invalid argument (non-UTF8 value)")))
      else (e, encode_error out (codes "ERR Unknown parameter (non-UTF8 parameter name)"))
