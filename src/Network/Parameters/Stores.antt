-- ===== src/Network/Parameters/Stores.antt =====
-- What a CONFIG SET does to the settings of the engine, apart from the code of each setting.
use ferrum_kv.Prelude.{
  ℕ, ◌<◌, ◌≡◌, refl, sym, subst, ◌⊎◌, inl, inr, true, Option, none, some, [], ◌++◌, arith, Bytes,
  codes, bytes_eq, bytes_eq_iff, length, Bool-cases,
}
use ferrum_kv.Prelude.Int.{ℤ}
use ferrum_kv.Prelude.Decimal.{parse_i64}
use ferrum_kv.Protocol.Encoder.{encode_simple_string, encode_error}
use ferrum_kv.Protocol.Reply.{IsLine}
use ferrum_kv.Config.Text.{trim, ascii_lowercase, parse_unsigned}
use ferrum_kv.Config.File.{parsed, parse_bytes}
use ferrum_kv.Storage.Policy.{EvictionPolicy, EvictionConfig, from_name, index_kind, same_kind}
use ferrum_kv.Storage.Engine.{Host, KvEngine}
use ferrum_kv.Storage.Engine.Settings.{switch_index, set_eviction_config}
use ferrum_kv.Network.Parameters.{install}
use ferrum_kv.Network.Replies.{one_line, one_line-IsLine}
use ferrum_kv.Network.Replies.Settings.{quoting}

-- What CONFIG SET can change of an engine.
pub record Settings : Type 0 where
  pub eviction : EvictionConfig
  pub password : Option Bytes
  pub slower_than : ℤ
  pub max_len : ℕ

-- A value is stored under a name: what it stands for is the new setting, and the others stay. No
-- password is required once it is empty.
pub data Stores (name value : Bytes) (old : Settings) : Settings → Type 0 where
  max_memory :
      (n : ℕ)
      → name ≡ codes "maxmemory"
      → parse_bytes value (codes "maxmemory") ≡ parsed n
      → Stores name value old (record old { eviction = record old.eviction { max_memory = n } })
  policy :
      (p : EvictionPolicy)
      → name ≡ codes "maxmemory-policy"
      → from_name (ascii_lowercase value) ≡ some p
      → Stores name value old (record old { eviction = record old.eviction { policy = p } })
  samples :
      (n : ℕ)
      → name ≡ codes "maxmemory-samples"
      → 0 < n
      → parse_unsigned 64 (trim value) ≡ some n
      → Stores name value old (record old { eviction = record old.eviction { samples = n } })
  no_password :
      name ≡ codes "requirepass"
      → value ≡ []
      → Stores name value old (record old { password = none })
  password :
      name ≡ codes "requirepass"
      → 0 < length value
      → Stores name value old (record old { password = some value })
  slower_than :
      (z : ℤ)
      → name ≡ codes "slowlog-log-slower-than"
      → parse_i64 (trim value) ≡ some z
      → Stores name value old (record old { slower_than = z })
  max_len :
      (n : ℕ)
      → name ≡ codes "slowlog-max-len"
      → 0 < n
      → parse_unsigned 64 (trim value) ≡ some n
      → Stores name value old (record old { max_len = n })

pub same_name : (name text : Bytes) → bytes_eq name text ≡ true → name ≡ text
same_name name text y = (bytes_eq_iff name text).0 y

module _ {h : Host} where
  abbrev pub settings : KvEngine h → Settings
  settings e = record {
    eviction = e.eviction;
    password = e.auth_password;
    slower_than = e.slowlog_slower_than_us;
    max_len = e.slowlog_max_len;
  }

  -- Either the reply is OK, the value is stored under the name, and the keys and the log are as they
  -- were; or it is an error, of one line if the name and the value are, and the engine is as it was.
  abbrev pub Settles : KvEngine h → Bytes → Bytes → Bytes → KvEngine h × Bytes → Type 0
  Settles e name value out x =
      ((x.1 ≡ encode_simple_string out (codes "OK"))
        × Stores name value (settings e) (settings x.0)
        × (x.0.store ≡ e.store)
        × (x.0.aof ≡ e.aof))
      ⊎ ((x.0 ≡ e)
          × ((text : Bytes) × (x.1 ≡ encode_error out text)
              × (IsLine name → IsLine value → IsLine text)))

  pub refuses :
      (e : KvEngine h) (name value out text : Bytes)
      → (IsLine name → IsLine value → IsLine text)
      → Settles e name value out (e, encode_error out text)
  refuses e name value out text l = inr (refl, (text, refl, l))

  pub refuses_line :
      (e : KvEngine h) (name value out text : Bytes)
      → one_line text ≡ true
      → Settles e name value out (e, encode_error out text)
  refuses_line e name value out text q =
      refuses e name value out text (λ n l. one_line-IsLine text q)

  set_eviction_config-settings :
      (e : KvEngine h) (cfg : EvictionConfig)
      → (settings (set_eviction_config e cfg) ≡ record (settings e) { eviction = cfg })
        × ((set_eviction_config e cfg).store ≡ e.store)
        × ((set_eviction_config e cfg).aof ≡ e.aof)
  unfolding set_eviction_config switch_index
  set_eviction_config-settings e cfg =
      elim (Bool-cases (same_kind (index_kind cfg.policy) e.index_kind)) [
        | inl y ↦ rw (set_eviction_config, y) (refl, refl, refl)
        | inr n ↦ (ground (arith, n), ground (arith, n), ground (arith, n))
      ]

  -- A value that is told in a message.
  pub telling :
      (e : KvEngine h) (name value out before text behind : Bytes)
      → one_line before ≡ true
      → (IsLine name → IsLine value → IsLine text)
      → one_line behind ≡ true
      → Settles e name value out (e, encode_error out (before ++ (text ++ behind)))
  telling e name value out before text behind b l a =
      refuses e name value out (before ++ (text ++ behind))
        (λ n v. quoting before text behind b (l n v) a)

  pub installed :
      (e : KvEngine h) (name value out : Bytes) (cfg : EvictionConfig)
      → Stores name value (settings e) (record (settings e) { eviction = cfg })
      → Settles e name value out (install e out (parsed cfg))
  unfolding install
  installed e name value out cfg s =
      let (same, keys, log) = set_eviction_config-settings e cfg in
      inl (refl, subst (Stores name value (settings e)) (sym same) s, keys, log)
