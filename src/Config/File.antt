-- ===== src/Config/File.antt =====
-- config/file.rs, and `FsyncPolicy` of persistence/config.rs. Paths are texts. The texts are UTF-8.
pub mod Sizes
use ferrum_kv.Prelude.{
  ℕ, ◌*◌, ◌^◌, Bool, true, false, ◌&&◌, ◌||◌, ltb, ◌==◌, Option, none, some, List, [], ◌∷◌, ◌++◌,
  Bytes, codes, bytes_eq, if◌then◌else◌,
}
use ferrum_kv.Storage.Policy.{EvictionPolicy}
use ferrum_kv.Config.Text.{trim, ascii_lowercase, parse_unsigned, reverse}

pub data FsyncPolicy : Type 0 where
  always every_sec no_sync : FsyncPolicy

-- A value, or a message.
pub data Parsed (A : Type 0) : Type 0 where
  parsed : A → Parsed A
  refused : Bytes → Parsed A

infixl 5 ◌>>=◌
abbrev pub ◌>>=◌ : {A B : Type 0} → Parsed A → (A → Parsed B) → Parsed B
parsed a >>= f = f a
refused m >>= f = refused m

-- A value that may be missing, or a message.
abbrev pub or_refuse : {A : Type 0} → Option A → Bytes → Parsed A
or_refuse none m = refused m
or_refuse (some a) m = parsed a

unfoldable pub fsync_parse : Bytes → Parsed FsyncPolicy
unfolding trim ascii_lowercase bytes_eq
fsync_parse input =
    let name = ascii_lowercase (trim input) in
    if bytes_eq name (codes "always")
    then parsed always
    else if bytes_eq name (codes "everysec")
    then parsed every_sec
    else if bytes_eq name (codes "no")
    then parsed no_sync
    else refused (
        codes "invalid appendfsync value '"
        ++ (name ++ codes "', expected one of always|everysec|no"))

pub record FileConfig : Type 0 where
  pub bind : Option Bytes
  pub port : Option ℕ
  pub timeout_secs : Option ℕ
  pub max_clients : Option ℕ
  pub appendonly : Option Bool
  pub appendfilename : Option Bytes
  pub appendfsync : Option FsyncPolicy
  pub loglevel : Option Bytes
  pub max_memory : Option ℕ
  pub max_memory_policy : Option EvictionPolicy
  pub max_memory_samples : Option ℕ
  pub requirepass : Option Bytes
  pub io_threads : Option ℕ
  pub dashboard_addr : Option Bytes
  pub dashboard_token : Option Bytes

abbrev pub default_config : FileConfig
default_config = record {
  bind = none;
  port = none;
  timeout_secs = none;
  max_clients = none;
  appendonly = none;
  appendfilename = none;
  appendfsync = none;
  loglevel = none;
  max_memory = none;
  max_memory_policy = none;
  max_memory_samples = none;
  requirepass = none;
  io_threads = none;
  dashboard_addr = none;
  dashboard_token = none;
}

abbrev pub quoted : Bytes → Bytes
quoted raw = codes "'" ++ (raw ++ codes "'")

unfoldable pub invalid : Bytes → Bytes → Bytes → Bytes
invalid name raw why = codes "invalid " ++ (name ++ (codes ": " ++ (quoted raw ++ why)))

unfoldable pub parse_u16 : Bytes → Bytes → Parsed ℕ
unfolding parse_unsigned invalid
parse_u16 raw name = or_refuse (parse_unsigned 16 raw) (invalid name raw (codes " is not a u16"))

-- `parse_u64` and `parse_usize`, on a 64-bit machine.
unfoldable pub parse_u64 : Bytes → Bytes → Parsed ℕ
unfolding parse_unsigned invalid
parse_u64 raw name =
    or_refuse (parse_unsigned 64 raw) (invalid name raw (codes " is not a non-negative integer"))

abbrev pub any_of : Bytes → List Bytes → Bool
any_of name [] = false
any_of name (n ∷ ns) = bytes_eq name n || any_of name ns

unfoldable pub parse_bool : Bytes → Parsed Bool
unfolding ascii_lowercase bytes_eq
parse_bool raw =
    let name = ascii_lowercase raw in
    if any_of name (codes "yes" ∷ codes "true" ∷ codes "on" ∷ codes "1" ∷ [])
    then parsed true
    else if any_of name (codes "no" ∷ codes "false" ∷ codes "off" ∷ codes "0" ∷ [])
    then parsed false
    else refused (codes "expected yes/no, got " ++ quoted name)

-- The text between two quotes of one kind, of a text of two bytes or more.
abbrev pub unquote : ℕ → Bytes → Bytes → Bytes
unquote first raw [] = raw
unquote first raw (final ∷ middle) =
    if first == final && (first == 34 || first == 39) then reverse middle else raw

unfoldable pub strip_quotes : Bytes → Bytes
strip_quotes [] = []
strip_quotes (first ∷ others) = unquote first (first ∷ others) (reverse others)

-- `strip_suffix`, on the bytes from the last to the first.
abbrev pub strip_prefix : Bytes → Bytes → Option Bytes
strip_prefix [] bs = some bs
strip_prefix (p ∷ ps) [] = none
strip_prefix (p ∷ ps) (b ∷ bs) = if p == b then strip_prefix ps bs else none

unfoldable pub strip_suffix : Bytes → Bytes → Option Bytes
strip_suffix suffix bs = elim (strip_prefix (reverse suffix) (reverse bs)) [
  | none ↦ none
  | some rest ↦ some (reverse rest)
]

-- The first suffix of the table that the text has, with its factor.
unfoldable pub find_suffix : List (Bytes × ℕ) → Bytes → Bytes × ℕ
unfolding strip_suffix
find_suffix [] bs = (bs, 1)
find_suffix ((suffix, factor) ∷ table) bs = elim (strip_suffix suffix bs) [
  | none ↦ find_suffix table bs
  | some rest ↦ (rest, factor)
]

abbrev pub suffixes : List (Bytes × ℕ)
suffixes =
    (codes "gb", 1024 * 1024 * 1024)
    ∷ (codes "mb", 1024 * 1024)
    ∷ (codes "kb", 1024)
    ∷ (codes "g", 1024 * 1024 * 1024)
    ∷ (codes "m", 1024 * 1024)
    ∷ (codes "k", 1024)
    ∷ (codes "b", 1)
    ∷ []

unfoldable pub scale : Bytes → Bytes → Option ℕ → ℕ → Parsed ℕ
unfolding invalid
scale raw name none factor = refused (invalid name raw (codes " is not a byte size"))
scale raw name (some n) factor =
    if ltb (n * factor) (2 ^ 64)
    then parsed (n * factor)
    else refused (invalid name raw (codes " overflows u64"))

unfoldable pub parse_bytes : Bytes → Bytes → Parsed ℕ
unfolding trim ascii_lowercase find_suffix parse_unsigned scale
parse_bytes raw name =
    let (num, factor) = find_suffix suffixes (ascii_lowercase (trim raw)) in
    scale raw name (parse_unsigned 64 (trim num)) factor
