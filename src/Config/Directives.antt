-- ===== src/Config/Directives.antt =====
-- `FileConfig::parse` and `apply_directive` of config/file.rs. The path is only told in messages, and
-- is left out; so is `load`, which reads the file.
use ferrum_kv.Prelude.{
  ℕ, ◌+◌, ◌||◌, ◌==◌, none, some, List, [], ◌∷◌, ◌++◌, Bytes, codes, bytes_eq, if◌then◌else◌,
}
use ferrum_kv.Storage.Policy.{EvictionPolicy, from_name}
use ferrum_kv.Config.Text.{trim, split_space, lines, ascii_lowercase, eq_ignore_ascii_case}
use ferrum_kv.Config.File.{
  Parsed, parsed, refused, ◌>>=◌, or_refuse, fsync_parse, FileConfig, default_config, quoted,
  parse_u16, parse_u64, parse_bool, any_of, strip_quotes, parse_bytes,
}

unfoldable pub parse_loglevel : Bytes → Parsed Bytes
unfolding ascii_lowercase bytes_eq
parse_loglevel value =
    let name = ascii_lowercase value in
    if any_of name (
      codes "off"
      ∷ codes "error"
      ∷ codes "warn"
      ∷ codes "info"
      ∷ codes "debug"
      ∷ codes "trace"
      ∷ [])
    then parsed name
    else refused (
        codes "invalid loglevel "
        ++ (quoted value ++ codes " (expected off|error|warn|info|debug|trace)"))

unfoldable pub parse_policy : Bytes → Parsed EvictionPolicy
unfolding ascii_lowercase from_name
parse_policy value = or_refuse (from_name (ascii_lowercase value)) (
    codes "invalid maxmemory-policy "
    ++ (quoted value
        ++ codes
            " (expected one of noeviction, allkeys-lru, volatile-lru, allkeys-lfu, volatile-lfu, allkeys-random, volatile-random, volatile-ttl, allkeys-ahe, volatile-ahe, allkeys-sieve, volatile-sieve, allkeys-sieves, volatile-sieves, allkeys-adaptiveclimb, volatile-adaptiveclimb)"))

unfoldable pub dashboard_value : Bytes → Bytes
unfolding trim eq_ignore_ascii_case
dashboard_value value =
    let v = trim value in
    if eq_ignore_ascii_case v (codes "off") || eq_ignore_ascii_case v (codes "no")
    then codes "off"
    else v

-- The message of an `appendfsync` that is refused has the other one behind it.
abbrev behind : {A : Type 0} → Bytes → Parsed A → Parsed A
behind head (parsed a) = parsed a
behind head (refused m) = refused (head ++ m)

unfoldable pub apply_directive : FileConfig → Bytes → Bytes → Parsed FileConfig
unfolding ascii_lowercase bytes_eq parse_u16 parse_u64 parse_bool strip_quotes fsync_parse
    parse_loglevel parse_bytes parse_policy dashboard_value
apply_directive cfg key value =
    let k = ascii_lowercase key in
    let cap = λ (name : Bytes). parse_u64 value name in
    if bytes_eq k (codes "bind")
    then parsed (record cfg { bind = some value })
    else if bytes_eq k (codes "port")
    then parse_u16 value (codes "port") >>= (λ n. parsed (record cfg { port = some n }))
    else if bytes_eq k (codes "timeout")
    then cap (codes "timeout") >>= (λ n. parsed (record cfg { timeout_secs = some n }))
    else if bytes_eq k (codes "maxclients")
    then cap (codes "maxclients") >>= (λ n. parsed (record cfg { max_clients = some n }))
    else if bytes_eq k (codes "appendonly")
    then parse_bool value >>= (λ b. parsed (record cfg { appendonly = some b }))
    else if bytes_eq k (codes "appendfilename")
    then parsed (record cfg { appendfilename = some (strip_quotes value) })
    else if bytes_eq k (codes "appendfsync")
    then behind (codes "invalid appendfsync: ") (fsync_parse value)
      >>= (λ p. parsed (record cfg { appendfsync = some p }))
    else if bytes_eq k (codes "loglevel")
    then parse_loglevel value >>= (λ l. parsed (record cfg { loglevel = some l }))
    else if bytes_eq k (codes "maxmemory")
    then parse_bytes value (codes "maxmemory")
      >>= (λ n. parsed (record cfg { max_memory = some n }))
    else if bytes_eq k (codes "maxmemory-policy")
    then parse_policy value >>= (λ p. parsed (record cfg { max_memory_policy = some p }))
    else if bytes_eq k (codes "maxmemory-samples")
    then cap (codes "maxmemory-samples")
      >>= (λ n. parsed (record cfg { max_memory_samples = some n }))
    else if bytes_eq k (codes "requirepass")
    then parsed (record cfg { requirepass = some value })
    else if bytes_eq k (codes "io-threads")
    then cap (codes "io-threads") >>= (λ n. parsed (record cfg { io_threads = some n }))
    else if bytes_eq k (codes "dashboard-token")
    then parsed (record cfg { dashboard_token = some (strip_quotes value) })
    else if bytes_eq k (codes "dashboard-addr")
    then parsed (record cfg { dashboard_addr = some (dashboard_value value) })
    else refused (codes "unknown directive " ++ quoted k)

-- A configuration, or the number of the line and what is wrong with it.
pub data FileResult : Type 0 where
  configured : FileConfig → FileResult
  parse_error : ℕ → Bytes → FileResult

-- A comment or a blank line changes nothing.
unfoldable pub apply_line : FileConfig → Bytes → Parsed FileConfig
unfolding trim split_space apply_directive
apply_line cfg raw_line = elim (trim raw_line) [
  | [] ↦ parsed cfg
  | b ∷ bs ↦
      let (key, behind_key) = split_space (b ∷ bs) in
      let value : Bytes = elim behind_key [ none ↦ [] | some v ↦ trim v ] in
      if b == 35 then parsed cfg else elim value [
        | [] ↦ refused (codes "directive " ++ (quoted key ++ codes " requires a value"))
        | v ∷ vs ↦ apply_directive cfg key (v ∷ vs)
      ]
]

unfoldable pub parse_lines : ℕ → FileConfig → List Bytes → FileResult
unfolding apply_line
parse_lines line_no cfg [] = configured cfg
parse_lines line_no cfg (raw_line ∷ rest) = elim (apply_line cfg raw_line) [
  | parsed cfg1 ↦ parse_lines (line_no + 1) cfg1 rest
  | refused message ↦ parse_error line_no message
]

unfoldable pub parse : Bytes → FileResult
unfolding lines parse_lines
parse text = parse_lines 1 default_config (lines text)
