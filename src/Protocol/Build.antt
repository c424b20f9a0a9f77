-- ===== src/Protocol/Build.antt =====
-- `build_command` of protocol/parser.rs, in groups of names, and the parsers of numeric arguments.
use ferrum_kv.Prelude.{
  Option, none, some, List, [], ◌∷◌, ◌++◌, Bytes, codes, bytes_eq, if◌then◌else◌,
}
use ferrum_kv.Prelude.Int.{ℤ, pos, negsuc, sub_ℕ, pos_part, neg_part, in_i64}
use ferrum_kv.Prelude.Decimal.{parse_i64}
use ferrum_kv.Error.{parse_error, unknown_command, wrong_arity, Result, ok, err, ◌>>=◌}
use ferrum_kv.Floats.{Floats}
use ferrum_kv.Protocol.Text.{Rendering, is_utf8, ascii_uppercase}
use ferrum_kv.Protocol.Command.{Command}

unfoldable pub parse_integer_argument : Bytes → Result ℤ
parse_integer_argument bytes = elim (parse_i64 bytes) [
  | none ↦ err (parse_error (codes "value is not an integer or out of range"))
  | some n ↦ ok n
]

unfoldable pub parse_float_argument : (fl : Floats) → Bytes → Result fl.F64
unfolding is_utf8
parse_float_argument fl bytes = elim (if is_utf8 bytes then fl.f64_parse bytes else none) [
  | none ↦ err (parse_error (codes "value is not a valid float"))
  | some x ↦ ok x
]

-- `checked_neg`
unfoldable pub checked_neg : ℤ → Result ℤ
checked_neg n =
    let m = sub_ℕ (neg_part n) (pos_part n) in
    if in_i64 m then ok m else err (parse_error (codes "value is not an integer or out of range"))

-- The pairs of an `MSET`, where the number of arguments is even.
unfoldable pub pair_up : List Bytes → Option (List (Bytes × Bytes))
pair_up [] = some []
pair_up (k ∷ []) = none
pair_up (k ∷ v ∷ rest) = elim (pair_up rest) [ none ↦ none | some pairs ↦ some ((k, v) ∷ pairs) ]

module _ {fl : Floats} where
  -- Exactly no, one or two arguments; at least one; at most one.
  unfoldable pub no_args : Bytes → Command fl → List Bytes → Result (Command fl)
  no_args name c [] = ok c
  no_args name c (a ∷ as') = err (wrong_arity name)

  unfoldable pub one_arg : Bytes → (Bytes → Result (Command fl)) → List Bytes → Result (Command fl)
  one_arg name f (a ∷ []) = f a
  one_arg name f _ = err (wrong_arity name)

  unfoldable pub two_args :
      Bytes → (Bytes → Bytes → Result (Command fl)) → List Bytes → Result (Command fl)
  two_args name f (a ∷ b ∷ []) = f a b
  two_args name f _ = err (wrong_arity name)

  unfoldable pub some_args : Bytes → (List Bytes → Command fl) → List Bytes → Result (Command fl)
  some_args name f [] = err (wrong_arity name)
  some_args name f (a ∷ as') = ok (f (a ∷ as'))

  unfoldable pub optional_arg :
      Bytes → (Option Bytes → Command fl) → List Bytes → Result (Command fl)
  optional_arg name f [] = ok (f none)
  optional_arg name f (a ∷ []) = ok (f (some a))
  optional_arg name f _ = err (wrong_arity name)

  unfoldable pub build_mset : List Bytes → Result (Command fl)
  unfolding pair_up
  build_mset [] = err (wrong_arity (codes "MSET"))
  build_mset (a ∷ as') = elim (pair_up (a ∷ as')) [
    | none ↦ err (wrong_arity (codes "MSET"))
    | some pairs ↦ ok (Command.mset pairs)
  ]

  unfoldable pub build_memory : Rendering → List Bytes → Result (Command fl)
  unfolding ascii_uppercase
  build_memory r (sub ∷ key ∷ rest) =
      if bytes_eq (ascii_uppercase sub) (codes "USAGE")
      then ok (Command.memory_usage key)
      else err (unknown_command (codes "MEMORY " ++ r.lossy sub))
  build_memory r _ = err (wrong_arity (codes "MEMORY"))

  unfoldable pub config_get : List Bytes → Result (Command fl)
  config_get (param ∷ []) = ok (Command.config (codes "GET") (param ∷ []))
  config_get _ = err (wrong_arity (codes "CONFIG GET"))

  unfoldable pub config_set : List Bytes → Result (Command fl)
  config_set (param ∷ value ∷ []) = ok (Command.config (codes "SET") (param ∷ value ∷ []))
  config_set _ = err (wrong_arity (codes "CONFIG SET"))

  unfoldable pub build_config : Rendering → List Bytes → Result (Command fl)
  unfolding ascii_uppercase config_get config_set
  build_config r [] = err (wrong_arity (codes "CONFIG"))
  build_config r (sub ∷ rest) =
      let verb = ascii_uppercase sub in
      if bytes_eq verb (codes "GET")
      then config_get rest
      else if bytes_eq verb (codes "SET")
      then config_set rest
      else err (unknown_command (codes "CONFIG " ++ r.lossy sub))

  unfoldable pub slowlog_get : List Bytes → Result (Command fl)
  slowlog_get [] = ok (Command.slow_log (codes "GET") [])
  slowlog_get (count ∷ []) = ok (Command.slow_log (codes "GET") (count ∷ []))
  slowlog_get _ = err (wrong_arity (codes "SLOWLOG GET"))

  unfoldable pub build_slowlog : Rendering → List Bytes → Result (Command fl)
  unfolding ascii_uppercase slowlog_get no_args
  build_slowlog r [] = err (wrong_arity (codes "SLOWLOG"))
  build_slowlog r (sub ∷ rest) =
      let verb = ascii_uppercase sub in
      if bytes_eq verb (codes "GET")
      then slowlog_get rest
      else if bytes_eq verb (codes "LEN")
      then no_args (codes "SLOWLOG LEN") (Command.slow_log (codes "LEN") []) rest
      else if bytes_eq verb (codes "RESET")
      then no_args (codes "SLOWLOG RESET") (Command.slow_log (codes "RESET") []) rest
      else err (unknown_command (codes "SLOWLOG " ++ r.lossy sub))

  unfoldable pub build_hello : List Bytes → Result (Command fl)
  build_hello [] = ok (Command.hello none)
  build_hello (version ∷ []) =
      if bytes_eq version (codes "2")
      then ok (Command.hello (some 2))
      else if bytes_eq version (codes "3")
      then ok (Command.hello (some 3))
      else err (parse_error (codes "NOPROTO unsupported protocol version"))
  build_hello _ = err (wrong_arity (codes "HELLO"))

  -- The server's commands, and the fallback; `name` is the name as it came.
  unfoldable pub build_server : Rendering → Bytes → Bytes → List Bytes → Result (Command fl)
  unfolding build_memory build_config build_slowlog build_hello optional_arg one_arg no_args
  build_server r name verb as' =
      if bytes_eq verb (codes "MEMORY")
      then build_memory r as'
      else if bytes_eq verb (codes "INFO")
      then optional_arg verb Command.info as'
      else if bytes_eq verb (codes "CONFIG")
      then build_config r as'
      else if bytes_eq verb (codes "AUTH")
      then one_arg verb (λ a. ok (Command.auth a)) as'
      else if bytes_eq verb (codes "SLOWLOG")
      then build_slowlog r as'
      else if bytes_eq verb (codes "BGREWRITEAOF")
      then no_args verb Command.rewrite_aof as'
      else if bytes_eq verb (codes "MONITOR")
      then no_args verb Command.monitor as'
      else if bytes_eq verb (codes "HELLO")
      then build_hello as'
      else err (unknown_command (r.lossy name))

  -- A key with an integer.
  unfoldable pub key_integer : Bytes → (Bytes → ℤ → Command fl) → List Bytes → Result (Command fl)
  unfolding two_args parse_integer_argument
  key_integer name f as' = two_args name (λ k b. parse_integer_argument b >>= λ n. ok (f k n)) as'

  unfoldable pub build_expiry : Rendering → Bytes → Bytes → List Bytes → Result (Command fl)
  unfolding key_integer one_arg build_server
  build_expiry r name verb as' =
      if bytes_eq verb (codes "EXPIRE")
      then key_integer verb Command.expire as'
      else if bytes_eq verb (codes "PEXPIRE")
      then key_integer verb Command.p_expire as'
      else if bytes_eq verb (codes "PEXPIREAT")
      then key_integer verb Command.p_expire_at as'
      else if bytes_eq verb (codes "PERSIST")
      then one_arg verb (λ k. ok (Command.persist k)) as'
      else if bytes_eq verb (codes "TTL")
      then one_arg verb (λ k. ok (Command.ttl k)) as'
      else if bytes_eq verb (codes "PTTL")
      then one_arg verb (λ k. ok (Command.p_ttl k)) as'
      else build_server r name verb as'

  unfoldable pub build_keys : Rendering → Bytes → Bytes → List Bytes → Result (Command fl)
  unfolding one_arg two_args some_args optional_arg no_args build_expiry
  build_keys r name verb as' =
      if bytes_eq verb (codes "GET")
      then one_arg verb (λ k. ok (Command.get k)) as'
      else if bytes_eq verb (codes "DEL")
      then some_args verb Command.del as'
      else if bytes_eq verb (codes "EXISTS")
      then some_args verb Command.exists as'
      else if bytes_eq verb (codes "PING")
      then optional_arg verb Command.ping as'
      else if bytes_eq verb (codes "APPEND")
      then two_args verb (λ k v. ok (Command.append k v)) as'
      else if bytes_eq verb (codes "STRLEN")
      then one_arg verb (λ k. ok (Command.str_len k)) as'
      else if bytes_eq verb (codes "DBSIZE")
      then no_args verb Command.db_size as'
      else if bytes_eq verb (codes "FLUSHDB")
      then no_args verb Command.flush_db as'
      else build_expiry r name verb as'

  unfoldable pub build_counters : Rendering → Bytes → Bytes → List Bytes → Result (Command fl)
  unfolding one_arg two_args key_integer parse_integer_argument parse_float_argument checked_neg
      build_keys
  build_counters r name verb as' =
      if bytes_eq verb (codes "INCR")
      then one_arg verb (λ k. ok (Command.incr_by k (pos 1))) as'
      else if bytes_eq verb (codes "DECR")
      then one_arg verb (λ k. ok (Command.incr_by k (negsuc 0))) as'
      else if bytes_eq verb (codes "INCRBY")
      then key_integer verb Command.incr_by as'
      else if bytes_eq verb (codes "DECRBY")
      then two_args verb
          (λ k b. parse_integer_argument b >>= λ n. checked_neg n >>= λ m. ok (Command.incr_by k m))
          as'
      else if bytes_eq verb (codes "INCRBYFLOAT")
      then two_args verb (λ k b. parse_float_argument fl b >>= λ x. ok (Command.incr_by_float k x))
          as'
      else build_keys r name verb as'

  unfoldable pub build_named : Rendering → Bytes → Bytes → List Bytes → Result (Command fl)
  unfolding two_args build_mset some_args build_counters
  build_named r name verb as' =
      if bytes_eq verb (codes "SET")
      then two_args verb (λ k v. ok (Command.set k v)) as'
      else if bytes_eq verb (codes "SETNX")
      then two_args verb (λ k v. ok (Command.set_nx k v)) as'
      else if bytes_eq verb (codes "MSET")
      then build_mset as'
      else if bytes_eq verb (codes "MGET")
      then some_args verb Command.mget as'
      else build_counters r name verb as'

  -- The name of a frame's command is its first element, which `parse_frame` has seen to.
  unfoldable pub build_command : Rendering → Bytes → List Bytes → Result (Command fl)
  unfolding build_named ascii_uppercase
  build_command r name as' = build_named r name (ascii_uppercase name) as'
