-- ===== src/Network/Execute.antt =====
-- `execute_command` of network/server.rs: what a command does to the engine and the reply that it
-- appends. A lock is never poisoned, so the commands that fail in no other way have no error here.
use ferrum_kv.Prelude.{
  Bool, not, ◌&&◌, none, some, List, [], ◌∷◌, ◌++◌, Bytes, codes, length, if◌then◌else◌,
}
use ferrum_kv.Error.{internal, aof_not_enabled, Result, ok, err}
use ferrum_kv.Protocol.Command.{Command, args_redacted}
use ferrum_kv.Protocol.Encoder.{
  ProtocolVersion, encode_simple_string, encode_error, encode_integer, encode_bulk_string,
  encode_array_header,
}
use ferrum_kv.Config.Text.{eq_ignore_ascii_case}
use ferrum_kv.Storage.Engine.{Host, KvEngine, bump}
use ferrum_kv.Storage.Engine.Commands.{
  set, set_nx, mset, del_many, flushdb, expire_at_ms, persist, incr_by, incr_by_float, append_value,
}
use ferrum_kv.Storage.Engine.Reads.{
  get_value, mget, exists_many, strlen, ttl_ms, memory_usage, dbsize,
}
use ferrum_kv.Storage.Engine.Settings.{
  slowlog_armed, slowlog_would_log, maybe_push_slowlog, slowlog_get, slowlog_reset,
}
use ferrum_kv.Network.Shared.{Shared, Context, peer_of}
use ferrum_kv.Network.Respond.{
  as_i64, write_ok, write_int, write_bool_integer, write_value, write_values,
}
use ferrum_kv.Network.Parameters.{config_get, config_set}
use ferrum_kv.Network.Info.{render_info_sections, write_info}
use ferrum_kv.Network.Answers.{
  checked_seconds_to_ms, deadline_after, ttl_seconds, ttl_millis, encode_slowlog_entries,
  slowlog_count, write_float, write_usage, map_result, is_slowlog_meta, announce,
}

module _ {h : Host} where
  -- An engine with an answer, and the reply that is written for it.
  abbrev pub replied : {A : Type 0} → KvEngine h × A → (A → Bytes) → KvEngine h × Bytes
  replied (e, a) f = (e, f a)

  -- `rewrite_aof`; the rewrite itself is a thread of its own.
  unfoldable pub rewrite_aof : Context → KvEngine h → Result (Unit {0})
  rewrite_aof x e = elim e.aof [
    | none ↦ err aof_not_enabled
    | some _ ↦ if x.rewriting then ok tt else elim x.spawn_error [
      | none ↦ ok tt
      | some e ↦ err (internal (codes "failed to spawn aof rewrite thread: " ++ e))
    ]
  ]

  unfoldable pub run_config :
      KvEngine h → Bytes → List Bytes → Bytes → ProtocolVersion → KvEngine h × Bytes
  unfolding config_get config_set eq_ignore_ascii_case encode_error
  run_config e sub (a ∷ []) out version =
      if eq_ignore_ascii_case sub (codes "GET")
      then (e, config_get e a out version)
      else (e, encode_error out (codes "ERR unknown config subcommand"))
  run_config e sub (a ∷ b ∷ bs) out version =
      if eq_ignore_ascii_case sub (codes "GET")
      then (e, config_get e a out version)
      else if eq_ignore_ascii_case sub (codes "SET")
      then config_set e a b out
      else (e, encode_error out (codes "ERR unknown config subcommand"))
  run_config e sub [] out version = (e, encode_error out (codes "ERR unknown config subcommand"))

  unfoldable pub run_slow_log :
      Context → KvEngine h → Bytes → List Bytes → Bytes → KvEngine h × Bytes
  unfolding eq_ignore_ascii_case slowlog_count slowlog_get slowlog_reset encode_slowlog_entries
      encode_integer encode_simple_string encode_error
  run_slow_log x e sub as' out =
      if eq_ignore_ascii_case sub (codes "GET")
      then (elim (slowlog_count as') [
        | none ↦ (e, encode_error out (codes "ERR value is not an integer or out of range"))
        | some count ↦ (e, encode_slowlog_entries x.addr_text out (slowlog_get e count))
      ])
      else if eq_ignore_ascii_case sub (codes "LEN")
      then (e, encode_integer out (as_i64 (length e.slowlog)))
      else if eq_ignore_ascii_case sub (codes "RESET")
      then (slowlog_reset e, encode_simple_string out (codes "OK"))
      else (e, encode_error out (codes "ERR unknown slowlog subcommand"))

  -- The match over the commands.
  unfoldable pub dispatch :
      Context → KvEngine h → Command h.floats → Bytes → ProtocolVersion → KvEngine h × Bytes
  unfolding write_ok write_int write_bool_integer write_value write_values write_float write_usage
      checked_seconds_to_ms deadline_after ttl_seconds ttl_millis rewrite_aof run_config
      run_slow_log render_info_sections write_info encode_simple_string encode_error
      encode_array_header encode_bulk_string
  dispatch x e (Command.set key value) out v = replied (set x.clock e key value) (write_ok out)
  dispatch x e (Command.set_nx key value) out v =
      replied (set_nx x.clock e key value) (λ r. write_bool_integer out r v)
  dispatch x e (Command.mset pairs) out v = replied (mset x.clock e pairs) (write_ok out)
  dispatch x e (Command.mget keys) out v =
      replied (mget x.clock e keys) (λ vs. write_values v (encode_array_header out (length vs)) vs)
  dispatch x e (Command.incr_by key delta) out v =
      replied (incr_by x.clock e key delta) (write_int out)
  dispatch x e (Command.incr_by_float key delta) out v =
      replied (incr_by_float x.clock e key delta) (write_float h.floats v out)
  dispatch x e (Command.get key) out v = replied (get_value x.clock e key) (write_value v out)
  dispatch x e (Command.del keys) out v =
      replied (del_many x.clock e keys) (λ n. write_int out (ok (as_i64 n)))
  dispatch x e (Command.exists keys) out v =
      replied (exists_many x.clock e keys) (λ n. write_int out (ok (as_i64 n)))
  dispatch x e (Command.ping none) out v = (e, encode_simple_string out (codes "PONG"))
  dispatch x e (Command.ping (some m)) out v = (e, encode_bulk_string out m)
  dispatch x e (Command.append key value) out v =
      replied (append_value x.clock e key value) (λ r. write_int out (map_result as_i64 r))
  dispatch x e (Command.str_len key) out v =
      replied (strlen x.clock e key) (λ n. write_int out (ok (as_i64 n)))
  dispatch x e Command.db_size out v = (e, write_int out (ok (as_i64 (dbsize x.clock e))))
  dispatch x e Command.flush_db out v = (flushdb x.clock e, encode_simple_string out (codes "OK"))
  dispatch x e (Command.expire key seconds) out v =
      replied
        (expire_at_ms x.clock e key (deadline_after x.clock.now_ms (checked_seconds_to_ms seconds)))
        (λ b. write_bool_integer out (ok b) v)
  dispatch x e (Command.p_expire key ms) out v =
      replied (expire_at_ms x.clock e key (deadline_after x.clock.now_ms (some ms)))
        (λ b. write_bool_integer out (ok b) v)
  dispatch x e (Command.p_expire_at key abs_epoch_ms) out v =
      replied (expire_at_ms x.clock e key abs_epoch_ms) (λ b. write_bool_integer out (ok b) v)
  dispatch x e (Command.persist key) out v =
      replied (persist x.clock e key) (λ b. write_bool_integer out (ok b) v)
  dispatch x e (Command.ttl key) out v =
      replied (ttl_ms x.clock e key) (λ s. write_int out (ok (ttl_seconds s)))
  dispatch x e (Command.p_ttl key) out v =
      replied (ttl_ms x.clock e key) (λ s. write_int out (ok (ttl_millis s)))
  dispatch x e (Command.memory_usage key) out v =
      replied (memory_usage x.clock e key) (λ n. write_usage v out n)
  dispatch x e (Command.info section) out v =
      (e, write_info v out (render_info_sections x e section))
  dispatch x e (Command.config sub as') out v = run_config e sub as' out v
  dispatch x e (Command.slow_log sub as') out v = run_slow_log x e sub as' out
  dispatch x e (Command.auth password) out v =
      (e, encode_error out (codes "ERR internal: AUTH handled by connection layer"))
  dispatch x e Command.rewrite_aof out v = (e, write_ok out (rewrite_aof x e))
  dispatch x e Command.monitor out v =
      (e, encode_error out (codes "ERR internal: MONITOR handled by connection layer"))
  dispatch x e (Command.hello version) out v =
      (e, encode_error out (codes "ERR internal: HELLO handled by connection layer"))

  -- The slow log behind a command, if it was armed before.
  unfoldable pub log_slow : Context → Bool → Command h.floats → KvEngine h → KvEngine h
  unfolding slowlog_would_log maybe_push_slowlog args_redacted
  log_slow x armed cmd e =
      if not (is_slowlog_meta cmd) && armed
      then (if slowlog_would_log e x.elapsed_us
          then maybe_push_slowlog e x.ts_secs (args_redacted cmd) (peer_of x.client) x.elapsed_us
          else e)
      else e

  unfoldable pub execute_command :
      Context → Shared h → Command h.floats → Bytes → ProtocolVersion → Shared h × Bytes
  unfolding announce dispatch slowlog_armed log_slow
  execute_command x s cmd out version =
      let counted = record s.engine { total_commands = bump s.engine.total_commands } in
      let (e, out1) = dispatch x counted cmd out version in
      (
        record {
          engine = log_slow x (slowlog_armed counted) cmd e;
          monitors = announce x s.monitors cmd;
        },
        out1,
      )
