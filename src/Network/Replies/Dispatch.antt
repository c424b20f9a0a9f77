-- ===== src/Network/Replies/Dispatch.antt =====
-- `execute_command` appends exactly one conforming value to the output, whatever the command.
use ferrum_kv.Prelude.{
  ◌≡◌, refl, true, none, some, List, [], ◌∷◌, Bytes, codes, length, All, Bool-cases, Option-cases,
  inl, inr,
}
use ferrum_kv.Error.{ok}
use ferrum_kv.Floats.{Floats}
use ferrum_kv.Protocol.Command.{Command}
use ferrum_kv.Protocol.Encoder.{ProtocolVersion, encode_simple_string, encode_error}
use ferrum_kv.Protocol.Reply.{IsLine}
use ferrum_kv.Config.Text.{eq_ignore_ascii_case}
use ferrum_kv.Storage.Engine.{Host, KvEngine, bump}
use ferrum_kv.Storage.Engine.Settings.{slowlog_get}
use ferrum_kv.Network.Shared.{Shared, Context}
use ferrum_kv.Network.Respond.{as_i64}
use ferrum_kv.Network.Info.{render_info_sections}
use ferrum_kv.Network.Answers.{
  slowlog_count, deadline_after, checked_seconds_to_ms, ttl_seconds, ttl_millis,
}
use ferrum_kv.Storage.Engine.Reads.{mget, exists_many, strlen, ttl_ms, dbsize}
use ferrum_kv.Storage.Engine.Commands.{del_many, expire_at_ms, persist}
use ferrum_kv.Network.Execute.{run_config, run_slow_log, dispatch, execute_command}
use ferrum_kv.Network.Replies.{
  Answered, one_line, one_line-IsLine, simple-Answered, error-Answered, integer-Answered,
  bulk-Answered, ok-Answered, int-Answered, bool_integer-Answered, value-Answered,
}
use ferrum_kv.Network.Replies.Sequences.{values-AnsweredAll, array-Answered}
use ferrum_kv.Network.Replies.Commands.{
  float-Answered, usage-Answered, info-Answered, slowlog-Answered, config_get-Answered,
}
use ferrum_kv.Network.Replies.Settings.{config_set-Answered}

-- A CONFIG whose arguments are on one line: its errors tell them.
abbrev pub OnOneLine : {fl : Floats} → Command fl → Type 0
OnOneLine (Command.config sub as') = All IsLine as'
OnOneLine _ = Unit {0}

literal : (out text : Bytes) → one_line text ≡ true → Answered 3 out (encode_error out text)
literal out text q = error-Answered out text (one_line-IsLine text q)

word : (out text : Bytes) → one_line text ≡ true → Answered 3 out (encode_simple_string out text)
word out text q = simple-Answered out text (one_line-IsLine text q)

module _ {h : Host} where
  run_config-Answered :
      (e : KvEngine h) (sub : Bytes) (as' : List Bytes) (out : Bytes) (v : ProtocolVersion)
      → All IsLine as'
      → Answered 3 out (run_config e sub as' out v).1
  unfolding run_config
  run_config-Answered e sub [] out v l = literal out (codes "ERR unknown config subcommand") refl
  run_config-Answered e sub (a ∷ []) out v l =
      elim (Bool-cases (eq_ignore_ascii_case sub (codes "GET"))) [
        | inl y ↦ rw (run_config, y) (config_get-Answered e a out v)
        | inr n ↦ rw (run_config, n) (literal out (codes "ERR unknown config subcommand") refl)
      ]
  run_config-Answered e sub (a ∷ b ∷ bs) out v l =
      elim (Bool-cases (eq_ignore_ascii_case sub (codes "GET"))) [
        | inl y ↦ rw (run_config, y) (config_get-Answered e a out v)
        | inr n ↦ elim (Bool-cases (eq_ignore_ascii_case sub (codes "SET"))) [
          | inl y ↦ rw (run_config, n, y) (config_set-Answered e a b out l.0 l.1.0)
          | inr m ↦ rw (run_config, n, m) (literal out (codes "ERR unknown config subcommand") refl)
        ]
      ]

  run_slow_log-Answered :
      (x : Context) (e : KvEngine h) (sub : Bytes) (as' : List Bytes) (out : Bytes)
      → Answered 3 out (run_slow_log x e sub as' out).1
  unfolding run_slow_log
  run_slow_log-Answered x e sub as' out =
      elim (Bool-cases (eq_ignore_ascii_case sub (codes "GET"))) [
        | inl y ↦ elim (Option-cases (slowlog_count as')) [
          | inl p ↦
              rw (run_slow_log, y, p)
                (literal out (codes "ERR value is not an integer or out of range") refl)
          | inr (n, p) ↦
              rw (run_slow_log, y, p) (slowlog-Answered x.addr_text out (slowlog_get e n))
        ]
        | inr n ↦ elim (Bool-cases (eq_ignore_ascii_case sub (codes "LEN"))) [
          | inl y ↦ rw (run_slow_log, n, y) (integer-Answered out (as_i64 (length e.slowlog)))
          | inr m ↦ elim (Bool-cases (eq_ignore_ascii_case sub (codes "RESET"))) [
            | inl y ↦ rw (run_slow_log, n, m, y) (word out (codes "OK") refl)
            | inr k ↦
                rw (run_slow_log, n, m, k)
                  (literal out (codes "ERR unknown slowlog subcommand") refl)
          ]
        ]
      ]

  module _ (printed : (x : h.floats.F64) → IsLine (h.floats.f64_print_17 x)) where
    dispatch-Answered :
        (x : Context) (e : KvEngine h) (cmd : Command h.floats) (out : Bytes) (v : ProtocolVersion)
        → OnOneLine cmd
        → Answered 3 out (dispatch x e cmd out v).1
    unfolding dispatch
    dispatch-Answered x e (Command.set key value) out v l = ok-Answered out _
    dispatch-Answered x e (Command.set_nx key value) out v l = bool_integer-Answered out _ v
    dispatch-Answered x e (Command.mset pairs) out v l = ok-Answered out _
    dispatch-Answered x e (Command.mget keys) out v l =
        array-Answered out _ _ (values-AnsweredAll v (mget x.clock e keys).1 _)
    dispatch-Answered x e (Command.incr_by key delta) out v l = int-Answered out _
    dispatch-Answered x e (Command.incr_by_float key delta) out v l =
        float-Answered h.floats printed v out _
    dispatch-Answered x e (Command.get key) out v l = value-Answered v out _
    dispatch-Answered x e (Command.del keys) out v l =
        int-Answered out (ok (as_i64 (del_many x.clock e keys).1))
    dispatch-Answered x e (Command.exists keys) out v l =
        int-Answered out (ok (as_i64 (exists_many x.clock e keys).1))
    dispatch-Answered x e (Command.ping none) out v l = word out (codes "PONG") refl
    dispatch-Answered x e (Command.ping (some m)) out v l = bulk-Answered out m
    dispatch-Answered x e (Command.append key value) out v l = int-Answered out _
    dispatch-Answered x e (Command.str_len key) out v l =
        int-Answered out (ok (as_i64 (strlen x.clock e key).1))
    dispatch-Answered x e Command.db_size out v l =
        int-Answered out (ok (as_i64 (dbsize x.clock e)))
    dispatch-Answered x e Command.flush_db out v l = word out (codes "OK") refl
    dispatch-Answered x e (Command.expire key seconds) out v l =
        bool_integer-Answered out
          (ok
            (expire_at_ms x.clock e key
              (deadline_after x.clock.now_ms (checked_seconds_to_ms seconds))).1)
          v
    dispatch-Answered x e (Command.p_expire key ms) out v l =
        bool_integer-Answered out
          (ok (expire_at_ms x.clock e key (deadline_after x.clock.now_ms (some ms))).1) v
    dispatch-Answered x e (Command.p_expire_at key ms) out v l =
        bool_integer-Answered out (ok (expire_at_ms x.clock e key ms).1) v
    dispatch-Answered x e (Command.persist key) out v l =
        bool_integer-Answered out (ok (persist x.clock e key).1) v
    dispatch-Answered x e (Command.ttl key) out v l =
        int-Answered out (ok (ttl_seconds (ttl_ms x.clock e key).1))
    dispatch-Answered x e (Command.p_ttl key) out v l =
        int-Answered out (ok (ttl_millis (ttl_ms x.clock e key).1))
    dispatch-Answered x e (Command.memory_usage key) out v l = usage-Answered v out _
    dispatch-Answered x e (Command.info section) out v l =
        info-Answered v out (render_info_sections x e section)
    dispatch-Answered x e (Command.config sub as') out v l = run_config-Answered e sub as' out v l
    dispatch-Answered x e (Command.slow_log sub as') out v l = run_slow_log-Answered x e sub as' out
    dispatch-Answered x e (Command.auth password) out v l =
        literal out (codes "ERR internal: AUTH handled by connection layer") refl
    dispatch-Answered x e Command.rewrite_aof out v l = ok-Answered out _
    dispatch-Answered x e Command.monitor out v l =
        literal out (codes "ERR internal: MONITOR handled by connection layer") refl
    dispatch-Answered x e (Command.hello version) out v l =
        literal out (codes "ERR internal: HELLO handled by connection layer") refl

    -- Every command, in either version of the protocol, appends exactly one conforming value to the
    -- output, no deeper than three, if the arguments of a CONFIG and the texts of doubles hold no CR and
    -- no LF. The lines of a conforming value have no CR and no LF.
    pub execute_command-Answered :
        (x : Context) (s : Shared h) (cmd : Command h.floats) (out : Bytes) (v : ProtocolVersion)
        → OnOneLine cmd
        → Answered 3 out (execute_command x s cmd out v).1
    unfolding execute_command
    execute_command-Answered x s cmd out v l =
        dispatch-Answered x (record s.engine { total_commands = bump s.engine.total_commands }) cmd
          out v l
