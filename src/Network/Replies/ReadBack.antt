-- ===== src/Network/Replies/ReadBack.antt =====
-- What a client reads from the reply to a GET.
use ferrum_kv.Prelude.{◌≡◌, ap, ◌∙◌, Bool, Option, none, some, [], ◌++◌, Bytes, arith}
use ferrum_kv.Protocol.Command.{Command}
use ferrum_kv.Protocol.Encoder.{ProtocolVersion}
use ferrum_kv.Protocol.Reply.{Reply, bulk, read_reply}
use ferrum_kv.Protocol.Reply.RoundTrip.{read_reply-wire}
use ferrum_kv.Storage.Assoc.{Distinct}
use ferrum_kv.Storage.Engine.{Host, KvEngine, bump}
use ferrum_kv.Storage.Engine.Reads.{get_value}
use ferrum_kv.Storage.Engine.Settings.{slowlog_armed, maybe_push_slowlog}
use ferrum_kv.Storage.Engine.Refinement.{view}
use ferrum_kv.Storage.Engine.Refinement.Lookup.{value_of}
use ferrum_kv.Storage.Engine.Refinement.Lookups.{get_value-view}
use ferrum_kv.Network.Shared.{Shared, Context}
use ferrum_kv.Network.Respond.{write_value}
use ferrum_kv.Network.Execute.{log_slow, dispatch, execute_command}
use ferrum_kv.Network.Replies.{null_of, null-Writes, null-IsValid, bulk-Writes}

-- The value that a client is told: the null of its version, or a bulk string.
abbrev pub value_reply : ProtocolVersion → Option Bytes → Reply
value_reply v none = null_of v
value_reply v (some x) = bulk x

read_reply-write_value :
    (v : ProtocolVersion) (o : Option Bytes) (rest : Bytes)
    → read_reply 1 (write_value v [] o ++ rest) ≡ some (value_reply v o, rest)
unfolding write_value
read_reply-write_value v none rest =
    ap (read_reply 1) (null-Writes v [] rest)
    ∙ read_reply-wire (null_of v) 1 rest (null-IsValid v).0 (omega (arith, (null-IsValid v).1))
read_reply-write_value v (some x) rest =
    ap (read_reply 1) (bulk-Writes [] x rest) ∙ read_reply-wire (bulk x) 1 rest tt (omega arith)

module _ {h : Host} where
  log_slow-store :
      (x : Context) (armed : Bool) (cmd : Command h.floats) (e : KvEngine h)
      → (log_slow x armed cmd e).store ≡ e.store
  unfolding log_slow maybe_push_slowlog
  log_slow-store x armed cmd e = ground arith

  -- From the reply to a GET, in either version of the protocol and with anything behind it, a client
  -- reads the value that the abstract keyspace has for the key as a bulk string, or null if it has none,
  -- and is left with what is behind; the abstract keyspace is as it was at any key. No key stands twice.
  pub execute_command-get :
      (x : Context) (s : Shared h) (key j : Bytes) (v : ProtocolVersion) (rest : Bytes)
      → Distinct s.engine.store
      → let after = execute_command x s (Command.get key) [] v in
        let now = x.clock.now in
        (read_reply 1 (after.1 ++ rest)
          ≡ some (value_reply v (value_of (view s.engine.store now key)), rest))
        × (view after.0.engine.store now j ≡ view s.engine.store now j)
  unfolding execute_command dispatch
  execute_command-get x s key j v rest d =
      let counted = record s.engine { total_commands = bump s.engine.total_commands } in
      let found = get_value-view x.clock counted key j d in
      let e = (get_value x.clock counted key).0 in
      (
        ap (λ o. read_reply 1 (write_value v [] o ++ rest)) found.0
            ∙ read_reply-write_value v (value_of (view s.engine.store x.clock.now key)) rest,
        ap (λ m. view m x.clock.now j)
              (log_slow-store x (slowlog_armed counted) (Command.get key) e)
            ∙ found.1,
      )
