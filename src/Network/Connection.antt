-- ===== src/Network/Connection.antt =====
-- `handle_client` of network/server.rs: one connection, from what its socket delivers to what is
-- written to it. `inbuf` is what the code has behind `start`. A command does not panic, so a task of
-- the blocking pool gives its reply; the peer's address is known.
pub mod Loop
pub mod Progress
pub mod Blind
pub mod Discreet
pub mod Secrecy
pub mod OneReply
pub mod InOrder
pub mod Pipeline
use ferrum_kv.Prelude.{
  ℕ, zero, suc, ◌+◌, ◌*◌, Bool, true, false, ◌&&◌, not, ◌==◌, Option, none, some, List, [], ◌∷◌,
  ◌++◌, Bytes, codes, length, drop, ltb, leb, if◌then◌else◌,
}
use ferrum_kv.Error.{FerrumError, io_error, Result, ok, err}
use ferrum_kv.Floats.{Floats}
use ferrum_kv.Protocol.Text.{Rendering}
use ferrum_kv.Protocol.Command
use ferrum_kv.Protocol.Command.{Command}
use ferrum_kv.Protocol.Frame.{FrameParse, complete, invalid, incomplete, parse_frame}
use ferrum_kv.Protocol.Encoder.{ProtocolVersion, resp2, resp3, encode_simple_string, encode_error}
use ferrum_kv.Storage.Engine.{Host, KvEngine, value_max_bytes}
use ferrum_kv.Storage.Engine.Settings.{authenticate}
use ferrum_kv.Network.Shared.{Shared, Context, subscribe}
use ferrum_kv.Network.Respond.{hello_reply, write_ferrum_error}
use ferrum_kv.Network.Execute.{execute_command}

abbrev pub read_buf_max : ℕ
read_buf_max = value_max_bytes + 1024 * 1024

abbrev pub write_batch_max : ℕ
write_batch_max = 64 * 1024

-- What one frame meets: the clocks, `aof_barrier_blocks`, and the outcome of a write to the socket, of
-- the replies so far (`drained`, when the buffer has no further frame) or with this one (`written`).
pub record Moment : Type 0 where
  pub context : Context
  pub barrier_blocks : Bool
  pub drained : Result (Unit {0})
  pub written : Result (Unit {0})

-- `sent` is what the socket has taken.
pub record Connection : Type 0 where
  pub inbuf : Bytes
  pub outbuf : Bytes
  pub authed : Bool
  pub version : ProtocolVersion
  pub sent : Bytes

-- What `select!` wakes up for: a shutdown, or the outcome of a read.
pub data Event : Type 0 where
  shutdown eof idle_timeout : Event
  chunk : Bytes → Event
  read_error : Bytes → Event

abbrev pub connected : Connection
connected = record { inbuf = []; outbuf = []; authed = false; version = resp2; sent = [] }

-- Where the handler is: it reads the next chunk, it has returned, or it streams to a MONITOR client.
pub data Stage : Type 0 where
  reading monitoring exhausted : Stage
  returned : Result (Unit {0}) → Stage

pub record Served (h : Host) : Type 0 where
  pub shared : Shared h
  pub connection : Connection
  pub stage : Stage
  -- The frames that were handled.
  pub frames : ℕ

-- The commands that the connection answers itself, and the others.
pub data Gate : Type 0 where
  by_auth : Bytes → Gate
  by_hello : Option ℕ → Gate
  by_monitor by_engine : Gate

-- `write_all` of the replies, which are then cleared.
abbrev pub flushed : Connection → Connection
flushed c = record c { outbuf = []; sent = c.sent ++ c.outbuf }

-- `version` behind a HELLO.
unfoldable pub new_version : Option ℕ → ProtocolVersion → ProtocolVersion
new_version none version = version
new_version (some v) version = if v == 2 then resp2 else if v == 3 then resp3 else version

abbrev pub gate : {fl : Floats} → Command fl → Gate
gate (Command.auth password) = by_auth password
gate (Command.hello version) = by_hello version
gate Command.monitor = by_monitor
gate _ = by_engine

module _ {h : Host} where
  -- `auth_reply`: the reply, and whether the client has authenticated.
  unfoldable pub auth_reply : KvEngine h → Bytes → Bytes → Bytes × Bool
  unfolding authenticate encode_simple_string encode_error write_ferrum_error
  auth_reply e password out = elim (authenticate e password) [
    | ok true ↦ (encode_simple_string out (codes "OK"), true)
    | ok false ↦ (
      encode_error out (codes "WRONGPASS invalid username-password pair or user is disabled."),
      false,
    )
    | err x ↦ (write_ferrum_error out x, false)
  ]

  abbrev pub served : Shared h → Connection → Stage → Served h
  served s c stage = record { shared = s; connection = c; stage = stage; frames = 0 }

  -- A command of the engine, behind the gate; with a barrier it runs in the blocking pool, on a buffer
  -- of its own.
  unfoldable pub run_command :
      Moment → Shared h → Connection → Command h.floats → Shared h × Connection
  unfolding execute_command encode_error
  run_command m s c cmd =
      if s.engine.auth_required && not c.authed
      then (
        s,
        record c { outbuf = encode_error c.outbuf (codes "NOAUTH Authentication required.") },
      )
      else if m.barrier_blocks
      then (let (s', reply) = execute_command m.context s cmd [] c.version in
          (s', record c { outbuf = c.outbuf ++ reply }))
      else (let (s', out) = execute_command m.context s cmd c.outbuf c.version in
          (s', record c { outbuf = out }))

  unfoldable pub on_gate : Moment → Shared h → Connection → Command h.floats → Gate → Served h
  unfolding auth_reply new_version hello_reply encode_simple_string run_command subscribe
  on_gate m s c cmd (by_auth password) =
      let (out, success) = auth_reply s.engine password c.outbuf in
      served s (record c { outbuf = out; authed = elim success [ true ↦ true | false ↦ c.authed ] })
        reading
  on_gate m s c cmd (by_hello v) =
      let version = new_version v c.version in
      served s (record c { outbuf = hello_reply c.outbuf version; version = version }) reading
  on_gate m s c cmd by_monitor =
      let c' = record c { outbuf = encode_simple_string c.outbuf (codes "OK") } in
      elim m.written [
        | ok _ ↦ served (record s { monitors = subscribe s.monitors }) (flushed c') monitoring
        | err e ↦ served s c' (returned (err e))
      ]
  on_gate m s c cmd by_engine = let (s', c') = run_command m s c cmd in served s' c' reading

  -- The replies are written when they have reached the watermark.
  unfoldable pub write_batch : Result (Unit {0}) → Served h → Served h
  write_batch written x = elim x.stage [
    | reading ↦
        if leb write_batch_max (length x.connection.outbuf)
        then (elim written [
          | ok _ ↦ record x { connection = flushed x.connection }
          | err e ↦ record x { stage = returned (err e) }
        ])
        else x
    | other ↦ x
  ]

  -- One complete or invalid frame, which is `consumed` bytes long.
  unfoldable pub on_command : Moment → Shared h → Connection → Command h.floats → ℕ → Served h
  unfolding on_gate write_batch
  on_command m s c cmd consumed =
      write_batch m.written
        (on_gate m s (record c { inbuf = drop consumed c.inbuf }) cmd (gate cmd))

  unfoldable pub on_invalid : Moment → Shared h → Connection → FerrumError → ℕ → Served h
  unfolding write_ferrum_error write_batch
  on_invalid m s c error consumed = write_batch m.written (
      served s
        (record c { inbuf = drop consumed c.inbuf; outbuf = write_ferrum_error c.outbuf error })
        reading)

  -- A protocol error is told and ends the connection; a failed write changes nothing in that.
  unfoldable pub refuse : Moment → Shared h → Connection → Bytes → Served h
  refuse m s c out = elim m.written [
    | ok _ ↦ served s (flushed (record c { outbuf = out })) (returned (ok tt))
    | err _ ↦ served s (record c { outbuf = out }) (returned (ok tt))
  ]
