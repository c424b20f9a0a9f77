-- ===== src/Network/Tests.antt =====
-- A server with one key, a client with and without its password, and the theorems at them.
use ferrum_kv.Prelude.{
  ◌≡◌, refl, ℕ, Bool, true, false, none, some, List, [], ◌∷◌, ◌++◌, arith, codes, bytes_eq,
}
use ferrum_kv.Prelude.Decimal.{print_nat, parse_i64}
use ferrum_kv.Storage.Engine.Settings.{authenticate}
use ferrum_kv.Error.{ok}
use ferrum_kv.Floats.{exact}
use ferrum_kv.Storage.IndexMap.Lists.{list_map}
use ferrum_kv.Storage.Entry.{Clock, new_with, is_expired}
use ferrum_kv.Storage.Engine.Refinement.{view}
use ferrum_kv.Storage.Engine
use ferrum_kv.Storage.Engine.{Host, KvEngine}
use ferrum_kv.Protocol.Text.{Rendering}
use ferrum_kv.Protocol.Command.{Command, args}
use ferrum_kv.Protocol.Frame.{encode_command}
use ferrum_kv.Protocol.Args
use ferrum_kv.Protocol.Encoder.{resp2}
use ferrum_kv.Protocol.Reply.{Reply, read_reply}
use ferrum_kv.Network.Shared.{Shared, Context}
use ferrum_kv.Network.Replies.{Answered}
use ferrum_kv.Network.Replies.Sequences.{AnsweredAll}
use ferrum_kv.Network.Replies.ReadBack.{execute_command-get}
use ferrum_kv.Network.Replies.Dispatch.{execute_command-Answered}
use ferrum_kv.Network.Execute.{execute_command}
use ferrum_kv.Network.Admission.{
  idle, rejected, guarded, compared, load, full, exchange, observe, at, Reachable, start, then,
  Counts, Reachable-Counts,
}
use ferrum_kv.Protocol.Text.{is_utf8}
use ferrum_kv.Protocol.Encoder.{encode_simple_string}
use ferrum_kv.Config.Text.{ascii_lowercase, lower}
use ferrum_kv.Config.File.Sizes.{in_kb}
use ferrum_kv.Network.Parameters.RoundTrip.{memory, config_set-config_get}
use ferrum_kv.Network.Parameters.{write_map, config_get, config_set}
use ferrum_kv.Network.Parameters.Stores.{Settles}
use ferrum_kv.Network.Parameters.Refusals.{config_set-Settles}
use ferrum_kv.Network.Connection.{monitoring, Moment, Connection, Event, chunk, eof, connected}
use ferrum_kv.Network.Connection.Loop.{drain, handle_client}
use ferrum_kv.Network.Connection.Progress.{ends, handle_client-ends}
use ferrum_kv.Network.Connection.Secrecy.{Blind, handle_client-Blind}
use ferrum_kv.Network.Connection.OneReply.{told}
use ferrum_kv.Network.Connection.InOrder.{requests, drain-AnsweredAll}
use ferrum_kv.Network.Connection.Pipeline.{encode_all, Drained, drain-encode_all}

abbrev host : Host
host = record { floats = exact; sieve_map = list_map Bool; climb_map = list_map (Unit {0}) }

abbrev clock : Clock
clock = record { now = 5_000_000_000; now_ms = 1_000_000; minute = 16 }

abbrev context : Context
context = record {
  clock = clock;
  elapsed_us = 5;
  ts_secs = 1_000;
  client = some 7;
  rewriting = false;
  spawn_error = none;
  aof_fsyncs = 0;
  aof_fsync_skips = 0;
  aof_append_batches = 0;
  addr_text = λ a. codes "127.0.0.1:7";
}

abbrev moment : ℕ → Moment
moment n = record { context = context; barrier_blocks = false; drained = ok tt; written = ok tt }

abbrev plainly : Rendering
plainly = record { debug_char = λ b. b ∷ []; debug_text = λ text. text; lossy = λ text. text }

abbrev open_engine : KvEngine host
unfolding Engine.new
open_engine = Engine.new host 1

-- Two servers with the password "pw", one of which has counted a command.
abbrev locked : Shared host
unfolding Engine.new
locked = record {
  engine = record (Engine.new host 1) { auth_password = some (codes "pw"); auth_required = true };
  monitors = [];
}

abbrev busy : Shared host
busy = record { engine = record locked.engine { total_commands = 1 }; monitors = [] }

abbrev unlocked : Shared host
unlocked = record { engine = open_engine; monitors = [] }

-- A server with one key.
abbrev stocked : Shared host
unfolding new_with
stocked = record {
  engine = record open_engine { store = (codes "k", new_with clock (codes "v") none) ∷ [] };
  monitors = [];
}

execute_command-get_example :
    (read_reply 1
        ((execute_command context stocked (Command.get (codes "k")) [] resp2).1 ++ codes "+OK")
      ≡ some (Reply.bulk (codes "v"), codes "+OK"))
    × (view
          (execute_command context stocked (Command.get (codes "k")) [] resp2).0.engine.store
          5_000_000_000
          (codes "k")
        ≡ some (codes "v", none))
unfolding stocked new_with bytes_eq is_expired
execute_command-get_example =
    execute_command-get context stocked (codes "k") (codes "k") resp2 (codes "+OK") (refl, tt)

execute_command-Answered_example :
    Answered 3
      (codes "+OK")
      (execute_command context unlocked (Command.set (codes "k") (codes "v")) (codes "+OK") resp2).1
execute_command-Answered_example =
    execute_command-Answered (λ x. tt) context unlocked (Command.set (codes "k") (codes "v"))
      (codes "+OK") resp2 tt

-- A wrong password, and a read.
abbrev guesses : List Event
guesses =
    chunk (codes "*2\r\n$4\r\nAUTH\r\n$1\r\nx\r\n*2\r\n$3\r\nGET\r\n")
    ∷ chunk (codes "$1\r\nk\r\n")
    ∷ eof
    ∷ []

handle_client-ends_example :
    ends (handle_client plainly moment 0 locked connected guesses).stage ≡ true
handle_client-ends_example = handle_client-ends plainly moment guesses 0 locked connected

handle_client-Blind_example :
    Blind locked busy
      (handle_client plainly moment 0 locked connected guesses)
      (handle_client plainly moment 0 busy connected guesses)
unfolding locked handle_client authenticate
handle_client-Blind_example =
    handle_client-Blind plainly moment 0 locked busy connected guesses
      (record { password = refl; required = refl; required' = refl }) refl refl

abbrev pipeline : List (Command exact)
pipeline = Command.get (codes "k") ∷ Command.ping none ∷ []

abbrev asked : Connection
asked = record connected { inbuf = encode_all pipeline }

drain-AnsweredAll_example :
    let x = drain {h = host} plainly moment 9 0 unlocked asked in
    AnsweredAll 4 (told asked) (told x.connection) x.frames
unfolding requests args encode_command print_nat parse_i64 bytes_eq
drain-AnsweredAll_example =
    drain-AnsweredAll (λ x. tt) plainly moment 9 0 unlocked asked (tt, (tt, tt))

drain-encode_all_example :
    let x = drain {h = host} plainly moment 3 0 unlocked asked in
    Drained 2 x × AnsweredAll 4 (told asked) (told x.connection) 2
unfolding args
drain-encode_all_example =
    drain-encode_all plainly moment (λ n. refl) (λ x. tt) pipeline 0 unlocked asked
      (
        record {
          canonical = Args.get (codes "k");
          few = omega arith;
          short = (omega arith, (omega arith, tt));
          ordinary = refl;
          one_line = tt;
        },
        (
          record {
            canonical = Args.ping none;
            few = omega arith;
            short = (omega arith, tt);
            ordinary = refl;
            one_line = tt;
          },
          tt,
        ),
      )
      refl

-- Two threads under a limit of one: the second one's exchange fails, and it is rejected.
race : Reachable 1 (record { active = 1; acceptors = guarded ∷ rejected ∷ [] })
race =
    then
      (then
        (then
          (then (then (start (idle ∷ idle ∷ []) refl) (at [] (idle ∷ []) (load (omega arith))))
            (at (compared 0 ∷ []) [] (load (omega arith))))
          (at [] (compared 0 ∷ []) (exchange (omega arith))))
        (at (guarded ∷ []) [] (observe (omega arith) (omega arith))))
      (at (guarded ∷ []) [] (full (omega arith)))

Reachable-Counts_example : Counts 1 (record { active = 1; acceptors = guarded ∷ rejected ∷ [] })
Reachable-Counts_example =
    Reachable-Counts 1 (record { active = 1; acceptors = guarded ∷ rejected ∷ [] }) race

-- A value that is no number.
config_set-Settles_example :
    Settles locked.engine
      (ascii_lowercase (codes "maxmemory"))
      (codes "lots")
      (codes "+OK")
      (config_set locked.engine (codes "maxmemory") (codes "lots") (codes "+OK"))
config_set-Settles_example =
    config_set-Settles locked.engine (codes "maxmemory") (codes "lots") (codes "+OK")

config_set-config_get_example :
    ((config_set locked.engine (codes "MaxMemory") (codes "2KB") []).1 ≡ codes "+OK\r\n")
    × (config_get
          (config_set locked.engine (codes "MaxMemory") (codes "2KB") []).0
          (codes "MaxMemory")
          []
          resp2
        ≡ codes "*2\r\n$9\r\nmaxmemory\r\n$4\r\n2048\r\n")
unfolding ascii_lowercase lower print_nat is_utf8 encode_simple_string write_map
config_set-config_get_example =
    config_set-config_get locked.engine (codes "MaxMemory") (codes "2KB") (codes "2048") [] [] resp2
      (memory 2 1_024 (codes "KB") (omega arith) (omega arith) (refl, (refl, tt)) in_kb) refl refl

-- A client that has not authenticated is served by MONITOR.
monitor_bypass :
    (handle_client plainly moment 0 locked connected
      (chunk (codes "*1\r\n$7\r\nMONITOR\r\n") ∷ [])).stage
    ≡ monitoring
unfolding locked handle_client
monitor_bypass = refl

-- A line break in a parameter's name ends the error's line: what follows is one more reply.
split_reply :
    (config_set locked.engine (codes "x\r\n+OK") (codes "1") []).1
    ≡ codes "-ERR Unknown parameter 'x\r\n+ok'\r\n"
unfolding config_set
split_reply = refl
