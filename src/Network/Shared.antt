-- ===== src/Network/Shared.antt =====
-- What the connections share, `MonitorRegistry` of network/monitor.rs, and what a command finds around
-- it. A socket address is a number here, and a channel is the messages that wait in it.
use ferrum_kv.Prelude.{ℕ, Bool, true, false, Option, none, some, List, [], ◌∷◌, ◌++◌, Bytes}
use ferrum_kv.Storage.Entry.{Clock}
use ferrum_kv.Storage.Engine.{Host, KvEngine}

pub record MonitorMessage : Type 0 where
  pub timestamp_ms : ℕ
  pub peer : ℕ
  pub args : List Bytes

-- A MONITOR client: whether it still receives, and what it was sent.
pub record Subscriber : Type 0 where
  pub listens : Bool
  pub inbox : List MonitorMessage

abbrev pub MonitorRegistry : Type 0
MonitorRegistry = List Subscriber

unfoldable pub subscribe : MonitorRegistry → MonitorRegistry
subscribe senders = senders ++ record { listens = true; inbox = [] } ∷ []

unfoldable pub has_subscribers : MonitorRegistry → Bool
has_subscribers [] = false
has_subscribers (s ∷ senders) = true

-- `retain`: the senders whose receiver is gone are dropped.
unfoldable pub send : MonitorMessage → MonitorRegistry → MonitorRegistry
send msg [] = []
send msg (s ∷ senders) = elim s.listens [
  | true ↦ record s { inbox = s.inbox ++ msg ∷ [] } ∷ send msg senders
  | false ↦ send msg senders
]

-- The shared engine, with the registry that it carries.
pub record Shared (h : Host) : Type 0 where
  pub engine : KvEngine h
  pub monitors : MonitorRegistry

-- What one command meets: the clocks, its duration, the state of the log's writer, the client.
pub record Context : Type 0 where
  pub clock : Clock
  pub elapsed_us : ℕ
  pub ts_secs : ℕ
  pub client : Option ℕ
  -- A rewrite of the log is in flight; a thread for one cannot be had, for this reason.
  pub rewriting : Bool
  pub spawn_error : Option Bytes
  pub aof_fsyncs : ℕ
  pub aof_fsync_skips : ℕ
  pub aof_append_batches : ℕ
  -- `SocketAddr::to_string`
  pub addr_text : ℕ → Bytes

-- The address 0.0.0.0:0 of a command that has no client.
abbrev pub no_addr : ℕ
no_addr = 0

abbrev pub peer_of : Option ℕ → ℕ
peer_of none = no_addr
peer_of (some a) = a
