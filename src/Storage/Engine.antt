-- ===== src/Storage/Engine.antt =====
-- `KvEngine` of storage/engine/: its state, and in the modules below its operations and their proofs.
pub mod Track
pub mod Evict
pub mod Memory
pub mod Limit
pub mod Progress
pub mod Growth
pub mod Guard
pub mod Commands
pub mod Budget
pub mod Steps
pub mod Compound
pub mod History
pub mod Behaviour
pub mod Refinement
mod Tests
pub mod Reads
pub mod Sweep
pub mod Settings
pub mod Glob
use ferrum_kv.Prelude.{
  ℕ, ◌+◌, ◌*◌, ◌%◌, ◌^◌, Bool, true, false, Option, none, some, List, [], Bytes, length,
}
use ferrum_kv.Prelude.Int.{ℤ, pos}
use ferrum_kv.Floats.{Floats}
use ferrum_kv.Storage.IndexMap.{IndexMap}
use ferrum_kv.Storage.Entry.{ValueEntry}
use ferrum_kv.Storage.Keyspace.{Keyspace}
use ferrum_kv.Storage.Policy.{EvictionConfig, default_config, IndexKind, k_none}
use ferrum_kv.Storage.Candidates.{AdaptiveHybridState, default_ahe}
use ferrum_kv.Storage.Sieve
use ferrum_kv.Storage.Sieve.{SieveState}
use ferrum_kv.Storage.AdaptiveClimb
use ferrum_kv.Storage.AdaptiveClimb.{AdaptiveClimbState}

abbrev pub key_max_bytes : ℕ
key_max_bytes = 64 * 1024

abbrev pub value_max_bytes : ℕ
value_max_bytes = 16 * 1024 * 1024

abbrev pub per_entry_overhead : ℕ
per_entry_overhead = 144

abbrev pub per_index_entry_bytes : ℕ
per_index_entry_bytes = 48

abbrev pub scan_keys_limit : ℕ
scan_keys_limit = 10_000

-- What the engine calls and does not implement: floats, and the two maps of `indexmap`.
pub record Host : Type 1 where
  pub floats : Floats
  pub sieve_map : IndexMap Bool
  pub climb_map : IndexMap (Unit {0})

-- The attached AOF writer as the engine sees it: the records that it has accepted, in order, each
-- with its arguments, and whether its writes and its barriers succeed, which the disk decides.
pub record Aof : Type 0 where
  pub records : List (List Bytes)
  pub writes : Bool
  pub syncs : Bool

pub record SlowLogEntry : Type 0 where
  pub id : ℕ
  pub ts_secs : ℕ
  pub duration_us : ℕ
  pub args : List Bytes
  pub peer : ℕ

-- `monitor_registry` stands in Network/Shared, beside the engine.
pub record KvEngine (h : Host) : Type 0 where
  pub store : Keyspace
  pub aof : Option Aof
  pub used_memory : ℕ
  pub eviction : EvictionConfig
  pub hits : ℕ
  pub misses : ℕ
  pub ahe : AdaptiveHybridState h.floats
  pub sieve : SieveState h.sieve_map.Map
  pub ac : AdaptiveClimbState h.climb_map.Map
  pub auth_password : Option Bytes
  pub rng : ℕ
  pub slowlog_slower_than_us : ℤ
  pub slowlog_max_len : ℕ
  pub slowlog : List SlowLogEntry
  pub slowlog_seq : ℕ
  pub total_commands : ℕ
  pub evicted_keys : ℕ
  pub expired_keys : ℕ
  pub index_kind : IndexKind
  pub auth_required : Bool
  pub aof_errors : ℕ
  pub sweep_cursor : ℕ

-- The byte cost of an entry.
unfoldable pub entry_bytes : Bytes → ValueEntry → ℕ
entry_bytes key e = length key + length e.payload + per_entry_overhead

-- One more on a u64 counter.
abbrev pub bump : ℕ → ℕ
bump n = (n + 1) % 2 ^ 64

module _ (h : Host) where
  unfoldable pub new : ℕ → KvEngine h
  new seed = record {
    store = [];
    aof = none;
    used_memory = 0;
    eviction = default_config;
    hits = 0;
    misses = 0;
    ahe = default_ahe h.floats;
    sieve = Sieve.new h.sieve_map;
    ac = AdaptiveClimb.new h.climb_map;
    auth_password = none;
    rng = seed;
    slowlog_slower_than_us = pos 10_000;
    slowlog_max_len = 128;
    slowlog = [];
    slowlog_seq = 0;
    total_commands = 0;
    evicted_keys = 0;
    expired_keys = 0;
    index_kind = k_none;
    auth_required = false;
    aof_errors = 0;
    sweep_cursor = 0;
  }

  unfoldable pub with_aof : KvEngine h → Aof → KvEngine h
  with_aof e writer = record e { aof = some writer }
