-- ===== src/Lib.antt =====
-- ferrum-kv: a Redis-compatible in-memory key-value store with sixteen eviction policies, deadlines
-- and an append-only log, written in Rust.
--
-- The program's parts and how they interact. A client's bytes are cut into frames and commands by
-- src/protocol/parser.rs; the server (src/network/server.rs) answers AUTH, HELLO and MONITOR itself and
-- calls a method of `KvEngine` (src/storage/engine/mod.rs) for each other command, whose result becomes
-- a reply by src/protocol/encoder.rs. A method that writes, or that meets an expired key,
-- takes a `WriteGuard` (src/storage/engine/write_guard.rs), which holds the keyspace lock; the guard
-- makes room under the memory limit, appends the record to the log, and changes the keyspace through
-- `track_insert`, `track_remove` and `track_clear`, which keep the memory counter and the two eviction
-- indexes (src/storage/sieve.rs and src/storage/adaptive_climb.rs) in step. The other policies draw a
-- sample of the keyspace and choose by the metadata of the entries (src/storage/eviction.rs,
-- src/storage/engine/entry.rs). A thread sweeps expired entries (src/storage/expire.rs). The log is
-- written by src/persistence/writer.rs, which also rewrites it, and replayed at the start by
-- src/persistence/replay.rs.
--
-- Which file models which part:
--   Error                     src/error/kind.rs and the `?` operator
--   Floats                    the float arithmetic that the program relies on, a parameter
--   Storage/Assoc             std's HashMap as an association list with distinct keys
--   Storage/IndexMap          the interface of the indexmap crate, with the documented meaning of its
--                             operations as laws; Lists fills it
--   Storage/Policy, Candidates, Lfu
--                             src/storage/eviction.rs, and `sample_candidates` of engine/util.rs
--   Storage/Entry             src/storage/engine/entry.rs
--   Storage/Sieve             src/storage/sieve.rs; Sweep and Victim hold the proof of its victim
--   Storage/AdaptiveClimb     src/storage/adaptive_climb.rs; Jump and Victim hold its proofs
--   Storage/Engine            `KvEngine`; Track: the tracked changes; Evict: enforce_memory_limit
--   Storage/Engine/Memory, Limit, Progress
--                             the memory counter, and what the enforcement keeps, bounds and achieves
--   Storage/Engine/Guard      `WriteGuard`; Guard/Writes and Guard/Expiry hold its operations
--   Storage/Engine/Commands, Reads, Sweep, Settings
--                             the public methods of `KvEngine`
--   Storage/Engine/Growth, Budget, Steps, Compound, History
--                             every command as a step, and the invariant of the memory counter
--   Storage/Engine/Behaviour  SET under a memory limit
--   Storage/Engine/Refinement the abstract keyspace, which has of each key the value and the deadline
--                             that a client sees, and the commands that refine operations on it
--   Protocol                  Text: what the parser uses of std's texts; Command, Build and Frame:
--                             src/protocol/parser.rs; Frame: also src/persistence/resp.rs; RoundTrip
--                             and Args: the frames that are written are the frames that are read
--                             Encoder: src/protocol/encoder.rs; Reply: the values of the protocol and a
--                             client's reader, a specification; Consumed: how much a frame takes
--   Config                    src/config/file.rs: File: the settings and their values; Directives: the
--                             directives and lines; File/Sizes: the grammar of sizes; and `FsyncPolicy` of
--                             src/persistence/config.rs
--   Network                   src/network/server.rs. Shared: what the connections share, and
--                             src/network/monitor.rs; Respond: the encodings of results; Parameters:
--                             CONFIG; Info: INFO; Answers and Execute: `execute_command`; Replies: each
--                             answer is a value of the protocol; Connection: `handle_client`, with the
--                             proofs of its loops in the modules below it; Admission: `ConnCounter`
--   Storage/Engine/Glob       `glob_match` and `scan_keys`; Language: what a pattern describes
--   Persistence               src/persistence/replay.rs: Reader and Replay; RoundTrip, Cut and Restore
--                             are about whole and torn logs, Fuel about the loop's end. Writer:
--                             src/persistence/writer.rs; GroupCommit: the durability barrier as the
--                             steps of its threads, Exclusion and Progress about its
--                             gate; Swap: the end of a rewrite,
--                             Window: among appends. Snapshot: the compact file
--                             of `perform_aof_rewrite` of src/storage/engine/mod.rs
--
-- How the state corresponds. A record stands for a struct, with the source's field names; a field
-- behind a lock or an atomic is the value in it. The methods take the engine and return the next one
-- with their answer. A connection's step is one frame, with the engine between the frames as it finds
-- it: `Moment` holds what the frame meets from outside. A command under the exclusive lock is one step;
-- a read command, which the source runs under the shared lock and continues under the exclusive one when
-- the key has expired, is one step too, so an interleaving is a sequence of whole commands. The readings
-- of the clocks are arguments, taken once per command: an `Instant` is a number of nanoseconds since the
-- process-wide origin, a time of the wall clock a number of milliseconds. The keyspace iterates in the
-- order of its list, which stands for the order of the hasher. Counters that wrap are taken modulo 2^64,
-- saturating operations have their bounds written out, and an i64 is an integer with the test of its
-- range. `usize` and the lengths of vectors are unbounded.
--
-- Bounds and fuel. The loop of enforce_memory_limit runs on its own bound, the number of keys and 16;
-- Progress is about the policies for which this is enough, the sampled ones over all keys. The sweep
-- of SIEVE runs on its bound of two circles, which Sieve/Victim is about. The replay runs on the
-- length of the file as fuel, since a record has at least one byte; Persistence/Fuel is about it.
-- The inner loop of a connection runs on the length of its buffer and one more, since a frame is longer
-- than nothing (Connection/Progress); the glob matcher recurses on the length of the pattern and one
-- more, each round of which takes a byte of it. The reader of replies goes as deep as it is told.
-- print_nat runs on the number itself as fuel, which bounds the number of its digits. All else is
-- structural.
--
-- What is not modelled, and why. The engine sees the log as the sequence of accepted records, and two
-- Booleans for whether the disk takes writes and barriers; the writer is a model of its own, with the
-- outcomes of the calls of the operating system as arguments. Appends come between the test, the
-- renaming and the swap at the end of a rewrite in Writer/Window; elsewhere that end is one call. The
-- threads of the worker and of the flusher, the calls that write the compact file, and the paths of the
-- files are not modelled. The two atomic loads of `needs_sync` are one step. The replay works on the
-- bytes of the file, reads of which do not fail, and its commands read one clock; the allocation of the
-- length that a record tells, which a huge length makes fail, is left out. A connection is served alone: the commands of other connections come in
-- between as changes of the shared state from one frame to the next, which the theorems on a run of one
-- connection do not have. The tokio runtime, the accept loop around the counter, the stream to a MONITOR
-- client, the shutdown signal, the dashboard, the flags of the command line and the start-up are not
-- modelled: they are I/O, waiting, or glue. Lock poisoning does not arise, since there are no panics.
-- The metadata that readers update under the shared lock are updated atomically. How `{:?}` shows bytes,
-- how a double is printed and String::from_utf8_lossy are parameters.
--
-- Tests hold runs that show departures of the source from what it means to do: overwrite_overshoots,
-- mset_overshoots and persist_leaves_the_queue in Storage/Engine/Tests, monitor_bypass and split_reply
-- in Network/Tests, late_abort_loses in Persistence/Writer/Tests.
pub mod Prelude
pub mod Error
pub mod Floats
pub mod Protocol
pub mod Storage
pub mod Persistence
pub mod Config
pub mod Network
