-- ===== src/Persistence/Writer.antt =====
-- `AofWriter` of persistence/writer.rs. The file behind the handle holds what the buffer has handed
-- over, and `durable` counts the bytes of it that an fsync has covered. The outcome of a call of the
-- operating system is an argument.
pub mod Swap
pub mod GroupCommit
pub mod Grows
pub mod Durable
pub mod Acknowledged
pub mod Exclusion
pub mod Progress
pub mod NoLoss
pub mod Window
mod Tests
use ferrum_kv.Prelude.{
  ℕ, ◌+◌, ◌*◌, ◌%◌, ◌^◌, max, Bool, true, false, Option, none, some, List, [], ◌∷◌, ◌++◌, Bytes,
  codes, length, take, drop, leb, ltb, if◌then◌else◌,
}
use ferrum_kv.Prelude.Int.{ℤ}
use ferrum_kv.Prelude.Decimal.{print_int}
use ferrum_kv.Error.{persistence_error, Result, ok, err}
use ferrum_kv.Protocol.Frame.{encode_command}
use ferrum_kv.Config.File.{FsyncPolicy, always, every_sec, no_sync}

abbrev pub default_delta_cap : ℕ
default_delta_cap = 64 * 1024 * 1024

pub record AofWriter : Type 0 where
  -- `inner`: the file of the handle and the bytes that the buffer still holds.
  pub file : Bytes
  pub buffer : Bytes
  pub durable : ℕ
  -- What the path names, if it is not the file of the handle.
  pub renamed : Option Bytes
  pub seq : ℕ
  pub synced : ℕ
  pub fsyncs : ℕ
  pub fsync_skips : ℕ
  pub policy : FsyncPolicy
  pub rewriting : Bool
  pub delta : Bytes
  pub delta_cap : ℕ

-- `AofWriter::open`, on a file that holds a log.
unfoldable pub opened : FsyncPolicy → Bytes → AofWriter
opened policy log = record {
  file = log;
  buffer = [];
  durable = length log;
  renamed = none;
  seq = 0;
  synced = 0;
  fsyncs = 0;
  fsync_skips = 0;
  policy = policy;
  rewriting = false;
  delta = [];
  delta_cap = default_delta_cap;
}

-- A call of the operating system: it succeeds, or it fails with a message. A write hands `moved` bytes
-- to the file, and one that fails has taken `kept` of the new bytes.
pub data Outcome : Type 0 where
  done : ℕ → Outcome
  failed : ℕ → ℕ → Bytes → Outcome

-- `moved` of the pending bytes reach the file.
abbrev pub hand_over : AofWriter → ℕ → Bytes → AofWriter
hand_over w moved pending = record w {
  file = w.file ++ take moved pending;
  buffer = drop moved pending;
}

-- The result of a call, with the writer's message.
abbrev pub result : Bytes → Outcome → Result (Unit {0})
result text (done moved) = ok tt
result text (failed moved kept e) = err (persistence_error (text ++ e))

-- `BufWriter::write_all`
unfoldable pub buffered : Outcome → AofWriter → Bytes → AofWriter
buffered (done moved) w bytes = hand_over w moved (w.buffer ++ bytes)
buffered (failed moved kept e) w bytes = hand_over w moved (w.buffer ++ take kept bytes)

-- `BufWriter::flush`
unfoldable pub pushed : Outcome → AofWriter → AofWriter
pushed (done moved) w = hand_over w (length w.buffer) w.buffer
pushed (failed moved kept e) w = hand_over w moved w.buffer

-- `File::sync_data`
unfoldable pub settled : Outcome → AofWriter → AofWriter
settled (done moved) w = record w { durable = length w.file }
settled (failed moved kept e) w = w

unfoldable pub write_all : Outcome → AofWriter → Bytes → AofWriter × Result (Unit {0})
unfolding buffered
write_all o w bytes = (buffered o w bytes, result (codes "aof write failed: ") o)

unfoldable pub flush : Outcome → AofWriter → AofWriter × Result (Unit {0})
unfolding pushed
flush o w = (pushed o w, result (codes "aof flush failed: ") o)

unfoldable pub sync_data : Outcome → AofWriter → AofWriter × Result (Unit {0})
unfolding settled
sync_data o w = (settled o w, result (codes "aof fsync failed: ") o)

-- A step that may fail, and the next one.
abbrev pub and_then :
    AofWriter × Result (Unit {0})
    → (AofWriter → AofWriter × Result (Unit {0}))
    → AofWriter × Result (Unit {0})
and_then (w, ok t) f = f w
and_then (w, err e) f = (w, err e)

-- With `always`, the bytes are handed over and the batch gets its number.
unfoldable pub publish : Outcome → AofWriter → AofWriter × Result (Unit {0})
unfolding flush
publish flushed w = elim w.policy [
  | always ↦ and_then (flush flushed w) (λ w'. (record w' { seq = (w'.seq + 1) % 2 ^ 64 }, ok tt))
  | every_sec ↦ (w, ok tt)
  | no_sync ↦ (w, ok tt)
]

-- While a rewrite is in flight, the bytes are kept for the new file too; too many of them abort it.
unfoldable pub mirror : Bytes → AofWriter → AofWriter
mirror bytes w =
    if w.rewriting
    then (if ltb w.delta_cap (length w.delta + length bytes)
        then record w { rewriting = false; delta = [] }
        else record w { delta = w.delta ++ bytes })
    else w

unfoldable pub write_bytes : Outcome → Outcome → AofWriter → Bytes → AofWriter × Result (Unit {0})
unfolding write_all publish mirror
write_bytes wrote flushed w bytes =
    and_then (write_all wrote w bytes)
      (λ w1. and_then (publish flushed w1) (λ w2. (mirror bytes w2, ok tt)))

unfoldable pub append : Outcome → Outcome → AofWriter → List Bytes → AofWriter × Result (Unit {0})
unfolding write_bytes encode_command
append wrote flushed w parts = write_bytes wrote flushed w (encode_command parts)

unfoldable pub append_set :
    Outcome → Outcome → AofWriter → Bytes → Bytes → AofWriter × Result (Unit {0})
unfolding append
append_set wrote flushed w key value = append wrote flushed w (codes "SET" ∷ key ∷ value ∷ [])

unfoldable pub append_del : Outcome → Outcome → AofWriter → Bytes → AofWriter × Result (Unit {0})
unfolding append
append_del wrote flushed w key = append wrote flushed w (codes "DEL" ∷ key ∷ [])

unfoldable pub append_flushdb : Outcome → Outcome → AofWriter → AofWriter × Result (Unit {0})
unfolding append
append_flushdb wrote flushed w = append wrote flushed w (codes "FLUSHDB" ∷ [])

unfoldable pub append_pexpireat :
    Outcome → Outcome → AofWriter → Bytes → ℤ → AofWriter × Result (Unit {0})
unfolding append
append_pexpireat wrote flushed w key abs_epoch_ms =
    append wrote flushed w (codes "PEXPIREAT" ∷ key ∷ print_int abs_epoch_ms ∷ [])

unfoldable pub append_persist :
    Outcome → Outcome → AofWriter → Bytes → AofWriter × Result (Unit {0})
unfolding append
append_persist wrote flushed w key = append wrote flushed w (codes "PERSIST" ∷ key ∷ [])

abbrev pub set_records : List (Bytes × Bytes) → Bytes
set_records [] = []
set_records ((k, v) ∷ pairs) = encode_command (codes "SET" ∷ k ∷ v ∷ []) ++ set_records pairs

-- `append_set_many`: the batch is one write.
unfoldable pub append_set_many :
    Outcome → Outcome → AofWriter → List (Bytes × Bytes) → AofWriter × Result (Unit {0})
unfolding write_bytes
append_set_many wrote flushed w [] = (w, ok tt)
append_set_many wrote flushed w (p ∷ pairs) = write_bytes wrote flushed w (set_records (p ∷ pairs))

-- The first test of the barrier, before its lock: some batch that was flushed is not covered. The two
-- atomic loads are one step.
unfoldable pub needs_sync : AofWriter → Bool
needs_sync w = elim w.policy [ always ↦ ltb w.synced w.seq | every_sec ↦ false | no_sync ↦ false ]

-- Behind the lock: `covered`, unless a peer has covered it.
unfoldable pub enter_gate : AofWriter → AofWriter × Option ℕ
enter_gate w =
    if leb w.seq w.synced
    then (record w { fsync_skips = (w.fsync_skips + 1) % 2 ^ 64 }, none)
    else (w, some w.seq)

-- A barrier that has succeeded.
unfoldable pub cover : ℕ → AofWriter → AofWriter
cover covered w = record w { synced = max w.synced covered; fsyncs = (w.fsyncs + 1) % 2 ^ 64 }

-- `sync_if_needed`, with no other thread in between.
unfoldable pub sync_if_needed : Outcome → Outcome → AofWriter → AofWriter × Result (Unit {0})
unfolding needs_sync enter_gate flush sync_data cover
sync_if_needed flushed fsynced w =
    if needs_sync w
    then (let (w1, gate) = enter_gate w in
        elim gate [
          | none ↦ (w1, ok tt)
          | some covered ↦
              and_then (flush flushed w1)
                (λ w2. and_then (sync_data fsynced w2) (λ w3. (cover covered w3, ok tt)))
        ])
    else (w, ok tt)

-- One round of the background flusher of `everysec`, whose errors are logged; `Drop` does the same.
unfoldable pub flush_round : Outcome → Outcome → AofWriter → AofWriter
unfolding flush sync_data
flush_round flushed fsynced w = (and_then (flush flushed w) (λ w'. sync_data fsynced w')).0
