-- ===== src/Persistence/Snapshot.antt =====
-- `perform_aof_rewrite` and `serialise_compact_aof` of storage/engine/mod.rs: the keyspace as a log.
pub mod Records
pub mod Entries
pub mod Leads
pub mod Restores
use ferrum_kv.Prelude.{
  ℕ, Bool, true, false, Option, none, some, List, [], ◌∷◌, ◌++◌, Bytes, if◌then◌else◌,
}
use ferrum_kv.Prelude.Int.{ℤ}
use ferrum_kv.Protocol.Frame.{encode_command}
use ferrum_kv.Storage.Entry.{Clock, is_expired}
use ferrum_kv.Storage.Keyspace.{Keyspace}
use ferrum_kv.Storage.Engine.Guard.{deadline_to_epoch_ms, set_record, pexpireat_record}
use ferrum_kv.Persistence.Writer.{AofWriter}
use ferrum_kv.Persistence.Writer.Swap.{Calls, abort_rewrite, finish_rewrite}

-- A deadline as the log tells it.
abbrev pub ttl_of_deadline : Clock → Option ℕ → Option ℤ
ttl_of_deadline c none = none
ttl_of_deadline c (some d) = deadline_to_epoch_ms c d

-- The keys that are not expired, with their values and deadlines.
unfoldable pub snapshot : Clock → Keyspace → List (Bytes × Bytes × Option ℤ)
snapshot c [] = []
snapshot c ((k, entry) ∷ store) =
    let out = snapshot c store in
    if is_expired entry c.now
    then out
    else (k, entry.payload, ttl_of_deadline c entry.expire_at) ∷ out

-- The bytes of the compact file.
unfoldable pub serialise_compact_aof : List (Bytes × Bytes × Option ℤ) → Bytes
unfolding encode_command
serialise_compact_aof [] = []
serialise_compact_aof ((k, v, none) ∷ entries) =
    encode_command (set_record k v) ++ serialise_compact_aof entries
serialise_compact_aof ((k, v, some abs_ms) ∷ entries) =
    encode_command (set_record k v)
    ++ (encode_command (pexpireat_record k abs_ms) ++ serialise_compact_aof entries)

-- The worker's use of the writer, whose appends are the ones before it: `saved` tells whether the
-- compact file was written. An error of the swap is logged.
unfoldable pub perform_aof_rewrite : Calls → Bool → Clock → Keyspace → AofWriter → AofWriter
unfolding snapshot serialise_compact_aof abort_rewrite finish_rewrite
perform_aof_rewrite calls saved c store w =
    if w.rewriting
    then (if saved
        then (finish_rewrite calls w (serialise_compact_aof (snapshot c store))).0
        else abort_rewrite w)
    else w
