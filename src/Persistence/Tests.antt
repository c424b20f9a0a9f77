-- ===== src/Persistence/Tests.antt =====
-- A log of two records, whole and with a torn third one, and the theorems at it.
use ferrum_kv.Prelude.{
  ◌≡◌, refl, Bool, true, false, none, some, List, [], ◌∷◌, ◌++◌, arith, Bytes, codes, bytes_eq,
}
use ferrum_kv.Prelude.Decimal.{print_nat}
use ferrum_kv.Error.{ok}
use ferrum_kv.Floats.{exact}
use ferrum_kv.Protocol.Text.{ascii_uppercase}
use ferrum_kv.Protocol.Frame.{encode_command}
use ferrum_kv.Storage.IndexMap.Lists.{list_map}
use ferrum_kv.Storage.Entry.{Clock, new_with, is_expired}
use ferrum_kv.Storage.Engine
use ferrum_kv.Storage.Engine.{Host, KvEngine}
use ferrum_kv.Storage.Engine.Evict.{enforce_for_write, enforce_memory_limit}
use ferrum_kv.Storage.Engine.Guard.{validate_key, validate_value, deadline_to_epoch_ms}
use ferrum_kv.Storage.Engine.Commands.{set, del}
use ferrum_kv.Persistence.Replay.{Replayed, no_stats, apply_record, replay_loop, replay_from_file}
use ferrum_kv.Config.File.{always}
use ferrum_kv.Storage.Keyspace.{Keyspace}
use ferrum_kv.Storage.Engine.Refinement.{view}
use ferrum_kv.Persistence.Writer.{AofWriter, opened}
use ferrum_kv.Persistence.Writer.NoLoss.{content, all_done}
use ferrum_kv.Persistence.Snapshot.{perform_aof_rewrite}
use ferrum_kv.Persistence.Snapshot.Restores.{perform_aof_rewrite-restored}
use ferrum_kv.Persistence.Fuel.{replay_loop-fuel}
use ferrum_kv.Persistence.Restore.{
  Applies, all_applied, next_applied, encode_records, replay_from_file-encode_records,
  replay_from_file-torn,
}

abbrev host : Host
host = record { floats = exact; sieve_map = list_map Bool; climb_map = list_map (Unit {0}) }

abbrev clock : Clock
clock = record { now = 5_000_000_000; now_ms = 1_000_000; minute = 16 }

abbrev empty : KvEngine host
empty = Engine.new host 1

abbrev set_k : List Bytes
set_k = codes "SET" ∷ codes "k" ∷ codes "v" ∷ []

abbrev del_k : List Bytes
del_k = codes "DEL" ∷ codes "k" ∷ []

abbrev one : KvEngine host
one = (set clock empty (codes "k") (codes "v")).0

abbrev none_again : KvEngine host
none_again = (del clock one (codes "k")).0

set_k_applied : apply_record clock empty set_k ≡ (one, none)
unfolding apply_record bytes_eq ascii_uppercase set Engine.new validate_key validate_value
    enforce_for_write enforce_memory_limit
set_k_applied = refl

del_k_applied : apply_record clock one del_k ≡ (none_again, none)
unfolding apply_record bytes_eq ascii_uppercase
del_k_applied = refl

applied : Applies clock empty (set_k ∷ del_k ∷ []) none_again
applied = next_applied set_k_applied (next_applied del_k_applied all_applied)

replay_from_file-encode_records_example :
    replay_from_file clock (encode_records (set_k ∷ del_k ∷ [])) empty ≡ (
      none_again,
      encode_records (set_k ∷ del_k ∷ []),
      ok (record { applied = 2; skipped = 0; truncated_tail = false }),
    )
replay_from_file-encode_records_example =
    replay_from_file-encode_records clock (set_k ∷ del_k ∷ []) applied (
      (omega arith, (omega arith, (omega arith, (omega arith, tt)))),
      ((omega arith, (omega arith, (omega arith, tt))), tt),
    )

-- The last three bytes of the third record are missing.
replay_from_file-torn_example :
    replay_from_file clock
      (encode_records (set_k ∷ del_k ∷ []) ++ 42 ∷ codes "2\r\n$3\r\nDEL\r\n$1\r\n")
      empty
    ≡ (
      none_again,
      encode_records (set_k ∷ del_k ∷ []),
      ok (record { applied = 2; skipped = 0; truncated_tail = true }),
    )
unfolding encode_command print_nat
replay_from_file-torn_example =
    replay_from_file-torn clock (set_k ∷ del_k ∷ []) del_k 42 (codes "2\r\n$3\r\nDEL\r\n$1\r\n")
      (codes "k\r\n") applied
      (
        (omega arith, (omega arith, (omega arith, (omega arith, tt)))),
        ((omega arith, (omega arith, (omega arith, tt))), tt),
      )
      (omega arith, (omega arith, (omega arith, tt))) refl (omega arith)

abbrev start : Replayed host
start = record { engine = empty; stats = no_stats; last_good = 0 }

-- A byte that begins no record, and a torn record.
abbrev garbage : Bytes
garbage = codes "x*1\r\n$3"

replay_loop-fuel_example :
    replay_loop clock 8 7 garbage start ≡ replay_loop clock 100 7 garbage start
replay_loop-fuel_example = replay_loop-fuel clock 8 100 7 garbage start (omega arith) (omega arith)

-- A key without a deadline, and one whose deadline is 2.5 ms away.
abbrev saved : Keyspace
unfolding new_with
saved =
    (codes "k", new_with clock (codes "v") none)
    ∷ (codes "t", new_with clock (codes "w") (some 5_002_500_000))
    ∷ []

-- One millisecond later, in another process.
abbrev restart : Clock
restart = record { now = 7; now_ms = 1_000_001; minute = 16 }

abbrev rewriting : AofWriter
unfolding opened
rewriting = record (opened always (codes "old")) { rewriting = true }

perform_aof_rewrite-restored_example :
    view
      (replay_from_file restart
        (content (perform_aof_rewrite (all_done 0) true clock saved rewriting))
        empty).0.store
      7
      (codes "t")
    ≡ some (codes "w", some 1_000_007)
unfolding saved new_with rewriting opened deadline_to_epoch_ms validate_key validate_value
    Engine.new bytes_eq is_expired
perform_aof_rewrite-restored_example =
    perform_aof_rewrite-restored 0 restart clock saved rewriting empty (codes "t") refl refl refl
      (refl, (refl, tt)) (refl, (refl, tt)) refl refl
