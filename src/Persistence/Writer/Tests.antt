-- ===== src/Persistence/Writer/Tests.antt =====
-- A writer with `appendfsync always`, one thread at its barrier, and a rewrite with appends.
use ferrum_kv.Prelude.{ℕ, ◌≤◌, ◌≡◌, refl, true, false, [], ◌++◌, arith, Bytes, codes}
use ferrum_kv.Config.File.{always}
use ferrum_kv.Persistence.Writer.{
  AofWriter, opened, done, write_bytes, needs_sync, enter_gate, flush, sync_data, cover,
}
use ferrum_kv.Persistence.Writer.Swap.{at_path, move, rename, swap}
use ferrum_kv.Persistence.Writer.GroupCommit
use ferrum_kv.Persistence.Writer.GroupCommit.{
  Phase, idle, busy, appended, waiting, acknowledged, gated, flushed, fsynced, System, acts, at,
  Step, Reachable, start,
}
use ferrum_kv.Persistence.Writer.Acknowledged.{Reachable-durable}
use ferrum_kv.Persistence.Writer.Progress.{Acknowledges, Reachable-Acknowledges}
use ferrum_kv.Persistence.Writer.NoLoss.{Writes, nothing, next, all_done, Finished}
use ferrum_kv.Persistence.Writer.Window.{swap-Writes}

abbrev log : Bytes
log = codes "old"

abbrev record_a : Bytes
record_a = codes "+a"

-- The writer behind the append, and behind its barrier.
abbrev written : AofWriter
unfolding opened write_bytes
written = (write_bytes (done 0) (done 0) (opened always log) record_a).0

abbrev synced : AofWriter
unfolding written sync_data flush
synced = (sync_data (done 0) (flush (done 0) written).0).0

abbrev phases : Phase → ℕ → Phase
phases p = at (λ i. idle) 0 p

one_append :
    Reachable log (record { writer = written; gate = false; threads = phases (busy appended 1 5) })
unfolding opened written write_bytes
one_append =
    GroupCommit.then start
      (acts 0 refl (GroupCommit.append (done 0) (done 0) record_a (omega arith) refl))

-- Batch 1 ends at byte 5.
one_barrier : Reachable log (record {
  writer = cover 1 synced;
  gate = false;
  threads =
      at
        (at
          (at
            (at (at (phases (busy appended 1 5)) 0 (busy waiting 1 5)) 0 (busy (gated 1) 1 5))
            0
            (busy (flushed 1) 1 5))
          0
          (busy (fsynced 1) 1 5))
        0
        (busy acknowledged 1 5);
})
unfolding opened written write_bytes needs_sync enter_gate flush sync_data cover synced
one_barrier =
    GroupCommit.then
      (GroupCommit.then
        (GroupCommit.then
          (GroupCommit.then (GroupCommit.then one_append (acts 0 refl (GroupCommit.need refl)))
            (acts 0 refl (GroupCommit.enter refl)))
          (acts 0 refl (GroupCommit.hands_over (done 0) refl)))
        (acts 0 refl (GroupCommit.fsync (done 0) refl)))
      (acts 0 refl GroupCommit.publishes)

Reachable-durable_example : 5 ≤ (cover 1 synced).durable
Reachable-durable_example = Reachable-durable log _ one_barrier 0 1 5 refl

-- Thread 0 holds the gate for batch 1, and thread 1 waits for it with batch 2.
abbrev twice : AofWriter
unfolding written write_bytes
twice = (write_bytes (done 0) (done 0) written record_a).0

abbrev crowd : ℕ → Phase
crowd =
    at
      (at (at (at (phases (busy appended 1 5)) 0 (busy waiting 1 5)) 0 (busy (gated 1) 1 5)) 1
        (busy appended 2 7))
      1 (busy waiting 2 7)

two_barriers : Reachable log (record { writer = twice; gate = true; threads = crowd })
unfolding opened written twice write_bytes needs_sync enter_gate
two_barriers =
    GroupCommit.then
      (GroupCommit.then
        (GroupCommit.then (GroupCommit.then one_append (acts 0 refl (GroupCommit.need refl)))
          (acts 0 refl (GroupCommit.enter refl)))
        (acts 1 refl (GroupCommit.append (done 0) (done 0) record_a (omega arith) refl)))
      (acts 1 refl (GroupCommit.need refl))

Reachable-Acknowledges_example :
    Acknowledges (record { writer = twice; gate = true; threads = crowd }) 1 2 7
Reachable-Acknowledges_example = Reachable-Acknowledges log _ two_barriers 1 2 7 waiting refl

-- A rewrite with one append behind its beginning.
abbrev begun : AofWriter
unfolding opened
begun = record (opened always log) { rewriting = true }

abbrev extended : AofWriter
unfolding begun write_bytes
extended = (write_bytes (done 0) (done 0) begun record_a).0

one_write : Writes begun ([] ++ record_a) extended
unfolding begun extended write_bytes
one_write = next record_a (done 0) (done 0) nothing refl

-- The compact file has the path, and there is one more append before the swap.
abbrev renamed : AofWriter
unfolding extended move
renamed = (move (done 0) extended (codes "new")).0

abbrev late : AofWriter
unfolding renamed write_bytes
late = (write_bytes (done 0) (done 0) renamed record_a).0

late_write : Writes renamed ([] ++ record_a) late
unfolding renamed late write_bytes
late_write = next record_a (done 0) (done 0) nothing refl

swap-Writes_example :
    Finished (codes "new" ++ ((record_a ++ []) ++ record_a)) (swap (all_done 2) late)
unfolding begun extended renamed late write_bytes move
swap-Writes_example =
    swap-Writes 2 begun extended extended late record_a [] record_a (codes "new") refl refl
      one_write nothing late_write (λ y. refl)

-- An append that overflows the delta between the renaming and the swap aborts the rewrite too late: it
-- is neither in the log that the path names nor in what the writer goes on to hold.
late_abort : Bytes
unfolding opened write_bytes rename swap
late_abort =
    let full = record (opened always log) { rewriting = true; delta_cap = 1 } in
    let renamed = (rename (done 0) full (codes "new")).0 in
    let aborted = (write_bytes (done 0) (done 0) renamed record_a).0 in
    at_path (swap (all_done 0) aborted).0

late_abort_loses : late_abort ≡ codes "new"
unfolding late_abort
late_abort_loses = refl
