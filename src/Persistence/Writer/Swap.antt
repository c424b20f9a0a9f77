-- ===== src/Persistence/Writer/Swap.antt =====
-- The rewrite of the log, as the writer of persistence/writer.rs takes part in it.
use ferrum_kv.Prelude.{
  Bool, true, false, none, some, [], ◌∷◌, ◌++◌, Bytes, codes, length, if◌then◌else◌,
}
use ferrum_kv.Error.{persistence_error, Result, ok, err}
use ferrum_kv.Persistence.Writer.{
  AofWriter, Outcome, done, failed, result, buffered, pushed, settled, and_then,
}

unfoldable pub try_begin_rewrite : AofWriter → AofWriter × Bool
try_begin_rewrite w = if w.rewriting then (w, false) else (record w { rewriting = true }, true)

unfoldable pub abort_rewrite : AofWriter → AofWriter
abort_rewrite w = record w { delta = []; rewriting = false }

-- What the path names: what a restart finds.
abbrev pub at_path : AofWriter → Bytes
at_path w = elim w.renamed [ none ↦ w.file | some log ↦ log ]

-- The renaming of the compact file, which takes no lock. The message leaves out the two paths.
unfoldable pub move : Outcome → AofWriter → Bytes → AofWriter × Result (Unit {0})
move (done moved) w compact = (record w { renamed = some compact }, ok tt)
move (failed moved kept e) w compact =
    (w, err (persistence_error (codes "aof rename failed: " ++ e)))

abbrev moved : AofWriter × Result (Unit {0}) → AofWriter × Result Bool
moved (w, ok t) = (w, ok true)
moved (w, err e) = (w, err e)

-- The first part of `finish_rewrite`, before its lock: whether the compact file has taken the path. No
-- append comes between the test and the renaming; Window has the ones that do.
unfoldable pub rename : Outcome → AofWriter → Bytes → AofWriter × Result Bool
unfolding move
rename outcome w compact = if w.rewriting then moved (move outcome w compact) else (w, ok false)

-- The handle is the file at the path from now on, which an fsync has covered.
unfoldable pub reopen : Outcome → AofWriter → AofWriter × Result (Unit {0})
reopen (done moved) w = (
  record w {
    file = at_path w;
    buffer = [];
    durable = length (at_path w);
    renamed = none;
    seq = 0;
    synced = 0;
  },
  ok tt,
)
reopen (failed moved kept e) w = (w, err (persistence_error (codes "aof reopen failed: " ++ e)))

-- The outcomes of the calls that a swap makes.
pub record Calls : Type 0 where
  pub renaming : Outcome
  pub opening : Outcome
  pub writing : Outcome
  pub flushing : Outcome
  pub fsyncing : Outcome

-- The writes that came during the rewrite go behind the compact file.
unfoldable pub replay_delta : Calls → AofWriter → AofWriter × Result (Unit {0})
unfolding buffered pushed settled
replay_delta calls w = elim w.delta [
  | [] ↦ (w, ok tt)
  | b ∷ bs ↦
      and_then
        (
          buffered calls.writing w w.delta,
          result (codes "aof rewrite delta replay failed: ") calls.writing,
        )
        (λ w1.
          and_then
            (
              pushed calls.flushing w1,
              result (codes "aof rewrite delta flush failed: ") calls.flushing,
            )
            (λ w2. (
              settled calls.fsyncing w2,
              result (codes "aof rewrite delta fsync failed: ") calls.fsyncing,
            )))
]

-- The second part of `finish_rewrite`, under the locks of the appenders.
unfoldable pub swap : Calls → AofWriter → AofWriter × Result (Unit {0})
unfolding reopen replay_delta
swap calls w = and_then (reopen calls.opening w) (λ w1.
    and_then (replay_delta calls w1) (λ w2. (record w2 { delta = []; rewriting = false }, ok tt)))

-- `finish_rewrite`, with no other thread between its test, its renaming and its swap.
unfoldable pub finish_rewrite : Calls → AofWriter → Bytes → AofWriter × Result (Unit {0})
unfolding rename swap
finish_rewrite calls w compact =
    let (w1, renamed) = rename calls.renaming w compact in
    elim renamed [ ok true ↦ swap calls w1 | ok false ↦ (w1, ok tt) | err e ↦ (w1, err e) ]
