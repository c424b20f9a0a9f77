-- ===== src/Persistence/Replay.antt =====
-- `replay_from_file` and `apply_record` of persistence/replay.rs. The file is its bytes; the truncated
-- file is part of the answer. The commands of the replay read one clock.
use ferrum_kv.Prelude.{
  ℕ, zero, suc, ◌+◌, ◌-◌, Bool, true, false, ◌==◌, Option, none, some, List, [], ◌∷◌, Bytes, codes,
  length, take, bytes_eq, if◌then◌else◌,
}
use ferrum_kv.Prelude.Decimal.{parse_i64}
use ferrum_kv.Error.{FerrumError, Result, ok, err}
use ferrum_kv.Protocol.Text.{is_utf8, ascii_uppercase}
use ferrum_kv.Storage.Entry.{Clock}
use ferrum_kv.Storage.Engine.{Host, KvEngine}
use ferrum_kv.Storage.Engine.Commands.{set, del, flushdb, expire_at_ms, persist}
use ferrum_kv.Persistence.Reader.{
  done, unexpected_eof, malformed, read_record, resync_to_next_array,
}

pub record ReplayStats : Type 0 where
  pub applied : ℕ
  pub skipped : ℕ
  pub truncated_tail : Bool

pub data ApplyError : Type 0 where
  unknown arity : Bytes → ApplyError
  engine : FerrumError → ApplyError

abbrev pub no_stats : ReplayStats
no_stats = record { applied = 0; skipped = 0; truncated_tail = false }

-- What the loop leaves: the engine, the statistics and the end of the last good record.
pub record Replayed (h : Host) : Type 0 where
  pub engine : KvEngine h
  pub stats : ReplayStats
  pub last_good : ℕ

module _ {h : Host} where
  abbrev set_answer : KvEngine h × Result (Option Bytes) → KvEngine h × Option ApplyError
  set_answer (e, ok _) = (e, none)
  set_answer (e, err x) = (e, some (engine x))

  unfoldable pub apply_set :
      Clock → KvEngine h → Bytes → List Bytes → KvEngine h × Option ApplyError
  apply_set c e cmd (key ∷ value ∷ []) = set_answer (set c e key value)
  apply_set c e cmd _ = (e, some (arity cmd))

  unfoldable pub apply_del :
      Clock → KvEngine h → Bytes → List Bytes → KvEngine h × Option ApplyError
  apply_del c e cmd (key ∷ []) = ((del c e key).0, none)
  apply_del c e cmd _ = (e, some (arity cmd))

  unfoldable pub apply_flushdb :
      Clock → KvEngine h → Bytes → List Bytes → KvEngine h × Option ApplyError
  apply_flushdb c e cmd [] = (flushdb c e, none)
  apply_flushdb c e cmd _ = (e, some (arity cmd))

  unfoldable pub apply_pexpireat :
      Clock → KvEngine h → Bytes → List Bytes → KvEngine h × Option ApplyError
  apply_pexpireat c e cmd (key ∷ text ∷ []) =
      if is_utf8 text
      then (elim (parse_i64 text) [
        | none ↦ (e, some (arity cmd))
        | some abs_ms ↦ ((expire_at_ms c e key abs_ms).0, none)
      ])
      else (e, some (arity cmd))
  apply_pexpireat c e cmd _ = (e, some (arity cmd))

  unfoldable pub apply_persist :
      Clock → KvEngine h → Bytes → List Bytes → KvEngine h × Option ApplyError
  apply_persist c e cmd (key ∷ []) = ((persist c e key).0, none)
  apply_persist c e cmd _ = (e, some (arity cmd))

  -- The engine after a record, and the error if there is one.
  unfoldable pub apply_record : Clock → KvEngine h → List Bytes → KvEngine h × Option ApplyError
  unfolding apply_set apply_del apply_flushdb apply_pexpireat apply_persist
  apply_record c e [] = (e, some (arity []))
  apply_record c e (cmd ∷ args) =
      let upper = ascii_uppercase cmd in
      if bytes_eq upper (codes "SET")
      then apply_set c e cmd args
      else if bytes_eq upper (codes "DEL")
      then apply_del c e cmd args
      else if bytes_eq upper (codes "FLUSHDB")
      then apply_flushdb c e cmd args
      else if bytes_eq upper (codes "PEXPIREAT")
      then apply_pexpireat c e cmd args
      else if bytes_eq upper (codes "PERSIST")
      then apply_persist c e cmd args
      else (e, some (unknown cmd))

  abbrev pub skip : Replayed h → Replayed h
  skip s = record s { stats = record s.stats { skipped = s.stats.skipped + 1 } }

  abbrev pub torn : Replayed h → Replayed h
  torn s = record s { stats = record s.stats { truncated_tail = true } }

  -- The outcome of `apply_record`, with the position behind the record.
  unfoldable pub after_apply :
      Replayed h → ℕ → KvEngine h × Option ApplyError → Replayed h × Option FerrumError
  after_apply s position (e, none) = (
    record s {
      engine = e;
      stats = record s.stats { applied = s.stats.applied + 1 };
      last_good = position;
    },
    none,
  )
  after_apply s position (e, some (unknown cmd)) =
      (record (skip s) { engine = e; last_good = position }, none)
  after_apply s position (e, some (arity cmd)) =
      (record (skip s) { engine = e; last_good = position }, none)
  after_apply s position (e, some (engine x)) = (record s { engine = e }, some x)

  -- The loop, on the number of records that it may still meet.
  unfoldable pub replay_loop : Clock → ℕ → ℕ → Bytes → Replayed h → Replayed h × Option FerrumError
  unfolding after_apply
  replay_loop c zero size rest s = (s, none)
  replay_loop c (suc n) size rest s = elim (read_record rest) [
    | done found cur ↦ elim found [
      | none ↦ (s, none)
      | some parts ↦
          let (s1, failure) =
            after_apply s (size - length cur.rest) (apply_record c s.engine parts) in
          elim failure [ some x ↦ (s1, some x) | none ↦ replay_loop c n size cur.rest s1 ]
    ]
    | unexpected_eof cur ↦ (if cur.consumed == 0 then s else torn s, none)
    | malformed cur ↦ elim (resync_to_next_array cur.rest) [
      | none ↦ (torn (skip s), none)
      | some next ↦
          replay_loop c n size next (record (skip s) { last_good = s.last_good + cur.consumed })
    ]
  ]

  -- The file that is left, and the statistics or the engine's error.
  unfoldable pub finish_replay :
      Bytes → Replayed h × Option FerrumError → KvEngine h × Bytes × Result ReplayStats
  finish_replay file (s, some x) = (s.engine, file, err x)
  finish_replay file (s, none) =
      (s.engine, if s.stats.truncated_tail then take s.last_good file else file, ok s.stats)

  unfoldable pub replay_from_file :
      Clock → Bytes → KvEngine h → KvEngine h × Bytes × Result ReplayStats
  unfolding replay_loop finish_replay
  replay_from_file c file e = finish_replay file (
      replay_loop c (length file + 1) (length file) file
        (record { engine = e; stats = no_stats; last_good = 0 }))
