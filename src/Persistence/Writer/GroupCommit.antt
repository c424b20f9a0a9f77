-- ===== src/Persistence/Writer/GroupCommit.antt =====
-- The barrier of `appendfsync always` under any interleaving of its callers: the phases of
-- `write_bytes` and `sync_if_needed` of persistence/writer.rs as steps of a system.
use ferrum_kv.Prelude.{
  ℕ, ◌+◌, ◌<◌, ◌^◌, ◌≡◌, Bool, true, false, ◌==◌, none, some, Bytes, length, if◌then◌else◌,
}
use ferrum_kv.Error.{FerrumError, ok, err}
use ferrum_kv.Config.File.{always}
use ferrum_kv.Persistence.Writer.{
  AofWriter, opened, Outcome, write_bytes, needs_sync, enter_gate, flush, sync_data, cover,
}

-- How far a thread is behind its append; within the gate it has read `covered`.
pub data Place : Type 0 where
  appended waiting acknowledged : Place
  gated flushed fsynced : (covered : ℕ) → Place

-- Where a thread is. `batch` is the number of its append and `end` the length of the file behind it.
pub data Phase : Type 0 where
  idle gave_up : Phase
  busy : Place → (batch end : ℕ) → Phase

-- `gate` is whether `sync_lock` is held.
pub record System : Type 0 where
  pub writer : AofWriter
  pub gate : Bool
  pub threads : ℕ → Phase

-- What one thread does at a time. Fewer than 2^64 batches are appended.
pub data Acts : AofWriter → Bool → Phase → AofWriter → Bool → Phase → Type 0 where
  append :
      {w w' : AofWriter} {g : Bool} (wrote pushed : Outcome) (bytes : Bytes)
      → w.seq + 1 < 2 ^ 64
      → write_bytes wrote pushed w bytes ≡ (w', ok tt)
      → Acts w g idle w' g (busy appended w'.seq (length w'.file))
  append_fails :
      {w w' : AofWriter} {g : Bool} {e : FerrumError} (wrote pushed : Outcome) (bytes : Bytes)
      → w.seq + 1 < 2 ^ 64
      → write_bytes wrote pushed w bytes ≡ (w', err e)
      → Acts w g idle w' g gave_up
  no_need :
      {w : AofWriter} {g : Bool} {b n : ℕ}
      → needs_sync w ≡ false
      → Acts w g (busy appended b n) w g (busy acknowledged b n)
  need :
      {w : AofWriter} {g : Bool} {b n : ℕ}
      → needs_sync w ≡ true
      → Acts w g (busy appended b n) w g (busy waiting b n)
  skip :
      {w w' : AofWriter} {b n : ℕ}
      → enter_gate w ≡ (w', none)
      → Acts w false (busy waiting b n) w' false (busy acknowledged b n)
  enter :
      {w w' : AofWriter} {b n covered : ℕ}
      → enter_gate w ≡ (w', some covered)
      → Acts w false (busy waiting b n) w' true (busy (gated covered) b n)
  hands_over :
      {w w' : AofWriter} {b n covered : ℕ} (pushed : Outcome)
      → flush pushed w ≡ (w', ok tt)
      → Acts w true (busy (gated covered) b n) w' true (busy (flushed covered) b n)
  flush_fails :
      {w w' : AofWriter} {b n covered : ℕ} {e : FerrumError} (pushed : Outcome)
      → flush pushed w ≡ (w', err e)
      → Acts w true (busy (gated covered) b n) w' false gave_up
  fsync :
      {w w' : AofWriter} {b n covered : ℕ} (synced : Outcome)
      → sync_data synced w ≡ (w', ok tt)
      → Acts w true (busy (flushed covered) b n) w' true (busy (fsynced covered) b n)
  fsync_fails :
      {w w' : AofWriter} {b n covered : ℕ} {e : FerrumError} (synced : Outcome)
      → sync_data synced w ≡ (w', err e)
      → Acts w true (busy (flushed covered) b n) w' false gave_up
  publishes :
      {w : AofWriter} {b n covered : ℕ}
      → Acts w true (busy (fsynced covered) b n) (cover covered w) false (busy acknowledged b n)
  -- The command has answered, and the thread takes the next one.
  again : {w : AofWriter} {g : Bool} {b n : ℕ} → Acts w g (busy acknowledged b n) w g idle

abbrev pub at : (ℕ → Phase) → ℕ → Phase → ℕ → Phase
at threads i p j = if j == i then p else threads j

pub data Step : System → System → Type 0 where
  acts :
      {w w' : AofWriter} {g g' : Bool} {p p' : Phase} {threads : ℕ → Phase} (i : ℕ)
      → threads i ≡ p
      → Acts w g p w' g' p'
      → Step
          (record { writer = w; gate = g; threads = threads })
          (record { writer = w'; gate = g'; threads = at threads i p' })

-- The runs from a log that was just opened.
pub data Reachable (log : Bytes) : System → Type 0 where
  start : Reachable log (record { writer = opened always log; gate = false; threads = λ i. idle })
  then : {s t : System} → Reachable log s → Step s t → Reachable log t
