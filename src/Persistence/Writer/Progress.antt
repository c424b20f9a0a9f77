-- ===== src/Persistence/Writer/Progress.antt =====
-- No caller of the barrier of persistence/writer.rs is stuck: each can be led to its acknowledgement.
use ferrum_kv.Prelude.{
  ℕ, ◌+◌, ◌%◌, ◌^◌, ◌≡◌, refl, sym, ap, ◌∙◌, subst, Bool, true, false, ◌==◌, arith, none, some,
  Bytes, Bool-cases, leb, inl, inr, if◌then◌else◌,
}
use ferrum_kv.Persistence.Writer.{
  AofWriter, done, needs_sync, enter_gate, flush, pushed, sync_data, settled,
}
use ferrum_kv.Persistence.Writer.GroupCommit
use ferrum_kv.Persistence.Writer.GroupCommit.{
  Phase, idle, gave_up, busy, Place, appended, waiting, acknowledged, gated, flushed, fsynced,
  System, at, Step, acts, Reachable,
}
use ferrum_kv.Persistence.Writer.Exclusion.{holds, IsGated, step-IsGated, Reachable-IsGated}

-- A run from one system to another.
pub data Steps : System → System → Type 0 where
  stay : {s : System} → Steps s s
  more : {s t u : System} → Step s t → Steps t u → Steps s u

pub Steps-append : {s t u : System} → Steps s t → Steps t u → Steps s u
Steps-append stay q = q
Steps-append (more a p) q = more a (Steps-append p q)

-- A run that ends with the thread acknowledged and the gate free, and leaves the other threads.
pub record Leads (s : System) (i b n : ℕ) : Type 0 where
  pub end : System
  pub run : Steps s end
  pub free : end.gate ≡ false
  pub here : end.threads i ≡ busy acknowledged b n
  pub others : (j : ℕ) → (j == i) ≡ false → end.threads j ≡ s.threads j

abbrev system : AofWriter → Bool → (ℕ → Phase) → System
system w g threads = record { writer = w; gate = g; threads = threads }

at_self : (threads : ℕ → Phase) (i : ℕ) (p : Phase) → at threads i p i ≡ p
at_self threads i p = ground arith

-- A step of the thread itself, and then its run.
onward :
    {w w' : AofWriter} {g g' : Bool} {threads : ℕ → Phase} (p : Phase) (i b n : ℕ)
    → Step (system w g threads) (system w' g' (at threads i p))
    → Leads (system w' g' (at threads i p)) i b n
    → Leads (system w g threads) i b n
onward {threads = threads} p i b n a l = record {
  end = l.end;
  run = more a l.run;
  free = l.free;
  here = l.here;
  others = λ j q. l.others j q ∙ rw q refl;
}

-- The last step of a run.
arrives :
    {w w' : AofWriter} {g : Bool} {threads : ℕ → Phase} (i b n : ℕ)
    → Step (system w g threads) (system w' false (at threads i (busy acknowledged b n)))
    → Leads (system w g threads) i b n
arrives {threads = threads} i b n a = record {
  end = _;
  run = more a stay;
  free = refl;
  here = at_self threads i (busy acknowledged b n);
  others = λ j q. rw q refl;
}

module _ (i b n : ℕ) where
  from_fsynced :
      (w : AofWriter) (threads : ℕ → Phase) (k : ℕ)
      → threads i ≡ busy (fsynced k) b n
      → Leads (system w true threads) i b n
  from_fsynced w threads k e = arrives i b n (acts i e GroupCommit.publishes)

  from_flushed :
      (w : AofWriter) (threads : ℕ → Phase) (k : ℕ)
      → threads i ≡ busy (flushed k) b n
      → Leads (system w true threads) i b n
  unfolding sync_data
  from_flushed w threads k e = onward _ i b n (acts i e (GroupCommit.fsync (done 0) refl)) (
      from_fsynced (settled (done 0) w) (at threads i (busy (fsynced k) b n)) k
        (at_self threads i _))

  from_gated :
      (w : AofWriter) (threads : ℕ → Phase) (k : ℕ)
      → threads i ≡ busy (gated k) b n
      → Leads (system w true threads) i b n
  unfolding flush
  from_gated w threads k e = onward _ i b n (acts i e (GroupCommit.hands_over (done 0) refl)) (
      from_flushed (pushed (done 0) w) (at threads i (busy (flushed k) b n)) k
        (at_self threads i _))

  -- A free gate lets the thread through.
  from_waiting :
      (w : AofWriter) (threads : ℕ → Phase)
      → threads i ≡ busy waiting b n
      → Leads (system w false threads) i b n
  unfolding enter_gate
  from_waiting w threads e = elim (Bool-cases (leb w.seq w.synced)) [
    | inl y ↦ arrives i b n (
        acts i e (
          GroupCommit.skip (
            ap
              (λ c.
                if c
                then (record w { fsync_skips = (w.fsync_skips + 1) % 2 ^ 64 }, none)
                else (w, some w.seq))
              y)))
    | inr m ↦
        onward _ i b n
          (acts i e (
            GroupCommit.enter (
              ap
                (λ c.
                  if c
                  then (record w { fsync_skips = (w.fsync_skips + 1) % 2 ^ 64 }, none)
                  else (w, some w.seq))
                m)))
          (from_gated w (at threads i (busy (gated w.seq) b n)) w.seq (at_self threads i _))
  ]

-- Whoever holds the gate can be led out of it.
holder_leaves :
    (w : AofWriter) (threads : ℕ → Phase) (i : ℕ) (p : Phase)
    → threads i ≡ p
    → holds p ≡ true
    → (b n : ℕ) × Leads (system w true threads) i b n
holder_leaves w threads i (busy (gated k) b n) e h = (b, n, from_gated i b n w threads k e)
holder_leaves w threads i (busy (flushed k) b n) e h = (b, n, from_flushed i b n w threads k e)
holder_leaves w threads i (busy (fsynced k) b n) e h = (b, n, from_fsynced i b n w threads k e)
holder_leaves w threads i (busy appended b n) e h = cc
holder_leaves w threads i (busy waiting b n) e h = cc
holder_leaves w threads i (busy acknowledged b n) e h = cc
holder_leaves w threads i idle e h = cc
holder_leaves w threads i gave_up e h = cc

-- A run that acknowledges the thread.
abbrev pub Acknowledges : System → ℕ → ℕ → ℕ → Type 0
Acknowledges s i b n = (t : System) × Steps s t × (t.threads i ≡ busy acknowledged b n)

acknowledged_by : {s : System} {i b n : ℕ} → Leads s i b n → Acknowledges s i b n
acknowledged_by l = (l.end, l.run, l.here)

module _ (i b n : ℕ) where
  differ :
      (threads : ℕ → Phase) (i j : ℕ)
      → threads i ≡ busy waiting b n
      → holds (threads j) ≡ true
      → (i == j) ≡ false
  differ threads i j e h = elim (Bool-cases (i == j)) [
    | inl y ↦ let same : i ≡ j = ground (arith, y) in cc
    | inr m ↦ m
  ]

  -- The thread waits for the one that holds the gate, and goes through behind it.
  behind_holder :
      (w : AofWriter) (threads : ℕ → Phase) (j : ℕ)
      → threads i ≡ busy waiting b n
      → holds (threads j) ≡ true
      → Acknowledges (system w true threads) i b n
  behind_holder w threads j e h =
      let (c, m, l) = holder_leaves w threads j (threads j) refl h in
      let apart : (i == j) ≡ false = differ threads i j e h in
      let waits : l.end.threads i ≡ busy waiting b n = l.others i apart ∙ e in
      let r =
        subst (λ g. Leads (system l.end.writer g l.end.threads) i b n) (sym l.free)
          (from_waiting i b n l.end.writer l.end.threads waits) in
      (r.end, Steps-append l.run r.run, r.here)

  waiting-Acknowledges :
      (w : AofWriter) (g : Bool) (threads : ℕ → Phase)
      → IsGated g threads
      → threads i ≡ busy waiting b n
      → Acknowledges (system w g threads) i b n
  waiting-Acknowledges w true threads v e =
      let (j, h) = v.held refl in behind_holder w threads j e h
  waiting-Acknowledges w false threads v e = acknowledged_by (from_waiting i b n w threads e)

  holding-Acknowledges :
      (w : AofWriter) (g : Bool) (threads : ℕ → Phase)
      → IsGated g threads
      → holds (threads i) ≡ true
      → Leads (system w true threads) i b n
      → Acknowledges (system w g threads) i b n
  holding-Acknowledges w g threads v h l =
      subst (λ x. Acknowledges (system w x threads) i b n) (sym (v.locked i h)) (acknowledged_by l)

  place-Acknowledges :
      (place : Place) (w : AofWriter) (g : Bool) (threads : ℕ → Phase)
      → IsGated g threads
      → threads i ≡ busy place b n
      → Acknowledges (system w g threads) i b n
  place-Acknowledges appended w g threads v e = elim (Bool-cases (needs_sync w)) [
    | inl y ↦
        let a = acts i e (GroupCommit.need y) in
        let (t, r, q) =
          waiting-Acknowledges w g (at threads i (busy waiting b n)) (step-IsGated _ _ a v)
            (at_self threads i (busy waiting b n)) in
        (t, more a r, q)
    | inr m ↦
        (_, more (acts i e (GroupCommit.no_need m)) stay, at_self threads i (busy acknowledged b n))
  ]
  place-Acknowledges waiting w g threads v e = waiting-Acknowledges w g threads v e
  place-Acknowledges acknowledged w g threads v e = (system w g threads, stay, e)
  place-Acknowledges (gated k) w g threads v e =
      holding-Acknowledges w g threads v (ap holds e) (from_gated i b n w threads k e)
  place-Acknowledges (flushed k) w g threads v e =
      holding-Acknowledges w g threads v (ap holds e) (from_flushed i b n w threads k e)
  place-Acknowledges (fsynced k) w g threads v e =
      holding-Acknowledges w g threads v (ap holds e) (from_fsynced i b n w threads k e)

-- In every run under `appendfsync always`, whatever the interleaving, each thread that has appended and
-- is not yet acknowledged can be led to its acknowledgement: a continuation of the run leads there. No
-- caller of the barrier is ever stuck. No rewrite of the log is in flight.
pub Reachable-Acknowledges :
    (log : Bytes) (s : System)
    → Reachable log s
    → (i b n : ℕ) (place : Place) → s.threads i ≡ busy place b n
    → Acknowledges s i b n
Reachable-Acknowledges log s r i b n place e =
    place-Acknowledges i b n place s.writer s.gate s.threads (Reachable-IsGated log s r) e
