-- ===== src/Persistence/Writer/Acknowledged.antt =====
-- Every step of the barrier's callers keeps the invariant.
use ferrum_kv.Prelude.{
  ℕ, ◌+◌, ◌%◌, ◌≤◌, ◌^◌, ◌≡◌, refl, ap, subst, Bool, true, false, Option, none, some, Bytes, length,
  arith, leb, if◌then◌else◌,
}
use ferrum_kv.Error.{FerrumError, Result, ok, err}
use ferrum_kv.Config.File.{always}
use ferrum_kv.Persistence.Writer.{
  AofWriter, opened, Outcome, done, failed, settled, needs_sync, enter_gate, flush, sync_data,
}
use ferrum_kv.Persistence.Writer.GroupCommit
use ferrum_kv.Persistence.Writer.GroupCommit.{
  Phase, idle, gave_up, busy, Place, appended, waiting, acknowledged, gated, flushed, fsynced,
  System, Acts, at, Step, acts, Reachable, start,
}
use ferrum_kv.Persistence.Writer.Grows.{
  Grows, same-Grows, pushed-Grows, write_bytes-Grows, write_bytes-Numbered,
}
use ferrum_kv.Persistence.Writer.Durable.{
  Fits, Covers, Inv, Tracked-Grows, Fits-Grows, at_here, Keeps, step-Inv, grows-Keeps, cover-Keeps,
  fsync-Grows,
}

Covers-all :
    (w : AofWriter) (k : ℕ) (q : Phase) → w.durable ≡ length w.file → Fits w q → Covers w k q
Covers-all w k idle e f = tt
Covers-all w k gave_up e f = tt
Covers-all w k (busy place b n) e f = λ l. omega (arith, e, f.0.1)

flush-Grows :
    (o : Outcome) (w w' : AofWriter) (r : Result (Unit {0})) → flush o w ≡ (w', r) → Grows w w'
unfolding flush
flush-Grows o w w' r h = subst (Grows w) (ap (λ y. y.0) h) (pushed-Grows o w)

sync_fails :
    (o : Outcome) (w w' : AofWriter) (e : FerrumError) → sync_data o w ≡ (w', err e) → Grows w w'
unfolding sync_data settled
sync_fails (done moved) w w' e h = cc h
sync_fails (failed moved kept x) w w' e h = subst (Grows w) (ap (λ y. y.0) h) (same-Grows w)

-- The gate's two answers.
abbrev gate_of : AofWriter → Bool → AofWriter × Option ℕ
gate_of w b =
    if b then (record w { fsync_skips = (w.fsync_skips + 1) % 2 ^ 64 }, none) else (w, some w.seq)

skipped-Grows : (w w' : AofWriter) (b : Bool) → gate_of w b ≡ (w', none) → Grows w w' × (b ≡ true)
skipped-Grows w w' true h = (
  subst (Grows w) (ap (λ y. y.0) h) (record {
    policy = refl;
    seq = omega arith;
    file = omega arith;
    durable = omega arith;
    synced = refl;
    behind = λ d. d;
  }),
  refl,
)
skipped-Grows w w' false h = cc h

skip-Grows : (w w' : AofWriter) → enter_gate w ≡ (w', none) → Grows w w' × (w.seq ≤ w.synced)
unfolding enter_gate
skip-Grows w w' h = let (g, t) = skipped-Grows w w' (leb w.seq w.synced) h in (g, ground (arith, t))

entered-Grows :
    (w w' : AofWriter) (k : ℕ) (b : Bool) → gate_of w b ≡ (w', some k) → Grows w w' × (k ≡ w.seq)
entered-Grows w w' k true h = cc h
entered-Grows w w' k false h = (subst (Grows w) (ap (λ y. y.0) h) (same-Grows w), ground (arith, h))

enter-Grows : (w w' : AofWriter) (k : ℕ) → enter_gate w ≡ (w', some k) → Grows w w' × (k ≡ w.seq)
unfolding enter_gate
enter-Grows w w' k h = entered-Grows w w' k (leb w.seq w.synced) h

no_need_covered : (w : AofWriter) → w.policy ≡ always → needs_sync w ≡ false → w.seq ≤ w.synced
unfolding needs_sync
no_need_covered w p q = ground (arith, p, q)

module _ (threads : ℕ → Phase) (i : ℕ) where
  acts-Keeps :
      (w w' : AofWriter) (g g' : Bool) (p p' : Phase)
      → Acts w g p w' g' p'
      → threads i ≡ p
      → Inv (record { writer = w; gate = g; threads = threads })
      → Keeps w w' threads i p p'
  unfolding needs_sync
  acts-Keeps w w' g g' p p' (GroupCommit.append wrote push bytes l h) e v =
      let r = subst (Grows w) (ap (λ y. y.0) h) (write_bytes-Grows wrote push w bytes v.policy l) in
      let next = (write_bytes-Numbered wrote push w bytes v.policy l).number w' h in
      grows-Keeps w w' g threads i p p' r v
        ((omega arith, omega arith, λ k. omega (arith, k, next, r.synced, v.synced)), tt)
        (λ k b c q. omega (arith, b, q, next)) tt
  acts-Keeps w w' g g' p p' (GroupCommit.append_fails wrote push bytes l h) e v =
      grows-Keeps w w' g threads i p p'
        (subst (Grows w) (ap (λ y. y.0) h) (write_bytes-Grows wrote push w bytes v.policy l)) v tt
        (λ k b c. tt) tt
  acts-Keeps w w' g g' p p' (GroupCommit.no_need {b = b} {n = n} q) e v =
      let f = subst (Fits w) e (v.fits i) in
      grows-Keeps w w g threads i p p' (same-Grows w) v
        (f.0, f.0.2 (omega (arith, f.0.0, no_need_covered w v.policy q))) (λ k l c. c) tt
  acts-Keeps w w' g g' p p' (GroupCommit.need q) e v =
      grows-Keeps w w g threads i p p' (same-Grows w) v (subst (Fits w) e (v.fits i)) (λ k l c. c)
        tt
  acts-Keeps w w' g g' p p' (GroupCommit.skip {b = b} {n = n} q) e v =
      let (r, l) = skip-Grows w w' q in
      let f = Fits-Grows (busy waiting b n) r (subst (Fits w) e (v.fits i)) in
      grows-Keeps w w' g threads i p p' r v
        (f.0, f.0.2 (omega (arith, (subst (Fits w) e (v.fits i)).0.0, l, r.synced)))
        (λ k l c q. omega (arith, c q, r.durable)) tt
  acts-Keeps w w' g g' p p' (GroupCommit.enter {b = b} {n = n} {covered = k} q) e v =
      let (r, l) = enter-Grows w w' k q in
      let f = subst (Fits w) e (v.fits i) in
      grows-Keeps w w' g threads i p p' r v
        (Tracked-Grows r f.0, (omega (arith, l, f.0.0), omega (arith, l, r.seq)))
        (λ k l c q. omega (arith, c q, r.durable)) tt
  acts-Keeps w w' g g' p p' (GroupCommit.hands_over {b = b} {n = n} {covered = k} o h) e v =
      let r = flush-Grows o w w' (ok tt) h in
      let f = Fits-Grows (busy (gated k) b n) r (subst (Fits w) e (v.fits i)) in
      grows-Keeps w w' g threads i p p' r v f (λ k l c q. omega (arith, c q, r.durable)) tt
  acts-Keeps w w' g g' p p' (GroupCommit.flush_fails {e = x} o h) e v =
      grows-Keeps w w' g threads i p p' (flush-Grows o w w' (err x) h) v tt (λ k l c. tt) tt
  acts-Keeps w w' g g' p p' (GroupCommit.fsync {b = b} {n = n} {covered = k} o h) e v =
      let (r, d) = fsync-Grows o w w' v.behind h in
      let f = Fits-Grows (busy (flushed k) b n) r (subst (Fits w) e (v.fits i)) in
      grows-Keeps w w' g threads i p p' r v f (λ k l c q. omega (arith, c q, r.durable))
        (λ j.
          at_here threads i p' (Covers w' k) j (Covers-all w' k p' d f)
            (λ q. Covers-all w' k (threads j) d (Fits-Grows (threads j) r (v.fits j))))
  acts-Keeps w w' g g' p p' (GroupCommit.fsync_fails {e = x} o h) e v =
      grows-Keeps w w' g threads i p p' (sync_fails o w w' x h) v tt (λ k l c. tt) tt
  acts-Keeps w w' g g' p p' (GroupCommit.publishes {b = b} {n = n} {covered = k}) e v =
      cover-Keeps w g threads i b n k e v
  acts-Keeps w w' g g' p p' GroupCommit.again e v =
      grows-Keeps w w g threads i p p' (same-Grows w) v tt (λ k l c. tt) tt

step_Inv : (s t : System) → Step s t → Inv s → Inv t
step_Inv s t (acts {w = w} {w' = w'} {g = g} {g' = g'} {p = p} {p' = p'} {threads = threads} i e a)
      v =
    step-Inv w w' threads i p p' g g' e (acts-Keeps threads i w w' g g' p p' a e v) v

Reachable-Inv : (log : Bytes) (s : System) → Reachable log s → Inv s
unfolding opened
Reachable-Inv log s start = record {
  policy = refl;
  behind = omega arith;
  synced = omega arith;
  fits = λ i. tt;
  promises = λ i. tt;
}
Reachable-Inv log s (GroupCommit.then {s = s'} r q) = step_Inv s' s q (Reachable-Inv log s' r)

-- Under `appendfsync always`, in every run of any number of threads that append and then wait at the
-- barrier, with failed calls and skipped barriers, whatever the interleaving: what lies in the file up
-- to the end of an acknowledged append has been covered by an fsync. No rewrite of the log is in
-- flight, and fewer than 2^64 batches are appended.
pub Reachable-durable :
    (log : Bytes) (s : System)
    → Reachable log s
    → (i batch end : ℕ) → s.threads i ≡ busy acknowledged batch end
    → end ≤ s.writer.durable
Reachable-durable log s r i batch end e =
    (subst (Fits s.writer) e ((Reachable-Inv log s r).fits i)).1
