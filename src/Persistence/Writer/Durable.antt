-- ===== src/Persistence/Writer/Durable.antt =====
-- What has been acknowledged under `appendfsync always` is on the disk, whatever the interleaving.
use ferrum_kv.Prelude.{
  ℕ, ◌≤◌, ◌≡◌, refl, ap, ◌∙◌, subst, Bool, false, ◌==◌, length, arith, Bool-cases, inl, inr,
}
use ferrum_kv.Error.{ok}
use ferrum_kv.Config.File.{always}
use ferrum_kv.Persistence.Writer.{AofWriter, Outcome, done, failed, settled, sync_data, cover}
use ferrum_kv.Persistence.Writer.GroupCommit.{
  Phase, idle, gave_up, busy, Place, appended, waiting, acknowledged, gated, flushed, fsynced,
  System, at,
}
use ferrum_kv.Persistence.Writer.Grows.{Grows}

-- A phase that keeps its promises: what was appended is within the file, what is covered is durable,
-- and so is what was acknowledged.
abbrev pub Tracked : AofWriter → ℕ → ℕ → Type 0
Tracked w batch end = (batch ≤ w.seq) × (end ≤ length w.file) × (batch ≤ w.synced → end ≤ w.durable)

abbrev pub Within : AofWriter → ℕ → ℕ → Place → Type 0
Within w b n appended = Unit {0}
Within w b n waiting = Unit {0}
Within w b n acknowledged = n ≤ w.durable
Within w b n (gated k) = (b ≤ k) × (k ≤ w.seq)
Within w b n (flushed k) = (b ≤ k) × (k ≤ w.seq)
Within w b n (fsynced k) = (b ≤ k) × (k ≤ w.seq)

abbrev pub Fits : AofWriter → Phase → Type 0
Fits w idle = Unit {0}
Fits w gave_up = Unit {0}
Fits w (busy place b n) = Tracked w b n × Within w b n place

-- All that a phase has appended among the first `k` batches is durable.
abbrev pub Covers : AofWriter → ℕ → Phase → Type 0
Covers w k idle = Unit {0}
Covers w k gave_up = Unit {0}
Covers w k (busy place b n) = b ≤ k → n ≤ w.durable

-- A barrier that has synced covers all phases.
abbrev pub Promises : AofWriter → (ℕ → Phase) → Phase → Type 0
Promises w threads (busy (fsynced k) b n) = (j : ℕ) → Covers w k (threads j)
Promises w threads _ = Unit {0}

pub Tracked-Grows : {w w' : AofWriter} {b n : ℕ} → Grows w w' → Tracked w b n → Tracked w' b n
Tracked-Grows g (a, e, d) = (
  omega (arith, a, g.seq),
  omega (arith, e, g.file),
  λ l. omega (arith, d (omega (arith, l, g.synced)), g.durable),
)

Within-Grows :
    {w w' : AofWriter} (b n : ℕ) (place : Place)
    → Grows w w'
    → Within w b n place
    → Within w' b n place
Within-Grows b n appended g d = tt
Within-Grows b n waiting g d = tt
Within-Grows b n acknowledged g d = omega (arith, d, g.durable)
Within-Grows b n (gated k) g (d, e) = (d, omega (arith, e, g.seq))
Within-Grows b n (flushed k) g (d, e) = (d, omega (arith, e, g.seq))
Within-Grows b n (fsynced k) g (d, e) = (d, omega (arith, e, g.seq))

pub Fits-Grows : {w w' : AofWriter} (p : Phase) → Grows w w' → Fits w p → Fits w' p
Fits-Grows idle g f = tt
Fits-Grows gave_up g f = tt
Fits-Grows (busy place b n) g (f, d) = (Tracked-Grows g f, Within-Grows b n place g d)

Covers-durable :
    (w w' : AofWriter) (k : ℕ) (p : Phase) → w.durable ≤ w'.durable → Covers w k p → Covers w' k p
Covers-durable w w' k idle g f = tt
Covers-durable w w' k gave_up g f = tt
Covers-durable w w' k (busy place b n) g f = λ l. omega (arith, f l, g)

pub record Inv (s : System) : Type 0 where
  pub policy : s.writer.policy ≡ always
  pub behind : s.writer.durable ≤ length s.writer.file
  pub synced : s.writer.synced ≤ s.writer.seq
  pub fits : (i : ℕ) → Fits s.writer (s.threads i)
  pub promises : (i : ℕ) → Promises s.writer s.threads (s.threads i)

pub at_here :
    (threads : ℕ → Phase) (i : ℕ) (p : Phase) (P : Phase → Type 0) (j : ℕ)
    → P p
    → (j == i ≡ false → P (threads j))
    → P (at threads i p j)
at_here threads i p P j here there = elim (Bool-cases (j == i)) [
  | inl y ↦ rw y here
  | inr n ↦ rw n (there n)
]

-- What one thread does, for the invariant: `i` goes from `p` to `p'` as the writer goes from `w` to `w'`.
module _ (w w' : AofWriter) (threads : ℕ → Phase) (i : ℕ) (p p' : Phase) where
  pub record Keeps : Type 0 where
    pub policy : w'.policy ≡ always
    pub behind : w'.durable ≤ length w'.file
    pub synced : w'.synced ≤ w'.seq
    pub durable : w.durable ≤ w'.durable
    pub others : (j : ℕ) → Fits w' (threads j)
    pub own : Fits w' p'
    pub covered : (k : ℕ) → k ≤ w.seq → Covers w k p → Covers w' k p'
    pub promise : Promises w' (at threads i p') p'

  Covers-kept :
      (k : ℕ)
      → threads i ≡ p
      → Keeps
      → k ≤ w.seq
      → ((j : ℕ) → Covers w k (threads j))
      → (j : ℕ) → Covers w' k (at threads i p' j)
  Covers-kept k e h l c j =
      at_here threads i p' (Covers w' k) j (h.covered k l (subst (Covers w k) e (c i)))
        (λ n. Covers-durable w w' k (threads j) h.durable (c j))

  promise_kept :
      (q : Phase)
      → threads i ≡ p
      → Keeps
      → Fits w q
      → Promises w threads q
      → Promises w' (at threads i p') q
  promise_kept idle e h f c = tt
  promise_kept gave_up e h f c = tt
  promise_kept (busy appended b n) e h f c = tt
  promise_kept (busy waiting b n) e h f c = tt
  promise_kept (busy acknowledged b n) e h f c = tt
  promise_kept (busy (gated k) b n) e h f c = tt
  promise_kept (busy (flushed k) b n) e h f c = tt
  promise_kept (busy (fsynced k) b n) e h f c = Covers-kept k e h f.1.1 c

  pub step-Inv :
      (g g' : Bool)
      → threads i ≡ p
      → Keeps
      → Inv (record { writer = w; gate = g; threads = threads })
      → Inv (record { writer = w'; gate = g'; threads = at threads i p' })
  step-Inv g g' e h v = record {
    policy = h.policy;
    behind = h.behind;
    synced = h.synced;
    fits = λ j. at_here threads i p' (Fits w') j h.own (λ n. h.others j);
    promises = λ j.
        at_here threads i p' (Promises w' (at threads i p')) j h.promise
          (λ n. promise_kept (threads j) e h (v.fits j) (v.promises j));
  }

-- A step that covers no batch keeps the other phases as they are.
pub grows-Keeps :
    (w w' : AofWriter) (g : Bool) (threads : ℕ → Phase) (i : ℕ) (p p' : Phase)
    → Grows w w'
    → Inv (record { writer = w; gate = g; threads = threads })
    → Fits w' p'
    → ((k : ℕ) → k ≤ w.seq → Covers w k p → Covers w' k p')
    → Promises w' (at threads i p') p'
    → Keeps w w' threads i p p'
grows-Keeps w w' g threads i p p' r v own covered promise = record {
  policy = r.policy ∙ v.policy;
  behind = r.behind v.behind;
  synced = omega (arith, r.synced, r.seq, v.synced);
  durable = r.durable;
  others = λ j. Fits-Grows (threads j) r (v.fits j);
  own = own;
  covered = covered;
  promise = promise;
}

cover-Within :
    (w : AofWriter) (k b n : ℕ) (place : Place) → Within w b n place → Within (cover k w) b n place
unfolding cover
cover-Within w k b n appended d = tt
cover-Within w k b n waiting d = tt
cover-Within w k b n acknowledged d = d
cover-Within w k b n (gated c) d = d
cover-Within w k b n (flushed c) d = d
cover-Within w k b n (fsynced c) d = d

cover-Fits : (w : AofWriter) (k : ℕ) (q : Phase) → Fits w q → Covers w k q → Fits (cover k w) q
unfolding cover
cover-Fits w k idle f c = tt
cover-Fits w k gave_up f c = tt
cover-Fits w k (busy place b n) ((a, e, d), x) c =
    ((a, e, λ l. ground (arith, l, d, c)), cover-Within w k b n place x)

pub cover-Keeps :
    (w : AofWriter) (g : Bool) (threads : ℕ → Phase) (i b n k : ℕ)
    → threads i ≡ busy (fsynced k) b n
    → Inv (record { writer = w; gate = g; threads = threads })
    → Keeps w (cover k w) threads i (busy (fsynced k) b n) (busy acknowledged b n)
unfolding cover
cover-Keeps w g threads i b n k e v =
    let mine : Fits w (busy (fsynced k) b n) = subst (Fits w) e (v.fits i) in
    let all : (j : ℕ) → Covers w k (threads j) = subst (Promises w threads) e (v.promises i) in
    let here : Covers w k (busy (fsynced k) b n) = subst (Covers w k) e (all i) in
    record {
      policy = v.policy;
      behind = v.behind;
      synced = ground (arith, v.synced, mine.1.1);
      durable = omega arith;
      others = λ j. cover-Fits w k (threads j) (v.fits j) (all j);
      own = ((cover-Fits w k (busy (fsynced k) b n) mine here).0, here mine.1.0);
      covered = λ j l c. c;
      promise = tt;
    }

pub fsync-Grows :
    (o : Outcome) (w w' : AofWriter)
    → w.durable ≤ length w.file
    → sync_data o w ≡ (w', ok tt)
    → Grows w w' × (w'.durable ≡ length w'.file)
unfolding sync_data settled
fsync-Grows (done moved) w w' l h =
    subst (λ x. Grows w x × (x.durable ≡ length x.file)) (ap (λ y. y.0) h)
      (
        record {
          policy = refl;
          seq = omega arith;
          file = omega arith;
          durable = omega (arith, l);
          synced = refl;
          behind = λ b. omega arith;
        },
        refl,
      )
fsync-Grows (failed moved kept e) w w' l h = cc h
