-- ===== src/Persistence/Writer/Exclusion.antt =====
-- The gate of the barrier, `sync_lock` of persistence/writer.rs: who holds it.
use ferrum_kv.Prelude.{
  ℕ, ◌≡◌, refl, sym, ap, ◌∙◌, subst, Bool, true, false, ◌==◌, arith, Bytes, Bool-cases, inl, inr,
  if◌then◌else◌,
}
use ferrum_kv.Persistence.Writer.{AofWriter}
use ferrum_kv.Persistence.Writer.GroupCommit
use ferrum_kv.Persistence.Writer.GroupCommit.{
  Phase, idle, gave_up, busy, appended, waiting, acknowledged, gated, flushed, fsynced, System,
  Acts, at, Step, acts, Reachable, start,
}

abbrev pub holds : Phase → Bool
holds (busy (gated covered) b n) = true
holds (busy (flushed covered) b n) = true
holds (busy (fsynced covered) b n) = true
holds p = false

-- What a step does to the gate: nothing, takes it, keeps it or leaves it.
data Turn : Bool → Bool → Bool → Bool → Type 0 where
  outside : {g : Bool} → Turn g false g false
  takes : Turn false false true true
  keeps : Turn true true true true
  leaves : Turn true true false false

acts-Turn :
    (w w' : AofWriter) (g g' : Bool) (p p' : Phase)
    → Acts w g p w' g' p'
    → Turn g (holds p) g' (holds p')
acts-Turn w w' g g' p p' (GroupCommit.append wrote push bytes l h) = outside
acts-Turn w w' g g' p p' (GroupCommit.append_fails wrote push bytes l h) = outside
acts-Turn w w' g g' p p' (GroupCommit.no_need q) = outside
acts-Turn w w' g g' p p' (GroupCommit.need q) = outside
acts-Turn w w' g g' p p' (GroupCommit.skip q) = outside
acts-Turn w w' g g' p p' (GroupCommit.enter q) = takes
acts-Turn w w' g g' p p' (GroupCommit.hands_over o h) = keeps
acts-Turn w w' g g' p p' (GroupCommit.flush_fails o h) = leaves
acts-Turn w w' g g' p p' (GroupCommit.fsync o h) = keeps
acts-Turn w w' g g' p p' (GroupCommit.fsync_fails o h) = leaves
acts-Turn w w' g g' p p' GroupCommit.publishes = leaves
acts-Turn w w' g g' p p' GroupCommit.again = outside

-- The gate is held by exactly one thread, or by none.
pub record IsGated (gate : Bool) (threads : ℕ → Phase) : Type 0 where
  pub held : gate ≡ true → (i : ℕ) × (holds (threads i) ≡ true)
  pub locked : (i : ℕ) → holds (threads i) ≡ true → gate ≡ true
  pub alone : (i j : ℕ) → holds (threads i) ≡ true → holds (threads j) ≡ true → i ≡ j

module _ (threads : ℕ → Phase) (i : ℕ) (p' : Phase) where
  -- A holder behind the step is the thread that stepped, or another one that was a holder before.
  data Holder (j : ℕ) : Type 0 where
    stepped : j ≡ i → holds p' ≡ true → Holder j
    other : holds (threads j) ≡ true → (j == i) ≡ false → Holder j

  at-Holder : (j : ℕ) → holds (at threads i p' j) ≡ true → Holder j
  at-Holder j q = elim (Bool-cases (j == i)) [
    | inl y ↦
        stepped (ground (arith, y)) (subst (λ b. holds (if b then p' else threads j) ≡ true) y q)
    | inr n ↦ other (subst (λ b. holds (if b then p' else threads j) ≡ true) n q) n
  ]

  at_still :
      (j : ℕ)
      → holds (threads j) ≡ true
      → holds (threads i) ≡ false
      → holds (at threads i p' j) ≡ true
  at_still j q e = elim (Bool-cases (j == i)) [
    | inl y ↦ let same : j ≡ i = ground (arith, y) in cc
    | inr n ↦ rw n q
  ]

  -- Another holder than the thread that steps.
  elsewhere :
      (g g' b b' : Bool) (k : ℕ)
      → Turn g b g' b'
      → holds (threads i) ≡ b
      → holds p' ≡ b'
      → IsGated g threads
      → holds p' ≡ true
      → holds (threads k) ≡ true
      → i ≡ k
  elsewhere g g' b b' k outside e e' v h q = cc
  elsewhere g g' b b' k takes e e' v h q = let l = v.locked k q in cc
  elsewhere g g' b b' k keeps e e' v h q = v.alone i k e q
  elsewhere g g' b b' k leaves e e' v h q = cc

  unique :
      (g g' b b' : Bool) (j k : ℕ)
      → Turn g b g' b'
      → holds (threads i) ≡ b
      → holds p' ≡ b'
      → IsGated g threads
      → Holder j
      → Holder k
      → j ≡ k
  unique g g' b b' j k t e e' v (stepped y h) (stepped z r) = y ∙ sym z
  unique g g' b b' j k t e e' v (stepped y h) (other q n) = y ∙ elsewhere g g' b b' k t e e' v h q
  unique g g' b b' j k t e e' v (other q n) (stepped z r) =
      sym (elsewhere g g' b b' j t e e' v r q) ∙ sym z
  unique g g' b b' j k t e e' v (other q n) (other r m) = v.alone j k q r

  locked_on :
      (g g' b b' : Bool) (j : ℕ)
      → Turn g b g' b'
      → holds (threads i) ≡ b
      → holds p' ≡ b'
      → IsGated g threads
      → Holder j
      → g' ≡ true
  locked_on g g' b b' j outside e e' v (stepped y h) = cc
  locked_on g g' b b' j outside e e' v (other q n) = v.locked j q
  locked_on g g' b b' j takes e e' v x = refl
  locked_on g g' b b' j keeps e e' v x = refl
  locked_on g g' b b' j leaves e e' v (stepped y h) = cc
  locked_on g g' b b' j leaves e e' v (other q n) =
      let same = v.alone i j e q in ground (arith, same, n)

  held_on :
      (g g' b b' : Bool)
      → Turn g b g' b'
      → holds (threads i) ≡ b
      → holds p' ≡ b'
      → IsGated g threads
      → g' ≡ true
      → (j : ℕ) × (holds (at threads i p' j) ≡ true)
  held_on g g' b b' outside e e' v q = let (j, h) = v.held q in (j, at_still j h e)
  held_on g g' b b' takes e e' v q = (i, ground (arith, e'))
  held_on g g' b b' keeps e e' v q = (i, ground (arith, e'))
  held_on g g' b b' leaves e e' v q = cc

  Turn-IsGated :
      (g g' b b' : Bool)
      → Turn g b g' b'
      → holds (threads i) ≡ b
      → holds p' ≡ b'
      → IsGated g threads
      → IsGated g' (at threads i p')
  Turn-IsGated g g' b b' t e e' v = record {
    held = held_on g g' b b' t e e' v;
    locked = λ j q. locked_on g g' b b' j t e e' v (at-Holder j q);
    alone = λ j k q r. unique g g' b b' j k t e e' v (at-Holder j q) (at-Holder k r);
  }

pub step-IsGated : (s t : System) → Step s t → IsGated s.gate s.threads → IsGated t.gate t.threads
step-IsGated s t
      (acts {w = w} {w' = w'} {g = g} {g' = g'} {p = p} {p' = p'} {threads = threads} i e a) v =
    Turn-IsGated threads i p' g g' (holds p) (holds p') (acts-Turn w w' g g' p p' a) (ap holds e)
      refl v

-- In every run the gate is held by exactly one thread, or by none and free.
pub Reachable-IsGated : (log : Bytes) (s : System) → Reachable log s → IsGated s.gate s.threads
Reachable-IsGated log s start = record { held = λ q. cc; locked = λ i q. cc; alone = λ i j q r. cc }
Reachable-IsGated log s (GroupCommit.then {s = s'} r q) =
    step-IsGated s' s q (Reachable-IsGated log s' r)
