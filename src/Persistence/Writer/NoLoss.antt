-- ===== src/Persistence/Writer/NoLoss.antt =====
-- A rewrite of the log loses no write.
use ferrum_kv.Prelude.{
  ℕ, ◌≡◌, refl, ap, sym, ◌∙◌, subst, Bool, true, false, none, some, [], ◌∷◌, ◌++◌, Bytes, codes,
  length, take, drop, arith, inl, inr, append_assoc, append_nil, take-append-drop, Bool-cases,
  if◌then◌else◌,
}
use ferrum_kv.Error.{Result, ok, err}
use ferrum_kv.Persistence.Writer.{
  AofWriter, Outcome, done, failed, hand_over, buffered, pushed, settled, write_all, publish,
  mirror, and_then, result, write_bytes, flush,
}
use ferrum_kv.Persistence.Writer.Swap.{
  at_path, Calls, move, rename, reopen, replay_delta, swap, finish_rewrite,
}

-- The log that the writer leaves, once its buffer is handed over.
abbrev pub content : AofWriter → Bytes
content w = w.file ++ w.buffer

-- A run of appends that succeed, and all their bytes.
pub data Writes (w : AofWriter) : Bytes → AofWriter → Type 0 where
  nothing : Writes w [] w
  next :
      {w' w'' : AofWriter} {bs : Bytes} (b : Bytes) (wrote flushed : Outcome)
      → Writes w bs w'
      → write_bytes wrote flushed w' b ≡ (w'', ok tt)
      → Writes w (bs ++ b) w''

-- What an append that succeeds does to the log: its bytes are at the end, and at the end of the delta,
-- or there is no rewrite behind it.
pub record Extends (b : Bytes) (w w' : AofWriter) : Type 0 where
  pub content : content w' ≡ content w ++ b
  pub renamed : w'.renamed ≡ w.renamed
  pub delta : w'.rewriting ≡ true → (w.rewriting ≡ true) × (w'.delta ≡ w.delta ++ b)

handed-content :
    (w : AofWriter) (n : ℕ) (pending : Bytes) → content (hand_over w n pending) ≡ w.file ++ pending
handed-content w n pending =
    append_assoc w.file (take n pending) (drop n pending)
    ∙ ap (λ x. w.file ++ x) (take-append-drop n pending)

mirror-content : (b : Bytes) (w : AofWriter) → content (mirror b w) ≡ content w
unfolding mirror
mirror-content b w = ground arith

mirror-renamed : (b : Bytes) (w : AofWriter) → (mirror b w).renamed ≡ w.renamed
unfolding mirror
mirror-renamed b w = ground arith

mirror-delta :
    (b : Bytes) (w : AofWriter)
    → (mirror b w).rewriting ≡ true
    → (w.rewriting ≡ true) × ((mirror b w).delta ≡ w.delta ++ b)
unfolding mirror
mirror-delta b w h = ground (arith, h)

-- `publish` leaves the log, the path and the delta.
record Same (w : AofWriter) (x : AofWriter × Result (Unit {0})) : Type 0 where
  content : content x.0 ≡ content w
  renamed : x.0.renamed ≡ w.renamed
  rewriting : x.0.rewriting ≡ w.rewriting
  delta : x.0.delta ≡ w.delta

publish-Same : (o : Outcome) (w : AofWriter) → Same w (publish o w)
unfolding publish flush pushed
publish-Same (done m) w = record {
  content = ground (arith, handed-content w (length w.buffer) w.buffer);
  renamed = ground arith;
  rewriting = ground arith;
  delta = ground arith;
}
publish-Same (failed m k e) w = record {
  content = ground (arith, handed-content w m w.buffer);
  renamed = ground arith;
  rewriting = ground arith;
  delta = ground arith;
}

buffered-content :
    (o : Outcome) (w : AofWriter) (b : Bytes)
    → result (codes "aof write failed: ") o ≡ ok tt
    → content (buffered o w b) ≡ content w ++ b
unfolding buffered
buffered-content (done m) w b h =
    handed-content w m (w.buffer ++ b) ∙ sym (append_assoc w.file w.buffer b)
buffered-content (failed m k e) w b h = cc h

buffered-renamed : (o : Outcome) (w : AofWriter) (b : Bytes) → (buffered o w b).renamed ≡ w.renamed
unfolding buffered
buffered-renamed (done m) w b = refl
buffered-renamed (failed m k e) w b = refl

buffered-delta :
    (o : Outcome) (w : AofWriter) (b : Bytes)
    → ((buffered o w b).rewriting ≡ w.rewriting) × ((buffered o w b).delta ≡ w.delta)
unfolding buffered
buffered-delta (done m) w b = (refl, refl)
buffered-delta (failed m k e) w b = (refl, refl)

-- The steps of an append behind the write.
mirrored-Extends :
    (b : Bytes) (w w1 w' : AofWriter) (x : AofWriter × Result (Unit {0}))
    → content w1 ≡ content w ++ b
    → w1.renamed ≡ w.renamed
    → (w1.rewriting ≡ w.rewriting) × (w1.delta ≡ w.delta)
    → Same w1 x
    → and_then x (λ w2. (mirror b w2, ok tt)) ≡ (w', ok tt)
    → Extends b w w'
mirrored-Extends b w w1 w' (w2, ok t) c r (f, d) s h =
    let e : mirror b w2 ≡ w' = ap (λ y. y.0) h in
    subst (Extends b w) e (record {
      content = mirror-content b w2 ∙ s.content ∙ c;
      renamed = mirror-renamed b w2 ∙ s.renamed ∙ r;
      delta = λ q.
          let (q1, q2) = mirror-delta b w2 q in
          (sym f ∙ sym s.rewriting ∙ q1, q2 ∙ ap (λ z. z ++ b) (s.delta ∙ d));
    })
mirrored-Extends b w w1 w' (w2, err x) c r f s h = cc h

write_bytes-Extends :
    (wrote push : Outcome) (w w' : AofWriter) (b : Bytes)
    → write_bytes wrote push w b ≡ (w', ok tt)
    → Extends b w w'
unfolding write_bytes write_all
write_bytes-Extends (done m) push w w' b h =
    let w1 = buffered (done m) w b in
    mirrored-Extends b w w1 w' (publish push w1) (buffered-content (done m) w b refl)
      (buffered-renamed (done m) w b) (buffered-delta (done m) w b) (publish-Same push w1) h
write_bytes-Extends (failed m k e) push w w' b h = cc h

pub Extends-append :
    {a b : Bytes} {w w1 w2 : AofWriter} → Extends a w w1 → Extends b w1 w2 → Extends (a ++ b) w w2
Extends-append {a = a} {b = b} {w = w} s t = record {
  content = t.content ∙ ap (λ z. z ++ b) s.content ∙ append_assoc (content w) a b;
  renamed = t.renamed ∙ s.renamed;
  delta = λ q.
      let (q1, q2) = t.delta q in
      let (q3, q4) = s.delta q1 in (q3, q2 ∙ ap (λ z. z ++ b) q4 ∙ append_assoc w.delta a b);
}

pub Writes-Extends : {w w' : AofWriter} {bs : Bytes} → Writes w bs w' → Extends bs w w'
Writes-Extends {w = w} nothing = record {
  content = sym (append_nil (content w));
  renamed = refl;
  delta = λ q. (q, sym (append_nil w.delta));
}
Writes-Extends (next {w' = w1} {w'' = w2} b wrote push r h) =
    Extends-append (Writes-Extends r) (write_bytes-Extends wrote push w1 w2 b h)

-- The calls of a swap that all succeed.
abbrev pub all_done : ℕ → Calls
all_done m = record {
  renaming = done 0;
  opening = done 0;
  writing = done m;
  flushing = done 0;
  fsyncing = done 0;
}

-- The log behind a rewrite.
pub record Finished (log : Bytes) (x : AofWriter × Result (Unit {0})) : Type 0 where
  pub succeeded : x.1 ≡ ok tt
  pub content : content x.0 ≡ log
  pub at_path : at_path x.0 ≡ x.0.file
  pub ended : x.0.rewriting ≡ false

pub swap-Finished :
    (m : ℕ) (w : AofWriter) (compact delta : Bytes)
    → Finished
        (compact ++ delta)
        (swap (all_done m) (record w { renamed = some compact; delta = delta }))
unfolding swap reopen replay_delta buffered pushed settled
swap-Finished m w compact [] = record {
  succeeded = refl;
  content = refl;
  at_path = refl;
  ended = refl;
}
swap-Finished m w compact (b ∷ bs) =
    let w1 : AofWriter = record w {
      file = compact;
      buffer = [];
      durable = length compact;
      renamed = none;
      seq = 0;
      synced = 0;
      delta = b ∷ bs;
    } in
    let w2 : AofWriter = hand_over w1 m (b ∷ bs) in
    record {
      succeeded = refl;
      content = handed-content w2 (length w2.buffer) w2.buffer ∙ handed-content w1 m (b ∷ bs);
      at_path = refl;
      ended = refl;
    }

-- What follows the renaming.
abbrev after_rename : ℕ → AofWriter × Result Bool → AofWriter × Result (Unit {0})
after_rename m (w1, ok true) = swap (all_done m) w1
after_rename m (w1, ok false) = (w1, ok tt)
after_rename m (w1, err e) = (w1, err e)

finish_rename :
    (m : ℕ) (w : AofWriter) (compact : Bytes)
    → finish_rewrite (all_done m) w compact ≡ after_rename m (rename (done 0) w compact)
unfolding finish_rewrite
finish_rename m w compact = ground arith

renamed_rewrite :
    (m : ℕ) (w : AofWriter) (compact : Bytes)
    → w.rewriting ≡ true
    → finish_rewrite (all_done m) w compact
      ≡ swap (all_done m) (record w { renamed = some compact })
unfolding rename move
renamed_rewrite m w compact r =
    finish_rename m w compact
    ∙ ap
        (λ b.
          after_rename m
            (if b then (record w { renamed = some compact }, ok true) else (w, ok false)))
        r

aborted_rewrite :
    (m : ℕ) (w : AofWriter) (compact : Bytes)
    → w.rewriting ≡ false
    → finish_rewrite (all_done m) w compact ≡ (w, ok tt)
unfolding rename move
aborted_rewrite m w compact r =
    finish_rename m w compact
    ∙ ap
        (λ b.
          after_rename m
            (if b then (record w { renamed = some compact }, ok true) else (w, ok false)))
        r

pub aborted-Finished :
    (w : AofWriter) → w.renamed ≡ none → w.rewriting ≡ false → Finished (content w) (w, ok tt)
aborted-Finished w n r = record {
  succeeded = refl;
  content = refl;
  at_path = ground (arith, n);
  ended = r;
}

-- A rewrite that begins with an empty delta and ends with no other thread in between loses no append
-- before its end: if it was not aborted, the log is the compact file and all the appends; if their bytes
-- were too many for the delta, it is the old log and all the appends.
pub finish_rewrite-Writes :
    (m : ℕ) (w w' : AofWriter) (bs compact : Bytes)
    → w.renamed ≡ none
    → w.delta ≡ []
    → Writes w bs w'
    → Finished
        ((if w'.rewriting then compact else content w) ++ bs)
        (finish_rewrite (all_done m) w' compact)
finish_rewrite-Writes m w w' bs compact n d r =
    let s = Writes-Extends r in
    elim (Bool-cases w'.rewriting) [
      | inl y ↦
          let e : w'.delta ≡ bs = (s.delta y).1 ∙ ap (λ z. z ++ bs) d in
          subst
            (λ t.
              Finished ((if t then compact else content w) ++ bs)
                (finish_rewrite (all_done m) w' compact))
            (sym y)
            (subst (Finished (compact ++ bs)) (sym (renamed_rewrite m w' compact y)) (
              subst
                (λ z.
                  Finished (compact ++ z)
                    (swap (all_done m) (record w' { renamed = some compact })))
                e (swap-Finished m w' compact w'.delta)))
      | inr y ↦
          subst
            (λ t.
              Finished ((if t then compact else content w) ++ bs)
                (finish_rewrite (all_done m) w' compact))
            (sym y)
            (subst (Finished (content w ++ bs)) (sym (aborted_rewrite m w' compact y)) (
              subst (λ z. Finished z (w', ok tt)) s.content
                (aborted-Finished w' (s.renamed ∙ n) y)))
    ]
