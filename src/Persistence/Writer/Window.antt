-- ===== src/Persistence/Writer/Window.antt =====
-- `finish_rewrite` of persistence/writer.rs among appends: its test of `rewriting` and its renaming take
-- no lock, and the swap takes those of the appenders.
use ferrum_kv.Prelude.{
  ◌≡◌, sym, ap, ◌∙◌, subst, ℕ, true, false, none, some, [], ◌++◌, Bytes, arith, inl, inr,
  append_assoc, Bool-cases, if◌then◌else◌,
}
use ferrum_kv.Error.{ok}
use ferrum_kv.Persistence.Writer.{AofWriter, done}
use ferrum_kv.Persistence.Writer.Swap.{move, swap}
use ferrum_kv.Persistence.Writer.NoLoss.{
  content, Writes, Extends, Extends-append, Writes-Extends, all_done, Finished, swap-Finished,
  aborted-Finished,
}

-- The appends before the test, behind it and behind the renaming are all in the delta.
moved-Finished :
    (m : ℕ) (w w2 w3 : AofWriter) (as' bs compact : Bytes)
    → w.delta ≡ []
    → Extends as' w w2
    → Extends bs (record w2 { renamed = some compact }) w3
    → w3.rewriting ≡ true
    → Finished (compact ++ (as' ++ bs)) (swap (all_done m) w3)
moved-Finished m w w2 w3 as' bs compact d s t y =
    let (y2, e3) = t.delta y in
    let e : w3.delta ≡ as' ++ bs = e3 ∙ ap (λ z. z ++ bs) ((s.delta y2).1 ∙ ap (λ z. z ++ as') d) in
    let same : record w3 { renamed = some compact; delta = as' ++ bs } ≡ w3 =
      ap (λ z. record w3 { renamed = some compact; delta = z }) (sym e)
      ∙ ap (λ z. record w3 { renamed = z }) (sym t.renamed) in
    subst (λ z. Finished (compact ++ (as' ++ bs)) (swap (all_done m) z)) same
      (swap-Finished m w3 compact (as' ++ bs))

-- A rewrite that was aborted before the test.
kept-Finished :
    (w w1 w3 : AofWriter) (as' bs : Bytes)
    → w.renamed ≡ none
    → w1.rewriting ≡ false
    → Extends as' w w1
    → Extends bs w1 w3
    → Finished (content w ++ (as' ++ bs)) (w3, ok tt)
kept-Finished w w1 w3 as' bs n r s t =
    let all = Extends-append s t in
    let over : w3.rewriting ≡ false = elim (Bool-cases w3.rewriting) [
      | inl y ↦ ground (arith, r, (t.delta y).0)
      | inr o ↦ o
    ] in
    subst (λ z. Finished z (w3, ok tt)) all.content (aborted-Finished w3 (all.renamed ∙ n) over)

-- A rewrite that begins with an empty delta loses no append that succeeds before its swap, be it before
-- its test (`as'`), between the test and the renaming (`bs`), or between the renaming and the swap
-- (`cs`): if it was not aborted before the test, the log is the compact file and all the appends, and if
-- it was, the log is the old one and all the appends. The path names the log, the rewrite has ended, and
-- the calls of the swap succeed. In the first case no append behind the test overflows the delta.
pub swap-Writes :
    (m : ℕ) (w w1 w2 w3 : AofWriter) (as' bs cs compact : Bytes)
    → w.renamed ≡ none
    → w.delta ≡ []
    → Writes w as' w1
    → Writes w1 bs w2
    → Writes (if w1.rewriting then (move (done 0) w2 compact).0 else w2) cs w3
    → (w1.rewriting ≡ true → w3.rewriting ≡ true)
    → Finished
        ((if w1.rewriting then compact else content w) ++ ((as' ++ bs) ++ cs))
        (if w1.rewriting then swap (all_done m) w3 else (w3, ok tt))
unfolding move
swap-Writes m w w1 w2 w3 as' bs cs compact n d a b c fits =
    let s = Writes-Extends a in
    let t = Writes-Extends b in
    let u = Writes-Extends c in
    elim (Bool-cases w1.rewriting) [
      | inl y ↦
          let u1 =
            subst (λ z. Extends cs (if z then (move (done 0) w2 compact).0 else w2) w3) y u in
          subst
            (λ z.
              Finished ((if z then compact else content w) ++ ((as' ++ bs) ++ cs))
                (if z then swap (all_done m) w3 else (w3, ok tt)))
            (sym y)
            (moved-Finished m w w2 w3 (as' ++ bs) cs compact d (Extends-append s t) u1 (fits y))
      | inr o ↦
          let u1 =
            subst (λ z. Extends cs (if z then (move (done 0) w2 compact).0 else w2) w3) o u in
          subst
            (λ z.
              Finished ((if z then compact else content w) ++ ((as' ++ bs) ++ cs))
                (if z then swap (all_done m) w3 else (w3, ok tt)))
            (sym o)
            (subst (λ z. Finished (content w ++ z) (w3, ok tt)) (sym (append_assoc as' bs cs))
              (kept-Finished w w1 w3 as' (bs ++ cs) n o s (Extends-append t u1)))
    ]
