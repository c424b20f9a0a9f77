-- ===== src/Network/Connection/Discreet.antt =====
-- The inner loop, for a connection that has not authenticated.
use ferrum_kv.Prelude.{ℕ, zero, suc, ◌≡◌, refl, ap, subst, ◌∙◌, true, false, arith, inl, inr, drop}
use ferrum_kv.Error.{Result, ok, err}
use ferrum_kv.Protocol.Text.{Rendering}
use ferrum_kv.Protocol.Command.{Command}
use ferrum_kv.Protocol.Frame.{FrameParse, complete, invalid, incomplete, parse_frame}
use ferrum_kv.Storage.Engine.{Host}
use ferrum_kv.Network.Shared.{Shared}
use ferrum_kv.Network.Respond.{write_ferrum_error}
use ferrum_kv.Network.Connection.{
  Moment, Connection, Stage, reading, monitoring, exhausted, returned, Gate, by_auth, by_hello,
  by_monitor, by_engine, gate, Served, served, on_gate, write_batch, on_command, on_invalid, refuse,
}
use ferrum_kv.Network.Connection.Loop.{one_more, go_on, on_frame, drain}
use ferrum_kv.Network.Connection.Blind.{
  Alike, is_monitoring, Locked, SamePassword, command-Locked, invalid-Locked, refuse-Alike,
  run_command-authed,
}

module _ {h : Host} where
  -- A loop body that keeps an authentication, and is blind without one.
  pub record Discreet (again : Shared h → Connection → Served h) : Type 0 where
    pub keeps :
        (s : Shared h) (c : Connection) → c.authed ≡ true → (again s c).connection.authed ≡ true
    pub blind :
        (s s' : Shared h) (c : Connection)
        → SamePassword s.engine s'.engine
        → Locked s s' (again s c) (again s' c)

  batch-authed :
      (w : Result (Unit {0})) (x : Served h)
      → (write_batch w x).connection.authed ≡ x.connection.authed
  unfolding write_batch
  batch-authed w x = ground arith

  gate-authed :
      (m : Moment) (s : Shared h) (c : Connection) (cmd : Command h.floats) (g : Gate)
      → c.authed ≡ true
      → (on_gate m s c cmd g).connection.authed ≡ true
  unfolding on_gate
  gate-authed m s c cmd (by_auth p) a = ground (arith, a)
  gate-authed m s c cmd (by_hello p) a = a
  gate-authed m s c cmd by_monitor a = ground (arith, a)
  gate-authed m s c cmd by_engine a = run_command-authed m s c cmd ∙ a

  go_on-authed :
      (again : Shared h → Connection → Served h) (x : Served h)
      → Discreet again
      → x.connection.authed ≡ true
      → (go_on again x).connection.authed ≡ true
  go_on-authed again x d a = ground (arith, a, d.keeps x.shared x.connection a)

  -- `go_on` by the stage.
  abbrev pub pick : Stage → Served h → Served h → Served h
  pick reading y x = one_more y
  pick _ y x = one_more x

  more-Alike :
      (e e' : Shared h) (x x' : Served h) → Alike e e' x x' → Alike e e' (one_more x) (one_more x')
  more-Alike e e' x x' b = record {
    connections = b.connections;
    stages = b.stages;
    counts = ap suc b.counts;
    engine = b.engine;
    engine' = b.engine';
    monitors = b.monitors;
    monitors' = b.monitors';
  }

  pick-Locked :
      (e e' : Shared h) (g : Stage) (x x' y y' : Served h)
      → Alike e e' x x'
      → (is_monitoring g ≡ false → Locked e e' y y')
      → Locked e e' (pick g y x) (pick g y' x')
  pick-Locked e e' reading x x' y y' b next = elim (next refl) [
    | inl a ↦ inl a
    | inr l ↦ inr (more-Alike e e' y y' l)
  ]
  pick-Locked e e' monitoring x x' y y' b next = inr (more-Alike e e' x x' b)
  pick-Locked e e' exhausted x x' y y' b next = inr (more-Alike e e' x x' b)
  pick-Locked e e' (returned z) x x' y y' b next = inr (more-Alike e e' x x' b)

  -- What follows a run that has changed neither server.
  pub Locked-from :
      (e e' : Shared h) (x x' y y' : Served h)
      → Alike e e' x x'
      → is_monitoring x.stage ≡ false
      → Locked x.shared x'.shared y y'
      → Locked e e' y y'
  Locked-from e e' x x' y y' b q (inl a) = inl a
  Locked-from e e' x x' y y' b q (inr l) = inr (record {
    connections = l.connections;
    stages = l.stages;
    counts = l.counts;
    engine = l.engine ∙ b.engine;
    engine' = l.engine' ∙ b.engine';
    monitors = λ p. l.monitors p ∙ b.monitors q;
    monitors' = λ p. l.monitors' p ∙ b.monitors' q;
  })

  pub again-Locked :
      (e e' : Shared h) (again : Shared h → Connection → Served h) (x x' : Served h)
      → Discreet again
      → SamePassword e.engine e'.engine
      → Alike e e' x x'
      → is_monitoring x.stage ≡ false
      → Locked e e' (again x.shared x.connection) (again x'.shared x'.connection)
  again-Locked e e' again x x' d k b q =
      let same : SamePassword x.shared.engine x'.shared.engine = rw (b.engine, b.engine') k in
      subst (λ c. Locked e e' (again x.shared x.connection) (again x'.shared c)) b.connections
        (Locked-from e e' x x' _ _ b q (d.blind x.shared x'.shared x.connection same))

  pub go_on-pick :
      (again : Shared h → Connection → Served h) (x : Served h)
      → go_on again x ≡ pick x.stage (again x.shared x.connection) x
  go_on-pick again x = ground arith

  go_on-Locked :
      (e e' : Shared h) (again : Shared h → Connection → Served h) (x x' : Served h)
      → Discreet again
      → SamePassword e.engine e'.engine
      → Locked e e' x x'
      → Locked e e' (go_on again x) (go_on again x')
  go_on-Locked e e' again x x' d k (inl a) = inl (go_on-authed again x d a)
  go_on-Locked e e' again x x' d k (inr b) =
      let y = again x.shared x.connection in
      let y' = again x'.shared x'.connection in
      rw (go_on-pick again x, go_on-pick again x')
        (subst (λ g. Locked e e' (pick x.stage y x) (pick g y' x')) b.stages
          (pick-Locked e e' x.stage x x' y y' b (λ q. again-Locked e e' again x x' d k b q)))

  frame-authed :
      (m : Moment) (s : Shared h) (c : Connection) (again : Shared h → Connection → Served h)
      (f : Result (FrameParse h.floats))
      → Discreet again
      → c.authed ≡ true
      → (on_frame m s c again f).connection.authed ≡ true
  unfolding on_frame on_command on_invalid refuse
  frame-authed m s c again (ok (complete cmd k)) d a =
      let c' = record c { inbuf = drop k c.inbuf } in
      let x = on_gate m s c' cmd (gate cmd) in
      go_on-authed again (write_batch m.written x) d
        (batch-authed m.written x ∙ gate-authed m s c' cmd (gate cmd) a)
  frame-authed m s c again (ok (invalid e k)) d a =
      let x =
        served s (record c { inbuf = drop k c.inbuf; outbuf = write_ferrum_error c.outbuf e })
          reading in
      go_on-authed again (write_batch m.written x) d (batch-authed m.written x ∙ a)
  frame-authed m s c again (ok incomplete) d a = a
  frame-authed m s c again (err e) d a = ground (arith, a)

  frame-Locked :
      (m : Moment) (s s' : Shared h) (c : Connection) (again : Shared h → Connection → Served h)
      (f : Result (FrameParse h.floats))
      → Discreet again
      → SamePassword s.engine s'.engine
      → Locked s s' (on_frame m s c again f) (on_frame m s' c again f)
  unfolding on_frame
  frame-Locked m s s' c again (ok (complete cmd k)) d q =
      go_on-Locked s s' again (on_command m s c cmd k) (on_command m s' c cmd k) d q
        (command-Locked m s s' c cmd k q)
  frame-Locked m s s' c again (ok (invalid e k)) d q =
      go_on-Locked s s' again (on_invalid m s c e k) (on_invalid m s' c e k) d q
        (invalid-Locked m s s' c e k)
  frame-Locked m s s' c again (ok incomplete) d q = inr (record {
    connections = refl;
    stages = refl;
    counts = refl;
    engine = refl;
    engine' = refl;
    monitors = λ p. refl;
    monitors' = λ p. refl;
  })
  frame-Locked m s s' c again (err e) d q =
      let out = write_ferrum_error c.outbuf e in
      inr (more-Alike s s' (refuse m s c out) (refuse m s' c out) (refuse-Alike m s s' c out))

  module _ (r : Rendering) (moment : ℕ → Moment) where
    pub drain-Discreet : (fuel n : ℕ) → Discreet (drain r moment fuel n)
    unfolding drain
    drain-Discreet zero n = record {
      keeps = λ s c a. a;
      blind = λ s s' c q. inr (record {
        connections = refl;
        stages = refl;
        counts = refl;
        engine = refl;
        engine' = refl;
        monitors = λ p. refl;
        monitors' = λ p. refl;
      });
    }
    drain-Discreet (suc fuel) n = record {
      keeps = λ s c a.
          frame-authed (moment n) s c (drain r moment fuel (suc n)) (parse_frame r c.inbuf)
            (drain-Discreet fuel (suc n)) a;
      blind = λ s s' c q.
          frame-Locked (moment n) s s' c (drain r moment fuel (suc n)) (parse_frame r c.inbuf)
            (drain-Discreet fuel (suc n)) q;
    }
