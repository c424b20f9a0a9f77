-- ===== src/Network/Connection/Secrecy.antt =====
-- What a client that never authenticates can reach.
use ferrum_kv.Prelude.{
  ℕ, suc, ◌+◌, ◌≡◌, refl, ap, sym, subst, ◌∙◌, true, false, List, [], ◌∷◌, ◌++◌, arith, Bytes,
  length, inl, inr,
}
use ferrum_kv.Error.{io_error, ok, err}
use ferrum_kv.Protocol.Text.{Rendering}
use ferrum_kv.Storage.Engine.{Host}
use ferrum_kv.Network.Shared.{Shared}
use ferrum_kv.Network.Connection.{
  Moment, Connection, Event, shutdown, eof, idle_timeout, chunk, read_error, Stage, reading,
  monitoring, exhausted, returned, Served, served, refuse,
}
use ferrum_kv.Network.Connection.Loop.{drain, bounded, settle, on_chunk, handle_client}
use ferrum_kv.Network.Connection.Blind.{SamePassword, Alike, is_monitoring, Locked}
use ferrum_kv.Network.Connection.Discreet.{Discreet, again-Locked, drain-Discreet}

module _ {h : Host} where
  -- Two runs on two servers: they agree on all that concerns the client, and neither server changed.
  pub record Blind (s s' : Shared h) (x x' : Served h) : Type 0 where
    pub connections : x.connection ≡ x'.connection
    pub stages : x.stage ≡ x'.stage
    pub counts : x.frames ≡ x'.frames
    pub shared : x.shared ≡ s
    pub shared' : x'.shared ≡ s'

  Alike-Blind :
      (s s' : Shared h) (x x' : Served h)
      → Alike s s' x x'
      → is_monitoring x.stage ≡ false
      → Blind s s' x x'
  Alike-Blind s s' x x' b q = record {
    connections = b.connections;
    stages = b.stages;
    counts = b.counts;
    shared =
        ap (λ e. record x.shared { engine = e }) b.engine
        ∙ ap (λ m. record s { monitors = m }) (b.monitors q);
    shared' =
        ap (λ e. record x'.shared { engine = e }) b.engine'
        ∙ ap (λ m. record s' { monitors = m }) (b.monitors' q);
  }

  settle-authed : (m : Moment) (x : Served h) → (settle m x).connection.authed ≡ x.connection.authed
  unfolding settle bounded refuse
  settle-authed m x = ground arith

  settle-Alike :
      (e e' : Shared h) (m : Moment) (x x' : Served h)
      → Alike e e' x x'
      → is_monitoring x.stage ≡ false
      → Alike e e' (settle m x) (settle m x')
  unfolding settle bounded refuse
  settle-Alike e e' m x x' b q = record {
    connections = ground (arith, b.connections);
    stages = ground (arith, b.connections, b.stages);
    counts = ground (arith, b.connections, b.counts);
    engine = ground (arith, b.engine);
    engine' = ground (arith, b.engine');
    monitors = λ p. ground (arith, b.monitors q);
    monitors' = λ p. ground (arith, b.monitors' q);
  }

  abbrev closed : Moment → Stage → Served h → Served h
  closed m reading x = settle m x
  closed m _ x = x

  closed-Locked :
      (e e' : Shared h) (m : Moment) (g : Stage) (x x' : Served h)
      → g ≡ x.stage
      → Locked e e' x x'
      → Locked e e' (closed m g x) (closed m g x')
  closed-Locked e e' m reading x x' at (inl a) = inl (settle-authed m x ∙ a)
  closed-Locked e e' m reading x x' at (inr b) =
      inr (settle-Alike e e' m x x' b (ap is_monitoring (sym at)))
  closed-Locked e e' m monitoring x x' at l = l
  closed-Locked e e' m exhausted x x' at l = l
  closed-Locked e e' m (returned z) x x' at l = l

  closed-authed :
      (m : Moment) (g : Stage) (x : Served h)
      → x.connection.authed ≡ true
      → (closed m g x).connection.authed ≡ true
  closed-authed m reading x a = settle-authed m x ∙ a
  closed-authed m monitoring x a = a
  closed-authed m exhausted x a = a
  closed-authed m (returned z) x a = a

  abbrev follow : Stage → Served h → Served h → Served h
  follow reading y x = record y { frames = x.frames + y.frames }
  follow _ y x = x

  follow-authed :
      (g : Stage) (y x : Served h)
      → x.connection.authed ≡ true
      → y.connection.authed ≡ true
      → (follow g y x).connection.authed ≡ true
  follow-authed reading y x a b = b
  follow-authed monitoring y x a b = a
  follow-authed exhausted y x a b = a
  follow-authed (returned z) y x a b = a

  steady : (g : Stage) → Discreet {h = h} (λ s c. served s c g)
  steady g = record {
    keeps = λ s c a. a;
    blind = λ s s' c q. inr (record {
      connections = refl;
      stages = refl;
      counts = refl;
      engine = refl;
      engine' = refl;
      monitors = λ p. refl;
      monitors' = λ p. refl;
    });
  }

  follow-Locked :
      (e e' : Shared h) (g : Stage) (x x' y y' : Served h)
      → Alike e e' x x'
      → (is_monitoring g ≡ false → Locked e e' y y')
      → Locked e e' (follow g y x) (follow g y' x')
  follow-Locked e e' reading x x' y y' b next = elim (next refl) [
    | inl a ↦ inl a
    | inr l ↦ inr (record {
      connections = l.connections;
      stages = l.stages;
      counts = cc (b.counts, l.counts);
      engine = l.engine;
      engine' = l.engine';
      monitors = l.monitors;
      monitors' = l.monitors';
    })
  ]
  follow-Locked e e' monitoring x x' y y' b l = inr b
  follow-Locked e e' exhausted x x' y y' b l = inr b
  follow-Locked e e' (returned z) x x' y y' b l = inr b

  -- What follows a chunk, on either engine.
  followed :
      (e e' : Shared h) (x x' : Served h) (next : ℕ → Shared h → Connection → Served h)
      → ((k : ℕ) → Discreet (next k))
      → SamePassword e.engine e'.engine
      → Locked e e' x x'
      → Locked e e'
          (follow x.stage (next x.frames x.shared x.connection) x)
          (follow x'.stage (next x'.frames x'.shared x'.connection) x')
  followed e e' x x' next d q (inl a) = inl (
      follow-authed x.stage (next x.frames x.shared x.connection) x a
        ((d x.frames).keeps x.shared x.connection a))
  followed e e' x x' next d q (inr b) =
      let y = next x.frames x.shared x.connection in
      let y' = next x'.frames x'.shared x'.connection in
      let l : is_monitoring x.stage ≡ false → Locked e e' y y' = λ p.
        subst (λ k. Locked e e' y (next k x'.shared x'.connection)) b.counts
          (again-Locked e e' (next x.frames) x x' (d x.frames) q b p) in
      subst (λ g. Locked e e' (follow x.stage y x) (follow g y' x')) b.stages
        (follow-Locked e e' x.stage x x' y y' b l)

  module _ (r : Rendering) (moment : ℕ → Moment) where
    abbrev loop : ℕ → Shared h → Connection → Bytes → Served h
    loop n s c bytes =
        drain r moment (suc (length (c.inbuf ++ bytes))) n s (record c { inbuf = c.inbuf ++ bytes })

    settled :
        (n : ℕ) (e e' : Shared h) (x x' : Served h)
        → Locked e e' x x'
        → Locked e e'
            (closed (moment (n + x.frames)) x.stage x)
            (closed (moment (n + x'.frames)) x'.stage x')
    settled n e e' x x' (inl a) = inl (closed-authed (moment (n + x.frames)) x.stage x a)
    settled n e e' x x' (inr b) =
        subst
          (λ k.
            Locked e e' (closed (moment (n + x.frames)) x.stage x)
              (closed (moment (n + k)) x'.stage x'))
          b.counts
          (subst
            (λ g.
              Locked e e' (closed (moment (n + x.frames)) x.stage x)
                (closed (moment (n + x.frames)) g x'))
            b.stages (closed-Locked e e' (moment (n + x.frames)) x.stage x x' refl (inr b)))

    chunk_closed :
        (n : ℕ) (s : Shared h) (c : Connection) (bytes : Bytes)
        → on_chunk r moment n s c bytes
          ≡ closed
              (moment (n + (loop n s c bytes).frames))
              (loop n s c bytes).stage
              (loop n s c bytes)
    unfolding on_chunk
    chunk_closed n s c bytes = ground arith

    chunk-Discreet :
        (n : ℕ) (bytes : Bytes) → Discreet {h = h} (λ s c. on_chunk r moment n s c bytes)
    chunk-Discreet n bytes = record {
      keeps = λ s c a. rw (chunk_closed n s c bytes) (
          closed-authed (moment (n + (loop n s c bytes).frames)) (loop n s c bytes).stage
            (loop n s c bytes)
            ((drain-Discreet r moment (suc (length (c.inbuf ++ bytes))) n).keeps s
              (record c { inbuf = c.inbuf ++ bytes }) a));
      blind = λ s s' c q.
          rw (chunk_closed n s c bytes, chunk_closed n s' c bytes)
            (settled n s s' (loop n s c bytes) (loop n s' c bytes) (
              (drain-Discreet r moment (suc (length (c.inbuf ++ bytes))) n).blind s s'
                (record c { inbuf = c.inbuf ++ bytes }) q));
    }

    follow_client :
        (n : ℕ) (s : Shared h) (c : Connection) (bytes : Bytes) (events : List Event)
        → let x = on_chunk r moment n s c bytes in
          handle_client r moment n s c (chunk bytes ∷ events)
          ≡ follow x.stage (handle_client r moment (n + x.frames) x.shared x.connection events) x
    unfolding handle_client
    follow_client n s c bytes events = ground arith

    client-Discreet :
        (events : List Event) (n : ℕ)
        → Discreet {h = h} (λ s c. handle_client r moment n s c events)
    unfolding handle_client
    client-Discreet [] n = steady reading
    client-Discreet (shutdown ∷ events) n = steady (returned (ok tt))
    client-Discreet (eof ∷ events) n = steady (returned (ok tt))
    client-Discreet (idle_timeout ∷ events) n = steady (returned (ok tt))
    client-Discreet (read_error e ∷ events) n = steady (returned (err (io_error e)))
    client-Discreet (chunk bytes ∷ events) n = record {
      keeps = λ s c a.
          let x = on_chunk r moment n s c bytes in
          let b = (chunk-Discreet n bytes).keeps s c a in
          rw (follow_client n s c bytes events) (
            follow-authed x.stage
              (handle_client r moment (n + x.frames) x.shared x.connection events) x b
              ((client-Discreet events (n + x.frames)).keeps x.shared x.connection b));
      blind = λ s s' c q.
          rw (follow_client n s c bytes events, follow_client n s' c bytes events)
            (followed s s' (on_chunk r moment n s c bytes) (on_chunk r moment n s' c bytes)
              (λ k t d. handle_client r moment (n + k) t d events)
              (λ k. client-Discreet events (n + k)) q ((chunk-Discreet n bytes).blind s s' c q));
    }

    -- While a password is required, a client that ends a run without having authenticated, and not as a
    -- MONITOR client, has left the engine and the registry of MONITOR clients as they were, and on any
    -- other server with the same password the same events lead to the same connection: the same bytes
    -- sent, the same state and the same number of frames. A MONITOR is served without the password.
    pub handle_client-Blind :
        (n : ℕ) (s s' : Shared h) (c : Connection) (events : List Event)
        → SamePassword s.engine s'.engine
        → let x = handle_client r moment n s c events in
          x.connection.authed ≡ false
          → is_monitoring x.stage ≡ false
          → Blind s s' x (handle_client r moment n s' c events)
    handle_client-Blind n s s' c events q a m = elim ((client-Discreet events n).blind s s' c q) [
      | inl t ↦ ground (arith, a, t)
      | inr b ↦ Alike-Blind s s' _ _ b m
    ]
