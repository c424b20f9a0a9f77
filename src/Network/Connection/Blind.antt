-- ===== src/Network/Connection/Blind.antt =====
-- A connection that has not authenticated touches nothing and learns nothing.
use ferrum_kv.Prelude.{
  ℕ, ◌≡◌, refl, ap, Bool, sym, ◌∙◌, true, false, arith, Bytes, ◌⊎◌, inl, inr, drop, Bool-cases,
  codes,
}
use ferrum_kv.Error.{FerrumError, Result}
use ferrum_kv.Protocol.Command.{Command}
use ferrum_kv.Protocol.Encoder.{encode_error}
use ferrum_kv.Storage.Engine.{Host, KvEngine}
use ferrum_kv.Storage.Engine.Settings.{authenticate}
use ferrum_kv.Network.Shared.{Shared}
use ferrum_kv.Network.Respond.{write_ferrum_error}
use ferrum_kv.Network.Connection.{
  Moment, Connection, Stage, reading, monitoring, Gate, by_auth, by_hello, by_monitor, by_engine,
  gate, Served, served, auth_reply, run_command, on_gate, write_batch, on_command, on_invalid,
  refuse,
}

abbrev pub is_monitoring : Stage → Bool
is_monitoring monitoring = true
is_monitoring _ = false

module _ {h : Host} where
  -- What a connection can see of an engine before it has authenticated.
  pub record SamePassword (e e' : KvEngine h) : Type 0 where
    pub password : e.auth_password ≡ e'.auth_password
    pub required : e.auth_required ≡ true
    pub required' : e'.auth_required ≡ true

  -- Two runs on two servers: they agree on all that concerns the client, neither engine changed, and
  -- neither registry did unless the client has become a MONITOR client.
  pub record Alike (e e' : Shared h) (x x' : Served h) : Type 0 where
    pub connections : x.connection ≡ x'.connection
    pub stages : x.stage ≡ x'.stage
    pub counts : x.frames ≡ x'.frames
    pub engine : x.shared.engine ≡ e.engine
    pub engine' : x'.shared.engine ≡ e'.engine
    pub monitors : is_monitoring x.stage ≡ false → x.shared.monitors ≡ e.monitors
    pub monitors' : is_monitoring x.stage ≡ false → x'.shared.monitors ≡ e'.monitors

  -- Either the connection has authenticated in both, or they agree.
  abbrev pub Locked : Shared h → Shared h → Served h → Served h → Type 0
  Locked e e' x x' = (x.connection.authed ≡ true) ⊎ Alike e e' x x'

  batch-Locked :
      (e e' : Shared h) (w : Result (Unit {0})) (x x' : Served h)
      → Locked e e' x x'
      → Locked e e' (write_batch w x) (write_batch w x')
  unfolding write_batch
  batch-Locked e e' w x x' (inl a) = inl (ground (arith, a))
  batch-Locked e e' w x x' (inr b) = inr (record {
    connections = ground (arith, b.connections, b.stages);
    stages = ground (arith, b.connections, b.stages);
    counts = ground (arith, b.connections, b.stages, b.counts);
    engine = ground (arith, b.engine);
    engine' = ground (arith, b.engine');
    monitors = λ q. ground (arith, b.monitors, q);
    monitors' = λ q. ground (arith, b.monitors', b.stages, b.connections, q);
  })

  same_reply :
      (e e' : KvEngine h) (p out : Bytes)
      → SamePassword e e'
      → auth_reply e p out ≡ auth_reply e' p out
  unfolding auth_reply authenticate
  same_reply e e' p out k = rw (k.password) refl

  pub run_command-authed :
      (m : Moment) (s : Shared h) (c : Connection) (cmd : Command h.floats)
      → (run_command m s c cmd).1.authed ≡ c.authed
  unfolding run_command
  run_command-authed m s c cmd = ground arith

  -- Without authentication a command of the engine is refused.
  run_command_refused :
      (m : Moment) (s : Shared h) (c : Connection) (cmd : Command h.floats)
      → s.engine.auth_required ≡ true
      → c.authed ≡ false
      → run_command m s c cmd
        ≡ (s, record c { outbuf = encode_error c.outbuf (codes "NOAUTH Authentication required.") })
  unfolding run_command
  run_command_refused m s c cmd r a = rw (run_command, r, a) refl

  gate-Locked :
      (m : Moment) (s s' : Shared h) (c : Connection) (cmd : Command h.floats) (g : Gate)
      → SamePassword s.engine s'.engine
      → Locked s s' (on_gate m s c cmd g) (on_gate m s' c cmd g)
  unfolding on_gate
  gate-Locked m s s' c cmd (by_auth p) k = inr (record {
    connections =
        ap (λ y. record c { outbuf = y.0; authed = elim y.1 [ true ↦ true | false ↦ c.authed ] })
          (same_reply s.engine s'.engine p c.outbuf k);
    stages = refl;
    counts = refl;
    engine = refl;
    engine' = refl;
    monitors = λ q. refl;
    monitors' = λ q. refl;
  })
  gate-Locked m s s' c cmd (by_hello p) k = inr (record {
    connections = refl;
    stages = refl;
    counts = refl;
    engine = refl;
    engine' = refl;
    monitors = λ q. refl;
    monitors' = λ q. refl;
  })
  gate-Locked m s s' c cmd by_monitor k = inr (record {
    connections = ground arith;
    stages = ground arith;
    counts = ground arith;
    engine = ground arith;
    engine' = ground arith;
    monitors = λ q. ground (arith, q);
    monitors' = λ q. ground (arith, q);
  })
  gate-Locked m s s' c cmd by_engine k = elim (Bool-cases c.authed) [
    | inl y ↦ inl (run_command-authed m s c cmd ∙ y)
    | inr n ↦
        let a = run_command_refused m s c cmd k.required n in
        let a' = run_command_refused m s' c cmd k.required' n in
        inr (record {
          connections = ap (λ y. y.1) a ∙ sym (ap (λ y. y.1) a');
          stages = refl;
          counts = refl;
          engine = ap (λ y. y.0.engine) a;
          engine' = ap (λ y. y.0.engine) a';
          monitors = λ q. ap (λ y. y.0.monitors) a;
          monitors' = λ q. ap (λ y. y.0.monitors) a';
        })
  ]

  pub command-Locked :
      (m : Moment) (s s' : Shared h) (c : Connection) (cmd : Command h.floats) (k : ℕ)
      → SamePassword s.engine s'.engine
      → Locked s s' (on_command m s c cmd k) (on_command m s' c cmd k)
  unfolding on_command
  command-Locked m s s' c cmd k q =
      let c' = record c { inbuf = drop k c.inbuf } in
      batch-Locked s s' m.written (on_gate m s c' cmd (gate cmd)) (on_gate m s' c' cmd (gate cmd))
        (gate-Locked m s s' c' cmd (gate cmd) q)

  pub invalid-Locked :
      (m : Moment) (s s' : Shared h) (c : Connection) (e : FerrumError) (k : ℕ)
      → Locked s s' (on_invalid m s c e k) (on_invalid m s' c e k)
  unfolding on_invalid
  invalid-Locked m s s' c e k =
      let c' = record c { inbuf = drop k c.inbuf; outbuf = write_ferrum_error c.outbuf e } in
      batch-Locked s s' m.written (served s c' reading) (served s' c' reading) (
        inr (record {
          connections = refl;
          stages = refl;
          counts = refl;
          engine = refl;
          engine' = refl;
          monitors = λ q. refl;
          monitors' = λ q. refl;
        }))

  pub refuse-Alike :
      (m : Moment) (s s' : Shared h) (c : Connection) (out : Bytes)
      → Alike s s' (refuse m s c out) (refuse m s' c out)
  unfolding refuse
  refuse-Alike m s s' c out = record {
    connections = ground arith;
    stages = ground arith;
    counts = ground arith;
    engine = ground arith;
    engine' = ground arith;
    monitors = λ q. ground arith;
    monitors' = λ q. ground arith;
  }
