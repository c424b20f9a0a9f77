-- ===== src/Network/Connection/Progress.antt =====
-- The loops of `handle_client` come to an end: every frame shortens the buffer.
use ferrum_kv.Prelude.{
  ℕ, zero, suc, ◌+◌, ◌<◌, ◌≤◌, ◌≡◌, refl, ap, Bool, true, false, List, [], ◌∷◌, ◌++◌, arith, Bytes,
  length, length-drop, drop,
}
use ferrum_kv.Error.{FerrumError, Result, ok, err}
use ferrum_kv.Protocol.Text.{Rendering}
use ferrum_kv.Protocol.Command.{Command}
use ferrum_kv.Protocol.Frame.{FrameParse, complete, invalid, incomplete, parse_frame}
use ferrum_kv.Protocol.Consumed.{Takes, parse_frame-Takes}
use ferrum_kv.Storage.Engine.{Host}
use ferrum_kv.Network.Shared.{Shared}
use ferrum_kv.Network.Respond.{write_ferrum_error}
use ferrum_kv.Network.Connection.{
  Moment, Connection, Event, shutdown, eof, idle_timeout, chunk, read_error, Stage, reading,
  exhausted, Gate, by_auth, by_hello, by_monitor, by_engine, gate, Served, served, run_command,
  on_gate, write_batch, on_command, on_invalid, refuse,
}
use ferrum_kv.Network.Connection.Loop.{
  one_more, go_on, on_frame, drain, bounded, settle, on_chunk, handle_client,
}

abbrev pub ends : Stage → Bool
ends exhausted = false
ends _ = true

module _ {h : Host} where
  -- The buffer is `bs`, and the loop did not run out of fuel.
  abbrev pub Leads : Bytes → Served h → Type 0
  Leads bs x = (x.connection.inbuf ≡ bs) × (ends x.stage ≡ true)

  batch-Leads :
      (w : Result (Unit {0})) (bs : Bytes) (x : Served h) → Leads bs x → Leads bs (write_batch w x)
  unfolding write_batch
  batch-Leads w bs x l = ground (arith, l)

  gate-Leads :
      (m : Moment) (s : Shared h) (c : Connection) (cmd : Command h.floats) (g : Gate)
      → Leads c.inbuf (on_gate m s c cmd g)
  unfolding on_gate run_command
  gate-Leads m s c cmd (by_auth p) = (refl, refl)
  gate-Leads m s c cmd (by_hello p) = (refl, refl)
  gate-Leads m s c cmd by_monitor = ground (arith)
  gate-Leads m s c cmd by_engine = ground (arith)

  pub command-Leads :
      (m : Moment) (s : Shared h) (c : Connection) (cmd : Command h.floats) (k : ℕ)
      → Leads (drop k c.inbuf) (on_command m s c cmd k)
  unfolding on_command
  command-Leads m s c cmd k =
      batch-Leads m.written (drop k c.inbuf)
        (on_gate m s (record c { inbuf = drop k c.inbuf }) cmd (gate cmd))
        (gate-Leads m s (record c { inbuf = drop k c.inbuf }) cmd (gate cmd))

  pub invalid-Leads :
      (m : Moment) (s : Shared h) (c : Connection) (e : FerrumError) (k : ℕ)
      → Leads (drop k c.inbuf) (on_invalid m s c e k)
  unfolding on_invalid
  invalid-Leads m s c e k =
      batch-Leads m.written (drop k c.inbuf)
        (served s (record c { inbuf = drop k c.inbuf; outbuf = write_ferrum_error c.outbuf e })
          reading)
        (refl, refl)

  abbrev Ended : ℕ → Served h → Type 0
  Ended n x = (length x.connection.inbuf ≤ n) × (ends x.stage ≡ true)

  go_on-Ended :
      (n : ℕ) (bs : Bytes) (x : Served h) (again : Shared h → Connection → Served h)
      → length bs ≤ n
      → Leads bs x
      → Ended (length x.connection.inbuf) (again x.shared x.connection)
      → Ended n (go_on again x)
  go_on-Ended n bs x again k l a = ground (arith, l.0, l.1, ap (λ b. length b) l.0)

  refuse-Ended :
      (m : Moment) (s : Shared h) (c : Connection) (out : Bytes)
      → Ended (length c.inbuf) (one_more (refuse m s c out))
  unfolding refuse
  refuse-Ended m s c out = ground arith

  frame-Ended :
      (m : Moment) (s : Shared h) (c : Connection) (again : Shared h → Connection → Served h)
      (f : Result (FrameParse h.floats))
      → Takes (length c.inbuf) f
      → ((s' : Shared h) (c' : Connection)
          → length c'.inbuf < length c.inbuf
          → Ended (length c'.inbuf) (again s' c'))
      → Ended (length c.inbuf) (on_frame m s c again f)
  unfolding on_frame
  frame-Ended m s c again (ok (complete cmd k)) t a =
      let x = on_command m s c cmd k in
      let l = command-Leads m s c cmd k in
      go_on-Ended (length c.inbuf) (drop k c.inbuf) x again (omega (arith, length-drop k c.inbuf)) l
        (a x.shared x.connection
          (omega (arith, t.0, t.1, length-drop k c.inbuf, ap (λ b. length b) l.0)))
  frame-Ended m s c again (ok (invalid e k)) t a =
      let x = on_invalid m s c e k in
      let l = invalid-Leads m s c e k in
      go_on-Ended (length c.inbuf) (drop k c.inbuf) x again (omega (arith, length-drop k c.inbuf)) l
        (a x.shared x.connection
          (omega (arith, t.0, t.1, length-drop k c.inbuf, ap (λ b. length b) l.0)))
  frame-Ended m s c again (ok incomplete) t a = (omega arith, refl)
  frame-Ended m s c again (err e) t a = refuse-Ended m s c (write_ferrum_error c.outbuf e)

  module _ (r : Rendering) (moment : ℕ → Moment) where
    -- With more fuel than the buffer has bytes, the inner loop comes to its end.
    drain-Ended :
        (fuel n : ℕ) (s : Shared h) (c : Connection)
        → length c.inbuf < fuel
        → Ended (length c.inbuf) (drain r moment fuel n s c)
    unfolding drain
    drain-Ended zero n s c l = ground (arith, l)
    drain-Ended (suc fuel) n s c l =
        frame-Ended (moment n) s c (drain r moment fuel (suc n)) (parse_frame r c.inbuf)
          (parse_frame-Takes h.floats r c.inbuf)
          (λ s' c' k. drain-Ended fuel (suc n) s' c' (omega (arith, k, l)))

    settle-ends : (m : Moment) (x : Served h) → ends x.stage ≡ true → ends (settle m x).stage ≡ true
    unfolding settle bounded refuse
    settle-ends m x e = ground (arith, e)

    chunk-ends :
        (n : ℕ) (s : Shared h) (c : Connection) (bytes : Bytes)
        → ends (on_chunk r moment n s c bytes).stage ≡ true
    unfolding on_chunk
    chunk-ends n s c bytes =
        let c' = record c { inbuf = c.inbuf ++ bytes } in
        let x = drain r moment (suc (length c'.inbuf)) n s c' in
        let l = drain-Ended (suc (length c'.inbuf)) n s c' (omega arith) in
        ground (arith, l.1, settle-ends (moment (n + x.frames)) x)

    -- The handler never runs out of fuel, whatever the events: after them it reads, it has returned, or
    -- it streams to a MONITOR client.
    pub handle_client-ends :
        (events : List Event) (n : ℕ) (s : Shared h) (c : Connection)
        → ends (handle_client r moment n s c events).stage ≡ true
    unfolding handle_client
    handle_client-ends [] n s c = refl
    handle_client-ends (shutdown ∷ events) n s c = refl
    handle_client-ends (eof ∷ events) n s c = refl
    handle_client-ends (idle_timeout ∷ events) n s c = refl
    handle_client-ends (read_error e ∷ events) n s c = refl
    handle_client-ends (chunk bytes ∷ events) n s c =
        let x = on_chunk r moment n s c bytes in
        ground (
          arith,
          chunk-ends n s c bytes,
          handle_client-ends events (n + x.frames) x.shared x.connection,
        )
