-- ===== src/Network/Connection/InOrder.antt =====
-- The frames of a buffer are answered one by one, in order.
use ferrum_kv.Prelude.{ℕ, zero, suc, ◌≡◌, refl, sym, subst, List, [], ◌∷◌, arith, Bytes, All, drop}
use ferrum_kv.Error.{FerrumError, Result, ok, err}
use ferrum_kv.Floats.{Floats}
use ferrum_kv.Protocol.Text.{Rendering}
use ferrum_kv.Protocol.Command.{Command}
use ferrum_kv.Protocol.Frame.{FrameParse, complete, invalid, incomplete, parse_frame}
use ferrum_kv.Protocol.Reply.{IsLine}
use ferrum_kv.Storage.Engine.{Host}
use ferrum_kv.Network.Shared.{Shared}
use ferrum_kv.Network.Respond.{write_ferrum_error}
use ferrum_kv.Network.Replies.{Answered}
use ferrum_kv.Network.Replies.Sequences.{AnsweredAll, nothing-AnsweredAll, next-AnsweredAll}
use ferrum_kv.Network.Replies.Dispatch.{OnOneLine}
use ferrum_kv.Network.Connection.{
  Moment, Connection, Stage, reading, monitoring, exhausted, returned, Gate, by_auth, by_hello,
  by_monitor, by_engine, gate, Served, served, on_gate, write_batch, on_command, on_invalid, refuse,
}
use ferrum_kv.Network.Connection.Loop.{go_on, on_frame, drain}
use ferrum_kv.Network.Connection.OneReply.{
  told, invalid-Answered, refuse-Answered, command-Answered,
}
use ferrum_kv.Network.Connection.Discreet.{pick, go_on-pick}
use ferrum_kv.Network.Connection.Progress.{command-Leads, invalid-Leads}

-- The commands at the head of a buffer, as far as it parses.
unfoldable pub requests : {fl : Floats} → Rendering → ℕ → Bytes → List (Command fl)
unfolding parse_frame
requests r zero buf = []
requests {fl = fl} r (suc fuel) buf = elim (parse_frame {fl = fl} r buf) [
  | ok (complete cmd k) ↦ cmd ∷ requests r fuel (drop k buf)
  | ok (invalid e k) ↦ requests r fuel (drop k buf)
  | ok incomplete ↦ []
  | err e ↦ []
]

module _ {h : Host} where
  fresh_frames :
      (w : Result (Unit {0})) (x : Served h) → x.frames ≡ 0 → (write_batch w x).frames ≡ 0
  unfolding write_batch
  fresh_frames w x e = ground (arith, e)

  gate_frames :
      (m : Moment) (s : Shared h) (c : Connection) (cmd : Command h.floats) (g : Gate)
      → (on_gate m s c cmd g).frames ≡ 0
  unfolding on_gate
  gate_frames m s c cmd (by_auth p) = refl
  gate_frames m s c cmd (by_hello p) = refl
  gate_frames m s c cmd by_monitor = ground arith
  gate_frames m s c cmd by_engine = refl

  command_frames :
      (m : Moment) (s : Shared h) (c : Connection) (cmd : Command h.floats) (k : ℕ)
      → (on_command m s c cmd k).frames ≡ 0
  unfolding on_command
  command_frames m s c cmd k =
      let c' = record c { inbuf = drop k c.inbuf } in
      fresh_frames m.written (on_gate m s c' cmd (gate cmd)) (gate_frames m s c' cmd (gate cmd))

  invalid_frames :
      (m : Moment) (s : Shared h) (c : Connection) (e : FerrumError) (k : ℕ)
      → (on_invalid m s c e k).frames ≡ 0
  unfolding on_invalid
  invalid_frames m s c e k =
      fresh_frames m.written
        (served s (record c { inbuf = drop k c.inbuf; outbuf = write_ferrum_error c.outbuf e })
          reading)
        refl

  abbrev Told : Connection → Served h → Type 0
  Told c x = AnsweredAll 4 (told c) (told x.connection) x.frames

  pick-Told :
      (c : Connection) (g : Stage) (x y : Served h)
      → Answered 3 (told c) (told x.connection)
      → x.frames ≡ 0
      → Told x.connection y
      → Told c (pick g y x)
  pick-Told c reading x y a e t = next-AnsweredAll a t
  pick-Told c monitoring x y a e t =
      rw e (next-AnsweredAll a (nothing-AnsweredAll (told x.connection)))
  pick-Told c exhausted x y a e t =
      rw e (next-AnsweredAll a (nothing-AnsweredAll (told x.connection)))
  pick-Told c (returned z) x y a e t =
      rw e (next-AnsweredAll a (nothing-AnsweredAll (told x.connection)))

  go_on-Told :
      (c : Connection) (again : Shared h → Connection → Served h) (x : Served h)
      → Answered 3 (told c) (told x.connection)
      → x.frames ≡ 0
      → Told x.connection (again x.shared x.connection)
      → Told c (go_on again x)
  go_on-Told c again x a e t =
      rw (go_on-pick again x) (pick-Told c x.stage x (again x.shared x.connection) a e t)

  refuse_frames :
      (m : Moment) (s : Shared h) (c : Connection) (out : Bytes) → (refuse m s c out).frames ≡ 0
  unfolding refuse
  refuse_frames m s c out = ground arith

module _ (fl : Floats) (r : Rendering) where
  abbrev Polite : ℕ → Bytes → Type 0
  Polite fuel buf = All (OnOneLine {fl = fl}) (requests r fuel buf)

  abbrev Heads : ℕ → Bytes → Result (FrameParse fl) → Type 0
  Heads fuel buf (ok (complete cmd k)) = OnOneLine cmd × Polite fuel (drop k buf)
  Heads fuel buf (ok (invalid e k)) = Polite fuel (drop k buf)
  Heads fuel buf _ = Unit {0}

  Polite-Heads :
      (fuel : ℕ) (buf : Bytes)
      → Polite (suc fuel) buf
      → Heads fuel buf (parse_frame {fl = fl} r buf)
  unfolding requests
  Polite-Heads fuel buf p = go (parse_frame {fl = fl} r buf) p
    where
      go :
          (f : Result (FrameParse fl))
          → All OnOneLine (elim f as (λ f. List (Command fl)) [
            | ok (complete cmd k) ↦ cmd ∷ requests r fuel (drop k buf)
            | ok (invalid e k) ↦ requests r fuel (drop k buf)
            | ok incomplete ↦ []
            | err e ↦ []
          ])
          → Heads fuel buf f
      go (ok (complete cmd k)) p = p
      go (ok (invalid e k)) p = p
      go (ok incomplete) p = tt
      go (err e) p = tt

module _ {h : Host} (printed : (x : h.floats.F64) → IsLine (h.floats.f64_print_17 x))
    (r : Rendering) where
  frame-Told :
      (m : Moment) (s : Shared h) (c : Connection) (fuel : ℕ)
      (again : Shared h → Connection → Served h) (f : Result (FrameParse h.floats))
      → Heads h.floats r fuel c.inbuf f
      → ((s' : Shared h) (c' : Connection)
          → Polite h.floats r fuel c'.inbuf
          → Told c' (again s' c'))
      → Told c (on_frame m s c again f)
  unfolding on_frame
  frame-Told m s c fuel again (ok (complete cmd k)) p a =
      let x = on_command m s c cmd k in
      go_on-Told c again x (command-Answered printed m s c cmd k p.0) (command_frames m s c cmd k) (
        a x.shared x.connection
          (subst (Polite h.floats r fuel) (sym (command-Leads m s c cmd k).0) p.1))
  frame-Told m s c fuel again (ok (invalid e k)) p a =
      let x = on_invalid m s c e k in
      go_on-Told c again x (invalid-Answered m s c e k) (invalid_frames m s c e k) (
        a x.shared x.connection
          (subst (Polite h.floats r fuel) (sym (invalid-Leads m s c e k).0) p))
  frame-Told m s c fuel again (ok incomplete) p a = nothing-AnsweredAll (told c)
  frame-Told m s c fuel again (err e) p a =
      rw (refuse_frames m s c (write_ferrum_error c.outbuf e)) (
        next-AnsweredAll (refuse-Answered m s c e)
          (nothing-AnsweredAll (told (refuse m s c (write_ferrum_error c.outbuf e)).connection)))

  -- Whatever the buffer holds, and whether or not the socket takes the replies: each frame that the
  -- inner loop handles, an invalid one and a protocol error included, appends exactly one conforming
  -- value, in order, if the arguments of each CONFIG among the commands and the texts of doubles have no
  -- CR and no LF.
  pub drain-AnsweredAll :
      (moment : ℕ → Moment) (fuel n : ℕ) (s : Shared h) (c : Connection)
      → All (OnOneLine {fl = h.floats}) (requests r fuel c.inbuf)
      → let x = drain r moment fuel n s c in AnsweredAll 4 (told c) (told x.connection) x.frames
  unfolding drain
  drain-AnsweredAll moment zero n s c p = nothing-AnsweredAll (told c)
  drain-AnsweredAll moment (suc fuel) n s c p =
      frame-Told (moment n) s c fuel (drain r moment fuel (suc n)) (parse_frame r c.inbuf)
        (Polite-Heads h.floats r fuel c.inbuf p)
        (λ s' c' q. drain-AnsweredAll moment fuel (suc n) s' c' q)
