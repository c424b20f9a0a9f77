-- ===== src/Network/Connection/Pipeline.antt =====
-- A pipeline of commands that a client writes with `encode_command`, and the replies to it.
use ferrum_kv.Prelude.{
  ℕ, zero, suc, ◌<◌, ◌≤◌, ◌≡◌, refl, ap, sym, subst, ◌∙◌, Bool, true, false, List, [], ◌∷◌, ◌++◌,
  arith, Bytes, length, All, All-map, drop, drop-length-append,
}
use ferrum_kv.Error.{ok}
use ferrum_kv.Floats.{Floats}
use ferrum_kv.Protocol.Text.{Rendering}
use ferrum_kv.Protocol.Command.{Command, args}
use ferrum_kv.Protocol.Frame.{complete, parse_frame, encode_command, max_array_elements}
use ferrum_kv.Protocol.RoundTrip.{AreShort}
use ferrum_kv.Protocol.Args.{Canonical, parse_frame-args}
use ferrum_kv.Protocol.Reply.{IsLine}
use ferrum_kv.Storage.Engine.{Host}
use ferrum_kv.Network.Shared.{Shared}
use ferrum_kv.Network.Replies.Sequences.{AnsweredAll}
use ferrum_kv.Network.Replies.Dispatch.{OnOneLine}
use ferrum_kv.Network.Connection.{
  Moment, Connection, reading, Gate, by_auth, by_hello, by_monitor, by_engine, gate, Served,
  on_gate, write_batch, on_command,
}
use ferrum_kv.Network.Connection.Loop.{go_on, on_frame, drain}
use ferrum_kv.Network.Connection.Progress.{command-Leads}
use ferrum_kv.Network.Connection.OneReply.{told}
use ferrum_kv.Network.Connection.InOrder.{requests, drain-AnsweredAll}

abbrev pub encode_all : {fl : Floats} → List (Command fl) → Bytes
encode_all [] = []
encode_all (c ∷ cs) = encode_command (args c) ++ encode_all cs

abbrev pub streams : Gate → Bool
streams by_monitor = true
streams _ = false

-- A command that a client can send and that leaves it in the loop: canonical, within the parser's
-- bounds, not MONITOR, and a CONFIG on one line.
pub record Sendable {fl : Floats} (cmd : Command fl) : Type 0 where
  pub canonical : Canonical cmd
  pub few : length (args cmd) ≤ max_array_elements
  pub short : AreShort (args cmd)
  pub ordinary : streams (gate cmd) ≡ false
  pub one_line : OnOneLine cmd

module _ (fl : Floats) (r : Rendering) where
  parse_first :
      (cmd : Command fl) (cmds : List (Command fl))
      → Sendable cmd
      → parse_frame r (encode_all (cmd ∷ cmds))
        ≡ ok (complete cmd (length (encode_command (args cmd))))
  parse_first cmd cmds k = parse_frame-args r cmd (encode_all cmds) k.canonical k.few k.short

  requests-encode_all :
      (fuel : ℕ) (cmds : List (Command fl))
      → All (Sendable {fl = fl}) cmds
      → length cmds < fuel
      → requests r fuel (encode_all cmds) ≡ cmds
  unfolding requests
  requests-encode_all zero cmds k l = ground (arith, l)
  requests-encode_all (suc fuel) [] k l = refl
  requests-encode_all (suc fuel) (cmd ∷ cmds) k l =
      rw
        (
          requests,
          parse_first cmd cmds k.0,
          drop-length-append (encode_command (args cmd)) (encode_all cmds),
        )
        (ap (λ cs. cmd ∷ cs) (requests-encode_all fuel cmds k.1 (omega (arith, l))))

module _ {h : Host} where
  gate_reads :
      (m : Moment) (s : Shared h) (c : Connection) (cmd : Command h.floats) (g : Gate)
      → streams g ≡ false
      → (on_gate m s c cmd g).stage ≡ reading
  unfolding on_gate
  gate_reads m s c cmd (by_auth p) q = refl
  gate_reads m s c cmd (by_hello p) q = refl
  gate_reads m s c cmd by_monitor q = ground (arith, q)
  gate_reads m s c cmd by_engine q = refl

  batch_reads : (x : Served h) → x.stage ≡ reading → (write_batch (ok tt) x).stage ≡ reading
  unfolding write_batch
  batch_reads x q = ground (arith, q)

  command_reads :
      (m : Moment) (s : Shared h) (c : Connection) (cmd : Command h.floats) (k : ℕ)
      → streams (gate cmd) ≡ false
      → m.written ≡ ok tt
      → (on_command m s c cmd k).stage ≡ reading
  unfolding on_command
  command_reads m s c cmd k q w =
      let x = on_gate m s (record c { inbuf = drop k c.inbuf }) cmd (gate cmd) in
      subst (λ t. (write_batch t x).stage ≡ reading) (sym w)
        (batch_reads x (gate_reads m s (record c { inbuf = drop k c.inbuf }) cmd (gate cmd) q))

  -- The loop has read all the commands and waits for more.
  pub record Drained (k : ℕ) (x : Served h) : Type 0 where
    pub stage : x.stage ≡ reading
    pub inbuf : x.connection.inbuf ≡ []
    pub frames : x.frames ≡ k

  go_on-Drained :
      (k : ℕ) (again : Shared h → Connection → Served h) (x : Served h)
      → x.stage ≡ reading
      → Drained k (again x.shared x.connection)
      → Drained (suc k) (go_on again x)
  go_on-Drained k again x q d =
      rw q (record { stage = d.stage; inbuf = d.inbuf; frames = ap suc d.frames })

  module _ (r : Rendering) (moment : ℕ → Moment)
      (delivered : (n : ℕ) → (moment n).written ≡ ok tt) where
    drain-Drained :
        (cmds : List (Command h.floats)) (fuel n : ℕ) (s : Shared h) (c : Connection)
        → All (Sendable {fl = h.floats}) cmds
        → length cmds < fuel
        → c.inbuf ≡ encode_all cmds
        → Drained (length cmds) (drain r moment fuel n s c)
    unfolding drain on_frame
    drain-Drained cmds zero n s c k l e = ground (arith, l)
    drain-Drained [] (suc fuel) n s c k l e =
        rw (drain, e) (record { stage = refl; inbuf = refl; frames = refl })
    drain-Drained (cmd ∷ cmds) (suc fuel) n s c k l e =
        let size = length (encode_command (args cmd)) in
        let x = on_command (moment n) s c cmd size in
        let rest : x.connection.inbuf ≡ encode_all cmds =
          (command-Leads (moment n) s c cmd size).0
          ∙ ap (drop size) e
          ∙ drop-length-append (encode_command (args cmd)) (encode_all cmds) in
        let parsed : parse_frame r c.inbuf ≡ ok (complete cmd size) =
          ap (λ b. parse_frame r b) e ∙ parse_first h.floats r cmd cmds k.0 in
        subst
          (λ f.
            Drained (suc (length cmds)) (on_frame (moment n) s c (drain r moment fuel (suc n)) f))
          (sym parsed)
          (go_on-Drained (length cmds) (drain r moment fuel (suc n)) x
            (command_reads (moment n) s c cmd size k.0.ordinary (delivered n))
            (drain-Drained cmds fuel (suc n) x.shared x.connection k.1 (omega (arith, l)) rest))

    -- A pipeline of commands that a client has written with `encode_command`, each canonical, within the
    -- parser's bounds, other than MONITOR and, if it is a CONFIG, without a CR or an LF, is read to its
    -- end, and is answered by exactly as many conforming values, in order, if the socket takes what is
    -- written and the texts of doubles hold no CR and no LF.
    pub drain-encode_all :
        ((x : h.floats.F64) → IsLine (h.floats.f64_print_17 x))
        → (cmds : List (Command h.floats)) (n : ℕ) (s : Shared h) (c : Connection)
        → All (Sendable {fl = h.floats}) cmds
        → c.inbuf ≡ encode_all cmds
        → let x = drain r moment (suc (length cmds)) n s c in
          Drained (length cmds) x × AnsweredAll 4 (told c) (told x.connection) (length cmds)
    drain-encode_all printed cmds n s c k e =
        let d = drain-Drained cmds (suc (length cmds)) n s c k (omega arith) e in
        let polite = All-map Sendable OnOneLine (λ cmd q. q.one_line) cmds k in
        let asked =
          ap (requests r (suc (length cmds))) e
          ∙ requests-encode_all h.floats r (suc (length cmds)) cmds k (omega arith) in
        (
          d,
          subst
              (AnsweredAll 4 (told c) (told (drain r moment (suc (length cmds)) n s c).connection))
              d.frames
              (drain-AnsweredAll printed r moment (suc (length cmds)) n s c
                (subst (All OnOneLine) (sym asked) polite)),
        )
