-- ===== src/Network/Connection/OneReply.antt =====
-- Every frame of a connection is answered by exactly one conforming value: what one frame appends.
use ferrum_kv.Prelude.{
  ℕ, ◌≡◌, refl, ap, sym, subst, ◌∙◌, Bool, true, false, ◌&&◌, not, [], ◌++◌, arith, Bytes, inl, inr,
  append_assoc, append_nil, drop, Bool-cases, codes,
}
use ferrum_kv.Error.{FerrumError, Result, ok, err}
use ferrum_kv.Protocol.Command.{Command}
use ferrum_kv.Protocol.Encoder.{encode_simple_string, encode_error}
use ferrum_kv.Protocol.Reply.{IsLine}
use ferrum_kv.Storage.Engine.{Host, KvEngine}
use ferrum_kv.Storage.Engine.Settings.{authenticate}
use ferrum_kv.Network.Shared.{Shared, subscribe}
use ferrum_kv.Network.Respond.{write_ferrum_error}
use ferrum_kv.Network.Replies.{
  Answered, one_line-IsLine, simple-Answered, error-Answered, ferrum_error-Answered,
}
use ferrum_kv.Network.Replies.Commands.{hello-Answered}
use ferrum_kv.Network.Replies.Dispatch.{OnOneLine, execute_command-Answered}
use ferrum_kv.Network.Execute.{execute_command}
use ferrum_kv.Network.Connection.{
  Moment, Connection, reading, monitoring, returned, Gate, by_auth, by_hello, by_monitor, by_engine,
  gate, new_version, Served, flushed, served, auth_reply, run_command, on_gate, write_batch,
  on_command, on_invalid, refuse,
}

-- All that a connection has been told, written or not.
abbrev pub told : Connection → Bytes
told c = c.sent ++ c.outbuf

-- What is appended to a suffix is appended to the whole.
behind-Answered :
    {d : ℕ} (before out out' : Bytes)
    → Answered d out out'
    → Answered d (before ++ out) (before ++ out')
behind-Answered before out out' a = record {
  reply = a.reply;
  valid = a.valid;
  shallow = a.shallow;
  writes = λ rest.
      append_assoc before out' rest
      ∙ ap (λ x. before ++ x) (a.writes rest)
      ∙ sym (append_assoc before out _);
}

batch_told :
    {h : Host} (w : Result (Unit {0})) (x : Served h)
    → told (write_batch w x).connection ≡ told x.connection
unfolding write_batch
batch_told w x = ground (arith, append_nil (told x.connection))

module _ {h : Host} where
  auth-Answered : (e : KvEngine h) (p out : Bytes) → Answered 3 out (auth_reply e p out).0
  unfolding auth_reply
  auth-Answered e p out = go (authenticate e p)
    where
      go :
          (m : Result Bool)
          → Answered 3 out
              (elim m as (λ m. Bytes × Bool) [
                | ok true ↦ (encode_simple_string out (codes "OK"), true)
                | ok false ↦ (
                  encode_error out
                      (codes "WRONGPASS invalid username-password pair or user is disabled."),
                  false,
                )
                | err x ↦ (write_ferrum_error out x, false)
              ]).0
      go (ok true) = simple-Answered out (codes "OK") (one_line-IsLine (codes "OK") refl)
      go (ok false) =
          error-Answered out (codes "WRONGPASS invalid username-password pair or user is disabled.")
            (one_line-IsLine (codes "WRONGPASS invalid username-password pair or user is disabled.")
              refl)
      go (err x) = ferrum_error-Answered out x

  monitor-Answered :
      (m : Moment) (s : Shared h) (c : Connection) (cmd : Command h.floats)
      → Answered 3 (told c) (told (on_gate m s c cmd by_monitor).connection)
  unfolding on_gate
  monitor-Answered m s c cmd = go m.written
    where
      a : Answered 3 (told c) (c.sent ++ encode_simple_string c.outbuf (codes "OK"))
      a =
          behind-Answered c.sent c.outbuf _
            (simple-Answered c.outbuf (codes "OK") (one_line-IsLine (codes "OK") refl))

      go :
          (w : Result (Unit {0}))
          → Answered 3 (told c) (
              told
                (elim w as (λ w. Served h) [
                  | ok _ ↦
                      served
                        (record s { monitors = subscribe s.monitors })
                        (flushed (record c { outbuf = encode_simple_string c.outbuf (codes "OK") }))
                        monitoring
                  | err e ↦
                      served s
                        (record c { outbuf = encode_simple_string c.outbuf (codes "OK") })
                        (returned (err e))
                ]).connection)
      go (ok t) = subst (Answered 3 (told c)) (sym (append_nil _)) a
      go (err e) = a

  pub refuse-Answered :
      (m : Moment) (s : Shared h) (c : Connection) (e : FerrumError)
      → Answered 3 (told c) (told (refuse m s c (write_ferrum_error c.outbuf e)).connection)
  unfolding refuse
  refuse-Answered m s c e = go m.written
    where
      a : Answered 3 (told c) (c.sent ++ write_ferrum_error c.outbuf e)
      a = behind-Answered c.sent c.outbuf _ (ferrum_error-Answered c.outbuf e)

      go :
          (w : Result (Unit {0}))
          → Answered 3 (told c) (
              told
                (elim w as (λ w. Served h) [
                  | ok _ ↦
                      served s
                        (flushed (record c { outbuf = write_ferrum_error c.outbuf e }))
                        (returned (ok tt))
                  | err _ ↦
                      served s
                        (record c { outbuf = write_ferrum_error c.outbuf e })
                        (returned (ok tt))
                ]).connection)
      go (ok t) = subst (Answered 3 (told c)) (sym (append_nil _)) a
      go (err e) = a

  pub invalid-Answered :
      (m : Moment) (s : Shared h) (c : Connection) (e : FerrumError) (k : ℕ)
      → Answered 3 (told c) (told (on_invalid m s c e k).connection)
  unfolding on_invalid
  invalid-Answered m s c e k =
      subst (Answered 3 (told c))
        (sym (
          batch_told m.written (
            served s (record c { inbuf = drop k c.inbuf; outbuf = write_ferrum_error c.outbuf e })
              reading)))
        (behind-Answered c.sent c.outbuf _ (ferrum_error-Answered c.outbuf e))

module _ {h : Host} (printed : (x : h.floats.F64) → IsLine (h.floats.f64_print_17 x)) where
  run_command-Answered :
      (m : Moment) (s : Shared h) (c : Connection) (cmd : Command h.floats)
      → OnOneLine cmd
      → Answered 3 (told c) (told (run_command m s c cmd).1)
  unfolding run_command
  run_command-Answered m s c cmd l = elim (Bool-cases (s.engine.auth_required && not c.authed)) [
    | inl y ↦
        rw (run_command, y)
          (behind-Answered c.sent c.outbuf _ (
            error-Answered c.outbuf (codes "NOAUTH Authentication required.")
              (one_line-IsLine (codes "NOAUTH Authentication required.") refl)))
    | inr n ↦ elim (Bool-cases m.barrier_blocks) [
      | inl y ↦
          rw (run_command, n, y)
            (behind-Answered c.sent c.outbuf _ (
              subst
                (λ o. Answered 3 o (c.outbuf ++ (execute_command m.context s cmd [] c.version).1))
                (append_nil c.outbuf)
                (behind-Answered c.outbuf [] _
                  (execute_command-Answered printed m.context s cmd [] c.version l))))
      | inr k ↦
          rw (run_command, n, k)
            (behind-Answered c.sent c.outbuf _
              (execute_command-Answered printed m.context s cmd c.outbuf c.version l))
    ]
  ]

  gate-Answered :
      (m : Moment) (s : Shared h) (c : Connection) (cmd : Command h.floats) (g : Gate)
      → OnOneLine cmd
      → Answered 3 (told c) (told (on_gate m s c cmd g).connection)
  unfolding on_gate
  gate-Answered m s c cmd (by_auth p) l =
      behind-Answered c.sent c.outbuf _ (auth-Answered s.engine p c.outbuf)
  gate-Answered m s c cmd (by_hello v) l =
      behind-Answered c.sent c.outbuf _ (hello-Answered (new_version v c.version) c.outbuf)
  gate-Answered m s c cmd by_monitor l = monitor-Answered m s c cmd
  gate-Answered m s c cmd by_engine l = run_command-Answered m s c cmd l

  pub command-Answered :
      (m : Moment) (s : Shared h) (c : Connection) (cmd : Command h.floats) (k : ℕ)
      → OnOneLine cmd
      → Answered 3 (told c) (told (on_command m s c cmd k).connection)
  unfolding on_command
  command-Answered m s c cmd k l =
      let c' = record c { inbuf = drop k c.inbuf } in
      subst (Answered 3 (told c)) (sym (batch_told m.written (on_gate m s c' cmd (gate cmd))))
        (gate-Answered m s c' cmd (gate cmd) l)
