-- ===== src/Network/Connection/Loop.antt =====
-- The two loops of `handle_client` of network/server.rs.
use ferrum_kv.Prelude.{
  ℕ, zero, suc, ◌+◌, ◌==◌, List, [], ◌∷◌, ◌++◌, Bytes, codes, length, ltb, if◌then◌else◌,
}
use ferrum_kv.Error.{Result, io_error, ok, err}
use ferrum_kv.Protocol.Text.{Rendering}
use ferrum_kv.Protocol.Frame.{FrameParse, complete, invalid, incomplete, parse_frame}
use ferrum_kv.Protocol.Encoder.{encode_error}
use ferrum_kv.Storage.Engine.{Host}
use ferrum_kv.Network.Shared.{Shared}
use ferrum_kv.Network.Respond.{write_ferrum_error}
use ferrum_kv.Network.Connection.{
  read_buf_max, Moment, Connection, Event, shutdown, eof, idle_timeout, chunk, read_error, reading,
  exhausted, returned, Served, flushed, served, on_command, on_invalid, refuse,
}

module _ {h : Host} where
  abbrev pub one_more : Served h → Served h
  one_more x = record x { frames = suc x.frames }

  -- The loop goes on behind a frame, unless the handler has left it.
  abbrev pub go_on : (Shared h → Connection → Served h) → Served h → Served h
  go_on again x = elim x.stage [
    | reading ↦ one_more (again x.shared x.connection)
    | other ↦ one_more x
  ]

  -- The match on what the parser found at the head of the buffer.
  unfoldable pub on_frame :
      Moment
      → Shared h
      → Connection
      → (Shared h → Connection → Served h)
      → Result (FrameParse h.floats)
      → Served h
  unfolding on_command on_invalid refuse write_ferrum_error
  on_frame m s c again (ok (complete cmd consumed)) = go_on again (on_command m s c cmd consumed)
  on_frame m s c again (ok (invalid error consumed)) = go_on again (on_invalid m s c error consumed)
  on_frame m s c again (ok incomplete) = served s c reading
  on_frame m s c again (err e) = one_more (refuse m s c (write_ferrum_error c.outbuf e))

  -- The inner loop: the frames of the buffer, in order; frame `n` meets moment `n`.
  unfoldable pub drain : Rendering → (ℕ → Moment) → ℕ → ℕ → Shared h → Connection → Served h
  unfolding parse_frame on_frame
  drain r moment zero n s c = served s c exhausted
  drain r moment (suc fuel) n s c =
      on_frame (moment n) s c (drain r moment fuel (suc n)) (parse_frame r c.inbuf)

  -- The bound of the buffer.
  unfoldable pub bounded : Moment → Served h → Served h
  unfolding refuse encode_error
  bounded m x =
      if ltb read_buf_max (length x.connection.inbuf)
      then record (refuse m x.shared x.connection
          (encode_error x.connection.outbuf (codes "ERR request too large"))) { frames = x.frames }
      else x

  -- The end of a batch: the replies are written.
  unfoldable pub settle : Moment → Served h → Served h
  unfolding bounded
  settle m x = if length x.connection.outbuf == 0 then bounded m x else elim m.drained [
    | ok _ ↦ bounded m (record x { connection = flushed x.connection })
    | err e ↦ record x { stage = returned (err e) }
  ]

  -- The outer loop on one chunk. A frame is longer than nothing, so the buffer's length is enough fuel.
  unfoldable pub on_chunk : Rendering → (ℕ → Moment) → ℕ → Shared h → Connection → Bytes → Served h
  unfolding drain settle
  on_chunk r moment n s c bytes =
      let inbuf = c.inbuf ++ bytes in
      let x = drain r moment (suc (length inbuf)) n s (record c { inbuf = inbuf }) in
      elim x.stage [ reading ↦ settle (moment (n + x.frames)) x | other ↦ x ]

  -- The outer loop, over what happens to the connection; it still reads when nothing more happens.
  unfoldable pub handle_client :
      Rendering → (ℕ → Moment) → ℕ → Shared h → Connection → List Event → Served h
  unfolding on_chunk
  handle_client r moment n s c [] = served s c reading
  handle_client r moment n s c (shutdown ∷ events) = served s c (returned (ok tt))
  handle_client r moment n s c (eof ∷ events) = served s c (returned (ok tt))
  handle_client r moment n s c (idle_timeout ∷ events) = served s c (returned (ok tt))
  handle_client r moment n s c (read_error e ∷ events) = served s c (returned (err (io_error e)))
  handle_client r moment n s c (chunk bytes ∷ events) =
      let x = on_chunk r moment n s c bytes in
      elim x.stage [
        | reading ↦
            let y = handle_client r moment (n + x.frames) x.shared x.connection events in
            record y { frames = x.frames + y.frames }
        | other ↦ x
      ]
