-- ===== src/Protocol/Tests.antt =====
-- Frames on the wire, and the theorems at them.
use ferrum_kv.Prelude.{◌≡◌, refl, ◌++◌, List, [], ◌∷◌, arith, Bytes, codes, length}
use ferrum_kv.Prelude.Int.{pos}
use ferrum_kv.Prelude.Decimal.{print_int, print_nat}
use ferrum_kv.Error.{ok}
use ferrum_kv.Floats.{exact}
use ferrum_kv.Protocol.Text.{Rendering}
use ferrum_kv.Protocol.Command.{Command, args}
use ferrum_kv.Protocol.Frame.{complete, encode_command, parse_frame, finish_frame}
use ferrum_kv.Protocol.RoundTrip.{parse_frame-parts}
use ferrum_kv.Protocol.Args.{incr_by, parse_frame-args}

abbrev plainly : Rendering
plainly = record { debug_char = λ b. b ∷ []; debug_text = λ text. text; lossy = λ text. text }

-- Two arguments and the beginning of the next frame.
abbrev parts : List Bytes
parts = codes "GET" ∷ (13 ∷ 10 ∷ 0 ∷ []) ∷ []

abbrev behind : Bytes
behind = 42 ∷ 49 ∷ []

parse_frame-parts_example :
    parse_frame {fl = exact} plainly (encode_command parts ++ behind)
    ≡ ok (finish_frame plainly (length (encode_command parts)) parts)
parse_frame-parts_example =
    parse_frame-parts plainly parts behind (omega arith) (omega arith)
      (omega arith, (omega arith, tt))

abbrev add_seven : Command exact
add_seven = Command.incr_by (codes "k") (pos 7)

parse_frame-args_example :
    parse_frame plainly (encode_command (args add_seven) ++ behind)
    ≡ ok (complete add_seven (length (encode_command (args add_seven))))
unfolding args print_int print_nat
parse_frame-args_example =
    parse_frame-args plainly add_seven behind (incr_by (codes "k") (pos 7) refl) (omega arith)
      (omega arith, (omega arith, (omega arith, tt)))
