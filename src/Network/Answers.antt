-- ===== src/Network/Answers.antt =====
-- The numbers and the lists that the replies of network/server.rs hold, and what MONITOR is told.
use ferrum_kv.Prelude.{
  ℕ, ◌+◌, ◌-◌, ◌*◌, ◌/◌, ◌^◌, Bool, true, false, not, ◌&&◌, ltb, Option, none, some, List, [], ◌∷◌,
  Bytes, length, if◌then◌else◌,
}
use ferrum_kv.Prelude.Int.{ℤ, pos, negsuc, ◌+ℤ◌, in_i64}
use ferrum_kv.Error.{Result, ok, err}
use ferrum_kv.Floats.{Floats}
use ferrum_kv.Protocol.Text.{is_utf8}
use ferrum_kv.Protocol.Command.{Command, args_redacted}
use ferrum_kv.Protocol.Encoder.{
  ProtocolVersion, resp2, resp3, encode_integer, encode_bulk_string, encode_array_header,
  encode_double,
}
use ferrum_kv.Config.Text.{trim, parse_unsigned}
use ferrum_kv.Storage.Engine.{SlowLogEntry}
use ferrum_kv.Storage.Engine.Guard.{TtlStatus, missing, no_expire, millis}
use ferrum_kv.Network.Shared.{MonitorRegistry, Context, peer_of, has_subscribers, send}
use ferrum_kv.Network.Respond.{as_i64, enc_null, write_ferrum_error, write_bulks}

-- `saturating_add` of i64, on the sum.
unfoldable pub saturate : ℤ → ℤ
saturate (pos n) = if ltb n (2 ^ 63) then pos n else pos (2 ^ 63 - 1)
saturate (negsuc n) = if ltb n (2 ^ 63) then negsuc n else negsuc (2 ^ 63 - 1)

abbrev pub times_1000 : ℤ → ℤ
times_1000 (pos n) = pos (n * 1_000)
times_1000 (negsuc n) = negsuc (n * 1_000 + 999)

unfoldable pub checked_seconds_to_ms : ℤ → Option ℤ
checked_seconds_to_ms seconds =
    if in_i64 (times_1000 seconds) then some (times_1000 seconds) else none

-- The time at which a key expires in `delta_ms`; now, where that is no i64.
unfoldable pub deadline_after : ℕ → Option ℤ → ℤ
unfolding saturate ◌+ℤ◌
deadline_after now_ms none = pos now_ms
deadline_after now_ms (some d) = saturate (pos now_ms +ℤ d)

unfoldable pub ttl_seconds : TtlStatus → ℤ
ttl_seconds missing = negsuc 1
ttl_seconds no_expire = negsuc 0
ttl_seconds (millis ms) = as_i64 ((ms + 999) / 1_000)

unfoldable pub ttl_millis : TtlStatus → ℤ
ttl_millis missing = negsuc 1
ttl_millis no_expire = negsuc 0
ttl_millis (millis ms) = as_i64 ms

unfoldable pub write_slowlog_entry : (ℕ → Bytes) → Bytes → SlowLogEntry → Bytes
unfolding encode_array_header encode_integer encode_bulk_string write_bulks as_i64
write_slowlog_entry addr_text out e =
    let head =
      encode_integer
        (encode_integer (encode_integer (encode_array_header out 6) (as_i64 e.id))
          (as_i64 e.ts_secs))
        (as_i64 e.duration_us) in
    encode_bulk_string
      (encode_bulk_string (write_bulks (encode_array_header head (length e.args)) e.args)
        (addr_text e.peer))
      []

unfoldable pub write_slowlog_list : (ℕ → Bytes) → Bytes → List SlowLogEntry → Bytes
unfolding write_slowlog_entry
write_slowlog_list addr_text out [] = out
write_slowlog_list addr_text out (e ∷ es) =
    write_slowlog_list addr_text (write_slowlog_entry addr_text out e) es

unfoldable pub encode_slowlog_entries : (ℕ → Bytes) → Bytes → List SlowLogEntry → Bytes
unfolding encode_array_header write_slowlog_list
encode_slowlog_entries addr_text out es =
    write_slowlog_list addr_text (encode_array_header out (length es)) es

-- The count of SLOWLOG GET: none is given, or it is no number.
unfoldable pub slowlog_count : List Bytes → Option (Option ℕ)
unfolding is_utf8 trim parse_unsigned
slowlog_count [] = some none
slowlog_count (text ∷ rest) =
    if is_utf8 text
    then (elim (parse_unsigned 64 (trim text)) [ none ↦ none | some n ↦ some (some n) ])
    else none

unfoldable pub write_float : (fl : Floats) → ProtocolVersion → Bytes → Result fl.F64 → Bytes
unfolding write_ferrum_error encode_bulk_string encode_double
write_float fl resp2 out (ok n) = encode_bulk_string out (fl.f64_print n)
write_float fl resp3 out (ok n) = encode_double fl out n
write_float fl version out (err e) = write_ferrum_error out e

-- The bytes of an entry, or null where there is none.
unfoldable pub write_usage : ProtocolVersion → Bytes → Option ℕ → Bytes
unfolding enc_null encode_integer as_i64
write_usage version out none = enc_null version out
write_usage version out (some bytes) = encode_integer out (as_i64 bytes)

abbrev pub map_result : {A B : Type 0} → (A → B) → Result A → Result B
map_result f (ok a) = ok (f a)
map_result f (err e) = err e

abbrev pub is_slowlog_meta : {fl : Floats} → Command fl → Bool
is_slowlog_meta (Command.slow_log sub as') = true
is_slowlog_meta Command.rewrite_aof = true
is_slowlog_meta _ = false

abbrev pub is_monitor_meta : {fl : Floats} → Command fl → Bool
is_monitor_meta Command.monitor = true
is_monitor_meta c = is_slowlog_meta c

unfoldable pub announce : {fl : Floats} → Context → MonitorRegistry → Command fl → MonitorRegistry
unfolding has_subscribers send args_redacted
announce x monitors cmd =
    if not (is_monitor_meta cmd) && has_subscribers monitors
    then send
        (record {
          timestamp_ms = x.clock.now_ms;
          peer = peer_of x.client;
          args = args_redacted cmd;
        })
        monitors
    else monitors
