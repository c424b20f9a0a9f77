-- ===== src/Storage/Entry.antt =====
-- `ValueEntry` of storage/engine/entry.rs. An `Instant` is the number of nanoseconds since the
-- process-wide origin `epoch()`. The clock readings that a method takes are its arguments; the
-- compare-and-swap loop of `touch` is one atomic update of the packed word.
use ferrum_kv.Prelude.{
  ℕ, Bool, true, false, Option, none, some, Bytes, leb, min, ◌^◌, ◌-◌, if◌then◌else◌,
}
use ferrum_kv.Floats.{Floats}
use ferrum_kv.Storage.Lfu.{
  lfu_init_val, lfu_decay_minutes, pack_lfu, unpack_counter, unpack_minute, decayed_counter,
  probabilistic_increment,
}

pub record ValueEntry : Type 0 where
  pub payload : Bytes
  pub expire_at : Option ℕ
  pub last_access_ns : ℕ
  pub lfu : ℕ

-- What `Instant::now()`, `now_ns()` and the system clock return during one call.
pub record Clock : Type 0 where
  pub now : ℕ
  pub now_ms : ℕ
  pub minute : ℕ

unfoldable pub new_with : Clock → Bytes → Option ℕ → ValueEntry
new_with c payload expire_at = record {
  payload = payload;
  expire_at = expire_at;
  last_access_ns = min c.now (2 ^ 64 - 1);
  lfu = pack_lfu lfu_init_val c.minute;
}

unfoldable pub new : Clock → Bytes → ValueEntry
unfolding new_with
new c payload = new_with c payload none

unfoldable pub is_expired : ValueEntry → ℕ → Bool
is_expired e now = elim e.expire_at [ none ↦ false | some deadline ↦ leb deadline now ]

unfoldable pub lfu_counter : ValueEntry → ℕ
unfolding unpack_counter
lfu_counter e = unpack_counter e.lfu

unfoldable pub live_payload : ValueEntry → ℕ → Option Bytes
live_payload e now = if is_expired e now then none else some e.payload

unfoldable pub has_ttl : ValueEntry → Bool
has_ttl e = elim e.expire_at [ none ↦ false | some _ ↦ true ]

module _ (fl : Floats) where
  open fl use {F32}

  unfoldable pub touch : Clock → F32 → ValueEntry → ValueEntry
  touch c rand01 e =
      let decayed =
        decayed_counter (unpack_counter e.lfu) (unpack_minute e.lfu) c.minute lfu_decay_minutes in
      record e {
        last_access_ns = min c.now (2 ^ 64 - 1);
        lfu = pack_lfu (probabilistic_increment fl decayed rand01) c.minute;
      }
