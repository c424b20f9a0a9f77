-- ===== src/Storage/Lfu.antt =====
-- The Morris counter of storage/eviction.rs and its packing with the decay minute in
-- storage/engine/entry.rs. A u8, u16 or u32 is a number with its wrap-around written out.
pub mod Bounds
mod Tests
use ferrum_kv.Prelude.{ℕ, ◌+◌, ◌-◌, ◌*◌, ◌/◌, ◌%◌, ◌^◌, Bool, ◌==◌, min, if◌then◌else◌}
use ferrum_kv.Floats.{Floats}

abbrev pub lfu_init_val : ℕ
lfu_init_val = 5

abbrev pub lfu_decay_minutes : ℕ
lfu_decay_minutes = 1

-- `minutes & 0xFFFF`, from the seconds since the Unix epoch.
unfoldable pub current_minute_stamp : ℕ → ℕ
current_minute_stamp unix_secs = unix_secs / 60 % 2 ^ 16

unfoldable pub decayed_counter : ℕ → ℕ → ℕ → ℕ → ℕ
decayed_counter counter last_stamp now_stamp decay_period_minutes =
    if decay_period_minutes == 0
    then counter
    else let elapsed = (now_stamp + 2 ^ 16 - last_stamp) % 2 ^ 16 in
      let ticks = elapsed / decay_period_minutes in counter - min ticks 255 % 2 ^ 8

unfoldable pub pack_lfu : ℕ → ℕ → ℕ
pack_lfu counter minute = minute * 2 ^ 16 + counter

unfoldable pub unpack_counter : ℕ → ℕ
unpack_counter word = word % 2 ^ 8

unfoldable pub unpack_minute : ℕ → ℕ
unpack_minute word = word / 2 ^ 16 % 2 ^ 16

module _ (fl : Floats) where
  open fl use {F32, f32_of, f32_decimal, f32_add, f32_mul, f32_div, f32_lt}

  -- `rand01` is the sample of [0, 1) that the engine draws.
  unfoldable pub probabilistic_increment : ℕ → F32 → ℕ
  probabilistic_increment counter rand01 =
      if counter == 255
      then counter
      else let baseline = f32_of (counter - lfu_init_val) in
        let p = f32_div (f32_of 1) (f32_add (f32_mul baseline (f32_of 10)) (f32_of 1)) in
        if f32_lt rand01 p then counter + 1 else counter
