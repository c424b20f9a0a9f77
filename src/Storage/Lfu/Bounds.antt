-- ===== src/Storage/Lfu/Bounds.antt =====
-- The counter stays a byte, decays by the minutes that passed, and survives the packing.
use ferrum_kv.Prelude.{ℕ, ◌+◌, ◌-◌, ◌/◌, ◌%◌, ◌^◌, ◌≤◌, ◌<◌, ◌≡◌, arith, min}
use ferrum_kv.Floats.{Floats}
use ferrum_kv.Storage.Lfu.{
  pack_lfu, unpack_counter, unpack_minute, decayed_counter, probabilistic_increment,
}

-- Packing a byte counter and a 16-bit minute into a u32 loses neither.
unpack-pack_lfu :
    (counter minute : ℕ)
    → counter < 2 ^ 8
    → minute < 2 ^ 16
    → (unpack_counter (pack_lfu counter minute) ≡ counter)
      × (unpack_minute (pack_lfu counter minute) ≡ minute)
      × (pack_lfu counter minute < 2 ^ 32)
unfolding pack_lfu unpack_counter unpack_minute
unpack-pack_lfu counter minute hc hm = omega arith

-- With the minutes taken at `t` and at `t + d`, whatever the 16-bit wrap-around between them, the
-- counter falls by one for each full period, and not below zero. The counter is a byte, `d` below 2^16
-- and the period positive.
pub decayed_counter_lem :
    (counter t d period : ℕ)
    → counter < 2 ^ 8
    → d < 2 ^ 16
    → 0 < period
    → decayed_counter counter (t % 2 ^ 16) ((t + d) % 2 ^ 16) period
      ≡ counter - min 255 (d / period)
unfolding decayed_counter
decayed_counter_lem counter t d period hc hd hp = ground arith

-- An access raises a byte counter by at most one, and it stays a byte.
pub probabilistic_increment_bounds :
    (fl : Floats) (counter : ℕ) (r : fl.F32)
    → counter < 2 ^ 8
    → (counter ≤ probabilistic_increment fl counter r)
      × (probabilistic_increment fl counter r ≤ counter + 1)
      × (probabilistic_increment fl counter r < 2 ^ 8)
unfolding probabilistic_increment
probabilistic_increment_bounds fl counter r h = ground arith
