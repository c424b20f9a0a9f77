-- ===== src/Storage/Lfu/Tests.antt =====
-- The counter at concrete values.
use ferrum_kv.Prelude.{◌≡◌, ◌-◌, ◌/◌, ◌%◌, ◌^◌, ◌+◌, ◌≤◌, ◌<◌, min, arith}
use ferrum_kv.Floats.{exact}
use ferrum_kv.Storage.Lfu.{decayed_counter, probabilistic_increment}
use ferrum_kv.Storage.Lfu.Bounds.{decayed_counter_lem, probabilistic_increment_bounds}

-- Seven minutes, across the wrap-around of the stamp.
decayed_counter_example :
    decayed_counter 100 (65_530 % 2 ^ 16) ((65_530 + 7) % 2 ^ 16) 1 ≡ 100 - min 255 (7 / 1)
decayed_counter_example =
    decayed_counter_lem 100 65_530 7 1 (omega arith) (omega arith) (omega arith)

probabilistic_increment_example :
    (255 ≤ probabilistic_increment exact 255 0)
    × (probabilistic_increment exact 255 0 ≤ 255 + 1)
    × (probabilistic_increment exact 255 0 < 2 ^ 8)
probabilistic_increment_example = probabilistic_increment_bounds exact 255 0 (omega arith)
