-- ===== src/Config/Tests.antt =====
-- Sizes with a unit, as a configuration file has them.
use ferrum_kv.Prelude.{◌≡◌, refl, arith, codes}
use ferrum_kv.Prelude.Decimal.{print_nat}
use ferrum_kv.Config.Text.{ascii_lowercase, lower}
use ferrum_kv.Config.File.{parsed, parse_bytes}
use ferrum_kv.Config.File.Sizes.{in_gb, parse_bytes-print_nat}

parse_bytes-print_nat_example : parse_bytes (codes "3Gb") (codes "maxmemory") ≡ parsed 3_221_225_472
unfolding ascii_lowercase lower print_nat
parse_bytes-print_nat_example =
    parse_bytes-print_nat 3 1_073_741_824 (codes "Gb") (codes "maxmemory") (omega arith)
      (refl, (refl, tt)) in_gb
