-- ===== src/Storage/Engine/Glob/Tests.antt =====
-- A pattern with a class and a star, on two names, and a scan of a keyspace.
use ferrum_kv.Prelude.{◌≡◌, refl, ◌↔◌, Bool, true, false, none, [], ◌∷◌, codes}
use ferrum_kv.Floats.{exact}
use ferrum_kv.Storage.IndexMap.Lists.{list_map}
use ferrum_kv.Storage.Entry
use ferrum_kv.Storage.Entry.{Clock}
use ferrum_kv.Storage.Engine
use ferrum_kv.Storage.Engine.{Host, KvEngine, scan_keys_limit}
use ferrum_kv.Storage.Engine.Glob.{glob_match, scan_keys}
use ferrum_kv.Storage.Engine.Glob.Language.{Matches, tokens}
use ferrum_kv.Storage.Engine.Glob.Decides.{glob_match-Matches, Scanned, scan_keys-Scanned}

glob_accepts : glob_match (codes "u[!a-c]*:?") (codes "uxyz:1") ≡ true
unfolding glob_match
glob_accepts = refl

glob_refuses : glob_match (codes "u[!a-c]*:?") (codes "ub:1") ≡ false
unfolding glob_match
glob_refuses = refl

glob_match-Matches_example :
    glob_match (codes "u[!a-c]*:?") (codes "uxyz:1") ≡ true
    ↔ Matches (tokens (codes "u[!a-c]*:?")) (codes "uxyz:1")
glob_match-Matches_example = glob_match-Matches (codes "u[!a-c]*:?") (codes "uxyz:1")

abbrev host : Host
host = record { floats = exact; sieve_map = list_map Bool; climb_map = list_map (Unit {0}) }

abbrev clock : Clock
clock = record { now = 5_000_000_000; now_ms = 1_000_000; minute = 16 }

abbrev engine : KvEngine host
unfolding Engine.new Entry.new
engine = record (Engine.new host 1) {
  store =
      (
        codes "user:1",
        record { payload = codes "one"; expire_at = none; last_access_ns = 0; lfu = 5 },
      )
      ∷ (
        codes "job:1",
        record { payload = codes "two"; expire_at = none; last_access_ns = 0; lfu = 5 },
      )
      ∷ [];
}

scan_keys-Scanned_example :
    Scanned engine.store clock.now scan_keys_limit
      (codes "user:*")
      (scan_keys clock engine (codes "user:*"))
scan_keys-Scanned_example = scan_keys-Scanned clock engine (codes "user:*")
