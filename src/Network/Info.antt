-- ===== src/Network/Info.antt =====
-- `render_info_sections` of network/server.rs: the sections of INFO, each with its name and its text.
use ferrum_kv.Prelude.{
  Bool, true, ltb, Option, none, some, List, [], ◌∷◌, ◌++◌, Bytes, codes, length, if◌then◌else◌,
}
use ferrum_kv.Prelude.Decimal.{print_nat}
use ferrum_kv.Config.Text.{eq_ignore_ascii_case}
use ferrum_kv.Protocol.Encoder.{
  ProtocolVersion, resp2, resp3, encode_bulk_string, encode_map_header,
}
use ferrum_kv.Storage.Policy
use ferrum_kv.Storage.Engine.{Host, KvEngine}
use ferrum_kv.Storage.Engine.Settings.{policy_index_memory}
use ferrum_kv.Storage.Engine.Reads.{dbsize, expire_stats}
use ferrum_kv.Network.Shared.{Context}
use ferrum_kv.Network.Respond.{write_pairs}

-- One line of a section.
unfoldable pub info_line : Bytes → Bytes → Bytes → Bytes
info_line name value rest = name ++ 58 ∷ (value ++ 13 ∷ 10 ∷ rest)

unfoldable pub wants : Option Bytes → Bytes → Bool
unfolding eq_ignore_ascii_case
wants none name = true
wants (some s) name = eq_ignore_ascii_case s name

abbrev pub blank : Bytes
blank = 13 ∷ 10 ∷ []

unfoldable pub server_section : Bytes
unfolding info_line
server_section = codes "# Server\r\n" ++ info_line (codes "ferrum_version") (codes "0.6.0") blank

abbrev pub chosen : Option Bytes → Bytes → Bytes → List (Bytes × Bytes) → List (Bytes × Bytes)
chosen section name text rest = if wants section name then (name, text) ∷ rest else rest

module _ {h : Host} where
  unfoldable pub memory_section : KvEngine h → Bytes
  unfolding info_line Policy.name policy_index_memory
  memory_section e =
      codes "# Memory\r\n"
      ++ info_line (codes "used_memory") (print_nat e.used_memory) (
          info_line (codes "maxmemory") (print_nat e.eviction.max_memory) (
            info_line (codes "maxmemory_policy") (Policy.name e.eviction.policy) (
              info_line (codes "maxmemory_samples") (print_nat e.eviction.samples) (
                info_line (codes "used_memory_policy_indexes") (print_nat (policy_index_memory e)) (
                  info_line (codes "ahe_alpha") (h.floats.f32_print_3 e.ahe.alpha) (
                    info_line (codes "ahe_last_hit_ratio")
                      (h.floats.f32_print_3 e.ahe.last_hit_ratio) blank))))))

  unfoldable pub stats_section : Context → KvEngine h → Bytes
  unfolding info_line
  stats_section x e =
      codes "# Stats\r\n"
      ++ info_line (codes "total_commands_processed") (print_nat e.total_commands) (
          info_line (codes "keyspace_hits") (print_nat e.hits) (
            info_line (codes "keyspace_misses") (print_nat e.misses) (
              info_line (codes "evicted_keys") (print_nat e.evicted_keys) (
                info_line (codes "expired_keys") (print_nat e.expired_keys) (
                  info_line (codes "aof_write_errors") (print_nat e.aof_errors) (
                    info_line (codes "aof_fsyncs") (print_nat x.aof_fsyncs) (
                      info_line (codes "aof_fsync_skips") (print_nat x.aof_fsync_skips) (
                        info_line (codes "aof_append_batches") (print_nat x.aof_append_batches)
                          blank))))))))

  unfoldable pub keyspace_section : Context → KvEngine h → Bytes
  unfolding dbsize expire_stats
  keyspace_section x e =
      let keys = dbsize x.clock e in
      let (expires, avg_ttl) = expire_stats x.clock e in
      codes "# Keyspace\r\n"
      ++ (if ltb 0 keys
          then codes "db0:keys="
            ++ (print_nat keys
                ++ (codes ",expires="
                    ++ (print_nat expires
                        ++ (codes ",avg_ttl=" ++ (print_nat avg_ttl ++ 13 ∷ 10 ∷ blank)))))
          else blank)

  unfoldable pub render_info_sections : Context → KvEngine h → Option Bytes → List (Bytes × Bytes)
  unfolding wants server_section memory_section stats_section keyspace_section
  render_info_sections x e section = chosen section (codes "server") server_section (
      chosen section (codes "memory") (memory_section e) (
        chosen section (codes "stats") (stats_section x e)
          (chosen section (codes "keyspace") (keyspace_section x e) [])))

-- The texts one behind the other.
unfoldable pub concat_texts : List (Bytes × Bytes) → Bytes
concat_texts [] = []
concat_texts ((name, text) ∷ sections) = text ++ concat_texts sections

-- One bulk string of all texts, or a map from the names to the texts.
unfoldable pub write_info : ProtocolVersion → Bytes → List (Bytes × Bytes) → Bytes
unfolding concat_texts encode_bulk_string encode_map_header write_pairs
write_info resp2 out sections = encode_bulk_string out (concat_texts sections)
write_info resp3 out sections = write_pairs (encode_map_header out (length sections)) sections
