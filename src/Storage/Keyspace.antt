-- ===== src/Storage/Keyspace.antt =====
-- The keyspace `HashMap<Vec<u8>, ValueEntry>` and the test by which the eviction structures decide
-- whether a key may be evicted under a scope.
use ferrum_kv.Prelude.{Bool, true, false, none, some, List, Bytes}
use ferrum_kv.Storage.Assoc.{get}
use ferrum_kv.Storage.Entry.{ValueEntry, has_ttl}
use ferrum_kv.Storage.Policy.{EvictionScope, all_keys, volatile}

abbrev pub Keyspace : Type 0
Keyspace = List (Bytes × ValueEntry)

unfoldable pub in_scope : EvictionScope → ValueEntry → Bool
in_scope all_keys e = true
in_scope volatile e = has_ttl e

-- The `eligible` of both `evict_one` methods.
unfoldable pub is_eligible : Keyspace → EvictionScope → Bytes → Bool
is_eligible store scope key = elim (get key store) [ none ↦ false | some e ↦ in_scope scope e ]
