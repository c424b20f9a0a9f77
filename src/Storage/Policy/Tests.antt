-- ===== src/Storage/Policy/Tests.antt =====
-- A policy from its name.
use ferrum_kv.Prelude.{◌≡◌, refl, some, codes, bytes_eq}
use ferrum_kv.Storage.Policy.{from_name, volatile_ttl}

read : from_name (codes "volatile-ttl") ≡ some volatile_ttl
unfolding from_name bytes_eq
read = refl
