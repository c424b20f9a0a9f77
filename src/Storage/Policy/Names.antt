-- ===== src/Storage/Policy/Names.antt =====
-- The wire names of the policies.
use ferrum_kv.Prelude.{◌≡◌, refl, some, arith, Bytes, codes, bytes_eq, bytes_eq_iff}
use ferrum_kv.Storage.Policy

-- Every policy is read back from its name.
pub from_name-name : (p : Policy.EvictionPolicy) → Policy.from_name (Policy.name p) ≡ some p
unfolding Policy.from_name Policy.name bytes_eq
from_name-name Policy.EvictionPolicy.no_eviction = refl
from_name-name p = refl

-- A name that is read is the name of the policy that it is read as: there are no aliases.
name-from_name :
    (s : Bytes) (p : Policy.EvictionPolicy) → Policy.from_name s ≡ some p → s ≡ Policy.name p
unfolding Policy.from_name Policy.name
name-from_name s p h = ground (
  arith,
  bytes_eq_iff s (codes "noeviction"),
  bytes_eq_iff s (codes "allkeys-lru"),
  bytes_eq_iff s (codes "volatile-lru"),
  bytes_eq_iff s (codes "allkeys-lfu"),
  bytes_eq_iff s (codes "volatile-lfu"),
  bytes_eq_iff s (codes "allkeys-random"),
  bytes_eq_iff s (codes "volatile-random"),
  bytes_eq_iff s (codes "volatile-ttl"),
  bytes_eq_iff s (codes "allkeys-ahe"),
  bytes_eq_iff s (codes "volatile-ahe"),
  bytes_eq_iff s (codes "allkeys-sieve"),
  bytes_eq_iff s (codes "volatile-sieve"),
  bytes_eq_iff s (codes "allkeys-sieves"),
  bytes_eq_iff s (codes "volatile-sieves"),
  bytes_eq_iff s (codes "allkeys-adaptiveclimb"),
  bytes_eq_iff s (codes "volatile-adaptiveclimb"),
)
