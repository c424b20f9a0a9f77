-- ===== src/Storage/Policy.antt =====
-- `EvictionPolicy`, `EvictionScope` and `EvictionConfig` of storage/eviction.rs, and the
-- `index_kind` constants of storage/engine/mod.rs.
pub mod Names
mod Tests
use ferrum_kv.Prelude.{
  ℕ, Bool, true, false, ◌||◌, Option, none, some, Bytes, codes, bytes_eq, ◌==◌, if◌then◌else◌,
}

pub data EvictionPolicy : Type 0 where
  no_eviction all_keys_lru volatile_lru all_keys_lfu volatile_lfu : EvictionPolicy
  all_keys_random volatile_random volatile_ttl all_keys_ahe volatile_ahe : EvictionPolicy
  all_keys_sieve volatile_sieve all_keys_sieve_s volatile_sieve_s : EvictionPolicy
  all_keys_adaptive_climb volatile_adaptive_climb : EvictionPolicy

unfoldable pub from_name : Bytes → Option EvictionPolicy
from_name name =
    if bytes_eq name (codes "noeviction")
    then some no_eviction
    else if bytes_eq name (codes "allkeys-lru")
    then some all_keys_lru
    else if bytes_eq name (codes "volatile-lru")
    then some volatile_lru
    else if bytes_eq name (codes "allkeys-lfu")
    then some all_keys_lfu
    else if bytes_eq name (codes "volatile-lfu")
    then some volatile_lfu
    else if bytes_eq name (codes "allkeys-random")
    then some all_keys_random
    else if bytes_eq name (codes "volatile-random")
    then some volatile_random
    else if bytes_eq name (codes "volatile-ttl")
    then some volatile_ttl
    else if bytes_eq name (codes "allkeys-ahe")
    then some all_keys_ahe
    else if bytes_eq name (codes "volatile-ahe")
    then some volatile_ahe
    else if bytes_eq name (codes "allkeys-sieve")
    then some all_keys_sieve
    else if bytes_eq name (codes "volatile-sieve")
    then some volatile_sieve
    else if bytes_eq name (codes "allkeys-sieves")
    then some all_keys_sieve_s
    else if bytes_eq name (codes "volatile-sieves")
    then some volatile_sieve_s
    else if bytes_eq name (codes "allkeys-adaptiveclimb")
    then some all_keys_adaptive_climb
    else if bytes_eq name (codes "volatile-adaptiveclimb")
    then some volatile_adaptive_climb
    else none

unfoldable pub name : EvictionPolicy → Bytes
name no_eviction = codes "noeviction"
name all_keys_lru = codes "allkeys-lru"
name volatile_lru = codes "volatile-lru"
name all_keys_lfu = codes "allkeys-lfu"
name volatile_lfu = codes "volatile-lfu"
name all_keys_random = codes "allkeys-random"
name volatile_random = codes "volatile-random"
name volatile_ttl = codes "volatile-ttl"
name all_keys_ahe = codes "allkeys-ahe"
name volatile_ahe = codes "volatile-ahe"
name all_keys_sieve = codes "allkeys-sieve"
name volatile_sieve = codes "volatile-sieve"
name all_keys_sieve_s = codes "allkeys-sieves"
name volatile_sieve_s = codes "volatile-sieves"
name all_keys_adaptive_climb = codes "allkeys-adaptiveclimb"
name volatile_adaptive_climb = codes "volatile-adaptiveclimb"

pub data EvictionScope : Type 0 where
  all_keys volatile : EvictionScope

unfoldable pub scope : EvictionPolicy → EvictionScope
scope no_eviction = all_keys
scope all_keys_lru = all_keys
scope all_keys_lfu = all_keys
scope all_keys_random = all_keys
scope all_keys_ahe = all_keys
scope all_keys_sieve = all_keys
scope all_keys_sieve_s = all_keys
scope all_keys_adaptive_climb = all_keys
scope volatile_lru = volatile
scope volatile_lfu = volatile
scope volatile_random = volatile
scope volatile_ttl = volatile
scope volatile_ahe = volatile
scope volatile_sieve = volatile
scope volatile_sieve_s = volatile
scope volatile_adaptive_climb = volatile

unfoldable pub is_sieve : EvictionPolicy → Bool
is_sieve all_keys_sieve = true
is_sieve volatile_sieve = true
is_sieve all_keys_sieve_s = true
is_sieve volatile_sieve_s = true
is_sieve _ = false

unfoldable pub is_adaptive_climb : EvictionPolicy → Bool
is_adaptive_climb all_keys_adaptive_climb = true
is_adaptive_climb volatile_adaptive_climb = true
is_adaptive_climb _ = false

-- The constants NONE to AC_VOLATILE, in the order of their values 0 to 6.
pub data IndexKind : Type 0 where
  k_none k_sieve_all k_sieve_volatile k_sieve_s_all k_sieve_s_volatile k_ac_all : IndexKind
  k_ac_volatile : IndexKind

unfoldable pub index_kind : EvictionPolicy → IndexKind
index_kind all_keys_sieve = k_sieve_all
index_kind volatile_sieve = k_sieve_volatile
index_kind all_keys_sieve_s = k_sieve_s_all
index_kind volatile_sieve_s = k_sieve_s_volatile
index_kind all_keys_adaptive_climb = k_ac_all
index_kind volatile_adaptive_climb = k_ac_volatile
index_kind _ = k_none

unfoldable pub kind_is_sieve : IndexKind → Bool
kind_is_sieve k_sieve_all = true
kind_is_sieve k_sieve_volatile = true
kind_is_sieve k_sieve_s_all = true
kind_is_sieve k_sieve_s_volatile = true
kind_is_sieve _ = false

unfoldable pub kind_is_sieve_ttl : IndexKind → Bool
kind_is_sieve_ttl k_sieve_s_all = true
kind_is_sieve_ttl k_sieve_s_volatile = true
kind_is_sieve_ttl _ = false

unfoldable pub kind_is_ac : IndexKind → Bool
kind_is_ac k_ac_all = true
kind_is_ac k_ac_volatile = true
kind_is_ac _ = false

pub record EvictionConfig : Type 0 where
  pub max_memory : ℕ
  pub policy : EvictionPolicy
  pub samples : ℕ

abbrev pub default_config : EvictionConfig
default_config = record { max_memory = 0; policy = no_eviction; samples = 5 }

abbrev pub kind_index : IndexKind → ℕ
kind_index k_none = 0
kind_index k_sieve_all = 1
kind_index k_sieve_volatile = 2
kind_index k_sieve_s_all = 3
kind_index k_sieve_s_volatile = 4
kind_index k_ac_all = 5
kind_index k_ac_volatile = 6

abbrev pub same_kind : IndexKind → IndexKind → Bool
same_kind a b = kind_index a == kind_index b
