-- ===== src/Storage/Engine/Tests.antt =====
-- An engine with two entries, one of them expired at the clock, and the theorems at it.
use ferrum_kv.Prelude.{
  ◌≡◌, refl, ◌+◌, ◌≤◌, ◌⊎◌, Bool, true, false, none, some, [], ◌∷◌, arith, codes, bytes_eq, length,
  if◌then◌else◌,
}
use ferrum_kv.Prelude.Int.{pos, ◌+ℤ◌}
use ferrum_kv.Prelude.Decimal.{print_int, parse_i64}
use ferrum_kv.Storage.Engine.Commands.{incr_by, mset, current_integer, checked_add}
use ferrum_kv.Storage.Engine.Guard.Writes.{validate_all}
use ferrum_kv.Error.{ok, ◌>>◌}
use ferrum_kv.Floats.{exact}
use ferrum_kv.Storage.Assoc.{get, Distinct}
use ferrum_kv.Storage.IndexMap.Lists.{list_map}
use ferrum_kv.Storage.Entry
use ferrum_kv.Storage.Entry.{Clock, ValueEntry}
use ferrum_kv.Storage.Keyspace.{Keyspace}
use ferrum_kv.Storage.Policy
use ferrum_kv.Storage.Policy.{EvictionConfig, all_keys_lru, all_keys_sieve}
use ferrum_kv.Storage.Sieve
use ferrum_kv.Storage.Candidates.{pick_victim, sample_candidates}
use ferrum_kv.Storage.Engine.Settings.{set_eviction_config}
use ferrum_kv.Storage.Engine
use ferrum_kv.Storage.Engine.{Host, Aof, KvEngine, entry_bytes}
use ferrum_kv.Storage.Engine.Track.{bytes_at, sieve_notify_insert}
use ferrum_kv.Storage.Engine.Evict.{
  fits, select_victim, evict_key, enforce_memory_limit, enforce_for_write,
}
use ferrum_kv.Storage.Engine.Memory.{total, IsTracked}
use ferrum_kv.Storage.Engine.Limit.{
  Evicts, enforce_memory_limit-Evicts, enforce_memory_limit_bounds,
}
use ferrum_kv.Storage.Engine.Progress.{lru, enforce_memory_limit-ok}
use ferrum_kv.Storage.Engine.Guard.{validate_key, validate_value}
use ferrum_kv.Storage.Engine.Commands.{set, mset, del, expire_at_ms, persist}
use ferrum_kv.Storage.Engine.Reads.{get_value}
use ferrum_kv.Storage.Engine.Sweep.{sweep_expired}
use ferrum_kv.Storage.Engine.Budget.{cost}
use ferrum_kv.Storage.Engine.History
use ferrum_kv.Storage.Engine.History.{History, start, more, History-IsTracked}
use ferrum_kv.Storage.Engine.Behaviour.{set-others, set-total}
use ferrum_kv.Storage.Engine.Refinement.{view}
use ferrum_kv.Storage.Engine.Refinement.Lookup.{value_of, is_some}
use ferrum_kv.Storage.Engine.Refinement.Lookups.{get_value-view}
use ferrum_kv.Storage.Engine.Refinement.Counters.{incr_by-view}
use ferrum_kv.Storage.Engine.Refinement.Many.{mset-view}
use ferrum_kv.Storage.Engine.Refinement.Updates.{set-view, del-view}
use ferrum_kv.Storage.Engine.Refinement.Deadlines.{
  with_deadline, without_deadline, has_deadline, expire_at_ms-view, persist-view,
}
use ferrum_kv.Storage.Engine.Refinement.Sweeps.{sweep_expired-view}

abbrev host : Host
host = record { floats = exact; sieve_map = list_map Bool; climb_map = list_map (Unit {0}) }

abbrev clock : Clock
clock = record { now = 5_000_000_000; now_ms = 1_000_000; minute = 16 }

abbrev writer : Aof
writer = record { records = []; writes = true; syncs = true }

program : Unit {0}
unfolding Engine.new Engine.with_aof set del enforce_memory_limit enforce_for_write entry_bytes
    validate_key validate_value bytes_eq Entry.new Entry.new_with bytes_at fits expire_at_ms persist
    mset sieve_notify_insert Policy.kind_is_sieve Policy.kind_is_ac Policy.index_kind
    set_eviction_config Sieve.observe_insert Sieve.observe_remove Entry.is_expired Sieve.rebuild
    select_victim Policy.is_sieve Policy.is_adaptive_climb pick_victim sample_candidates
    Policy.scope evict_key
program = tt

abbrev fresh : KvEngine host
unfolding Engine.new Engine.with_aof
fresh = Engine.with_aof host (Engine.new host 1) writer

abbrev plain : ValueEntry
plain = record { payload = codes "one"; expire_at = none; last_access_ns = 2_000_000_000; lfu = 5 }

-- "b" expired two seconds ago, and "c" has three seconds left.
abbrev entries : Keyspace
entries =
    (codes "a", plain)
    ∷ (codes "b", record plain { expire_at = some 3_000_000_000; last_access_ns = 1_000_000_000 })
    ∷ (codes "c", record plain { expire_at = some 8_000_000_000 })
    ∷ []

-- The three entries cost 148 bytes each, of the 500 that are allowed.
abbrev busy : KvEngine host
busy = record fresh {
  store = entries;
  used_memory = 444;
  eviction = record { max_memory = 500; policy = all_keys_lru; samples = 5 };
}

busy-Distinct : Distinct entries
unfolding bytes_eq
busy-Distinct = (refl, (refl, (refl, tt)))

busy-IsTracked : IsTracked busy
unfolding entry_bytes bytes_eq
busy-IsTracked = record { counter = refl; bounded = omega arith; distinct = busy-Distinct }

one_write :
    History (0 + cost (codes "k") (codes "v")) fresh (set clock fresh (codes "k") (codes "v")).0
one_write = more (start fresh) (History.set clock fresh (codes "k") (codes "v"))

History-IsTracked_example :
    IsTracked (set clock fresh (codes "k") (codes "v")).0
    × (total (set clock fresh (codes "k") (codes "v")).0.store ≤ 0 + cost (codes "k") (codes "v"))
unfolding fresh
History-IsTracked_example = History-IsTracked 1 writer one_write (omega arith)

stored : (set clock busy (codes "d") (codes "three")).1 ≡ ok none
unfolding program
stored = refl

room : (enforce_memory_limit host clock 150 busy).1 ≡ ok tt
room = enforce_memory_limit-ok host clock 150 busy busy-IsTracked lru (omega arith) (omega arith)

enforce_memory_limit-ok_example : (enforce_memory_limit host clock 150 busy).1 ≡ ok tt
enforce_memory_limit-ok_example =
    enforce_memory_limit-ok host clock 150 busy busy-IsTracked lru (omega arith) (omega arith)

enforce_memory_limit_bounds_example :
    total (enforce_memory_limit host clock 150 busy).0.store + 150 ≤ 500
enforce_memory_limit_bounds_example =
    enforce_memory_limit_bounds host clock 150 busy busy-IsTracked (omega arith) (omega arith) room

enforce_memory_limit-Evicts_example : Evicts busy (enforce_memory_limit host clock 150 busy).0
enforce_memory_limit-Evicts_example = enforce_memory_limit-Evicts host clock 150 busy busy-IsTracked

other_key : bytes_eq (codes "d") (codes "b") ≡ false
unfolding bytes_eq
other_key = refl

set-others_example :
    (get (codes "b") (set clock busy (codes "d") (codes "three")).0.store ≡ none)
    ⊎ (get (codes "b") (set clock busy (codes "d") (codes "three")).0.store
        ≡ get (codes "b") entries)
set-others_example =
    set-others clock busy (codes "d") (codes "three") (codes "b") busy-IsTracked other_key

set-total_example :
    total (set clock busy (codes "d") (codes "three")).0.store
    ≤ 500 + bytes_at host (codes "d") (get (codes "d") entries)
set-total_example =
    set-total clock busy (codes "d") (codes "three") none busy-IsTracked (omega arith) (omega arith)
      stored

-- The same without a limit.
abbrev unlimited : KvEngine host
unlimited = record busy { eviction = Policy.default_config }

valid : (validate_key (codes "b") >> validate_value (codes "two")) ≡ ok tt
unfolding validate_key validate_value
valid = refl

set-view_example :
    ((set clock unlimited (codes "b") (codes "two")).1
      ≡ ok (value_of (view entries 5_000_000_000 (codes "b"))))
    × (view (set clock unlimited (codes "b") (codes "two")).0.store 5_000_000_000 (codes "b") ≡ (
        if bytes_eq (codes "b") (codes "b")
        then some (codes "two", none)
        else view entries 5_000_000_000 (codes "b")))
set-view_example = set-view clock unlimited (codes "b") (codes "two") (codes "b") refl valid

-- "c" has a number and a deadline.
abbrev counting : KvEngine host
counting = record unlimited {
  store =
      (codes "a", plain)
      ∷ (codes "c", record plain { payload = codes "41"; expire_at = some 8_000_000_000 })
      ∷ [];
}

valid_c : validate_key (codes "c") ≡ ok tt
unfolding validate_key
valid_c = refl

counting-Distinct : Distinct counting.store
unfolding bytes_eq
counting-Distinct = (refl, (refl, tt))

incr_by-view_example :
    ((incr_by clock counting (codes "c") (pos 1)).1 ≡ ok (pos 42))
    × (view (incr_by clock counting (codes "c") (pos 1)).0.store 5_000_000_000 (codes "c")
        ≡ some (codes "42", some 8_000_000_000))
unfolding current_integer checked_add parse_i64 bytes_eq Entry.is_expired ◌+ℤ◌ print_int
incr_by-view_example =
    incr_by-view clock counting (codes "c") (codes "c") (pos 1) counting-Distinct refl valid_c

mset-view_example :
    ((mset clock counting ((codes "c", codes "x") ∷ (codes "c", codes "y") ∷ [])).1 ≡ ok tt)
    × (view
          (mset clock counting ((codes "c", codes "x") ∷ (codes "c", codes "y") ∷ [])).0.store
          5_000_000_000
          (codes "c")
        ≡ some (codes "y", none))
unfolding validate_all validate_key validate_value bytes_eq
mset-view_example =
    mset-view clock counting ((codes "c", codes "x") ∷ (codes "c", codes "y") ∷ []) (codes "c") refl

get_value-view_example :
    ((get_value clock busy (codes "b")).1 ≡ value_of (view entries 5_000_000_000 (codes "b")))
    × (view (get_value clock busy (codes "b")).0.store 5_000_000_000 (codes "a")
        ≡ view entries 5_000_000_000 (codes "a"))
get_value-view_example = get_value-view clock busy (codes "b") (codes "a") busy-Distinct

del-view_example :
    ((del clock busy (codes "a")).1 ≡ is_some (view entries 5_000_000_000 (codes "a")))
    × (view (del clock busy (codes "a")).0.store 5_000_000_000 (codes "c") ≡ (
        if bytes_eq (codes "a") (codes "c") then none else view entries 5_000_000_000 (codes "c")))
del-view_example = del-view clock busy (codes "a") (codes "c") busy-Distinct

expire_at_ms-view_example :
    ((expire_at_ms clock busy (codes "a") (pos 1_002_000)).1
      ≡ is_some (view entries 5_000_000_000 (codes "a")))
    × (view (expire_at_ms clock busy (codes "a") (pos 1_002_000)).0.store 5_000_000_000 (codes "a")
        ≡ (if bytes_eq (codes "a") (codes "a")
            then with_deadline clock (pos 1_002_000) (view entries 5_000_000_000 (codes "a"))
            else view entries 5_000_000_000 (codes "a")))
expire_at_ms-view_example =
    expire_at_ms-view clock busy (codes "a") (codes "a") (pos 1_002_000) busy-Distinct

persist-view_example :
    ((persist clock busy (codes "c")).1 ≡ has_deadline (view entries 5_000_000_000 (codes "c")))
    × (view (persist clock busy (codes "c")).0.store 5_000_000_000 (codes "c") ≡ (
        if bytes_eq (codes "c") (codes "c")
        then without_deadline (view entries 5_000_000_000 (codes "c"))
        else view entries 5_000_000_000 (codes "c")))
persist-view_example = persist-view clock busy (codes "c") (codes "c") busy-Distinct

sweep_expired-view_example :
    view (sweep_expired clock busy 20).0.store 5_000_000_000 (codes "c")
    ≡ view entries 5_000_000_000 (codes "c")
sweep_expired-view_example = sweep_expired-view clock busy 20 (codes "c") busy-Distinct

-- An overwrite that evicts its own key: the credit for the old entry is spent twice, and the entries
-- cost 303 bytes under a limit of 300.
abbrev tight : KvEngine host
tight = record fresh {
  store = (codes "a", plain) ∷ (codes "b", record plain { last_access_ns = 3_000_000_000 }) ∷ [];
  used_memory = 296;
  eviction = record { max_memory = 300; policy = all_keys_lru; samples = 5 };
}

overwrite_overshoots : total (set clock tight (codes "a") (codes "ten bytes!")).0.store ≡ 303
unfolding program
overwrite_overshoots = refl

-- Three pairs that fit one by one cost 444 bytes together, under the same limit.
mset_overshoots :
    total
      (mset clock
        (record tight { store = []; used_memory = 0 })
        ((codes "a", codes "one")
          ∷ (codes "b", codes "one")
          ∷ (codes "c", codes "one")
          ∷ [])).0.store
    ≡ 444
unfolding program
mset_overshoots = refl

-- Under allkeys-sieve a key that is persisted leaves the queue and stays in the keyspace.
abbrev sieving : KvEngine host
unfolding program
sieving =
    set_eviction_config fresh (record { max_memory = 0; policy = all_keys_sieve; samples = 5 })

abbrev persisted : KvEngine host
unfolding program
persisted =
    (persist clock
      (expire_at_ms clock (set clock sieving (codes "a") (codes "one")).0 (codes "a")
        (pos 1_002_000)).0
      (codes "a")).0

persist_leaves_the_queue :
    (host.sieve_map.len persisted.sieve.queue ≡ 0) × (length persisted.store ≡ 1)
unfolding program persisted
persist_leaves_the_queue = (refl, refl)
