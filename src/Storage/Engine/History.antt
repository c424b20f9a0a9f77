-- ===== src/Storage/Engine/History.antt =====
-- The commands as steps of the engine, and the histories that they make. The number of a step bounds
-- what it may add to the cost of the entries.
use ferrum_kv.Prelude.{ℕ, ◌+◌, ◌≤◌, ◌<◌, ◌^◌, refl, Option, List, [], ◌∷◌, arith, Bytes, length}
use ferrum_kv.Prelude.Int.{ℤ}
use ferrum_kv.Storage.Entry.{Clock}
use ferrum_kv.Storage.Policy.{EvictionConfig}
use ferrum_kv.Storage.Engine.{
  Host, Aof, KvEngine, new, with_aof, value_max_bytes, per_entry_overhead,
}
use ferrum_kv.Storage.Engine.Memory.{IsTracked, total}
use ferrum_kv.Storage.Engine.Growth.{
  IsWithin, IsWithin-same, IsWithin-weaken, touch_access-IsWithin,
}
use ferrum_kv.Storage.Engine.Track.{touch_access}
use ferrum_kv.Storage.Engine.Guard.{begin, fetch_live, contains_live}
use ferrum_kv.Storage.Engine.Guard.Writes
use ferrum_kv.Storage.Engine.Guard.Expiry
use ferrum_kv.Storage.Engine.Commands
use ferrum_kv.Storage.Engine.Reads
use ferrum_kv.Storage.Engine.Sweep
use ferrum_kv.Storage.Engine.Settings
use ferrum_kv.Storage.Engine.Budget.{
  cost, cost_all, release-IsWithin, insert-IsWithin, insert_nx-IsWithin, insert_many-IsWithin,
  remove_key-IsWithin, remove_many-IsWithin, clear-IsWithin,
}
use ferrum_kv.Storage.Engine.Steps.{
  hit-IsWithin, record_miss-IsWithin, fetch_live-IsWithin, contains_live-IsWithin,
  expire_at-IsWithin, persist-IsWithin, ttl_of-IsWithin, strlen_of-IsWithin, memory_of-IsWithin,
  sweep_expired-IsWithin,
}
use ferrum_kv.Storage.Engine.Compound.{
  incr_guarded-IsWithin, incr_float_guarded-IsWithin, append_guarded-IsWithin, mget-IsWithin,
  exists_many-IsWithin,
}

-- A step from one engine to the next, and what it may cost.
pub data Step {h : Host} : ℕ → KvEngine h → KvEngine h → Type 0 where
  set : (c : Clock) (e : KvEngine h) (k v : Bytes) → Step (cost k v) e (Commands.set c e k v).0
  set_nx :
      (c : Clock) (e : KvEngine h) (k v : Bytes) → Step (cost k v) e (Commands.set_nx c e k v).0
  mset :
      (c : Clock) (e : KvEngine h) (pairs : List (Bytes × Bytes))
      → Step (cost_all pairs) e (Commands.mset c e pairs).0
  incr_by :
      (c : Clock) (e : KvEngine h) (k : Bytes) (delta : ℤ)
      → Step (length k + 20 + per_entry_overhead) e (Commands.incr_by c e k delta).0
  incr_by_float :
      (m : ℕ) (c : Clock) (e : KvEngine h) (k : Bytes) (delta : h.floats.F64)
      → ((x : h.floats.F64) → length (h.floats.f64_print x) ≤ m)
      → Step (length k + m + per_entry_overhead) e (Commands.incr_by_float c e k delta).0
  append :
      (c : Clock) (e : KvEngine h) (k suffix : Bytes)
      → Step
          (length k + value_max_bytes + per_entry_overhead)
          e
          (Commands.append_value c e k suffix).0
  del : (c : Clock) (e : KvEngine h) (k : Bytes) → Step 0 e (Commands.del c e k).0
  del_many :
      (c : Clock) (e : KvEngine h) (keys : List Bytes) → Step 0 e (Commands.del_many c e keys).0
  flushdb : (c : Clock) (e : KvEngine h) → Step 0 e (Commands.flushdb c e)
  expire_at :
      (c : Clock) (e : KvEngine h) (k : Bytes) (ms : ℤ)
      → Step 0 e (Commands.expire_at_ms c e k ms).0
  persist : (c : Clock) (e : KvEngine h) (k : Bytes) → Step 0 e (Commands.persist c e k).0
  get : (c : Clock) (e : KvEngine h) (k : Bytes) → Step 0 e (Reads.get_value c e k).0
  mget : (c : Clock) (e : KvEngine h) (keys : List Bytes) → Step 0 e (Reads.mget c e keys).0
  exists : (c : Clock) (e : KvEngine h) (k : Bytes) → Step 0 e (Reads.exists_key c e k).0
  exists_many :
      (c : Clock) (e : KvEngine h) (keys : List Bytes) → Step 0 e (Reads.exists_many c e keys).0
  strlen : (c : Clock) (e : KvEngine h) (k : Bytes) → Step 0 e (Reads.strlen c e k).0
  ttl : (c : Clock) (e : KvEngine h) (k : Bytes) → Step 0 e (Reads.ttl_ms c e k).0
  memory_usage : (c : Clock) (e : KvEngine h) (k : Bytes) → Step 0 e (Reads.memory_usage c e k).0
  sweep : (c : Clock) (e : KvEngine h) (sample : ℕ) → Step 0 e (Sweep.sweep_expired c e sample).0
  config : (e : KvEngine h) (cfg : EvictionConfig) → Step 0 e (Settings.set_eviction_config e cfg)
  requirepass : (e : KvEngine h) (pw : Option Bytes) → Step 0 e (Settings.set_requirepass e pw)
  slow :
      (e : KvEngine h) (ts : ℕ) (args : List Bytes) (peer us : ℕ)
      → Step 0 e (Settings.maybe_push_slowlog e ts args peer us)
  slowlog_reset : (e : KvEngine h) → Step 0 e (Settings.slowlog_reset e)

-- A run of steps, with the sum of what they may cost.
pub data History {h : Host} : ℕ → KvEngine h → KvEngine h → Type 0 where
  start : (e : KvEngine h) → History 0 e e
  more : {m n : ℕ} {a b c : KvEngine h} → History m a b → Step n b c → History (m + n) a c

module _ {h : Host} where
  still : {m : ℕ} {e : KvEngine h} → IsWithin m e → IsWithin (m + 0) e
  still w = IsWithin-weaken w (omega arith)

  config-IsWithin :
      (n : ℕ) (e : KvEngine h) (cfg : EvictionConfig)
      → IsWithin n e
      → IsWithin n (Settings.set_eviction_config e cfg)
  unfolding Settings.set_eviction_config Settings.switch_index
  config-IsWithin n e cfg w = ground (
    arith,
    IsWithin-same {a = record e { eviction = cfg }} refl refl w,
    IsWithin-same {a = record (Settings.switch_index e cfg) { eviction = cfg }} refl refl w,
  )

  Step-IsWithin :
      {m n : ℕ} {a b : KvEngine h} → Step n a b → IsWithin m a → m + n < 2 ^ 64 → IsWithin (m + n) b
  unfolding Commands.set Commands.set_nx Commands.mset Commands.incr_by Commands.incr_by_float
      Commands.append_value Commands.del Commands.del_many Commands.flushdb Commands.expire_at_ms
      Commands.persist Reads.get_value Reads.exists_key Reads.strlen Reads.ttl_ms Reads.memory_usage
      begin Settings.set_eviction_config Settings.switch_index Settings.set_requirepass
      Settings.maybe_push_slowlog Settings.slowlog_reset
  Step-IsWithin {m = m} (set c e k v) w l =
      release-IsWithin _ (Writes.insert (begin e c) k v).0 (insert-IsWithin m (begin e c) k v w l)
  Step-IsWithin {m = m} (set_nx c e k v) w l =
      release-IsWithin _ (Writes.insert_nx (begin e c) k v).0
        (insert_nx-IsWithin m (begin e c) k v w l)
  Step-IsWithin {m = m} (mset c e pairs) w l =
      release-IsWithin _ (Writes.insert_many (begin e c) pairs).0
        (insert_many-IsWithin m (begin e c) pairs w l)
  Step-IsWithin {m = m} (incr_by c e k delta) w l = ground (
    arith,
    IsWithin-weaken {n = m + (length k + 20 + per_entry_overhead)} w (omega arith),
    release-IsWithin _ (Commands.incr_guarded (begin e c) k delta).0
        (incr_guarded-IsWithin m (begin e c) k delta w l),
  )
  Step-IsWithin {m = m} (incr_by_float d c e k delta short) w l = ground (
    arith,
    IsWithin-weaken {n = m + (length k + d + per_entry_overhead)} w (omega arith),
    release-IsWithin _ (Commands.incr_float_guarded (begin e c) k delta).0
        (incr_float_guarded-IsWithin m d (begin e c) k delta short w l),
  )
  Step-IsWithin {m = m} (append c e k suffix) w l = ground (
    arith,
    IsWithin-weaken {n = m + (length k + value_max_bytes + per_entry_overhead)} w (omega arith),
    release-IsWithin _ (Commands.append_guarded (begin e c) k suffix).0
        (append_guarded-IsWithin m (begin e c) k suffix w l),
  )
  Step-IsWithin {m = m} (del c e k) w l = still (
      release-IsWithin m (Writes.remove_key (begin e c) k).0
        (remove_key-IsWithin m (begin e c) k w))
  Step-IsWithin {m = m} (del_many c e []) w l = still w
  Step-IsWithin {m = m} (del_many c e (k ∷ keys)) w l = still (
      release-IsWithin m (Writes.remove_many (begin e c) (k ∷ keys)).0
        (remove_many-IsWithin m (begin e c) (k ∷ keys) w))
  Step-IsWithin {m = m} (flushdb c e) w l =
      still (release-IsWithin m (Writes.clear (begin e c)) (clear-IsWithin m (begin e c)))
  Step-IsWithin {m = m} (expire_at c e k ms) w l = still (
      release-IsWithin m (Expiry.expire_at (begin e c) k ms).0
        (expire_at-IsWithin m (begin e c) k ms w))
  Step-IsWithin {m = m} (persist c e k) w l =
      still
        (release-IsWithin m (Expiry.persist (begin e c) k).0 (persist-IsWithin m (begin e c) k w))
  Step-IsWithin {m = m} (get c e k) w l =
      let touched = hit-IsWithin m (touch_access h c e k) (touch_access-IsWithin m c e k w) in
      let fetched =
        release-IsWithin m (fetch_live (begin e c) k).0 (fetch_live-IsWithin m (begin e c) k w) in
      still (ground (arith, touched, fetched, record_miss-IsWithin m e w))
  Step-IsWithin {m = m} (mget c e keys) w l = still (mget-IsWithin m c e keys w)
  Step-IsWithin {m = m} (exists c e k) w l =
      let found =
        release-IsWithin m (contains_live (begin e c) k).0
          (contains_live-IsWithin m (begin e c) k w) in
      still (ground (arith, hit-IsWithin m e w, found, record_miss-IsWithin m e w))
  Step-IsWithin {m = m} (exists_many c e keys) w l = still (exists_many-IsWithin m c e keys w)
  Step-IsWithin {m = m} (strlen c e k) w l = still (
      ground (
        arith,
        w,
        release-IsWithin m (Expiry.strlen_of (begin e c) k).0
            (strlen_of-IsWithin m (begin e c) k w),
      ))
  Step-IsWithin {m = m} (ttl c e k) w l = still (
      ground (
        arith,
        w,
        release-IsWithin m (Expiry.ttl_of (begin e c) k).0 (ttl_of-IsWithin m (begin e c) k w),
      ))
  Step-IsWithin {m = m} (memory_usage c e k) w l = still (
      ground (
        arith,
        w,
        release-IsWithin m (Expiry.memory_of (begin e c) k).0
            (memory_of-IsWithin m (begin e c) k w),
      ))
  Step-IsWithin {m = m} (sweep c e sample) w l = still (sweep_expired-IsWithin m c e sample w)
  Step-IsWithin {m = m} (config e cfg) w l = still (config-IsWithin m e cfg w)
  Step-IsWithin {m = m} (requirepass e pw) w l = still (IsWithin-same refl refl w)
  Step-IsWithin {m = m} (slow e ts args peer us) w l = still (IsWithin-same refl refl w)
  Step-IsWithin {m = m} (slowlog_reset e) w l = still (IsWithin-same refl refl w)

  History-IsWithin :
      {n : ℕ} {a b : KvEngine h} → History n a b → IsWithin 0 a → n < 2 ^ 64 → IsWithin n b
  History-IsWithin (start e) w l = w
  History-IsWithin (more {m = m} run step) w l =
      Step-IsWithin step (History-IsWithin run w (omega (arith, l))) l

  -- After any history of commands, other than CONFIG SET of the slow log, from a new engine with a log,
  -- whose writes may cost less than 2^64 bytes in all, the memory counter is the sum of the costs of the
  -- entries, which are at most what the writes may cost, and no key stands twice.
  pub History-IsTracked :
      {n : ℕ} (seed : ℕ) (writer : Aof) {e : KvEngine h}
      → History n (with_aof h (new h seed) writer) e
      → n < 2 ^ 64
      → IsTracked e × (total e.store ≤ n)
  unfolding new with_aof
  History-IsTracked seed writer run l =
      let none_yet : IsWithin 0 (with_aof h (new h seed) writer) = record {
        tracked = record { counter = refl; bounded = omega arith; distinct = tt };
        spent = omega arith;
      } in
      let w = History-IsWithin run none_yet l in (w.tracked, w.spent)
