-- ===== src/Storage/Engine/Reads.antt =====
-- The commands of `KvEngine` that read: a pass under the shared lock, and for an expired key a guard
-- afterwards, in one step here.
use ferrum_kv.Prelude.{
  ℕ, ◌+◌, ◌-◌, ◌/◌, ◌^◌, Bool, true, false, min, ◌==◌, Option, none, some, List, [], ◌∷◌, Bytes,
  length, if◌then◌else◌,
}
use ferrum_kv.Storage.Assoc.{get}
use ferrum_kv.Storage.Entry.{Clock, is_expired}
use ferrum_kv.Storage.Keyspace.{Keyspace}
use ferrum_kv.Storage.Engine.{Host, KvEngine, entry_bytes}
use ferrum_kv.Storage.Engine.Track.{touch_access, record_hit, record_miss}
use ferrum_kv.Storage.Engine.Guard.{
  WriteGuard, TtlStatus, missing, begin, release, fetch_live, contains_live,
}
use ferrum_kv.Storage.Engine.Guard.Expiry.{ttl_of, strlen_of, memory_of, remaining}
use ferrum_kv.Storage.Engine.Commands.{guarded}

-- The live entries, counted.
unfoldable pub count_live : Keyspace → ℕ → ℕ
count_live [] now = 0
count_live ((key, entry) ∷ store) now =
    if is_expired entry now then count_live store now else count_live store now + 1

-- The live entries with a deadline, counted, and the sum of what remains to them, from a sum so far.
unfoldable pub sum_ttl : Keyspace → ℕ → ℕ → ℕ → ℕ × ℕ
sum_ttl [] now count sum = (count, sum)
sum_ttl ((key, entry) ∷ store) now count sum =
    let skipped = sum_ttl store now count sum in
    let counted = λ (deadline : ℕ).
      sum_ttl store now (count + 1) (min (sum + (deadline - now) / 1_000_000) (2 ^ 64 - 1)) in
    if is_expired entry now
    then skipped
    else elim entry.expire_at [ none ↦ skipped | some deadline ↦ counted deadline ]

module _ {h : Host} where
  unfoldable pub get_value : Clock → KvEngine h → Bytes → KvEngine h × Option Bytes
  unfolding begin release fetch_live touch_access record_hit record_miss
  get_value c e key = elim (get key e.store) [
    | none ↦ (record_miss h e, none)
    | some entry ↦
        if is_expired entry c.now
        then guarded c e (λ g. fetch_live g key)
        else (record_hit h (touch_access h c e key), some entry.payload)
  ]

  -- The pass of `mget`: the answers, and the expired keys.
  unfoldable pub mget_pass :
      Clock → KvEngine h → List Bytes → KvEngine h × List (Option Bytes) × List Bytes
  unfolding touch_access record_hit record_miss
  mget_pass c e [] = (e, [], [])
  mget_pass c e (key ∷ keys) =
      let hit = mget_pass c (record_hit h (touch_access h c e key)) keys in
      let expired = mget_pass c e keys in
      let miss = mget_pass c (record_miss h e) keys in
      elim (get key e.store) [
        | none ↦ (miss.0, none ∷ miss.1, miss.2)
        | some entry ↦
            if is_expired entry c.now
            then (expired.0, none ∷ expired.1, key ∷ expired.2)
            else (hit.0, some entry.payload ∷ hit.1, hit.2)
      ]

  unfoldable pub fetch_all : WriteGuard h → List Bytes → WriteGuard h
  unfolding fetch_live
  fetch_all g [] = g
  fetch_all g (key ∷ keys) = fetch_all (fetch_live g key).0 keys

  unfoldable pub mget : Clock → KvEngine h → List Bytes → KvEngine h × List (Option Bytes)
  unfolding mget_pass fetch_all begin release
  mget c e keys =
      let (e1, out, expired) = mget_pass c e keys in
      let cleaned = release (fetch_all (begin e1 c) expired) in
      (elim expired [ [] ↦ e1 | k ∷ ks ↦ cleaned ], out)

  unfoldable pub exists_key : Clock → KvEngine h → Bytes → KvEngine h × Bool
  unfolding begin release contains_live record_hit record_miss
  exists_key c e key = elim (get key e.store) [
    | none ↦ (record_miss h e, false)
    | some entry ↦
        if is_expired entry c.now
        then guarded c e (λ g. contains_live g key)
        else (record_hit h e, true)
  ]

  -- The pass of `exists_many`: the count so far, and the expired keys.
  unfoldable pub exists_pass : Clock → KvEngine h → List Bytes → KvEngine h × ℕ × List Bytes
  unfolding record_hit record_miss
  exists_pass c e [] = (e, 0, [])
  exists_pass c e (key ∷ keys) =
      let hit = exists_pass c (record_hit h e) keys in
      let expired = exists_pass c e keys in
      let miss = exists_pass c (record_miss h e) keys in
      elim (get key e.store) [
        | none ↦ miss
        | some entry ↦
            if is_expired entry c.now
            then (expired.0, expired.1, key ∷ expired.2)
            else (hit.0, hit.1 + 1, hit.2)
      ]

  unfoldable pub contains_all : WriteGuard h → List Bytes → WriteGuard h × ℕ
  unfolding contains_live
  contains_all g [] = (g, 0)
  contains_all g (key ∷ keys) =
      let (g1, found) = contains_live g key in
      let (g2, n) = contains_all g1 keys in (g2, if found then n + 1 else n)

  unfoldable pub exists_many : Clock → KvEngine h → List Bytes → KvEngine h × ℕ
  unfolding exists_pass contains_all begin release
  exists_many c e [] = (e, 0)
  exists_many c e (key ∷ keys) =
      let (e1, count, expired) = exists_pass c e (key ∷ keys) in
      let (g, more) = contains_all (begin e1 c) expired in
      elim expired [ [] ↦ (e1, count) | k ∷ ks ↦ (release g, count + more) ]

  unfoldable pub strlen : Clock → KvEngine h → Bytes → KvEngine h × ℕ
  unfolding begin release strlen_of
  strlen c e key = elim (get key e.store) [
    | none ↦ (e, 0)
    | some entry ↦
        if is_expired entry c.now
        then guarded c e (λ g. strlen_of g key)
        else (e, length entry.payload)
  ]

  unfoldable pub ttl_ms : Clock → KvEngine h → Bytes → KvEngine h × TtlStatus
  unfolding begin release ttl_of
  ttl_ms c e key = elim (get key e.store) [
    | none ↦ (e, missing)
    | some entry ↦
        if is_expired entry c.now
        then guarded c e (λ g. ttl_of g key)
        else (e, remaining entry c.now)
  ]

  unfoldable pub memory_usage : Clock → KvEngine h → Bytes → KvEngine h × Option ℕ
  unfolding begin release memory_of
  memory_usage c e key = elim (get key e.store) [
    | none ↦ (e, none)
    | some entry ↦
        if is_expired entry c.now
        then guarded c e (λ g. memory_of g key)
        else (e, some (entry_bytes key entry))
  ]

  unfoldable pub dbsize : Clock → KvEngine h → ℕ
  unfolding count_live
  dbsize c e = count_live e.store c.now

  unfoldable pub expire_stats : Clock → KvEngine h → ℕ × ℕ
  unfolding sum_ttl
  expire_stats c e =
      let (count, sum) = sum_ttl e.store c.now 0 0 in (count, if count == 0 then 0 else sum / count)
