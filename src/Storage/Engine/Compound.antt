-- ===== src/Storage/Engine/Compound.antt =====
-- The commands of several operations, and the passes over several keys, keep the counter exact.
use ferrum_kv.Prelude.{
  ℕ, ◌+◌, ◌^◌, ◌≤◌, ◌<◌, inl, inr, ltb, Option, List, [], ◌∷◌, arith, Bytes, length, Bool-cases,
}
use ferrum_kv.Prelude.Int.{ℤ, ◌+ℤ◌, in_i64}
use ferrum_kv.Prelude.Decimal.{print_int, length-print_int}
use ferrum_kv.Error.{Result-cases}
use ferrum_kv.Storage.Entry.{Clock}
use ferrum_kv.Storage.Engine.{Host, KvEngine, value_max_bytes, per_entry_overhead}
use ferrum_kv.Storage.Engine.Track.{record_hit, record_miss, touch_access}
use ferrum_kv.Storage.Engine.Growth.{IsWithin, IsWithin-weaken, touch_access-IsWithin}
use ferrum_kv.Storage.Engine.Guard.{WriteGuard, begin, validate_value, fetch_live, contains_live}
use ferrum_kv.Storage.Engine.Guard.Writes.{read_state}
use ferrum_kv.Storage.Engine.Commands.{
  guarded, incr_guarded, current_integer, checked_add, store_kept, incr_float_guarded,
  current_float, append_guarded, appended,
}
use ferrum_kv.Storage.Engine.Reads.{
  mget, mget_pass, fetch_all, exists_many, exists_pass, contains_all,
}
use ferrum_kv.Storage.Engine.Budget.{
  cost, release-IsWithin, read_state-IsWithin, insert_keep_ttl-IsWithin,
}
use ferrum_kv.Storage.Engine.Steps.{
  hit-IsWithin, record_miss-IsWithin, fetch_live-IsWithin, contains_live-IsWithin,
}

module _ {h : Host} where
  -- A guarded command keeps what its operation keeps.
  pub guarded-IsWithin {ℓ} :
      {A : Type ℓ} (n : ℕ) (c : Clock) (e : KvEngine h) (f : WriteGuard h → WriteGuard h × A)
      → IsWithin n (f (begin e c)).0.engine
      → IsWithin n (guarded c e f).0
  guarded-IsWithin n c e f w = release-IsWithin n (f (begin e c)).0 w

  pub store_kept-IsWithin {ℓ} :
      {A : Type ℓ} (n : ℕ) (g : WriteGuard h) (k v : Bytes) (ttl : Option ℕ) (a : A)
      → IsWithin n g.engine
      → n + cost k v < 2 ^ 64
      → IsWithin (n + cost k v) (store_kept g k v ttl a).0.engine
  unfolding store_kept
  store_kept-IsWithin n g k v ttl a w l = insert_keep_ttl-IsWithin n g k v ttl w l

  pub incr_guarded-IsWithin :
      (n : ℕ) (g : WriteGuard h) (k : Bytes) (delta : ℤ)
      → IsWithin n g.engine
      → n + (length k + 20 + per_entry_overhead) < 2 ^ 64
      → IsWithin (n + (length k + 20 + per_entry_overhead)) (incr_guarded g k delta).0.engine
  unfolding incr_guarded checked_add
  incr_guarded-IsWithin n g k delta w l =
      let read = read_state-IsWithin n g k w in
      let g1 = (read_state g k).0 in
      elim (Result-cases (current_integer (read_state g k).1)) [
        | inl (x, q) ↦ rw (incr_guarded, q) (IsWithin-weaken read (omega arith))
        | inr ((i, ttl), q) ↦ elim (Bool-cases (in_i64 (i +ℤ delta))) [
          | inr out ↦ rw (incr_guarded, q, out) (IsWithin-weaken read (omega arith))
          | inl fits ↦
              let short = length-print_int (i +ℤ delta) fits in
              rw (incr_guarded, q, fits)
                (IsWithin-weaken
                  (store_kept-IsWithin n g1 k (print_int (i +ℤ delta)) ttl (i +ℤ delta) read
                    (omega (arith, short, l)))
                  (omega (arith, short)))
        ]
      ]

  pub append_guarded-IsWithin :
      (n : ℕ) (g : WriteGuard h) (k suffix : Bytes)
      → IsWithin n g.engine
      → n + (length k + value_max_bytes + per_entry_overhead) < 2 ^ 64
      → IsWithin
          (n + (length k + value_max_bytes + per_entry_overhead))
          (append_guarded g k suffix).0.engine
  unfolding append_guarded validate_value
  append_guarded-IsWithin n g k suffix w l =
      let read = read_state-IsWithin n g k w in
      let g1 = (read_state g k).0 in
      let value = (appended (read_state g k).1 suffix).0 in
      let ttl = (appended (read_state g k).1 suffix).1 in
      elim (Bool-cases (ltb value_max_bytes (length value))) [
        | inl over ↦ rw (append_guarded, over) (IsWithin-weaken read (omega arith))
        | inr fits ↦
            let short : length value ≤ value_max_bytes = ground arith in
            rw (append_guarded, fits)
              (IsWithin-weaken
                (store_kept-IsWithin n g1 k value ttl (length value) read (omega (arith, short, l)))
                (omega (arith, short)))
      ]

  pub incr_float_guarded-IsWithin :
      (n m : ℕ) (g : WriteGuard h) (k : Bytes) (delta : h.floats.F64)
      → ((x : h.floats.F64) → length (h.floats.f64_print x) ≤ m)
      → IsWithin n g.engine
      → n + (length k + m + per_entry_overhead) < 2 ^ 64
      → IsWithin (n + (length k + m + per_entry_overhead)) (incr_float_guarded g k delta).0.engine
  unfolding incr_float_guarded
  incr_float_guarded-IsWithin n m g k delta short w l =
      let read = read_state-IsWithin n g k w in
      let g1 = (read_state g k).0 in
      elim (Result-cases (current_float h.floats (read_state g k).1)) [
        | inl (x, q) ↦ rw (incr_float_guarded, q) (IsWithin-weaken read (omega arith))
        | inr ((i, ttl), q) ↦
            let sum = h.floats.f64_add i delta in
            let kept =
              store_kept-IsWithin n g1 k (h.floats.f64_print sum) ttl sum read
                (omega (arith, short sum, l)) in
            elim (Bool-cases (h.floats.f64_is_finite sum)) [
              | inl finite ↦
                  rw (incr_float_guarded, q, finite)
                    (IsWithin-weaken kept (omega (arith, short sum)))
              | inr out ↦ rw (incr_float_guarded, q, out) (IsWithin-weaken read (omega arith))
            ]
      ]

  mget_pass-IsWithin :
      (n : ℕ) (c : Clock) (e : KvEngine h) (keys : List Bytes)
      → IsWithin n e
      → IsWithin n (mget_pass c e keys).0
  unfolding mget_pass
  mget_pass-IsWithin n c e [] w = w
  mget_pass-IsWithin n c e (k ∷ keys) w =
      let touched = hit-IsWithin n (touch_access h c e k) (touch_access-IsWithin n c e k w) in
      ground (
        arith,
        mget_pass-IsWithin n c (record_hit h (touch_access h c e k)) keys touched,
        mget_pass-IsWithin n c e keys w,
        mget_pass-IsWithin n c (record_miss h e) keys (record_miss-IsWithin n e w),
      )

  fetch_all-IsWithin :
      (n : ℕ) (g : WriteGuard h) (keys : List Bytes)
      → IsWithin n g.engine
      → IsWithin n (fetch_all g keys).engine
  unfolding fetch_all
  fetch_all-IsWithin n g [] w = w
  fetch_all-IsWithin n g (k ∷ keys) w =
      fetch_all-IsWithin n (fetch_live g k).0 keys (fetch_live-IsWithin n g k w)

  pub mget-IsWithin :
      (n : ℕ) (c : Clock) (e : KvEngine h) (keys : List Bytes)
      → IsWithin n e
      → IsWithin n (mget c e keys).0
  unfolding mget begin
  mget-IsWithin n c e keys w =
      let pass = mget_pass-IsWithin n c e keys w in
      let e1 = (mget_pass c e keys).0 in
      let expired = (mget_pass c e keys).2 in
      ground (
        arith,
        pass,
        release-IsWithin n (fetch_all (begin e1 c) expired)
            (fetch_all-IsWithin n (begin e1 c) expired pass),
      )

  exists_pass-IsWithin :
      (n : ℕ) (c : Clock) (e : KvEngine h) (keys : List Bytes)
      → IsWithin n e
      → IsWithin n (exists_pass c e keys).0
  unfolding exists_pass
  exists_pass-IsWithin n c e [] w = w
  exists_pass-IsWithin n c e (k ∷ keys) w = ground (
    arith,
    exists_pass-IsWithin n c (record_hit h e) keys (hit-IsWithin n e w),
    exists_pass-IsWithin n c e keys w,
    exists_pass-IsWithin n c (record_miss h e) keys (record_miss-IsWithin n e w),
  )

  contains_all-IsWithin :
      (n : ℕ) (g : WriteGuard h) (keys : List Bytes)
      → IsWithin n g.engine
      → IsWithin n (contains_all g keys).0.engine
  unfolding contains_all
  contains_all-IsWithin n g [] w = w
  contains_all-IsWithin n g (k ∷ keys) w =
      contains_all-IsWithin n (contains_live g k).0 keys (contains_live-IsWithin n g k w)

  pub exists_many-IsWithin :
      (n : ℕ) (c : Clock) (e : KvEngine h) (keys : List Bytes)
      → IsWithin n e
      → IsWithin n (exists_many c e keys).0
  unfolding exists_many begin
  exists_many-IsWithin n c e [] w = w
  exists_many-IsWithin n c e (k ∷ keys) w =
      let pass = exists_pass-IsWithin n c e (k ∷ keys) w in
      let e1 = (exists_pass c e (k ∷ keys)).0 in
      let expired = (exists_pass c e (k ∷ keys)).2 in
      ground (
        arith,
        pass,
        release-IsWithin n (contains_all (begin e1 c) expired).0
            (contains_all-IsWithin n (begin e1 c) expired pass),
      )
