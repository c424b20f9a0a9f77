-- ===== src/Storage/Engine/Growth.antt =====
-- How the operations of the engine change its total: what every command keeps of the memory counter.
use ferrum_kv.Prelude.{
  ℕ, ◌+◌, ◌/◌, ◌^◌, ◌≤◌, ◌<◌, ◌≡◌, refl, sym, ap, ◌∙◌, inl, inr, some, List, arith, Bytes,
  Option-cases,
}
use ferrum_kv.Storage.Assoc.{get, insert}
use ferrum_kv.Storage.Assoc.Laws.{insert-Distinct}
use ferrum_kv.Storage.Entry.{ValueEntry, Clock, touch}
use ferrum_kv.Storage.Engine.{Host, KvEngine, entry_bytes}
use ferrum_kv.Storage.Engine.Track.{
  xorshift32, bytes_at, track_insert, track_remove, append, touch_access,
}
use ferrum_kv.Storage.Engine.Evict.{enforce_for_write}
use ferrum_kv.Storage.Engine.Memory.{
  total, IsTracked, IsTracked-same, total-remove, total-insert, track_remove-IsTracked,
  track_insert-IsTracked,
}
use ferrum_kv.Storage.Engine.Limit.{enforce_memory_limit-Evicts}

-- The counter is exact and the entries cost at most `n`.
pub record IsWithin {h : Host} (n : ℕ) (e : KvEngine h) : Type 0 where
  pub tracked : IsTracked e
  pub spent : total e.store ≤ n

pub IsWithin-same :
    {h : Host} {n : ℕ} {a b : KvEngine h}
    → a.store ≡ b.store
    → a.used_memory ≡ b.used_memory
    → IsWithin n b
    → IsWithin n a
IsWithin-same s u w = record { tracked = IsTracked-same s u w.tracked; spent = rw s w.spent }

pub IsWithin-weaken : {h : Host} {m n : ℕ} {e : KvEngine h} → IsWithin m e → m ≤ n → IsWithin n e
IsWithin-weaken w l = record { tracked = w.tracked; spent = omega (arith, w.spent, l) }

module _ {h : Host} where
  pub track_remove-IsWithin :
      (n : ℕ) (e : KvEngine h) (k : Bytes) → IsWithin n e → IsWithin n (track_remove h e k).0
  unfolding track_remove
  track_remove-IsWithin n e k w = record {
    tracked = track_remove-IsTracked h e k w.tracked;
    spent = omega (arith, total-remove h k e.store, w.spent);
  }

  pub track_insert-IsWithin :
      (n : ℕ) (e : KvEngine h) (k : Bytes) (v : ValueEntry)
      → IsWithin n e
      → n + entry_bytes k v < 2 ^ 64
      → IsWithin (n + entry_bytes k v) (track_insert h e k v).0
  unfolding track_insert
  track_insert-IsWithin n e k v w l = record {
    tracked = track_insert-IsTracked h e k v w.tracked (omega (arith, w.spent, l));
    spent = omega (arith, total-insert h k v e.store, w.spent);
  }

  pub enforce_for_write-IsWithin :
      (n : ℕ) (c : Clock) (e : KvEngine h) (k : Bytes) (len : ℕ)
      → IsWithin n e
      → IsWithin n (enforce_for_write h c e k len).0
  unfolding enforce_for_write
  enforce_for_write-IsWithin n c e k len w =
      let v = enforce_memory_limit-Evicts h c _ e w.tracked in
      record { tracked = v.tracked; spent = omega (arith, v.shrinks, w.spent) }

  pub append-IsWithin :
      (n : ℕ) (e : KvEngine h) (recs : List (List Bytes))
      → IsWithin n e
      → IsWithin n (append h e recs)
  unfolding append
  append-IsWithin n e recs w = ground arith

  -- An entry in place of one of the same cost.
  pub replace-IsWithin :
      (n : ℕ) (e e1 : KvEngine h) (k : Bytes) (v w : ValueEntry)
      → get k e.store ≡ some v
      → entry_bytes k w ≡ entry_bytes k v
      → e1.store ≡ insert k w e.store
      → e1.used_memory ≡ e.used_memory
      → IsWithin n e
      → IsWithin n e1
  unfolding bytes_at
  replace-IsWithin n e e1 k v w g q s u b =
      let same : total (insert k w e.store) ≡ total e.store =
        omega (arith, total-insert h k w e.store, ap (bytes_at h k) g, q) in
      record {
        tracked = record {
          counter = u ∙ b.tracked.counter ∙ sym same ∙ ap total (sym s);
          bounded = rw s (rw same b.tracked.bounded);
          distinct = rw s (insert-Distinct k w e.store b.tracked.distinct);
        };
        spent = rw s (rw same b.spent);
      }

  pub touch_access_frame :
      (c : Clock) (e : KvEngine h) (k : Bytes) (v : ValueEntry)
      → get k e.store ≡ some v
      → (r : h.floats.F32) × ((touch_access h c e k).store
          ≡ insert k (touch h.floats c r v) e.store)
        × ((touch_access h c e k).used_memory ≡ e.used_memory)
  unfolding touch_access
  touch_access_frame c e k v q = (
    h.floats.f32_div (h.floats.f32_of (xorshift32 e.rng / 2 ^ 8)) (h.floats.f32_of (2 ^ 24)),
    rw (touch_access, q) refl,
    rw (touch_access, q) refl,
  )

  pub touch_access-IsWithin :
      (n : ℕ) (c : Clock) (e : KvEngine h) (k : Bytes)
      → IsWithin n e
      → IsWithin n (touch_access h c e k)
  unfolding touch_access touch entry_bytes
  touch_access-IsWithin n c e k w = elim (Option-cases (get k e.store)) [
    | inl q ↦ rw (touch_access, q) w
    | inr (v, q) ↦
        let f = touch_access_frame c e k v q in
        replace-IsWithin n e (touch_access h c e k) k v (touch h.floats c f.0 v) q refl f.1 f.2 w
  ]
