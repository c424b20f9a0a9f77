-- ===== src/Persistence/Snapshot/Restores.antt =====
-- The replay of a compact file restores the keyspace that it was written from.
use ferrum_kv.Prelude.{
  ℕ, ◌+◌, ◌-◌, ◌*◌, ◌/◌, ◌^◌, min, leb, Option, some, Bool-cases, Option-cases, inl, inr, ◌≡◌, refl,
  sym, ap, ◌∙◌, true, false, none, [], ◌++◌, Bytes, append_nil, length, All, subst, if◌then◌else◌,
}
use ferrum_kv.Prelude.Int.{pos}
use ferrum_kv.Error.{ok}
use ferrum_kv.Storage.Assoc.{get, Distinct}
use ferrum_kv.Storage.Entry.{Clock, ValueEntry, is_expired}
use ferrum_kv.Storage.Keyspace.{Keyspace}
use ferrum_kv.Storage.Engine.Guard.{deadline_to_epoch_ms}
use ferrum_kv.Storage.Engine.{Host, KvEngine}
use ferrum_kv.Storage.Engine.Refinement.{seen, view}
use ferrum_kv.Storage.Engine.Refinement.Unlimited.{Unlimited}
use ferrum_kv.Persistence.Replay.{replay_from_file}
use ferrum_kv.Persistence.Restore.{replay_from_file-encode_records}
use ferrum_kv.Persistence.Writer.{AofWriter}
use ferrum_kv.Persistence.Writer.Swap.{finish_rewrite}
use ferrum_kv.Persistence.Writer.NoLoss.{content, nothing, all_done, finish_rewrite-Writes}
use ferrum_kv.Persistence.Snapshot.{snapshot, serialise_compact_aof, perform_aof_rewrite}
use ferrum_kv.Persistence.Snapshot.Records.{
  records_of, serialise_compact_aof-encode_records, in_epoch, restored, IsValid, snapshot-Fits,
}
use ferrum_kv.Persistence.Snapshot.Leads.{snapshot-Leads}

-- Without an append in the meantime the log is the compact file.
perform_aof_rewrite-content :
    (m : ℕ) (s : Clock) (store : Keyspace) (w : AofWriter)
    → w.rewriting ≡ true
    → w.renamed ≡ none
    → w.delta ≡ []
    → content (perform_aof_rewrite (all_done m) true s store w)
      ≡ serialise_compact_aof (snapshot s store)
unfolding perform_aof_rewrite
perform_aof_rewrite-content m s store w y r d =
    let compact = serialise_compact_aof (snapshot s store) in
    let f = finish_rewrite-Writes m w w [] compact r d nothing in
    ap (λ b. content (if b then (finish_rewrite (all_done m) w compact).0 else w)) y
    ∙ f.content
    ∙ ap (λ b. (if b then compact else content w) ++ []) y
    ∙ append_nil compact

-- What a client sees after a restart at the clock `c` of what it saw at the clock `s`: the value, and a
-- deadline as far away from the clock of the day, in whole milliseconds that are rounded down, as it
-- was. A deadline that the clock of the day has reached takes the key away, and one that an i64 does not
-- hold is the largest.
abbrev pub after_restart : Clock → Clock → Option (Bytes × Option ℕ) → Option (Bytes × Option ℕ)
after_restart s c none = none
after_restart s c (some (v, none)) = some (v, none)
after_restart s c (some (v, some d)) =
    let ms = min (s.now_ms + (d - s.now) / 1_000_000) (2 ^ 63 - 1) in
    if leb ms c.now_ms then none else some (v, some (c.now + (ms - c.now_ms) * 1_000_000))

deadline_to_epoch_ms-ahead :
    (s : Clock) (d : ℕ)
    → leb d s.now ≡ false
    → deadline_to_epoch_ms s d ≡ some (pos (min (s.now_ms + (d - s.now) / 1_000_000) (2 ^ 63 - 1)))
unfolding deadline_to_epoch_ms
deadline_to_epoch_ms-ahead s d n = rw (deadline_to_epoch_ms, n) refl

seen-restored :
    (c s : Clock) (t : Option ℕ) (entry : ValueEntry)
    → entry.expire_at ≡ t
    → restored c (in_epoch s (seen entry s.now)) none ≡ after_restart s c (seen entry s.now)
unfolding is_expired
seen-restored c s none entry e = rw (is_expired, e) refl
seen-restored c s (some d) entry e = elim (Bool-cases (leb d s.now)) [
  | inl y ↦ rw (is_expired, e, y) refl
  | inr n ↦ rw (is_expired, e, n, deadline_to_epoch_ms-ahead s d n) refl
]

view-restored :
    (c s : Clock) (m : Keyspace) (j : Bytes)
    → restored c (in_epoch s (view m s.now j)) none ≡ after_restart s c (view m s.now j)
view-restored c s m j = elim (Option-cases (get j m)) [
  | inl p ↦ rw p refl
  | inr (entry, p) ↦ rw p (seen-restored c s entry.expire_at entry refl)
]

module _ {h : Host} where
  -- A keyspace that was saved at one clock and is replayed at another, on an empty engine without a
  -- memory limit, is seen as before: each key that was not expired has its value, and its deadline in
  -- whole milliseconds of the epoch, or is gone if that time is not after the clock. Every record is
  -- applied, and the file is left as it is. No key stands twice, and the keys and values are valid.
  pub replay_from_file-serialise_compact_aof :
      (c s : Clock) (m : Keyspace) (e : KvEngine h) (j : Bytes)
      → Distinct m
      → All IsValid m
      → e.store ≡ []
      → e.eviction.max_memory ≡ 0
      → let file = serialise_compact_aof (snapshot s m) in
        (view (replay_from_file c file e).0.store c.now j
          ≡ restored c (in_epoch s (view m s.now j)) none)
        × ((replay_from_file c file e).1 ≡ file)
        × ((replay_from_file c file e).2
            ≡ ok (record {
              applied = length (records_of (snapshot s m));
              skipped = 0;
              truncated_tail = false;
            }))
  replay_from_file-serialise_compact_aof c s m e j d v empty z =
      let u : Unlimited e = record {
        distinct = subst (λ x. Distinct x) (sym empty) tt;
        no_limit = z;
      } in
      let l = snapshot-Leads c s m e d v u in
      let file = serialise_compact_aof-encode_records (snapshot s m) in
      let r =
        replay_from_file-encode_records c (records_of (snapshot s m)) l.applied
          (snapshot-Fits s m v) in
      let t : view l.end.store c.now j ≡ restored c (in_epoch s (view m s.now j)) none =
        l.views j ∙ ap (λ x. restored c (in_epoch s (view m s.now j)) (view x c.now j)) empty in
      rw (file, r) (t, refl, refl)

  -- The log that a rewrite leaves, if its calls succeed and nothing is appended meanwhile, restores the
  -- keyspace: it is replayed at any clock on an empty engine without a memory limit, and each key that
  -- was not expired is seen with its value, and with a deadline that is as far from the clock of the day
  -- as it was, in whole milliseconds rounded down and at most the largest i64, or is gone if the clock of
  -- the day has reached it; no other key is there. The slot is claimed and the delta
  -- empty, the path names the log, no key stands twice, and the keys and values are valid.
  pub perform_aof_rewrite-restored :
      (n : ℕ) (c s : Clock) (m : Keyspace) (w : AofWriter) (e : KvEngine h) (j : Bytes)
      → w.rewriting ≡ true
      → w.renamed ≡ none
      → w.delta ≡ []
      → Distinct m
      → All IsValid m
      → e.store ≡ []
      → e.eviction.max_memory ≡ 0
      → view
          (replay_from_file c (content (perform_aof_rewrite (all_done n) true s m w)) e).0.store
          c.now
          j
        ≡ after_restart s c (view m s.now j)
  perform_aof_rewrite-restored n c s m w e j y r d distinct valid empty z =
      ap (λ file. view (replay_from_file c file e).0.store c.now j)
        (perform_aof_rewrite-content n s m w y r d)
      ∙ (replay_from_file-serialise_compact_aof c s m e j distinct valid empty z).0
      ∙ view-restored c s m j
