-- ===== src/Persistence/Snapshot/Leads.antt =====
-- The replay of the records of a whole snapshot.
use ferrum_kv.Prelude.{
  ℕ, ◌≡◌, refl, sym, ap, ◌∙◌, true, false, Option, none, List, [], ◌∷◌, ◌++◌, Bytes, All, bytes_eq,
  bytes_eq_iff, Bool-cases, inl, inr,
}
use ferrum_kv.Storage.Assoc.{get, Distinct}
use ferrum_kv.Storage.Entry.{Clock, ValueEntry, is_expired}
use ferrum_kv.Storage.Keyspace.{Keyspace}
use ferrum_kv.Storage.Engine.{Host, KvEngine}
use ferrum_kv.Storage.Engine.Refinement.{view}
use ferrum_kv.Storage.Engine.Refinement.Unlimited.{Unlimited}
use ferrum_kv.Persistence.Restore.{Applies, all_applied, next_applied}
use ferrum_kv.Persistence.Snapshot.{ttl_of_deadline, snapshot}
use ferrum_kv.Persistence.Snapshot.Records.{
  entry_records, records_of, in_epoch, restored, ttl_of_deadline-IsTime, IsValid,
}
use ferrum_kv.Persistence.Snapshot.Entries.{only, Leads, entry-Leads}

Applies-append :
    {h : Host} {c : Clock} {e e1 e2 : KvEngine h} {xs ys : List (List Bytes)}
    → Applies c e xs e1
    → Applies c e1 ys e2
    → Applies c e (xs ++ ys) e2
Applies-append all_applied q = q
Applies-append (next_applied r p) q = next_applied r (Applies-append p q)

-- An entry on top of a keyspace without its key.
layered :
    (c s : Clock) (m : Keyspace) (k j : Bytes) (entry : ValueEntry)
    (old : Option (Bytes × Option ℕ))
    → get k m ≡ none
    → is_expired entry s.now ≡ false
    → restored c
        (in_epoch s (view m s.now j))
        (restored c (only k (entry.payload, ttl_of_deadline s entry.expire_at) j) old)
      ≡ restored c (in_epoch s (view ((k, entry) ∷ m) s.now j)) old
layered c s m k j entry old gone live = elim (Bool-cases (bytes_eq k j)) [
  | inl y ↦
      let same : k ≡ j = (bytes_eq_iff k j).0 y in
      let away : get j m ≡ none = ap (λ i. get i m) (sym same) ∙ gone in rw (y, away, live) refl
  | inr n ↦ rw n refl
]

dropped :
    (m : Keyspace) (now : ℕ) (k j : Bytes) (entry : ValueEntry)
    → get k m ≡ none
    → is_expired entry now ≡ true
    → view m now j ≡ view ((k, entry) ∷ m) now j
dropped m now k j entry gone over = elim (Bool-cases (bytes_eq k j)) [
  | inl y ↦
      let same : k ≡ j = (bytes_eq_iff k j).0 y in
      let away : get j m ≡ none = ap (λ i. get i m) (sym same) ∙ gone in rw (y, away, over) refl
  | inr n ↦ rw n refl
]

module _ {h : Host} where
  -- The records of a live entry, and then the others.
  live-Leads :
      (c s : Clock) (m : Keyspace) (k : Bytes) (entry : ValueEntry) (e : KvEngine h)
      (recs : List (List Bytes))
      (l : Leads c e
        (entry_records k entry.payload (ttl_of_deadline s entry.expire_at))
        (only k (entry.payload, ttl_of_deadline s entry.expire_at)))
      → get k m ≡ none
      → is_expired entry s.now ≡ false
      → Leads c l.end recs (λ j. in_epoch s (view m s.now j))
      → Leads c e
          (entry_records k entry.payload (ttl_of_deadline s entry.expire_at) ++ recs)
          (λ j. in_epoch s (view ((k, entry) ∷ m) s.now j))
  live-Leads c s m k entry e recs l gone live r = record {
    end = r.end;
    applied = Applies-append l.applied r.applied;
    unlimited = r.unlimited;
    views = λ j.
        r.views j
        ∙ ap (restored c (in_epoch s (view m s.now j))) (l.views j)
        ∙ layered c s m k j entry (view e.store c.now j) gone live;
  }

  pub snapshot-Leads :
      (c s : Clock) (m : Keyspace) (e : KvEngine h)
      → Distinct m
      → All IsValid m
      → Unlimited e
      → Leads c e (records_of (snapshot s m)) (λ j. in_epoch s (view m s.now j))
  unfolding snapshot
  snapshot-Leads c s [] e d v u = record {
    end = e;
    applied = all_applied;
    unlimited = u;
    views = λ j. refl;
  }
  snapshot-Leads c s ((k, entry) ∷ m) e d v u = elim (Bool-cases (is_expired entry s.now)) [
    | inl over ↦
        let r = snapshot-Leads c s m e d.1 v.1 u in
        rw (snapshot, over)
          (record {
            end = r.end;
            applied = r.applied;
            unlimited = r.unlimited;
            views = λ j.
                r.views j
                ∙ ap (λ x. restored c (in_epoch s x) (view e.store c.now j))
                    (dropped m s.now k j entry d.0 over);
          })
    | inr live ↦
        let l =
          entry-Leads c e k entry.payload (ttl_of_deadline s entry.expire_at) u v.0
            (ttl_of_deadline-IsTime s entry.expire_at) in
        rw (snapshot, live)
          (live-Leads c s m k entry e (records_of (snapshot s m)) l d.0 live
            (snapshot-Leads c s m l.end d.1 v.1 l.unlimited))
  ]
