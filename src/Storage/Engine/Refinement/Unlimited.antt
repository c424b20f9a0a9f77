-- ===== src/Storage/Engine/Refinement/Unlimited.antt =====
-- An engine without a memory limit keeps its keys distinct and stays without one.
use ferrum_kv.Prelude.{
  ◌≡◌, sym, ap, ◌∙◌, leb, arith, Bytes, Option-cases, Bool-cases, inl, inr, subst,
}
use ferrum_kv.Prelude.Int.{ℤ, pos_part}
use ferrum_kv.Error.{ok, ◌>>◌}
use ferrum_kv.Storage.Assoc.{Distinct}
use ferrum_kv.Storage.Assoc.Laws.{insert-Distinct, remove-Distinct}
use ferrum_kv.Storage.Entry.{Clock, new}
use ferrum_kv.Storage.Engine.{Host, KvEngine}
use ferrum_kv.Storage.Engine.Track.{
  track_insert, track_remove, append, sieve_notify_insert, ac_notify_insert, sieve_notify_remove,
  ac_notify_remove, apply_delta,
}
use ferrum_kv.Storage.Engine.Evict.{enforce_for_write, enforce_memory_limit}
use ferrum_kv.Storage.Engine.Guard.{
  WriteGuard, begin, release, log, put, take_out, drop_expired, make_room, validate_key,
  validate_value,
}
use ferrum_kv.Storage.Engine.Guard.Writes
use ferrum_kv.Storage.Engine.Guard.Expiry.{expire_at, drop_if_expired, expire_present, set_deadline}
use ferrum_kv.Storage.Engine.Commands.{set, expire_at_ms}
use ferrum_kv.Storage.Engine.Behaviour.{release_store}
use ferrum_kv.Storage.Engine.Refinement.Deadlines.{
  drop_if_expired-Lookup, Lookup-Distinct, set_deadline_store, take_out_logged,
}
use ferrum_kv.Storage.Engine.Refinement.Updates.{insert_free}

pub record Unlimited {h : Host} (e : KvEngine h) : Type 0 where
  pub distinct : Distinct e.store
  pub no_limit : e.eviction.max_memory ≡ 0

module _ {h : Host} where
  release_eviction : (g : WriteGuard h) → (release g).eviction ≡ g.engine.eviction
  unfolding release
  release_eviction g = ground arith

  insert_eviction :
      (g : WriteGuard h) (k v : Bytes)
      → g.engine.eviction.max_memory ≡ 0
      → (Writes.insert g k v).0.engine.eviction.max_memory ≡ 0
  unfolding Writes.insert put track_insert make_room enforce_for_write enforce_memory_limit log
      append sieve_notify_insert ac_notify_insert apply_delta
  insert_eviction g k v z = ground arith

  pub set-Unlimited :
      (c : Clock) (e : KvEngine h) (k v : Bytes)
      → (validate_key k >> validate_value v) ≡ ok tt
      → Unlimited e
      → Unlimited (set c e k v).0
  unfolding set begin
  set-Unlimited c e k v valid u =
      let s =
        release_store (Writes.insert (begin e c) k v).0
        ∙ (insert_free (begin e c) k v u.no_limit valid).0 in
      record {
        distinct = subst (λ m. Distinct m) (sym s) (insert-Distinct k (new c v) e.store u.distinct);
        no_limit =
            ap (λ x. x.max_memory) (release_eviction (Writes.insert (begin e c) k v).0)
            ∙ insert_eviction (begin e c) k v u.no_limit;
      }

  expire_at_eviction :
      (g : WriteGuard h) (k : Bytes) (ms : ℤ)
      → (expire_at g k ms).0.engine.eviction ≡ g.engine.eviction
  unfolding expire_at drop_if_expired drop_expired take_out track_remove expire_present set_deadline
      log append sieve_notify_insert ac_notify_insert sieve_notify_remove ac_notify_remove
      apply_delta
  expire_at_eviction g k ms = ground arith

  expire_at-Distinct :
      (g : WriteGuard h) (k : Bytes) (ms : ℤ)
      → Distinct g.engine.store
      → Distinct (expire_at g k ms).0.engine.store
  unfolding expire_at expire_present
  expire_at-Distinct g k ms d =
      let (o, look, at) = drop_if_expired-Lookup g k in
      let g1 = drop_if_expired g k in
      let d1 = Lookup-Distinct look d in
      elim (Option-cases o) [
        | inl q ↦ rw (expire_at, at d ∙ q) d1
        | inr (v, q) ↦ elim (Bool-cases (leb (pos_part ms) g.clock.now_ms)) [
          | inl past ↦
              rw (expire_at, at d ∙ q, past)
                (subst (λ m. Distinct m) (sym (take_out_logged g1 k))
                  (remove-Distinct k g1.engine.store d1))
          | inr later ↦
              rw (expire_at, at d ∙ q, later)
                (subst (λ m. Distinct m) (sym (set_deadline_store g1 k v ms))
                  (insert-Distinct k _ g1.engine.store d1))
        ]
      ]

  pub expire_at_ms-Unlimited :
      (c : Clock) (e : KvEngine h) (k : Bytes) (ms : ℤ)
      → Unlimited e
      → Unlimited (expire_at_ms c e k ms).0
  unfolding expire_at_ms begin
  expire_at_ms-Unlimited c e k ms u =
      let g = (expire_at (begin e c) k ms).0 in
      record {
        distinct =
            subst (λ m. Distinct m) (sym (release_store g))
              (expire_at-Distinct (begin e c) k ms u.distinct);
        no_limit =
            ap (λ x. x.max_memory) (release_eviction g ∙ expire_at_eviction (begin e c) k ms)
            ∙ u.no_limit;
      }
