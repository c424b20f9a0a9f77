-- ===== src/Persistence/Snapshot/Entries.antt =====
-- The replay of the records of one entry of a compact file.
use ferrum_kv.Prelude.{
  ℕ, ◌^◌, ◌<◌, ◌≡◌, refl, sym, ◌∙◌, Option, none, some, List, [], ◌∷◌, Bytes, bytes_eq,
  bytes_eq_refl, Bool-cases, inl, inr, subst, if◌then◌else◌,
}
use ferrum_kv.Prelude.Int.{ℤ, pos}
use ferrum_kv.Prelude.Decimal.{print_int}
use ferrum_kv.Error.{ok, ◌>>◌}
use ferrum_kv.Protocol.Text.{ascii_uppercase}
use ferrum_kv.Protocol.RoundTrip.{digits-is_utf8, parse_i64-print_nat}
use ferrum_kv.Storage.Entry.{Clock}
use ferrum_kv.Storage.Engine.{Host, KvEngine}
use ferrum_kv.Storage.Engine.Guard.{set_record, pexpireat_record, validate_key, validate_value}
use ferrum_kv.Storage.Engine.Commands.{set, expire_at_ms}
use ferrum_kv.Storage.Engine.Refinement.{view}
use ferrum_kv.Storage.Engine.Refinement.Updates.{set-view}
use ferrum_kv.Storage.Engine.Refinement.Deadlines.{expire_at_ms-view}
use ferrum_kv.Storage.Engine.Refinement.Unlimited.{Unlimited, set-Unlimited, expire_at_ms-Unlimited}
use ferrum_kv.Persistence.Replay.{apply_record}
use ferrum_kv.Persistence.Restore.{Applies, all_applied, next_applied}
use ferrum_kv.Persistence.Snapshot.Records.{entry_records, restored, IsTime}

-- One key alone.
abbrev pub only : Bytes → Bytes × Option ℤ → Bytes → Option (Bytes × Option ℤ)
only k x j = if bytes_eq k j then some x else none

module _ {h : Host} where
  apply_record-set :
      (c : Clock) (e : KvEngine h) (k v : Bytes)
      → e.eviction.max_memory ≡ 0
      → (validate_key k >> validate_value v) ≡ ok tt
      → apply_record c e (set_record k v) ≡ ((set c e k v).0, none)
  unfolding apply_record bytes_eq ascii_uppercase
  apply_record-set c e k v z valid = rw (apply_record, (set-view c e k v k z valid).0) refl

  apply_record-pexpireat :
      (c : Clock) (e : KvEngine h) (k : Bytes) (n : ℕ)
      → n < 2 ^ 63
      → apply_record c e (pexpireat_record k (pos n)) ≡ ((expire_at_ms c e k (pos n)).0, none)
  unfolding apply_record bytes_eq ascii_uppercase print_int
  apply_record-pexpireat c e k n l =
      rw (apply_record, digits-is_utf8 n, parse_i64-print_nat n l) refl

  -- The engine takes the records, and a client sees what `x` tells on top of what it saw.
  pub record Leads (c : Clock) (e : KvEngine h) (recs : List (List Bytes))
      (x : Bytes → Option (Bytes × Option ℤ)) : Type 0 where
    pub end : KvEngine h
    pub applied : Applies c e recs end
    pub unlimited : Unlimited end
    pub views : (j : Bytes) → view end.store c.now j ≡ restored c (x j) (view e.store c.now j)

  set-Leads :
      (c : Clock) (e : KvEngine h) (k v : Bytes)
      → Unlimited e
      → (validate_key k >> validate_value v) ≡ ok tt
      → Leads c e (set_record k v ∷ []) (only k (v, none))
  set-Leads c e k v u valid = record {
    end = (set c e k v).0;
    applied = next_applied (apply_record-set c e k v u.no_limit valid) all_applied;
    unlimited = set-Unlimited c e k v valid u;
    views = λ j.
        (set-view c e k v j u.no_limit valid).1
        ∙ elim (Bool-cases (bytes_eq k j)) [ inl y ↦ rw y refl | inr n ↦ rw n refl ];
  }

  timed_views :
      (c : Clock) (e : KvEngine h) (k v j : Bytes) (ms : ℤ)
      → Unlimited e
      → (validate_key k >> validate_value v) ≡ ok tt
      → view (expire_at_ms c (set c e k v).0 k ms).0.store c.now j
        ≡ restored c (only k (v, some ms) j) (view e.store c.now j)
  timed_views c e k v j ms u valid =
      let saved = set-view c e k v k u.no_limit valid in
      let other = set-view c e k v j u.no_limit valid in
      let v1 : view (set c e k v).0.store c.now k ≡ some (v, none) =
        rw (saved.1, bytes_eq_refl k) refl in
      let u1 = set-Unlimited c e k v valid u in
      (expire_at_ms-view c (set c e k v).0 k j ms u1.distinct).1
      ∙ elim (Bool-cases (bytes_eq k j)) [
        | inl y ↦ rw (y, v1) refl
        | inr n ↦ rw (n, other.1, n) refl
      ]

  pub entry-Leads :
      (c : Clock) (e : KvEngine h) (k v : Bytes) (ttl : Option ℤ)
      → Unlimited e
      → (validate_key k >> validate_value v) ≡ ok tt
      → IsTime ttl
      → Leads c e (entry_records k v ttl) (only k (v, ttl))
  entry-Leads c e k v none u valid t = set-Leads c e k v u valid
  entry-Leads c e k v (some ms) u valid (n, p, l) =
      let e1 = (set c e k v).0 in
      let first = apply_record-set c e k v u.no_limit valid in
      let second : apply_record c e1 (pexpireat_record k ms) ≡ ((expire_at_ms c e1 k ms).0, none) =
        subst (λ z. apply_record c e1 (pexpireat_record k z) ≡ ((expire_at_ms c e1 k z).0, none))
          (sym p) (apply_record-pexpireat c e1 k n l) in
      record {
        end = (expire_at_ms c e1 k ms).0;
        applied = next_applied first (next_applied second all_applied);
        unlimited = expire_at_ms-Unlimited c e1 k ms (set-Unlimited c e k v valid u);
        views = λ j. timed_views c e k v j ms u valid;
      }
