-- ===== src/Storage/Engine/Settings.antt =====
-- The settings of `KvEngine`: `set_eviction_config`, the password and the slow log.
use ferrum_kv.Prelude.{
  ℕ, ◌-◌, ◌*◌, Bool, true, false, ltb, ◌==◌, max, Option, none, some, List, [], ◌∷◌, ◌++◌, Bytes,
  codes, length, take, drop, if◌then◌else◌,
}
use Prim.Native.Nat.{bit_xor, bit_or}
use ferrum_kv.Prelude.Int.{pos, negsuc}
use ferrum_kv.Error.{parse_error, Result, ok, err}
use ferrum_kv.Storage.Policy.{
  EvictionConfig, k_none, scope, index_kind, same_kind, kind_is_sieve, kind_is_ac,
}
use ferrum_kv.Storage.Sieve
use ferrum_kv.Storage.AdaptiveClimb
use ferrum_kv.Storage.Engine.{Host, KvEngine, SlowLogEntry, per_index_entry_bytes, bump}

-- `diff |= x ^ y` over the pairs of bytes.
unfoldable pub difference : ℕ → Bytes → Bytes → ℕ
difference diff [] bs = diff
difference diff (a ∷ as') [] = diff
difference diff (a ∷ as') (b ∷ bs) = difference (bit_or diff (bit_xor a b)) as' bs

unfoldable pub constant_time_eq : Bytes → Bytes → Bool
unfolding difference
constant_time_eq a b = if length a == length b then difference 0 a b == 0 else false

-- The entries that the trimming loop leaves: the newest.
abbrev pub trim : ℕ → List SlowLogEntry → List SlowLogEntry
trim max_len ring = drop (length ring - max max_len 1) ring

abbrev pub reverse_onto : List SlowLogEntry → List SlowLogEntry → List SlowLogEntry
reverse_onto [] ys = ys
reverse_onto (x ∷ xs) ys = reverse_onto xs (x ∷ ys)

module _ {h : Host} where
  -- A change of the index kind rebuilds the new index from the keyspace and clears the other.
  unfoldable pub switch_index : KvEngine h → EvictionConfig → KvEngine h
  switch_index e cfg =
      let kind = index_kind cfg.policy in
      record e {
        sieve =
            if kind_is_sieve kind
            then Sieve.rebuild h.sieve_map e.sieve e.store (scope cfg.policy)
            else Sieve.clear h.sieve_map e.sieve;
        ac =
            if kind_is_ac kind
            then AdaptiveClimb.rebuild h.climb_map e.ac e.store (scope cfg.policy)
            else AdaptiveClimb.clear h.climb_map e.ac;
        index_kind = kind;
      }

  unfoldable pub set_eviction_config : KvEngine h → EvictionConfig → KvEngine h
  unfolding switch_index
  set_eviction_config e cfg =
      if same_kind (index_kind cfg.policy) e.index_kind
      then record e { eviction = cfg }
      else record (switch_index e cfg) { eviction = cfg }

  unfoldable pub policy_index_memory : KvEngine h → ℕ
  policy_index_memory e =
      if same_kind e.index_kind k_none then 0 else length e.store * per_index_entry_bytes

  unfoldable pub set_requirepass : KvEngine h → Option Bytes → KvEngine h
  set_requirepass e pw =
      let kept : Option Bytes = elim pw [
        | none ↦ none
        | some p ↦ if length p == 0 then none else some p
      ] in
      record e { auth_password = kept; auth_required = elim kept [ none ↦ false | some _ ↦ true ] }

  unfoldable pub authenticate : KvEngine h → Bytes → Result Bool
  unfolding constant_time_eq
  authenticate e provided = elim e.auth_password [
    | none ↦ err (parse_error (codes "Client sent AUTH, but no password is set"))
    | some expected ↦ ok (constant_time_eq provided expected)
  ]

  unfoldable pub slowlog_would_log : KvEngine h → ℕ → Bool
  slowlog_would_log e duration_us = elim e.slowlog_slower_than_us [
    | pos n ↦ if n == 0 then false else ltb n duration_us
    | negsuc n ↦ true
  ]

  unfoldable pub slowlog_armed : KvEngine h → Bool
  slowlog_armed e = elim e.slowlog_slower_than_us [ pos n ↦ ltb 0 n | negsuc n ↦ true ]

  unfoldable pub maybe_push_slowlog : KvEngine h → ℕ → List Bytes → ℕ → ℕ → KvEngine h
  unfolding slowlog_would_log
  maybe_push_slowlog e ts_secs args peer duration_us =
      let entry : SlowLogEntry = record {
        id = bump e.slowlog_seq;
        ts_secs = ts_secs;
        duration_us = duration_us;
        args = args;
        peer = peer;
      } in
      let logs = slowlog_would_log e duration_us in
      record e {
        slowlog_seq = if logs then bump e.slowlog_seq else e.slowlog_seq;
        slowlog = if logs then trim e.slowlog_max_len (e.slowlog ++ entry ∷ []) else e.slowlog;
      }

  unfoldable pub slowlog_get : KvEngine h → Option ℕ → List SlowLogEntry
  slowlog_get e count =
      let entries = reverse_onto e.slowlog [] in
      elim count [ none ↦ entries | some n ↦ take n entries ]

  unfoldable pub slowlog_reset : KvEngine h → KvEngine h
  slowlog_reset e = record e { slowlog = [] }
