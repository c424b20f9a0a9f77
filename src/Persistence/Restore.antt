-- ===== src/Persistence/Restore.antt =====
-- The replay of a log of whole records, and of what may stand behind them.
use ferrum_kv.Prelude.{
  ℕ, zero, suc, ◌+◌, ◌-◌, ◌^◌, ◌≤◌, ◌<◌, ◌≡◌, refl, ap, ◌∙◌, sym, true, false, ◌==◌, none, some,
  List, [], ◌∷◌, ◌++◌, arith, Bytes, length, length-append, append_assoc, append_nil,
  take-length-append, All,
}
use ferrum_kv.Error.{ok}
use ferrum_kv.Protocol.Frame.{encode_command}
use ferrum_kv.Storage.Entry.{Clock}
use ferrum_kv.Storage.Engine.{Host, KvEngine}
use ferrum_kv.Persistence.Reader.{read_record}
use ferrum_kv.Persistence.Cut.{MeetsEof, read_record-Cut, Cut-MeetsEof, left, is_done}
use ferrum_kv.Persistence.Replay.{
  Replayed, apply_record, after_apply, replay_loop, finish_replay, replay_from_file,
}
use ferrum_kv.Persistence.RoundTrip.{Reads, FitLengths, read_record-encode_command}

-- The log of a sequence of records.
abbrev pub encode_records : List (List Bytes) → Bytes
encode_records [] = []
encode_records (parts ∷ recs) = encode_command parts ++ encode_records recs

abbrev pub Fits : List Bytes → Type 0
Fits parts = (length parts < 2 ^ 63) × FitLengths parts

-- A record that lacks its end, but not its beginning, meets the end of the file.
torn_record :
    (parts : List Bytes) (b : ℕ) (tail missing : Bytes)
    → Fits parts
    → b ∷ (tail ++ missing) ≡ encode_command parts
    → 0 < length missing
    → MeetsEof (read_record (b ∷ tail)) 1
torn_record parts b tail missing f q l =
    let (n, p) = read_record-encode_command parts [] f.0 f.1 in
    let whole = ap read_record (q ∙ sym (append_nil (encode_command parts))) ∙ p in
    Cut-MeetsEof (read_record-Cut b tail missing) (ap is_done whole) (ap left whole) l

record_bytes : (recs : List (List Bytes)) → length recs ≤ length (encode_records recs)
unfolding encode_command
record_bytes [] = omega arith
record_bytes (parts ∷ recs) =
    ground (arith, length-append (encode_command parts) (encode_records recs), record_bytes recs)

module _ {h : Host} where
  -- The engine takes the records one after the other, none of them with an error.
  pub data Applies (c : Clock) : KvEngine h → List (List Bytes) → KvEngine h → Type 0 where
    all_applied : {e : KvEngine h} → Applies c e [] e
    next_applied :
        {e e1 e2 : KvEngine h} {parts : List Bytes} {recs : List (List Bytes)}
        → apply_record c e parts ≡ (e1, none)
        → Applies c e1 recs e2
        → Applies c e (parts ∷ recs) e2

  -- The loop with `applied` good records behind it, and `left` bytes before it.
  abbrev pub clean : KvEngine h → ℕ → ℕ → Replayed h
  clean e applied last_good = record {
    engine = e;
    stats = record { applied = applied; skipped = 0; truncated_tail = false };
    last_good = last_good;
  }

  after_apply_step :
      (c : Clock) (a g position : ℕ) (e e1 : KvEngine h) (parts : List Bytes)
      → apply_record c e parts ≡ (e1, none)
      → after_apply (clean e a g) position (apply_record c e parts)
        ≡ (clean e1 (a + 1) position, none)
  unfolding after_apply
  after_apply_step c a g position e e1 parts q = ap (after_apply (clean e a g) position) q

  replay_loop_step :
      (c : Clock) (n size a g : ℕ) (e e1 : KvEngine h) (parts : List Bytes) (buf rest : Bytes)
      → Reads (read_record buf) (some parts) rest
      → apply_record c e parts ≡ (e1, none)
      → replay_loop c (suc n) size buf (clean e a g)
        ≡ replay_loop c n size rest (clean e1 (a + 1) (size - length rest))
  unfolding replay_loop
  replay_loop_step c n size a g e e1 parts buf rest (k, p) q =
      let step = after_apply_step c a g (size - length rest) e e1 parts q in
      rw (replay_loop, p, step) (ap (λ x. replay_loop c n size rest x.0) step)

  -- Whole records are applied one after the other, and the loop goes on behind them.
  replay_loop-encode_records :
      (c : Clock) (k n size a b g : ℕ) {e e1 : KvEngine h} {recs : List (List Bytes)} (tail : Bytes)
      → Applies c e recs e1
      → All Fits recs
      → k ≡ length recs + n
      → b ≡ a + length recs
      → g ≡ size - length (encode_records recs ++ tail)
      → replay_loop c k size (encode_records recs ++ tail) (clean e a g)
        ≡ replay_loop c n size tail (clean e1 b (size - length tail))
  replay_loop-encode_records c k n size a b g tail (all_applied {e = e}) f x y q =
      let fuel : k ≡ n = omega arith in let count : a ≡ b = omega arith in rw (fuel, count, q) refl
  replay_loop-encode_records c zero n size a b g tail
        (next_applied {e = e} {e1 = e1} {e2 = e2} {parts = parts} {recs = recs} p ps) f x y q =
      ground arith
  replay_loop-encode_records c (suc k) n size a b g tail
        (next_applied {e = e} {e1 = e1} {e2 = e2} {parts = parts} {recs = recs} p ps) f x y q =
      rw (append_assoc (encode_command parts) (encode_records recs) tail) (
        replay_loop_step c k size a g e e1 parts
          (encode_command parts ++ (encode_records recs ++ tail)) (encode_records recs ++ tail)
          (read_record-encode_command parts (encode_records recs ++ tail) f.0.0 f.0.1) p
        ∙ replay_loop-encode_records c k n size (a + 1) b _ tail ps f.1 (omega arith) (omega arith)
            refl)

  -- The loop over whole records comes to what stands behind them with fuel left.
  pub replay_loop_tail :
      (c : Clock) {e e1 : KvEngine h} (recs : List (List Bytes)) (tail : Bytes)
      → Applies c e recs e1
      → All Fits recs
      → let file = encode_records recs ++ tail in
        (n : ℕ) × (replay_loop c (length file + 1) (length file) file (clean e 0 0)
          ≡ replay_loop c
              (suc n)
              (length file)
              tail
              (clean e1 (length recs) (length (encode_records recs))))
  replay_loop_tail c {e = e} {e1 = e1} recs tail p f =
      let file = encode_records recs ++ tail in
      let n = length file - length recs in
      let split = length-append (encode_records recs) tail in
      let enough = record_bytes recs in
      (
        n,
        replay_loop-encode_records c (length file + 1) (suc n) (length file) 0 (length recs) 0 tail
              p f (omega arith) (omega arith) (omega arith)
            ∙ ap (λ k. replay_loop c (suc n) (length file) tail (clean e1 (length recs) k))
                (omega arith),
      )

  replay_from_file_tail :
      (c : Clock) {e e1 : KvEngine h} (recs : List (List Bytes)) (tail file : Bytes)
      → Applies c e recs e1
      → All Fits recs
      → file ≡ encode_records recs ++ tail
      → (n : ℕ) × (replay_from_file c file e
          ≡ finish_replay file (
              replay_loop c
                (suc n)
                (length file)
                tail
                (clean e1 (length recs) (length (encode_records recs)))))
  unfolding replay_from_file
  replay_from_file_tail c recs tail file p f q =
      let (n, r) = replay_loop_tail c recs tail p f in
      (n, rw q (ap (finish_replay (encode_records recs ++ tail)) r))

  -- The replay of a log of whole records, with lengths of an i64, that the engine takes without an
  -- error leaves the engine that took them, counts them all, skips none and leaves the file as it is.
  pub replay_from_file-encode_records :
      (c : Clock) {e e1 : KvEngine h} (recs : List (List Bytes))
      → Applies c e recs e1
      → All Fits recs
      → replay_from_file c (encode_records recs) e ≡ (
        e1,
        encode_records recs,
        ok (record { applied = length recs; skipped = 0; truncated_tail = false }),
      )
  unfolding finish_replay replay_loop read_record
  replay_from_file-encode_records c recs p f =
      let (n, q) =
        replay_from_file_tail c recs [] (encode_records recs) p f
          (sym (append_nil (encode_records recs))) in
      q

  -- The same with the beginning of one more record behind the whole ones: the engine is the one that
  -- took the whole records, a torn tail is reported, and the file is cut to the whole records.
  pub replay_from_file-torn :
      (c : Clock) {e e1 : KvEngine h} (recs : List (List Bytes)) (parts : List Bytes) (b : ℕ)
      (tail missing : Bytes)
      → Applies c e recs e1
      → All Fits recs
      → Fits parts
      → b ∷ (tail ++ missing) ≡ encode_command parts
      → 0 < length missing
      → replay_from_file c (encode_records recs ++ b ∷ tail) e ≡ (
        e1,
        encode_records recs,
        ok (record { applied = length recs; skipped = 0; truncated_tail = true }),
      )
  unfolding finish_replay replay_loop
  replay_from_file-torn c {e1 = e1} recs parts b tail missing p fs f q l =
      let file = encode_records recs ++ b ∷ tail in
      let (n, r) = replay_from_file_tail c recs (b ∷ tail) file p fs refl in
      let (cur, met, some_read) = torn_record parts b tail missing f q l in
      let counted : (cur.consumed == 0) ≡ false = ground (arith, some_read) in
      r
      ∙ rw (replay_loop, met, counted)
          (ap
            (λ log.
              (e1, log, ok (record { applied = length recs; skipped = 0; truncated_tail = true })))
            (take-length-append (encode_records recs) (b ∷ tail)))
