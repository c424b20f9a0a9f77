-- ===== src/Persistence/Writer/Grows.antt =====
-- What an append changes in the writer.
use ferrum_kv.Prelude.{
  ℕ, suc, ◌+◌, ◌%◌, ◌<◌, ◌≤◌, ◌^◌, ◌≡◌, refl, sym, ◌∙◌, subst, ◌++◌, Bytes, length, take, arith,
  length-append,
}
use ferrum_kv.Error.{FerrumError, Result, ok, err}
use ferrum_kv.Config.File.{always}
use ferrum_kv.Persistence.Writer.{
  AofWriter, Outcome, done, failed, hand_over, buffered, pushed, write_all, publish, mirror,
  and_then, write_bytes, flush,
}

-- A change of the writer that only appends, and that covers no batch.
pub record Grows (w w' : AofWriter) : Type 0 where
  pub policy : w'.policy ≡ w.policy
  pub seq : w.seq ≤ w'.seq
  pub file : length w.file ≤ length w'.file
  pub durable : w.durable ≤ w'.durable
  pub synced : w'.synced ≡ w.synced
  pub behind : w.durable ≤ length w.file → w'.durable ≤ length w'.file

pub same-Grows : (w : AofWriter) → Grows w w
same-Grows w = record {
  policy = refl;
  seq = omega arith;
  file = omega arith;
  durable = omega arith;
  synced = refl;
  behind = λ b. b;
}

then-Grows : {w w' w'' : AofWriter} → Grows w w' → Grows w' w'' → Grows w w''
then-Grows a b = record {
  policy = b.policy ∙ a.policy;
  seq = omega (arith, a.seq, b.seq);
  file = omega (arith, a.file, b.file);
  durable = omega (arith, a.durable, b.durable);
  synced = b.synced ∙ a.synced;
  behind = λ h. b.behind (a.behind h);
}

pub hand_over-Grows :
    (w : AofWriter) (moved : ℕ) (pending : Bytes) → Grows w (hand_over w moved pending)
hand_over-Grows w moved pending = record {
  policy = refl;
  seq = omega arith;
  file = omega (arith, length-append w.file (take moved pending));
  durable = omega arith;
  synced = refl;
  behind = λ h. omega (arith, h, length-append w.file (take moved pending));
}

buffered-Grows : (o : Outcome) (w : AofWriter) (bytes : Bytes) → Grows w (buffered o w bytes)
unfolding buffered
buffered-Grows (done moved) w bytes = hand_over-Grows w moved (w.buffer ++ bytes)
buffered-Grows (failed moved kept e) w bytes = hand_over-Grows w moved (w.buffer ++ take kept bytes)

pub pushed-Grows : (o : Outcome) (w : AofWriter) → Grows w (pushed o w)
unfolding pushed
pushed-Grows (done moved) w = hand_over-Grows w (length w.buffer) w.buffer
pushed-Grows (failed moved kept e) w = hand_over-Grows w moved w.buffer

mirror-Grows : (bytes : Bytes) (w : AofWriter) → Grows w (mirror bytes w)
unfolding mirror
mirror-Grows bytes w = record {
  policy = ground arith;
  seq = ground arith;
  file = ground arith;
  durable = ground arith;
  synced = ground arith;
  behind = λ h. ground (arith, h);
}

pub numbered-Grows :
    (w : AofWriter) → w.seq + 1 < 2 ^ 64 → Grows w (record w { seq = (w.seq + 1) % 2 ^ 64 })
numbered-Grows w l = record {
  policy = refl;
  seq = omega (arith, l);
  file = omega arith;
  durable = omega arith;
  synced = refl;
  behind = λ h. h;
}

-- `publish` under `always`.
numbered : AofWriter → AofWriter × Result (Unit {0})
numbered w = (record w { seq = (w.seq + 1) % 2 ^ 64 }, ok tt)

publish_always :
    (o : Outcome) (w : AofWriter) → w.policy ≡ always → publish o w ≡ and_then (flush o w) numbered
unfolding publish numbered
publish_always o w p = ground (arith, p)

publish-Grows :
    (o : Outcome) (w : AofWriter) → w.policy ≡ always → w.seq + 1 < 2 ^ 64 → Grows w (publish o w).0
unfolding flush numbered
publish-Grows o w p l = rw (publish_always o w p) (go o)
  where
    go : (o : Outcome) → Grows w (and_then (flush o w) numbered).0
    go (done moved) =
        then-Grows (pushed-Grows (done moved) w) (numbered-Grows (pushed (done moved) w) l)
    go (failed moved kept e) = pushed-Grows (failed moved kept e) w

mirrored-Grows :
    (bytes : Bytes) (w : AofWriter) (x : AofWriter × Result (Unit {0}))
    → Grows w x.0
    → Grows w (and_then x (λ w2. (mirror bytes w2, ok tt))).0
mirrored-Grows bytes w (w2, ok t) g = then-Grows g (mirror-Grows bytes w2)
mirrored-Grows bytes w (w2, err e) g = g

pub write_bytes-Grows :
    (wrote push : Outcome) (w : AofWriter) (bytes : Bytes)
    → w.policy ≡ always
    → w.seq + 1 < 2 ^ 64
    → Grows w (write_bytes wrote push w bytes).0
unfolding write_bytes write_all
write_bytes-Grows (failed moved kept e) push w bytes p l =
    buffered-Grows (failed moved kept e) w bytes
write_bytes-Grows (done moved) push w bytes p l =
    let w1 = buffered (done moved) w bytes in
    let g = buffered-Grows (done moved) w bytes in
    mirrored-Grows bytes w (publish push w1) (then-Grows g (publish-Grows push w1 (g.policy ∙ p) l))

-- An append that succeeds, and its number.
pub record Numbered (n : ℕ) (x : AofWriter × Result (Unit {0})) : Type 0 where
  pub number : (w' : AofWriter) → x ≡ (w', ok tt) → w'.seq ≡ n

refused-Numbered : (n : ℕ) (w : AofWriter) (e : FerrumError) → Numbered n (w, err e)
refused-Numbered n w e = record { number = λ w' h. cc h }

mirrored-Numbered :
    (n : ℕ) (bytes : Bytes) (w : AofWriter) → w.seq ≡ n → Numbered n (mirror bytes w, ok tt)
unfolding mirror
mirrored-Numbered n bytes w h = record { number = λ w' q. ground (arith, h, q) }

pushed-Numbered :
    (push : Outcome) (w : AofWriter) (bytes : Bytes)
    → w.seq + 1 < 2 ^ 64
    → Numbered
        (suc w.seq)
        (and_then (and_then (flush push w) numbered) (λ w2. (mirror bytes w2, ok tt)))
unfolding flush numbered pushed
pushed-Numbered (done moved) w bytes l = mirrored-Numbered (suc w.seq) bytes _ (omega (arith, l))
pushed-Numbered (failed moved kept e) w bytes l = refused-Numbered (suc w.seq) _ _

pub write_bytes-Numbered :
    (wrote push : Outcome) (w : AofWriter) (bytes : Bytes)
    → w.policy ≡ always
    → w.seq + 1 < 2 ^ 64
    → Numbered (suc w.seq) (write_bytes wrote push w bytes)
unfolding write_bytes write_all buffered
write_bytes-Numbered (failed moved kept e) push w bytes p l = refused-Numbered (suc w.seq) _ _
write_bytes-Numbered (done moved) push w bytes p l =
    let w1 = hand_over w moved (w.buffer ++ bytes) in
    subst (λ x. Numbered (suc w.seq) (and_then x (λ w2. (mirror bytes w2, ok tt))))
      (sym (publish_always push w1 p)) (pushed-Numbered push w1 bytes l)
