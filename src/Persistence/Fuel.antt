-- ===== src/Persistence/Fuel.antt =====
-- The reader of the replay moves on with every record, so that the loop ends.
use ferrum_kv.Prelude.{
  ℕ, zero, suc, ◌+◌, ◌-◌, ◌≤◌, ◌<◌, ◌≡◌, refl, ap, Bool, true, false, ltb, ◌==◌, some, [], ◌∷◌,
  arith, Bytes, length, drop, Bool-cases, Option-cases, ◌⊎◌, inl, inr, if◌then◌else◌,
}
use ferrum_kv.Prelude.Int.{ℤ, pos, negsuc}
use ferrum_kv.Prelude.Decimal.{parse_i64}
use ferrum_kv.Protocol.Text.{is_utf8}
use ferrum_kv.Storage.Entry.{Clock}
use ferrum_kv.Storage.Engine.{Host}
use ferrum_kv.Persistence.Reader.{
  Cursor, Read, done, unexpected_eof, malformed, and_then, expect_byte, read_exact_tracked,
  read_number, read_lf, decode_number, read_integer, read_terminator, read_bulk_payload, read_part,
  read_elements, read_array, read_record, resync_to_next_array,
}
use ferrum_kv.Persistence.Cut.{left}
use ferrum_kv.Persistence.Replay.{Replayed, apply_record, after_apply, replay_loop}

-- No more is left than there was.
abbrev IsShrinking : {A : Type 0} → (Cursor → Read A) → Type 0
IsShrinking f = (c : Cursor) → length (left (f c)) ≤ length c.rest

and_then-left :
    {A B : Type 0} (m : Read A) (g : A → Cursor → Read B) (k : ℕ)
    → length (left m) ≤ k
    → ((v : A) → IsShrinking (g v))
    → length (left (and_then m g)) ≤ k
and_then-left (done v c) g k l h = omega (arith, l, h v c)
and_then-left (unexpected_eof c) g k l h = l
and_then-left (malformed c) g k l h = l

if-IsShrinking :
    {A : Type 0} (b : Bool) (f g : Cursor → Read A)
    → IsShrinking f
    → IsShrinking g
    → IsShrinking (λ c. if b then f c else g c)
if-IsShrinking true f g hf hg = hf
if-IsShrinking false f g hf hg = hg

done-IsShrinking : {A : Type 0} (v : A) → IsShrinking (done v)
done-IsShrinking v c = omega arith

byte_left :
    (rest : Bytes) (n : ℕ)
    → length (left (expect_byte (record { rest = rest; consumed = n }))) ≤ length rest
unfolding expect_byte
byte_left [] n = omega arith
byte_left (b ∷ bs) n = omega arith

expect_byte-IsShrinking : IsShrinking expect_byte
expect_byte-IsShrinking c = byte_left c.rest c.consumed

length-drop : (n : ℕ) (xs : Bytes) → length (drop n xs) ≤ length xs
length-drop zero xs = omega arith
length-drop (suc n) [] = omega arith
length-drop (suc n) (x ∷ xs) = omega (arith, length-drop n xs)

read_exact_tracked-IsShrinking : (len : ℕ) → IsShrinking (read_exact_tracked len)
unfolding read_exact_tracked
read_exact_tracked-IsShrinking len c = elim (Bool-cases (ltb (length c.rest) len)) [
  | inl y ↦ rw y (omega arith)
  | inr n ↦ rw n (length-drop len c.rest)
]

lf_left : (rest : Bytes) (n : ℕ) → length (left (read_lf rest n)) ≤ length rest
unfolding read_lf
lf_left [] n = omega arith
lf_left (b ∷ bs) n = elim (Bool-cases (b == 10)) [
  | inl y ↦ rw y (omega arith)
  | inr o ↦ rw o (omega arith)
]

number_left : (rest : Bytes) (n : ℕ) → length (left (read_number rest n)) ≤ length rest
unfolding read_number
number_left [] n = omega arith
number_left (b ∷ bs) n = elim (Bool-cases (b == 13)) [
  | inl y ↦ rw y (omega (arith, lf_left bs (n + 1)))
  | inr o ↦ rw o (
      and_then-left (read_number bs (n + 1)) (λ number c. done (b ∷ number) c) (suc (length bs))
        (omega (arith, number_left bs (n + 1))) (λ number. done-IsShrinking (b ∷ number)))
]

decode_number-IsShrinking : (number : Bytes) → IsShrinking (decode_number number)
unfolding decode_number
decode_number-IsShrinking number c = elim (Bool-cases (is_utf8 number)) [
  | inl y ↦ elim (Option-cases (parse_i64 number)) [
    | inl p ↦ rw (y, p) (omega arith)
    | inr (v, p) ↦ rw (y, p) (omega arith)
  ]
  | inr o ↦ rw o (omega arith)
]

read_integer-IsShrinking : IsShrinking read_integer
unfolding read_integer
read_integer-IsShrinking c =
    and_then-left (read_number c.rest c.consumed) decode_number (length c.rest)
      (number_left c.rest c.consumed) decode_number-IsShrinking

read_terminator-IsShrinking : (payload : Bytes) → IsShrinking (read_terminator payload)
unfolding read_terminator
read_terminator-IsShrinking payload c =
    and_then-left (expect_byte c) _ (length c.rest) (expect_byte-IsShrinking c) (λ cr c1.
      and_then-left (expect_byte c1) _ (length c1.rest) (expect_byte-IsShrinking c1) (λ lf.
        if-IsShrinking (cr == 13) (λ c. if lf == 10 then done payload c else malformed c) malformed
          (if-IsShrinking (lf == 10) (done payload) malformed (done-IsShrinking payload)
            (λ c2. omega arith))
          (λ c2. omega arith)))

read_bulk_payload-IsShrinking : (len : ℤ) → IsShrinking (read_bulk_payload len)
unfolding read_bulk_payload
read_bulk_payload-IsShrinking (negsuc len) c = omega arith
read_bulk_payload-IsShrinking (pos len) c =
    and_then-left (read_exact_tracked len c) read_terminator (length c.rest)
      (read_exact_tracked-IsShrinking len c) read_terminator-IsShrinking

read_part-IsShrinking : IsShrinking read_part
unfolding read_part
read_part-IsShrinking c =
    and_then-left (expect_byte c) _ (length c.rest) (expect_byte-IsShrinking c) (λ marker.
      if-IsShrinking (marker == 36) (λ c1. and_then (read_integer c1) read_bulk_payload) malformed
        (λ c1.
          and_then-left (read_integer c1) read_bulk_payload (length c1.rest)
            (read_integer-IsShrinking c1) read_bulk_payload-IsShrinking)
        (λ c2. omega arith))

read_elements-IsShrinking : (k : ℕ) → IsShrinking (read_elements k)
unfolding read_elements
read_elements-IsShrinking zero c = omega arith
read_elements-IsShrinking (suc k) c =
    and_then-left (read_part c) _ (length c.rest) (read_part-IsShrinking c) (λ part c1.
      and_then-left (read_elements k c1) _ (length c1.rest) (read_elements-IsShrinking k c1)
        (λ parts. done-IsShrinking (part ∷ parts)))

read_array-IsShrinking : (len : ℤ) → IsShrinking (read_array len)
unfolding read_array
read_array-IsShrinking (negsuc k) c = omega arith
read_array-IsShrinking (pos k) c =
    and_then-left (read_elements k c) _ (length c.rest) (read_elements-IsShrinking k c)
      (λ parts. done-IsShrinking (some parts))

read_record-left : (b : ℕ) (bs : Bytes) → length (left (read_record (b ∷ bs))) ≤ length bs
unfolding read_record
read_record-left b bs =
    if-IsShrinking (b == 42) (λ c. and_then (read_integer c) read_array) malformed
      (λ c.
        and_then-left (read_integer c) read_array (length c.rest) (read_integer-IsShrinking c)
          read_array-IsShrinking)
      (λ c2. omega arith) (record { rest = bs; consumed = 1 })

resync_lem : (bs next : Bytes) → resync_to_next_array bs ≡ some next → length next ≤ length bs
unfolding resync_to_next_array
resync_lem [] next p = ground (arith, p)
resync_lem (b ∷ bs) next p = ground (arith, p, resync_lem bs next)

Read-cases :
    {A : Type 0} (m : Read A)
    → ((v : A) × (c : Cursor) × (m ≡ done v c))
      ⊎ (((c : Cursor) × (m ≡ unexpected_eof c)) ⊎ ((c : Cursor) × (m ≡ malformed c)))
Read-cases (done v c) = inl (v, c, refl)
Read-cases (unexpected_eof c) = inr (inl (c, refl))
Read-cases (malformed c) = inr (inr (c, refl))

module _ {h : Host} where
  at_end :
      (c : Clock) (n m size : ℕ) (s : Replayed h)
      → replay_loop c (suc n) size [] s ≡ replay_loop c (suc m) size [] s
  unfolding replay_loop read_record
  at_end c n m size s = refl

  -- Any two amounts of fuel above the number of bytes that are left of the file give the same outcome
  -- of the replay's loop, whatever the file holds.
  pub replay_loop-fuel :
      (c : Clock) (n m size : ℕ) (rest : Bytes) (s : Replayed h)
      → length rest < n
      → length rest < m
      → replay_loop c n size rest s ≡ replay_loop c m size rest s
  unfolding replay_loop
  replay_loop-fuel c zero m size rest s x y = ground (arith, x)
  replay_loop-fuel c (suc n) zero size rest s x y = ground (arith, y)
  replay_loop-fuel c (suc n) (suc m) size [] s x y = at_end c n m size s
  replay_loop-fuel c (suc n) (suc m) size (b ∷ bs) s x y =
      let shorter = read_record-left b bs in
      elim (Read-cases (read_record (b ∷ bs))) [
        | inl (found, cur, p) ↦
            let less : length cur.rest ≤ length bs =
              omega (arith, shorter, ap (λ r. length (left r)) p) in
            elim (Option-cases found) [
              | inl q ↦ rw (replay_loop, p, q) refl
              | inr (parts, q) ↦
                  let next =
                    after_apply s (size - length cur.rest) (apply_record c s.engine parts) in
                  elim (Option-cases next.1) [
                    | inr (failure, r) ↦ rw (replay_loop, p, q, r) refl
                    | inl r ↦
                        rw (replay_loop, p, q, r)
                          (replay_loop-fuel c n m size cur.rest next.0 (omega arith) (omega arith))
                  ]
            ]
        | inr e ↦ elim e [
          | inl (cur, p) ↦ rw (replay_loop, p) refl
          | inr (cur, p) ↦
              let less : length cur.rest ≤ length bs =
                omega (arith, shorter, ap (λ r. length (left r)) p) in
              elim (Option-cases (resync_to_next_array cur.rest)) [
                | inl q ↦ rw (replay_loop, p, q) refl
                | inr (next, q) ↦
                    let closer = resync_lem cur.rest next q in
                    rw (replay_loop, p, q)
                      (replay_loop-fuel c n m size next _ (omega arith) (omega arith))
              ]
        ]
      ]
