-- ===== src/Protocol/Consumed.antt =====
-- A frame that the parser takes from a buffer is a prefix of it with at least one byte.
use ferrum_kv.Prelude.{
  ℕ, zero, suc, ◌-◌, ◌<◌, ◌≤◌, ◌≡◌, Bool, true, false, Option, none, some, List, [], ◌∷◌, ◌++◌,
  arith, Bytes, codes, length, length-drop, drop, ltb, Bool-cases, Option-cases, inl, inr, ◌&&◌,
  ◌==◌, if◌then◌else◌,
}
use ferrum_kv.Prelude.Int.{ℤ, pos, negsuc}
use ferrum_kv.Prelude.Decimal.{parse_i64, print_int, print_nat}
use ferrum_kv.Error.{parse_error, Result, ok, err}
use ferrum_kv.Floats.{Floats}
use ferrum_kv.Protocol.Text.{Rendering, is_utf8}
use ferrum_kv.Protocol.Command.{Command}
use ferrum_kv.Protocol.Build.{build_command}
use ferrum_kv.Protocol.Frame.{
  FrameParse, complete, invalid, incomplete, max_array_elements, max_bulk_len, starts_lf,
  split_crlf, read_integer_line, read_payload, read_sized, read_bulk_string, read_parts, read_count,
  read_frame, finish_frame, parse_frame,
}

-- What was read left less than `n` bytes.
abbrev Leaves : {A : Type 0} → ℕ → Result (Option (A × Bytes)) → Type 0
Leaves n (ok (some (a, rest))) = length rest < n
Leaves n (ok none) = Unit {0}
Leaves n (err e) = Unit {0}

abbrev Splits : ℕ → Option (Bytes × Bytes) → Type 0
Splits n none = Unit {0}
Splits n (some (line, rest)) = length rest < n

later-Splits :
    (n b : ℕ) (m : Option (Bytes × Bytes))
    → Splits n m
    → Splits (suc n) (elim m [ none ↦ none | some (line, rest) ↦ some (b ∷ line, rest) ])
later-Splits n b none h = tt
later-Splits n b (some (line, rest)) h = omega (arith, h)

split_crlf-Splits : (bs : Bytes) → Splits (length bs) (split_crlf bs)
unfolding split_crlf
split_crlf-Splits [] = tt
split_crlf-Splits (b ∷ bs) = elim (Bool-cases (b == 13 && starts_lf bs)) [
  | inl y ↦ rw (split_crlf, y) (omega (arith, length-drop 1 bs))
  | inr n ↦ rw (split_crlf, n) (later-Splits (length bs) b (split_crlf bs) (split_crlf-Splits bs))
]

-- The `?` operator and the match on an incomplete input.
abbrev chain :
    {A B : Type 0}
    → Result (Option (A × Bytes))
    → (A → Bytes → Result (Option (B × Bytes)))
    → Result (Option (B × Bytes))
chain m f = elim m [ err x ↦ err x | ok none ↦ ok none | ok (some (a, rest)) ↦ f a rest ]

chain-Leaves :
    {A B : Type 0} (n k : ℕ) (m : Result (Option (A × Bytes)))
    (f : A → Bytes → Result (Option (B × Bytes)))
    → Leaves n m
    → ((a : A) (rest : Bytes) → length rest < n → Leaves k (f a rest))
    → Leaves k (chain m f)
chain-Leaves n k (err x) f l g = tt
chain-Leaves n k (ok none) f l g = tt
chain-Leaves n k (ok (some (a, rest))) f l g = g a rest l

split_crlf_shorter :
    (bs line rest : Bytes) → split_crlf bs ≡ some (line, rest) → length rest < length bs
split_crlf_shorter bs line rest p = go (split_crlf bs) (split_crlf-Splits bs) p
  where
    go :
        (m : Option (Bytes × Bytes))
        → Splits (length bs) m
        → m ≡ some (line, rest)
        → length rest < length bs
    go none h q = cc (q)
    go (some (l, t)) h q = ground (arith, h, q)

module _ (r : Rendering) where
  payload-Leaves : (len : ℕ) (bs : Bytes) → Leaves (length bs) (read_payload r len bs)
  unfolding read_payload
  payload-Leaves len bs = ground (arith, length-drop len bs, length-drop 2 (drop len bs))

  value-Leaves :
      (line rest : Bytes) (n : ℕ) (o : Option ℤ)
      → length rest < n
      → Leaves n (elim o [
        | none ↦ err (parse_error (codes "invalid integer: " ++ r.debug_text line))
        | some value ↦ ok (some (value, rest))
      ])
  value-Leaves line rest n none h = tt
  value-Leaves line rest n (some v) h = h

  line-Leaves : (bs : Bytes) → Leaves (length bs) (read_integer_line r bs)
  unfolding read_integer_line
  line-Leaves bs = elim (Option-cases (split_crlf bs)) [
    | inl p ↦ rw (read_integer_line, p) tt
    | inr ((line, rest), p) ↦ elim (Bool-cases (is_utf8 line)) [
      | inl y ↦
          rw (read_integer_line, p, y)
            (value-Leaves line rest (length bs) (parse_i64 line)
              (split_crlf_shorter bs line rest p))
      | inr q ↦ rw (read_integer_line, p, q) tt
    ]
  ]

  sized-Leaves : (n : ℤ) (bs : Bytes) → Leaves (length bs) (read_sized r n bs)
  unfolding read_sized
  sized-Leaves (negsuc n) bs = tt
  sized-Leaves (pos len) bs = elim (Bool-cases (ltb max_bulk_len len)) [
    | inl y ↦ rw (read_sized, y) tt
    | inr n ↦ rw (read_sized, n) (payload-Leaves len bs)
  ]

  Leaves-more :
      {A : Type 0} (m n : ℕ) (x : Result (Option (A × Bytes))) → Leaves m x → m ≤ n → Leaves n x
  Leaves-more m n (err e) h l = tt
  Leaves-more m n (ok none) h l = tt
  Leaves-more m n (ok (some (a, rest))) h l = omega (arith, h, l)

  bulk-Leaves : (bs : Bytes) → Leaves (length bs) (read_bulk_string r bs)
  unfolding read_bulk_string
  bulk-Leaves [] = tt
  bulk-Leaves (b ∷ bs) = elim (Bool-cases (b == 36)) [
    | inl y ↦
        rw (read_bulk_string, y)
          (chain-Leaves (length bs) (suc (length bs)) (read_integer_line r bs)
            (λ len rest. read_sized r len rest) (line-Leaves bs)
            (λ len rest l.
              Leaves-more (length rest) (suc (length bs)) (read_sized r len rest)
                (sized-Leaves len rest) (omega (arith, l))))
    | inr n ↦ rw (read_bulk_string, n) tt
  ]

  parts-Leaves : (count : ℕ) (bs : Bytes) → Leaves (suc (length bs)) (read_parts r count bs)
  unfolding read_parts
  parts-Leaves zero bs = omega arith
  parts-Leaves (suc count) bs =
      chain-Leaves (length bs) (suc (length bs)) (read_bulk_string r bs) _ (bulk-Leaves bs)
        (λ part rest l.
          chain-Leaves (suc (length rest)) (suc (length bs)) (read_parts r count rest)
            (λ parts end. ok (some (part ∷ parts, end))) (parts-Leaves count rest)
            (λ parts end k. omega (arith, l, k)))

  if-Leaves :
      {A : Type 0} (n : ℕ) (b : Bool) (x y : Result (Option (A × Bytes)))
      → Leaves n x
      → Leaves n y
      → Leaves n (if b then x else y)
  if-Leaves n true x y h k = h
  if-Leaves n false x y h k = k

  abbrev counted : ℤ → Bytes → Result (Option (ℕ × Bytes))
  counted (negsuc n) rest = err (
      parse_error
        (codes "RESP array must contain at least one element, got " ++ print_int (negsuc n)))
  counted (pos count) rest =
      if count == 0
      then err (parse_error (codes "RESP array must contain at least one element, got 0"))
      else if ltb max_array_elements count
      then err (
          parse_error
            (codes "RESP array too large (" ++ print_nat count ++ codes " elements, max 1048576)"))
      else ok (some (count, rest))

  counted-Leaves : (n : ℤ) (rest : Bytes) → Leaves (suc (length rest)) (counted n rest)
  counted-Leaves (negsuc n) rest = tt
  counted-Leaves (pos n) rest =
      if-Leaves (suc (length rest)) (n == 0) _ _ tt
        (if-Leaves (suc (length rest)) (ltb max_array_elements n) _ _ tt (omega arith))

  count-Leaves : (bs : Bytes) → Leaves (length bs) (read_count r bs)
  unfolding read_count
  count-Leaves [] = tt
  count-Leaves (b ∷ bs) = elim (Bool-cases (b == 42)) [
    | inl y ↦
        rw (read_count, y)
          (chain-Leaves (length bs) (suc (length bs)) (read_integer_line r bs) counted
            (line-Leaves bs)
            (λ n rest l.
              Leaves-more (suc (length rest)) (suc (length bs)) (counted n rest)
                (counted-Leaves n rest) (omega (arith, l))))
    | inr n ↦ rw (read_count, n) tt
  ]

  frame-Leaves : (bs : Bytes) → Leaves (length bs) (read_frame r bs)
  unfolding read_frame
  frame-Leaves bs =
      chain-Leaves (length bs) (length bs) (read_count r bs) (λ count rest. read_parts r count rest)
        (count-Leaves bs)
        (λ count rest l.
          Leaves-more (suc (length rest)) (length bs) (read_parts r count rest)
            (parts-Leaves count rest) l)

-- What a frame takes of a buffer of `n` bytes.
abbrev pub Takes : {fl : Floats} → ℕ → Result (FrameParse fl) → Type 0
Takes n (ok (complete c k)) = (0 < k) × (k ≤ n)
Takes n (ok (invalid e k)) = (0 < k) × (k ≤ n)
Takes n _ = Unit {0}

module _ (fl : Floats) where
  finish-Takes :
      (r : Rendering) (n k : ℕ) (parts : List Bytes)
      → 0 < k
      → k ≤ n
      → Takes n (ok (finish_frame {fl = fl} r k parts))
  unfolding finish_frame
  finish-Takes r n k [] p l = tt
  finish-Takes r n k (name ∷ as') p l = go (build_command r name as')
    where
      go :
          (m : Result (Command fl))
          → Takes n (ok (elim m [ err x ↦ invalid x k | ok c ↦ complete c k ]))
      go (ok c) = (p, l)
      go (err e) = (p, l)

  -- A complete or invalid frame takes at least one byte of the buffer and no more than it holds.
  pub parse_frame-Takes :
      (r : Rendering) (buf : Bytes) → Takes (length buf) (parse_frame {fl = fl} r buf)
  unfolding parse_frame
  parse_frame-Takes r buf = go (read_frame r buf) (frame-Leaves r buf)
    where
      go :
          (m : Result (Option (List Bytes × Bytes)))
          → Leaves (length buf) m
          → Takes (length buf) (elim m [
            | err x ↦ err x
            | ok none ↦ ok incomplete
            | ok (some (parts, rest)) ↦
                ok (finish_frame {fl = fl} r (length buf - length rest) parts)
          ])
      go (err e) h = tt
      go (ok none) h = tt
      go (ok (some (parts, rest))) h =
          finish-Takes r (length buf) (length buf - length rest) parts (omega (arith, h))
            (omega (arith, h))
