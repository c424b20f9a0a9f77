-- ===== src/Storage/Engine/Glob/Decides.antt =====
-- What `glob_match` and `scan_keys` answer, by the language of the pattern.
use ferrum_kv.Prelude.{
  ℕ, zero, suc, ◌<◌, ◌≤◌, ◌≡◌, refl, ap, sym, ◌∙◌, ◌↔◌, ◌⊎◌, Bool, true, false, List, [], ◌∷◌,
  Bytes, length, arith, Bool-cases, inl, inr,
}
use mathlib.Core.List.{Memᴰ}
use mathlib.Core.List.Memᴰ.{head, tail}
use ferrum_kv.Storage.Entry
use ferrum_kv.Storage.Entry.{Clock, ValueEntry}
use ferrum_kv.Storage.Keyspace.{Keyspace}
use ferrum_kv.Storage.Engine.{Host, KvEngine, scan_keys_limit}
use ferrum_kv.Storage.Engine.Glob.{some_suffix, one_byte, glob_match, push, scan_store, scan_keys}
use ferrum_kv.Storage.Engine.Glob.Language.{
  Token, run, any, literal, class, accepts, Matches, done, byte, stop, more, tokens_from, tokens,
}
use ferrum_kv.Storage.Engine.Glob.Reading.{fits_tokens, matches-fits}

module _ (t : Token) (ts : List Token)
    (sound : (txt : Bytes) → fits_tokens ts txt ≡ true → Matches ts txt) where
  one_byte-Matches :
      (txt : Bytes) → one_byte (accepts t) (fits_tokens ts) txt ≡ true → Matches (t ∷ ts) txt
  one_byte-Matches [] h = ground (arith, h)
  one_byte-Matches (c ∷ txt) h = byte (ground (arith, h)) (sound txt (ground (arith, h)))

some_suffix-Matches :
    (ts : List Token)
    → ((txt : Bytes) → fits_tokens ts txt ≡ true → Matches ts txt)
    → (txt : Bytes) → some_suffix (fits_tokens ts) txt ≡ true
    → Matches (run ∷ ts) txt
unfolding some_suffix
some_suffix-Matches ts sound [] h = stop (sound [] h)
some_suffix-Matches ts sound (c ∷ txt) h = elim (Bool-cases (fits_tokens ts (c ∷ txt))) [
  | inl y ↦ stop (sound (c ∷ txt) y)
  | inr n ↦ more (some_suffix-Matches ts sound txt (ground (arith, h, n)))
]

fits_tokens-Matches : (ts : List Token) (txt : Bytes) → fits_tokens ts txt ≡ true → Matches ts txt
unfolding fits_tokens
fits_tokens-Matches [] [] h = done
fits_tokens-Matches [] (c ∷ txt) h = ground (arith, h)
fits_tokens-Matches (run ∷ ts) txt h = some_suffix-Matches ts (fits_tokens-Matches ts) txt h
fits_tokens-Matches (any ∷ ts) txt h = one_byte-Matches any ts (fits_tokens-Matches ts) txt h
fits_tokens-Matches (literal b ∷ ts) txt h =
    one_byte-Matches (literal b) ts (fits_tokens-Matches ts) txt h
fits_tokens-Matches (class n items ∷ ts) txt h =
    one_byte-Matches (class n items) ts (fits_tokens-Matches ts) txt h

some_suffix_here : (f : Bytes → Bool) (txt : Bytes) → f txt ≡ true → some_suffix f txt ≡ true
unfolding some_suffix
some_suffix_here f [] h = h
some_suffix_here f (c ∷ txt) h = rw (some_suffix, h) refl

some_suffix_later :
    (f : Bytes → Bool) (c : ℕ) (txt : Bytes)
    → some_suffix f txt ≡ true
    → some_suffix f (c ∷ txt) ≡ true
unfolding some_suffix
some_suffix_later f c txt h = ground (arith, h)

Matches-fits_tokens : {ts : List Token} {txt : Bytes} → Matches ts txt → fits_tokens ts txt ≡ true
unfolding fits_tokens
Matches-fits_tokens done = refl
Matches-fits_tokens (byte {t = run} a m) = ground (arith, a)
Matches-fits_tokens (byte {t = any} a m) = Matches-fits_tokens m
Matches-fits_tokens (byte {t = literal b} a m) = ground (arith, a, Matches-fits_tokens m)
Matches-fits_tokens (byte {t = class n items} a m) = ground (arith, a, Matches-fits_tokens m)
Matches-fits_tokens (stop {ts = ts} {cs = cs} m) =
    some_suffix_here (fits_tokens ts) cs (Matches-fits_tokens m)
Matches-fits_tokens (more {ts = ts} {c = c} {cs = cs} m) =
    some_suffix_later (fits_tokens ts) c cs (Matches-fits_tokens m)

-- `glob_match` accepts a text exactly if the tokens of the pattern describe it: stars, question marks,
-- escapes, and classes with ranges and a negation. What the tokens are and describe is defined apart
-- from the code.
pub glob_match-Matches : (pat txt : Bytes) → glob_match pat txt ≡ true ↔ Matches (tokens pat) txt
unfolding glob_match tokens
glob_match-Matches pat txt =
    let same = matches-fits (suc (length pat)) pat txt (omega arith) in
    (
      λ h. fits_tokens-Matches (tokens_from (suc (length pat)) pat) txt (sym same ∙ h),
      λ m. same ∙ Matches-fits_tokens m,
    )

-- An entry of the keyspace that is not expired.
abbrev pub IsLive : Keyspace → ℕ → Bytes → Type 0
IsLive store now key =
    (entry : ValueEntry) × Memᴰ (key, entry) store × (Entry.is_expired entry now ≡ false)

-- What a scan with room for `room` keys has found.
pub record Scanned (store : Keyspace) (now room : ℕ) (pattern : Bytes) (keys : List Bytes)
    : Type 0 where
  pub bounded : length keys ≤ room
  pub sound : (key : Bytes) → Memᴰ key keys → IsLive store now key × Matches (tokens pattern) key
  pub complete :
      length keys < room
      → (key : Bytes) → IsLive store now key
      → Matches (tokens pattern) key
      → Memᴰ key keys

module _ (now : ℕ) (pattern : Bytes) where
  IsLive-later :
      (store : Keyspace) (first : Bytes × ValueEntry) (key : Bytes)
      → IsLive store now key
      → IsLive (first ∷ store) now key
  IsLive-later store first key (entry, m, l) = (entry, tail m, l)

  -- An entry that is passed over: expired, or of another name.
  Scanned-skip :
      (store : Keyspace) (k : Bytes) (v : ValueEntry) (room : ℕ) (keys : List Bytes)
      → (Entry.is_expired v now ≡ true) ⊎ (glob_match pattern k ≡ false)
      → Scanned store now room pattern keys
      → Scanned ((k, v) ∷ store) now room pattern keys
  Scanned-skip store k v room keys skip s = record {
    bounded = s.bounded;
    sound = λ key m. let (l, d) = s.sound key m in (IsLive-later store (k, v) key l, d);
    complete = λ few key l d. passed few key l d;
  }
    where
      passed :
          length keys < room
          → (key : Bytes) → IsLive ((k, v) ∷ store) now key
          → Matches (tokens pattern) key
          → Memᴰ key keys
      passed few key (entry, head e, l) d = elim skip [
        | inl x ↦ ground (arith, x, l, ap (λ p. Entry.is_expired p.1 now) e)
        | inr g ↦
            ground
              (arith, g, (glob_match-Matches pattern key).1 d, ap (λ p. glob_match pattern p.0) e)
      ]
      passed few key (entry, tail m, l) d = s.complete few key (entry, m, l) d

  Scanned-take :
      (store : Keyspace) (k : Bytes) (v : ValueEntry) (room : ℕ) (keys : List Bytes)
      → Entry.is_expired v now ≡ false
      → glob_match pattern k ≡ true
      → Scanned store now room pattern keys
      → Scanned ((k, v) ∷ store) now (suc room) pattern (k ∷ keys)
  Scanned-take store k v room keys x g s = record {
    bounded = omega (arith, s.bounded);
    sound = λ key m. taken key m;
    complete = λ few key l d. kept few key l d;
  }
    where
      taken :
          (key : Bytes)
          → Memᴰ key (k ∷ keys)
          → IsLive ((k, v) ∷ store) now key × Matches (tokens pattern) key
      taken key (head e) = (
        (v, head (ap (λ q. (q, v)) e), x),
        (glob_match-Matches pattern key).0 (ap (glob_match pattern) e ∙ g),
      )
      taken key (tail m) = let (l, d) = s.sound key m in (IsLive-later store (k, v) key l, d)

      kept :
          length (k ∷ keys) < suc room
          → (key : Bytes) → IsLive ((k, v) ∷ store) now key
          → Matches (tokens pattern) key
          → Memᴰ key (k ∷ keys)
      kept few key (entry, head e, l) d = head (ap (λ p. p.0) e)
      kept few key (entry, tail m, l) d = tail (s.complete (omega (arith, few)) key (entry, m, l) d)

  Scanned-full : (store : Keyspace) → Scanned store now 0 pattern []
  Scanned-full store = record {
    bounded = omega arith;
    sound = λ key m. elim m [ ];
    complete = λ few key l d. ground (arith, few);
  }

  taking :
      (store : Keyspace) (k : Bytes) (v : ValueEntry) (room : ℕ)
      → ((left : ℕ) → 0 < left → Scanned store now left pattern (scan_store pattern store now left))
      → 0 < room
      → Entry.is_expired v now ≡ false
      → glob_match pattern k ≡ true
      → Scanned ((k, v) ∷ store) now room pattern (push k (scan_store pattern store now) room)
  taking store k v zero ih p n y = ground (arith, p)
  taking store k v (suc zero) ih p n y = Scanned-take store k v 0 [] n y (Scanned-full store)
  taking store k v (suc (suc left)) ih p n y =
      Scanned-take store k v (suc left) (scan_store pattern store now (suc left)) n y
        (ih (suc left) (omega arith))

  scan_store-Scanned :
      (store : Keyspace) (room : ℕ)
      → 0 < room
      → Scanned store now room pattern (scan_store pattern store now room)
  unfolding scan_store
  scan_store-Scanned [] room p = record {
    bounded = omega arith;
    sound = λ key m. elim m [ ];
    complete = λ few key l d. elim l.1 [ ];
  }
  scan_store-Scanned ((k, v) ∷ store) room p = elim (Bool-cases (Entry.is_expired v now)) [
    | inl y ↦
        rw (scan_store, y)
          (Scanned-skip store k v room (scan_store pattern store now room) (inl y)
            (scan_store-Scanned store room p))
    | inr n ↦ elim (Bool-cases (glob_match pattern k)) [
      | inr o ↦
          rw (scan_store, n, o)
            (Scanned-skip store k v room (scan_store pattern store now room) (inr o)
              (scan_store-Scanned store room p))
      | inl y ↦ rw (scan_store, n, y) (taking store k v room (scan_store-Scanned store) p n y)
    ]
  ]

-- `scan_keys` answers at most 10,000 keys, each the name of an entry that is not expired and that the
-- pattern describes, and, if it answers fewer than 10,000, every such name.
pub scan_keys-Scanned :
    {h : Host} (c : Clock) (e : KvEngine h) (pattern : Bytes)
    → Scanned e.store c.now scan_keys_limit pattern (scan_keys c e pattern)
unfolding scan_keys
scan_keys-Scanned c e pattern =
    scan_store-Scanned c.now pattern e.store scan_keys_limit (omega arith)
