-- ===== src/Protocol/Text.antt =====
-- What the parser uses of std's texts: UTF-8 validity, ASCII upper case, and how a message shows bytes.
use ferrum_kv.Prelude.{
  ℕ, zero, suc, ◌-◌, ◌<◌, ◌≡◌, refl, Bool, true, false, ◌&&◌, ltb, leb, ◌==◌, Option, none, some,
  [], ◌∷◌, arith, Bytes, map, All, if◌then◌else◌,
}

-- How `{:?}` shows a byte as a char and a text, and `String::from_utf8_lossy`. Only messages use them.
pub record Rendering : Type 0 where
  pub debug_char : ℕ → Bytes
  pub debug_text : Bytes → Bytes
  pub lossy : Bytes → Bytes

-- What may follow the first byte of a character: how many bytes, and the range of the first of them.
unfoldable pub utf8_lead : ℕ → Option (ℕ × ℕ × ℕ)
utf8_lead b =
    if ltb b 128
    then some (0, 128, 191)
    else if leb 194 b && leb b 223
    then some (1, 128, 191)
    else if b == 224
    then some (2, 160, 191)
    else if b == 237
    then some (2, 128, 159)
    else if leb 225 b && leb b 239
    then some (2, 128, 191)
    else if b == 240
    then some (3, 144, 191)
    else if leb 241 b && leb b 243
    then some (3, 128, 191)
    else if b == 244
    then some (3, 128, 143)
    else none

unfoldable pub utf8_from : ℕ → ℕ → ℕ → Bytes → Bool
unfolding utf8_lead
utf8_from zero lo hi [] = true
utf8_from (suc n) lo hi [] = false
utf8_from zero lo hi (b ∷ bs) = elim (utf8_lead b) [
  | none ↦ false
  | some (n, lo', hi') ↦ utf8_from n lo' hi' bs
]
utf8_from (suc n) lo hi (b ∷ bs) = leb lo b && leb b hi && utf8_from n 128 191 bs

-- `str::from_utf8(..).is_ok()`
unfoldable pub is_utf8 : Bytes → Bool
unfolding utf8_from
is_utf8 bs = utf8_from 0 128 191 bs

-- `to_ascii_uppercase`
unfoldable pub upper : ℕ → ℕ
upper b = if leb 97 b && leb b 122 then b - 32 else b

unfoldable pub ascii_uppercase : Bytes → Bytes
unfolding upper
ascii_uppercase bs = map upper bs

utf8_from-ascii : (bs : Bytes) → All (λ b. b < 128) bs → utf8_from 0 128 191 bs ≡ true
unfolding utf8_from utf8_lead
utf8_from-ascii [] h = refl
utf8_from-ascii (b ∷ bs) h =
    let small : ltb b 128 ≡ true = ground (arith, h.0) in
    rw (utf8_from, small) (utf8_from-ascii bs h.1)

pub is_utf8_ascii : (bs : Bytes) → All (λ b. b < 128) bs → is_utf8 bs ≡ true
unfolding is_utf8
is_utf8_ascii bs h = utf8_from-ascii bs h
