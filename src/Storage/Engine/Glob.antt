-- ===== src/Storage/Engine/Glob.antt =====
-- `glob_match` and `scan_keys` of storage/engine/mod.rs. A position in the pattern or in the text is
-- what stands behind it.
pub mod Language
pub mod Class
pub mod Reading
pub mod Decides
mod Tests
use ferrum_kv.Prelude.{
  ℕ, zero, suc, ◌+◌, ◌-◌, Bool, true, false, not, ◌&&◌, ◌||◌, ◌==◌, Option, none, some, List, [],
  ◌∷◌, Bytes, codes, length, ltb, leb, if◌then◌else◌,
}
use ferrum_kv.Storage.Entry
use ferrum_kv.Storage.Entry.{Clock}
use ferrum_kv.Storage.Keyspace.{Keyspace}
use ferrum_kv.Storage.Engine.{Host, KvEngine, scan_keys_limit}

-- A range of a class; one that goes down has what lies outside it.
unfoldable pub in_range : ℕ → ℕ → ℕ → Bool
in_range lo hi c = (leb lo hi && leb lo c && leb c hi) || (ltb hi lo && (leb lo c || leb c hi))

-- The loop over a class: whether `c` was met, and what follows the closing bracket, if there is one.
unfoldable pub scan_class : Bytes → ℕ → Bool → Option (Bool × Bytes)
unfolding in_range
scan_class [] c matched = none
scan_class (k ∷ []) c matched = if k == 93 then some (matched, []) else none
scan_class (k ∷ d ∷ []) c matched = elim (k == 93) [
  | true ↦ some (matched, d ∷ [])
  | false ↦ elim (k == 92) [ true ↦ none | false ↦ scan_class (d ∷ []) c (matched || c == k) ]
]
scan_class (k ∷ d ∷ hi ∷ pat) c matched = elim (k == 93) [
  | true ↦ some (matched, d ∷ hi ∷ pat)
  | false ↦ elim (k == 92) [
    | true ↦ scan_class (hi ∷ pat) c (matched || c == d)
    | false ↦ elim (d == 45 && not (hi == 93)) [
      | true ↦ scan_class pat c (matched || in_range k hi c)
      | false ↦ scan_class (d ∷ hi ∷ pat) c (matched || c == k)
    ]
  ]
]

unfoldable pub skip_stars : Bytes → Bytes
skip_stars [] = []
skip_stars (b ∷ pat) = let rest = skip_stars pat in if b == 42 then rest else b ∷ pat

-- The loop over the rest of the text behind a star.
unfoldable pub some_suffix : (Bytes → Bool) → Bytes → Bool
some_suffix f [] = f []
some_suffix f (c ∷ txt) = f (c ∷ txt) || some_suffix f txt

-- The first byte of the text satisfies a test, and the rest goes on.
abbrev pub one_byte : (ℕ → Bool) → (Bytes → Bool) → Bytes → Bool
one_byte test next [] = false
one_byte test next (c ∷ txt) = test c && next txt

-- `!` behind the opening bracket, and the class.
unfoldable pub negation : Bytes → Bool × Bytes
negation [] = (false, [])
negation (b ∷ pat) = if b == 33 then (true, pat) else (false, b ∷ pat)

abbrev pub differ : Bool → Bool → Bool
differ true b = not b
differ false b = b

-- A class, on the byte of the text that it stands for; one that is not closed is a literal bracket.
unfoldable pub class_byte : (Bytes → Bytes → Bool) → Bytes → Bytes → Bool
unfolding scan_class negation
class_byte next pat [] = false
class_byte next pat (c ∷ txt) =
    let (negate, body) = negation pat in
    elim (scan_class body c false) [
      | none ↦ c == 91 && next pat txt
      | some (matched, rest) ↦ differ matched negate && next rest txt
    ]

-- `matches`. A step shortens the pattern, so its length is enough fuel.
unfoldable pub matches : ℕ → Bytes → Bytes → Bool
unfolding skip_stars some_suffix class_byte
matches zero pat txt = false
matches (suc fuel) [] txt = length txt == 0
matches (suc fuel) (b ∷ pat) txt = elim (b == 42) [
  | true ↦ elim (skip_stars pat) [
    | [] ↦ true
    | x ∷ rest ↦ some_suffix (matches fuel (x ∷ rest)) txt
  ]
  | false ↦ elim (b == 63) [
    | true ↦ one_byte (λ c. true) (matches fuel pat) txt
    | false ↦ elim (b == 92) [
      | true ↦ elim pat [
        | [] ↦ one_byte (λ c. c == b) (matches fuel []) txt
        | e ∷ rest ↦ one_byte (λ c. c == e) (matches fuel rest) txt
      ]
      | false ↦ elim (b == 91) [
        | true ↦ class_byte (matches fuel) pat txt
        | false ↦ one_byte (λ c. c == b) (matches fuel pat) txt
      ]
    ]
  ]
]

unfoldable pub glob_match : Bytes → Bytes → Bool
unfolding matches
glob_match pat txt = matches (suc (length pat)) pat txt

-- A key is pushed, and the loop goes on while there is room.
abbrev pub push : Bytes → (ℕ → List Bytes) → ℕ → List Bytes
push key more zero = []
push key more (suc zero) = key ∷ []
push key more (suc (suc left)) = key ∷ more (suc left)

-- The loop over the keyspace, with the room that is left in the answer.
unfoldable pub scan_store : Bytes → Keyspace → ℕ → ℕ → List Bytes
unfolding glob_match
scan_store pattern [] now room = []
scan_store pattern ((key, entry) ∷ store) now room =
    if Entry.is_expired entry now
    then scan_store pattern store now room
    else if glob_match pattern key
    then push key (scan_store pattern store now) room
    else scan_store pattern store now room

module _ {h : Host} where
  unfoldable pub scan_keys : Clock → KvEngine h → Bytes → List Bytes
  unfolding scan_store
  scan_keys c e pattern = scan_store pattern e.store c.now scan_keys_limit
