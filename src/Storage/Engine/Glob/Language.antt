-- ===== src/Storage/Engine/Glob/Language.antt =====
-- The patterns of `glob_match`, apart from the code that matches them: a pattern is a list of tokens,
-- and a relation says which texts they describe. Nothing here is a function of the code.
use ferrum_kv.Prelude.{
  ℕ, zero, suc, ◌≡◌, Bool, true, false, not, ◌&&◌, ◌||◌, ◌==◌, Option, none, some, List, [], ◌∷◌,
  Bytes, length, ltb, leb, if◌then◌else◌,
}

pub data Item : Type 0 where
  single : ℕ → Item
  range : ℕ → ℕ → Item

pub data Token : Type 0 where
  run any : Token
  literal : ℕ → Token
  class : Bool → List Item → Token

-- A range has its ends and what lies between them. One that goes down has every byte but those strictly
-- between its ends.
abbrev pub has : Item → ℕ → Bool
has (single k) c = c == k
has (range lo hi) c = if ltb hi lo then not (ltb hi c && ltb c lo) else leb lo c && leb c hi

abbrev pub holds : List Item → ℕ → Bool
holds [] c = false
holds (i ∷ items) c = has i c || holds items c

-- The bytes that a token stands for; a run is no byte.
abbrev pub accepts : Token → ℕ → Bool
accepts run c = false
accepts any c = true
accepts (literal b) c = c == b
accepts (class true items) c = not (holds items c)
accepts (class false items) c = holds items c

-- The texts that the tokens describe.
pub data Matches : List Token → Bytes → Type 0 where
  done : Matches [] []
  byte :
      {t : Token} {ts : List Token} {c : ℕ} {cs : Bytes}
      → accepts t c ≡ true
      → Matches ts cs
      → Matches (t ∷ ts) (c ∷ cs)
  stop : {ts : List Token} {cs : Bytes} → Matches ts cs → Matches (run ∷ ts) cs
  more :
      {ts : List Token} {c : ℕ} {cs : Bytes} → Matches (run ∷ ts) cs → Matches (run ∷ ts) (c ∷ cs)

abbrev pub cons_item : Item → Option (List Item × Bytes) → Option (List Item × Bytes)
cons_item i none = none
cons_item i (some (items, rest)) = some (i ∷ items, rest)

-- The items of a class to its closing bracket, if it has one.
unfoldable pub class_items : Bytes → Option (List Item × Bytes)
class_items [] = none
class_items (k ∷ []) = elim (k == 93) [ true ↦ some ([], []) | false ↦ none ]
class_items (k ∷ d ∷ []) = elim (k == 93) [
  | true ↦ some ([], d ∷ [])
  | false ↦ elim (k == 92) [ true ↦ none | false ↦ cons_item (single k) (class_items (d ∷ [])) ]
]
class_items (k ∷ d ∷ hi ∷ pat) = elim (k == 93) [
  | true ↦ some ([], d ∷ hi ∷ pat)
  | false ↦ elim (k == 92) [
    | true ↦ cons_item (single d) (class_items (hi ∷ pat))
    | false ↦ elim (d == 45 && not (hi == 93)) [
      | true ↦ cons_item (range k hi) (class_items pat)
      | false ↦ cons_item (single k) (class_items (d ∷ hi ∷ pat))
    ]
  ]
]

-- A class with its tokens behind it, or a literal bracket.
abbrev pub class_tokens :
    (Bytes → List Token) → Bool → Bytes → Option (List Item × Bytes) → List Token
class_tokens next negate pat none = literal 91 ∷ next pat
class_tokens next negate pat (some (items, rest)) = class negate items ∷ next rest

-- What stands behind the stars of a pattern.
unfoldable pub behind_stars : Bytes → Bytes
behind_stars [] = []
behind_stars (b ∷ pat) = elim (b == 42) [ true ↦ behind_stars pat | false ↦ b ∷ pat ]

-- Whether a class begins with `!`, and what stands behind it.
unfoldable pub exclaimed : Bytes → Bool × Bytes
exclaimed [] = (false, [])
exclaimed (b ∷ pat) = elim (b == 33) [ true ↦ (true, pat) | false ↦ (false, b ∷ pat) ]

-- The tokens of a pattern. Stars in a row are one run, and a backslash at the end is itself.
unfoldable pub tokens_from : ℕ → Bytes → List Token
unfolding class_items behind_stars exclaimed
tokens_from zero pat = []
tokens_from (suc fuel) [] = []
tokens_from (suc fuel) (b ∷ pat) = elim (b == 42) [
  | true ↦ run ∷ tokens_from fuel (behind_stars pat)
  | false ↦ elim (b == 63) [
    | true ↦ any ∷ tokens_from fuel pat
    | false ↦ elim (b == 92) [
      | true ↦ elim pat [ [] ↦ literal 92 ∷ [] | e ∷ rest ↦ literal e ∷ tokens_from fuel rest ]
      | false ↦ elim (b == 91) [
        | true ↦
            let (negate, body) = exclaimed pat in
            class_tokens (tokens_from fuel) negate pat (class_items body)
        | false ↦ literal b ∷ tokens_from fuel pat
      ]
    ]
  ]
]

unfoldable pub tokens : Bytes → List Token
unfolding tokens_from
tokens pat = tokens_from (suc (length pat)) pat
