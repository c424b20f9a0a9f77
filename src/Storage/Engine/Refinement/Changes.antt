-- ===== src/Storage/Engine/Refinement/Changes.antt =====
-- What INCRBY and APPEND make of the value that a client sees.
use ferrum_kv.Prelude.{
  ℕ, ◌≡◌, refl, false, Option, none, some, ◌++◌, arith, Bytes, length, Bool-cases, inl, inr,
  if◌then◌else◌,
}
use ferrum_kv.Prelude.Int.{ℤ, pos, ◌+ℤ◌, in_i64}
use ferrum_kv.Prelude.Decimal.{print_int, parse_i64}
use ferrum_kv.Error.{Result, ok, err}
use ferrum_kv.Storage.Assoc.{get}
use ferrum_kv.Storage.Entry.{ValueEntry, Clock, new_with, is_expired}
use ferrum_kv.Storage.Keyspace.{Keyspace}
use ferrum_kv.Storage.Engine.Guard.{validate_value}
use ferrum_kv.Storage.Engine.Commands.{not_an_integer, appended}
use ferrum_kv.Storage.Engine.Refinement.{seen_at, view}

-- A deadline that is not over.
abbrev pub IsAhead : Option ℕ → ℕ → Type 0
IsAhead ttl now = (v : Bytes) (c : Clock) → is_expired (new_with c v ttl) now ≡ false

seen-IsAhead :
    (o : Option ValueEntry) (now : ℕ) (p : Bytes) (ttl : Option ℕ)
    → seen_at o now ≡ some (p, ttl)
    → IsAhead ttl now
unfolding is_expired new_with
seen-IsAhead none now p ttl h v c = cc
seen-IsAhead (some e) now p ttl h v c = ground (arith, h)

-- A change of a value: the answer, the new value and the deadline that it keeps, or an error.
abbrev pub Change : Type 0 → Type 0
Change A = Result (A × Bytes × Option ℕ)

abbrev pub answer_of : {A : Type 0} → Change A → Result A
answer_of (ok (a, v, ttl)) = ok a
answer_of (err x) = err x

abbrev pub changed : {A : Type 0} → Change A → Option (Bytes × Option ℕ) → Option (Bytes × Option ℕ)
changed (ok (a, v, ttl)) old = some (v, ttl)
changed (err x) old = old

-- A number and the delta, if there is a number and the sum is in the range of an i64.
abbrev pub plus : ℤ → Option ℕ → Option ℤ → Change ℤ
plus delta ttl none = err not_an_integer
plus delta ttl (some n) =
    if in_i64 (n +ℤ delta) then ok (n +ℤ delta, print_int (n +ℤ delta), ttl) else err not_an_integer

-- The old value as a number, or zero, and the delta.
abbrev pub incremented : ℤ → Option (Bytes × Option ℕ) → Change ℤ
incremented delta none = plus delta none (some (pos 0))
incremented delta (some (p, ttl)) = plus delta ttl (parse_i64 p)

-- The old value, or nothing, and the suffix behind it, if that is not too long.
abbrev checked : Bytes → Option ℕ → Result (Unit {0}) → Change ℕ
checked v ttl (err x) = err x
checked v ttl (ok _) = ok (length v, v, ttl)

abbrev pub extended : Bytes → Option (Bytes × Option ℕ) → Change ℕ
extended suffix old = let (v, ttl) = appended old suffix in checked v ttl (validate_value v)

-- The deadlines that are kept are ahead.
abbrev Alive : Option (Bytes × Option ℕ) → ℕ → Type 0
Alive none now = Unit
Alive (some (p, ttl)) now = IsAhead ttl now

abbrev pub KeepsAhead : {A : Type 0} → Change A → ℕ → Type 0
KeepsAhead (err x) now = Unit
KeepsAhead (ok (a, v, ttl)) now = IsAhead ttl now

pub view-Alive : (m : Keyspace) (now : ℕ) (k : Bytes) → Alive (view m now k) now
view-Alive m now k = go (view m now k) refl
  where
    go : (o : Option (Bytes × Option ℕ)) → view m now k ≡ o → Alive o now
    go none q = tt
    go (some (p, ttl)) q = seen-IsAhead (get k m) now p ttl q

never : (now : ℕ) → IsAhead none now
unfolding is_expired new_with
never now v c = refl

plus-KeepsAhead :
    (delta : ℤ) (ttl : Option ℕ) (n : Option ℤ) (now : ℕ)
    → IsAhead ttl now
    → KeepsAhead (plus delta ttl n) now
plus-KeepsAhead delta ttl none now h = tt
plus-KeepsAhead delta ttl (some n) now h = elim (Bool-cases (in_i64 (n +ℤ delta))) [
  | inl y ↦ rw y h
  | inr m ↦ rw m tt
]

pub incremented-KeepsAhead :
    (delta : ℤ) (old : Option (Bytes × Option ℕ)) (now : ℕ)
    → Alive old now
    → KeepsAhead (incremented delta old) now
incremented-KeepsAhead delta none now h = plus-KeepsAhead delta none (some (pos 0)) now (never now)
incremented-KeepsAhead delta (some (p, ttl)) now h = plus-KeepsAhead delta ttl (parse_i64 p) now h

checked-KeepsAhead :
    (v : Bytes) (ttl : Option ℕ) (r : Result (Unit {0})) (now : ℕ)
    → IsAhead ttl now
    → KeepsAhead (checked v ttl r) now
checked-KeepsAhead v ttl (err x) now h = tt
checked-KeepsAhead v ttl (ok _) now h = h

pub extended-KeepsAhead :
    (suffix : Bytes) (old : Option (Bytes × Option ℕ)) (now : ℕ)
    → Alive old now
    → KeepsAhead (extended suffix old) now
extended-KeepsAhead suffix none now h = checked-KeepsAhead suffix none _ now (never now)
extended-KeepsAhead suffix (some (p, ttl)) now h = checked-KeepsAhead (p ++ suffix) ttl _ now h
