-- ===== src/Function/Logic/Kleene.antt =====
-- AND, OR and NOT beside three-valued logic (internal/function.go).
use go_zetasqlite.Prelude.{
  Bool, true, false, not, Option, none, some, List, [], ◌∷◌, map, ◌≡◌, refl, arith,
}
use go_zetasqlite.Result.{ok, ◌>>=◌}
use go_zetasqlite.Value.{Value, bool}
use go_zetasqlite.Value.Convert.{to_bool, to_int64}
use go_zetasqlite.Function.Logic.{and_loop, and, or_loop, or, bind_not}

-- Truth values of SQL: `none` is unknown.
abbrev pub Truth : Type 0
Truth = Option Bool

abbrev pub from_truth : Truth → Option Value
from_truth none = none
from_truth (some b) = some (bool b)

-- Kleene's strong conjunction and disjunction.
abbrev pub conj : Truth → Truth → Truth
conj (some false) q = some false
conj (some true) q = q
conj none (some false) = some false
conj none (some true) = none
conj none none = none

abbrev pub disj : Truth → Truth → Truth
disj (some true) q = some true
disj (some false) q = q
disj none (some true) = some true
disj none (some false) = none
disj none none = none

abbrev pub conj_all : List Truth → Truth
conj_all [] = some true
conj_all (t ∷ ts) = conj t (conj_all ts)

abbrev pub disj_all : List Truth → Truth
disj_all [] = some false
disj_all (t ∷ ts) = disj t (disj_all ts)

abbrev pub negate : Truth → Truth
negate none = none
negate (some b) = some (not b)

-- A value that stands for a truth value: nil, or one that ToBool converts to it.
abbrev pub Denotes : Option Value → Truth → Type 0
Denotes none none = Unit
Denotes none (some b) = ⊥
Denotes (some v) none = ⊥
Denotes (some v) (some b) = to_bool v ≡ ok b

abbrev pub Denote : List (Option Value) → List Truth → Type 0
Denote [] [] = Unit
Denote [] (t ∷ ts) = ⊥
Denote (v ∷ vs) [] = ⊥
Denote (v ∷ vs) (t ∷ ts) = Denotes v t × Denote vs ts

and_lem :
    (args : List (Option Value)) (ts : List Truth)
    → Denote args ts
    → (and_loop args (ok none) ≡ ok (from_truth (conj none (conj_all ts))))
      × (and args ≡ ok (from_truth (conj_all ts)))
unfolding and
and_lem [] [] h = (refl, refl)
and_lem [] (t ∷ ts) h = absurd h
and_lem (v ∷ vs) [] h = absurd h
and_lem (none ∷ vs) (none ∷ ts) (d, h) = ground (arith, and_lem vs ts h)
and_lem (none ∷ vs) (some b ∷ ts) (d, h) = absurd d
and_lem (some v ∷ vs) (none ∷ ts) (d, h) = absurd d
and_lem (some v ∷ vs) (some true ∷ ts) (d, h) = rw d (and_lem vs ts h)
and_lem (some v ∷ vs) (some false ∷ ts) (d, h) = rw d (refl, refl)

or_lem :
    (args : List (Option Value)) (ts : List Truth)
    → Denote args ts
    → (or_loop args (ok none) ≡ ok (from_truth (disj none (disj_all ts))))
      × (or args ≡ ok (from_truth (disj_all ts)))
unfolding or
or_lem [] [] h = (refl, refl)
or_lem [] (t ∷ ts) h = absurd h
or_lem (v ∷ vs) [] h = absurd h
or_lem (none ∷ vs) (none ∷ ts) (d, h) = ground (arith, or_lem vs ts h)
or_lem (none ∷ vs) (some b ∷ ts) (d, h) = absurd d
or_lem (some v ∷ vs) (none ∷ ts) (d, h) = absurd d
or_lem (some v ∷ vs) (some false ∷ ts) (d, h) = rw d (or_lem vs ts h)
or_lem (some v ∷ vs) (some true ∷ ts) (d, h) = rw d (refl, refl)

-- On arguments that convert to truth values or are null, AND returns their conjunction in Kleene's
-- three-valued logic, with null for the unknown value.
pub and-conj_all :
    (args : List (Option Value)) (ts : List Truth)
    → Denote args ts
    → and args ≡ ok (from_truth (conj_all ts))
and-conj_all args ts h = (and_lem args ts h).1

-- On arguments that convert to truth values or are null, OR returns their disjunction in Kleene's
-- three-valued logic, with null for the unknown value.
pub or-disj_all :
    (args : List (Option Value)) (ts : List Truth)
    → Denote args ts
    → or args ≡ ok (from_truth (disj_all ts))
or-disj_all args ts h = (or_lem args ts h).1

from_truth-Denote : (ts : List Truth) → Denote (map from_truth ts) ts
unfolding to_bool
from_truth-Denote [] = tt
from_truth-Denote (none ∷ ts) = (tt, from_truth-Denote ts)
from_truth-Denote (some b ∷ ts) = (refl, from_truth-Denote ts)

bind_not-from_truth : (t : Truth) → bind_not (from_truth t) ≡ ok (from_truth (negate t))
unfolding bind_not to_int64
bind_not-from_truth none = refl
bind_not-from_truth (some true) = refl
bind_not-from_truth (some false) = refl

negate-conj : (t u : Truth) → negate (conj t u) ≡ disj (negate t) (negate u)
negate-conj t u = ground arith

negate-conj_all : (ts : List Truth) → negate (conj_all ts) ≡ disj_all (map negate ts)
negate-conj_all [] = refl
negate-conj_all (t ∷ ts) = rw (negate-conj t (conj_all ts), negate-conj_all ts)

-- De Morgan's law for the SQL functions: on BOOL values and nulls, NOT of AND is OR of the NOTs.
pub not-and :
    (ts : List Truth) → (and (map from_truth ts) >>= bind_not) ≡ or (map from_truth (map negate ts))
not-and ts = rw (
  and-conj_all (map from_truth ts) ts (from_truth-Denote ts),
  or-disj_all (map from_truth (map negate ts)) (map negate ts) (from_truth-Denote (map negate ts)),
  bind_not-from_truth (conj_all ts),
  negate-conj_all ts,
)
