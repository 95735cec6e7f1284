-- ===== src/Value.antt =====
-- internal/value.go: the SQL values and their methods. The Go interface `Value` is `Option Value`,
-- whose `none` is the nil interface, SQL's NULL.
pub mod Convert
pub mod IntValue
pub mod StringValue
pub mod BytesValue
pub mod BoolValue
pub mod Compare
pub mod Arith
use go_zetasqlite.Prelude.{Bool, Option, none, some, List, [], ◌∷◌, ◌≡◌, refl, ap}
use go_zetasqlite.Prelude.Int.{ℤ}
use go_zetasqlite.Prelude.Bytes.{Bytes}
use go_zetasqlite.Result.{Result, panic}

-- The dynamic types behind the interface that are modelled, and the elements of an array, which
-- may be nil.
mutual
  pub data Value : Type 0 where
    int : ℤ → Value
    string : Bytes → Value
    bytes : Bytes → Value
    bool : Bool → Value
    array : Elems → Value

  pub data Elems : Type 0 where
    end : Elems
    elem : Value → Elems → Elems
    null : Elems → Elems

unfoldable pub to_list : Elems → List (Option Value)
to_list end = []
to_list (elem v xs) = some v ∷ to_list xs
to_list (null xs) = none ∷ to_list xs

unfoldable pub of_list : List (Option Value) → Elems
of_list [] = end
of_list (some v ∷ vs) = elem v (of_list vs)
of_list (none ∷ vs) = null (of_list vs)

pub to_list-of_list : (vs : List (Option Value)) → to_list (of_list vs) ≡ vs
unfolding to_list of_list
to_list-of_list [] = refl
to_list-of_list (some v ∷ vs) = ap (λ r. some v ∷ r) (to_list-of_list vs)
to_list-of_list (none ∷ vs) = ap (λ r. none ∷ r) (to_list-of_list vs)

-- A method call on an interface value: nil panics.
abbrev pub call {ℓ} : {A : Type ℓ} → Option Value → (Value → Result A) → Result A
call none method = panic
call (some v) method = method v

-- The five comparison methods of the interface.
pub data Comparison : Type 0 where
  eq gt gte lt lte : Comparison
