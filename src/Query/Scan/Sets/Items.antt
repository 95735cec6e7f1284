-- ===== src/Query/Scan/Sets/Items.antt =====
-- The columns of a set operation pass the check of the output columns.
use go_zetasqlite.Prelude.{◌≡◌, refl, ap, false, ◌||◌, List, [], ◌∷◌, map, All}
use mathlib.Core.Path.{subst}
use go_zetasqlite.Prelude.Bytes.{Bytes}
use go_zetasqlite.Result
use go_zetasqlite.Result.{Result, ok, err, panic, out_of_fuel}
use go_zetasqlite.Flatten.Statement.{SelectListItem, Statement, FromItem}
use go_zetasqlite.Query.Action.{Action, each, given}
use go_zetasqlite.Query.Build.{new_clauses, select_item, new_column_expression}
use go_zetasqlite.Query.Context.{Column, Context, alias_of}
use go_zetasqlite.Query.Coordinator.Resolve.{continue_parts, ok_parts}
use go_zetasqlite.Query.Scan.Sets.{
  Fragment, select_item_of, new_items, renamed, first_list, transform_set_operation,
}
use go_zetasqlite.Query.Validate.{is_star_query, is_star, validate_column_data}
use go_zetasqlite.Query.Validate.Accepts.{aliases, validate_column_data-aliases}

abbrev NotStar : SelectListItem → Type 0
NotStar i = (i.is_star_expansion || is_star i.expression) ≡ false

abbrev IsRenamed : List Column → List SelectListItem → Type 0
IsRenamed cs items = (aliases items ≡ map alias_of cs) × All NotStar items

not_star : (items : List SelectListItem) → All NotStar items → is_star_query items ≡ false
not_star [] h = refl
not_star (i ∷ []) (h, hs) = h
not_star (i ∷ j ∷ items) h = refl

same_list : (xs ys : List SelectListItem) → Result.ok xs ≡ ok ys → xs ≡ ys
same_list xs ys e = cc

add-IsRenamed :
    (i : SelectListItem) (c : Column) (cs : List Column) (r : Result (List SelectListItem))
    (out : List SelectListItem)
    → ((rest : List SelectListItem) → r ≡ ok rest → IsRenamed cs rest)
    → Result.◌>>=◌ r (λ rest. ok (select_item (new_column_expression i.alias) (alias_of c) ∷ rest))
      ≡ ok out
    → IsRenamed (c ∷ cs) out
unfolding new_column_expression
add-IsRenamed i c cs (ok rest) out h e =
    let later = h rest refl in
    subst (IsRenamed (c ∷ cs))
      (same_list (select_item (new_column_expression i.alias) (alias_of c) ∷ rest) out e)
      (ap (λ as_. alias_of c ∷ as_) later.0, (refl, later.1))
add-IsRenamed i c cs (err x) out h e = cc
add-IsRenamed i c cs panic out h e = cc
add-IsRenamed i c cs out_of_fuel out h e = cc

renamed-IsRenamed :
    (items : List SelectListItem) (cs : List Column) (out : List SelectListItem)
    → renamed items cs ≡ ok out
    → IsRenamed cs out
unfolding renamed
renamed-IsRenamed items [] [] e = (refl, tt)
renamed-IsRenamed items [] (o ∷ out) e = cc
renamed-IsRenamed [] (c ∷ cs) out e = cc
renamed-IsRenamed (i ∷ items) (c ∷ cs) out e =
    add-IsRenamed i c cs (renamed items cs) out (renamed-IsRenamed items cs) e

given_ok {ℓ} :
    {A : Type ℓ} (r : Result A) (ctx : Context) (a : A) (ctx' : Context)
    → given r ctx ≡ ok (a, ctx')
    → r ≡ ok a
given_ok (ok x) ctx a ctx' e = ap ok (ok_parts (x, ctx) (a, ctx') e).0
given_ok (err x) ctx a ctx' e = cc
given_ok panic ctx a ctx' e = cc
given_ok out_of_fuel ctx a ctx' e = cc

-- Whatever item a set operation scan is transformed to, the item passes the coordinator's check of the
-- output columns.
pub validate_column_data-transform_set_operation :
    (type modifier : Bytes) (statements : List (Action Fragment)) (cs : List Column) (ctx : Context)
    (from : FromItem) (ctx' : Context) (heap : List Statement)
    → transform_set_operation type modifier statements cs ctx ≡ ok (from, ctx')
    → validate_column_data heap from cs ≡ ok tt
unfolding transform_set_operation
validate_column_data-transform_set_operation type modifier statements cs ctx from ctx' heap e =
    let items = continue_parts (each (map select_item_of statements) ctx) _ e in
    let addresses = continue_parts (new_items items.0.0 items.0.1) _ items.2 in
    let list =
      continue_parts (given (renamed (first_list items.0.0) cs) addresses.0.1) _ addresses.2 in
    let columns =
      renamed-IsRenamed (first_list items.0.0) cs list.0.0
        (given_ok (renamed (first_list items.0.0) cs) addresses.0.1 list.0.0 list.0.1 list.1) in
    subst (λ f. validate_column_data heap f cs ≡ ok tt)
      (ok_parts (_, list.0.1) (from, ctx') list.2).0
      (validate_column_data-aliases heap cs list.0.0 _ _ new_clauses columns.0
        (not_star list.0.0 columns.1) refl)
