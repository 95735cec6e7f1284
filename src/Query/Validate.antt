-- ===== src/Query/Validate.antt =====
-- The check of a scan's output columns in internal/coordinator_coordinator.go (validateColumnData
-- and getSelectListRecursive).
pub mod Accepts
use go_zetasqlite.Prelude.{
  ℕ, Bool, true, false, not, ◌&&◌, ◌||◌, Option, none, some, List, [], ◌∷◌, ◌++◌, map, length, ◌==◌,
  if◌then◌else◌,
}
use go_zetasqlite.Prelude.Bytes.{Bytes, bytes_eq}
use go_zetasqlite.Result.{Result, ok, err, panic, ◌>>=◌, validation_failed}
use go_zetasqlite.Flatten.{
  ExpressionType, column, literal, parameter, function, list_type, unary_type, binary_type,
  subquery_type, star, case_type, exists_type, cast_type, Expr, nil, expr,
}
use go_zetasqlite.Flatten.Statement.{
  SelectListItem, SetOperation, Clauses, Statement, no_statement, select, FromItem, no_item, item,
  FromBody, body, FromItemType, table_item, subquery_item, join_item, with_ref_item,
  table_function_item, unnest_item, single_row_item, JoinClause, no_join, join_clause,
}
use go_zetasqlite.Query.Context.{Column, alias_of}

abbrev Items : Type 0
Items = Result (List SelectListItem)

abbrev is_star_type : ExpressionType → Bool
is_star_type star = true
is_star_type column = false
is_star_type literal = false
is_star_type parameter = false
is_star_type function = false
is_star_type list_type = false
is_star_type unary_type = false
is_star_type binary_type = false
is_star_type subquery_type = false
is_star_type case_type = false
is_star_type exists_type = false
is_star_type cast_type = false

abbrev pub is_star : Expr → Bool
is_star nil = false
is_star (expr type text fs) = is_star_type type

-- SELECT * alone.
abbrev pub is_star_query : List SelectListItem → Bool
is_star_query [] = false
is_star_query (i ∷ []) = i.is_star_expansion || is_star i.expression
is_star_query (i ∷ j ∷ items) = false

abbrev pub first_item : (ℕ → Items) → List ℕ → Items
first_item at [] = panic
first_item at (k ∷ ks) = at k

-- The list of SELECT * is that of its FROM clause, where it has one.
abbrev pub star_list : List SelectListItem → Option Items → Items
star_list items none = ok items
star_list items (some below) = if is_star_query items then below else ok items

abbrev pub both : Option (Items × Items) → Items
both none = panic
both (some (l, r)) = do ls ← l; rs ← r; ok (ls ++ rs)

abbrev pub list_below : FromItemType → Option Items → Option (Items × Items) → Option Items
list_below subquery_item sub join = sub
list_below join_item sub join = some (both join)
list_below table_item sub join = none
list_below with_ref_item sub join = none
list_below table_function_item sub join = none
list_below unnest_item sub join = none
list_below single_row_item sub join = none

abbrev pub list_of : (ℕ → Items) → Clauses → Option Items → Items
list_of at clauses below = elim clauses.set_operation [
  | some op ↦ first_item at op.items
  | none ↦ star_list clauses.select_list below
]

abbrev pub unless_nil : Statement → Items → Option Items
unless_nil no_statement items = none
unless_nil (select from clauses) items = some items

-- getSelectListRecursive: `at` gives the list of the statement at an address.
unfoldable mutual
  pub get_select_list : (at : ℕ → Items) → Statement → Items
  get_select_list at no_statement = panic
  get_select_list at (select from clauses) = list_of at clauses (list_from at from)

  pub list_from : (at : ℕ → Items) → FromItem → Option Items
  list_from at no_item = none
  list_from at (item alias (body type sub join rest)) =
      list_below type (unless_nil sub (get_select_list at sub)) (list_join at join)

  pub list_join : (at : ℕ → Items) → JoinClause → Option (Items × Items)
  list_join at no_join = none
  list_join at (join_clause type left right condition using) =
      some (list_side at left, list_side at right)

  pub list_side : (at : ℕ → Items) → FromItem → Items
  list_side at no_item = panic
  list_side at (item alias (body type sub join rest)) = get_select_list at sub

-- The list of the statement at an address, which points only to older statements.
unfoldable pub list_at : List Statement → ℕ → Items
unfolding get_select_list
list_at [] k = panic
list_at (s ∷ older) k =
    let rest = list_at older k in
    if length older == k then get_select_list (list_at older) s else rest

abbrev pub has_alias : Bytes → List Column → Bool
has_alias alias [] = false
has_alias alias (c ∷ cs) = bytes_eq alias (alias_of c) || has_alias alias cs

abbrev pub all_aliased : List Column → List SelectListItem → Bool
all_aliased columns [] = true
all_aliased columns (i ∷ items) =
    not (bytes_eq i.alias []) && has_alias i.alias columns && all_aliased columns items

abbrev pub checked : List Column → List SelectListItem → Result {0} Unit
checked columns items =
    if (length items == length columns) && all_aliased columns items
    then ok tt
    else err validation_failed

unfoldable pub validate_subquery : List Statement → Statement → List Column → Result {0} Unit
unfolding get_select_list list_at
validate_subquery heap no_statement columns = err validation_failed
validate_subquery heap (select from clauses) columns = do
  items ← get_select_list (list_at heap) (select from clauses)
  checked columns items

abbrev pub validate_body : List Statement → FromBody → List Column → Result {0} Unit
validate_body heap (body subquery_item sub join rest) columns = validate_subquery heap sub columns
validate_body heap (body table_item sub join rest) columns = ok tt
validate_body heap (body join_item sub join rest) columns = ok tt
validate_body heap (body with_ref_item sub join rest) columns = ok tt
validate_body heap (body table_function_item sub join rest) columns = ok tt
validate_body heap (body unnest_item sub join rest) columns = ok tt
validate_body heap (body single_row_item sub join rest) columns = ok tt

unfoldable pub validate_column_data : List Statement → FromItem → List Column → Result {0} Unit
validate_column_data heap from [] = ok tt
validate_column_data heap no_item (c ∷ cs) = ok tt
validate_column_data heap (item alias b) (c ∷ cs) = validate_body heap b (c ∷ cs)
