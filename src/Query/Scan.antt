-- ===== src/Query/Scan.antt =====
-- The transformers of scans that read one input (internal/transformer_scan_project.go, _filter,
-- _limit, _orderby, _analytic, _single_row), given the actions that transform their parts.
pub mod Table
pub mod Kept
pub mod With
pub mod Sets
pub mod Aggregate
use go_zetasqlite.Prelude.{
  ℕ, Bool, true, false, Option, none, some, List, [], ◌∷◌, ◌++◌, map, ◌==◌, if◌then◌else◌,
}
use go_zetasqlite.Prelude.Int.{ℤ}
use go_zetasqlite.Prelude.Bytes.{Bytes, codes}
use go_zetasqlite.Flatten.{Expr, nil, OrderByItem, order_by_item}
use go_zetasqlite.Flatten.Statement.{
  SelectListItem, Clauses, Statement, select, FromItem, item, body, LimitClause, JoinType,
  inner_join, left_join, right_join, full_join,
}
use go_zetasqlite.Query.Action.{Action, ◌>>=◌, pure, ask, each, each_keyed, optional}
use go_zetasqlite.Query.Build.{
  new_clauses, select_item, star_clauses, new_subquery_from_item, new_join_from_item,
  single_row_from_item,
}
use go_zetasqlite.Query.Context.{
  Column, Context, lookup, alias_of, get_qualified_column_expression, get_id, allocate,
}
use go_zetasqlite.Query.Data.{
  AstJoinType, ast_inner, ast_left, ast_right, ast_full, ast_other_join, ExpressionData,
  column_data, FunctionCallData, call_data, literal_data, parameter_data, function_data, cast_data,
  subquery_data, other_data, WindowData, no_window_data, window_data, ComputedColumns, no_computed,
  computed_then, ExpressionList, no_expressions, expression_then, OrderList, no_order, order_then,
}
use go_zetasqlite.Query.OrderItems.{collated, direction_of}
use go_zetasqlite.Query.Call.{OrderAction, order_by}

-- `ctx.FragmentContext().GetQualifiedColumnExpression(id)`
unfoldable pub column_expression : ℤ → Action Expr
column_expression id = ask (λ ctx. get_qualified_column_expression ctx.fragment id)

-- The later of two entries for a key in the source's map: entries of a list are in the list's order.
abbrev pub first_of {ℓ} : {A : Type ℓ} → Option A → Option A → Option A
first_of (some a) o = some a
first_of none o = o

abbrev pub last_entry {ℓ} : {A : Type ℓ} → ℤ → List (ℤ × A) → Option A
last_entry id [] = none
last_entry id (e ∷ entries) = first_of (last_entry id entries) (lookup id (e ∷ []))

-- The select list, one item with its alias for each column.
unfoldable pub select_columns : (Column → Action Expr) → List Column → Action (List SelectListItem)
select_columns expression_of [] = pure []
select_columns expression_of (c ∷ cs) = do
  e ← expression_of c
  items ← select_columns expression_of cs
  pure (select_item e (alias_of c) ∷ items)

unfoldable pub subquery_of : FromItem → Clauses → FromItem
unfolding new_subquery_from_item
subquery_of from clauses = new_subquery_from_item (select from clauses) []

abbrev pub update : (Context → Context) → Action {0} Unit
update f ctx = pure tt (f ctx)

-- `&SelectStatement{…}`
unfoldable pub new_statement : Statement → Action ℕ
unfolding allocate
new_statement s ctx = pure (allocate s ctx).0 (allocate s ctx).1

-- A column of the projection: its computed expression, or else a reference to it.
unfoldable pub projected : List (ℤ × Action Expr) → Column → Action Expr
unfolding column_expression
projected computed c = elim (last_entry c.id computed) [
  | none ↦ column_expression c.id
  | some m ↦ m
]

unfoldable pub transform_project :
    Action FromItem → List (ℤ × Action Expr) → List Column → Action FromItem
unfolding select_columns projected
transform_project input computed columns = do
  from ← input
  items ← select_columns (projected computed) columns
  pure (subquery_of from (record new_clauses { select_list = items }))

unfoldable pub transform_filter : Action FromItem → Action Expr → Action FromItem
unfolding star_clauses
transform_filter input filter_expr = do
  from ← input
  e ← filter_expr
  pure (subquery_of from (record star_clauses { where_clause = e }))

-- The alias that addLimitToSelect gives is replaced by the coordinator's.
unfoldable pub transform_limit :
    Action FromItem → Action Expr → Option (Action Expr) → Action FromItem
unfolding star_clauses
transform_limit input count offset = do
  from ← input
  c ← count
  o ← optional nil offset
  pure (
      subquery_of from
        (record star_clauses { limit_clause = some (record { count = c; offset = o }) }))

unfoldable pub transform_order_by :
    Action FromItem → List OrderAction → List Column → Action FromItem
unfolding select_columns
transform_order_by input orders columns = do
  from ← input
  order ← order_by orders
  items ← select_columns (λ c. column_expression c.id) columns
  pure (subquery_of from (record new_clauses { select_list = items; order_by_list = order }))

abbrev ordered_column : ℤ → Bool → Action OrderByItem
ordered_column id is_descending = do
  e ← column_expression id
  pure (order_by_item (collated e) (direction_of is_descending) [])

abbrev pub order_of_column : ExpressionData → Bool → List (Action OrderByItem)
order_of_column (column_data id type name) is_descending = ordered_column id is_descending ∷ []
order_of_column (literal_data v) is_descending = []
order_of_column (parameter_data s) is_descending = []
order_of_column (function_data f) is_descending = []
order_of_column (cast_data e from to b) is_descending = []
order_of_column (subquery_data s t e) is_descending = []
order_of_column other_data is_descending = []

unfoldable pub partition_order : ExpressionList → List (Action OrderByItem)
partition_order no_expressions = []
partition_order (expression_then e es) = order_of_column e false ++ partition_order es

unfoldable pub window_order : OrderList → List (Action OrderByItem)
window_order no_order = []
window_order (order_then e is_descending nulls os) =
    order_of_column e is_descending ++ window_order os

abbrev pub order_of_window : WindowData → List (Action OrderByItem)
order_of_window no_window_data = []
order_of_window (window_data partition_by orders f) =
    partition_order partition_by ++ window_order orders

abbrev pub order_of_call : FunctionCallData → List (Action OrderByItem)
order_of_call (call_data name arguments window) = order_of_window window

abbrev pub order_of_function : ExpressionData → List (Action OrderByItem)
order_of_function (function_data f) = order_of_call f
order_of_function (column_data id type name) = []
order_of_function (literal_data v) = []
order_of_function (parameter_data s) = []
order_of_function (cast_data e from to b) = []
order_of_function (subquery_data s t e) = []
order_of_function other_data = []

-- The partitions and orders of the window functions, as far as they are columns.
unfoldable pub analytic_order : ComputedColumns → List (Action OrderByItem)
analytic_order no_computed = []
analytic_order (computed_then id e cs) = order_of_function e ++ analytic_order cs

unfoldable pub analytic_column : List (ℤ × Expr) → Column → Action Expr
analytic_column functions c = elim (last_entry c.id functions) [
  | none ↦ column_expression c.id
  | some e ↦ pure e
]

unfoldable pub transform_analytic :
    Action FromItem
    → List (ℤ × Action Expr)
    → List (Action OrderByItem)
    → List Column
    → Action FromItem
unfolding select_columns analytic_column
transform_analytic input functions orders columns = do
  from ← input
  fs ← each_keyed functions
  items ← select_columns (analytic_column fs) columns
  order ← each orders
  pure (subquery_of from (record new_clauses { select_list = items; order_by_list = order }))

unfoldable pub transform_single_row : Action FromItem
unfolding single_row_from_item
transform_single_row = pure single_row_from_item

unfoldable pub convert_join_type : AstJoinType → JoinType
convert_join_type ast_inner = inner_join
convert_join_type ast_left = left_join
convert_join_type ast_right = right_join
convert_join_type ast_full = full_join
convert_join_type ast_other_join = inner_join

unfoldable pub transform_join :
    AstJoinType → Action FromItem → Action FromItem → Option (Action Expr) → Action FromItem
unfolding star_clauses new_join_from_item convert_join_type
transform_join type left right condition = do
  l ← left
  r ← right
  e ← optional nil condition
  pure (subquery_of (new_join_from_item (convert_join_type type) l r e) star_clauses)
