-- ===== src/Query/Coordinator.antt =====
-- internal/coordinator_coordinator.go: the dispatch of scans, expressions and statements to their
-- transformers. The source's transformers call the coordinator back on the parts of their data; here
-- the coordinator hands them the actions that transform those parts.

pub mod Keeps
pub mod Invariant
pub mod Resolve
use go_zetasqlite.Prelude.{Bool, true, false, Option, none, some, List, [], ◌∷◌, ◌++◌, map}
use go_zetasqlite.Prelude.Int.{ℤ}
use go_zetasqlite.Prelude.Bytes.{Bytes, codes}
use go_zetasqlite.Result.{ok, panic, unsupported, unexpected_scan}
use go_zetasqlite.Flatten.{Expr, nil}
use go_zetasqlite.Flatten.Statement.{SelectListItem, WithClause, FromItem, no_item, item}
use go_zetasqlite.Query.Action.{Action, ◌>>=◌, pure, fail, ask, given, change_fragment, in_scope}
use go_zetasqlite.Query.Build.{new_clauses, select_item}
use go_zetasqlite.Query.Call.{
  OrderAction, BoundAction, no_bound_action, bound_action, FrameAction, no_frame_action,
  frame_action, WindowAction, transform_function_call,
}
use go_zetasqlite.Query.Context.{
  Column, Context, FragmentContext, get_id, add_available_column, register_column_scope_mapping,
}
use go_zetasqlite.Query.Data.{
  ExpressionData, literal_data, parameter_data, function_data, cast_data, column_data,
  subquery_data, other_data, OptionalExpression, no_expression, the_expression, ExpressionList,
  no_expressions, expression_then, FunctionCallData, call_data, WindowData, no_window_data,
  window_data, OrderList, no_order, order_then, FrameData, no_frame_data, frame_data, BoundData,
  no_bound_data, bound_data, ScanData, scan, OptionalScan, no_scan, the_scan, ScanContent,
  table_scan, join_scan, filter_scan, project_scan, aggregate_scan, order_by_scan, limit_scan,
  set_operation_scan, single_row_scan, with_scan, with_ref_scan, with_entry_scan, array_scan,
  analytic_scan, recursive_scan, recursive_ref_scan, other_scan, ComputedColumns, no_computed,
  computed_then, SelectItems, no_select_items, select_then, WithEntryData, with_entry, WithEntries,
  no_entries, entry_then, SelectData, select_data, StatementData, select_statement_data,
  create_table_data, create_table_as_data, create_view_data, drop_data, StatementList,
  no_statements, statement_then,
}
use go_zetasqlite.Query.Environment.{Environment}
use go_zetasqlite.Query.Expression.{
  transform_literal, transform_parameter, transform_cast, transform_subquery,
}
use go_zetasqlite.Query.Scan.{
  column_expression, transform_project, transform_filter, transform_limit, transform_order_by,
  analytic_order, transform_analytic, transform_single_row, transform_join,
}
use go_zetasqlite.Query.Scan.Aggregate.{transform_aggregate}
use go_zetasqlite.Query.Scan.Sets.{
  SelectStatement, Fragment, select_fragment, create_table_fragment, create_view_fragment,
  drop_fragment, as_select, transform_set_operation, transform_recursive,
}
use go_zetasqlite.Query.Scan.Table.{Synthetic, transform_table, transform_array}
use go_zetasqlite.Query.Scan.With.{
  transform_with_entry, transform_with, transform_with_ref, transform_recursive_ref,
}
use go_zetasqlite.Query.Validate.{validate_column_data}

-- The name of the scan's type in its alias.
unfoldable pub scan_name : ScanContent → Bytes
scan_name (table_scan t a ss) = codes "table_scan"
scan_name (join_scan t l r e) = codes "join_scan"
scan_name (filter_scan s e) = codes "filter_scan"
scan_name (project_scan s cs) = codes "project_scan"
scan_name (aggregate_scan s gs as_ sets) = codes "aggregate_scan"
scan_name (order_by_scan s os) = codes "order_by_scan"
scan_name (limit_scan s c o) = codes "limit_scan"
scan_name (set_operation_scan t m ss) = codes "set_op_scan"
scan_name single_row_scan = codes "single_row_scan"
scan_name (with_scan r es s) = codes "with_scan"
scan_name (with_ref_scan n cs) = codes "with_ref_scan"
scan_name (with_entry_scan e) = []
scan_name (array_scan s e c o b j) = codes "array_scan"
scan_name (analytic_scan s fs) = codes "analytic_scan"
scan_name (recursive_scan op s t) = codes "recursive_scan"
scan_name (recursive_ref_scan cs) = codes "recursive_ref_scan"
scan_name other_scan = []

-- `fromItem.Alias = alias`
abbrev pub with_alias : Bytes → FromItem → Action FromItem
with_alias alias no_item = given panic
with_alias alias (item old b) = pure (item alias b)

-- The columns become available under their own names.
unfoldable pub add_columns : List Column → FragmentContext → FragmentContext
unfolding add_available_column
add_columns [] fc = fc
add_columns (c ∷ cs) fc = add_columns cs (
    add_available_column c.id
      (record { name = c.name; type = []; table_alias = []; expression = nil; id = c.id }) fc)

unfoldable pub register : Bytes → List Column → FragmentContext → FragmentContext
unfolding add_columns register_column_scope_mapping
register alias columns fc = register_column_scope_mapping alias columns (add_columns columns fc)

-- `fmt.Sprintf("%s_%s", alias, GetID())`
unfoldable pub scan_alias : Bytes → Action Bytes
unfolding get_id
scan_alias name = ask (λ ctx. ok (name ++ b'_' ∷ get_id ctx.fragment))

unfoldable pub validated : FromItem → List Column → Action {0} Unit
unfolding validate_column_data
validated from columns = ask (λ ctx. validate_column_data ctx.heap from columns)

-- What TransformScan does with the result of the scan's transformer.
unfoldable pub finish_scan : Bytes → List Column → FromItem → Action FromItem
unfolding scan_alias validated
finish_scan name columns from = do
  alias ← scan_alias name
  aliased ← with_alias alias from
  valid ← validated aliased columns
  registered ← change_fragment (register alias columns)
  pure aliased

unfoldable pub run_scan : Bytes → List Column → Action FromItem → Action FromItem
unfolding in_scope finish_scan
run_scan name columns transformer = in_scope (do from ← transformer; finish_scan name columns from)

-- The select list of a statement, its items already given as actions.
unfoldable pub output_items : List (Bytes × Action Expr) → Action (List SelectListItem)
output_items [] = pure []
output_items ((alias, m) ∷ items) = do
  e ← m
  rest ← output_items items
  pure (select_item e alias ∷ rest)

-- internal/transformer_stmt_query.go
unfoldable pub transform_query : Action FromItem → List (Bytes × Action Expr) → Action Fragment
unfolding output_items
transform_query from_clause items = do
  from ← from_clause
  list ← output_items items
  pure (select_fragment (from, record new_clauses { select_list = list }))

-- internal/transformer_stmt_create_table_as_select.go: the query is a SELECT, or a type assertion
-- panics.
abbrev pub table_of : Bool → Bytes → Fragment → Action Fragment
table_of if_not_exists name (select_fragment s) = pure (create_table_fragment if_not_exists name s)
table_of if_not_exists name (create_table_fragment b t s) = given panic
table_of if_not_exists name (create_view_fragment v f) = given panic
table_of if_not_exists name (drop_fragment b t o) = given panic

unfoldable pub transform_create_table : Bool → Bytes → Action Fragment → Action Fragment
transform_create_table if_not_exists name query = do f ← query; table_of if_not_exists name f

-- internal/transformer_stmt_create_view.go
unfoldable pub transform_create_view : Bytes → Action Fragment → Action Fragment
transform_create_view name query = do f ← query; pure (create_view_fragment name f)

-- TransformScan, TransformExpression, TransformStatement and TransformWithEntry. Inside the
-- CREATE transformers the query passes through TransformStatement again, in a scope of its own.
unfoldable mutual
  unfolding run_scan scan_name transform_query transform_create_table transform_create_view in_scope

  pub transform_scan : Environment → ScanData → Action FromItem
  transform_scan env (scan columns content) =
      run_scan (scan_name content) columns (transform_content env columns content)

  pub transform_content : Environment → List Column → ScanContent → Action FromItem
  transform_content env columns (table_scan name alias ss) =
      transform_table name alias (synthetic_actions env ss) columns
  transform_content env columns (join_scan type l r e) =
      transform_join type (transform_scan env l) (transform_scan env r) (optional_action env e)
  transform_content env columns (filter_scan s e) =
      transform_filter (transform_scan env s) (transform_expression env e)
  transform_content env columns (project_scan s cs) =
      transform_project (transform_scan env s) (computed_actions env cs) columns
  transform_content env columns (aggregate_scan s gs aggs sets) =
      transform_aggregate env (transform_scan env s) (computed_actions env aggs)
        (computed_actions env gs) sets columns
  transform_content env columns (order_by_scan s os) =
      transform_order_by (transform_scan env s) (order_actions env os) columns
  transform_content env columns (limit_scan s c o) =
      transform_limit (transform_scan env s) (transform_expression env c) (optional_action env o)
  transform_content env columns (set_operation_scan type modifier ss) =
      transform_set_operation type modifier (statement_actions env ss) columns
  transform_content env columns single_row_scan = transform_single_row
  transform_content env columns (with_scan recursive es s) =
      transform_with recursive (entry_actions env es) (transform_scan env s)
  transform_content env columns (with_ref_scan name cs) = transform_with_ref name cs
  transform_content env columns (with_entry_scan e) = fail unexpected_scan
  transform_content env columns (array_scan s e c o is_outer j) =
      transform_array (optional_scan env s) (transform_expression env e) c o is_outer
        (optional_action env j) columns
  transform_content env columns (analytic_scan s fs) =
      transform_analytic (transform_scan env s) (computed_actions env fs) (analytic_order fs)
        columns
  transform_content env columns (recursive_scan op s t) =
      transform_recursive op (transform_statement env s) (transform_statement env t) columns
  transform_content env columns (recursive_ref_scan cs) = transform_recursive_ref cs
  transform_content env columns other_scan = fail unsupported

  pub transform_expression : Environment → ExpressionData → Action Expr
  transform_expression env (literal_data v) = transform_literal env v
  transform_expression env (parameter_data identifier) = transform_parameter identifier
  transform_expression env (function_data f) = transform_call env f
  transform_expression env (cast_data e from to null_on_err) =
      transform_cast env (transform_expression env e) from to null_on_err
  transform_expression env (column_data id type name) = column_expression id
  transform_expression env (subquery_data (scan columns content) type in_expr) =
      transform_subquery
        (run_scan (scan_name content) columns (transform_content env columns content)) type columns
        (optional_action env in_expr)
  transform_expression env other_data = fail unsupported

  pub transform_call : Environment → FunctionCallData → Action Expr
  transform_call env (call_data name arguments window) =
      transform_function_call env (call_data name arguments window) name
        (expression_actions env arguments) (window_action env window)

  pub transform_statement : Environment → StatementData → Action Fragment
  transform_statement env (select_statement_data d) = in_scope (transform_select env d)
  transform_statement env create_table_data = in_scope (fail unsupported)
  transform_statement env (create_table_as_data name if_not_exists d) =
      in_scope (transform_create_table if_not_exists name (in_scope (transform_select env d)))
  transform_statement env (create_view_data name d) =
      in_scope (transform_create_view name (in_scope (transform_select env d)))
  transform_statement env (drop_data if_exists type name) =
      in_scope (pure (drop_fragment if_exists type name))

  pub transform_select : Environment → SelectData → Action Fragment
  transform_select env (select_data s items) =
      transform_query (transform_scan env s) (select_actions env items)

  pub optional_action : Environment → OptionalExpression → Option (Action Expr)
  optional_action env no_expression = none
  optional_action env (the_expression e) = some (transform_expression env e)

  pub optional_scan : Environment → OptionalScan → Option (Action FromItem)
  optional_scan env no_scan = none
  optional_scan env (the_scan s) = some (transform_scan env s)

  pub expression_actions : Environment → ExpressionList → List (Action Expr)
  expression_actions env no_expressions = []
  expression_actions env (expression_then e es) =
      transform_expression env e ∷ expression_actions env es

  pub order_actions : Environment → OrderList → List OrderAction
  order_actions env no_order = []
  order_actions env (order_then e is_descending nulls os) =
      record {
        expression = transform_expression env e;
        is_descending = is_descending;
        null_order = nulls;
      }
      ∷ order_actions env os

  pub bound_actions : Environment → BoundData → BoundAction
  bound_actions env no_bound_data = no_bound_action
  bound_actions env (bound_data type e) = bound_action type (optional_action env e)

  pub frame_actions : Environment → FrameData → FrameAction
  frame_actions env no_frame_data = no_frame_action
  frame_actions env (frame_data unit start end_) =
      frame_action unit (bound_actions env start) (bound_actions env end_)

  pub window_action : Environment → WindowData → Option WindowAction
  window_action env no_window_data = none
  window_action env (window_data partition_by os f) = some (record {
    partition_by = expression_actions env partition_by;
    orders = order_actions env os;
    frame_clause = frame_actions env f;
  })

  pub computed_actions : Environment → ComputedColumns → List (ℤ × Action Expr)
  computed_actions env no_computed = []
  computed_actions env (computed_then id e cs) =
      (id, transform_expression env e) ∷ computed_actions env cs

  pub synthetic_actions : Environment → SelectItems → List Synthetic
  synthetic_actions env no_select_items = []
  synthetic_actions env (select_then e alias items) =
      (e, transform_expression env e, alias) ∷ synthetic_actions env items

  pub select_actions : Environment → SelectItems → List (Bytes × Action Expr)
  select_actions env no_select_items = []
  select_actions env (select_then e alias items) =
      (alias, transform_expression env e) ∷ select_actions env items

  pub entry_actions : Environment → WithEntries → List (Bytes × Action WithClause)
  entry_actions env no_entries = []
  entry_actions env (entry_then (with_entry name s columns) es) =
      (name, in_scope (transform_with_entry name (transform_scan env s) columns))
      ∷ entry_actions env es

  pub statement_actions : Environment → StatementList → List (Action Fragment)
  statement_actions env no_statements = []
  statement_actions env (statement_then s ss) = transform_statement env s ∷ statement_actions env ss
