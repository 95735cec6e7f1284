-- ===== src/Query/Coordinator/Invariant.antt =====
-- The transformation of a query keeps the context that it starts from.
use go_zetasqlite.Prelude.{List, All}
use go_zetasqlite.Query.Action.{pure, fail}
use go_zetasqlite.Query.Context.{Column, Context}
use go_zetasqlite.Query.Coordinator.{
  transform_scan, transform_content, transform_expression, transform_call, transform_statement,
  transform_select, optional_action, optional_scan, expression_actions, order_actions,
  bound_actions, frame_actions, window_action, computed_actions, synthetic_actions, select_actions,
  entry_actions, statement_actions,
}
use go_zetasqlite.Query.Coordinator.Keeps.{
  Kept-run_scan, Kept-transform_query, Kept-transform_create_table, Kept-transform_create_view,
}
use go_zetasqlite.Query.Data.{
  ExpressionData, literal_data, parameter_data, function_data, cast_data, column_data,
  subquery_data, other_data, OptionalExpression, no_expression, the_expression, ExpressionList,
  no_expressions, expression_then, FunctionCallData, call_data, WindowData, no_window_data,
  window_data, OrderList, no_order, order_then, FrameData, no_frame_data, frame_data, BoundData,
  no_bound_data, bound_data, ScanData, scan, OptionalScan, no_scan, the_scan, ScanContent,
  table_scan, join_scan, filter_scan, project_scan, aggregate_scan, order_by_scan, limit_scan,
  set_operation_scan, single_row_scan, with_scan, with_ref_scan, with_entry_scan, array_scan,
  analytic_scan, recursive_scan, recursive_ref_scan, other_scan, ComputedColumns, no_computed,
  computed_then, SelectItems, no_select_items, select_then, with_entry, WithEntries, no_entries,
  entry_then, SelectData, select_data, StatementData, select_statement_data, create_table_data,
  create_table_as_data, create_view_data, drop_data, StatementList, no_statements, statement_then,
}
use go_zetasqlite.Query.Environment.{Environment}
use go_zetasqlite.Query.Expression.{transform_parameter}
use go_zetasqlite.Query.Kept.{Extends-refl, Kept, Within, KeptEntries, KeptOption, Kept-in_scope}
use go_zetasqlite.Result.{unsupported}
use go_zetasqlite.Query.Scan.Sets.{Fragment, drop_fragment}
use go_zetasqlite.Query.Scan.{transform_single_row}
use go_zetasqlite.Query.Scan.Kept.{
  Kept-column_expression, Kept-transform_project, Kept-transform_filter, Kept-transform_limit,
}
use go_zetasqlite.Query.Scan.Kept.Orders.{
  KeptOrders, Kept-transform_order_by, Kept-transform_analytic, All-analytic_order,
  Kept-transform_join,
}
use go_zetasqlite.Query.Scan.Kept.Sets.{
  Kept-transform_set_operation, Kept-transform_recursive, Kept-transform_aggregate,
  Kept-transform_with_entry, Kept-transform_with, Kept-transform_with_ref,
  Kept-transform_recursive_ref,
}
use go_zetasqlite.Query.Scan.Kept.Table.{KeptSynthetic, Kept-transform_table, Kept-transform_array}
use go_zetasqlite.Query.Scan.Kept.Expression.{
  KeptBound, KeptFrame, KeptWindow, Kept-transform_function_call, Kept-transform_literal,
  Kept-transform_cast, Kept-transform_subquery,
}

module _ (env : Environment) where
  mutual
    unfolding transform_scan transform_single_row transform_parameter

    Kept-scan : (s : ScanData) → Kept (transform_scan env s)
    Kept-scan (scan cs content) = Kept-run_scan _ cs _ (Kept-content cs content)

    Kept-content : (cs : List Column) (s : ScanContent) → Kept (transform_content env cs s)
    Kept-content cs (table_scan name alias ss) =
        Kept-transform_table name alias _ cs (kept_synthetic ss)
    Kept-content cs (join_scan type l r e) =
        Kept-transform_join type _ _ _ (Kept-scan l) (Kept-scan r) (kept_optional e)
    Kept-content cs (filter_scan s e) = Kept-transform_filter _ _ (Kept-scan s) (Kept-expression e)
    Kept-content cs (project_scan s es) =
        Kept-transform_project _ _ cs (Kept-scan s) (kept_computed es)
    Kept-content cs (aggregate_scan s gs aggs sets) =
        Kept-transform_aggregate env _ _ _ sets cs (Kept-scan s) (kept_computed aggs)
          (kept_computed gs)
    Kept-content cs (order_by_scan s os) =
        Kept-transform_order_by _ _ cs (Kept-scan s) (kept_orders os)
    Kept-content cs (limit_scan s c o) =
        Kept-transform_limit _ _ _ (Kept-scan s) (Kept-expression c) (kept_optional o)
    Kept-content cs (set_operation_scan type modifier ss) =
        Kept-transform_set_operation type modifier _ cs (Kept-statements ss)
    Kept-content cs single_row_scan = Extends-refl
    Kept-content cs (with_scan recursive es s) =
        Kept-transform_with recursive _ _ (kept_entries es) (Kept-scan s)
    Kept-content cs (with_ref_scan name ds) = Kept-transform_with_ref name ds
    Kept-content cs (with_entry_scan e) = λ ctx. tt
    Kept-content cs (array_scan s e c o is_outer j) =
        Kept-transform_array _ _ c o is_outer _ cs (kept_optional_scan s) (Kept-expression e)
          (kept_optional j)
    Kept-content cs (analytic_scan s fs) =
        Kept-transform_analytic _ _ _ cs (Kept-scan s) (kept_computed fs) (All-analytic_order fs)
    Kept-content cs (recursive_scan op s t) =
        Kept-transform_recursive op _ _ cs (Kept-statement s) (Kept-statement t)
    Kept-content cs (recursive_ref_scan ds) = Kept-transform_recursive_ref ds
    Kept-content cs other_scan = λ ctx. tt

    Kept-expression : (e : ExpressionData) → Kept (transform_expression env e)
    Kept-expression (literal_data v) = Kept-transform_literal env v
    Kept-expression (parameter_data identifier) = Extends-refl
    Kept-expression (function_data f) = Kept-call f
    Kept-expression (cast_data e from to b) =
        Kept-transform_cast env _ from to b (Kept-expression e)
    Kept-expression (column_data id type name) = Kept-column_expression id
    Kept-expression (subquery_data (scan cs content) type e) =
        Kept-transform_subquery _ type cs _ (Kept-run_scan _ cs _ (Kept-content cs content))
          (kept_optional e)
    Kept-expression other_data = λ ctx. tt

    Kept-call : (f : FunctionCallData) → Kept (transform_call env f)
    Kept-call (call_data name es w) =
        Kept-transform_function_call env _ name _ _ (Kept-expressions es) (kept_window w)

    Kept-statement : (s : StatementData) → Kept (transform_statement env s)
    Kept-statement (select_statement_data d) = Kept-in_scope _ (Kept-select d)
    Kept-statement create_table_data = Kept-in_scope {A = Fragment} (fail unsupported) (λ ctx. tt)
    Kept-statement (create_table_as_data name b d) =
        Kept-in_scope _ (Kept-transform_create_table b name _ (Kept-in_scope _ (Kept-select d)))
    Kept-statement (create_view_data name d) =
        Kept-in_scope _ (Kept-transform_create_view name _ (Kept-in_scope _ (Kept-select d)))
    Kept-statement (drop_data b type name) =
        Kept-in_scope (pure (drop_fragment b type name)) Extends-refl

    Kept-select : (d : SelectData) → Kept (transform_select env d)
    Kept-select (select_data s items) = Kept-transform_query _ _ (Kept-scan s) (kept_items items)

    pub kept_optional : (e : OptionalExpression) → KeptOption (optional_action env e)
    kept_optional no_expression = tt
    kept_optional (the_expression e) = Kept-expression e

    pub kept_optional_scan : (s : OptionalScan) → KeptOption (optional_scan env s)
    kept_optional_scan no_scan = tt
    kept_optional_scan (the_scan s) = Kept-scan s

    Kept-expressions : (es : ExpressionList) → All Kept (expression_actions env es)
    Kept-expressions no_expressions = tt
    Kept-expressions (expression_then e es) = (Kept-expression e, Kept-expressions es)

    kept_orders : (os : OrderList) → KeptOrders (order_actions env os)
    kept_orders no_order = tt
    kept_orders (order_then e b n os) = (Kept-expression e, kept_orders os)

    kept_bound : (b : BoundData) → KeptBound (bound_actions env b)
    kept_bound no_bound_data = tt
    kept_bound (bound_data type e) = kept_optional e

    kept_frame : (f : FrameData) → KeptFrame (frame_actions env f)
    kept_frame no_frame_data = tt
    kept_frame (frame_data unit s e) = (kept_bound s, kept_bound e)

    kept_window : (w : WindowData) → KeptWindow (window_action env w)
    kept_window no_window_data = tt
    kept_window (window_data es os f) = (Kept-expressions es, kept_orders os, kept_frame f)

    kept_computed : (cs : ComputedColumns) → KeptEntries (computed_actions env cs)
    kept_computed no_computed = tt
    kept_computed (computed_then id e cs) = (Kept-expression e, kept_computed cs)

    kept_synthetic : (ss : SelectItems) → KeptSynthetic (synthetic_actions env ss)
    kept_synthetic no_select_items = tt
    kept_synthetic (select_then e alias ss) = (Kept-expression e, kept_synthetic ss)

    pub kept_items : (ss : SelectItems) → KeptEntries (select_actions env ss)
    kept_items no_select_items = tt
    kept_items (select_then e alias ss) = (Kept-expression e, kept_items ss)

    kept_entries : (es : WithEntries) → KeptEntries (entry_actions env es)
    kept_entries no_entries = tt
    kept_entries (entry_then (with_entry name s cs) es) =
        (Kept-in_scope _ (Kept-transform_with_entry name _ cs (Kept-scan s)), kept_entries es)

    Kept-statements : (ss : StatementList) → All Kept (statement_actions env ss)
    Kept-statements no_statements = tt
    Kept-statements (statement_then s ss) = (Kept-statement s, Kept-statements ss)

-- Whatever scan is transformed, with all the scans, expressions and statements in it: if there is a
-- result, it leaves the stack of scopes as it was, has only counted scopes up, and has only added
-- statements in front of the heap, so that addresses given out before keep their meaning.
pub transform_scan-Extends :
    (env : Environment) (s : ScanData) (ctx : Context) → Within ctx (transform_scan env s ctx)
transform_scan-Extends env s ctx = Kept-scan env s ctx

pub transform_expression-Extends :
    (env : Environment) (e : ExpressionData) (ctx : Context)
    → Within ctx (transform_expression env e ctx)
transform_expression-Extends env e ctx = Kept-expression env e ctx

pub transform_statement-Extends :
    (env : Environment) (s : StatementData) (ctx : Context)
    → Within ctx (transform_statement env s ctx)
transform_statement-Extends env s ctx = Kept-statement env s ctx

pub transform_content-Extends :
    (env : Environment) (cs : List Column) (s : ScanContent) (ctx : Context)
    → Within ctx (transform_content env cs s ctx)
transform_content-Extends env cs s ctx = Kept-content env cs s ctx
