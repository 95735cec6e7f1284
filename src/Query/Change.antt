-- ===== src/Query/Change.antt =====
-- internal/transformer_stmt_dml.go with its data of internal/types_data.go: INSERT, UPDATE and DELETE.
pub mod Keeps
use go_zetasqlite.Prelude.{ℕ, Option, none, some, List, [], ◌∷◌, ◌++◌, map}
use go_zetasqlite.Prelude.Bytes.{Bytes, codes}
use go_zetasqlite.Result
use go_zetasqlite.Result.{Result, ok, panic}
use go_zetasqlite.Flatten.{Expr, nil}
use go_zetasqlite.Flatten.Statement.{Statement, no_statement, select, FromItem, no_item}
use go_zetasqlite.Query.Action.{
  Action, ◌>>=◌, pure, ask, given, change_fragment, in_scope, each, optional,
}
use go_zetasqlite.Query.Build.{new_clauses, new_literal_expression, new_table_from_item}
use go_zetasqlite.Query.Context.{Column, Context, add_available_columns_for_dml}
use go_zetasqlite.Query.Coordinator.{
  output_items, transform_scan, transform_expression, select_actions, optional_action,
  optional_scan,
}
use go_zetasqlite.Query.Data.{
  ExpressionData, OptionalExpression, ScanData, scan, OptionalScan, no_scan, the_scan, ScanContent,
  table_scan, join_scan, filter_scan, project_scan, aggregate_scan, order_by_scan, limit_scan,
  set_operation_scan, single_row_scan, with_scan, with_ref_scan, with_entry_scan, array_scan,
  analytic_scan, recursive_scan, recursive_ref_scan, other_scan, SelectData, select_data,
}
use go_zetasqlite.Query.Environment.{Environment}
use go_zetasqlite.Writer.Change.{
  InsertStatement, SetItem, UpdateStatement, DeleteStatement, SqlFragment, insert_sql, update_sql,
  delete_sql, joined, quoted_names, string_of,
}
use go_zetasqlite.Writer.Statement.{write_at}

pub record InsertData : Type 0 where
  pub table_name : Bytes
  pub columns : List Bytes
  pub values_ : List (List ExpressionData)
  pub query : Option SelectData

pub record SetItemData : Type 0 where
  pub column : Bytes
  pub value : ExpressionData

pub record UpdateData : Type 0 where
  pub table_name : Bytes
  pub table_scan_data : OptionalScan
  pub set_items : List SetItemData
  pub from_clause : OptionalScan
  pub where_clause : OptionalExpression

pub record DeleteData : Type 0 where
  pub table_name : Bytes
  pub table_scan_data : OptionalScan
  pub where_clause : OptionalExpression

-- The data of a statement that changes rows.
pub data ChangeData : Type 0 where
  insert_data : InsertData → ChangeData
  update_data : UpdateData → ChangeData
  delete_data : DeleteData → ChangeData

-- AddAvailableColumnsForDML reads the table's name for each column: it panics without a scan, and
-- with columns of a scan that is no table's.
abbrev no_table : List Column → Action {0} Unit
no_table [] = pure tt
no_table (c ∷ cs) = given panic

abbrev pub table_columns_of : List Column → ScanContent → Action {0} Unit
table_columns_of cs (table_scan name alias ss) =
    change_fragment (add_available_columns_for_dml name cs)
table_columns_of cs (join_scan type l r e) = no_table cs
table_columns_of cs (filter_scan s e) = no_table cs
table_columns_of cs (project_scan s es) = no_table cs
table_columns_of cs (aggregate_scan s gs as_ sets) = no_table cs
table_columns_of cs (order_by_scan s os) = no_table cs
table_columns_of cs (limit_scan s c o) = no_table cs
table_columns_of cs (set_operation_scan type m ss) = no_table cs
table_columns_of cs single_row_scan = no_table cs
table_columns_of cs (with_scan r es s) = no_table cs
table_columns_of cs (with_ref_scan name ds) = no_table cs
table_columns_of cs (with_entry_scan e) = no_table cs
table_columns_of cs (array_scan s e c o b j) = no_table cs
table_columns_of cs (analytic_scan s fs) = no_table cs
table_columns_of cs (recursive_scan op s t) = no_table cs
table_columns_of cs (recursive_ref_scan ds) = no_table cs
table_columns_of cs other_scan = no_table cs

unfoldable pub add_table_columns : OptionalScan → Action {0} Unit
add_table_columns no_scan = given panic
add_table_columns (the_scan (scan cs content)) = table_columns_of cs content

module _ (env : Environment) where
  -- expr.String(), whose subqueries are statements of the context.
  abbrev pub text_of : Expr → Action Bytes
  text_of e = ask (λ ctx. string_of (write_at ctx.heap) e)

  unfoldable pub value_strings : List ExpressionData → Action (List Bytes)
  value_strings [] = pure []
  value_strings (d ∷ ds) = do
    e ← transform_expression env d
    s ← text_of e
    rest ← value_strings ds
    pure (s ∷ rest)

  unfoldable pub insert_rows : List (List ExpressionData) → Action (List Expr)
  unfolding value_strings new_literal_expression joined
  insert_rows [] = pure []
  insert_rows (ds ∷ rows) = do
    ss ← value_strings ds
    rest ← insert_rows rows
    pure (new_literal_expression (joined (codes ",") ss) ∷ rest)

  unfoldable pub insert_query : SelectData → Action Statement
  unfolding transform_scan select_actions output_items
  insert_query (select_data s items) = do
    from ← transform_scan env s
    list ← output_items (select_actions env items)
    pure (select from (record new_clauses { select_list = list }))

  abbrev insert_statement : InsertData → Statement → List Expr → SqlFragment
  insert_statement d query rows = insert_sql (record {
    table_name = d.table_name;
    columns = quoted_names d.columns;
    query = query;
    rows = rows;
  })

  abbrev insert_parts : InsertData → Option SelectData → Action SqlFragment
  insert_parts d none = do rows ← insert_rows d.values_; pure (insert_statement d no_statement rows)
  insert_parts d (some q) = do query ← insert_query q; pure (insert_statement d query [])

  unfoldable pub transform_insert : InsertData → Action SqlFragment
  unfolding insert_rows insert_query
  transform_insert d = insert_parts d d.query

  unfoldable pub set_items_of : List SetItemData → Action (List SetItem)
  unfolding transform_expression new_literal_expression
  set_items_of [] = pure []
  set_items_of (i ∷ is) = do
    value ← transform_expression env i.value
    rest ← set_items_of is
    pure (record { column = new_literal_expression i.column; value = value } ∷ rest)

  unfoldable pub transform_update : UpdateData → Action SqlFragment
  unfolding add_table_columns optional set_items_of optional_scan optional_action
      new_table_from_item
  transform_update d = do
    added ← add_table_columns d.table_scan_data
    from ← optional no_item (optional_scan env d.from_clause)
    items ← set_items_of d.set_items
    condition ← optional nil (optional_action env d.where_clause)
    pure (
        update_sql (record {
          table = new_table_from_item d.table_name [];
          set_items = items;
          from_clause = from;
          where_clause = condition;
        }))

  unfoldable pub transform_delete : DeleteData → Action SqlFragment
  unfolding add_table_columns optional optional_action new_table_from_item
  transform_delete d = do
    added ← add_table_columns d.table_scan_data
    condition ← optional nil (optional_action env d.where_clause)
    pure (
        delete_sql (record { table = new_table_from_item d.table_name []; where_expr = condition }))

  abbrev change : ChangeData → Action SqlFragment
  change (insert_data d) = transform_insert d
  change (update_data d) = transform_update d
  change (delete_data d) = transform_delete d

  -- TransformStatement for these statements.
  unfoldable pub transform_change : ChangeData → Action SqlFragment
  unfolding in_scope transform_insert transform_update transform_delete
  transform_change d = in_scope (change d)
