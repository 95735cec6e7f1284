-- ===== src/Query/Data.antt =====
-- internal/types_data.go: the extracted data of a query, which the transformers read. A scan, an
-- expression or a statement and the one content that its type selects are one constructor here. A
-- type (types.Type) is known by its name. Fields that no transformer reads are left out.
use go_zetasqlite.Prelude.{Bool, Option, List}
use go_zetasqlite.Prelude.Int.{ℤ}
use go_zetasqlite.Prelude.Bytes.{Bytes}
use go_zetasqlite.Value.{Value}
use go_zetasqlite.Query.Context.{Column}

-- ast.JoinType, ast.SubqueryType and ast.NullOrderMode, as far as the code tells them apart.
pub data AstJoinType : Type 0 where
  ast_inner ast_left ast_right ast_full ast_other_join : AstJoinType

pub data SubqueryType : Type 0 where
  scalar_subquery array_subquery exists_subquery in_subquery other_subquery : SubqueryType

pub data NullOrderMode : Type 0 where
  order_unspecified nulls_first nulls_last : NullOrderMode

mutual
  pub data ExpressionData : Type 0 where
    literal_data : Option Value → ExpressionData
    parameter_data : (identifier : Bytes) → ExpressionData
    function_data : FunctionCallData → ExpressionData
    cast_data :
        ExpressionData → (from_type to_type : Bytes) → (return_null_on_err : Bool) → ExpressionData
    column_data : (column_id : ℤ) → (type column_name : Bytes) → ExpressionData
    subquery_data : ScanData → SubqueryType → (in_expr : OptionalExpression) → ExpressionData
    other_data : ExpressionData

  pub data OptionalExpression : Type 0 where
    no_expression : OptionalExpression
    the_expression : ExpressionData → OptionalExpression

  pub data ExpressionList : Type 0 where
    no_expressions : ExpressionList
    expression_then : ExpressionData → ExpressionList → ExpressionList

  pub data FunctionCallData : Type 0 where
    call_data : (name : Bytes) → (arguments : ExpressionList) → WindowData → FunctionCallData

  pub data WindowData : Type 0 where
    no_window_data : WindowData
    window_data : (partition_by : ExpressionList) → OrderList → FrameData → WindowData

  pub data OrderList : Type 0 where
    no_order : OrderList
    order_then : ExpressionData → (is_descending : Bool) → NullOrderMode → OrderList → OrderList

  pub data FrameData : Type 0 where
    no_frame_data : FrameData
    frame_data : (unit : Bytes) → (start end_ : BoundData) → FrameData

  pub data BoundData : Type 0 where
    no_bound_data : BoundData
    bound_data : (type : Bytes) → OptionalExpression → BoundData

  pub data ScanData : Type 0 where
    scan : (column_list : List Column) → ScanContent → ScanData

  pub data OptionalScan : Type 0 where
    no_scan : OptionalScan
    the_scan : ScanData → OptionalScan

  -- A grouping set is the identifiers of its columns.
  pub data ScanContent : Type 0 where
    table_scan : (table_name alias : Bytes) → (synthetic_columns : SelectItems) → ScanContent
    join_scan : AstJoinType → (left right : ScanData) → OptionalExpression → ScanContent
    filter_scan : ScanData → ExpressionData → ScanContent
    project_scan : ScanData → ComputedColumns → ScanContent
    aggregate_scan :
        ScanData
        → (group_by_list aggregate_list : ComputedColumns) → (grouping_sets : List (List ℤ))
        → ScanContent
    order_by_scan : ScanData → OrderList → ScanContent
    limit_scan : ScanData → (count : ExpressionData) → (offset : OptionalExpression) → ScanContent
    set_operation_scan : (type modifier : Bytes) → StatementList → ScanContent
    single_row_scan : ScanContent
    with_scan : (recursive : Bool) → WithEntries → ScanData → ScanContent
    with_ref_scan : (with_query_name : Bytes) → List Column → ScanContent
    with_entry_scan : WithEntryData → ScanContent
    array_scan :
        OptionalScan
        → (array_expr : ExpressionData) → (element_column : Column)
        → (array_offset_column : Option Column) → (is_outer : Bool)
        → (join_expr : OptionalExpression) → ScanContent
    analytic_scan : ScanData → (function_list : ComputedColumns) → ScanContent
    recursive_scan :
        (op_type : Bytes) → (non_recursive_term recursive_term : StatementData) → ScanContent
    recursive_ref_scan : List Column → ScanContent
    other_scan : ScanContent

  pub data ComputedColumns : Type 0 where
    no_computed : ComputedColumns
    computed_then : (column_id : ℤ) → ExpressionData → ComputedColumns → ComputedColumns

  pub data SelectItems : Type 0 where
    no_select_items : SelectItems
    select_then : ExpressionData → (alias : Bytes) → SelectItems → SelectItems

  pub data WithEntryData : Type 0 where
    with_entry : (with_query_name : Bytes) → ScanData → List Column → WithEntryData

  pub data WithEntries : Type 0 where
    no_entries : WithEntries
    entry_then : WithEntryData → WithEntries → WithEntries

  pub data SelectData : Type 0 where
    select_data : (from_clause : ScanData) → SelectItems → SelectData

  -- A CREATE TABLE without AS SELECT is an error, whatever its columns are.
  pub data StatementData : Type 0 where
    select_statement_data : SelectData → StatementData
    create_table_data : StatementData
    create_table_as_data :
        (table_name : Bytes) → (if_not_exists : Bool) → SelectData → StatementData
    create_view_data : (view_name : Bytes) → SelectData → StatementData
    drop_data : (if_exists : Bool) → (object_type object_name : Bytes) → StatementData

  pub data StatementList : Type 0 where
    no_statements : StatementList
    statement_then : StatementData → StatementList → StatementList
