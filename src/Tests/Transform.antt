-- ===== src/Tests/Transform.antt =====
-- The transformation of queries and their text at concrete inputs.
use go_zetasqlite.Prelude.{ℕ, ◌≡◌, refl, true, none, some, List, [], ◌∷◌, ◌++◌, arith}
use go_zetasqlite.Prelude.Int.{pos}
use go_zetasqlite.Prelude.Bytes.{codes}
use go_zetasqlite.Result.{Result, ok, err, panic, out_of_fuel, ◌>>=◌}
use go_zetasqlite.Value.{int}
use go_zetasqlite.Flatten.{Expr, nil, order_by_item}
use go_zetasqlite.Flatten.Statement.{select, FromItem, no_item, SelectListItem, Clauses}
use go_zetasqlite.Query.Action.{Action, pure, change_fragment, each}
use go_zetasqlite.Query.Build.{
  select_item, new_subquery_from_item, new_column_expression, new_clauses, single_row_from_item,
}
use go_zetasqlite.Query.Context.{
  Column, Context, enter_scope, new_transform_context, new_fragment_context,
  generate_id_based_alias, alias_of, get_qualified_column_ref, register_column_scope_mapping,
}
use go_zetasqlite.Query.Context.Alias.{generate_id_based_alias_injective}
use go_zetasqlite.Query.Context.Columns.{last_column, resolved, ref-register_column_scope_mapping}
use go_zetasqlite.Query.Coordinator.{transform_scan}
use go_zetasqlite.Query.Change.{ChangeData, delete_data, transform_change}
use go_zetasqlite.Query.Change.Keeps.{transform_change-Extends}
use go_zetasqlite.Query.Coordinator.Invariant.{transform_scan-Extends}
use go_zetasqlite.Query.Coordinator.Resolve.{alias_field, alias_in, transform_scan_lem}
use go_zetasqlite.Query.Data.{
  the_scan, table_scan, no_select_items, the_expression, column_data, scan, ScanContent,
  project_scan, single_row_scan, literal_data, no_computed, computed_then, ExpressionList,
  no_expressions, expression_then, no_window_data,
}
use go_zetasqlite.Query.Environment.{Environment}
use go_zetasqlite.Query.Expression.{transform_literal}
use go_zetasqlite.Strconv.{format_int}
use go_zetasqlite.Query.Function.{can_optimize_function, optimize_function_to_sql, when_clauses}
use go_zetasqlite.Query.Function.Case.{clause_args, else_args, when_clauses_roundtrip}
use go_zetasqlite.Query.Function.Optimize.{can_optimize_function-optimize_function_to_sql}
use go_zetasqlite.Query.Kept.{Within}
use go_zetasqlite.Query.Scan.{
  select_columns, subquery_of, new_statement, transform_project, transform_single_row,
}
use go_zetasqlite.Query.Scan.Sets.{Fragment, select_fragment, transform_set_operation}
use go_zetasqlite.Query.Scan.Sets.Items.{validate_column_data-transform_set_operation}
use go_zetasqlite.Query.Validate.{validate_column_data, validate_subquery}
use go_zetasqlite.Query.Validate.Accepts.{validate_column_data-select_columns}
use go_zetasqlite.Writer.{Writer, Write}
use go_zetasqlite.Writer.Appends.{After}
use go_zetasqlite.Writer.Appends.Change.{write_sql-Appends}
use go_zetasqlite.Writer.Change.{SqlFragment, update_sql, write_sql}
use go_zetasqlite.Writer.Precedence.{write_result, and-or_text}
use go_zetasqlite.Writer.Statement.{write_at}

abbrev env : Environment
env = record {
  literal_from_value = λ v. ok (codes "7");
  encoded_type = λ t. ok nil;
  is_primitive_type = λ t. true;
  current_time = λ name. none;
  call_sql = λ name. none;
  map_order = λ entries. entries;
}

abbrev x : Column
x = record { id = pos 1; name = codes "x"; type = []; table_name = [] }

abbrev y : Column
y = record { id = pos 2; name = codes "y"; type = []; table_name = [] }

-- SELECT 7 AS x
abbrev seven : ScanContent
seven =
    project_scan (scan [] single_row_scan)
      (computed_then (pos 1) (literal_data (some (int (pos 7)))) no_computed)

abbrev start : Context
start = new_transform_context

abbrev from_of : Result (FromItem × Context) → FromItem
from_of (ok r) = r.0
from_of (err e) = no_item
from_of panic = no_item
from_of out_of_fuel = no_item

abbrev context_of {ℓ} : {A : Type ℓ} → Result (A × Context) → Context
context_of (ok r) = r.1
context_of (err e) = start
context_of panic = start
context_of out_of_fuel = start

abbrev outcome : Result (FromItem × Context)
outcome = transform_scan env (scan (x ∷ []) seven) start

outcome_ok : outcome ≡ ok (from_of outcome, context_of outcome)
unfolding transform_scan transform_project transform_single_row transform_literal subquery_of
    validate_subquery generate_id_based_alias format_int
outcome_ok = refl

transform_scan_lem_example :
    (alias_field (from_of outcome) ≡ alias_in seven start)
    × (get_qualified_column_ref (context_of outcome).fragment (pos 1)
        ≡ ok (alias_of x, alias_field (from_of outcome)))
transform_scan_lem_example =
    transform_scan_lem env (x ∷ []) seven start (from_of outcome) (context_of outcome) (pos 1) x
      outcome_ok refl

transform_scan-Extends_example : Within start outcome
transform_scan-Extends_example = transform_scan-Extends env (scan (x ∷ []) seven) start

abbrev delete_x : ChangeData
delete_x = delete_data (record {
  table_name = codes "t";
  table_scan_data = the_scan (scan (x ∷ []) (table_scan (codes "t") [] no_select_items));
  where_clause = the_expression (column_data (pos 1) [] (codes "x"));
})

transform_change-Extends_example : Within start (transform_change env delete_x start)
transform_change-Extends_example = transform_change-Extends env delete_x start

abbrev plain_items : Result (List SelectListItem × Context)
plain_items = select_columns (λ c. pure (new_column_expression c.name)) (x ∷ y ∷ []) start

abbrev items_of : Result (List SelectListItem × Context) → List SelectListItem
items_of (ok r) = r.0
items_of (err e) = []
items_of panic = []
items_of out_of_fuel = []

plain_items_ok : plain_items ≡ ok (items_of plain_items, start)
unfolding select_columns
plain_items_ok = refl

abbrev sorted : Clauses
sorted = record new_clauses {
  order_by_list = order_by_item (new_column_expression (codes "x")) [] [] ∷ [];
}

validate_column_data-select_columns_example :
    validate_column_data []
      (subquery_of single_row_from_item (record sorted { select_list = items_of plain_items }))
      (x ∷ y ∷ [])
    ≡ ok tt
unfolding select_columns
validate_column_data-select_columns_example =
    validate_column_data-select_columns [] (λ c. pure (new_column_expression c.name)) (x ∷ y ∷ [])
      start (items_of plain_items) start single_row_from_item sorted plain_items_ok refl refl

-- SELECT x AS x UNION ALL SELECT x AS x, the first from one row.
abbrev one_select : Action Fragment
one_select = pure (
    select_fragment (
      single_row_from_item,
      record new_clauses {
        select_list = select_item (new_column_expression (codes "x")) (codes "x") ∷ [];
      },
    ))

abbrev union_outcome : Result (FromItem × Context)
union_outcome =
    transform_set_operation (codes "UNION") (codes "ALL") (one_select ∷ one_select ∷ []) (x ∷ [])
      start

validate_column_data-transform_set_operation_example :
    validate_column_data [] (from_of union_outcome) (x ∷ []) ≡ ok tt
unfolding transform_set_operation each new_statement
validate_column_data-transform_set_operation_example =
    validate_column_data-transform_set_operation (codes "UNION") (codes "ALL")
      (one_select ∷ one_select ∷ []) (x ∷ []) start (from_of union_outcome)
      (context_of union_outcome) [] refl

-- The entry r of a recursive WITH, whose query is a reference to r.
abbrev enter : Action {0} Unit
enter = change_fragment enter_scope

abbrev kept_item : Unit {0} → FromItem → Action FromItem
kept_item u from = pure from

abbrev a : Expr
a = new_column_expression (codes "a")

abbrev b : Expr
b = new_column_expression (codes "b")

abbrev c : Expr
c = new_column_expression (codes "c")

abbrev two : ExpressionList
two =
    expression_then (literal_data (some (int (pos 1))))
      (expression_then (literal_data (some (int (pos 2)))) no_expressions)

can_optimize_function-optimize_function_to_sql_example :
    (e : Expr) × (optimize_function_to_sql (codes "zetasqlite_and") (a ∷ b ∷ []) ≡ ok e)
unfolding can_optimize_function
can_optimize_function-optimize_function_to_sql_example =
    can_optimize_function-optimize_function_to_sql (λ t. true) (codes "zetasqlite_and") two
      no_window_data (a ∷ b ∷ []) refl refl

when_clauses_roundtrip_example :
    clause_args (when_clauses (a ∷ b ∷ c ∷ [])).0 ++ else_args (when_clauses (a ∷ b ∷ c ∷ [])).1
    ≡ (a ∷ b ∷ c ∷ [])
unfolding new_column_expression
when_clauses_roundtrip_example = when_clauses_roundtrip (a ∷ b ∷ c ∷ []) (tt, (tt, (tt, tt)))

generate_id_based_alias_injective_example : (codes "x" ≡ codes "x") × (pos 1 ≡ pos 1)
generate_id_based_alias_injective_example =
    generate_id_based_alias_injective (codes "x") (codes "x") (pos 1) (pos 1) (omega arith)
      (omega arith) refl

ref-register_column_scope_mapping_example :
    get_qualified_column_ref
      (register_column_scope_mapping (codes "s") (x ∷ y ∷ []) new_fragment_context)
      (pos 2)
    ≡ resolved
        (codes "s")
        (get_qualified_column_ref new_fragment_context (pos 2))
        (last_column (pos 2) (x ∷ y ∷ []))
ref-register_column_scope_mapping_example =
    ref-register_column_scope_mapping (codes "s") (x ∷ y ∷ []) new_fragment_context (pos 2)

abbrev empty : Writer
empty = record { builder = []; indent_level = 0; use_newlines = true }

abbrev update_statement : SqlFragment
update_statement = update_sql (record {
  table = new_subquery_from_item (select single_row_from_item new_clauses) (codes "t");
  set_items = record { column = a; value = b } ∷ [];
  from_clause = no_item;
  where_clause = c;
})

write_sql-Appends_example : After empty (write_sql (write_at []) update_statement empty)
write_sql-Appends_example = write_sql-Appends [] update_statement empty

abbrev no_address : ℕ → Write
no_address k w = panic

and-or_text_example :
    write_result no_address
      (optimize_function_to_sql (codes "zetasqlite_or") (a ∷ b ∷ []) >>= λ e.
        optimize_function_to_sql (codes "zetasqlite_and") (e ∷ c ∷ []))
      empty
    ≡ write_result no_address
        (optimize_function_to_sql (codes "zetasqlite_and") (b ∷ c ∷ []) >>= λ e.
          optimize_function_to_sql (codes "zetasqlite_or") (a ∷ e ∷ []))
        empty
and-or_text_example = and-or_text no_address a b c empty
