-- ===== src/Query/Build.antt =====
-- The builder functions of internal/sqlbuilder_sqlbuilder.go.
use go_zetasqlite.Prelude.{ℕ, false, none, some, List, [], ◌∷◌}
use go_zetasqlite.Prelude.Bytes.{Bytes, codes}
use go_zetasqlite.Flatten.{
  column, literal, function, binary_type, unary_type, list_type, star, case_type, exists_type,
  subquery_type, Text, Expr, nil, expr, Fields, fields, no_list, list, no_unary, unary, no_binary,
  binary, no_call, function_call, no_window, no_case, case_expression, Exprs, end, also,
  WhenClauses,
}
use go_zetasqlite.Flatten.Statement.{
  SelectListItem, Clauses, standard, Statement, FromItem, item, body, subquery_item, table_item,
  join_item, single_row_item, table_function_item, FromRest, TableFunction, no_join, join_clause,
  JoinType, no_statement,
}

abbrev pub text_of : Bytes → Text
text_of value = record { value = value; alias = []; table_alias = []; collation = [] }

abbrev pub no_fields : Fields
no_fields = fields no_list no_unary no_binary no_call no_case none none

abbrev pub to_exprs : List Expr → Exprs
to_exprs [] = end
to_exprs (e ∷ es) = also e (to_exprs es)

-- NewColumnExpression, with and without its optional table alias.
unfoldable pub new_column_expression : Bytes → Expr
new_column_expression name = expr column (text_of name) no_fields

unfoldable pub new_qualified_column : Bytes → Bytes → Expr
new_qualified_column name table_alias =
    expr column (record { value = name; alias = []; table_alias = table_alias; collation = [] })
      no_fields

unfoldable pub new_star_expression : Expr
new_star_expression = expr star (text_of []) no_fields

unfoldable pub new_literal_expression : Bytes → Expr
new_literal_expression value = expr literal (text_of value) no_fields

unfoldable pub new_function_expression : Bytes → List Expr → Expr
new_function_expression name args = expr function (text_of []) (
    fields no_list no_unary no_binary (function_call name (to_exprs args) false no_window) no_case
      none none)

unfoldable pub new_binary_expression : Expr → Bytes → Expr → Expr
new_binary_expression left operator right =
    expr binary_type (text_of [])
      (fields no_list no_unary (binary left operator right) no_call no_case none none)

unfoldable pub new_not_expression : Expr → Expr
new_not_expression e =
    expr unary_type (text_of [])
      (fields no_list (unary (codes "NOT") e) no_binary no_call no_case none none)

unfoldable pub new_list_expression : List Expr → Expr
new_list_expression es =
    expr list_type (text_of [])
      (fields (list (to_exprs es)) no_unary no_binary no_call no_case none none)

-- NewSimpleCaseExpression, and NewCaseExpression where `e` is nil.
unfoldable pub new_case_expression : Expr → WhenClauses → Expr → Expr
new_case_expression e whens else_expr =
    expr case_type (text_of [])
      (fields no_list no_unary no_binary no_call (case_expression e whens else_expr) none none)

unfoldable pub new_exists_expression : ℕ → Expr
new_exists_expression query =
    expr exists_type (text_of [])
      (fields no_list no_unary no_binary no_call no_case none (some query))

unfoldable pub new_subquery_expression : ℕ → Expr
new_subquery_expression query =
    expr subquery_type (text_of [])
      (fields no_list no_unary no_binary no_call no_case (some query) none)

-- NewSelectStatement: a statement with its type alone.
abbrev pub new_clauses : Clauses
new_clauses = record {
  with_clauses = [];
  select_type = standard;
  select_list = [];
  as_struct_type = [];
  as_value_type = [];
  where_clause = nil;
  group_by_list = [];
  having_clause = nil;
  order_by_list = [];
  limit_clause = none;
  set_operation = none;
  hints = [];
}

-- &SelectListItem{Expression: …, Alias: …}
abbrev pub select_item : Expr → Bytes → SelectListItem
select_item e alias = record {
  expression = e;
  alias = alias;
  is_star_expansion = false;
  except_columns = [];
  replace_columns = [];
}

-- NewSelectStarStatement, but for its FROM clause.
unfoldable pub star_clauses : Clauses
unfolding new_star_expression
star_clauses = record new_clauses { select_list = select_item new_star_expression [] ∷ [] }

abbrev pub no_rest : FromRest
no_rest = record {
  table_name = [];
  with_ref = [];
  table_function = none;
  unnest_expr = nil;
  from_hints = [];
}

unfoldable pub new_subquery_from_item : Statement → Bytes → FromItem
new_subquery_from_item s alias = item alias (body subquery_item s no_join no_rest)

unfoldable pub new_table_from_item : Bytes → Bytes → FromItem
new_table_from_item name alias =
    item alias (body table_item no_statement no_join (record no_rest { table_name = name }))

unfoldable pub new_join_from_item : JoinType → FromItem → FromItem → Expr → FromItem
new_join_from_item type left right condition =
    item [] (body join_item no_statement (join_clause type left right condition []) no_rest)

unfoldable pub new_table_function_from_item : TableFunction → Bytes → FromItem
new_table_function_from_item f alias =
    item alias
      (body table_function_item no_statement no_join (record no_rest { table_function = some f }))

unfoldable pub single_row_from_item : FromItem
single_row_from_item = item [] (body single_row_item no_statement no_join no_rest)
