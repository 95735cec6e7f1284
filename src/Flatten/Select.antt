-- ===== src/Flatten/Select.antt =====
-- One SELECT lifted into the one around it: flattenSelectForRecursiveCTE with canFlattenSelect,
-- mergeWithClauses, buildColumnAliasMap and mergeWhereConditions.
pub mod With
pub mod Outcome
pub mod Meaning
pub mod Rows
use go_zetasqlite.Prelude.{
  ℕ, Bool, true, false, ◌&&◌, ◌||◌, Option, none, some, List, [], ◌∷◌, ◌++◌, map, if◌then◌else◌,
}
use go_zetasqlite.Prelude.Bytes.{Bytes, bytes_eq, codes}
use go_zetasqlite.Flatten.{
  binary_type, Text, Expr, nil, expr, fields, no_list, no_unary, binary, no_call, no_case, AliasMap,
}
use go_zetasqlite.Flatten.Substitute.{substitute_column_refs}
use go_zetasqlite.Flatten.Join.{
  is_nil, is_none, is_empty, flatten_join_from_item, substitute_in_join_conditions,
}
use go_zetasqlite.Flatten.Statement.{
  WithClause, SelectListItem, Clauses, FromItemType, table_item, subquery_item, join_item,
  with_ref_item, table_function_item, unnest_item, single_row_item, Statement, no_statement, select,
  FromItem, no_item, item, FromBody, body, JoinClause, no_join, join_clause,
}

unfoldable pub can_flatten_select : Statement → Bool
can_flatten_select no_statement = false
can_flatten_select (select from c) =
    is_empty c.group_by_list
    && is_nil c.having_clause
    && is_empty c.order_by_list
    && is_none c.limit_clause
    && is_none c.set_operation

abbrev pub has_name : List WithClause → Bytes → Bool
has_name [] name = false
has_name (w ∷ ws) name = bytes_eq w.name name || has_name ws name

-- The loop over the outer clauses; `inner` is what the names are looked up in.
abbrev pub without_names : List WithClause → List WithClause → List WithClause
without_names inner [] = []
without_names inner (w ∷ ws) =
    let rest = without_names inner ws in if has_name inner w.name then rest else w ∷ rest

unfoldable pub merge_with_clauses : List WithClause → List WithClause → List WithClause
merge_with_clauses [] inner = inner
merge_with_clauses (w ∷ ws) [] = w ∷ ws
merge_with_clauses (w ∷ ws) (v ∷ vs) = (v ∷ vs) ++ without_names (v ∷ vs) (w ∷ ws)

-- The loop, which overwrites an earlier entry for the same alias.
abbrev pub add_aliases : List SelectListItem → AliasMap → AliasMap
add_aliases [] aliases = aliases
add_aliases (i ∷ is) aliases =
    add_aliases is (
      if is_empty i.alias || is_nil i.expression
      then aliases
      else (i.alias, i.expression) ∷ aliases)

unfoldable pub build_column_alias_map : List SelectListItem → AliasMap
build_column_alias_map is = add_aliases is []

abbrev pub and_of : Expr → Expr → Expr
and_of left right =
    expr binary_type (record { value = []; alias = []; table_alias = []; collation = [] })
      (fields no_list no_unary (binary left (codes "AND") right) no_call no_case none none)

abbrev pub combine : Expr → Expr → Expr
combine outer inner =
    if is_nil outer then inner else if is_nil inner then outer else and_of inner outer

unfoldable pub merge_where_conditions : Expr → Expr → AliasMap → Bytes → Expr
merge_where_conditions outer inner aliases alias =
    combine (if is_nil outer then outer else substitute_column_refs aliases alias outer) inner

abbrev pub substitute_item : AliasMap → Bytes → SelectListItem → SelectListItem
substitute_item aliases alias i = record {
  expression = substitute_column_refs aliases alias i.expression;
  alias = i.alias;
  is_star_expansion = i.is_star_expansion;
  except_columns = i.except_columns;
  replace_columns = i.replace_columns;
}

-- The flattened statement but for its FROM clause.
unfoldable pub lifted : Bytes → Clauses → Clauses → Clauses
lifted alias outer inner =
    let aliases = build_column_alias_map inner.select_list in
    record {
      with_clauses = merge_with_clauses outer.with_clauses inner.with_clauses;
      select_type = outer.select_type;
      select_list = map (substitute_item aliases alias) outer.select_list;
      as_struct_type = [];
      as_value_type = [];
      where_clause = merge_where_conditions outer.where_clause inner.where_clause aliases alias;
      group_by_list = outer.group_by_list;
      having_clause = outer.having_clause;
      order_by_list = outer.order_by_list;
      limit_clause = outer.limit_clause;
      set_operation = none;
      hints = [];
    }

-- The mappings that the joins of the FROM clause have left, applied to the other clauses.
unfoldable pub with_join_mappings : AliasMap → Clauses → Clauses
with_join_mappings aliases c = record {
  with_clauses = c.with_clauses;
  select_type = c.select_type;
  select_list = map (substitute_item aliases []) c.select_list;
  as_struct_type = c.as_struct_type;
  as_value_type = c.as_value_type;
  where_clause = substitute_column_refs aliases [] c.where_clause;
  group_by_list = c.group_by_list;
  having_clause = c.having_clause;
  order_by_list = c.order_by_list;
  limit_clause = c.limit_clause;
  set_operation = c.set_operation;
  hints = c.hints;
}

abbrev pub flatten_join : FromItem × AliasMap → Clauses → Statement
flatten_join (from, []) c = select from c
flatten_join (from, a ∷ aliases) c =
    select (substitute_in_join_conditions from (a ∷ aliases)) (with_join_mappings (a ∷ aliases) c)

-- The FROM clause and the other clauses of the statement. The recursive call is on the FROM clause
-- of the subquery.
unfoldable mutual
  pub flatten_from : FromItem → Clauses → Statement
  flatten_from no_item c = select no_item c
  flatten_from (item alias b) c = flatten_select_body alias b c

  pub flatten_select_body : Bytes → FromBody → Clauses → Statement
  flatten_select_body alias (body subquery_item (select from inner) j r) c =
      let flattened = flatten_from from (lifted alias c inner) in
      if can_flatten_select (select from inner)
      then flattened
      else select (item alias (body subquery_item (select from inner) j r)) c
  flatten_select_body alias (body subquery_item no_statement j r) c =
      select (item alias (body subquery_item no_statement j r)) c
  flatten_select_body alias (body join_item s j r) c =
      flatten_join (flatten_join_from_item (item alias (body join_item s j r)) []) c
  flatten_select_body alias (body table_item s j r) c =
      select (item alias (body table_item s j r)) c
  flatten_select_body alias (body with_ref_item s j r) c =
      select (item alias (body with_ref_item s j r)) c
  flatten_select_body alias (body table_function_item s j r) c =
      select (item alias (body table_function_item s j r)) c
  flatten_select_body alias (body unnest_item s j r) c =
      select (item alias (body unnest_item s j r)) c
  flatten_select_body alias (body single_row_item s j r) c =
      select (item alias (body single_row_item s j r)) c

unfoldable pub flatten_select_for_recursive_cte : Statement → Statement
flatten_select_for_recursive_cte no_statement = no_statement
flatten_select_for_recursive_cte (select from c) = flatten_from from c
