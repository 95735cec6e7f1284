-- ===== src/Flatten/Join.antt =====
-- Subqueries in a join: flattenJoinFromItem, flattenFromItemInJoin, updateTableAlias,
-- canUnwrapSubquery and substituteInJoinConditions. The map that these fill is passed on as a state.
use go_zetasqlite.Prelude.{
  Bool, true, false, not, ◌&&◌, ◌||◌, Option, none, some, List, [], ◌∷◌, if◌then◌else◌,
}
use go_zetasqlite.Prelude.Bytes.{Bytes}
use go_zetasqlite.Flatten.{
  ExpressionType, column, literal, parameter, function, list_type, unary_type, binary_type,
  subquery_type, star, case_type, exists_type, cast_type, Text, Expr, nil, expr, Fields, fields,
  no_list, list, no_unary, unary, no_binary, binary, no_call, function_call, no_case,
  case_expression, Exprs, end, also, WhenClauses, no_more, when, AliasMap,
}
use go_zetasqlite.Flatten.Copy.{copy_expression}
use go_zetasqlite.Flatten.Substitute.{substitute_column_refs}
use go_zetasqlite.Flatten.Statement.{
  SelectListItem, table_item, subquery_item, join_item, with_ref_item, table_function_item,
  unnest_item, single_row_item, Statement, no_statement, select, FromItem, no_item, item, FromBody,
  body, no_join, join_clause,
}

abbrev pub is_nil : Expr → Bool
is_nil nil = true
is_nil (expr type text fs) = false

abbrev pub is_none {ℓ} : {A : Type ℓ} → Option A → Bool
is_none none = true
is_none (some a) = false

abbrev pub is_empty {ℓ} : {A : Type ℓ} → List A → Bool
is_empty [] = true
is_empty (x ∷ xs) = false

abbrev with_table : Bytes → Text → Text
with_table alias text = record {
  value = text.value;
  alias = text.alias;
  table_alias = alias;
  collation = text.collation;
}

unfoldable mutual
  pub update_table_alias : Expr → Bytes → Expr
  update_table_alias nil alias = nil
  update_table_alias (expr type text fs) alias = update_node type text fs alias

  pub update_node : ExpressionType → Text → Fields → Bytes → Expr
  update_node column text fs alias = expr column (with_table alias text) fs
  update_node star text fs alias = expr star (with_table alias text) fs
  update_node function text (fields l u b no_call c s x) alias =
      expr function text (fields l u b no_call c s x)
  update_node function text (fields l u b (function_call name es d w) c s x) alias =
      expr function text (fields l u b (function_call name (update_all es alias) d w) c s x)
  update_node binary_type text (fields l u no_binary f c s x) alias =
      expr binary_type text (fields l u no_binary f c s x)
  update_node binary_type text (fields l u (binary e op e') f c s x) alias =
      expr binary_type text
        (fields l u (binary (update_table_alias e alias) op (update_table_alias e' alias)) f c s x)
  update_node unary_type text (fields l no_unary b f c s x) alias =
      expr unary_type text (fields l no_unary b f c s x)
  update_node unary_type text (fields l (unary op e) b f c s x) alias =
      expr unary_type text (fields l (unary op (update_table_alias e alias)) b f c s x)
  update_node list_type text (fields no_list u b f c s x) alias =
      expr list_type text (fields no_list u b f c s x)
  update_node list_type text (fields (list es) u b f c s x) alias =
      expr list_type text (fields (list (update_all es alias)) u b f c s x)
  update_node case_type text (fields l u b f no_case s x) alias =
      expr case_type text (fields l u b f no_case s x)
  update_node case_type text (fields l u b f (case_expression e whens e') s x) alias =
      expr case_type text (
        fields l u b f
          (case_expression (update_table_alias e alias) (update_whens whens alias)
            (update_table_alias e' alias))
          s x)
  update_node subquery_type text fs alias = expr subquery_type text fs
  update_node exists_type text fs alias = expr exists_type text fs
  update_node literal text fs alias = expr literal text fs
  update_node parameter text fs alias = expr parameter text fs
  update_node cast_type text fs alias = expr cast_type text fs

  pub update_all : Exprs → Bytes → Exprs
  update_all end alias = end
  update_all (also e es) alias = also (update_table_alias e alias) (update_all es alias)

  pub update_whens : WhenClauses → Bytes → WhenClauses
  update_whens no_more alias = no_more
  update_whens (when e e' whens) alias =
      when (update_table_alias e alias) (update_table_alias e' alias) (update_whens whens alias)

-- Star expansions and plain columns only.
abbrev pub passes_through : SelectListItem → Bool
passes_through i = i.is_star_expansion || is_column i.expression
  where
    is_column : Expr → Bool
    is_column (expr column text fs) = true
    is_column e = false

abbrev pub all_pass_through : List SelectListItem → Bool
all_pass_through [] = true
all_pass_through (i ∷ is) = passes_through i && all_pass_through is

unfoldable pub can_unwrap_subquery : Statement → Bool
can_unwrap_subquery no_statement = false
can_unwrap_subquery (select from c) =
    is_empty c.group_by_list
    && is_nil c.having_clause
    && is_empty c.order_by_list
    && is_none c.limit_clause
    && is_none c.set_operation
    && is_nil c.where_clause
    && not (is_empty c.select_list)
    && all_pass_through c.select_list

-- The loop over the select list of an unwrapped subquery.
unfoldable pub add_columns : Bytes → List SelectListItem → AliasMap → AliasMap
add_columns alias [] aliases = aliases
add_columns alias (i ∷ is) aliases = add_columns alias is (
    if is_empty i.alias || is_nil i.expression
    then aliases
    else (i.alias, update_table_alias (copy_expression i.expression) alias) ∷ aliases)

abbrev pub final_alias : Bytes → Bytes → Bytes
final_alias outer inner = if is_empty outer then inner else outer

unfoldable mutual
  pub flatten_from_item_in_join : FromItem → AliasMap → FromItem × AliasMap
  flatten_from_item_in_join no_item aliases = (no_item, aliases)
  flatten_from_item_in_join (item alias b) aliases = flatten_body alias b aliases

  pub flatten_body : Bytes → FromBody → AliasMap → FromItem × AliasMap
  flatten_body alias (body subquery_item (select (item inner_alias inner) c) j r) aliases =
      let final = final_alias alias inner_alias in
      let unwrapped = flatten_body final inner (add_columns final c.select_list aliases) in
      if can_unwrap_subquery (select (item inner_alias inner) c)
      then unwrapped
      else (item alias (body subquery_item (select (item inner_alias inner) c) j r), aliases)
  flatten_body alias (body subquery_item (select no_item c) j r) aliases =
      (item alias (body subquery_item (select no_item c) j r), aliases)
  flatten_body alias (body subquery_item no_statement j r) aliases =
      (item alias (body subquery_item no_statement j r), aliases)
  flatten_body alias (body join_item s no_join r) aliases =
      (item alias (body join_item s no_join r), aliases)
  flatten_body alias (body join_item s (join_clause t left right condition using_columns) r)
        aliases =
      let l = flatten_from_item_in_join left aliases in
      let r' = flatten_from_item_in_join right l.1 in
      (item alias (body join_item s (join_clause t l.0 r'.0 condition using_columns) r), r'.1)
  flatten_body alias (body table_item s j r) aliases = (item alias (body table_item s j r), aliases)
  flatten_body alias (body with_ref_item s j r) aliases =
      (item alias (body with_ref_item s j r), aliases)
  flatten_body alias (body table_function_item s j r) aliases =
      (item alias (body table_function_item s j r), aliases)
  flatten_body alias (body unnest_item s j r) aliases =
      (item alias (body unnest_item s j r), aliases)
  flatten_body alias (body single_row_item s j r) aliases =
      (item alias (body single_row_item s j r), aliases)

-- A join only.
unfoldable pub flatten_join_from_item : FromItem → AliasMap → FromItem × AliasMap
flatten_join_from_item (item alias (body join_item s j r)) aliases =
    flatten_body alias (body join_item s j r) aliases
flatten_join_from_item from aliases = (from, aliases)

unfoldable pub substitute_in_join_conditions : FromItem → AliasMap → FromItem
substitute_in_join_conditions
      (item alias (body join_item s (join_clause t left right condition using_columns) r)) aliases =
    item alias (
      body join_item s
        (join_clause t (substitute_in_join_conditions left aliases)
          (substitute_in_join_conditions right aliases)
          (if is_nil condition then condition else substitute_column_refs aliases [] condition)
          using_columns)
        r)
substitute_in_join_conditions from aliases = from
