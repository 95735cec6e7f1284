-- ===== src/Query/Scan/Table.antt =====
-- internal/transformer_scan_table.go and internal/transformer_scan_array.go: tables and UNNEST.
use go_zetasqlite.Prelude.{Bool, true, false, Option, none, some, List, [], ◌∷◌, ◌++◌}
use go_zetasqlite.Prelude.Int.{pos}
use go_zetasqlite.Prelude.Bytes.{Bytes, codes}
use go_zetasqlite.Result.{ok}
use go_zetasqlite.Flatten.{Expr, nil}
use go_zetasqlite.Flatten.Statement.{
  SelectListItem, select, FromItem, JoinType, left_join, inner_join, cross_join,
}
use go_zetasqlite.Query.Action.{Action, ◌>>=◌, pure, ask, change_fragment}
use go_zetasqlite.Query.Build.{
  new_clauses, select_item, new_subquery_from_item, new_table_from_item, new_column_expression,
  new_qualified_column, new_function_expression, new_literal_expression,
  new_table_function_from_item, new_join_from_item,
}
use go_zetasqlite.Query.Context.{
  Column, alias_of, get_id, register_column_scope, add_available_column, get_qualified_column_ref,
}
use go_zetasqlite.Query.Data.{
  ExpressionData, column_data, literal_data, parameter_data, function_data, cast_data,
  subquery_data, other_data,
}
use go_zetasqlite.Query.Scan.{select_columns, subquery_of}

-- The explicit columns of the table.
unfoldable pub table_columns : List Column → List SelectListItem
unfolding new_column_expression
table_columns [] = []
table_columns (c ∷ cs) = select_item (new_column_expression c.name) (alias_of c) ∷ table_columns cs

-- A synthetic column that is a column is made available under its own name.
unfoldable pub announce : ExpressionData → Action {0} Unit
unfolding register_column_scope add_available_column
announce (column_data id type name) = change_fragment (λ fc.
    add_available_column id
      (record { name = name; type = []; table_alias = []; expression = nil; id = pos 0 })
      (register_column_scope id [] fc))
announce (literal_data v) = pure tt
announce (parameter_data s) = pure tt
announce (function_data f) = pure tt
announce (cast_data e from to b) = pure tt
announce (subquery_data s t e) = pure tt
announce other_data = pure tt

-- A synthetic column: its data, the action that transforms it and its alias.
abbrev pub Synthetic : Type 0
Synthetic = ExpressionData × Action Expr × Bytes

unfoldable pub synthetic_columns : List Synthetic → Action (List SelectListItem)
synthetic_columns [] = pure []
synthetic_columns ((d, m, alias) ∷ columns) = do
  announced ← announce d
  e ← m
  items ← synthetic_columns columns
  pure (select_item e alias ∷ items)

unfoldable pub transform_table :
    (table_name alias : Bytes) → List Synthetic → List Column → Action FromItem
unfolding synthetic_columns table_columns new_table_from_item new_subquery_from_item
transform_table table_name alias synthetic columns = do
  items ← synthetic_columns synthetic
  pure (
      new_subquery_from_item
        (select (new_table_from_item table_name alias)
          (record new_clauses { select_list = table_columns columns ++ items }))
        alias)

-- The element or the offset, a column of json_each.
unfoldable pub announce_json : Bytes → Bytes → Column → Action {0} Unit
unfolding register_column_scope add_available_column new_qualified_column
announce_json name table_alias c = change_fragment (λ fc. register_column_scope c.id table_alias (
    add_available_column c.id
      (record {
        name = name;
        type = [];
        table_alias = [];
        expression = new_qualified_column name table_alias;
        id = c.id;
      })
      fc))

unfoldable pub announce_offset : Bytes → Option Column → Action {0} Unit
unfolding announce_json
announce_offset table_alias none = pure tt
announce_offset table_alias (some c) = announce_json (codes "key") table_alias c

unfoldable pub unnest_column : Column → Action Expr
unfolding get_qualified_column_ref new_qualified_column
unnest_column c = do
  r ← ask (λ ctx. get_qualified_column_ref ctx.fragment c.id)
  pure (new_qualified_column r.0 r.1)

-- The type and the condition of the join with the input.
unfoldable pub array_join : Bool → Option (Action Expr) → Action (JoinType × Expr)
unfolding new_literal_expression
array_join true (some m) = do e ← m; pure (left_join, e)
array_join false (some m) = do e ← m; pure (inner_join, e)
array_join true none = pure (left_join, new_literal_expression (codes "true"))
array_join false none = pure (cross_join, nil)

unfoldable pub json_each : Bytes → Expr → FromItem
unfolding new_function_expression new_table_function_from_item
json_each table_alias array_expr =
    new_table_function_from_item
      (record {
        name = codes "json_each";
        arguments =
            new_function_expression (codes "zetasqlite_decode_array") (array_expr ∷ []) ∷ [];
      })
      table_alias

abbrev pub Input : Type 0
Input = Option FromItem

abbrev pub input_of : Option (Action FromItem) → Action Input
input_of none = pure none
input_of (some m) = do from ← m; pure (some from)

unfoldable pub joined :
    Input → FromItem → List SelectListItem → Bool → Option (Action Expr) → Action FromItem
unfolding array_join new_join_from_item
joined none each_item items is_outer join_expr =
    pure (subquery_of each_item (record new_clauses { select_list = items }))
joined (some from) each_item items is_outer join_expr = do
  j ← array_join is_outer join_expr
  pure (
      subquery_of (new_join_from_item j.0 from each_item j.1)
        (record new_clauses { select_list = items }))

-- `fmt.Sprintf("$array_%s", GetID())`
unfoldable pub array_alias : Action Bytes
unfolding get_id
array_alias = ask (λ ctx. ok (codes "$array_" ++ get_id ctx.fragment))

unfoldable pub transform_array :
    Option (Action FromItem)
    → Action Expr
    → Column
    → Option Column
    → Bool
    → Option (Action Expr)
    → List Column
    → Action FromItem
unfolding array_alias announce_json unnest_column json_each select_columns
transform_array input array_expr element_column offset_column is_outer join_expr columns = do
  from ← input_of input
  e ← array_expr
  table_alias ← array_alias
  element ← announce_json (codes "value") table_alias element_column
  offset ← announce_offset table_alias offset_column
  items ← select_columns unnest_column columns
  joined from (json_each table_alias e) items is_outer join_expr
