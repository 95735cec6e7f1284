-- ===== src/Query/Expression.antt =====
-- internal/transformer_literal.go, _parameter, _cast and _subquery, given the actions that transform
-- their parts.
use go_zetasqlite.Prelude.{ℕ, Bool, Option, none, some, List, [], ◌∷◌, if◌then◌else◌}
use go_zetasqlite.Prelude.Bytes.{Bytes, codes}
use go_zetasqlite.Result.{panic, column_missing}
use go_zetasqlite.Value.{Value}
use go_zetasqlite.Flatten.{Expr}
use go_zetasqlite.Flatten.Statement.{select, FromItem}
use go_zetasqlite.Query.Action.{Action, ◌>>=◌, pure, fail, given}
use go_zetasqlite.Query.Build.{
  new_clauses, select_item, star_clauses, new_literal_expression, new_function_expression,
  new_binary_expression, new_exists_expression, new_subquery_expression,
}
use go_zetasqlite.Query.Context.{Column}
use go_zetasqlite.Query.Data.{
  SubqueryType, scalar_subquery, array_subquery, exists_subquery, in_subquery, other_subquery,
}
use go_zetasqlite.Query.Environment.{Environment}
use go_zetasqlite.Query.Scan.{column_expression, new_statement}

unfoldable pub transform_literal : Environment → Option Value → Action Expr
unfolding new_literal_expression
transform_literal env v = do
  encoded ← given (env.literal_from_value v)
  pure (new_literal_expression encoded)

unfoldable pub transform_parameter : Bytes → Action Expr
unfolding new_literal_expression
transform_parameter identifier = pure (new_literal_expression identifier)

unfoldable pub transform_cast :
    Environment → Action Expr → (from_type to_type : Bytes) → Bool → Action Expr
unfolding new_function_expression new_literal_expression
transform_cast env inner from_type to_type return_null_on_err = do
  e ← inner
  from ← given (env.encoded_type from_type)
  to ← given (env.encoded_type to_type)
  pure (
      new_function_expression (codes "zetasqlite_cast") (
        e
        ∷ from
        ∷ to
        ∷ new_literal_expression (if return_null_on_err then codes "true" else codes "false")
        ∷ []))

-- SELECT * over the subquery.
unfoldable pub star_over : FromItem → Action ℕ
unfolding star_clauses
star_over from = new_statement (select from star_clauses)

unfoldable pub array_of : FromItem → List Column → Action Expr
unfolding new_function_expression new_subquery_expression
array_of from [] = fail column_missing
array_of from (c ∷ cs) = do
  e ← column_expression c.id
  address ← new_statement (
      select from (record new_clauses {
        select_list =
            select_item (new_function_expression (codes "zetasqlite_array") (e ∷ [])) [] ∷ [];
      }))
  pure (new_subquery_expression address)

unfoldable pub subquery_expression : FromItem → Action Expr
unfolding new_subquery_expression
subquery_expression from = do address ← star_over from; pure (new_subquery_expression address)

-- IN without an expression on its left dereferences nil.
unfoldable pub of_type : SubqueryType → List Column → Option (Action Expr) → FromItem → Action Expr
unfolding new_exists_expression new_binary_expression
of_type scalar_subquery columns in_expr from = subquery_expression from
of_type other_subquery columns in_expr from = subquery_expression from
of_type array_subquery columns in_expr from = array_of from columns
of_type exists_subquery columns in_expr from = do
  address ← star_over from
  pure (new_exists_expression address)
of_type in_subquery columns none from = given panic
of_type in_subquery columns (some in_expr) from = do
  query ← subquery_expression from
  e ← in_expr
  pure (new_binary_expression e (codes "IN") query)

unfoldable pub transform_subquery :
    Action FromItem → SubqueryType → List Column → Option (Action Expr) → Action Expr
transform_subquery query type columns in_expr = do from ← query; of_type type columns in_expr from
