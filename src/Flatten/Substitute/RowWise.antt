-- ===== src/Flatten/Substitute/RowWise.antt =====
-- Expressions whose value in a row is made of the values of their parts in that row: every call that
-- the rewriting comes to is of a scalar function and has no OVER clause.
use go_zetasqlite.Prelude.{Bool, true, false, ◌&&◌}
use go_zetasqlite.Prelude.Bytes.{Bytes}
use go_zetasqlite.Flatten.{
  ExpressionType, column, literal, parameter, function, list_type, unary_type, binary_type,
  subquery_type, star, case_type, exists_type, cast_type, Expr, nil, expr, Fields, fields, no_list,
  list, no_unary, unary, no_binary, binary, no_call, function_call, WindowSpecification, no_window,
  over, no_case, case_expression, Exprs, end, also, WhenClauses, no_more, when,
}

abbrev pub has_no_window : WindowSpecification → Bool
has_no_window no_window = true
has_no_window (over partition_by order_by fr) = false

module _ (is_scalar : Bytes → Bool) where
  unfoldable mutual
    pub row_wise : Expr → Bool
    row_wise nil = true
    row_wise (expr type text fs) = row_wise_node type fs

    pub row_wise_node : ExpressionType → Fields → Bool
    row_wise_node column fs = true
    row_wise_node function (fields l u b no_call c s x) = true
    row_wise_node function (fields l u b (function_call name es d w) c s x) =
        (is_scalar name && has_no_window w) && row_wise_all es
    row_wise_node binary_type (fields l u no_binary f c s x) = true
    row_wise_node binary_type (fields l u (binary e op e') f c s x) = row_wise e && row_wise e'
    row_wise_node unary_type (fields l no_unary b f c s x) = true
    row_wise_node unary_type (fields l (unary op e) b f c s x) = row_wise e
    row_wise_node list_type (fields no_list u b f c s x) = true
    row_wise_node list_type (fields (list es) u b f c s x) = row_wise_all es
    row_wise_node case_type (fields l u b f no_case s x) = true
    row_wise_node case_type (fields l u b f (case_expression e whens e') s x) =
        row_wise e && (row_wise_whens whens && row_wise e')
    row_wise_node exists_type fs = true
    row_wise_node subquery_type fs = true
    row_wise_node literal fs = true
    row_wise_node parameter fs = true
    row_wise_node star fs = true
    row_wise_node cast_type fs = true

    pub row_wise_all : Exprs → Bool
    row_wise_all end = true
    row_wise_all (also e es) = row_wise e && row_wise_all es

    pub row_wise_whens : WhenClauses → Bool
    row_wise_whens no_more = true
    row_wise_whens (when e e' whens) = row_wise e && (row_wise e' && row_wise_whens whens)
