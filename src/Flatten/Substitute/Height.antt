-- ===== src/Flatten/Substitute/Height.antt =====
-- The height of an expression, which the depth limit of the rewriting is compared with.
use Prim.Native.Nat.{max}
use go_zetasqlite.Prelude.{ℕ, suc}
use go_zetasqlite.Flatten.{
  Expr, nil, expr, Fields, fields, ListExpression, no_list, list, UnaryExpression, no_unary, unary,
  BinaryExpression, no_binary, binary, FunctionCall, no_call, function_call, CaseExpression,
  no_case, case_expression, Exprs, end, also, WhenClauses, no_more, when,
}

-- The number of nodes on the longest way down, through every pointer.
unfoldable mutual
  pub height : Expr → ℕ
  height nil = 0
  height (expr type text fs) = suc (height_fields fs)

  pub height_fields : Fields → ℕ
  height_fields (fields l u b f c s x) =
      max (height_list l)
        (max (height_unary u) (max (height_binary b) (max (height_call f) (height_case c))))

  pub height_list : ListExpression → ℕ
  height_list no_list = 0
  height_list (list es) = height_all es

  pub height_unary : UnaryExpression → ℕ
  height_unary no_unary = 0
  height_unary (unary op e) = height e

  pub height_binary : BinaryExpression → ℕ
  height_binary no_binary = 0
  height_binary (binary e op e') = max (height e) (height e')

  pub height_call : FunctionCall → ℕ
  height_call no_call = 0
  height_call (function_call name es d w) = height_all es

  pub height_case : CaseExpression → ℕ
  height_case no_case = 0
  height_case (case_expression e whens e') = max (height e) (max (height_whens whens) (height e'))

  pub height_all : Exprs → ℕ
  height_all end = 0
  height_all (also e es) = max (height e) (height_all es)

  pub height_whens : WhenClauses → ℕ
  height_whens no_more = 0
  height_whens (when e e' whens) = max (height e) (max (height e') (height_whens whens))
