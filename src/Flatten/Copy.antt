-- ===== src/Flatten/Copy.antt =====
-- copyExpression of internal/sqlbuilder_flatten.go.
use go_zetasqlite.Prelude.{◌≡◌, refl}
use go_zetasqlite.Flatten.{
  Expr, nil, expr, Fields, fields, ListExpression, no_list, list, UnaryExpression, no_unary, unary,
  BinaryExpression, no_binary, binary, FunctionCall, no_call, function_call, CaseExpression,
  no_case, case_expression, Exprs, end, also, WhenClauses, no_more, when,
}

unfoldable mutual
  pub copy_expression : Expr → Expr
  copy_expression nil = nil
  copy_expression (expr type text fs) =
      expr type
        (record {
          value = text.value;
          alias = text.alias;
          table_alias = text.table_alias;
          collation = text.collation;
        })
        (copy_fields fs)

  copy_fields : Fields → Fields
  copy_fields (fields l u b f c subquery exists_subquery) =
      fields (copy_list l) (copy_unary u) (copy_binary b) (copy_call f) (copy_case c) subquery
        exists_subquery

  copy_list : ListExpression → ListExpression
  copy_list no_list = no_list
  copy_list (list es) = list (copy_all es)

  copy_unary : UnaryExpression → UnaryExpression
  copy_unary no_unary = no_unary
  copy_unary (unary op e) = unary op (copy_expression e)

  copy_binary : BinaryExpression → BinaryExpression
  copy_binary no_binary = no_binary
  copy_binary (binary e op e') = binary (copy_expression e) op (copy_expression e')

  copy_call : FunctionCall → FunctionCall
  copy_call no_call = no_call
  copy_call (function_call name es is_distinct spec) =
      function_call name (copy_all es) is_distinct spec

  copy_case : CaseExpression → CaseExpression
  copy_case no_case = no_case
  copy_case (case_expression e whens e') =
      case_expression (copy_expression e) (copy_whens whens) (copy_expression e')

  copy_all : Exprs → Exprs
  copy_all end = end
  copy_all (also e es) = also (copy_expression e) (copy_all es)

  copy_whens : WhenClauses → WhenClauses
  copy_whens no_more = no_more
  copy_whens (when e e' whens) = when (copy_expression e) (copy_expression e') (copy_whens whens)

mutual
  unfolding copy_expression copy_fields copy_list copy_unary copy_binary copy_call copy_case
      copy_all copy_whens

  copy_same : (e : Expr) → copy_expression e ≡ e
  copy_same nil = refl
  copy_same (expr type text fs) = rw (copy_fields-id fs)

  copy_fields-id : (fs : Fields) → copy_fields fs ≡ fs
  copy_fields-id (fields l u b f c s x) =
      rw (copy_list-id l, copy_unary-id u, copy_binary-id b, copy_call-id f, copy_case-id c)

  copy_list-id : (l : ListExpression) → copy_list l ≡ l
  copy_list-id no_list = refl
  copy_list-id (list es) = rw (copy_all-id es)

  copy_unary-id : (u : UnaryExpression) → copy_unary u ≡ u
  copy_unary-id no_unary = refl
  copy_unary-id (unary op e) = rw (copy_same e)

  copy_binary-id : (b : BinaryExpression) → copy_binary b ≡ b
  copy_binary-id no_binary = refl
  copy_binary-id (binary e op e') = rw (copy_same e, copy_same e')

  copy_call-id : (f : FunctionCall) → copy_call f ≡ f
  copy_call-id no_call = refl
  copy_call-id (function_call name es is_distinct spec) = rw (copy_all-id es)

  copy_case-id : (c : CaseExpression) → copy_case c ≡ c
  copy_case-id no_case = refl
  copy_case-id (case_expression e whens e') = rw (copy_same e, copy_whens-id whens, copy_same e')

  copy_all-id : (es : Exprs) → copy_all es ≡ es
  copy_all-id end = refl
  copy_all-id (also e es) = rw (copy_same e, copy_all-id es)

  copy_whens-id : (whens : WhenClauses) → copy_whens whens ≡ whens
  copy_whens-id no_more = refl
  copy_whens-id (when e e' whens) = rw (copy_same e, copy_same e', copy_whens-id whens)

-- A copy is equal to the expression it copies, field by field.
pub copy_expression-id : (e : Expr) → copy_expression e ≡ e
copy_expression-id e = copy_same e
