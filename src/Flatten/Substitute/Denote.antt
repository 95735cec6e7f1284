-- ===== src/Flatten/Substitute/Denote.antt =====
-- The value of an expression before and after its column references are rewritten.
use go_zetasqlite.Prelude.{
  fst_true, snd_true, ℕ, suc, ◌+◌, ◌≤◌, ◌≡◌, refl, true, false, ◌&&◌, Option, none, some, ltb,
  arith,
}
use go_zetasqlite.Prelude.Bytes.{Bytes}
use go_zetasqlite.Flatten.{
  ExpressionType, column, literal, parameter, function, list_type, unary_type, binary_type,
  subquery_type, star, case_type, exists_type, cast_type, Text, Expr, nil, expr, Fields, fields,
  no_list, list, no_unary, unary, no_binary, binary, no_call, function_call, no_case,
  case_expression, WindowSpecification, no_window, over, Exprs, end, also, WhenClauses, no_more,
  when, AliasMap,
}
use go_zetasqlite.Flatten.Copy.{copy_expression-id}
use go_zetasqlite.Flatten.Substitute.{
  max_depth, definition_of, or_copy, substitute_with_depth, rewrite_node, substitute_all,
  substitute_whens, substitute_column_refs,
}
use go_zetasqlite.Flatten.Substitute.Meaning.{
  Meaning, Row, eval, eval_node, eval_window, eval_all, eval_whens, or_row, projected,
}
use go_zetasqlite.Flatten.Substitute.RowWise.{
  has_no_window, row_wise, row_wise_node, row_wise_all, row_wise_whens,
}
use go_zetasqlite.Flatten.Substitute.Height.{
  height, height_fields, height_list, height_unary, height_binary, height_call, height_case,
  height_all, height_whens,
}

module _ {ℓ} {V : Type ℓ} (m : Meaning V) where
  module _ (aliases : AliasMap) (alias : Bytes) (row : Row V) where
    column_same :
        (text : Text) (fs : Fields) (o : Option Expr)
        → eval m row (or_copy o (expr column text fs)) ≡ or_row m row o text.table_alias text.value
    unfolding eval eval_node
    column_same text fs none = refl
    column_same text fs (some e) = rw (copy_expression-id e)

    not_deep : (depth n : ℕ) → depth + suc n ≤ suc max_depth → ltb max_depth depth ≡ false
    not_deep depth n h = ground arith

    no_over :
        (w : WindowSpecification) (row' : Row V)
        → has_no_window w ≡ true
        → eval_window m row w ≡ eval_window m row' w
    unfolding eval_window
    no_over no_window row' h = refl
    no_over (over partition_by order_by fr) row' h = cc

    mutual
      unfolding substitute_with_depth rewrite_node substitute_all substitute_whens eval eval_node
          eval_all eval_whens height height_fields height_list height_unary height_binary
          height_call height_case height_all height_whens row_wise row_wise_node row_wise_all
          row_wise_whens

      eval_same :
          (e : Expr) (depth : ℕ)
          → depth + height e ≤ suc max_depth
          → row_wise m.is_scalar e ≡ true
          → eval m row (substitute_with_depth aliases alias e depth)
            ≡ eval m (projected m aliases alias row) e
      eval_same nil depth h p = refl
      eval_same (expr type text fs) depth h p =
          rw (not_deep depth (height_fields fs) h)
            (node_same type text fs (suc depth) (omega (arith, h)) p)

      node_same :
          (type : ExpressionType) (text : Text) (fs : Fields) (depth : ℕ)
          → depth + height_fields fs ≤ suc max_depth
          → row_wise_node m.is_scalar type fs ≡ true
          → eval m row (rewrite_node aliases alias type text fs depth)
            ≡ eval_node m (projected m aliases alias row) type text fs
      node_same column text fs depth h p = column_same text fs (definition_of aliases alias text)
      node_same function text (fields l u b no_call c s x) depth h p = refl
      node_same function text (fields l u b (function_call name es d w) c s x) depth h p = rw (
        all_same es depth (omega (arith, h)) (snd_true (m.is_scalar name && has_no_window w) _ p),
        no_over w (projected m aliases alias row)
            (snd_true (m.is_scalar name) _ (fst_true (m.is_scalar name && has_no_window w) _ p)),
      )
      node_same binary_type text (fields l u no_binary f c s x) depth h p = refl
      node_same binary_type text (fields l u (binary e op e') f c s x) depth h p = rw (
        eval_same e depth (omega (arith, h)) (fst_true (row_wise m.is_scalar e) _ p),
        eval_same e' depth (omega (arith, h)) (snd_true (row_wise m.is_scalar e) _ p),
      )
      node_same unary_type text (fields l no_unary b f c s x) depth h p = refl
      node_same unary_type text (fields l (unary op e) b f c s x) depth h p =
          rw (eval_same e depth (omega (arith, h)) p)
      node_same list_type text (fields no_list u b f c s x) depth h p = refl
      node_same list_type text (fields (list es) u b f c s x) depth h p =
          rw (all_same es depth (omega (arith, h)) p)
      node_same case_type text (fields l u b f no_case s x) depth h p = refl
      node_same case_type text (fields l u b f (case_expression e whens e') s x) depth h p = rw (
        eval_same e depth (omega (arith, h)) (fst_true (row_wise m.is_scalar e) _ p),
        whens_same whens depth (omega (arith, h))
            (fst_true (row_wise_whens m.is_scalar whens) _ (snd_true (row_wise m.is_scalar e) _ p)),
        eval_same e' depth (omega (arith, h))
            (snd_true (row_wise_whens m.is_scalar whens) _ (snd_true (row_wise m.is_scalar e) _ p)),
      )
      node_same exists_type text fs depth h p = refl
      node_same subquery_type text fs depth h p = refl
      node_same literal text fs depth h p = refl
      node_same parameter text fs depth h p = refl
      node_same star text fs depth h p = refl
      node_same cast_type text fs depth h p = refl

      all_same :
          (es : Exprs) (depth : ℕ)
          → depth + height_all es ≤ suc max_depth
          → row_wise_all m.is_scalar es ≡ true
          → eval_all m row (substitute_all aliases alias es depth)
            ≡ eval_all m (projected m aliases alias row) es
      all_same end depth h p = refl
      all_same (also e es) depth h p = rw (
        eval_same e depth (omega (arith, h)) (fst_true (row_wise m.is_scalar e) _ p),
        all_same es depth (omega (arith, h)) (snd_true (row_wise m.is_scalar e) _ p),
      )

      whens_same :
          (whens : WhenClauses) (depth : ℕ)
          → depth + height_whens whens ≤ suc max_depth
          → row_wise_whens m.is_scalar whens ≡ true
          → eval_whens m row (substitute_whens aliases alias whens depth)
            ≡ eval_whens m (projected m aliases alias row) whens
      whens_same no_more depth h p = refl
      whens_same (when e e' whens) depth h p = rw (
        eval_same e depth (omega (arith, h)) (fst_true (row_wise m.is_scalar e) _ p),
        eval_same e' depth (omega (arith, h))
            (fst_true (row_wise m.is_scalar e') _ (snd_true (row_wise m.is_scalar e) _ p)),
        whens_same whens depth (omega (arith, h))
            (snd_true (row_wise m.is_scalar e') _ (snd_true (row_wise m.is_scalar e) _ p)),
      )

  -- In every row, the rewritten expression has the value that the expression has in the row of the
  -- subquery's result, if the expression is at most 101 nodes high and every call in it is of a
  -- scalar function without OVER: the code leaves the columns of an OVER clause as they are. The
  -- values of literals, parameters, stars, casts and subqueries are given, the same in both rows.
  pub eval-substitute_column_refs :
      (aliases : AliasMap) (alias : Bytes) (row : Row V) (e : Expr)
      → height e ≤ suc max_depth
      → row_wise m.is_scalar e ≡ true
      → eval m row (substitute_column_refs aliases alias e)
        ≡ eval m (projected m aliases alias row) e
  unfolding substitute_column_refs
  eval-substitute_column_refs aliases alias row e h p =
      eval_same aliases alias row e 0 (omega (arith, h)) p
