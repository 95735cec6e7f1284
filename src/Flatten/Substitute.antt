-- ===== src/Flatten/Substitute.antt =====
-- substituteColumnRefs and substituteColumnRefsWithDepth of internal/sqlbuilder_flatten.go.
pub mod Height
pub mod RowWise
pub mod Meaning
pub mod Denote
pub mod Nil
use go_zetasqlite.Prelude.{
  ℕ, suc, Bool, true, false, ◌||◌, ◌&&◌, Option, none, some, List, [], ◌∷◌, ltb, if◌then◌else◌,
  arith,
}
use go_zetasqlite.Prelude.Bytes.{Bytes, bytes_eq}
use go_zetasqlite.Flatten.{
  ExpressionType, column, literal, parameter, function, list_type, unary_type, binary_type,
  subquery_type, star, case_type, exists_type, cast_type, Text, Expr, nil, expr, Fields, fields,
  ListExpression, no_list, list, UnaryExpression, no_unary, unary, BinaryExpression, no_binary,
  binary, FunctionCall, no_call, function_call, CaseExpression, no_case, case_expression, Exprs,
  end, also, WhenClauses, no_more, when, AliasMap,
}
use go_zetasqlite.Flatten.Copy.{copy_expression}

abbrev pub max_depth : ℕ
max_depth = 100

abbrev pub find : AliasMap → Bytes → Option Expr
find [] key = none
find ((k, e) ∷ aliases) key = if bytes_eq key k then some e else find aliases key

-- The string fields of a node that is built anew.
abbrev pub rebuilt : Text → Text
rebuilt text = record { value = []; alias = []; table_alias = []; collation = text.collation }

abbrev pub definition_of : AliasMap → Bytes → Text → Option Expr
definition_of aliases alias text =
    if bytes_eq text.table_alias alias || bytes_eq text.table_alias []
    then find aliases text.value
    else none

abbrev pub or_copy : Option Expr → Expr → Expr
or_copy none e = e
or_copy (some e') e = copy_expression e'

module _ (aliases : AliasMap) (alias : Bytes) where
  unfoldable mutual
    pub substitute_with_depth : Expr → ℕ → Expr
    substitute_with_depth nil depth = nil
    substitute_with_depth (expr type text fs) depth =
        if ltb max_depth depth then expr type text fs else rewrite_node type text fs (suc depth)

    -- `depth` is already that of the node's children.
    pub rewrite_node : ExpressionType → Text → Fields → ℕ → Expr
    rewrite_node column text fs depth =
        or_copy (definition_of aliases alias text) (expr column text fs)
    rewrite_node function text (fields l u b no_call c s x) depth =
        expr function text (fields l u b no_call c s x)
    rewrite_node function text (fields l u b (function_call name es d w) c s x) depth =
        expr function (rebuilt text) (
          fields no_list no_unary no_binary (function_call name (substitute_all es depth) d w)
            no_case none none)
    rewrite_node binary_type text (fields l u no_binary f c s x) depth =
        expr binary_type text (fields l u no_binary f c s x)
    rewrite_node binary_type text (fields l u (binary e op e') f c s x) depth =
        expr binary_type (rebuilt text) (
          fields no_list no_unary
            (binary (substitute_with_depth e depth) op (substitute_with_depth e' depth)) no_call
            no_case none none)
    rewrite_node unary_type text (fields l no_unary b f c s x) depth =
        expr unary_type text (fields l no_unary b f c s x)
    rewrite_node unary_type text (fields l (unary op e) b f c s x) depth =
        expr unary_type (rebuilt text) (
          fields no_list (unary op (substitute_with_depth e depth)) no_binary no_call no_case none
            none)
    rewrite_node list_type text (fields no_list u b f c s x) depth =
        expr list_type text (fields no_list u b f c s x)
    rewrite_node list_type text (fields (list es) u b f c s x) depth =
        expr list_type (rebuilt text)
          (fields (list (substitute_all es depth)) no_unary no_binary no_call no_case none none)
    rewrite_node case_type text (fields l u b f no_case s x) depth =
        expr case_type text (fields l u b f no_case s x)
    rewrite_node case_type text (fields l u b f (case_expression e whens e') s x) depth =
        expr case_type (rebuilt text) (
          fields no_list no_unary no_binary no_call
            (case_expression (substitute_with_depth e depth) (substitute_whens whens depth)
              (substitute_with_depth e' depth))
            none none)
    rewrite_node exists_type text fs depth = expr exists_type text fs
    rewrite_node subquery_type text fs depth = expr subquery_type text fs
    rewrite_node literal text fs depth = expr literal text fs
    rewrite_node parameter text fs depth = expr parameter text fs
    rewrite_node star text fs depth = expr star text fs
    rewrite_node cast_type text fs depth = expr cast_type text fs

    pub substitute_all : Exprs → ℕ → Exprs
    substitute_all end depth = end
    substitute_all (also e es) depth =
        also (substitute_with_depth e depth) (substitute_all es depth)

    pub substitute_whens : WhenClauses → ℕ → WhenClauses
    substitute_whens no_more depth = no_more
    substitute_whens (when e e' whens) depth =
        when (substitute_with_depth e depth) (substitute_with_depth e' depth)
          (substitute_whens whens depth)

  unfoldable pub substitute_column_refs : Expr → Expr
  substitute_column_refs e = substitute_with_depth e 0
