-- ===== src/Flatten/Substitute/Nil.antt =====
-- Where a rewritten expression is nil.
use go_zetasqlite.Prelude.{
  ℕ, ◌≡◌, refl, inl, inr, Bool, true, false, ◌||◌, Option, none, some, [], ◌∷◌, All, if◌then◌else◌,
  Bool-cases,
}
use go_zetasqlite.Prelude.Bytes.{Bytes, bytes_eq}
use go_zetasqlite.Flatten.{
  ExpressionType, column, literal, parameter, function, list_type, unary_type, binary_type,
  subquery_type, star, case_type, exists_type, cast_type, Text, Expr, expr, Fields, fields, no_list,
  list, no_unary, unary, no_binary, binary, no_call, function_call, no_case, case_expression,
  AliasMap,
}
use go_zetasqlite.Flatten.Copy.{copy_expression-id}
use go_zetasqlite.Flatten.Substitute.{
  find, definition_of, or_copy, substitute_with_depth, rewrite_node, substitute_column_refs,
}
use go_zetasqlite.Flatten.Join.{is_nil}

abbrev pub Defined : Bytes × Expr → Type 0
Defined (name, e) = is_nil e ≡ false

abbrev nil_found : Option Expr → Bool
nil_found none = false
nil_found (some e) = is_nil e

find-Defined :
    (aliases : AliasMap) (name : Bytes)
    → All Defined aliases
    → nil_found (find aliases name) ≡ false
find-Defined [] name h = refl
find-Defined ((k, e) ∷ aliases) name (he, h) = elim (Bool-cases (bytes_eq name k)) [
  | inl p ↦ rw p he
  | inr p ↦ rw p (find-Defined aliases name h)
]

definition_of-Defined :
    (aliases : AliasMap) (alias : Bytes) (text : Text)
    → All Defined aliases
    → nil_found (definition_of aliases alias text) ≡ false
definition_of-Defined aliases alias text h =
    by_test (bytes_eq text.table_alias alias || bytes_eq text.table_alias [])
  where
    by_test : (b : Bool) → nil_found (if b then find aliases text.value else none) ≡ false
    by_test true = find-Defined aliases text.value h
    by_test false = refl

or_copy-defined :
    (o : Option Expr) (text : Text) (fs : Fields)
    → nil_found o ≡ false
    → is_nil (or_copy o (expr column text fs)) ≡ false
or_copy-defined none text fs h = refl
or_copy-defined (some e) text fs h = rw (copy_expression-id e, h)

module _ (aliases : AliasMap) (alias : Bytes) (defined : All Defined aliases) where
  rewrite_node-defined :
      (type : ExpressionType) (text : Text) (fs : Fields) (depth : ℕ)
      → is_nil (rewrite_node aliases alias type text fs depth) ≡ false
  unfolding rewrite_node
  rewrite_node-defined column text fs depth =
      or_copy-defined (definition_of aliases alias text) text fs
        (definition_of-Defined aliases alias text defined)
  rewrite_node-defined function text (fields l u b no_call c s x) depth = refl
  rewrite_node-defined function text (fields l u b (function_call n es d w) c s x) depth = refl
  rewrite_node-defined binary_type text (fields l u no_binary f c s x) depth = refl
  rewrite_node-defined binary_type text (fields l u (binary e op e') f c s x) depth = refl
  rewrite_node-defined unary_type text (fields l no_unary b f c s x) depth = refl
  rewrite_node-defined unary_type text (fields l (unary op e) b f c s x) depth = refl
  rewrite_node-defined list_type text (fields no_list u b f c s x) depth = refl
  rewrite_node-defined list_type text (fields (list es) u b f c s x) depth = refl
  rewrite_node-defined case_type text (fields l u b f no_case s x) depth = refl
  rewrite_node-defined case_type text (fields l u b f (case_expression e ws e') s x) depth = refl
  rewrite_node-defined exists_type text fs depth = refl
  rewrite_node-defined subquery_type text fs depth = refl
  rewrite_node-defined literal text fs depth = refl
  rewrite_node-defined parameter text fs depth = refl
  rewrite_node-defined star text fs depth = refl
  rewrite_node-defined cast_type text fs depth = refl

  pub substitute_column_refs-defined :
      (type : ExpressionType) (text : Text) (fs : Fields)
      → is_nil (substitute_column_refs aliases alias (expr type text fs)) ≡ false
  unfolding substitute_column_refs substitute_with_depth
  substitute_column_refs-defined type text fs = rewrite_node-defined type text fs 1
