-- ===== src/Query/Function.antt =====
-- internal/transformer_function.go: function calls, some of which become operators or CASE.
pub mod Case
pub mod Optimize
use go_zetasqlite.Prelude.{
  ℕ, ◌+◌, ◌≤◌, Bool, true, false, not, ◌&&◌, ◌||◌, Option, none, some, List, [], ◌∷◌, ◌++◌, map,
  length, ◌==◌, ltb, if◌then◌else◌,
}
use go_zetasqlite.Prelude.Bytes.{Bytes, codes, bytes_eq}
use go_zetasqlite.Result.{Error, Result, ok, err, panic, argument_num}
use go_zetasqlite.Value.{Value, int, string, bytes, bool, array}
use go_zetasqlite.Flatten.{
  function, Expr, nil, expr, fields, no_list, no_unary, no_binary, function_call, no_case, Exprs,
  WhenClauses, no_more, when, WindowSpecification, no_window, over, FrameClause, no_frame, frame,
  FrameBound, no_bound, bound, OrderByItem,
}
use go_zetasqlite.Query.Build.{
  text_of, to_exprs, new_binary_expression, new_not_expression, new_list_expression,
  new_case_expression, new_literal_expression,
}
use go_zetasqlite.Query.Data.{
  ExpressionData, literal_data, parameter_data, function_data, cast_data, column_data,
  subquery_data, other_data, ExpressionList, no_expressions, expression_then, FunctionCallData,
  call_data, NullOrderMode,
}

abbrev find_operator : Bytes → List (Bytes × Bytes) → Option Bytes
find_operator name [] = none
find_operator name ((k, operator) ∷ entries) =
    if bytes_eq name k then some operator else find_operator name entries

-- The map functionToOperator.
abbrev operators : List (Bytes × Bytes)
operators =
    (codes "zetasqlite_equal", codes "=")
    ∷ (codes "zetasqlite_not_equal", codes "!=")
    ∷ (codes "zetasqlite_less", codes "<")
    ∷ (codes "zetasqlite_greater", codes ">")
    ∷ (codes "zetasqlite_less_or_equal", codes "<=")
    ∷ (codes "zetasqlite_greater_or_equal", codes ">=")
    ∷ (codes "zetasqlite_in", codes "IN")
    ∷ (codes "zetasqlite_and", codes "AND")
    ∷ (codes "zetasqlite_or", codes "OR")
    ∷ (codes "zetasqlite_not", codes "NOT")
    ∷ []

unfoldable pub function_to_operator : Bytes → Option Bytes
function_to_operator name = find_operator name operators

abbrev pub is_some {ℓ} : {A : Type ℓ} → Option A → Bool
is_some none = false
is_some (some a) = true

abbrev pub is_and_or : Bytes → Bool
is_and_or name = bytes_eq name (codes "zetasqlite_and") || bytes_eq name (codes "zetasqlite_or")

-- The argument counts of canOptimizeFunction.
unfoldable pub has_arity : Bytes → ℕ → Bool
has_arity name n =
    if bytes_eq name (codes "zetasqlite_not")
    then n == 1
    else if is_and_or name
    then not (ltb n 2)
    else n == 2

abbrev pub count : ExpressionList → ℕ
count no_expressions = 0
count (expression_then e es) = count es + 1

-- Literals of the other dynamic types are no values of the model.
abbrev is_primitive_value : Option Value → Bool
is_primitive_value none = false
is_primitive_value (some (int z)) = true
is_primitive_value (some (string s)) = true
is_primitive_value (some (bytes s)) = false
is_primitive_value (some (bool b)) = true
is_primitive_value (some (array vs)) = false

unfoldable mutual
  unfolding function_to_operator has_arity

  pub can_optimize_function : (is_primitive_type : Bytes → Bool) → FunctionCallData → Bool
  can_optimize_function is_primitive_type (call_data name arguments window) =
      is_some (function_to_operator name)
      && has_arity name (count arguments)
      && all_primitive is_primitive_type arguments

  pub all_primitive : (is_primitive_type : Bytes → Bool) → ExpressionList → Bool
  all_primitive is_primitive_type no_expressions = true
  all_primitive is_primitive_type (expression_then e es) =
      is_primitive_sqlite_type is_primitive_type e && all_primitive is_primitive_type es

  pub is_primitive_sqlite_type : (is_primitive_type : Bytes → Bool) → ExpressionData → Bool
  is_primitive_sqlite_type is_primitive_type (literal_data v) = is_primitive_value v
  is_primitive_sqlite_type is_primitive_type (parameter_data s) = false
  is_primitive_sqlite_type is_primitive_type (function_data f) =
      can_optimize_function is_primitive_type f
  is_primitive_sqlite_type is_primitive_type (cast_data e from to b) = false
  is_primitive_sqlite_type is_primitive_type (column_data id type name) = is_primitive_type type
  is_primitive_sqlite_type is_primitive_type (subquery_data s t e) = false
  is_primitive_sqlite_type is_primitive_type other_data = false

-- Operands in a row, from the left.
unfoldable pub chain : Expr → Bytes → List Expr → Expr
unfolding new_binary_expression
chain result operator [] = result
chain result operator (e ∷ es) = chain (new_binary_expression result operator e) operator es

unfoldable pub chained : Bytes → List Expr → Result Expr
unfolding chain
chained operator [] = err argument_num
chained operator (e ∷ []) = err argument_num
chained operator (e ∷ f ∷ es) = ok (chain e operator (f ∷ es))

unfoldable pub negated : List Expr → Result Expr
unfolding new_not_expression
negated [] = err argument_num
negated (e ∷ []) = ok (new_not_expression e)
negated (e ∷ f ∷ es) = err argument_num

unfoldable pub listed : Bytes → List Expr → Result Expr
unfolding new_binary_expression new_list_expression
listed operator [] = panic
listed operator (e ∷ es) = ok (new_binary_expression e operator (new_list_expression es))

unfoldable pub compared : Bytes → List Expr → Result Expr
unfolding new_binary_expression
compared operator [] = err argument_num
compared operator (e ∷ []) = err argument_num
compared operator (e ∷ f ∷ []) = ok (new_binary_expression e operator f)
compared operator (e ∷ f ∷ g ∷ es) = err argument_num

unfoldable pub optimize_function_to_sql : Bytes → List Expr → Result Expr
unfolding function_to_operator
optimize_function_to_sql name args = elim (function_to_operator name) [
  | none ↦ err argument_num
  | some operator ↦
      if is_and_or name
      then chained operator args
      else if bytes_eq name (codes "zetasqlite_not")
      then negated args
      else if bytes_eq name (codes "zetasqlite_in")
      then listed operator args
      else compared operator args
]

-- Conditions and results in turn; a last argument without a partner is left for ELSE.
unfoldable pub when_clauses : List Expr → WhenClauses × Expr
when_clauses [] = (no_more, nil)
when_clauses (e ∷ []) = (no_more, e)
when_clauses (c ∷ r ∷ args) = let rest = when_clauses args in (when c r rest.0, rest.1)

unfoldable pub if_null : List Expr → Result Expr
unfolding new_case_expression new_binary_expression new_literal_expression
if_null (a ∷ b ∷ []) = ok (
    new_case_expression nil
      (when (new_binary_expression a (codes "IS") (new_literal_expression (codes "NULL"))) b
        no_more)
      a)
if_null [] = err argument_num
if_null (a ∷ []) = err argument_num
if_null (a ∷ b ∷ c ∷ args) = err argument_num

unfoldable pub if_then : List Expr → Result Expr
unfolding new_case_expression
if_then (a ∷ b ∷ c ∷ []) = ok (new_case_expression nil (when a b no_more) c)
if_then [] = err argument_num
if_then (a ∷ []) = err argument_num
if_then (a ∷ b ∷ []) = err argument_num
if_then (a ∷ b ∷ c ∷ d ∷ args) = err argument_num

unfoldable pub case_no_value : List Expr → Result Expr
unfolding new_case_expression when_clauses
case_no_value args = let parts = when_clauses args in ok (new_case_expression nil parts.0 parts.1)

unfoldable pub case_with_value : List Expr → Result Expr
unfolding new_case_expression when_clauses
case_with_value [] = err argument_num
case_with_value (a ∷ []) = err argument_num
case_with_value (a ∷ b ∷ []) = err argument_num
case_with_value (a ∷ b ∷ c ∷ args) =
    let parts = when_clauses (b ∷ c ∷ args) in ok (new_case_expression a parts.0 parts.1)

-- The functions that become CASE.
unfoldable pub special_function : Bytes → Option (List Expr → Result Expr)
special_function name =
    if bytes_eq name (codes "zetasqlite_ifnull")
    then some if_null
    else if bytes_eq name (codes "zetasqlite_if")
    then some if_then
    else if bytes_eq name (codes "zetasqlite_case_no_value")
    then some case_no_value
    else if bytes_eq name (codes "zetasqlite_case_with_value")
    then some case_with_value
    else none
