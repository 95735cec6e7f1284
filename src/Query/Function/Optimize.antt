-- ===== src/Query/Function/Optimize.antt =====
-- Calls that become operators, in internal/transformer_function.go.
use go_zetasqlite.Prelude.{
  ◌≡◌, refl, ◌∙◌, ap, Bool, true, false, not, ◌&&◌, Option, none, some, List, [], ◌∷◌, length, ◌==◌,
  ltb, arith, if◌then◌else◌,
}
use go_zetasqlite.Prelude.Bytes.{Bytes, codes, bytes_eq, bytes_eq_sound}
use go_zetasqlite.Result.{Result, ok, err, argument_num}
use go_zetasqlite.Flatten.{Expr}
use go_zetasqlite.Query.Data.{call_data, ExpressionList, WindowData}
use go_zetasqlite.Query.Function.{
  function_to_operator, is_some, is_and_or, has_arity, count, can_optimize_function, all_primitive,
  chained, negated, listed, compared, optimize_function_to_sql,
}

and_left : (a b : Bool) → (a && b) ≡ true → a ≡ true
and_left true b h = refl
and_left false b h = h

and_right : (a b : Bool) → (a && b) ≡ true → b ≡ true
and_right true b h = h
and_right false b h = cc

abbrev Succeeds : Result Expr → Type 0
Succeeds r = (e : Expr) × (r ≡ ok e)

chained_two :
    (operator : Bytes) (args : List Expr)
    → not (ltb (length args) 2) ≡ true
    → Succeeds (chained operator args)
unfolding chained
chained_two operator [] h = cc
chained_two operator (e ∷ []) h = cc
chained_two operator (e ∷ f ∷ es) h = (_, refl)

compared_two :
    (operator : Bytes) (args : List Expr)
    → (length args == 2) ≡ true
    → Succeeds (compared operator args)
unfolding compared
compared_two operator [] h = cc
compared_two operator (e ∷ []) h = cc
compared_two operator (e ∷ f ∷ []) h = (_, refl)
compared_two operator (e ∷ f ∷ g ∷ es) h = ground arith

listed_two :
    (operator : Bytes) (args : List Expr)
    → (length args == 2) ≡ true
    → Succeeds (listed operator args)
unfolding listed
listed_two operator [] h = cc
listed_two operator (e ∷ es) h = (_, refl)

negated_one : (args : List Expr) → (length args == 1) ≡ true → Succeeds (negated args)
unfolding negated
negated_one [] h = cc
negated_one (e ∷ []) h = (_, refl)
negated_one (e ∷ f ∷ es) h = ground arith

dispatch :
    (n o i : Bool) (operator : Bytes) (args : List Expr)
    → (n ≡ true → o ≡ false)
    → (if n then length args == 1 else if o then not (ltb (length args) 2) else length args == 2)
      ≡ true
    → Succeeds (
        if o
        then chained operator args
        else if n
        then negated args
        else if i
        then listed operator args
        else compared operator args)
dispatch true true i operator args apart h = absurd (apart refl)
  where
    absurd : true ≡ false → Succeeds (chained operator args)
    absurd e = cc
dispatch true false i operator args apart h = negated_one args h
dispatch false true i operator args apart h = chained_two operator args h
dispatch false false true operator args apart h = listed_two operator args h
dispatch false false false operator args apart h = compared_two operator args h

not_is_no_and :
    (name : Bytes) → bytes_eq name (codes "zetasqlite_not") ≡ true → is_and_or name ≡ false
not_is_no_and name e = rw (bytes_eq_sound name _ e) refl

by_operator :
    (o : Option Bytes) (f : Bytes → Result Expr)
    → is_some o ≡ true
    → ((operator : Bytes) → Succeeds (f operator))
    → Succeeds (elim o [ none ↦ err argument_num | some operator ↦ f operator ])
by_operator none f h k = cc
by_operator (some operator) f h k = k operator

-- A call that canOptimizeFunction accepts becomes an operator without an error or a panic, when it
-- has as many transformed arguments as the call has arguments.
pub can_optimize_function-optimize_function_to_sql :
    (is_primitive_type : Bytes → Bool) (name : Bytes) (arguments : ExpressionList)
    (window : WindowData) (args : List Expr)
    → can_optimize_function is_primitive_type (call_data name arguments window) ≡ true
    → length args ≡ count arguments
    → (e : Expr) × (optimize_function_to_sql name args ≡ ok e)
unfolding can_optimize_function has_arity optimize_function_to_sql
can_optimize_function-optimize_function_to_sql p name arguments window args h l =
    by_operator (function_to_operator name) _
      (and_left _ _ (and_left _ (all_primitive p arguments) h))
      (λ operator.
        dispatch (bytes_eq name (codes "zetasqlite_not")) (is_and_or name)
          (bytes_eq name (codes "zetasqlite_in")) operator args (not_is_no_and name)
          (ap (has_arity name) l
            ∙ and_right (is_some (function_to_operator name)) _
                (and_left _ (all_primitive p arguments) h)))
