-- ===== src/Query/Scan/Kept/Expression.antt =====
-- The same for the transformers of expressions.
use go_zetasqlite.Prelude.{Bool, Option, none, some, List, [], ◌∷◌, All}
use go_zetasqlite.Prelude.Bytes.{Bytes}
use go_zetasqlite.Result.{Result}
use go_zetasqlite.Value.{Value}
use go_zetasqlite.Flatten.{Expr}
use go_zetasqlite.Flatten.Statement.{FromItem}
use go_zetasqlite.Query.Action.{Action, given}
use go_zetasqlite.Query.Call.{
  BoundAction, no_bound_action, bound_action, FrameAction, no_frame_action, frame_action,
  WindowAction, frame_bound, frame_clause, window_specification, with_current_time, call_with,
  transform_function_call,
}
use go_zetasqlite.Query.Context.{Column}
use go_zetasqlite.Query.Data.{
  FunctionCallData, SubqueryType, scalar_subquery, array_subquery, exists_subquery, in_subquery,
  other_subquery,
}
use go_zetasqlite.Query.Environment.{Environment}
use go_zetasqlite.Query.Expression.{
  transform_literal, transform_cast, star_over, array_of, subquery_expression, of_type,
  transform_subquery,
}
use go_zetasqlite.Query.Function.{special_function}
use go_zetasqlite.Query.Kept.{
  Kept, Extends-refl, Kept-bind, Kept-given, Kept-each, KeptOption, Kept-optional,
  Kept-new_statement,
}
use go_zetasqlite.Query.Scan.Kept.{Kept-column_expression}
use go_zetasqlite.Query.Scan.Kept.Orders.{KeptOrders, Kept-order_by}

abbrev pub KeptBound : BoundAction → Type 0
KeptBound no_bound_action = Unit
KeptBound (bound_action type o) = KeptOption o

abbrev pub KeptFrame : FrameAction → Type 0
KeptFrame no_frame_action = Unit
KeptFrame (frame_action unit s e) = KeptBound s × KeptBound e

abbrev pub KeptWindow : Option WindowAction → Type 0
KeptWindow none = Unit
KeptWindow (some w) = All Kept w.partition_by × KeptOrders w.orders × KeptFrame w.frame_clause

Kept-frame_bound : (b : BoundAction) → KeptBound b → Kept (frame_bound b)
unfolding frame_bound
Kept-frame_bound no_bound_action h = Extends-refl
Kept-frame_bound (bound_action type o) h = Kept-bind _ _ (Kept-optional _ o h) (λ e. Extends-refl)

Kept-frame_clause : (f : FrameAction) → KeptFrame f → Kept (frame_clause f)
unfolding frame_clause
Kept-frame_clause no_frame_action h = Extends-refl
Kept-frame_clause (frame_action unit s e) (h, k) =
    Kept-bind _ _ (Kept-frame_bound s h)
      (λ a. Kept-bind _ _ (Kept-frame_bound e k) (λ b. Extends-refl))

Kept-window : (w : Option WindowAction) → KeptWindow w → Kept (window_specification w)
unfolding window_specification
Kept-window none h = Extends-refl
Kept-window (some w) (h, k, l) = Kept-bind _ _ (Kept-each _ h) (λ ps.
    Kept-bind _ _ (Kept-order_by _ k)
      (λ os. Kept-bind _ _ (Kept-frame_clause _ l) (λ f. Extends-refl)))

Kept-with_current_time :
    (o : Option (Result Expr)) (args : List Expr) → Kept (with_current_time o args)
Kept-with_current_time none args = Extends-refl
Kept-with_current_time (some r) args = Kept-bind (given r) _ (Kept-given r) (λ e. Extends-refl)

Kept-call_with :
    (env : Environment) (d : FunctionCallData) (name : Bytes)
    (special : Option (List Expr → Result Expr)) (w : Option WindowAction) (args : List Expr)
    → KeptWindow w
    → Kept (call_with env d name special w args)
Kept-call_with env d name (some f) w args h = Kept-given (f args)
Kept-call_with env d name none w args h = Kept-bind _ _ (Kept-window w h) (λ spec. Kept-given _)

pub Kept-transform_function_call :
    (env : Environment) (d : FunctionCallData) (name : Bytes) (args : List (Action Expr))
    (w : Option WindowAction)
    → All Kept args
    → KeptWindow w
    → Kept (transform_function_call env d name args w)
unfolding transform_function_call
Kept-transform_function_call env d name args w h k = Kept-bind _ _ (Kept-each args h) (λ es.
    Kept-bind _ _ (Kept-with_current_time (env.current_time name) es)
      (λ fs. Kept-call_with env d name (special_function name) w fs k))

pub Kept-transform_literal : (env : Environment) (v : Option Value) → Kept (transform_literal env v)
unfolding transform_literal
Kept-transform_literal env v =
    Kept-bind (given (env.literal_from_value v)) _ (Kept-given _) (λ s. Extends-refl)

pub Kept-transform_cast :
    (env : Environment) (m : Action Expr) (from to : Bytes) (b : Bool)
    → Kept m
    → Kept (transform_cast env m from to b)
unfolding transform_cast
Kept-transform_cast env m from to b h = Kept-bind _ _ h (λ e.
    Kept-bind (given (env.encoded_type from)) _ (Kept-given _)
      (λ f. Kept-bind (given (env.encoded_type to)) _ (Kept-given _) (λ t. Extends-refl)))

Kept-star_over : (from : FromItem) → Kept (star_over from)
unfolding star_over
Kept-star_over from = Kept-new_statement _

Kept-subquery_expression : (from : FromItem) → Kept (subquery_expression from)
unfolding subquery_expression
Kept-subquery_expression from = Kept-bind _ _ (Kept-star_over from) (λ a. Extends-refl)

Kept-array_of : (from : FromItem) (cs : List Column) → Kept (array_of from cs)
unfolding array_of
Kept-array_of from [] = λ ctx. tt
Kept-array_of from (c ∷ cs) =
    Kept-bind _ _ (Kept-column_expression c.id)
      (λ e. Kept-bind _ _ (Kept-new_statement _) (λ a. Extends-refl))

Kept-of_type :
    (t : SubqueryType) (cs : List Column) (o : Option (Action Expr)) (from : FromItem)
    → KeptOption o
    → Kept (of_type t cs o from)
unfolding of_type
Kept-of_type scalar_subquery cs o from h = Kept-subquery_expression from
Kept-of_type other_subquery cs o from h = Kept-subquery_expression from
Kept-of_type array_subquery cs o from h = Kept-array_of from cs
Kept-of_type exists_subquery cs o from h = Kept-bind _ _ (Kept-star_over from) (λ a. Extends-refl)
Kept-of_type in_subquery cs none from h = λ ctx. tt
Kept-of_type in_subquery cs (some m) from h =
    Kept-bind _ _ (Kept-subquery_expression from) (λ q. Kept-bind _ _ h (λ e. Extends-refl))

pub Kept-transform_subquery :
    (m : Action FromItem) (t : SubqueryType) (cs : List Column) (o : Option (Action Expr))
    → Kept m
    → KeptOption o
    → Kept (transform_subquery m t cs o)
unfolding transform_subquery
Kept-transform_subquery m t cs o h k = Kept-bind _ _ h (λ from. Kept-of_type t cs o from k)
