-- ===== src/Query/Call.antt =====
-- The Transform method of internal/transformer_function.go, given the actions that transform the
-- parts of the call.
use go_zetasqlite.Prelude.{Bool, false, Option, none, some, List, [], ◌∷◌, ◌++◌, map, if◌then◌else◌}
use go_zetasqlite.Prelude.Bytes.{Bytes}
use go_zetasqlite.Result.{Result, ok}
use go_zetasqlite.Flatten.{
  function, Expr, nil, expr, fields, no_list, no_unary, no_binary, function_call, no_case,
  WindowSpecification, no_window, over, FrameClause, no_frame, frame, FrameBound, no_bound, bound,
  OrderByItem,
}
use go_zetasqlite.Query.Action.{Action, ◌>>=◌, pure, given, each, optional}
use go_zetasqlite.Query.Build.{text_of, to_exprs}
use go_zetasqlite.Query.Data.{FunctionCallData, NullOrderMode}
use go_zetasqlite.Query.OrderItems.{create_order_by_items, collated, to_items, flatten}
use go_zetasqlite.Query.Environment.{Environment}
use go_zetasqlite.Query.Function.{special_function, can_optimize_function, optimize_function_to_sql}

-- An OrderByItemData with the action that transforms its expression.
pub record OrderAction : Type 0 where
  pub expression : Action Expr
  pub is_descending : Bool
  pub null_order : NullOrderMode

unfoldable pub order_items : OrderAction → Action (List OrderByItem)
order_items o = do e ← o.expression; pure (create_order_by_items e o.is_descending o.null_order)

abbrev pub order_by : List OrderAction → Action (List OrderByItem)
order_by os = do items ← each (map order_items os); pure (flatten items)

pub data BoundAction : Type 0 where
  no_bound_action : BoundAction
  bound_action : (type : Bytes) → Option (Action Expr) → BoundAction

pub data FrameAction : Type 0 where
  no_frame_action : FrameAction
  frame_action : (unit : Bytes) → (start end_ : BoundAction) → FrameAction

pub record WindowAction : Type 0 where
  pub partition_by : List (Action Expr)
  pub orders : List OrderAction
  pub frame_clause : FrameAction

unfoldable pub frame_bound : BoundAction → Action FrameBound
frame_bound no_bound_action = pure no_bound
frame_bound (bound_action type offset) = do e ← optional nil offset; pure (bound type e)

unfoldable pub frame_clause : FrameAction → Action FrameClause
frame_clause no_frame_action = pure no_frame
frame_clause (frame_action unit start end_) = do
  s ← frame_bound start
  e ← frame_bound end_
  pure (frame unit s e)

unfoldable pub window_specification : Option WindowAction → Action WindowSpecification
window_specification none = pure no_window
window_specification (some w) = do
  partition ← each w.partition_by
  orders ← order_by w.orders
  f ← frame_clause w.frame_clause
  pure (over (to_exprs (map collated partition)) (to_items orders) f)

-- The current time as a further argument.
abbrev pub with_current_time : Option (Result Expr) → List Expr → Action (List Expr)
with_current_time none args = pure args
with_current_time (some r) args = do e ← given r; pure (args ++ e ∷ [])

abbrev pub plain_call : Bytes → List Expr → WindowSpecification → Expr
plain_call name args spec = expr function (text_of []) (
    fields no_list no_unary no_binary (function_call name (to_exprs args) false spec) no_case none
      none)

abbrev pub catalog_call :
    Option (FunctionCallData → List Expr → Result Expr)
    → FunctionCallData
    → Bytes
    → List Expr
    → WindowSpecification
    → Result Expr
catalog_call none data_ name args spec = ok (plain_call name args spec)
catalog_call (some call_sql) data_ name args spec = call_sql data_ args

abbrev pub default_call :
    Environment → FunctionCallData → Bytes → Option WindowAction → List Expr → Action Expr
default_call env data_ name window args = do
  spec ← window_specification window
  given (
      if can_optimize_function env.is_primitive_type data_
      then optimize_function_to_sql name args
      else catalog_call (env.call_sql name) data_ name args spec)

abbrev pub call_with :
    Environment
    → FunctionCallData
    → Bytes
    → Option (List Expr → Result Expr)
    → Option WindowAction
    → List Expr
    → Action Expr
call_with env data_ name (some special) window args = given (special args)
call_with env data_ name none window args = default_call env data_ name window args

unfoldable pub transform_function_call :
    Environment → FunctionCallData → Bytes → List (Action Expr) → Option WindowAction → Action Expr
transform_function_call env data_ name arguments window = do
  args ← each arguments
  args' ← with_current_time (env.current_time name) args
  call_with env data_ name (special_function name) window args'
