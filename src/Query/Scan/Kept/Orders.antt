-- ===== src/Query/Scan/Kept/Orders.antt =====
-- The same for ORDER BY, the window functions' scan and joins.
use go_zetasqlite.Prelude.{Bool, Option, none, some, List, [], ◌∷◌, map, All, All-append}
use go_zetasqlite.Prelude.Int.{ℤ}
use go_zetasqlite.Flatten.{Expr, OrderByItem}
use go_zetasqlite.Flatten.Statement.{FromItem}
use go_zetasqlite.Query.Action.{Action, pure}
use go_zetasqlite.Query.Call.{OrderAction, order_by, order_items}
use go_zetasqlite.Query.Context.{Column}
use go_zetasqlite.Query.Data.{
  AstJoinType, ExpressionData, literal_data, parameter_data, function_data, cast_data, column_data,
  subquery_data, other_data, ExpressionList, no_expressions, expression_then, OrderList, no_order,
  order_then, no_window_data, window_data, FunctionCallData, call_data, ComputedColumns,
  no_computed, computed_then,
}
use go_zetasqlite.Query.Kept.{
  Kept, Extends-refl, Kept-bind, Kept-each, Kept-each_keyed, KeptEntries, KeptOption, Kept-optional,
}
use go_zetasqlite.Query.Scan.{
  last_entry, column_expression, transform_order_by, order_of_column, partition_order, window_order,
  order_of_call, order_of_function, analytic_order, analytic_column, transform_analytic,
  transform_join,
}
use go_zetasqlite.Query.Scan.Kept.{Kept-column_expression, Kept-select_columns}

abbrev pub KeptOrders : List OrderAction → Type 0
KeptOrders [] = Unit
KeptOrders (o ∷ os) = Kept o.expression × KeptOrders os

All-items : (os : List OrderAction) → KeptOrders os → All Kept (map order_items os)
unfolding order_items
All-items [] h = tt
All-items (o ∷ os) (k, h) = (Kept-bind _ _ k (λ e. Extends-refl), All-items os h)

pub Kept-order_by : (os : List OrderAction) → KeptOrders os → Kept (order_by os)
Kept-order_by os h = Kept-bind _ _ (Kept-each _ (All-items os h)) (λ items. Extends-refl)

pub Kept-transform_order_by :
    (input : Action FromItem) (os : List OrderAction) (cs : List Column)
    → Kept input
    → KeptOrders os
    → Kept (transform_order_by input os cs)
unfolding transform_order_by
Kept-transform_order_by input os cs h k = Kept-bind _ _ h (λ from.
    Kept-bind _ _ (Kept-order_by os k) (λ order.
      Kept-bind _ _ (Kept-select_columns _ cs (λ c. Kept-column_expression c.id))
        (λ items. Extends-refl)))

All-order_of_column : (e : ExpressionData) (b : Bool) → All Kept (order_of_column e b)
All-order_of_column (column_data id type name) b =
    (Kept-bind _ _ (Kept-column_expression id) (λ e. Extends-refl), tt)
All-order_of_column (literal_data v) b = tt
All-order_of_column (parameter_data s) b = tt
All-order_of_column (function_data f) b = tt
All-order_of_column (cast_data e from to n) b = tt
All-order_of_column (subquery_data s t e) b = tt
All-order_of_column other_data b = tt

All-partition_order : (es : ExpressionList) → All Kept (partition_order es)
unfolding partition_order
All-partition_order no_expressions = tt
All-partition_order (expression_then e es) =
    All-append Kept _ _ (All-order_of_column e _) (All-partition_order es)

All-window_order : (os : OrderList) → All Kept (window_order os)
unfolding window_order
All-window_order no_order = tt
All-window_order (order_then e b n os) =
    All-append Kept _ _ (All-order_of_column e b) (All-window_order os)

All-order_of_call : (f : FunctionCallData) → All Kept (order_of_call f)
All-order_of_call (call_data name es no_window_data) = tt
All-order_of_call (call_data name es (window_data ps os f)) =
    All-append Kept _ _ (All-partition_order ps) (All-window_order os)

All-order_of_function : (e : ExpressionData) → All Kept (order_of_function e)
All-order_of_function (function_data f) = All-order_of_call f
All-order_of_function (column_data id type name) = tt
All-order_of_function (literal_data v) = tt
All-order_of_function (parameter_data s) = tt
All-order_of_function (cast_data e from to n) = tt
All-order_of_function (subquery_data s t e) = tt
All-order_of_function other_data = tt

pub All-analytic_order : (cs : ComputedColumns) → All Kept (analytic_order cs)
unfolding analytic_order
All-analytic_order no_computed = tt
All-analytic_order (computed_then id e cs) =
    All-append Kept _ _ (All-order_of_function e) (All-analytic_order cs)

Kept-analytic_column : (fs : List (ℤ × Expr)) (c : Column) → Kept (analytic_column fs c)
unfolding analytic_column
Kept-analytic_column fs c = of_entry (last_entry c.id fs)
  where
    of_entry : (o : Option Expr) → Kept (elim o [ none ↦ column_expression c.id | some e ↦ pure e ])
    of_entry none = Kept-column_expression c.id
    of_entry (some e) = Extends-refl

pub Kept-transform_analytic :
    (input : Action FromItem) (fs : List (ℤ × Action Expr)) (os : List (Action OrderByItem))
    (cs : List Column)
    → Kept input
    → KeptEntries fs
    → All Kept os
    → Kept (transform_analytic input fs os cs)
unfolding transform_analytic
Kept-transform_analytic input fs os cs h k l = Kept-bind _ _ h (λ from.
    Kept-bind _ _ (Kept-each_keyed fs k) (λ gs.
      Kept-bind _ _ (Kept-select_columns _ cs (Kept-analytic_column gs))
        (λ items. Kept-bind _ _ (Kept-each os l) (λ order. Extends-refl))))

pub Kept-transform_join :
    (type : AstJoinType) (l r : Action FromItem) (e : Option (Action Expr))
    → Kept l
    → Kept r
    → KeptOption e
    → Kept (transform_join type l r e)
unfolding transform_join
Kept-transform_join type l r e hl hr he =
    Kept-bind _ _ hl
      (λ a. Kept-bind _ _ hr (λ b. Kept-bind _ _ (Kept-optional _ e he) (λ c. Extends-refl)))
