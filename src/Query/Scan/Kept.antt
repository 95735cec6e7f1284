-- ===== src/Query/Scan/Kept.antt =====
-- The transformers of scans keep the context when the actions they are given do.
pub mod Orders
pub mod Sets
pub mod Table
pub mod Expression
use go_zetasqlite.Prelude.{
  ◌≡◌, refl, Bool, true, false, Option, none, some, List, [], ◌∷◌, ◌++◌, map, if◌then◌else◌,
}
use go_zetasqlite.Prelude.Int.{ℤ, eqb_ℤ}
use go_zetasqlite.Prelude.Bytes.{Bytes}
use go_zetasqlite.Flatten.{Expr, OrderByItem}
use go_zetasqlite.Flatten.Statement.{SelectListItem, FromItem}
use go_zetasqlite.Query.Action.{Action, ◌>>=◌, pure, each, optional}
use go_zetasqlite.Query.Call.{OrderAction, order_by, order_items}
use go_zetasqlite.Query.Context.{Column, Context, lookup, get_qualified_column_expression}
use go_zetasqlite.Query.Data.{
  AstJoinType, ExpressionData, literal_data, parameter_data, function_data, cast_data, column_data,
  subquery_data, other_data, ExpressionList, no_expressions, expression_then, OrderList, no_order,
  order_then, WindowData, no_window_data, window_data, FunctionCallData, call_data, ComputedColumns,
  no_computed, computed_then,
}
use go_zetasqlite.Query.Kept.{
  Kept, Extends-refl, Kept-bind, Kept-ask, Kept-each, Kept-each_keyed, KeptEntries, KeptOption,
  Kept-optional,
}
use go_zetasqlite.Query.Scan.{
  column_expression, last_entry, first_of, select_columns, projected, transform_project,
  transform_filter, transform_limit, transform_order_by, order_of_column, partition_order,
  window_order, order_of_window, order_of_call, order_of_function, analytic_order, analytic_column,
  transform_analytic, transform_join,
}

pub Kept-column_expression : (id : ℤ) → Kept (column_expression id)
unfolding column_expression
Kept-column_expression id = Kept-ask _

-- An entry that a lookup finds keeps the context.
pub KeptOption-last_entry {ℓ} :
    {A : Type ℓ} (id : ℤ) (ms : List (ℤ × Action A))
    → KeptEntries ms
    → KeptOption (last_entry id ms)
KeptOption-last_entry id [] h = tt
KeptOption-last_entry id ((k, m) ∷ ms) (hm, h) =
    either (last_entry id ms) (KeptOption-last_entry id ms h) (eqb_ℤ id k)
  where
    either :
        (o : Option (Action _))
        → KeptOption o
        → (b : Bool) → KeptOption (first_of o (if b then some m else none))
    either (some n) hn b = hn
    either none hn true = hm
    either none hn false = tt

pub Kept-select_columns :
    (f : Column → Action Expr) (cs : List Column)
    → ((c : Column) → Kept (f c))
    → Kept (select_columns f cs)
unfolding select_columns
Kept-select_columns f [] h = Extends-refl
Kept-select_columns f (c ∷ cs) h =
    Kept-bind _ _ (h c) (λ e. Kept-bind _ _ (Kept-select_columns f cs h) (λ items. Extends-refl))

Kept-projected :
    (computed : List (ℤ × Action Expr)) (c : Column)
    → KeptEntries computed
    → Kept (projected computed c)
unfolding projected
Kept-projected computed c h =
    of_entry (last_entry c.id computed) (KeptOption-last_entry c.id computed h)
  where
    of_entry :
        (o : Option (Action Expr))
        → KeptOption o
        → Kept (elim o [ none ↦ column_expression c.id | some m ↦ m ])
    of_entry none k = Kept-column_expression c.id
    of_entry (some m) k = k

pub Kept-transform_project :
    (input : Action FromItem) (computed : List (ℤ × Action Expr)) (cs : List Column)
    → Kept input
    → KeptEntries computed
    → Kept (transform_project input computed cs)
unfolding transform_project
Kept-transform_project input computed cs h k = Kept-bind _ _ h (λ from.
    Kept-bind _ _ (Kept-select_columns _ cs (λ c. Kept-projected computed c k))
      (λ items. Extends-refl))

pub Kept-transform_filter :
    (input : Action FromItem) (e : Action Expr)
    → Kept input
    → Kept e
    → Kept (transform_filter input e)
unfolding transform_filter
Kept-transform_filter input e h k = Kept-bind _ _ h (λ from. Kept-bind _ _ k (λ x. Extends-refl))

pub Kept-transform_limit :
    (input : Action FromItem) (count : Action Expr) (offset : Option (Action Expr))
    → Kept input
    → Kept count
    → KeptOption offset
    → Kept (transform_limit input count offset)
unfolding transform_limit
Kept-transform_limit input count offset h k l =
    Kept-bind _ _ h
      (λ from. Kept-bind _ _ k (λ c. Kept-bind _ _ (Kept-optional _ offset l) (λ o. Extends-refl)))
