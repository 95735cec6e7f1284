-- ===== src/Query/Scan/Kept/Table.antt =====
-- The same for tables, arrays, and expressions.
use go_zetasqlite.Prelude.{Bool, true, false, Option, none, some, List, [], ◌∷◌, ◌++◌, refl, arith}
use go_zetasqlite.Prelude.Bytes.{Bytes, codes}
use go_zetasqlite.Result.{ok}
use go_zetasqlite.Flatten.{Expr}
use go_zetasqlite.Flatten.Statement.{FromItem, SelectListItem}
use go_zetasqlite.Query.Action.{Action, ask}
use go_zetasqlite.Query.Context.{
  Column, register_column_scope, add_available_column, get_id, get_qualified_column_ref,
}
use go_zetasqlite.Query.Data.{
  ExpressionData, literal_data, parameter_data, function_data, cast_data, column_data,
  subquery_data, other_data,
}
use go_zetasqlite.Query.Kept.{Kept, Extends-refl, Kept-bind, Kept-ask, Kept-change, KeptOption}
use go_zetasqlite.Query.Scan.{select_columns}
use go_zetasqlite.Query.Scan.Kept.{Kept-select_columns}
use go_zetasqlite.Query.Scan.Table.{
  announce, Synthetic, synthetic_columns, transform_table, announce_json, announce_offset,
  unnest_column, array_join, input_of, joined, json_each, array_alias, transform_array,
}

Kept-announce : (e : ExpressionData) → Kept (announce e)
unfolding announce register_column_scope add_available_column
Kept-announce (column_data id type name) =
    Kept-change _ (λ fc. record { same_scopes = refl; grows = omega arith })
Kept-announce (literal_data v) = Extends-refl
Kept-announce (parameter_data s) = Extends-refl
Kept-announce (function_data f) = Extends-refl
Kept-announce (cast_data e from to n) = Extends-refl
Kept-announce (subquery_data s t e) = Extends-refl
Kept-announce other_data = Extends-refl

abbrev pub KeptSynthetic : List Synthetic → Type 0
KeptSynthetic [] = Unit
KeptSynthetic ((d, m, alias) ∷ ss) = Kept m × KeptSynthetic ss

Kept-synthetic_columns : (ss : List Synthetic) → KeptSynthetic ss → Kept (synthetic_columns ss)
unfolding synthetic_columns
Kept-synthetic_columns [] h = Extends-refl
Kept-synthetic_columns ((d, m, alias) ∷ ss) (k, h) = Kept-bind _ _ (Kept-announce d) (λ u.
    Kept-bind _ _ k (λ e. Kept-bind _ _ (Kept-synthetic_columns ss h) (λ items. Extends-refl)))

pub Kept-transform_table :
    (name alias : Bytes) (ss : List Synthetic) (cs : List Column)
    → KeptSynthetic ss
    → Kept (transform_table name alias ss cs)
unfolding transform_table
Kept-transform_table name alias ss cs h =
    Kept-bind _ _ (Kept-synthetic_columns ss h) (λ items. Extends-refl)

Kept-announce_json : (name alias : Bytes) (c : Column) → Kept (announce_json name alias c)
unfolding announce_json register_column_scope add_available_column
Kept-announce_json name alias c =
    Kept-change _ (λ fc. record { same_scopes = refl; grows = omega arith })

Kept-announce_offset : (alias : Bytes) (o : Option Column) → Kept (announce_offset alias o)
unfolding announce_offset
Kept-announce_offset alias none = Extends-refl
Kept-announce_offset alias (some c) = Kept-announce_json _ alias c

Kept-unnest_column : (c : Column) → Kept (unnest_column c)
unfolding unnest_column
Kept-unnest_column c =
    Kept-bind (ask (λ ctx. get_qualified_column_ref ctx.fragment c.id)) _ (Kept-ask _)
      (λ r. Extends-refl)

Kept-array_join : (b : Bool) (o : Option (Action Expr)) → KeptOption o → Kept (array_join b o)
unfolding array_join
Kept-array_join true (some m) h = Kept-bind _ _ h (λ e. Extends-refl)
Kept-array_join false (some m) h = Kept-bind _ _ h (λ e. Extends-refl)
Kept-array_join true none h = Extends-refl
Kept-array_join false none h = Extends-refl

Kept-input_of : (o : Option (Action FromItem)) → KeptOption o → Kept (input_of o)
Kept-input_of none h = Extends-refl
Kept-input_of (some m) h = Kept-bind _ _ h (λ from. Extends-refl)

Kept-joined :
    (o : Option FromItem) (from : FromItem) (items : List SelectListItem) (b : Bool)
    (e : Option (Action Expr))
    → KeptOption e
    → Kept (joined o from items b e)
unfolding joined
Kept-joined none from items b e h = Extends-refl
Kept-joined (some f) from items b e h = Kept-bind _ _ (Kept-array_join b e h) (λ j. Extends-refl)

Kept-array_alias : Kept array_alias
unfolding array_alias
Kept-array_alias = Kept-ask (λ ctx. ok (codes "$array_" ++ get_id ctx.fragment))

pub Kept-transform_array :
    (input : Option (Action FromItem)) (e : Action Expr) (element : Column) (offset : Option Column)
    (b : Bool) (j : Option (Action Expr)) (cs : List Column)
    → KeptOption input
    → Kept e
    → KeptOption j
    → Kept (transform_array input e element offset b j cs)
unfolding transform_array
Kept-transform_array input e element offset b j cs h k l =
    Kept-bind _ _ (Kept-input_of input h) (λ from. Kept-bind _ _ k (λ x.
      Kept-bind array_alias _ Kept-array_alias (λ alias.
        Kept-bind (announce_json (codes "value") alias element) _
          (Kept-announce_json _ alias element)
          (λ u. Kept-bind (announce_offset alias offset) _ (Kept-announce_offset alias offset) (λ v.
            Kept-bind (select_columns unnest_column cs) _
              (Kept-select_columns unnest_column cs Kept-unnest_column)
              (λ items. Kept-joined from (json_each alias x) items b j l))))))
