-- ===== src/Query/Coordinator/Keeps.antt =====
-- The coordinator keeps the context, whatever query it transforms.
use go_zetasqlite.Prelude.{Bool, List, [], ◌∷◌, refl, arith}
use go_zetasqlite.Prelude.Bytes.{Bytes}
use go_zetasqlite.Flatten.{Expr}
use go_zetasqlite.Flatten.Statement.{FromItem, no_item, item}
use go_zetasqlite.Query.Action.{Action, ◌>>=◌, pure, change_fragment}
use go_zetasqlite.Query.Context.{
  Column, FragmentContext, register_column_scope_mapping, add_available_column,
}
use go_zetasqlite.Query.Context.Scopes.{Keeps, Keeps-refl, Keeps-trans}
use go_zetasqlite.Query.Coordinator.{
  with_alias, add_columns, register, scan_alias, validated, finish_scan, run_scan, output_items,
  transform_query, table_of, transform_create_table, transform_create_view,
}
use go_zetasqlite.Query.Kept.{
  Kept, Extends-refl, Kept-bind, Kept-ask, Kept-change, Kept-in_scope, KeptEntries,
}
use go_zetasqlite.Query.Scan.Sets.{
  Fragment, select_fragment, create_table_fragment, create_view_fragment, drop_fragment,
}

Keeps-add_columns : (cs : List Column) (fc : FragmentContext) → Keeps fc (add_columns cs fc)
unfolding add_columns add_available_column
Keeps-add_columns [] fc = Keeps-refl fc
Keeps-add_columns (c ∷ cs) fc =
    Keeps-trans fc _ _ (record { same_scopes = refl; grows = omega arith }) (Keeps-add_columns cs _)

Keeps-register_column_scope_mapping :
    (alias : Bytes) (cs : List Column) (fc : FragmentContext)
    → Keeps fc (register_column_scope_mapping alias cs fc)
unfolding register_column_scope_mapping
Keeps-register_column_scope_mapping alias [] fc = Keeps-refl fc
Keeps-register_column_scope_mapping alias (c ∷ cs) fc =
    Keeps-trans fc _ _ (record { same_scopes = refl; grows = omega arith })
      (Keeps-register_column_scope_mapping alias cs _)

Keeps-register :
    (alias : Bytes) (cs : List Column) (fc : FragmentContext) → Keeps fc (register alias cs fc)
unfolding register
Keeps-register alias cs fc =
    Keeps-trans fc _ _ (Keeps-add_columns cs fc) (Keeps-register_column_scope_mapping alias cs _)

Kept-scan_alias : (name : Bytes) → Kept (scan_alias name)
unfolding scan_alias
Kept-scan_alias name ctx = Extends-refl ctx

Kept-with_alias : (alias : Bytes) (from : FromItem) → Kept (with_alias alias from)
Kept-with_alias alias no_item = λ ctx. tt
Kept-with_alias alias (item old b) = Extends-refl

Kept-validated : (from : FromItem) (cs : List Column) → Kept (validated from cs)
unfolding validated
Kept-validated from cs = Kept-ask _

pub Kept-finish_scan :
    (name : Bytes) (cs : List Column) (from : FromItem) → Kept (finish_scan name cs from)
unfolding finish_scan
Kept-finish_scan name cs from = Kept-bind (scan_alias name) _ (Kept-scan_alias name) (λ alias.
    Kept-bind (with_alias alias from) _ (Kept-with_alias alias from) (λ aliased.
      Kept-bind (validated aliased cs)
        (λ u. change_fragment (register alias cs) >>= λ v. pure aliased) (Kept-validated aliased cs)
        (λ u.
          Kept-bind (change_fragment (register alias cs)) (λ v. pure aliased)
            (Kept-change (register alias cs) (Keeps-register alias cs)) (λ v. Extends-refl))))

pub Kept-run_scan :
    (name : Bytes) (cs : List Column) (m : Action FromItem) → Kept m → Kept (run_scan name cs m)
unfolding run_scan
Kept-run_scan name cs m h = Kept-in_scope _ (Kept-bind m _ h (Kept-finish_scan name cs))

pub Kept-output_items : (ms : List (Bytes × Action Expr)) → KeptEntries ms → Kept (output_items ms)
unfolding output_items
Kept-output_items [] h = Extends-refl
Kept-output_items ((alias, m) ∷ ms) (k, h) =
    Kept-bind _ _ k (λ e. Kept-bind _ _ (Kept-output_items ms h) (λ rest. Extends-refl))

pub Kept-transform_query :
    (m : Action FromItem) (ms : List (Bytes × Action Expr))
    → Kept m
    → KeptEntries ms
    → Kept (transform_query m ms)
unfolding transform_query
Kept-transform_query m ms h k =
    Kept-bind _ _ h (λ from. Kept-bind _ _ (Kept-output_items ms k) (λ list. Extends-refl))

Kept-table_of : (b : Bool) (name : Bytes) (f : Fragment) → Kept (table_of b name f)
Kept-table_of b name (select_fragment s) = Extends-refl
Kept-table_of b name (create_table_fragment c t s) = λ ctx. tt
Kept-table_of b name (create_view_fragment v f) = λ ctx. tt
Kept-table_of b name (drop_fragment c t o) = λ ctx. tt

pub Kept-transform_create_table :
    (b : Bool) (name : Bytes) (m : Action Fragment)
    → Kept m
    → Kept (transform_create_table b name m)
unfolding transform_create_table
Kept-transform_create_table b name m h = Kept-bind _ _ h (Kept-table_of b name)

pub Kept-transform_create_view :
    (name : Bytes) (m : Action Fragment) → Kept m → Kept (transform_create_view name m)
unfolding transform_create_view
Kept-transform_create_view name m h = Kept-bind _ _ h (λ f. Extends-refl)
