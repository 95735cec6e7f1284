-- ===== src/Query/Change/Keeps.antt =====
-- What the transformers of INSERT, UPDATE and DELETE leave of the context.
use go_zetasqlite.Prelude.{refl, arith, List, [], ◌∷◌, Option, some, none}
use go_zetasqlite.Prelude.Bytes.{Bytes}
use go_zetasqlite.Query.Change.{
  InsertData, SetItemData, UpdateData, DeleteData, ChangeData, insert_data, update_data,
  delete_data, no_table, table_columns_of, add_table_columns, text_of, value_strings, insert_rows,
  insert_query, insert_parts, transform_insert, set_items_of, transform_update, transform_delete,
  change, transform_change,
}
use go_zetasqlite.Query.Context.{
  Column, Context, FragmentContext, add_available_columns_for_dml, add_available_column,
  register_column_scope,
}
use go_zetasqlite.Query.Context.Scopes.{Keeps, Keeps-refl, Keeps-trans}
use go_zetasqlite.Query.Coordinator.Invariant.{
  transform_scan-Extends, transform_expression-Extends, kept_items, kept_optional,
  kept_optional_scan,
}
use go_zetasqlite.Query.Coordinator.Keeps.{Kept-output_items}
use go_zetasqlite.Query.Data.{
  ExpressionData, scan, OptionalScan, no_scan, the_scan, ScanContent, table_scan, join_scan,
  filter_scan, project_scan, aggregate_scan, order_by_scan, limit_scan, set_operation_scan,
  single_row_scan, with_scan, with_ref_scan, with_entry_scan, array_scan, analytic_scan,
  recursive_scan, recursive_ref_scan, other_scan, SelectData, select_data,
}
use go_zetasqlite.Query.Environment.{Environment}
use go_zetasqlite.Query.Kept.{
  Kept, Within, Extends-refl, Kept-bind, Kept-ask, Kept-change, Kept-optional, Kept-in_scope,
}

columns_Keeps :
    (name : Bytes) (cs : List Column) (fc : FragmentContext)
    → Keeps fc (add_available_columns_for_dml name cs fc)
unfolding add_available_columns_for_dml add_available_column register_column_scope
columns_Keeps name [] fc = Keeps-refl fc
columns_Keeps name (c ∷ cs) fc =
    Keeps-trans fc _ _ (record { same_scopes = refl; grows = omega arith })
      (columns_Keeps name cs _)

Kept-no_table : (cs : List Column) → Kept (no_table cs)
Kept-no_table [] = Extends-refl
Kept-no_table (c ∷ cs) = λ ctx. tt

Kept-table_columns_of : (cs : List Column) (s : ScanContent) → Kept (table_columns_of cs s)
Kept-table_columns_of cs (table_scan name alias ss) = Kept-change _ (columns_Keeps name cs)
Kept-table_columns_of cs (join_scan type l r e) = Kept-no_table cs
Kept-table_columns_of cs (filter_scan s e) = Kept-no_table cs
Kept-table_columns_of cs (project_scan s es) = Kept-no_table cs
Kept-table_columns_of cs (aggregate_scan s gs as_ sets) = Kept-no_table cs
Kept-table_columns_of cs (order_by_scan s os) = Kept-no_table cs
Kept-table_columns_of cs (limit_scan s c o) = Kept-no_table cs
Kept-table_columns_of cs (set_operation_scan type m ss) = Kept-no_table cs
Kept-table_columns_of cs single_row_scan = Kept-no_table cs
Kept-table_columns_of cs (with_scan r es s) = Kept-no_table cs
Kept-table_columns_of cs (with_ref_scan name ds) = Kept-no_table cs
Kept-table_columns_of cs (with_entry_scan e) = Kept-no_table cs
Kept-table_columns_of cs (array_scan s e c o b j) = Kept-no_table cs
Kept-table_columns_of cs (analytic_scan s fs) = Kept-no_table cs
Kept-table_columns_of cs (recursive_scan op s t) = Kept-no_table cs
Kept-table_columns_of cs (recursive_ref_scan ds) = Kept-no_table cs
Kept-table_columns_of cs other_scan = Kept-no_table cs

Kept-add_table_columns : (s : OptionalScan) → Kept (add_table_columns s)
unfolding add_table_columns
Kept-add_table_columns no_scan = λ ctx. tt
Kept-add_table_columns (the_scan (scan cs content)) = Kept-table_columns_of cs content

module _ (env : Environment) where
  Kept-value_strings : (ds : List ExpressionData) → Kept (value_strings env ds)
  unfolding value_strings
  Kept-value_strings [] = Extends-refl
  Kept-value_strings (d ∷ ds) = Kept-bind _ _ (transform_expression-Extends env d) (λ e.
      Kept-bind (text_of env e) _ (Kept-ask _)
        (λ s. Kept-bind _ _ (Kept-value_strings ds) (λ rest. Extends-refl)))

  Kept-insert_rows : (rows : List (List ExpressionData)) → Kept (insert_rows env rows)
  unfolding insert_rows
  Kept-insert_rows [] = Extends-refl
  Kept-insert_rows (ds ∷ rows) =
      Kept-bind _ _ (Kept-value_strings ds)
        (λ ss. Kept-bind _ _ (Kept-insert_rows rows) (λ rest. Extends-refl))

  Kept-insert_query : (q : SelectData) → Kept (insert_query env q)
  unfolding insert_query
  Kept-insert_query (select_data s items) =
      Kept-bind _ _ (transform_scan-Extends env s)
        (λ from. Kept-bind _ _ (Kept-output_items _ (kept_items env items)) (λ list. Extends-refl))

  Kept-insert_parts : (d : InsertData) (q : Option SelectData) → Kept (insert_parts env d q)
  Kept-insert_parts d none = Kept-bind _ _ (Kept-insert_rows d.values_) (λ rows. Extends-refl)
  Kept-insert_parts d (some q) = Kept-bind _ _ (Kept-insert_query q) (λ s. Extends-refl)

  Kept-set_items_of : (items : List SetItemData) → Kept (set_items_of env items)
  unfolding set_items_of
  Kept-set_items_of [] = Extends-refl
  Kept-set_items_of (i ∷ items) =
      Kept-bind _ _ (transform_expression-Extends env i.value)
        (λ value. Kept-bind _ _ (Kept-set_items_of items) (λ rest. Extends-refl))

  Kept-transform_update : (d : UpdateData) → Kept (transform_update env d)
  unfolding transform_update
  Kept-transform_update d = Kept-bind _ _ (Kept-add_table_columns d.table_scan_data) (λ u.
      Kept-bind _ _ (Kept-optional _ _ (kept_optional_scan env d.from_clause)) (λ from.
        Kept-bind _ _ (Kept-set_items_of d.set_items) (λ items.
          Kept-bind _ _ (Kept-optional _ _ (kept_optional env d.where_clause))
            (λ e. Extends-refl))))

  Kept-transform_delete : (d : DeleteData) → Kept (transform_delete env d)
  unfolding transform_delete
  Kept-transform_delete d = Kept-bind _ _ (Kept-add_table_columns d.table_scan_data) (λ u.
      Kept-bind _ _ (Kept-optional _ _ (kept_optional env d.where_clause)) (λ e. Extends-refl))

  Kept-change_data : (d : ChangeData) → Kept (change env d)
  unfolding transform_insert
  Kept-change_data (insert_data d) = Kept-insert_parts d d.query
  Kept-change_data (update_data d) = Kept-transform_update d
  Kept-change_data (delete_data d) = Kept-transform_delete d

-- Whatever INSERT, UPDATE or DELETE is transformed: if there is a result, it leaves the stack of
-- scopes as it was, has only counted scopes up, and has only added statements in front of the heap.
pub transform_change-Extends :
    (env : Environment) (d : ChangeData) (ctx : Context) → Within ctx (transform_change env d ctx)
unfolding transform_change
transform_change-Extends env d ctx = Kept-in_scope _ (Kept-change_data env d) ctx
