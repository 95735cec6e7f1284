-- ===== src/Query/Scan/Kept/Sets.antt =====
-- The same for set operations, aggregations and WITH.
use go_zetasqlite.Prelude.{
  Bool, true, false, Option, none, some, List, [], ◌∷◌, map, All, ◌==◌, length, refl,
}
use go_zetasqlite.Prelude.Int.{ℤ}
use go_zetasqlite.Prelude.Bytes.{Bytes, bytes_eq, codes}
use go_zetasqlite.Flatten.{Expr}
use go_zetasqlite.Flatten.Statement.{
  Statement, no_statement, select, FromItem, WithClause, SelectListItem,
}
use go_zetasqlite.Query.Action.{Action, ◌>>=◌, pure, given, each}
use go_zetasqlite.Query.Context.{
  Column, Context, set_recursive_cte_name, add_with_entry_column_mapping,
}
use go_zetasqlite.Query.Context.Scopes.{Keeps-refl}
use go_zetasqlite.Query.Environment.{Environment}
use go_zetasqlite.Query.Kept.{
  Kept, Extends, Extends-refl, Kept-bind, Kept-given, Kept-each, Kept-each_keyed, KeptEntries,
  Kept-new_statement, Kept-if, Within-if,
}
use go_zetasqlite.Query.Scan.{update}
use go_zetasqlite.Query.Scan.Aggregate.{
  set_statement, ordered_entries, union_of_sets, ordered_entry, order_expression, aggregate_items,
  grouping_sets_query, aggregated, transform_aggregate,
}
use go_zetasqlite.Query.Scan.Sets.{
  realias, SelectStatement, Fragment, select_fragment, create_table_fragment, create_view_fragment,
  drop_fragment, as_select, select_item_of, new_items, transform_set_operation, select_parts,
  renamed, first_list, recursive_operation, transform_recursive,
}
use go_zetasqlite.Query.Scan.With.{
  named_entry, entry_with, transform_with_entry, transform_entry, transform_entries, transform_with,
  reference_to, transform_with_ref, transform_recursive_ref,
}

Kept-as_select : (f : Fragment) → Kept (as_select f)
Kept-as_select (select_fragment s) = Extends-refl
Kept-as_select (create_table_fragment b t s) = λ ctx. tt
Kept-as_select (create_view_fragment v f) = λ ctx. tt
Kept-as_select (drop_fragment b t o) = λ ctx. tt

Kept-select_item_of : (m : Action Fragment) → Kept m → Kept (select_item_of m)
unfolding select_item_of
Kept-select_item_of m h = Kept-bind _ _ h Kept-as_select

All-select_item_of : (ms : List (Action Fragment)) → All Kept ms → All Kept (map select_item_of ms)
All-select_item_of [] h = tt
All-select_item_of (m ∷ ms) (k, h) = (Kept-select_item_of m k, All-select_item_of ms h)

pub Kept-new_items : (ss : List SelectStatement) → Kept (new_items ss)
unfolding new_items
Kept-new_items [] = Extends-refl
Kept-new_items (s ∷ ss) =
    Kept-bind _ _ (Kept-new_statement _)
      (λ a. Kept-bind _ _ (Kept-new_items ss) (λ rest. Extends-refl))

pub Kept-transform_set_operation :
    (type modifier : Bytes) (ms : List (Action Fragment)) (cs : List Column)
    → All Kept ms
    → Kept (transform_set_operation type modifier ms cs)
unfolding transform_set_operation
Kept-transform_set_operation type modifier ms cs h =
    Kept-bind _ _ (Kept-each _ (All-select_item_of ms h)) (λ items.
      Kept-bind _ _ (Kept-new_items items) (λ as_.
        Kept-bind (given (renamed (first_list items) cs)) _ (Kept-given _) (λ list. Extends-refl)))

Kept-select_parts : (s : Statement) → Kept (select_parts s)
Kept-select_parts no_statement = λ ctx. tt
Kept-select_parts (select f c) = Extends-refl

Kept-recursive_operation : (op : Bytes) → Kept (recursive_operation op)
unfolding recursive_operation
Kept-recursive_operation op =
    Kept-if (bytes_eq op (codes "UNION ALL")) _ _ Extends-refl
      (Kept-if (bytes_eq op (codes "UNION")) _ _ Extends-refl (λ ctx. tt))

pub Kept-transform_recursive :
    (op : Bytes) (first second : Action Fragment) (cs : List Column)
    → Kept first
    → Kept second
    → Kept (transform_recursive op first second cs)
unfolding transform_recursive
Kept-transform_recursive op first second cs h k = Kept-bind _ _ (Kept-select_item_of first h) (λ a.
    Kept-bind _ _ (Kept-select_item_of second k) (λ b. Kept-bind _ _ (Kept-select_parts _) (λ flat.
      Kept-bind (recursive_operation op) _ (Kept-recursive_operation op) (λ o.
        Kept-bind _ _ (Kept-new_items (realias cs a ∷ realias cs flat ∷ []))
          (λ as_. Extends-refl)))))

All-ordered_entry : (es : List (ℤ × Expr)) → All Kept (map ordered_entry es)
All-ordered_entry [] = tt
All-ordered_entry (e ∷ es) = (Kept-given (order_expression e), All-ordered_entry es)

Kept-union_of_sets :
    (env : Environment) (gs : List (ℤ × Expr)) (cs : List Column) (ss : List SelectStatement)
    → Kept (union_of_sets env gs cs ss)
unfolding union_of_sets
Kept-union_of_sets env gs cs ss = Kept-bind _ _ (Kept-new_items ss) (λ as_.
    Kept-bind (each (ordered_entries env gs)) _ (Kept-each _ (All-ordered_entry _)) (λ order.
      Kept-bind (given (renamed (first_list ss) cs)) _ (Kept-given _) (λ list. Extends-refl)))

Kept-grouping_sets_query :
    (env : Environment) (gs : List (ℤ × Expr)) (cs : List Column) (ss : List SelectStatement)
    → Kept (grouping_sets_query env gs cs ss)
unfolding grouping_sets_query
Kept-grouping_sets_query env gs cs [] = Kept-union_of_sets env gs cs []
Kept-grouping_sets_query env gs cs (s ∷ []) = Extends-refl
Kept-grouping_sets_query env gs cs (s ∷ t ∷ ss) = Kept-union_of_sets env gs cs (s ∷ t ∷ ss)

Kept-aggregated :
    (env : Environment) (from : FromItem) (gs : List (ℤ × Expr)) (sets : List (List ℤ))
    (cs : List Column) (items : List SelectListItem)
    → Kept (aggregated env from gs sets cs items)
unfolding aggregated
Kept-aggregated env from gs [] cs items = Extends-refl
Kept-aggregated env from gs (ids ∷ sets) cs items =
    Kept-grouping_sets_query env gs cs (map (set_statement from gs cs items) (ids ∷ sets))

pub Kept-transform_aggregate :
    (env : Environment) (input : Action FromItem) (as_ gs : List (ℤ × Action Expr))
    (sets : List (List ℤ)) (cs : List Column)
    → Kept input
    → KeptEntries as_
    → KeptEntries gs
    → Kept (transform_aggregate env input as_ gs sets cs)
unfolding transform_aggregate
Kept-transform_aggregate env input as_ gs sets cs h k l = Kept-bind _ _ h (λ from.
    Kept-bind _ _ (Kept-each_keyed as_ k) (λ es. Kept-bind _ _ (Kept-each_keyed gs l) (λ fs.
      Kept-bind (given (aggregate_items es fs cs)) _ (Kept-given _)
        (λ items. Kept-aggregated env from fs sets cs items))))

Kept-update : (f : Context → Context) → ((ctx : Context) → Extends ctx (f ctx)) → Kept (update f)
Kept-update f h ctx = h ctx

Extends-named : (name : Bytes) (ctx : Context) → Extends ctx (set_recursive_cte_name name ctx)
unfolding set_recursive_cte_name
Extends-named name ctx = record { scopes = Keeps-refl ctx.fragment; added = []; heap = refl }

Extends-mapping :
    (name : Bytes) (cs : List Column) (ctx : Context)
    → Extends ctx (add_with_entry_column_mapping name cs ctx)
unfolding add_with_entry_column_mapping
Extends-mapping name cs ctx = record { scopes = Keeps-refl ctx.fragment; added = []; heap = refl }

Kept-named_entry : (name : Bytes) (b : Bool) (from : FromItem) → Kept (named_entry name b from)
unfolding named_entry
Kept-named_entry name b from = Kept-bind _ _ (Kept-new_statement _) (λ a. Extends-refl)

Kept-entry_with :
    (name : Bytes) (m : Action FromItem) (cs : List Column) (b : Bool)
    → Kept m
    → Kept (entry_with name m cs b)
unfolding entry_with
Kept-entry_with name m cs true h =
    Kept-bind (update (add_with_entry_column_mapping name cs)) _
      (Kept-update _ (Extends-mapping name cs))
      (λ u. Kept-bind _ _ h (λ from. Kept-named_entry name true from))
Kept-entry_with name m cs false h = Kept-bind _ _ h (λ from.
    Kept-bind (update (add_with_entry_column_mapping name cs)) _
      (Kept-update _ (Extends-mapping name cs)) (λ u. Kept-named_entry name false from))

pub Kept-transform_with_entry :
    (name : Bytes) (m : Action FromItem) (cs : List Column)
    → Kept m
    → Kept (transform_with_entry name m cs)
unfolding transform_with_entry
Kept-transform_with_entry name m cs h ctx =
    Kept-entry_with name m cs (bytes_eq ctx.recursive_cte_name name) h ctx

Kept-transform_entry :
    (b : Bool) (name : Bytes) (m : Action WithClause) → Kept m → Kept (transform_entry b name m)
unfolding transform_entry
Kept-transform_entry false name m h = h
Kept-transform_entry true name m h =
    Kept-bind (update (set_recursive_cte_name name)) _ (Kept-update _ (Extends-named name))
      (λ u. Kept-bind m cleared h (λ c. Kept_cleared c))
  where
    cleared : WithClause → Action WithClause
    cleared c = do v ← update (set_recursive_cte_name []); pure (record c { is_recursive = true })

    Kept_cleared : (c : WithClause) → Kept (cleared c)
    Kept_cleared c =
        Kept-bind (update (set_recursive_cte_name []))
          (λ v. pure (record c { is_recursive = true }))
          (Kept-update (set_recursive_cte_name []) (Extends-named [])) (λ v. Extends-refl)

Kept-transform_entries :
    (b : Bool) (es : List (Bytes × Action WithClause))
    → KeptEntries es
    → Kept (transform_entries b es)
unfolding transform_entries
Kept-transform_entries b [] h = Extends-refl
Kept-transform_entries b ((name, m) ∷ es) (k, h) =
    Kept-bind _ _ (Kept-transform_entry b name m k)
      (λ c. Kept-bind _ _ (Kept-transform_entries b es h) (λ rest. Extends-refl))

pub Kept-transform_with :
    (b : Bool) (es : List (Bytes × Action WithClause)) (m : Action FromItem)
    → KeptEntries es
    → Kept m
    → Kept (transform_with b es m)
unfolding transform_with
Kept-transform_with b es m h k =
    Kept-bind _ _ (Kept-transform_entries b es h) (λ cs. Kept-bind _ _ k (λ from. Extends-refl))

Kept-reference_to :
    (alias name : Bytes) (cs : List Column) (o : Option (List Bytes))
    → Kept (reference_to alias name cs o)
unfolding reference_to
Kept-reference_to alias name cs none = λ ctx. tt
Kept-reference_to alias name cs (some mapping) =
    Kept-if (length mapping == length cs) _ _ Extends-refl (λ ctx. tt)

pub Kept-transform_with_ref : (name : Bytes) (cs : List Column) → Kept (transform_with_ref name cs)
unfolding transform_with_ref
Kept-transform_with_ref name cs ctx = Kept-reference_to _ name cs _ ctx

pub Kept-transform_recursive_ref : (cs : List Column) → Kept (transform_recursive_ref cs)
unfolding transform_recursive_ref
Kept-transform_recursive_ref cs ctx =
    Within-if ctx (bytes_eq ctx.recursive_cte_name []) _ _ tt (Kept-reference_to _ _ cs _ ctx)
