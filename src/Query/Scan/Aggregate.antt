-- ===== src/Query/Scan/Aggregate.antt =====
-- internal/transformer_scan_aggregate.go: GROUP BY and grouping sets.
use go_zetasqlite.Prelude.{
  Bool, true, false, not, ◌&&◌, Option, none, some, List, [], ◌∷◌, map, if◌then◌else◌,
}
use go_zetasqlite.Prelude.Int.{ℤ, eqb_ℤ}
use go_zetasqlite.Prelude.Bytes.{codes}
use go_zetasqlite.Result
use go_zetasqlite.Result.{Result, ok, err, panic, column_missing}
use go_zetasqlite.Flatten.{Expr, nil, expr, OrderByItem, order_by_item}
use go_zetasqlite.Flatten.Statement.{SelectListItem, select, FromItem, no_item}
use go_zetasqlite.Query.Action.{Action, ◌>>=◌, pure, given, each, each_keyed}
use go_zetasqlite.Query.Build.{
  no_fields, new_clauses, select_item, new_subquery_from_item, new_function_expression,
  new_literal_expression,
}
use go_zetasqlite.Query.Context.{Column, alias_of}
use go_zetasqlite.Query.Environment.{Environment}
use go_zetasqlite.Query.Scan.{last_entry, subquery_of, first_of}
use go_zetasqlite.Query.Scan.Sets.{SelectStatement, new_items, set_clauses, renamed, first_list}

abbrev pub or_missing : Option Expr → Result Expr
or_missing none = err column_missing
or_missing (some e) = ok e

-- The select list: each column is an aggregate or, failing that, a grouping expression.
unfoldable pub aggregate_items :
    (aggregates groups : List (ℤ × Expr)) → List Column → Result (List SelectListItem)
aggregate_items aggregates groups [] = ok []
aggregate_items aggregates groups (c ∷ cs) =
    Result.◌>>=◌ (or_missing (first_of (last_entry c.id aggregates) (last_entry c.id groups))) (λ e.
      Result.◌>>=◌ (aggregate_items aggregates groups cs)
        (λ items. ok (select_item e (alias_of c) ∷ items)))

unfoldable pub group_by : Expr → Expr
unfolding new_function_expression
group_by e = new_function_expression (codes "zetasqlite_group_by") (e ∷ [])

abbrev pub has_key {ℓ} : {A : Type ℓ} → ℤ → List (ℤ × A) → Bool
has_key id [] = false
has_key id ((k, a) ∷ entries) = if eqb_ℤ id k then true else has_key id entries

abbrev pub member : ℤ → List ℤ → Bool
member id [] = false
member id (k ∷ ids) = if eqb_ℤ id k then true else member id ids

-- The entries of the map that the assignments in the list's order leave.
unfoldable pub map_entries : List (ℤ × Expr) → List (ℤ × Expr)
map_entries [] = []
map_entries ((k, e) ∷ entries) =
    let rest = map_entries entries in if has_key k entries then rest else (k, e) ∷ rest

abbrev pub or_nil : Option Expr → Expr
or_nil none = nil
or_nil (some e) = e

-- The grouping expressions of one grouping set.
unfoldable pub set_group_by : List (ℤ × Expr) → List ℤ → List Expr
unfolding group_by
set_group_by groups [] = []
set_group_by groups (id ∷ ids) = group_by (or_nil (last_entry id groups)) ∷ set_group_by groups ids

-- The select list of one grouping set: NULL for the grouping columns that are not in it.
unfoldable pub set_items :
    List (ℤ × Expr) → List ℤ → List Column → List SelectListItem → List SelectListItem
unfolding new_literal_expression
set_items groups ids columns [] = []
set_items groups ids [] (i ∷ items) = []
set_items groups ids (c ∷ columns) (i ∷ items) =
    (if has_key c.id groups && not (member c.id ids)
      then select_item (new_literal_expression (codes "NULL")) c.name
      else i)
    ∷ set_items groups ids columns items

unfoldable pub set_statement :
    FromItem → List (ℤ × Expr) → List Column → List SelectListItem → List ℤ → SelectStatement
unfolding set_items set_group_by
set_statement from groups columns items ids = (
  from,
  record new_clauses {
    select_list = set_items groups ids columns items;
    group_by_list = set_group_by groups ids;
  },
)

-- A copy of the expression's type and value, with the collation.
abbrev pub order_expression : ℤ × Expr → Result OrderByItem
order_expression (k, nil) = panic
order_expression (k, expr type text fs) = ok (
    order_by_item
      (expr type
        (record {
          value = text.value;
          alias = [];
          table_alias = [];
          collation = codes "zetasqlite_collate";
        })
        no_fields)
      (codes "ASC") [])

abbrev pub ordered_entry : ℤ × Expr → Action OrderByItem
ordered_entry e = given (order_expression e)

abbrev pub ordered_entries : Environment → List (ℤ × Expr) → List (Action OrderByItem)
ordered_entries env groups = map ordered_entry (env.map_order (map_entries groups))

-- The union of the grouping sets' statements.
unfoldable pub union_of_sets :
    Environment → List (ℤ × Expr) → List Column → List SelectStatement → Action FromItem
unfolding new_items renamed new_subquery_from_item map_entries
union_of_sets env groups columns statements = do
  addresses ← new_items statements
  order ← each (ordered_entries env groups)
  list ← given (renamed (first_list statements) columns)
  pure (
      new_subquery_from_item
        (select
          (new_subquery_from_item
            (select no_item (record (set_clauses (codes "UNION") (codes "ALL") addresses []) {
              order_by_list = order;
            }))
            (codes "set_op_scan_inner"))
          (record new_clauses { select_list = list }))
        [])

-- A single grouping set's statement stands alone.
unfoldable pub grouping_sets_query :
    Environment → List (ℤ × Expr) → List Column → List SelectStatement → Action FromItem
unfolding union_of_sets new_subquery_from_item
grouping_sets_query env groups columns [] = union_of_sets env groups columns []
grouping_sets_query env groups columns (s ∷ []) = pure (new_subquery_from_item (select s.0 s.1) [])
grouping_sets_query env groups columns (s ∷ t ∷ ss) = union_of_sets env groups columns (s ∷ t ∷ ss)

unfoldable pub aggregated :
    Environment
    → FromItem
    → List (ℤ × Expr)
    → List (List ℤ)
    → List Column
    → List SelectListItem
    → Action FromItem
unfolding grouping_sets_query group_by
aggregated env from groups [] columns items = pure (
    subquery_of from
      (record new_clauses { select_list = items; group_by_list = map (λ g. group_by g.1) groups }))
aggregated env from groups (ids ∷ sets) columns items =
    grouping_sets_query env groups columns
      (map (set_statement from groups columns items) (ids ∷ sets))

unfoldable pub transform_aggregate :
    Environment
    → Action FromItem
    → (aggregates groups : List (ℤ × Action Expr)) → List (List ℤ)
    → List Column
    → Action FromItem
unfolding aggregate_items
transform_aggregate env input aggregates groups sets columns = do
  from ← input
  es ← each_keyed aggregates
  gs ← each_keyed groups
  items ← given (aggregate_items es gs columns)
  aggregated env from gs sets columns items
