-- ===== src/Query/Scan/Sets.antt =====
-- internal/transformer_scan_setop.go and internal/transformer_scan_recursive.go: UNION, INTERSECT,
-- EXCEPT, and the two terms of a recursive WITH.
pub mod Items
use go_zetasqlite.Prelude.{ℕ, Bool, Option, none, some, List, [], ◌∷◌, ◌++◌, map, if◌then◌else◌}
use go_zetasqlite.Prelude.Bytes.{Bytes, codes, bytes_eq}
use go_zetasqlite.Result
use go_zetasqlite.Result.{Result, ok, panic, not_select, unsupported_operation}
use go_zetasqlite.Flatten.Statement.{
  WithClause, SelectListItem, Clauses, Statement, no_statement, select, FromItem, no_item,
  SetOperation,
}
use go_zetasqlite.Flatten.Select.{flatten_select_for_recursive_cte}
use go_zetasqlite.Query.Action.{Action, ◌>>=◌, pure, fail, given, each}
use go_zetasqlite.Query.Build.{
  new_clauses, select_item, new_subquery_from_item, new_column_expression,
}
use go_zetasqlite.Query.Context.{Column, Context, alias_of, allocate}
use go_zetasqlite.Query.Scan.{new_statement}

abbrev pub SelectStatement : Type 0
SelectStatement = FromItem × Clauses

-- The SQL fragments that a statement is transformed to.
pub data Fragment : Type 0 where
  select_fragment : SelectStatement → Fragment
  create_table_fragment : (if_not_exists : Bool) → (table_name : Bytes) → SelectStatement → Fragment
  create_view_fragment : (view_name : Bytes) → Fragment → Fragment
  drop_fragment : (if_exists : Bool) → (object_type object_name : Bytes) → Fragment

abbrev pub as_select : Fragment → Action SelectStatement
as_select (select_fragment s) = pure s
as_select (create_table_fragment b t s) = fail not_select
as_select (create_view_fragment v f) = fail not_select
as_select (drop_fragment b t o) = fail not_select

unfoldable pub select_item_of : Action Fragment → Action SelectStatement
select_item_of m = do f ← m; as_select f

-- The WITH clauses of the items, which move to the statement above them.
unfoldable pub moved_clauses : List SelectStatement → List WithClause
moved_clauses [] = []
moved_clauses (s ∷ ss) = s.1.with_clauses ++ moved_clauses ss

-- The items without their WITH clauses, as new statements.
unfoldable pub new_items : List SelectStatement → Action (List ℕ)
new_items [] = pure []
new_items (s ∷ ss) = do
  address ← new_statement (select s.0 (record s.1 { with_clauses = [] }))
  rest ← new_items ss
  pure (address ∷ rest)

abbrev pub set_clauses : Bytes → Bytes → List ℕ → List WithClause → Clauses
set_clauses type modifier items clauses = record new_clauses {
  set_operation = some (record { type = type; modifier = modifier; items = items });
  with_clauses = clauses;
}

-- The columns under new aliases, by the aliases of the first item; an index out of range panics.
unfoldable pub renamed : List SelectListItem → List Column → Result (List SelectListItem)
unfolding new_column_expression
renamed items [] = ok []
renamed [] (c ∷ cs) = panic
renamed (i ∷ items) (c ∷ cs) =
    Result.◌>>=◌ (renamed items cs)
      (λ rest. ok (select_item (new_column_expression i.alias) (alias_of c) ∷ rest))

abbrev pub first_list : List SelectStatement → List SelectListItem
first_list [] = []
first_list (s ∷ ss) = s.1.select_list

unfoldable pub transform_set_operation :
    (type modifier : Bytes) → List (Action Fragment) → List Column → Action FromItem
unfolding select_item_of moved_clauses new_items renamed new_subquery_from_item
transform_set_operation type modifier statements columns = do
  items ← each (map select_item_of statements)
  addresses ← new_items items
  list ← given (renamed (first_list items) columns)
  pure (
      new_subquery_from_item
        (select
          (new_subquery_from_item
            (select no_item (set_clauses type modifier addresses (moved_clauses items)))
            (codes "set_op_scan_inner"))
          (record new_clauses { select_list = list }))
        (codes "set_op_scan_outer"))

abbrev pub select_parts : Statement → Action SelectStatement
select_parts no_statement = given panic
select_parts (select f c) = pure (f, c)

-- UNION ALL and UNION, as a type and a modifier.
unfoldable pub recursive_operation : Bytes → Action (Bytes × Bytes)
recursive_operation op_type =
    if bytes_eq op_type (codes "UNION ALL")
    then pure (codes "UNION", codes "ALL")
    else if bytes_eq op_type (codes "UNION")
    then pure (codes "UNION", [])
    else fail unsupported_operation

-- The items get the aliases of the columns, as far as both go.
unfoldable pub realiased : List Column → List SelectListItem → List SelectListItem
realiased columns [] = []
realiased [] (i ∷ items) = i ∷ items
realiased (c ∷ columns) (i ∷ items) = record i { alias = alias_of c } ∷ realiased columns items

unfoldable pub realias : List Column → SelectStatement → SelectStatement
unfolding realiased
realias columns s = (s.0, record s.1 { select_list = realiased columns s.1.select_list })

unfoldable pub transform_recursive :
    Bytes → Action Fragment → Action Fragment → List Column → Action FromItem
unfolding select_item_of recursive_operation moved_clauses new_items new_subquery_from_item
transform_recursive op_type non_recursive_term recursive_term columns = do
  first ← select_item_of non_recursive_term
  second ← select_item_of recursive_term
  flat ← select_parts (flatten_select_for_recursive_cte (select second.0 second.1))
  op ← recursive_operation op_type
  addresses ← new_items (realias columns first ∷ realias columns flat ∷ [])
  pure (
      new_subquery_from_item
        (select no_item (
          set_clauses op.0 op.1 addresses
            (moved_clauses (realias columns first ∷ realias columns flat ∷ []))))
        (codes "recursive_scan"))
