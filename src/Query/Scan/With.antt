-- ===== src/Query/Scan/With.antt =====
-- internal/transformer_scan_with.go, transformer_with_entry.go, transformer_scan_with_ref.go and
-- transformer_scan_recursive_ref.go: WITH clauses and references to them.
pub mod Names
use go_zetasqlite.Prelude.{
  ℕ, Bool, true, false, Option, none, some, List, [], ◌∷◌, ◌++◌, map, length, ◌==◌, if◌then◌else◌,
}
use go_zetasqlite.Prelude.Bytes.{Bytes, codes, bytes_eq}
use go_zetasqlite.Result.{mapping_missing, wrong_columns, unexpected_scan}
use go_zetasqlite.Flatten.Statement.{
  SelectListItem, Clauses, Statement, no_statement, select, FromItem, no_item, item, FromBody, body,
  FromItemType, subquery_item, table_item, join_item, with_ref_item, table_function_item,
  unnest_item, single_row_item, WithClause,
}
use go_zetasqlite.Query.Action.{Action, ◌>>=◌, pure, fail, change_fragment}
use go_zetasqlite.Query.Build.{
  new_clauses, select_item, star_clauses, new_subquery_from_item, new_table_from_item,
  new_qualified_column,
}
use go_zetasqlite.Query.Context.{
  Column, Context, FragmentContext, alias_of, get_id, allocate, get_with_entry_mapping,
  add_with_entry_column_mapping, set_recursive_cte_name,
}
use go_zetasqlite.Query.Scan.{subquery_of, update, new_statement}

-- The statement of the entry: that of a recursive entry is kept, any other is wrapped in SELECT *.
unfoldable pub entry_query : Bool → FromItem → Statement
unfolding star_clauses
entry_query true (item alias (body subquery_item (select f c) j r)) = select f c
entry_query true from = select from star_clauses
entry_query false from = select from star_clauses

unfoldable pub named_entry : Bytes → Bool → FromItem → Action WithClause
unfolding entry_query
named_entry name is_recursive from = do
  address ← new_statement (entry_query is_recursive from)
  pure (record {
    name = name;
    materialized = false;
    is_recursive = false;
    columns = [];
    query = address;
  })

-- A recursive entry's columns are known before its query is transformed, any other's after it.
unfoldable pub entry_with : Bytes → Action FromItem → List Column → Bool → Action WithClause
unfolding add_with_entry_column_mapping
entry_with name subquery columns true = do
  done ← update (add_with_entry_column_mapping name columns)
  from ← subquery
  named_entry name true from
entry_with name subquery columns false = do
  from ← subquery
  done ← update (add_with_entry_column_mapping name columns)
  named_entry name false from

unfoldable pub transform_with_entry : Bytes → Action FromItem → List Column → Action WithClause
transform_with_entry name subquery columns ctx =
    entry_with name subquery columns (bytes_eq ctx.recursive_cte_name name) ctx

-- One entry: while that of a recursive WITH is transformed, the context has its name.
unfoldable pub transform_entry : Bool → Bytes → Action WithClause → Action WithClause
unfolding set_recursive_cte_name
transform_entry false name entry = entry
transform_entry true name entry = do
  named ← update (set_recursive_cte_name name)
  c ← entry
  cleared ← update (set_recursive_cte_name [])
  pure (record c { is_recursive = true })

unfoldable pub transform_entries :
    Bool → List (Bytes × Action WithClause) → Action (List WithClause)
unfolding transform_entry
transform_entries recursive [] = pure []
transform_entries recursive ((name, entry) ∷ entries) = do
  c ← transform_entry recursive name entry
  rest ← transform_entries recursive entries
  pure (c ∷ rest)

unfoldable pub transform_with :
    Bool → List (Bytes × Action WithClause) → Action FromItem → Action FromItem
unfolding star_clauses transform_entries
transform_with recursive entries query = do
  clauses ← transform_entries recursive entries
  from ← query
  pure (subquery_of from (record star_clauses { with_clauses = clauses }))

-- The columns of the referenced query under the names of its mapping.
unfoldable pub mapped_items : Bytes → List Bytes → List Column → List SelectListItem
unfolding new_qualified_column
mapped_items table_alias [] columns = []
mapped_items table_alias (name ∷ names) [] = []
mapped_items table_alias (name ∷ names) (c ∷ columns) =
    select_item (new_qualified_column name table_alias) (alias_of c)
    ∷ mapped_items table_alias names columns

unfoldable pub reference_to : Bytes → Bytes → List Column → Option (List Bytes) → Action FromItem
unfolding mapped_items new_table_from_item
reference_to table_alias name columns none = fail mapping_missing
reference_to table_alias name columns (some mapping) =
    if length mapping == length columns
    then pure (
        subquery_of (new_table_from_item name table_alias)
          (record new_clauses { select_list = mapped_items table_alias mapping columns }))
    else fail wrong_columns

unfoldable pub transform_with_ref : Bytes → List Column → Action FromItem
unfolding get_with_entry_mapping get_id
transform_with_ref name columns ctx =
    reference_to (codes "wrs" ++ get_id ctx.fragment) name columns (get_with_entry_mapping name ctx)
      ctx

unfoldable pub transform_recursive_ref : List Column → Action FromItem
unfolding get_with_entry_mapping get_id
transform_recursive_ref columns ctx =
    if bytes_eq ctx.recursive_cte_name []
    then fail mapping_missing ctx
    else reference_to (codes "rrs" ++ get_id ctx.fragment) ctx.recursive_cte_name columns
        (get_with_entry_mapping ctx.recursive_cte_name ctx) ctx
