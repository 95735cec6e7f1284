-- ===== src/Query/Context.antt =====
-- internal/querybuilder_context.go: the columns and scopes that a transformation knows.
pub mod Alias
pub mod Columns
pub mod Scopes
use go_zetasqlite.Prelude.{
  ℕ, ◌+◌, Bool, Option, none, some, List, [], ◌∷◌, ◌++◌, map, length, ◌==◌, if◌then◌else◌,
}
use go_zetasqlite.Prelude.Int.{ℤ, pos, eqb_ℤ}
use go_zetasqlite.Prelude.Bytes.{Bytes, codes, bytes_eq}
use go_zetasqlite.Result.{Result, ok, panic, ◌>>=◌}
use go_zetasqlite.Strconv.{format_int}
use go_zetasqlite.Flatten.{
  column, Expr, nil, expr, fields, no_list, no_unary, no_binary, no_call, no_case,
}
use go_zetasqlite.Flatten.Statement.{Statement}

-- ColumnData
pub record Column : Type 0 where
  pub id : ℤ
  pub name : Bytes
  pub type : Bytes
  pub table_name : Bytes

pub record ColumnInfo : Type 0 where
  pub name : Bytes
  pub type : Bytes
  pub table_alias : Bytes
  pub expression : Expr
  pub id : ℤ

-- Maps are association lists, a later entry in front. The top of the stack of scopes is its head; a
-- scope token is its number, since nothing reads its start size.
pub record FragmentContext : Type 0 where
  pub column_map : List (ℤ × Expr)
  pub available_columns : List (ℤ × ColumnInfo)
  pub scopes : List ℕ
  pub count : ℕ
  pub column_id_to_scope : List (ℤ × Bytes)

-- DefaultTransformContext. `heap` holds the statements that expressions, set operations and WITH
-- clauses point to, the newest in front.
pub record Context : Type 0 where
  pub fragment : FragmentContext
  pub with_mappings : List (Bytes × List Bytes)
  pub recursive_cte_name : Bytes
  pub heap : List Statement

abbrev pub new_fragment_context : FragmentContext
new_fragment_context = record {
  column_map = [];
  available_columns = [];
  scopes = [];
  count = 0;
  column_id_to_scope = [];
}

abbrev pub new_transform_context : Context
new_transform_context = record {
  fragment = new_fragment_context;
  with_mappings = [];
  recursive_cte_name = [];
  heap = [];
}

abbrev pub lookup {ℓ} : {A : Type ℓ} → ℤ → List (ℤ × A) → Option A
lookup id [] = none
lookup id ((k, a) ∷ entries) = if eqb_ℤ id k then some a else lookup id entries

abbrev pub lookup_name {ℓ} : {A : Type ℓ} → Bytes → List (Bytes × A) → Option A
lookup_name name [] = none
lookup_name name ((k, a) ∷ entries) = if bytes_eq name k then some a else lookup_name name entries

-- `&SelectStatement{…}`: the address of a new statement.
unfoldable pub allocate : Statement → Context → ℕ × Context
allocate s ctx = (length ctx.heap, record ctx { heap = s ∷ ctx.heap })

-- fmt.Sprintf("%s__%d", columnName, columnID)
unfoldable pub generate_id_based_alias : Bytes → ℤ → Bytes
generate_id_based_alias column_name column_id = column_name ++ b'_' ∷ b'_' ∷ format_int column_id

abbrev pub alias_of : Column → Bytes
alias_of c = generate_id_based_alias c.name c.id

unfoldable pub add_with_entry_column_mapping : Bytes → List Column → Context → Context
add_with_entry_column_mapping name columns ctx = record ctx {
  with_mappings = (name, map alias_of columns) ∷ ctx.with_mappings;
}

unfoldable pub get_with_entry_mapping : Bytes → Context → Option (List Bytes)
get_with_entry_mapping name ctx = lookup_name name ctx.with_mappings

unfoldable pub set_recursive_cte_name : Bytes → Context → Context
set_recursive_cte_name name ctx = record ctx { recursive_cte_name = name }

-- The column expression of a column without one of its own.
abbrev default_column : ColumnInfo → Expr
default_column info =
    expr column (record { value = info.name; alias = []; table_alias = []; collation = [] })
      (fields no_list no_unary no_binary no_call no_case none none)

abbrev or_default : Expr → Expr → Expr
or_default nil e = e
or_default (expr type text fs) e = expr type text fs

unfoldable pub add_available_column : ℤ → ColumnInfo → FragmentContext → FragmentContext
add_available_column id info fc = record fc {
  available_columns = (id, info) ∷ fc.available_columns;
  column_map = (id, or_default info.expression (default_column info)) ∷ fc.column_map;
}

unfoldable pub register_column_scope : ℤ → Bytes → FragmentContext → FragmentContext
register_column_scope id scope_alias fc = record fc {
  column_id_to_scope = (id, scope_alias) ∷ fc.column_id_to_scope;
}

abbrev pub info_of : Column → ColumnInfo
info_of c = record { name = alias_of c; type = []; table_alias = []; expression = nil; id = c.id }

unfoldable pub register_column_scope_mapping :
    Bytes → List Column → FragmentContext → FragmentContext
register_column_scope_mapping scope_alias [] fc = fc
register_column_scope_mapping scope_alias (c ∷ cs) fc =
    register_column_scope_mapping scope_alias cs (record fc {
      column_id_to_scope = (c.id, scope_alias) ∷ fc.column_id_to_scope;
      available_columns = (c.id, info_of c) ∷ fc.available_columns;
    })

abbrev dml_info : Column → ColumnInfo
dml_info c = record {
  name = c.name;
  type = [];
  table_alias = [];
  expression =
      expr column (record { value = c.name; alias = []; table_alias = []; collation = [] })
        (fields no_list no_unary no_binary no_call no_case none none);
  id = pos 0;
}

-- The table of a DML statement: the columns keep their own names.
unfoldable pub add_available_columns_for_dml :
    Bytes → List Column → FragmentContext → FragmentContext
unfolding register_column_scope add_available_column
add_available_columns_for_dml table_name [] fc = fc
add_available_columns_for_dml table_name (c ∷ cs) fc =
    add_available_columns_for_dml table_name cs
      (add_available_column c.id (dml_info c) (register_column_scope c.id table_name fc))

unfoldable pub get_id : FragmentContext → Bytes
get_id fc = elim fc.scopes [ [] ↦ codes "0" | id ∷ ids ↦ format_int (pos id) ]

unfoldable pub enter_scope : FragmentContext → FragmentContext
enter_scope fc = record fc { count = fc.count + 1; scopes = (fc.count + 1) ∷ fc.scopes }

-- The scopes below the token, if it is there.
abbrev pub below : ℕ → List ℕ → Option (List ℕ)
below id [] = none
below id (s ∷ ss) = if s == id then some ss else below id ss

-- The scopes that are left, given those below the token.
abbrev left : List ℕ → Option (List ℕ) → List ℕ
left scopes none = scopes
left scopes (some ss) = ss

unfoldable pub exit_scope : ℕ → FragmentContext → FragmentContext
exit_scope id fc = record fc { scopes = left fc.scopes (below id fc.scopes) }

-- A column without a scope is a panic; one without information gives empty names.
abbrev pub ref_of : Option Bytes → Option ColumnInfo → Result (Bytes × Bytes)
ref_of none info = panic
ref_of (some scope_alias) none = ok ([], [])
ref_of (some scope_alias) (some info) = ok (info.name, scope_alias)

unfoldable pub get_qualified_column_ref : FragmentContext → ℤ → Result (Bytes × Bytes)
get_qualified_column_ref fc id =
    ref_of (lookup id fc.column_id_to_scope) (lookup id fc.available_columns)

-- The column by its name alone, as the table alias is dropped.
unfoldable pub get_qualified_column_expression : FragmentContext → ℤ → Result Expr
unfolding get_qualified_column_ref
get_qualified_column_expression fc id = do
  r ← get_qualified_column_ref fc id
  ok (
      expr column (record { value = r.0; alias = []; table_alias = []; collation = [] })
        (fields no_list no_unary no_binary no_call no_case none none))
