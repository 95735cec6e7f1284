-- ===== src/Tests/Queries.antt =====
-- Name paths and the flattening of queries at concrete inputs.
use go_zetasqlite.Prelude.{
  ℕ, ◌+◌, ◌≤◌, ◌≡◌, ◌⊎◌, refl, true, false, ◌&&◌, Bool, none, some, List, [], ◌∷◌, ◌++◌, length,
  All, arith,
}
use go_zetasqlite.Prelude.Bytes.{Bytes, bytes_eq, codes}
use go_zetasqlite.NamePath.{
  NamePath, merge_path, set_path, add_path, normalize_path, get_max_num, is_information_schema,
  split, to_lower,
}
use go_zetasqlite.NamePath.Merge.{merge_path-kept, length-merge_path}
use go_zetasqlite.NamePath.Stable.{NoDot, merge_path-idempotent, set_path-ok, add_path-ok}
use go_zetasqlite.Flatten.{
  column, binary_type, Text, Expr, nil, expr, fields, no_list, no_unary, binary, no_binary, no_call,
  no_case, AliasMap,
}
use go_zetasqlite.Flatten.Substitute.{substitute_column_refs}
use go_zetasqlite.Flatten.Substitute.Height.{height}
use go_zetasqlite.Flatten.Substitute.Denote.{eval-substitute_column_refs}
use go_zetasqlite.Flatten.Substitute.Meaning.{Meaning, Row, eval}
use go_zetasqlite.Flatten.Substitute.RowWise.{row_wise}
use go_zetasqlite.Flatten.Statement.{
  WithClause, standard, SelectListItem, Clauses, table_item, subquery_item, Statement, select,
  FromItem, item, body, no_join,
}
use go_zetasqlite.Flatten.Statement
use go_zetasqlite.Flatten.Select.{merge_with_clauses, flatten_select_for_recursive_cte}
use go_zetasqlite.Flatten.Select.Meaning.{QueryMeaning}
use go_zetasqlite.Flatten.Select.With.{find_clause, find-merge_with_clauses}
use go_zetasqlite.Flatten.Select.Outcome.{liftable, from_clause, output_columns, flatten_lem}

abbrev base : NamePath
base = record { path = codes "p" ∷ codes "d" ∷ []; max_num = 3 }

abbrev plain_text : Bytes → Text
plain_text value = record { value = value; alias = []; table_alias = []; collation = [] }

abbrev column_ref : Bytes → Expr
column_ref name =
    expr column (plain_text name) (fields no_list no_unary no_binary no_call no_case none none)

abbrev plus : Expr → Expr → Expr
plus a b =
    expr binary_type (plain_text [])
      (fields no_list no_unary (binary a (codes "+") b) no_call no_case none none)

-- Numbers, with every operator read as an addition.
abbrev numbers : Meaning ℕ
numbers = record {
  is_scalar = λ name. true;
  missing = 0;
  atom = λ type text fs. 0;
  call = λ name args d w c. 0;
  apply_unary = λ op a c. a;
  apply_binary = λ a op b c. a + b;
  of_values = λ vs c. 0;
  choose = λ a whens b c. 0;
}

abbrev lengths : Row ℕ
lengths table name = length name

abbrev aliases : AliasMap
aliases = (codes "s", plus (column_ref (codes "aaa")) (column_ref (codes "b"))) ∷ []

-- s + b over a row with s = aaa + b, aaa = 3 and b = 1.
eval-substitute_column_refs_example :
    eval numbers lengths (
      substitute_column_refs aliases
        (codes "t")
        (plus (column_ref (codes "s")) (column_ref (codes "b"))))
    ≡ 5
unfolding eval height row_wise
eval-substitute_column_refs_example =
    eval-substitute_column_refs numbers aliases (codes "t") lengths
      (plus (column_ref (codes "s")) (column_ref (codes "b"))) (omega arith) refl

abbrev with_name : Bytes → ℕ → WithClause
with_name name query = record {
  name = name;
  materialized = false;
  is_recursive = false;
  columns = [];
  query = query;
}

find-merge_with_clauses_example :
    find_clause
      (merge_with_clauses
        (with_name (codes "x") 1 ∷ with_name (codes "y") 2 ∷ [])
        (with_name (codes "x") 3 ∷ []))
      (codes "x")
    ≡ some (with_name (codes "x") 3)
find-merge_with_clauses_example =
    find-merge_with_clauses (with_name (codes "x") 1 ∷ with_name (codes "y") 2 ∷ [])
      (with_name (codes "x") 3 ∷ []) (codes "x")

abbrev output : Bytes → Expr → SelectListItem
output name e = record {
  expression = e;
  alias = name;
  is_star_expansion = false;
  except_columns = [];
  replace_columns = [];
}

abbrev projecting : List SelectListItem → Clauses
projecting items = record {
  with_clauses = [];
  select_type = standard;
  select_list = items;
  as_struct_type = [];
  as_value_type = [];
  where_clause = nil;
  group_by_list = [];
  having_clause = nil;
  order_by_list = [];
  limit_clause = none;
  set_operation = none;
  hints = [];
}

-- Truth values, with every binary operator read as AND.
abbrev booleans : Meaning Bool
booleans = record {
  is_scalar = λ name. true;
  missing = false;
  atom = λ type text fs. false;
  call = λ name args d w c. false;
  apply_unary = λ op a c. a;
  apply_binary = λ a op b c. a && b;
  of_values = λ vs c. false;
  choose = λ a whens b c. false;
}

-- Every value is true or false by itself, and LIMIT keeps nothing.
abbrev query_meaning : QueryMeaning Bool
query_meaning = record {
  truth = λ b. b;
  shape = λ type rows. rows;
  limit = λ clause rows. elim clause [ none ↦ rows | some l ↦ [] ];
  other_rows = λ c rows. [];
  other_derived = λ alias c rows. [];
}

abbrev two_rows : List (Row Bool)
two_rows = (λ table name. true) ∷ (λ table name. bytes_eq name (codes "a")) ∷ []

abbrev no_rest : Statement.FromRest
no_rest = record {
  table_name = codes "t";
  with_ref = [];
  table_function = none;
  unnest_expr = nil;
  from_hints = [];
}

abbrev table : FromItem
table = item [] (body table_item Statement.no_statement no_join no_rest)

-- SELECT s AS o FROM (SELECT a + b AS s FROM t)
abbrev nested : Statement
nested =
    select
      (item [] (
        body subquery_item
          (select table (
            projecting
              (output (codes "s") (plus (column_ref (codes "a")) (column_ref (codes "b"))) ∷ [])))
          no_join no_rest))
      (projecting (output (codes "o") (column_ref (codes "s")) ∷ []))

flatten_lem_example :
    (liftable (from_clause (flatten_select_for_recursive_cte nested)) ≡ false)
    × (output_columns (flatten_select_for_recursive_cte nested) ≡ codes "o" ∷ [])
flatten_lem_example = flatten_lem nested

merge_path-kept_example :
    merge_path base (codes "e" ∷ codes "t" ∷ []) ≡ codes "p" ∷ codes "e" ∷ codes "t" ∷ []
unfolding normalize_path split get_max_num is_information_schema to_lower
merge_path-kept_example = merge_path-kept base (codes "e" ∷ codes "t" ∷ [])

length-merge_path_example :
    (length (merge_path base (codes "t" ∷ [])) ≤ 3)
    ⊎ (merge_path base (codes "t" ∷ []) ≡ codes "t" ∷ [])
unfolding normalize_path split get_max_num is_information_schema to_lower
length-merge_path_example = length-merge_path base (codes "t" ∷ []) (omega arith) (λ e. cc)

merge_path-idempotent_example :
    merge_path base (merge_path base (codes "t" ∷ [])) ≡ merge_path base (codes "t" ∷ [])
merge_path-idempotent_example =
    merge_path-idempotent base (codes "t" ∷ []) ((refl, tt), ((refl, tt), tt))

set_path-ok_example :
    (codes "a" ∷ codes "b" ∷ [] ≡ normalize_path (codes "a.b" ∷ []))
    × All NoDot (codes "a" ∷ codes "b" ∷ [])
    × (base.max_num ≡ base.max_num)
    × ((get_max_num base (codes "a.b" ∷ []) ≡ 0) ⊎ (2 ≤ get_max_num base (codes "a.b" ∷ [])))
unfolding set_path normalize_path split get_max_num is_information_schema to_lower
set_path-ok_example =
    set_path-ok base (record { path = codes "a" ∷ codes "b" ∷ []; max_num = 3 }) (codes "a.b" ∷ [])
      refl

add_path-ok_example :
    (codes "p" ∷ codes "d" ∷ codes "t" ∷ []
      ≡ (codes "p" ∷ codes "d" ∷ []) ++ normalize_path (codes "t" ∷ []))
    × All NoDot (codes "p" ∷ codes "d" ∷ codes "t" ∷ [])
    × (base.max_num ≡ base.max_num)
    × ((get_max_num base (normalize_path (codes "t" ∷ [])) ≡ 0)
        ⊎ (3 ≤ get_max_num base (normalize_path (codes "t" ∷ []))))
unfolding add_path normalize_path split get_max_num is_information_schema to_lower
add_path-ok_example =
    add_path-ok base (record { path = codes "p" ∷ codes "d" ∷ codes "t" ∷ []; max_num = 3 })
      (codes "t") ((refl, tt), ((refl, tt), tt)) refl
