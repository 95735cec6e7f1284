-- ===== src/Flatten/Select/Outcome.antt =====
-- The FROM clause and the columns that flattening leaves.
use go_zetasqlite.Prelude.{◌≡◌, refl, ◌∙◌, inl, inr, Bool, false, List, [], ◌∷◌, map, Bool-cases}
use go_zetasqlite.Prelude.Bytes.{Bytes}
use go_zetasqlite.Flatten.{AliasMap, Expr}
use go_zetasqlite.Flatten.Statement.{
  SelectListItem, Clauses, FromRest, JoinType, table_item, subquery_item, join_item, with_ref_item,
  table_function_item, unnest_item, single_row_item, Statement, no_statement, select, FromItem,
  no_item, item, FromBody, body, JoinClause, no_join, join_clause,
}
use go_zetasqlite.Flatten.Select.{
  can_flatten_select, substitute_item, lifted, with_join_mappings, flatten_join, flatten_from,
  flatten_select_body, flatten_select_for_recursive_cte,
}
use go_zetasqlite.Flatten.Join.{
  flatten_join_from_item, flatten_from_item_in_join, flatten_body, substitute_in_join_conditions,
}

-- Whether the FROM clause is a subquery that can be lifted.
abbrev pub liftable : FromItem → Bool
liftable (item alias (body subquery_item inner j r)) = can_flatten_select inner
liftable from = false

abbrev pub from_clause : Statement → FromItem
from_clause no_statement = no_item
from_clause (select from c) = from

abbrev pub columns : List SelectListItem → List Bytes
columns [] = []
columns (i ∷ is) = i.alias ∷ columns is

abbrev pub output_columns : Statement → List Bytes
output_columns no_statement = []
output_columns (select from c) = columns c.select_list

columns-substitute :
    (aliases : AliasMap) (alias : Bytes) (is : List SelectListItem)
    → columns (map (substitute_item aliases alias) is) ≡ columns is
columns-substitute aliases alias [] = refl
columns-substitute aliases alias (i ∷ is) = rw (columns-substitute aliases alias is)

flatten_join-columns :
    (r : FromItem × AliasMap) (c : Clauses)
    → output_columns (flatten_join r c) ≡ columns c.select_list
unfolding with_join_mappings
flatten_join-columns (from, []) c = refl
flatten_join-columns (from, a ∷ aliases) c = columns-substitute (a ∷ aliases) [] c.select_list

flatten_join-stays :
    (aliases : AliasMap) (alias : Bytes) (s : Statement) (t : JoinType) (left right : FromItem)
    (condition : Expr) (using_columns : List Bytes) (r : FromRest) (c : Clauses)
    → liftable (
        from_clause (
          flatten_join
            (
              item alias (body join_item s (join_clause t left right condition using_columns) r),
              aliases,
            )
            c))
      ≡ false
unfolding substitute_in_join_conditions
flatten_join-stays [] alias s t left right condition using_columns r c = refl
flatten_join-stays (a ∷ aliases) alias s t left right condition using_columns r c = refl

flatten_join-liftable :
    (alias : Bytes) (j : JoinClause) (s : Statement) (r : FromRest) (c : Clauses)
    → liftable (
        from_clause
          (flatten_join (flatten_join_from_item (item alias (body join_item s j r)) []) c))
      ≡ false
unfolding flatten_join_from_item flatten_body
flatten_join-liftable alias no_join s r c = refl
flatten_join-liftable alias (join_clause t left right condition using_columns) s r c =
    let l = flatten_from_item_in_join left [] in
    let r' = flatten_from_item_in_join right l.1 in
    flatten_join-stays r'.1 alias s t l.0 r'.0 condition using_columns r c

no_statement-stays : can_flatten_select no_statement ≡ false
unfolding can_flatten_select
no_statement-stays = refl

mutual
  unfolding flatten_from flatten_select_body lifted

  flatten_from-liftable :
      (from : FromItem) (c : Clauses) → liftable (from_clause (flatten_from from c)) ≡ false
  flatten_from-liftable no_item c = refl
  flatten_from-liftable (item alias b) c = flatten_select_body-liftable alias b c

  flatten_select_body-liftable :
      (alias : Bytes) (b : FromBody) (c : Clauses)
      → liftable (from_clause (flatten_select_body alias b c)) ≡ false
  flatten_select_body-liftable alias (body subquery_item (select from inner) j r) c =
      elim (Bool-cases (can_flatten_select (select from inner))) [
        | inl e ↦ rw e (flatten_from-liftable from (lifted alias c inner))
        | inr e ↦ rw e e
      ]
  flatten_select_body-liftable alias (body subquery_item no_statement j r) c = no_statement-stays
  flatten_select_body-liftable alias (body join_item s j r) c = flatten_join-liftable alias j s r c
  flatten_select_body-liftable alias (body table_item s j r) c = refl
  flatten_select_body-liftable alias (body with_ref_item s j r) c = refl
  flatten_select_body-liftable alias (body table_function_item s j r) c = refl
  flatten_select_body-liftable alias (body unnest_item s j r) c = refl
  flatten_select_body-liftable alias (body single_row_item s j r) c = refl

  flatten_from-columns :
      (from : FromItem) (c : Clauses) → output_columns (flatten_from from c) ≡ columns c.select_list
  flatten_from-columns no_item c = refl
  flatten_from-columns (item alias b) c = flatten_select_body-columns alias b c

  flatten_select_body-columns :
      (alias : Bytes) (b : FromBody) (c : Clauses)
      → output_columns (flatten_select_body alias b c) ≡ columns c.select_list
  flatten_select_body-columns alias (body subquery_item (select from inner) j r) c =
      elim (Bool-cases (can_flatten_select (select from inner))) [
        | inl e ↦ rw e (
            flatten_from-columns from (lifted alias c inner)
            ∙ columns-substitute _ alias c.select_list)
        | inr e ↦ rw e
      ]
  flatten_select_body-columns alias (body subquery_item no_statement j r) c = refl
  flatten_select_body-columns alias (body join_item s j r) c =
      flatten_join-columns (flatten_join_from_item (item alias (body join_item s j r)) []) c
  flatten_select_body-columns alias (body table_item s j r) c = refl
  flatten_select_body-columns alias (body with_ref_item s j r) c = refl
  flatten_select_body-columns alias (body table_function_item s j r) c = refl
  flatten_select_body-columns alias (body unnest_item s j r) c = refl
  flatten_select_body-columns alias (body single_row_item s j r) c = refl

-- After flattening, the FROM clause is no subquery that could be lifted, at whatever depth the
-- nesting was, and the result has the columns of the outer query under their aliases.
pub flatten_lem :
    (s : Statement)
    → (liftable (from_clause (flatten_select_for_recursive_cte s)) ≡ false)
      × (output_columns (flatten_select_for_recursive_cte s) ≡ output_columns s)
unfolding flatten_select_for_recursive_cte
flatten_lem no_statement = (refl, refl)
flatten_lem (select from c) = (flatten_from-liftable from c, flatten_from-columns from c)
