-- ===== src/Flatten/Select/Meaning.antt =====
-- The rows that a query gives.
use go_zetasqlite.Prelude.{
  ◌≤◌, suc, ◌≡◌, Bool, true, false, not, ◌&&◌, Option, List, [], ◌∷◌, map, if◌then◌else◌,
}
use go_zetasqlite.Prelude.Bytes.{Bytes}
use go_zetasqlite.Flatten.{Expr}
use go_zetasqlite.Flatten.Statement.{
  SelectType, standard, distinct, all_rows, as_struct, as_value, SelectListItem, LimitClause,
  Clauses, FromItem, select,
}
use go_zetasqlite.Flatten.Substitute.{max_depth}
use go_zetasqlite.Flatten.Substitute.Height.{height}
use go_zetasqlite.Flatten.Substitute.Meaning.{Meaning, Row, eval, projected}
use go_zetasqlite.Flatten.Substitute.RowWise.{row_wise}
use go_zetasqlite.Flatten.Join.{is_nil, is_none, is_empty}
use go_zetasqlite.Flatten.Select.{build_column_alias_map, can_flatten_select}

-- What the rows of a query are that the theorem below is not about (`other_rows`, and `other_derived`
-- where it is a subquery with a name), which values count as true, and what the SELECT type
-- and LIMIT make of the rows of output values.
pub record QueryMeaning {ℓ} (V : Type ℓ) : Type ℓ where
  pub truth : V → Bool
  pub shape : SelectType → List (List V) → List (List V)
  pub limit : Option LimitClause → List (List V) → List (List V)
  pub other_rows : Clauses → List (Row V) → List (List V)
  pub other_derived : Bytes → Clauses → List (Row V) → List (Row V)

abbrev pub starless : List SelectListItem → Bool
starless [] = true
starless (i ∷ is) = not i.is_star_expansion && starless is

-- Without star expansion, GROUP BY, HAVING and ORDER BY.
abbrev pub ungrouped : Clauses → Bool
ungrouped c =
    starless c.select_list
    && (is_empty c.group_by_list && (is_nil c.having_clause && is_empty c.order_by_list))

-- And neither a set operation nor AS STRUCT or AS VALUE with a type.
abbrev pub plain_query : Clauses → Bool
plain_query c =
    (is_none c.set_operation && (is_empty c.as_struct_type && is_empty c.as_value_type))
    && ungrouped c

-- SELECT and SELECT ALL.
abbrev pub keeps_rows : SelectType → Bool
keeps_rows standard = true
keeps_rows all_rows = true
keeps_rows distinct = false
keeps_rows as_struct = false
keeps_rows as_value = false

module _ {ℓ} {V : Type ℓ} (m : Meaning V) (q : QueryMeaning V) where
  -- A row passes where there is no WHERE clause, or where its value counts as true.
  abbrev pub passes : Expr → Row V → Bool
  passes e row = if is_nil e then true else q.truth (eval m row e)

  abbrev pub keep : Expr → List (Row V) → List (Row V)
  keep e [] = []
  keep e (row ∷ rows) = let rest = keep e rows in if passes e row then row ∷ rest else rest

  abbrev pub values_of : List SelectListItem → Row V → List V
  values_of [] row = []
  values_of (i ∷ is) row = eval m row i.expression ∷ values_of is row

  -- The rows of a query over the rows of its FROM clause: WHERE, the SELECT list, the SELECT type and
  -- LIMIT.
  abbrev pub query_rows : Clauses → List (Row V) → List (List V)
  query_rows c rows =
      if plain_query c
      then q.limit c.limit_clause
          (q.shape c.select_type (map (values_of c.select_list) (keep c.where_clause rows)))
      else q.other_rows c rows

  abbrev pub row_wise_items : List SelectListItem → Bool
  row_wise_items [] = true
  row_wise_items (i ∷ is) = row_wise m.is_scalar i.expression && row_wise_items is

  -- A subquery that only filters and renames rows: one that canFlattenSelect accepts, without
  -- DISTINCT and stars, whose calls are of scalar functions without OVER.
  abbrev pub transparent : FromItem → Clauses → Bool
  transparent from c =
      can_flatten_select (select from c)
      && (((keeps_rows c.select_type && starless c.select_list)
            && (is_empty c.as_struct_type && is_empty c.as_value_type))
          && (row_wise m.is_scalar c.where_clause && row_wise_items c.select_list))

  -- The rows of a subquery with a name, over the rows of its FROM clause: its aliases are columns
  -- with the values of their expressions.
  abbrev pub derived_rows : Bytes → FromItem → Clauses → List (Row V) → List (Row V)
  derived_rows alias from c rows =
      if transparent from c
      then map (projected m (build_column_alias_map c.select_list) alias) (keep c.where_clause rows)
      else q.other_derived alias c rows

  abbrev pub Covered : Expr → Type 0
  Covered e = (height e ≤ suc max_depth) × (row_wise m.is_scalar e ≡ true)

  abbrev pub CoveredItem : SelectListItem → Type 0
  CoveredItem i = Covered i.expression
