-- ===== src/Writer/Statement.antt =====
-- WriteSql of SelectStatement, its FROM item and its other clauses. A map is written in the order of
-- its list, one of the orders that Go may take.
use go_zetasqlite.Prelude.{
  ℕ, Bool, true, false, not, ◌&&◌, ◌||◌, Option, none, some, List, [], ◌∷◌, ◌++◌, map, length, ◌==◌,
  if◌then◌else◌,
}
use go_zetasqlite.Prelude.Bytes.{Bytes, codes, bytes_eq}
use go_zetasqlite.Result.{Result, ok, ◌>>=◌}
use go_zetasqlite.Flatten.{Expr, nil, expr}
use go_zetasqlite.Flatten.Statement.{
  WithClause, SelectType, standard, distinct, all_rows, as_struct, as_value, SelectListItem,
  LimitClause, SetOperation, TableFunction, Clauses, FromItemType, table_item, subquery_item,
  join_item, with_ref_item, table_function_item, unnest_item, single_row_item, JoinType, inner_join,
  left_join, right_join, full_join, cross_join, FromRest, Statement, no_statement, select, FromItem,
  no_item, item, body, JoinClause, no_join, join_clause,
}
use go_zetasqlite.Writer.{
  Write, ◌▷◌, nothing, nil_panic, write, write_line, indent, dedent, when_, separated, quoted,
}
use go_zetasqlite.Writer.Expression.{is_empty, comma, is_column, unless_nil, write_expr, write_item}

abbrev pub has_any {ℓ} : {A : Type ℓ} → List A → Bool
has_any [] = false
has_any (x ∷ xs) = true

abbrev pub write_all : List Bytes → List Write
write_all ss = map write ss

-- The alias of an item that is a column is left out where it is the column's name.
abbrev pub is_same_column : Expr → Bytes → Bool
is_same_column nil alias = false
is_same_column (expr type t fs) alias = is_column type && bytes_eq alias t.value

abbrev pub write_replaced : (at : ℕ → Write) → Bytes × Expr → Write
write_replaced at (name, e) = write_expr at e ▷ write (codes " AS " ++ quoted name)

abbrev pub write_star_item : (at : ℕ → Write) → SelectListItem → Write
write_star_item at i =
    write_expr at i.expression
    ▷ when_ (has_any i.except_columns) (
        write (codes " EXCEPT (")
        ▷ separated comma (write_all (map quoted i.except_columns))
        ▷ write (codes ")"))
    ▷ when_ (has_any i.replace_columns) (
        write (codes " REPLACE (")
        ▷ separated comma (map (write_replaced at) i.replace_columns)
        ▷ write (codes ")"))

abbrev pub write_plain_item : (at : ℕ → Write) → SelectListItem → Write
write_plain_item at i =
    write_expr at i.expression
    ▷ when_ (not (is_empty i.alias) && not (is_same_column i.expression i.alias))
        (write (codes " AS " ++ quoted i.alias))

unfoldable pub write_select_item : (at : ℕ → Write) → SelectListItem → Write
write_select_item at i = if i.is_star_expansion then write_star_item at i else write_plain_item at i

-- AS and the alias of a FROM item.
abbrev pub write_as : Bytes → Write
write_as alias = when_ (not (is_empty alias)) (write (codes " AS ") ▷ write (quoted alias))

abbrev pub write_table_function : (at : ℕ → Write) → Option TableFunction → Write
write_table_function at none = nothing
write_table_function at (some f) =
    write f.name
    ▷ write (codes "(")
    ▷ separated comma (map (write_expr at) f.arguments)
    ▷ write (codes ")")

abbrev pub join_text : JoinType → Bytes
join_text inner_join = codes " INNER JOIN "
join_text left_join = codes " LEFT JOIN "
join_text right_join = codes " RIGHT JOIN "
join_text full_join = codes " FULL OUTER JOIN "
join_text cross_join = codes " CROSS JOIN "

abbrev pub is_cross : JoinType → Bool
is_cross cross_join = true
is_cross inner_join = false
is_cross left_join = false
is_cross right_join = false
is_cross full_join = false

abbrev pub write_condition : (at : ℕ → Write) → List Bytes → Expr → Write
write_condition at [] condition =
    unless_nil condition (write (codes " ON ") ▷ write_expr at condition)
write_condition at (c ∷ cs) condition =
    write (codes " USING (") ▷ separated comma (write_all (c ∷ cs)) ▷ write (codes ")")

abbrev pub select_text : SelectType → Bytes
select_text standard = codes "SELECT"
select_text distinct = codes "SELECT DISTINCT"
select_text all_rows = codes "SELECT ALL"
select_text as_struct = codes "SELECT AS STRUCT"
select_text as_value = codes "SELECT AS VALUE"

-- A clause that starts a line with a keyword.
abbrev pub write_clause : Bool → Bytes → Write → Write
write_clause b keyword a = when_ b (write_line [] ▷ write keyword ▷ a)

abbrev pub is_some : Expr → Bool
is_some nil = false
is_some (expr type t fs) = true

-- LIMIT dereferences its count.
abbrev pub write_limit : (at : ℕ → Write) → Option LimitClause → Write
write_limit at none = nothing
write_limit at (some l) =
    write_line []
    ▷ write (codes "LIMIT ")
    ▷ write_expr at l.count
    ▷ unless_nil l.offset (write (codes " OFFSET ") ▷ write_expr at l.offset)

unfoldable pub write_with : (at : ℕ → Write) → WithClause → Write
write_with at c =
    write (quoted c.name)
    ▷ when_ (has_any c.columns)
        (write (codes " (") ▷ separated comma (write_all c.columns) ▷ write (codes ")"))
    ▷ write (codes " AS MATERIALIZED " ++ 9 ∷ codes "(")
    ▷ write_line []
    ▷ indent
    ▷ at c.query
    ▷ dedent
    ▷ write_line (codes ")")

abbrev pub any_recursive : List WithClause → Bool
any_recursive [] = false
any_recursive (c ∷ cs) = c.is_recursive || any_recursive cs

abbrev pub write_withs : (at : ℕ → Write) → List WithClause → Write
write_withs at [] = nothing
write_withs at (c ∷ cs) =
    write (if any_recursive (c ∷ cs) then codes "WITH RECURSIVE " else codes "WITH ")
    ▷ separated (comma ▷ write_line []) (map (write_with at) (c ∷ cs))
    ▷ write_line []

abbrev pub write_operator : SetOperation → Write
write_operator op =
    write_line []
    ▷ write op.type
    ▷ when_ (not (is_empty op.modifier)) (write (codes " ") ▷ write op.modifier)
    ▷ write_line []

unfoldable pub write_set_operation : (at : ℕ → Write) → SetOperation → Write
write_set_operation at op = separated (write_operator op) (map at op.items)

abbrev pub write_shown : Option Write → Write
write_shown none = nothing
write_shown (some a) = write_line [] ▷ write (codes "FROM ") ▷ a

-- SELECT, its list, and FROM, whose item is given as a write.
abbrev pub write_select : (at : ℕ → Write) → Clauses → Option Write → Write
write_select at c from =
    write (select_text c.select_type)
    ▷ when_ (not (is_empty c.as_struct_type)) (write (codes " AS ") ▷ write c.as_struct_type)
    ▷ when_ (has_any c.select_list) (
        write_line []
        ▷ indent
        ▷ separated (write (codes ",") ▷ write_line []) (map (write_select_item at) c.select_list)
        ▷ dedent)
    ▷ write_shown from

abbrev pub either_core : (at : ℕ → Write) → Option SetOperation → Write → Write
either_core at none a = a
either_core at (some op) a = write_set_operation at op

abbrev pub write_core : (at : ℕ → Write) → Clauses → Option Write → Write
write_core at c from = either_core at c.set_operation (write_select at c from)

-- The clauses behind the FROM item.
abbrev pub write_rest : (at : ℕ → Write) → Clauses → Write
write_rest at c =
    write_clause (is_some c.where_clause) (codes "WHERE ") (write_expr at c.where_clause)
    ▷ write_clause (has_any c.group_by_list) (codes "GROUP BY ")
        (separated comma (map (write_expr at) c.group_by_list))
    ▷ write_clause (is_some c.having_clause) (codes "HAVING ") (write_expr at c.having_clause)
    ▷ write_clause (has_any c.order_by_list) (codes "ORDER BY ")
        (separated comma (map (write_item at) c.order_by_list))
    ▷ write_limit at c.limit_clause

abbrev pub write_clauses : (at : ℕ → Write) → Clauses → Option Write → Write
write_clauses at c from = write_withs at c.with_clauses ▷ write_core at c from ▷ write_rest at c

abbrev pub write_typed_item :
    (at : ℕ → Write) → FromItemType → FromRest → Bytes → Write → Write → Write
write_typed_item at table_item rest alias sub join = write (quoted rest.table_name) ▷ write_as alias
write_typed_item at subquery_item rest alias sub join =
    write (codes "(" ++ 10 ∷ []) ▷ sub ▷ write (10 ∷ codes ")") ▷ write_as alias
write_typed_item at join_item rest alias sub join = join
write_typed_item at with_ref_item rest alias sub join = write rest.with_ref ▷ write_as alias
write_typed_item at table_function_item rest alias sub join =
    write_table_function at rest.table_function ▷ write_as alias
write_typed_item at unnest_item rest alias sub join =
    write (codes "UNNEST(")
    ▷ unless_nil rest.unnest_expr (write_expr at rest.unnest_expr)
    ▷ write (codes ")")
    ▷ write_as alias
write_typed_item at single_row_item rest alias sub join = nothing

abbrev pub is_single_row : FromItemType → Bool
is_single_row single_row_item = true
is_single_row table_item = false
is_single_row subquery_item = false
is_single_row join_item = false
is_single_row with_ref_item = false
is_single_row table_function_item = false
is_single_row unnest_item = false

-- Whether a statement writes FROM.
abbrev pub shown : FromItem → Write → Option Write
shown no_item a = none
shown (item alias (body type s j r)) a = if is_single_row type then none else some a

unfoldable mutual
  unfolding write indent dedent

  pub write_statement : (at : ℕ → Write) → Statement → Write
  write_statement at no_statement = nil_panic
  write_statement at (select from clauses) =
      write_clauses at clauses (shown from (write_from at from))

  pub write_from : (at : ℕ → Write) → FromItem → Write
  write_from at no_item = nil_panic
  write_from at (item alias (body type sub join rest)) =
      write_typed_item at type rest alias (write_sub at sub) (write_join at join)

  pub write_sub : (at : ℕ → Write) → Statement → Write
  write_sub at no_statement = nothing
  write_sub at (select from clauses) =
      indent ▷ write_clauses at clauses (shown from (write_from at from)) ▷ dedent

  pub write_join : (at : ℕ → Write) → JoinClause → Write
  write_join at no_join = nothing
  write_join at (join_clause type left right condition using_columns) =
      write_side at left
      ▷ write (join_text type)
      ▷ write_side at right
      ▷ when_ (not (is_cross type)) (write_condition at using_columns condition)

  pub write_side : (at : ℕ → Write) → FromItem → Write
  write_side at no_item = nothing
  write_side at (item alias (body type sub join rest)) =
      write_typed_item at type rest alias (write_sub at sub) (write_join at join)

-- The statement at an address, which points only to older statements. There is none beyond the heap.
unfoldable pub write_at : List Statement → ℕ → Write
write_at [] k = nil_panic
write_at (s ∷ older) k =
    let rest = write_at older k in
    if length older == k then write_statement (write_at older) s else rest

-- SelectStatement.String without its strings.TrimSpace.
unfoldable pub statement_text : List Statement → Statement → Result Bytes
unfolding write_statement write_at
statement_text heap s =
    write_statement (write_at heap) s
      (record { builder = []; indent_level = 0; use_newlines = true })
    >>= λ w. ok w.builder
