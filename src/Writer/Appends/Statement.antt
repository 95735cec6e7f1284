-- ===== src/Writer/Appends/Statement.antt =====
-- The same for statements, and for the statements of a heap.
use go_zetasqlite.Prelude.{
  ℕ, Bool, true, false, Option, none, some, List, [], ◌∷◌, map, length, ◌==◌, All, if◌then◌else◌,
}
use go_zetasqlite.Prelude.Bytes.{Bytes, codes}
use go_zetasqlite.Flatten.{Expr}
use go_zetasqlite.Flatten.Statement.{
  WithClause, SelectListItem, LimitClause, SetOperation, TableFunction, Clauses, FromItemType,
  table_item, subquery_item, join_item, with_ref_item, table_function_item, unnest_item,
  single_row_item, FromRest, Statement, no_statement, select, FromItem, no_item, item, body,
  JoinClause, no_join, join_clause,
}
use go_zetasqlite.Writer.{Writer, Write, write, separated, quoted}
use go_zetasqlite.Writer.Appends.{
  Appends, After, Appends_nothing, Appends_panic, Appends_write, Appends_write_line, Appends_when,
  Appends_separated, Appends_indented, Appends_indented_then, ◌▶◌,
}
use go_zetasqlite.Writer.Appends.Expression.{
  Appends_unless_nil, Appends_write_expr, Appends_write_item,
}
use go_zetasqlite.Writer.Expression.{comma, write_expr, write_item}
use go_zetasqlite.Writer.Statement.{
  is_some, has_any, write_replaced, write_star_item, write_plain_item, write_select_item, write_as,
  write_table_function, write_condition, write_clause, write_limit, write_with, write_withs,
  write_operator, write_set_operation, write_select, write_rest, either_core, write_shown,
  write_clauses, write_typed_item, is_single_row, shown, write_statement, write_from, write_sub,
  write_join, write_side, write_at,
}

-- A list of writes, each of which appends.
pub mapped {ℓ} :
    {A : Type ℓ} (f : A → Write) (xs : List A) → ((x : A) → Appends (f x)) → All Appends (map f xs)
mapped f [] h = tt
mapped f (x ∷ xs) h = (h x, mapped f xs h)

pub commas {ℓ} :
    {A : Type ℓ} (f : A → Write) (xs : List A)
    → ((x : A) → Appends (f x))
    → Appends (separated comma (map f xs))
commas f xs h = Appends_separated comma _ (Appends_write _) (mapped f xs h)

Appends_write_as : (alias : Bytes) → Appends (write_as alias)
Appends_write_as alias = Appends_when _ _ (Appends_write _ ▶ Appends_write _)

Appends_clause :
    (b : Bool) (keyword : Bytes) (a : Write) → Appends a → Appends (write_clause b keyword a)
Appends_clause b keyword a h = Appends_when b _ (Appends_write_line _ ▶ Appends_write _ ▶ h)

Appends_operator : (op : SetOperation) → Appends (write_operator op)
Appends_operator op =
    Appends_write_line _
    ▶ Appends_write _
    ▶ Appends_when _ _ (Appends_write _ ▶ Appends_write _)
    ▶ Appends_write_line _

Appends_if : (b : Bool) (a c : Write) → Appends a → Appends c → Appends (if b then a else c)
Appends_if true a c h k = h
Appends_if false a c h k = k

module _ (at : ℕ → Write) (at_Appends : (k : ℕ) → Appends (at k)) where
  expression : (e : Expr) → Appends (write_expr at e)
  expression e = Appends_write_expr at at_Appends e

  replaced : (r : Bytes × Expr) → Appends (write_replaced at r)
  replaced (name, e) = expression e ▶ Appends_write _

  star_item : (i : SelectListItem) → Appends (write_star_item at i)
  star_item i =
      expression i.expression
      ▶ Appends_when _ _ (
          Appends_write _
          ▶ commas write (map quoted i.except_columns) Appends_write
          ▶ Appends_write _)
      ▶ Appends_when _ _ (
          Appends_write _ ▶ commas (write_replaced at) i.replace_columns replaced ▶ Appends_write _)

  plain_item : (i : SelectListItem) → Appends (write_plain_item at i)
  plain_item i = expression i.expression ▶ Appends_when _ _ (Appends_write _)

  select_item : (i : SelectListItem) → Appends (write_select_item at i)
  unfolding write_select_item
  select_item i = Appends_if i.is_star_expansion _ _ (star_item i) (plain_item i)

  table_function : (f : Option TableFunction) → Appends (write_table_function at f)
  table_function none = Appends_nothing
  table_function (some f) =
      Appends_write _
      ▶ Appends_write _
      ▶ commas (write_expr at) f.arguments expression
      ▶ Appends_write _

  condition : (cs : List Bytes) (e : Expr) → Appends (write_condition at cs e)
  condition [] e = Appends_unless_nil e _ (Appends_write _ ▶ expression e)
  condition (c ∷ cs) e = Appends_write _ ▶ commas write (c ∷ cs) Appends_write ▶ Appends_write _

  limit : (l : Option LimitClause) → Appends (write_limit at l)
  limit none = Appends_nothing
  limit (some l) =
      Appends_write_line _
      ▶ Appends_write _
      ▶ expression l.count
      ▶ Appends_unless_nil l.offset _ (Appends_write _ ▶ expression l.offset)

  with_clause : (c : WithClause) → Appends (write_with at c)
  unfolding write_with
  with_clause c =
      Appends_write _
      ▶ Appends_when _ _ (Appends_write _ ▶ commas write c.columns Appends_write ▶ Appends_write _)
      ▶ Appends_write _
      ▶ Appends_write_line _
      ▶ Appends_indented_then (at c.query) _ (at_Appends c.query) (Appends_write_line _)

  with_clauses : (cs : List WithClause) → Appends (write_withs at cs)
  with_clauses [] = Appends_nothing
  with_clauses (c ∷ cs) =
      Appends_write _
      ▶ Appends_separated _ _ (Appends_write _ ▶ Appends_write_line _)
          (mapped (write_with at) (c ∷ cs) with_clause)
      ▶ Appends_write_line _

  set_operation : (op : SetOperation) → Appends (write_set_operation at op)
  unfolding write_set_operation
  set_operation op = Appends_separated _ _ (Appends_operator op) (mapped at op.items at_Appends)

  abbrev FromAppends : Option Write → Type 0
  FromAppends none = Unit
  FromAppends (some a) = Appends a

  shown_part : (from : Option Write) → FromAppends from → Appends (write_shown from)
  shown_part none h = Appends_nothing
  shown_part (some a) h = Appends_write_line _ ▶ Appends_write _ ▶ h

  select_part :
      (c : Clauses) (from : Option Write) → FromAppends from → Appends (write_select at c from)
  select_part c from h =
      Appends_write _
      ▶ Appends_when _ _ (Appends_write _ ▶ Appends_write _)
      ▶ Appends_when _ _ (
          Appends_write_line _
          ▶ Appends_indented _ (
              Appends_separated _ _ (Appends_write _ ▶ Appends_write_line _)
                (mapped (write_select_item at) c.select_list select_item)))
      ▶ shown_part from h

  core : (o : Option SetOperation) (a : Write) → Appends a → Appends (either_core at o a)
  core none a h = h
  core (some op) a h = set_operation op

  rest : (c : Clauses) → Appends (write_rest at c)
  rest c =
      Appends_clause (is_some c.where_clause) (codes "WHERE ") _ (expression c.where_clause)
      ▶ Appends_clause (has_any c.group_by_list) (codes "GROUP BY ") _
          (commas (write_expr at) c.group_by_list expression)
      ▶ Appends_clause (is_some c.having_clause) (codes "HAVING ") _ (expression c.having_clause)
      ▶ Appends_clause (has_any c.order_by_list) (codes "ORDER BY ") _
          (commas (write_item at) c.order_by_list (Appends_write_item at at_Appends))
      ▶ limit c.limit_clause

  clauses_part :
      (c : Clauses) (from : Option Write) → FromAppends from → Appends (write_clauses at c from)
  clauses_part c from h =
      with_clauses c.with_clauses ▶ core c.set_operation _ (select_part c from h) ▶ rest c

  typed_item :
      (type : FromItemType) (r : FromRest) (alias : Bytes) (sub join : Write)
      → Appends sub
      → Appends join
      → Appends (write_typed_item at type r alias sub join)
  typed_item table_item r alias sub join h k = Appends_write _ ▶ Appends_write_as alias
  typed_item subquery_item r alias sub join h k =
      Appends_write _ ▶ h ▶ Appends_write _ ▶ Appends_write_as alias
  typed_item join_item r alias sub join h k = k
  typed_item with_ref_item r alias sub join h k = Appends_write _ ▶ Appends_write_as alias
  typed_item table_function_item r alias sub join h k =
      table_function r.table_function ▶ Appends_write_as alias
  typed_item unnest_item r alias sub join h k =
      Appends_write _
      ▶ Appends_unless_nil r.unnest_expr _ (expression r.unnest_expr)
      ▶ Appends_write _
      ▶ Appends_write_as alias
  typed_item single_row_item r alias sub join h k = Appends_nothing

  if_shown : (b : Bool) (a : Write) → Appends a → FromAppends (if b then none else some a)
  if_shown true a h = tt
  if_shown false a h = h

  from_shown : (from : FromItem) (a : Write) → Appends a → FromAppends (shown from a)
  from_shown no_item a h = tt
  from_shown (item alias (body type s j r)) a h = if_shown (is_single_row type) a h

  mutual
    unfolding write_statement

    pub in_statement : (s : Statement) → Appends (write_statement at s)
    in_statement no_statement = Appends_panic
    in_statement (select from clauses) = clauses_part clauses _ (from_shown from _ (in_from from))

    pub in_from : (from : FromItem) → Appends (write_from at from)
    in_from no_item = Appends_panic
    in_from (item alias (body type sub join r)) =
        typed_item type r alias _ _ (in_sub sub) (in_join join)

    in_sub : (s : Statement) → Appends (write_sub at s)
    in_sub no_statement = Appends_nothing
    in_sub (select from clauses) =
        Appends_indented _ (clauses_part clauses _ (from_shown from _ (in_from from)))

    in_join : (j : JoinClause) → Appends (write_join at j)
    in_join no_join = Appends_nothing
    in_join (join_clause type left right e cs) =
        in_side left ▶ Appends_write _ ▶ in_side right ▶ Appends_when _ _ (condition cs e)

    in_side : (from : FromItem) → Appends (write_side at from)
    in_side no_item = Appends_nothing
    in_side (item alias (body type sub join r)) =
        typed_item type r alias _ _ (in_sub sub) (in_join join)

pub Appends_write_at : (heap : List Statement) (k : ℕ) → Appends (write_at heap k)
unfolding write_at
Appends_write_at [] k = Appends_panic
Appends_write_at (s ∷ older) k =
    Appends_if (length older == k) _ _ (in_statement (write_at older) (Appends_write_at older) s)
      (Appends_write_at older k)

-- Writing a statement, with all the statements that it points to, only appends: what was written
-- before stays, and the indentation and the choice of new lines are afterwards what they were.
write_statement-Appends :
    (heap : List Statement) (s : Statement) (w : Writer)
    → After w (write_statement (write_at heap) s w)
write_statement-Appends heap s w = (in_statement (write_at heap) (Appends_write_at heap) s).after w
