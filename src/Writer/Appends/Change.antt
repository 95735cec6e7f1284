-- ===== src/Writer/Appends/Change.antt =====
-- The same for the statements that change data or the schema.
use go_zetasqlite.Prelude.{ℕ, List}
use go_zetasqlite.Prelude.Bytes.{Bytes, codes}
use go_zetasqlite.Flatten.{Expr}
use go_zetasqlite.Flatten.Statement.{Statement, no_statement, select, FromItem, no_item, item}
use go_zetasqlite.Writer.{Writer, Write, write, quoted}
use go_zetasqlite.Writer.Appends.{
  Appends, After, Appends_nothing, Appends_write, Appends_write_line, Appends_when,
  Appends_separated, Appends_indented_then, ◌▶◌,
}
use go_zetasqlite.Writer.Appends.Expression.{
  Appends_unless_nil, Appends_write_expr, Appends_own_text,
}
use go_zetasqlite.Writer.Appends.Statement.{mapped, commas, in_statement, in_from, Appends_write_at}
use go_zetasqlite.Writer.Change.{
  ColumnDefinition, CreateTableStatement, CreateFunctionStatement, DropStatement, DeleteStatement,
  InsertStatement, SetItem, UpdateStatement, SqlFragment, select_sql, create_table_sql,
  create_view_sql, create_function_sql, drop_sql, truncate_sql, insert_sql, update_sql, delete_sql,
  compound_sql, unless_no_statement, unless_no_item, write_option, write_column, write_columns,
  write_create_table, write_parameter, write_create_function, write_drop, write_string,
  write_delete, write_row, write_rows, write_insert, write_set_item, write_update, write_sql,
}
use go_zetasqlite.Writer.Expression.{has_subquery, write_expr}
use go_zetasqlite.Writer.Statement.{write_at}

either_statement :
    (s : Statement) (a b : Write) → Appends a → Appends b → Appends (unless_no_statement s a b)
either_statement no_statement a b h k = k
either_statement (select from clauses) a b h k = h

unless_item : (f : FromItem) (a : Write) → Appends a → Appends (unless_no_item f a)
unless_item no_item a h = Appends_nothing
unless_item (item alias b) a h = h

option : (keyword s : Bytes) → Appends (write_option keyword s)
option keyword s = Appends_when _ _ (Appends_write _ ▶ Appends_write _)

create_function : (s : CreateFunctionStatement) → Appends (write_create_function s)
unfolding write_create_function
create_function s =
    Appends_write _
    ▶ Appends_when _ _ (Appends_write _)
    ▶ Appends_write _
    ▶ Appends_write _
    ▶ Appends_write _
    ▶ commas write_parameter s.parameters (λ p. Appends_write _ ▶ Appends_write _ ▶ Appends_write _)
    ▶ Appends_write _
    ▶ option _ s.return_type
    ▶ option _ s.language
    ▶ option _ s.code

drop : (s : DropStatement) → Appends (write_drop s)
unfolding write_drop
drop s =
    Appends_write _
    ▶ Appends_write _
    ▶ Appends_when _ _ (Appends_write _)
    ▶ Appends_write _
    ▶ Appends_write _

module _ (at : ℕ → Write) (at_Appends : (k : ℕ) → Appends (at k)) where
  expression : (e : Expr) → Appends (write_expr at e)
  expression = Appends_write_expr at at_Appends

  string : (e : Expr) → Appends (write_string at e)
  string e = Appends_own_text (has_subquery e) (write_expr at e)

  column : (c : ColumnDefinition) → Appends (write_column at c)
  unfolding write_column
  column c =
      Appends_write (quoted c.name)
      ▶ Appends_write (codes " ")
      ▶ Appends_write c.type
      ▶ Appends_when c.not_null _ (Appends_write (codes " NOT NULL"))
      ▶ Appends_when c.is_primary_key _ (Appends_write (codes " PRIMARY KEY"))
      ▶ Appends_unless_nil c.default_value _
          (Appends_write (codes " DEFAULT ") ▶ expression c.default_value)

  columns : (cs : List ColumnDefinition) → Appends (write_columns at cs)
  columns cs =
      Appends_write _
      ▶ Appends_write_line _
      ▶ Appends_indented_then _ _
          (Appends_separated _ _ (Appends_write _ ▶ Appends_write_line _)
            (mapped (write_column at) cs column))
          (Appends_write_line _ ▶ Appends_write _)

  create_table : (s : CreateTableStatement) → Appends (write_create_table at s)
  unfolding write_create_table
  create_table s =
      Appends_write _
      ▶ Appends_when _ _ (Appends_write _)
      ▶ Appends_write _
      ▶ Appends_write _
      ▶ either_statement s.as_select _ _ (Appends_write _ ▶ in_statement at at_Appends s.as_select)
          (columns s.columns)

  delete : (d : DeleteStatement) → Appends (write_delete at d)
  unfolding write_delete
  delete d =
      Appends_write _
      ▶ in_from at at_Appends d.table
      ▶ Appends_unless_nil d.where_expr _ (Appends_write _ ▶ string d.where_expr)

  rows : (es : List Expr) → Appends (write_rows at es)
  rows es = Appends_when _ _ (
      Appends_write_line _
      ▶ Appends_separated _ _ (Appends_write _)
          (mapped (write_row at) es (λ e. Appends_write _ ▶ string e ▶ Appends_write _)))

  insert : (d : InsertStatement) → Appends (write_insert at d)
  unfolding write_insert
  insert d =
      Appends_write _
      ▶ Appends_write_line _
      ▶ Appends_write_line _
      ▶ either_statement d.query _ _ (Appends_write _ ▶ in_statement at at_Appends d.query)
          (rows d.rows)

  set_item : (i : SetItem) → Appends (write_set_item at i)
  set_item i = expression i.column ▶ Appends_write _ ▶ expression i.value

  update : (u : UpdateStatement) → Appends (write_update at u)
  unfolding write_update
  update u =
      Appends_write _
      ▶ in_from at at_Appends u.table
      ▶ Appends_write _
      ▶ commas (write_set_item at) u.set_items set_item
      ▶ unless_item u.from_clause _ (Appends_write _ ▶ in_from at at_Appends u.from_clause)
      ▶ Appends_unless_nil u.where_clause _ (Appends_write _ ▶ expression u.where_clause)

  in_sql : (s : SqlFragment) → Appends (write_sql at s)
  unfolding write_sql
  in_sql (select_sql s) = in_statement at at_Appends s
  in_sql (create_table_sql s) = create_table s
  in_sql (create_view_sql b name query) =
      Appends_write _ ▶ Appends_when _ _ (Appends_write _) ▶ Appends_write _ ▶ in_sql query
  in_sql (create_function_sql s) = create_function s
  in_sql (drop_sql s) = drop s
  in_sql (truncate_sql name) = Appends_write _ ▶ Appends_write _
  in_sql (insert_sql s) = insert s
  in_sql (update_sql s) = update s
  in_sql (delete_sql s) = delete s
  in_sql (compound_sql ss) = Appends_separated _ _ (Appends_write _) (mapped write ss Appends_write)

-- Writing any statement, be it a query or a statement that changes data or the schema, with all the
-- statements that it points to, only appends: what was written before stays, and the indentation and
-- the choice of new lines are afterwards what they were.
pub write_sql-Appends :
    (heap : List Statement) (s : SqlFragment) (w : Writer) → After w (write_sql (write_at heap) s w)
write_sql-Appends heap s w = (in_sql (write_at heap) (Appends_write_at heap) s).after w
