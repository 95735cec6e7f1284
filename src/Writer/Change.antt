-- ===== src/Writer/Change.antt =====
-- The statements that change data or the schema, of internal/sqlbuilder_sqlbuilder.go, and their
-- WriteSql. The fields that have the type SQLFragment in the code hold what
-- internal/transformer_stmt_dml.go puts there: a FROM item or an expression.
use go_zetasqlite.Prelude.{ℕ, Bool, true, not, List, [], ◌∷◌, ◌++◌, map}
use go_zetasqlite.Prelude.Bytes.{Bytes, codes}
use go_zetasqlite.Result.{Result, ok, ◌>>=◌}
use go_zetasqlite.Flatten.{Expr}
use go_zetasqlite.Flatten.Statement.{Statement, no_statement, select, FromItem, no_item, item}
use go_zetasqlite.Writer.{
  Write, ◌▷◌, nothing, write, write_line, indent, dedent, when_, separated, quoted,
}
use go_zetasqlite.Writer.Expression.{
  is_empty, comma, has_subquery, own_text, unless_nil, write_expr,
}
use go_zetasqlite.Writer.Statement.{has_any, write_all, write_statement, write_from, write_at}

pub record ColumnDefinition : Type 0 where
  pub name : Bytes
  pub type : Bytes
  pub not_null : Bool
  pub default_value : Expr
  pub is_primary_key : Bool

pub record CreateTableStatement : Type 0 where
  pub if_not_exists : Bool
  pub table_name : Bytes
  pub columns : List ColumnDefinition
  pub as_select : Statement

pub record ParameterDefinition : Type 0 where
  pub name : Bytes
  pub type : Bytes

-- CreateFunctionStatement without its options, which nothing writes.
pub record CreateFunctionStatement : Type 0 where
  pub if_not_exists : Bool
  pub function_name : Bytes
  pub parameters : List ParameterDefinition
  pub return_type : Bytes
  pub language : Bytes
  pub code : Bytes

pub record DropStatement : Type 0 where
  pub if_exists : Bool
  pub object_type : Bytes
  pub object_name : Bytes

pub record DeleteStatement : Type 0 where
  pub table : FromItem
  pub where_expr : Expr

pub record InsertStatement : Type 0 where
  pub table_name : Bytes
  pub columns : List Bytes
  pub query : Statement
  pub rows : List Expr

pub record SetItem : Type 0 where
  pub column : Expr
  pub value : Expr

pub record UpdateStatement : Type 0 where
  pub table : FromItem
  pub set_items : List SetItem
  pub from_clause : FromItem
  pub where_clause : Expr

-- SQLFragment, as far as whole statements implement it.
pub data SqlFragment : Type 0 where
  select_sql : Statement → SqlFragment
  create_table_sql : CreateTableStatement → SqlFragment
  create_view_sql :
      (if_not_exists : Bool) → (view_name : Bytes) → (query : SqlFragment) → SqlFragment
  create_function_sql : CreateFunctionStatement → SqlFragment
  drop_sql : DropStatement → SqlFragment
  truncate_sql : (table_name : Bytes) → SqlFragment
  insert_sql : InsertStatement → SqlFragment
  update_sql : UpdateStatement → SqlFragment
  delete_sql : DeleteStatement → SqlFragment
  compound_sql : (statements : List Bytes) → SqlFragment

-- strings.Join
unfoldable pub joined : Bytes → List Bytes → Bytes
joined sep [] = []
joined sep (s ∷ []) = s
joined sep (s ∷ t ∷ ss) = s ++ sep ++ joined sep (t ∷ ss)

abbrev pub unless_no_statement : Statement → Write → Write → Write
unless_no_statement no_statement a b = b
unless_no_statement (select from clauses) a b = a

abbrev pub unless_no_item : FromItem → Write → Write
unless_no_item no_item a = nothing
unless_no_item (item alias b) a = a

-- The keyword and the text, unless it is empty.
abbrev pub write_option : Bytes → Bytes → Write
write_option keyword s = when_ (not (is_empty s)) (write keyword ▷ write s)

unfoldable pub write_column : (at : ℕ → Write) → ColumnDefinition → Write
write_column at c =
    write (quoted c.name)
    ▷ write (codes " ")
    ▷ write c.type
    ▷ when_ c.not_null (write (codes " NOT NULL"))
    ▷ when_ c.is_primary_key (write (codes " PRIMARY KEY"))
    ▷ unless_nil c.default_value (write (codes " DEFAULT ") ▷ write_expr at c.default_value)

abbrev pub write_columns : (at : ℕ → Write) → List ColumnDefinition → Write
write_columns at cs =
    write (codes " (")
    ▷ write_line []
    ▷ indent
    ▷ separated (write (codes ",") ▷ write_line []) (map (write_column at) cs)
    ▷ dedent
    ▷ write_line []
    ▷ write (codes ")")

unfoldable pub write_create_table : (at : ℕ → Write) → CreateTableStatement → Write
write_create_table at s =
    write (codes "CREATE TABLE")
    ▷ when_ s.if_not_exists (write (codes " IF NOT EXISTS"))
    ▷ write (codes " ")
    ▷ write (quoted s.table_name)
    ▷ unless_no_statement s.as_select (write (codes " AS ") ▷ write_statement at s.as_select)
        (write_columns at s.columns)

abbrev pub write_parameter : ParameterDefinition → Write
write_parameter p = write (quoted p.name) ▷ write (codes " ") ▷ write p.type

unfoldable pub write_create_function : CreateFunctionStatement → Write
write_create_function s =
    write (codes "CREATE FUNCTION")
    ▷ when_ s.if_not_exists (write (codes " IF NOT EXISTS"))
    ▷ write (codes " ")
    ▷ write (quoted s.function_name)
    ▷ write (codes "(")
    ▷ separated comma (map write_parameter s.parameters)
    ▷ write (codes ")")
    ▷ write_option (codes " RETURNS ") s.return_type
    ▷ write_option (codes " LANGUAGE ") s.language
    ▷ write_option (codes " AS ") s.code

unfoldable pub write_drop : DropStatement → Write
write_drop s =
    write (codes "DROP ")
    ▷ write s.object_type
    ▷ when_ s.if_exists (write (codes " IF EXISTS"))
    ▷ write (codes " ")
    ▷ write (quoted s.object_name)

abbrev pub write_truncate : Bytes → Write
write_truncate name = write (codes "TRUNCATE TABLE ") ▷ write (quoted name)

-- SQLExpression.String
abbrev pub string_of : (at : ℕ → Write) → Expr → Result Bytes
string_of at e =
    write_expr at e (record { builder = []; indent_level = 0; use_newlines = has_subquery e })
    >>= λ w. ok w.builder

abbrev pub quoted_names : List Bytes → List Bytes
quoted_names names = map quoted names

-- `writer.Write(e.String())`
abbrev pub write_string : (at : ℕ → Write) → Expr → Write
write_string at e = own_text (has_subquery e) (write_expr at e)

unfoldable pub write_delete : (at : ℕ → Write) → DeleteStatement → Write
write_delete at d =
    write (codes "DELETE FROM ")
    ▷ write_from at d.table
    ▷ unless_nil d.where_expr (write (codes " WHERE ") ▷ write_string at d.where_expr)

abbrev pub write_row : (at : ℕ → Write) → Expr → Write
write_row at e = write (codes "(") ▷ write_string at e ▷ write (codes ")")

abbrev pub write_rows : (at : ℕ → Write) → List Expr → Write
write_rows at rows =
    when_ (has_any rows)
      (write_line (codes "VALUES ") ▷ separated (write (codes ",")) (map (write_row at) rows))

unfoldable pub write_insert : (at : ℕ → Write) → InsertStatement → Write
unfolding joined
write_insert at d =
    write (codes "INSERT INTO ")
    ▷ write_line (quoted d.table_name)
    ▷ write_line (codes " (" ++ joined (codes ", ") d.columns ++ codes ") ")
    ▷ unless_no_statement d.query (write (codes " ") ▷ write_statement at d.query)
        (write_rows at d.rows)

abbrev pub write_set_item : (at : ℕ → Write) → SetItem → Write
write_set_item at i = write_expr at i.column ▷ write (codes " = ") ▷ write_expr at i.value

unfoldable pub write_update : (at : ℕ → Write) → UpdateStatement → Write
write_update at u =
    write (codes "UPDATE ")
    ▷ write_from at u.table
    ▷ write (codes " SET ")
    ▷ separated comma (map (write_set_item at) u.set_items)
    ▷ unless_no_item u.from_clause (write (codes " FROM ") ▷ write_from at u.from_clause)
    ▷ unless_nil u.where_clause (write (codes " WHERE ") ▷ write_expr at u.where_clause)

-- CompoundSQLFragment.WriteSql
abbrev pub write_compound : List Bytes → Write
write_compound ss = separated (write (codes ";" ++ 10 ∷ [])) (write_all ss)

-- CompoundSQLFragment.String
abbrev pub compound_text : List Bytes → Bytes
compound_text ss = joined (codes ";" ++ 10 ∷ []) ss ++ codes ";"

unfoldable pub write_sql : (at : ℕ → Write) → SqlFragment → Write
write_sql at (select_sql s) = write_statement at s
write_sql at (create_table_sql s) = write_create_table at s
write_sql at (create_view_sql b name query) =
    write (codes "CREATE VIEW")
    ▷ when_ b (write (codes " IF NOT EXISTS"))
    ▷ write (codes " `" ++ name ++ codes "` AS ")
    ▷ write_sql at query
write_sql at (create_function_sql s) = write_create_function s
write_sql at (drop_sql s) = write_drop s
write_sql at (truncate_sql name) = write_truncate name
write_sql at (insert_sql s) = write_insert at s
write_sql at (update_sql s) = write_update at s
write_sql at (delete_sql s) = write_delete at s
write_sql at (compound_sql ss) = write_compound ss

-- The text of a fragment over the statements of a heap, without its strings.TrimSpace.
unfoldable pub sql_text : List Statement → SqlFragment → Result Bytes
unfolding write_sql write_at write_create_table write_create_function write_drop write_insert
    write_update write_delete write_statement
sql_text heap s =
    write_sql (write_at heap) s (record { builder = []; indent_level = 0; use_newlines = true })
    >>= λ w. ok w.builder
