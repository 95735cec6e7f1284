-- ===== src/Flatten/Statement.antt =====
-- The statements of internal/sqlbuilder_sqlbuilder.go: SELECT, its FROM clause and its WITH clause.
use go_zetasqlite.Prelude.{ℕ, Bool, Option, List}
use go_zetasqlite.Prelude.Bytes.{Bytes}
use go_zetasqlite.Flatten.{Expr, OrderByItem}

-- `query` is the address of the statement that the clause defines.
pub record WithClause : Type 0 where
  pub name : Bytes
  pub materialized : Bool
  pub is_recursive : Bool
  pub columns : List Bytes
  pub query : ℕ

pub data SelectType : Type 0 where
  standard distinct all_rows as_struct as_value : SelectType

pub record SelectListItem : Type 0 where
  pub expression : Expr
  pub alias : Bytes
  pub is_star_expansion : Bool
  pub except_columns : List Bytes
  pub replace_columns : List (Bytes × Expr)

pub record LimitClause : Type 0 where
  pub count : Expr
  pub offset : Expr

-- `items` are the addresses of the statements that the operation combines.
pub record SetOperation : Type 0 where
  pub type : Bytes
  pub modifier : Bytes
  pub items : List ℕ

pub record TableFunction : Type 0 where
  pub name : Bytes
  pub arguments : List Expr

-- All but the FROM clause.
pub record Clauses : Type 0 where
  pub with_clauses : List WithClause
  pub select_type : SelectType
  pub select_list : List SelectListItem
  pub as_struct_type : Bytes
  pub as_value_type : Bytes
  pub where_clause : Expr
  pub group_by_list : List Expr
  pub having_clause : Expr
  pub order_by_list : List OrderByItem
  pub limit_clause : Option LimitClause
  pub set_operation : Option SetOperation
  pub hints : List Bytes

pub data FromItemType : Type 0 where
  table_item subquery_item join_item with_ref_item table_function_item unnest_item single_row_item :
      FromItemType

pub data JoinType : Type 0 where
  inner_join left_join right_join full_join cross_join : JoinType

-- The fields of a FROM item that the code only hands on.
pub record FromRest : Type 0 where
  pub table_name : Bytes
  pub with_ref : Bytes
  pub table_function : Option TableFunction
  pub unnest_expr : Expr
  pub from_hints : List Bytes

-- Pointers again: the first constructor is nil. The alias of a FROM item is the field that is
-- assigned; the others are its body.
mutual
  pub data Statement : Type 0 where
    no_statement : Statement
    select : FromItem → Clauses → Statement

  pub data FromItem : Type 0 where
    no_item : FromItem
    item : (alias : Bytes) → FromBody → FromItem

  pub data FromBody : Type 0 where
    body : FromItemType → (subquery : Statement) → JoinClause → FromRest → FromBody

  pub data JoinClause : Type 0 where
    no_join : JoinClause
    join_clause :
        JoinType
        → (left right : FromItem) → (condition : Expr) → (using_columns : List Bytes) → JoinClause
