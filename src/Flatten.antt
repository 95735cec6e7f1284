-- ===== src/Flatten.antt =====
-- The SQL expressions of internal/sqlbuilder_sqlbuilder.go that internal/sqlbuilder_flatten.go
-- rewrites when it lifts a subquery into the query around it.
pub mod Substitute
pub mod Copy
pub mod Statement
pub mod Join
pub mod Select
use go_zetasqlite.Prelude.{ℕ, Bool, Option, List, [], ◌∷◌}
use go_zetasqlite.Prelude.Bytes.{Bytes}

pub data ExpressionType : Type 0 where
  column literal parameter function list_type unary_type : ExpressionType
  binary_type subquery_type star case_type exists_type cast_type : ExpressionType

-- The string fields.
pub record Text : Type 0 where
  pub value : Bytes
  pub alias : Bytes
  pub table_alias : Bytes
  pub collation : Bytes

-- An expression, behind a pointer that may be nil. Each pointer field is a type whose first
-- constructor is nil. A subquery is the address of a statement. A WHEN clause is never nil.
mutual
  pub data Expr : Type 0 where
    nil : Expr
    expr : ExpressionType → Text → Fields → Expr

  pub data Fields : Type 0 where
    fields :
        ListExpression
        → UnaryExpression
        → BinaryExpression
        → FunctionCall
        → CaseExpression
        → (subquery exists_subquery : Option ℕ) → Fields

  pub data ListExpression : Type 0 where
    no_list : ListExpression
    list : Exprs → ListExpression

  pub data UnaryExpression : Type 0 where
    no_unary : UnaryExpression
    unary : (operator : Bytes) → Expr → UnaryExpression

  pub data BinaryExpression : Type 0 where
    no_binary : BinaryExpression
    binary : (left : Expr) → (operator : Bytes) → (right : Expr) → BinaryExpression

  pub data FunctionCall : Type 0 where
    no_call : FunctionCall
    function_call :
        (name : Bytes)
        → (arguments : Exprs) → (is_distinct : Bool) → WindowSpecification
        → FunctionCall

  pub data WindowSpecification : Type 0 where
    no_window : WindowSpecification
    over : (partition_by : Exprs) → OrderByItems → FrameClause → WindowSpecification

  pub data OrderByItem : Type 0 where
    order_by_item : Expr → (direction nulls_order : Bytes) → OrderByItem

  pub data OrderByItems : Type 0 where
    no_items : OrderByItems
    then_by : OrderByItem → OrderByItems → OrderByItems

  pub data FrameClause : Type 0 where
    no_frame : FrameClause
    frame : (unit : Bytes) → (start end_ : FrameBound) → FrameClause

  pub data FrameBound : Type 0 where
    no_bound : FrameBound
    bound : (type : Bytes) → (offset : Expr) → FrameBound

  pub data CaseExpression : Type 0 where
    no_case : CaseExpression
    case_expression : (case_expr : Expr) → WhenClauses → (else_expr : Expr) → CaseExpression

  pub data Exprs : Type 0 where
    end : Exprs
    also : Expr → Exprs → Exprs

  pub data WhenClauses : Type 0 where
    no_more : WhenClauses
    when : (condition result : Expr) → WhenClauses → WhenClauses

-- map[string]*SQLExpression, a later entry for a key in front of an earlier one.
abbrev pub AliasMap : Type 0
AliasMap = List (Bytes × Expr)
