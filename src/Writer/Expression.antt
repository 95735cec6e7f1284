-- ===== src/Writer/Expression.antt =====
-- WriteSql of SQLExpression and of its parts.
use go_zetasqlite.Prelude.{
  ℕ, Bool, true, false, not, ◌&&◌, ◌||◌, Option, none, some, List, [], ◌∷◌, ◌++◌, if◌then◌else◌,
}
use go_zetasqlite.Prelude.Bytes.{Bytes, codes, bytes_eq}
use go_zetasqlite.Result.{◌>>=◌}
use go_zetasqlite.Flatten.{
  ExpressionType, column, literal, parameter, function, list_type, unary_type, binary_type,
  subquery_type, star, case_type, exists_type, cast_type, Text, Expr, nil, expr, Fields, fields,
  ListExpression, no_list, list, UnaryExpression, no_unary, unary, BinaryExpression, no_binary,
  binary, FunctionCall, no_call, function_call, WindowSpecification, no_window, over, OrderByItem,
  order_by_item, OrderByItems, no_items, then_by, FrameClause, no_frame, frame, FrameBound,
  no_bound, bound, CaseExpression, no_case, case_expression, Exprs, end, also, WhenClauses, no_more,
  when,
}
use go_zetasqlite.Writer.{Write, ◌▷◌, nothing, nil_panic, write, when_, separated, quoted}

abbrev pub is_empty : Bytes → Bool
is_empty s = bytes_eq s []

abbrev pub comma : Write
comma = write (codes ", ")

-- `TableAlias != ""` decides between a qualified and a bare name.
abbrev pub column_text : Text → Bytes
column_text t =
    if is_empty t.table_alias then quoted t.value else quoted t.table_alias ++ b'.' ∷ quoted t.value

abbrev pub star_text : Text → Bytes
star_text t = if is_empty t.table_alias then codes "*" else t.table_alias ++ codes ".*"

abbrev pub is_column : ExpressionType → Bool
is_column column = true
is_column literal = false
is_column parameter = false
is_column function = false
is_column list_type = false
is_column unary_type = false
is_column binary_type = false
is_column subquery_type = false
is_column star = false
is_column case_type = false
is_column exists_type = false
is_column cast_type = false

-- COLLATE and AS behind an expression.
unfoldable pub write_suffix : ExpressionType → Text → Write
write_suffix type t =
    when_ (not (is_empty t.collation)) (write (codes " COLLATE " ++ t.collation))
    ▷ when_ (not (is_empty t.alias) && not (is_column type && bytes_eq t.alias t.value))
        (write (codes " AS ") ▷ write (quoted t.alias))

-- How each field that may be nil is written.
pub record Parts : Type 0 where
  pub list_part : Write
  pub unary_part : Write
  pub binary_part : Write
  pub call_part : Write
  pub case_part : Write
  pub subquery_part : Write
  pub exists_part : Write

abbrev pub write_typed : ExpressionType → Text → Parts → Write
write_typed column t p = write (column_text t)
write_typed literal t p = write t.value
write_typed parameter t p = write t.value
write_typed function t p = p.call_part
write_typed list_type t p = p.list_part
write_typed unary_type t p = p.unary_part
write_typed binary_type t p = p.binary_part
write_typed subquery_type t p = write (codes "(") ▷ p.subquery_part ▷ write (codes ")")
write_typed star t p = write (star_text t)
write_typed case_type t p = p.case_part
write_typed exists_type t p = p.exists_part
write_typed cast_type t p = nothing

abbrev pub write_address : (at : ℕ → Write) → Option ℕ → Write
write_address at none = nothing
write_address at (some k) = at k

-- An EXISTS expression that is not nil has a query.
abbrev pub write_exists : (at : ℕ → Write) → Option ℕ → Write
write_exists at none = nothing
write_exists at (some k) = write (codes "EXISTS (") ▷ at k ▷ write (codes ")")

-- `writer.Write(e.String())`: the text of a writer of its own, which has new lines if the expression
-- is a subquery.
abbrev pub own_text : Bool → Write → Write
own_text use_newlines a w =
    a (record { builder = []; indent_level = 0; use_newlines = use_newlines }) >>= λ v.
    write v.builder w

abbrev pub has_subquery : Expr → Bool
has_subquery nil = false
has_subquery (expr type t (fields l u b f c none x)) = false
has_subquery (expr type t (fields l u b f c (some k) x)) = true

-- `if e != nil { e.WriteSql(writer) }`
abbrev pub unless_nil : Expr → Write → Write
unless_nil nil a = nothing
unless_nil (expr type t fs) a = a

abbrev pub before_nonempty : Bool → Bytes → Write
before_nonempty b s = when_ b (write s)

abbrev pub has_exprs : Exprs → Bool
has_exprs end = false
has_exprs (also e es) = true

abbrev pub has_items : OrderByItems → Bool
has_items no_items = false
has_items (then_by i is) = true

abbrev pub has_frame : FrameClause → Bool
has_frame no_frame = false
has_frame (frame unit s e) = true

abbrev pub text_unless_empty : Bytes → Write
text_unless_empty s = when_ (not (is_empty s)) (write (codes " ") ▷ write s)

-- PARTITION BY, ORDER BY and the frame of a window, of which any may be missing.
unfoldable pub write_partition : Bool → List Write → Write
write_partition b as_ = when_ b (write (codes "PARTITION BY ") ▷ separated comma as_)

unfoldable pub write_order : Bool → Bool → List Write → Write
write_order after_partition b as_ =
    when_ b (
      before_nonempty after_partition (codes " ") ▷ write (codes "ORDER BY ") ▷ separated comma as_)

unfoldable pub write_window_frame : Bool → Bool → Write → Write
write_window_frame after_other b a = when_ b (before_nonempty after_other (codes " ") ▷ a)

unfoldable mutual
  unfolding write separated write_suffix write_partition write_order write_window_frame

  pub write_expr : (at : ℕ → Write) → Expr → Write
  write_expr at nil = nil_panic
  write_expr at (expr type t fs) = write_typed type t (write_fields at fs) ▷ write_suffix type t

  pub write_fields : (at : ℕ → Write) → Fields → Parts
  write_fields at (fields l u b f c s x) = record {
    list_part = write_list at l;
    unary_part = write_unary at u;
    binary_part = write_binary at b;
    call_part = write_call at f;
    case_part = write_case at c;
    subquery_part = write_address at s;
    exists_part = write_exists at x;
  }

  pub write_list : (at : ℕ → Write) → ListExpression → Write
  write_list at no_list = nil_panic
  write_list at (list es) =
      write (codes "(") ▷ separated (write (codes ",")) (own_texts at es) ▷ write (codes ")")

  pub write_unary : (at : ℕ → Write) → UnaryExpression → Write
  write_unary at no_unary = nil_panic
  write_unary at (unary operator e) =
      write operator ▷ write (codes " (") ▷ write_expr at e ▷ write (codes ")")

  pub write_binary : (at : ℕ → Write) → BinaryExpression → Write
  write_binary at no_binary = nil_panic
  write_binary at (binary left operator right) =
      unless_nil left (write_expr at left)
      ▷ write (codes " " ++ operator ++ codes " ")
      ▷ unless_nil right (write_expr at right)

  pub write_call : (at : ℕ → Write) → FunctionCall → Write
  write_call at no_call = nothing
  write_call at (function_call name arguments is_distinct window) =
      write name
      ▷ write (codes "(")
      ▷ when_ is_distinct (write (codes "DISTINCT "))
      ▷ separated comma (write_exprs at arguments)
      ▷ write (codes ")")
      ▷ write_over at window

  pub write_over : (at : ℕ → Write) → WindowSpecification → Write
  write_over at no_window = nothing
  write_over at (over partition_by orders f) =
      write (codes " OVER (")
      ▷ write_partition (has_exprs partition_by) (write_exprs at partition_by)
      ▷ write_order (has_exprs partition_by) (has_items orders) (write_items at orders)
      ▷ write_window_frame (has_exprs partition_by || has_items orders) (has_frame f)
          (write_frame at f)
      ▷ write (codes ")")

  pub write_item : (at : ℕ → Write) → OrderByItem → Write
  write_item at (order_by_item e direction nulls_order) =
      write_expr at e ▷ text_unless_empty direction ▷ text_unless_empty nulls_order

  pub write_items : (at : ℕ → Write) → OrderByItems → List Write
  write_items at no_items = []
  write_items at (then_by i items) = write_item at i ∷ write_items at items

  pub write_frame : (at : ℕ → Write) → FrameClause → Write
  write_frame at no_frame = nothing
  write_frame at (frame unit start no_bound) = write unit ▷ write (codes " ") ▷ write_bound at start
  write_frame at (frame unit start (bound type offset)) =
      write unit
      ▷ write (codes " BETWEEN ")
      ▷ write_bound at start
      ▷ write (codes " AND ")
      ▷ unless_nil offset (write_expr at offset ▷ write (codes " "))
      ▷ write type

  pub write_bound : (at : ℕ → Write) → FrameBound → Write
  write_bound at no_bound = nil_panic
  write_bound at (bound type offset) =
      unless_nil offset (write_expr at offset ▷ write (codes " ")) ▷ write type

  pub write_case : (at : ℕ → Write) → CaseExpression → Write
  write_case at no_case = nothing
  write_case at (case_expression e whens else_expr) =
      write (codes "CASE")
      ▷ unless_nil e (write (codes " ") ▷ write_expr at e)
      ▷ write_whens at whens
      ▷ unless_nil else_expr (write (codes " ELSE ") ▷ write_expr at else_expr)
      ▷ write (codes " END")

  pub write_whens : (at : ℕ → Write) → WhenClauses → Write
  write_whens at no_more = nothing
  write_whens at (when condition result whens) =
      write (codes " WHEN ")
      ▷ write_expr at condition
      ▷ write (codes " THEN ")
      ▷ write_expr at result
      ▷ write_whens at whens

  pub write_exprs : (at : ℕ → Write) → Exprs → List Write
  write_exprs at end = []
  write_exprs at (also e es) = write_expr at e ∷ write_exprs at es

  pub own_texts : (at : ℕ → Write) → Exprs → List Write
  own_texts at end = []
  own_texts at (also e es) = own_text (has_subquery e) (write_expr at e) ∷ own_texts at es
