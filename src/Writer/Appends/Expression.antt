-- ===== src/Writer/Appends/Expression.antt =====
-- Expressions and statements only append to what is written.
use go_zetasqlite.Prelude.{ℕ, Bool, ◌||◌, Option, none, some, List, All}
use go_zetasqlite.Prelude.Bytes.{Bytes, codes}
use go_zetasqlite.Result.{Result, ok, err, panic, out_of_fuel, ◌>>=◌}
use go_zetasqlite.Flatten.{
  ExpressionType, column, literal, parameter, function, list_type, unary_type, binary_type,
  subquery_type, star, case_type, exists_type, cast_type, Text, Expr, nil, expr, Fields, fields,
  ListExpression, no_list, list, UnaryExpression, no_unary, unary, BinaryExpression, no_binary,
  binary, FunctionCall, no_call, function_call, WindowSpecification, no_window, over, OrderByItem,
  order_by_item, OrderByItems, no_items, then_by, FrameClause, no_frame, frame, FrameBound,
  no_bound, bound, CaseExpression, no_case, case_expression, Exprs, end, also, WhenClauses, no_more,
  when,
}
use go_zetasqlite.Writer.{Writer, Write, write}
use go_zetasqlite.Writer.Appends.{
  Appends, After, Appends_nothing, Appends_panic, Appends_write, Appends_when, Appends_separated,
  ◌▶◌,
}
use go_zetasqlite.Writer.Expression.{
  write_suffix, Parts, write_typed, write_address, own_text, unless_nil, text_unless_empty,
  write_exists, write_expr, write_fields, write_list, write_unary, write_binary, write_call,
  write_over, write_item, write_items, write_frame, write_bound, write_case, write_whens,
  write_exprs, own_texts, has_subquery, comma, has_exprs, has_items, has_frame, write_partition,
  write_order, write_window_frame,
}

Appends_write_suffix : (type : ExpressionType) (t : Text) → Appends (write_suffix type t)
unfolding write_suffix
Appends_write_suffix type t =
    Appends_when _ _ (Appends_write _) ▶ Appends_when _ _ (Appends_write _ ▶ Appends_write _)

pub Appends_unless_nil : (e : Expr) (a : Write) → Appends a → Appends (unless_nil e a)
Appends_unless_nil nil a h = Appends_nothing
Appends_unless_nil (expr type t fs) a h = h

Appends_text : (s : Bytes) → Appends (text_unless_empty s)
Appends_text s = Appends_when _ _ (Appends_write _ ▶ Appends_write s)

Appends_partition :
    (b : Bool) (as_ : List Write) → All Appends as_ → Appends (write_partition b as_)
unfolding write_partition
Appends_partition b as_ h =
    Appends_when b _ (Appends_write _ ▶ Appends_separated comma as_ (Appends_write _) h)

Appends_order : (p b : Bool) (as_ : List Write) → All Appends as_ → Appends (write_order p b as_)
unfolding write_order
Appends_order p b as_ h = Appends_when b _ (
    Appends_when p (write (codes " ")) (Appends_write _)
    ▶ Appends_write _
    ▶ Appends_separated comma as_ (Appends_write _) h)

Appends_window_frame : (p b : Bool) (a : Write) → Appends a → Appends (write_window_frame p b a)
unfolding write_window_frame
Appends_window_frame p b a h =
    Appends_when b _ (Appends_when p (write (codes " ")) (Appends_write _) ▶ h)

-- A text of its own is written whole.
pub Appends_own_text : (b : Bool) (a : Write) → Appends (own_text b a)
Appends_own_text b a = record { after = λ w. at_end w (a _) }
  where
    at_end : (w : Writer) (r : Result Writer) → After w (r >>= λ v. write v.builder w)
    at_end w (ok v) = (Appends_write v.builder).after w
    at_end w (err e) = tt
    at_end w panic = tt
    at_end w out_of_fuel = tt

-- Every field that may be written appends.
record PartsAppend (p : Parts) : Type 0 where
  list_appends : Appends p.list_part
  unary_appends : Appends p.unary_part
  binary_appends : Appends p.binary_part
  call_appends : Appends p.call_part
  case_appends : Appends p.case_part
  subquery_appends : Appends p.subquery_part
  exists_appends : Appends p.exists_part

Appends_write_typed :
    (type : ExpressionType) (t : Text) (p : Parts) → PartsAppend p → Appends (write_typed type t p)
Appends_write_typed column t p h = Appends_write _
Appends_write_typed literal t p h = Appends_write _
Appends_write_typed parameter t p h = Appends_write _
Appends_write_typed function t p h = h.call_appends
Appends_write_typed list_type t p h = h.list_appends
Appends_write_typed unary_type t p h = h.unary_appends
Appends_write_typed binary_type t p h = h.binary_appends
Appends_write_typed subquery_type t p h = Appends_write _ ▶ h.subquery_appends ▶ Appends_write _
Appends_write_typed star t p h = Appends_write _
Appends_write_typed case_type t p h = h.case_appends
Appends_write_typed exists_type t p h = h.exists_appends
Appends_write_typed cast_type t p h = Appends_nothing

module _ (at : ℕ → Write) (at_Appends : (k : ℕ) → Appends (at k)) where
  address : (o : Option ℕ) → Appends (write_address at o)
  address none = Appends_nothing
  address (some k) = at_Appends k

  exists : (o : Option ℕ) → Appends (write_exists at o)
  exists none = Appends_nothing
  exists (some k) = Appends_write _ ▶ at_Appends k ▶ Appends_write _

  texts : (es : Exprs) → All Appends (own_texts at es)
  unfolding write_expr
  texts end = tt
  texts (also e es) = (Appends_own_text (has_subquery e) (write_expr at e), texts es)

  mutual
    unfolding write_expr

    expression : (e : Expr) → Appends (write_expr at e)
    expression nil = Appends_panic
    expression (expr type t fs) =
        Appends_write_typed type t _ (parts fs) ▶ Appends_write_suffix type t

    parts : (fs : Fields) → PartsAppend (write_fields at fs)
    parts (fields l u b f c s x) = record {
      list_appends = in_list l;
      unary_appends = in_unary u;
      binary_appends = in_binary b;
      call_appends = in_call f;
      case_appends = in_case c;
      subquery_appends = address s;
      exists_appends = exists x;
    }

    in_list : (l : ListExpression) → Appends (write_list at l)
    in_list no_list = Appends_panic
    in_list (list es) =
        Appends_write _ ▶ Appends_separated _ _ (Appends_write _) (texts es) ▶ Appends_write _

    in_unary : (u : UnaryExpression) → Appends (write_unary at u)
    in_unary no_unary = Appends_panic
    in_unary (unary operator e) = Appends_write _ ▶ Appends_write _ ▶ expression e ▶ Appends_write _

    in_binary : (b : BinaryExpression) → Appends (write_binary at b)
    in_binary no_binary = Appends_panic
    in_binary (binary left operator right) =
        Appends_unless_nil left _ (expression left)
        ▶ Appends_write _
        ▶ Appends_unless_nil right _ (expression right)

    in_call : (f : FunctionCall) → Appends (write_call at f)
    in_call no_call = Appends_nothing
    in_call (function_call name arguments is_distinct window) =
        Appends_write _
        ▶ Appends_write _
        ▶ Appends_when is_distinct _ (Appends_write _)
        ▶ Appends_separated _ _ (Appends_write _) (in_exprs arguments)
        ▶ Appends_write _
        ▶ in_over window

    in_over : (w : WindowSpecification) → Appends (write_over at w)
    in_over no_window = Appends_nothing
    in_over (over partition_by orders f) =
        Appends_write _
        ▶ Appends_partition (has_exprs partition_by) _ (in_exprs partition_by)
        ▶ Appends_order (has_exprs partition_by) (has_items orders) _ (in_items orders)
        ▶ Appends_window_frame (has_exprs partition_by || has_items orders) (has_frame f) _
            (in_frame f)
        ▶ Appends_write _

    in_item : (i : OrderByItem) → Appends (write_item at i)
    in_item (order_by_item e direction nulls_order) =
        expression e ▶ Appends_text direction ▶ Appends_text nulls_order

    in_items : (is : OrderByItems) → All Appends (write_items at is)
    in_items no_items = tt
    in_items (then_by i is) = (in_item i, in_items is)

    in_frame : (f : FrameClause) → Appends (write_frame at f)
    in_frame no_frame = Appends_nothing
    in_frame (frame unit start no_bound) = Appends_write _ ▶ Appends_write _ ▶ in_bound start
    in_frame (frame unit start (bound type offset)) =
        Appends_write _
        ▶ Appends_write _
        ▶ in_bound start
        ▶ Appends_write _
        ▶ Appends_unless_nil offset _ (expression offset ▶ Appends_write _)
        ▶ Appends_write _

    in_bound : (b : FrameBound) → Appends (write_bound at b)
    in_bound no_bound = Appends_panic
    in_bound (bound type offset) =
        Appends_unless_nil offset _ (expression offset ▶ Appends_write _) ▶ Appends_write _

    in_case : (c : CaseExpression) → Appends (write_case at c)
    in_case no_case = Appends_nothing
    in_case (case_expression e whens else_expr) =
        Appends_write _
        ▶ Appends_unless_nil e _ (Appends_write _ ▶ expression e)
        ▶ in_whens whens
        ▶ Appends_unless_nil else_expr _ (Appends_write _ ▶ expression else_expr)
        ▶ Appends_write _

    in_whens : (ws : WhenClauses) → Appends (write_whens at ws)
    in_whens no_more = Appends_nothing
    in_whens (when condition result ws) =
        Appends_write _ ▶ expression condition ▶ Appends_write _ ▶ expression result ▶ in_whens ws

    in_exprs : (es : Exprs) → All Appends (write_exprs at es)
    in_exprs end = tt
    in_exprs (also e es) = (expression e, in_exprs es)

  pub Appends_write_expr : (e : Expr) → Appends (write_expr at e)
  Appends_write_expr e = expression e

  pub Appends_write_item : (i : OrderByItem) → Appends (write_item at i)
  Appends_write_item i = in_item i
