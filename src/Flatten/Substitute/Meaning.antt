-- ===== src/Flatten/Substitute/Meaning.antt =====
-- The value of an expression in a row, and the row of a subquery's result.
use go_zetasqlite.Prelude.{Bool, ◌||◌, Option, none, some, List, [], ◌∷◌, if◌then◌else◌}
use go_zetasqlite.Prelude.Bytes.{Bytes, bytes_eq}
use go_zetasqlite.Flatten.{
  ExpressionType, column, literal, parameter, function, list_type, unary_type, binary_type,
  subquery_type, star, case_type, exists_type, cast_type, Text, Expr, nil, expr, Fields, fields,
  no_list, list, no_unary, unary, no_binary, binary, no_call, function_call, no_case,
  case_expression, WindowSpecification, no_window, over, order_by_item, OrderByItems, no_items,
  then_by, FrameClause, no_frame, frame, FrameBound, no_bound, bound, Exprs, end, also, WhenClauses,
  no_more, when, AliasMap,
}
use go_zetasqlite.Flatten.Substitute.{find}

abbrev pub BoundValue {ℓ} : Type ℓ → Type ℓ
BoundValue V = Option (Bytes × V)

-- The values of an OVER clause's expressions in a row.
pub record OverValue {ℓ} (V : Type ℓ) : Type ℓ where
  pub partition_by : List V
  pub order_by : List (V × Bytes × Bytes)
  pub frame_value : Option (Bytes × BoundValue V × BoundValue V)

-- A meaning of expressions: what each kind of node does with the values of its parts, those of an
-- OVER clause among them, and which functions are scalar. Whatever the code does not look into
-- (`atom`: literals, parameters, stars, casts, subqueries, and nodes without their pointer) has a
-- value that does not depend on the row.
pub record Meaning {ℓ} (V : Type ℓ) : Type ℓ where
  pub is_scalar : Bytes → Bool
  pub missing : V
  pub atom : ExpressionType → Text → Fields → V
  pub call : Bytes → List V → Bool → Option (OverValue V) → Bytes → V
  pub apply_unary : Bytes → V → Bytes → V
  pub apply_binary : V → Bytes → V → Bytes → V
  pub of_values : List V → Bytes → V
  pub choose : V → List (V × V) → V → Bytes → V

-- A row gives a value to a column, by table alias and name.
abbrev pub Row {ℓ} : Type ℓ → Type ℓ
Row V = Bytes → Bytes → V

module _ {ℓ} {V : Type ℓ} (m : Meaning V) where
  unfoldable mutual
    pub eval : Row V → Expr → V
    eval row nil = m.missing
    eval row (expr type text fs) = eval_node row type text fs

    pub eval_node : Row V → ExpressionType → Text → Fields → V
    eval_node row column text fs = row text.table_alias text.value
    eval_node row function text (fields l u b no_call c s x) =
        m.atom function text (fields l u b no_call c s x)
    eval_node row function text (fields l u b (function_call name es d w) c s x) =
        m.call name (eval_all row es) d (eval_window row w) text.collation
    eval_node row binary_type text (fields l u no_binary f c s x) =
        m.atom binary_type text (fields l u no_binary f c s x)
    eval_node row binary_type text (fields l u (binary e op e') f c s x) =
        m.apply_binary (eval row e) op (eval row e') text.collation
    eval_node row unary_type text (fields l no_unary b f c s x) =
        m.atom unary_type text (fields l no_unary b f c s x)
    eval_node row unary_type text (fields l (unary op e) b f c s x) =
        m.apply_unary op (eval row e) text.collation
    eval_node row list_type text (fields no_list u b f c s x) =
        m.atom list_type text (fields no_list u b f c s x)
    eval_node row list_type text (fields (list es) u b f c s x) =
        m.of_values (eval_all row es) text.collation
    eval_node row case_type text (fields l u b f no_case s x) =
        m.atom case_type text (fields l u b f no_case s x)
    eval_node row case_type text (fields l u b f (case_expression e whens e') s x) =
        m.choose (eval row e) (eval_whens row whens) (eval row e') text.collation
    eval_node row exists_type text fs = m.atom exists_type text fs
    eval_node row subquery_type text fs = m.atom subquery_type text fs
    eval_node row literal text fs = m.atom literal text fs
    eval_node row parameter text fs = m.atom parameter text fs
    eval_node row star text fs = m.atom star text fs
    eval_node row cast_type text fs = m.atom cast_type text fs

    pub eval_window : Row V → WindowSpecification → Option (OverValue V)
    eval_window row no_window = none
    eval_window row (over partition_by order_by fr) = some (record {
      partition_by = eval_all row partition_by;
      order_by = eval_items row order_by;
      frame_value = eval_frame row fr;
    })

    pub eval_items : Row V → OrderByItems → List (V × Bytes × Bytes)
    eval_items row no_items = []
    eval_items row (then_by (order_by_item e direction nulls) items) =
        (eval row e, direction, nulls) ∷ eval_items row items

    pub eval_frame : Row V → FrameClause → Option (Bytes × BoundValue V × BoundValue V)
    eval_frame row no_frame = none
    eval_frame row (frame unit start end_) = some (unit, eval_bound row start, eval_bound row end_)

    pub eval_bound : Row V → FrameBound → BoundValue V
    eval_bound row no_bound = none
    eval_bound row (bound type offset) = some (type, eval row offset)

    pub eval_all : Row V → Exprs → List V
    eval_all row end = []
    eval_all row (also e es) = eval row e ∷ eval_all row es

    pub eval_whens : Row V → WhenClauses → List (V × V)
    eval_whens row no_more = []
    eval_whens row (when e e' whens) = (eval row e, eval row e') ∷ eval_whens row whens

  -- The row of the subquery's result, under the name `alias`: a column that the map defines has the
  -- value of its definition in the row that the subquery reads.
  abbrev pub or_row : Row V → Option Expr → Row V
  or_row row none table name = row table name
  or_row row (some e) table name = eval row e

  abbrev pub projected : AliasMap → Bytes → Row V → Row V
  projected aliases alias row table name =
      or_row row (if bytes_eq table alias || bytes_eq table [] then find aliases name else none)
        table name
