-- ===== src/Query/Environment.antt =====
-- What the transformers take from other parts of the program, or from Go: the encoding of literals
-- and types, the types' predicates, the current time, the
-- functions of the catalog, and the order in which Go runs through a map.
use go_zetasqlite.Prelude.{Bool, Option, List}
use go_zetasqlite.Prelude.Int.{ℤ}
use go_zetasqlite.Prelude.Bytes.{Bytes}
use go_zetasqlite.Result.{Result}
use go_zetasqlite.Value.{Value}
use go_zetasqlite.Flatten.{Expr}
use go_zetasqlite.Query.Data.{FunctionCallData}

-- `literal_from_value` is LiteralFromValue. `encoded_type` is the literal of a type's JSON.
-- `is_primitive_type` is the disjunction of IsInt32 … IsString. `current_time` gives the literal of
-- the current time where the function is in currentTimeFuncMap and the context has a time.
-- `call_sql` is CallSQL of the function's entry in funcMapFromContext.
pub record Environment : Type 0 where
  pub literal_from_value : Option Value → Result Bytes
  pub encoded_type : Bytes → Result Expr
  pub is_primitive_type : Bytes → Bool
  pub current_time : Bytes → Option (Result Expr)
  pub call_sql : Bytes → Option (FunctionCallData → List Expr → Result Expr)
  pub map_order : List (ℤ × Expr) → List (ℤ × Expr)
