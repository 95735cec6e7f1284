-- ===== src/Value/BoolValue.antt =====
-- BoolValue's methods (internal/value.go): equality alone is supported.
use go_zetasqlite.Prelude.{Bool, true, false, not, Option}
use go_zetasqlite.Result.{Result, ok, err, convert_failed, unsupported, rewrap, ◌>>=◌}
use go_zetasqlite.Value.{Value, call, Comparison, eq}
use go_zetasqlite.Value.Convert.{to_bool}

abbrev pub same : Bool → Bool → Bool
same true b = b
same false b = not b

-- Add, Sub, Mul and Div
unfoldable pub no_arithmetic : Bool → Option Value → Result Value
no_arithmetic bv v = err unsupported

-- The methods EQ, GT, GTE, LT and LTE.
unfoldable pub compare : Comparison → Bool → Option Value → Result Bool
compare eq bv v = do v2 ← rewrap convert_failed (call v to_bool); ok (same bv v2)
compare op bv v = err unsupported
