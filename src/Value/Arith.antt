-- ===== src/Value/Arith.antt =====
-- The arithmetic methods by dynamic type (internal/value.go).
pub mod Inverse
use go_zetasqlite.Prelude.{Option}
use go_zetasqlite.Prelude.Bytes.{Bytes}
use go_zetasqlite.Result.{Result, err, unsupported}
use go_zetasqlite.Value.{Value, int, string, bytes, bool, array}
use go_zetasqlite.Value.IntValue
use go_zetasqlite.Value.StringValue
use go_zetasqlite.Value.BytesValue
use go_zetasqlite.Value.BoolValue

module _ (quote : Bytes → Bytes) where
  -- r.Add(v)
  unfoldable pub add : Value → Option Value → Result Value
  add (int z) v = IntValue.add z v
  add (string s) v = StringValue.add quote s v
  add (bytes s) v = BytesValue.add quote s v
  add (bool b) v = BoolValue.no_arithmetic b v
  add (array xs) v = err unsupported

-- r.Sub(v)
unfoldable pub sub : Value → Option Value → Result Value
sub (int z) v = IntValue.sub z v
sub (string s) v = StringValue.no_arithmetic s v
sub (bytes s) v = BytesValue.no_arithmetic s v
sub (bool b) v = BoolValue.no_arithmetic b v
sub (array xs) v = err unsupported

-- r.Mul(v)
unfoldable pub mul : Value → Option Value → Result Value
mul (int z) v = IntValue.mul z v
mul (string s) v = StringValue.no_arithmetic s v
mul (bytes s) v = BytesValue.no_arithmetic s v
mul (bool b) v = BoolValue.no_arithmetic b v
mul (array xs) v = err unsupported

-- r.Div(v)
unfoldable pub div : Value → Option Value → Result Value
div (int z) v = IntValue.div z v
div (string s) v = StringValue.no_arithmetic s v
div (bytes s) v = BytesValue.no_arithmetic s v
div (bool b) v = BoolValue.no_arithmetic b v
div (array xs) v = err unsupported
