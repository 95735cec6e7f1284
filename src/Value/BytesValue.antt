-- ===== src/Value/BytesValue.antt =====
-- BytesValue's concatenation and comparisons (internal/value.go).
use go_zetasqlite.Prelude.{Bool, Option, ◌++◌}
use go_zetasqlite.Prelude.Bytes.{Bytes}
use go_zetasqlite.Result.{Result, ok, err, convert_failed, unsupported, rewrap, ◌>>=◌}
use go_zetasqlite.Value.{Value, bytes, call, Comparison}
use go_zetasqlite.Value.Convert.{to_bytes}
use go_zetasqlite.Value.StringValue.{holds}

-- Sub, Mul and Div
unfoldable pub no_arithmetic : Bytes → Option Value → Result Value
no_arithmetic bv v = err unsupported

module _ (quote : Bytes → Bytes) where
  unfoldable pub add : Bytes → Option Value → Result Value
  add bv v = do v2 ← call v (to_bytes quote); ok (bytes (bv ++ v2))

  -- EQ is bytes.Equal; the orders compare the bytes as strings.
  unfoldable pub compare : Comparison → Bytes → Option Value → Result Bool
  unfolding holds
  compare op bv v = do v2 ← rewrap convert_failed (call v (to_bytes quote)); ok (holds op bv v2)
