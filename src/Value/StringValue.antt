-- ===== src/Value/StringValue.antt =====
-- StringValue's concatenation and comparisons (internal/value.go).
use go_zetasqlite.Prelude.{Bool, not, Option, ◌++◌}
use go_zetasqlite.Prelude.Bytes.{Bytes, bytes_eq, bytes_lt}
use go_zetasqlite.Result.{Result, ok, err, convert_failed, unsupported, rewrap, ◌>>=◌}
use go_zetasqlite.Value.{Value, string, call, Comparison, eq, gt, gte, lt, lte}
use go_zetasqlite.Value.Convert.{to_string}

-- Go's `==`, `>`, `>=`, `<` and `<=` on strings.
unfoldable pub holds : Comparison → Bytes → Bytes → Bool
holds eq a b = bytes_eq a b
holds gt a b = bytes_lt b a
holds gte a b = not (bytes_lt a b)
holds lt a b = bytes_lt a b
holds lte a b = not (bytes_lt b a)

-- Sub, Mul and Div
unfoldable pub no_arithmetic : Bytes → Option Value → Result Value
no_arithmetic sv v = err unsupported

module _ (quote : Bytes → Bytes) where
  unfoldable pub add : Bytes → Option Value → Result Value
  add sv v = do v2 ← call v (to_string quote); ok (string (sv ++ v2))

  -- The methods EQ, GT, GTE, LT and LTE.
  unfoldable pub compare : Comparison → Bytes → Option Value → Result Bool
  unfolding holds
  compare op sv v = do v2 ← rewrap convert_failed (call v (to_string quote)); ok (holds op sv v2)
