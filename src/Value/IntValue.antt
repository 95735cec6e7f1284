-- ===== src/Value/IntValue.antt =====
-- IntValue's arithmetic and comparisons (internal/value.go).
use go_zetasqlite.Prelude.{Bool, Option, if◌then◌else◌}
use go_zetasqlite.Prelude.Int.{ℤ, pos, eqb_ℤ, ltb_ℤ, leb_ℤ}
use go_zetasqlite.Int64
use go_zetasqlite.Result.{Result, ok, err, convert_failed, zero_divided, rewrap, ◌>>=◌}
use go_zetasqlite.Value.{Value, int, call, Comparison, eq, gt, gte, lt, lte}
use go_zetasqlite.Value.Convert.{to_int64}

unfoldable pub add : ℤ → Option Value → Result Value
add iv v = do v2 ← call v to_int64; ok (int (Int64.add iv v2))

unfoldable pub sub : ℤ → Option Value → Result Value
sub iv v = do v2 ← call v to_int64; ok (int (Int64.sub iv v2))

unfoldable pub mul : ℤ → Option Value → Result Value
mul iv v = do v2 ← call v to_int64; ok (int (Int64.mul iv v2))

unfoldable pub div : ℤ → Option Value → Result Value
div iv v = do
  v2 ← call v to_int64
  if eqb_ℤ v2 (pos 0) then err zero_divided else ok (int (Int64.quot iv v2))

unfoldable pub holds : Comparison → ℤ → ℤ → Bool
holds eq a b = eqb_ℤ a b
holds gt a b = ltb_ℤ b a
holds gte a b = leb_ℤ b a
holds lt a b = ltb_ℤ a b
holds lte a b = leb_ℤ a b

-- The methods EQ, GT, GTE, LT and LTE.
unfoldable pub compare : Comparison → ℤ → Option Value → Result Bool
unfolding holds
compare op iv v = do v2 ← rewrap convert_failed (call v to_int64); ok (holds op iv v2)
