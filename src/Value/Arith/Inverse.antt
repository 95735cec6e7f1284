-- ===== src/Value/Arith/Inverse.antt =====
-- Addition and subtraction of INT64 values in turn.
use go_zetasqlite.Prelude.{◌≡◌, some}
use go_zetasqlite.Prelude.Int.{ℤ}
use go_zetasqlite.Prelude.Bytes.{Bytes}
use go_zetasqlite.Int64.{IsInt64}
use go_zetasqlite.Int64.Ring.{sub-add}
use go_zetasqlite.Result.{ok, ◌>>=◌}
use go_zetasqlite.Value.{int}
use go_zetasqlite.Value.Convert.{to_int64}
use go_zetasqlite.Value.IntValue
use go_zetasqlite.Value.Arith

module _ (quote : Bytes → Bytes) where
  -- Adding an INT64 value and subtracting it again gives the first one back, also when the sum
  -- overflows.
  pub sub-add_value :
      (a b : ℤ)
      → IsInt64 a
      → (Arith.add quote (int a) (some (int b)) >>= λ v. Arith.sub v (some (int b))) ≡ ok (int a)
  unfolding Arith.add Arith.sub IntValue.add IntValue.sub to_int64
  sub-add_value a b h = rw (sub-add a b h)
