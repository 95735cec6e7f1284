-- ===== src/Aggregate.antt =====
-- internal/function_aggregate.go: the aggregate functions as states with Step and Done. `rows` are
-- the values of the argument, none for NULL. internal/function_bind.go gives the initial states.
pub mod Options
pub mod Count
pub mod Logical
pub mod Extremum
pub mod Bits
pub mod Window
use go_zetasqlite.Prelude.{
  Bool, true, false, Option, none, some, List, [], ◌∷◌, ◌++◌, if◌then◌else◌,
}
use go_zetasqlite.Prelude.Int.{ℤ, pos, negsuc, eqb_ℤ}
use go_zetasqlite.Prelude.Bytes.{Bytes}
use go_zetasqlite.Int64
use go_zetasqlite.Result.{Result, ok, ◌>>=◌}
use go_zetasqlite.Value.{Value, int, bool, array, of_list, Comparison}
use go_zetasqlite.Value.Convert.{to_bool, to_int64}
use go_zetasqlite.Value.Compare
use go_zetasqlite.Value.Arith
use go_zetasqlite.Function.Operators.{Answer, answer}

-- SQLite calls Step once for each row, and stops at an error.
abbrev pub run {ℓ} :
    {S : Type ℓ} → (S → Option Value → Result S) → S → List (Option Value) → Result S
run step s [] = ok s
run step s (row ∷ rows) = do s' ← step s row; run step s' rows

-- COUNT_STAR
unfoldable pub count_star_step : ℤ → Option Value → Result ℤ
count_star_step count row = ok (Int64.add count (pos 1))

unfoldable pub count_star_done : ℤ → Answer
count_star_done count = answer (int count)

-- COUNT and COUNTIF keep a count that is nil before the first one.
unfoldable pub count_done : Option Value → Answer
count_done none = answer (int (pos 0))
count_done (some count) = answer count

-- LOGICAL_AND, which starts from true, and LOGICAL_OR, from false.
unfoldable pub logical_and_step : Bool → Option Value → Result Bool
logical_and_step v none = ok v
logical_and_step v (some cond) = do b ← to_bool cond; ok (if b then v else false)

unfoldable pub logical_or_step : Bool → Option Value → Result Bool
logical_or_step v none = ok v
logical_or_step v (some cond) = do b ← to_bool cond; ok (if b then true else v)

unfoldable pub logical_done : Bool → Answer
logical_done v = answer (bool v)

-- BIT_AND_AGG, which function_bind.go starts from -1.
unfoldable pub bit_and_step : Option Value → Option Value → Result (Option Value)
bit_and_step value none = ok value
bit_and_step none (some v) = do i64 ← to_int64 v; ok (some (int i64))
bit_and_step (some cur) (some v) = do
  i64 ← to_int64 v
  cur_i64 ← to_int64 cur
  ok (some (int (Int64.bitwise_and cur_i64 i64)))

-- BIT_OR_AGG starts from -1, and BIT_XOR_AGG from 1.
unfoldable pub bit_or_step : ℤ → Option Value → Result ℤ
bit_or_step value none = ok value
bit_or_step value (some v) = do
  i64 ← to_int64 v
  ok (if eqb_ℤ value (negsuc 0) then i64 else Int64.bitwise_or value i64)

unfoldable pub bit_xor_step : ℤ → Option Value → Result ℤ
bit_xor_step value none = ok value
bit_xor_step value (some v) = do
  i64 ← to_int64 v
  ok (if eqb_ℤ value (pos 1) then i64 else Int64.bitwise_xor value i64)

abbrev pub bit_or_start : ℤ
bit_or_start = negsuc 0

abbrev pub bit_xor_start : ℤ
bit_xor_start = pos 1

unfoldable pub bit_done : ℤ → Answer
bit_done value = answer (int value)

-- ARRAY, which keeps nulls.
unfoldable pub array_step : List (Option Value) → Option Value → Result (List (Option Value))
array_step values v = ok (values ++ v ∷ [])

unfoldable pub array_done : List (Option Value) → Answer
array_done values = answer (array (of_list values))

-- MAX and MIN
pub record Extreme : Type 0 where
  pub initialized : Bool
  pub best : Option Value

abbrev pub extreme_start : Extreme
extreme_start = record { initialized = false; best = none }

module _ (quote : Bytes → Bytes) where
  unfoldable pub count_step : Option Value → Option Value → Result (Option Value)
  count_step count none = ok count
  count_step none (some v) = ok (some (int (pos 1)))
  count_step (some count) (some v) = do
    added ← Arith.add quote count (some (int (pos 1)))
    ok (some added)

  unfoldable pub countif_step : Option Value → Option Value → Result (Option Value)
  countif_step count none = ok count
  countif_step none (some cond) = do b ← to_bool cond; ok (if b then some (int (pos 1)) else none)
  countif_step (some count) (some cond) = do
    b ← to_bool cond
    if b
        then (do added ← Arith.add quote count (some (int (pos 1))); ok (some added))
        else ok (some count)

  -- MAX.Step with `gt`, MIN.Step with `lt`.
  unfoldable pub extreme_test : Comparison → Value → Option Value → Result Bool
  extreme_test op v best = Compare.compare quote op v best

  unfoldable pub extreme_step : Comparison → Extreme → Option Value → Result Extreme
  unfolding extreme_test
  extreme_step op f none = ok f
  extreme_step op f (some v) =
      if f.initialized
      then (do cond ← extreme_test op v f.best; ok (if cond then record f { best = some v } else f))
      else ok (record { initialized = true; best = some v })

  unfoldable pub sum_step : Option Value → Option Value → Result (Option Value)
  sum_step sum none = ok sum
  sum_step none (some v) = ok (some v)
  sum_step (some sum) (some v) = do added ← Arith.add quote sum (some v); ok (some added)
