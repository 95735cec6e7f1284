-- ===== src/Window/Offset.antt =====
-- internal/function_window.go: FIRST_VALUE, LAST_VALUE, NTH_VALUE, LEAD and LAG.
pub mod Mirror
use go_zetasqlite.Prelude.{ℕ, Option, none, some, List, [], ◌∷◌, length, if◌then◌else◌}
use go_zetasqlite.Prelude.Int.{ℤ, pos, ltb_ℤ, ◌-ℤ◌}
use go_zetasqlite.Prelude.Bytes.{Bytes}
use go_zetasqlite.Int64
use go_zetasqlite.Result.{
  Result, ok, err, panic, argument_num, null_argument, negative_offset, ◌>>=◌,
}
use go_zetasqlite.Value.{Value, call}
use go_zetasqlite.Value.Convert.{to_int64}
use go_zetasqlite.Function.Operators.{Answer}
use go_zetasqlite.Function.Access.{at}
use go_zetasqlite.Window.Status.{Status, relevant_values}

-- WINDOW_LEAD and WINDOW_LAG
pub record Shift : Type 0 where
  pub offset : ℤ
  pub default_value : Option Value

-- LEAD's and LAG's ParseArguments: at most three arguments, the offset 1 and the default null if
-- they are not given.
unfoldable pub parse_offset : Option Value → Result ℤ
parse_offset none = err null_argument
parse_offset (some arg) = do
  offset ← to_int64 arg
  if ltb_ℤ offset (pos 0) then err negative_offset else ok offset

unfoldable pub parse_shift : List (Option Value) → Result Shift
unfolding parse_offset
parse_shift [] = ok (record { offset = pos 1; default_value = none })
parse_shift (v ∷ []) = ok (record { offset = pos 1; default_value = none })
parse_shift (v ∷ o ∷ []) = do
  offset ← parse_offset o
  ok (record { offset = offset; default_value = none })
parse_shift (v ∷ o ∷ d ∷ []) = do
  offset ← parse_offset o
  ok (record { offset = offset; default_value = d })
parse_shift args = err argument_num

unfoldable pub lead : Shift → Status → Answer
unfolding at
lead f agg =
    if ltb_ℤ (pos (length agg.values) -ℤ pos 1) f.offset
    then ok f.default_value
    else at agg.values f.offset

unfoldable pub lag : Shift → Status → Answer
unfolding at
lag f agg =
    if ltb_ℤ (pos (length agg.values) -ℤ pos 1) f.offset
    then ok f.default_value
    else at agg.values (pos (length agg.values) -ℤ f.offset -ℤ pos 1)

-- NTH_VALUE's ParseArguments, which reads args[1].
unfoldable pub parse_nth : List (Option Value) → Result ℤ
parse_nth (v ∷ none ∷ rest) = err null_argument
parse_nth (v ∷ some n ∷ rest) = do n' ← to_int64 n; ok (Int64.sub n' (pos 1))
parse_nth args = panic

module _ (quote : Bytes → Bytes) where
  unfoldable pub first_value : Status → Answer
  first_value agg = do
    values ← relevant_values quote agg
    elim values [ [] ↦ ok none | v ∷ vs ↦ ok v ]

  unfoldable pub last_value : Status → Answer
  unfolding at
  last_value agg = do
    values ← relevant_values quote agg
    elim values [ [] ↦ ok none | v ∷ vs ↦ at (v ∷ vs) (pos (length (v ∷ vs)) -ℤ pos 1) ]

  unfoldable pub nth_value : ℤ → Status → Answer
  unfolding at
  nth_value n agg = do
    values ← relevant_values quote agg
    if ltb_ℤ (pos (length values) -ℤ pos 1) n then ok none else at values n
