-- ===== src/Window/Fold.antt =====
-- internal/function_window.go: the window functions that pass over the relevant values of the
-- frame: ANY_VALUE, ARRAY_AGG, COUNT, COUNTIF, MAX, MIN, STRING_AGG, SUM, LOGICAL_AND, LOGICAL_OR.
use go_zetasqlite.Prelude.{
  true, false, Option, none, some, List, [], ◌∷◌, ◌++◌, length, if◌then◌else◌,
}
use go_zetasqlite.Prelude.Int.{ℤ, pos}
use go_zetasqlite.Prelude.Bytes.{Bytes, codes, join}
use go_zetasqlite.Int64
use go_zetasqlite.Result.{Result, ok, err, panic, out_of_fuel, ◌>>=◌}
use go_zetasqlite.Value.{Value, int, string, bool, array, of_list, call, Comparison, gt, lt}
use go_zetasqlite.Value.Convert.{to_bool, to_string}
use go_zetasqlite.Value.Compare
use go_zetasqlite.Value.Arith
use go_zetasqlite.Function.Operators.{Answer, answer}
use go_zetasqlite.Window.Status.{Status, relevant_values}

unfoldable pub any_value : Status → Answer
any_value agg = elim agg.values [ [] ↦ ok none | v ∷ vs ↦ ok v ]

-- WINDOW_COUNT.Step: null is not counted. The argument list is that of the call.
unfoldable pub count_step : List (Option Value) → Status → Status
count_step [] agg = agg
count_step (none ∷ rest) agg = agg
count_step (some v ∷ rest) agg = record agg { values = agg.values ++ some v ∷ [] }

-- WINDOW_ROW_NUMBER
unfoldable pub row_number : Status → Answer
row_number agg = answer (int (pos (length agg.values)))

unfoldable pub countif_loop : ℤ → List (Option Value) → Answer
countif_loop count [] = answer (int count)
countif_loop count (none ∷ vs) = countif_loop count vs
countif_loop count (some v ∷ vs) = do
  cond ← to_bool v
  countif_loop (if cond then Int64.add count (pos 1) else count) vs

unfoldable pub logical_and_loop : List (Option Value) → Answer
logical_and_loop [] = answer (bool true)
logical_and_loop (cond ∷ vs) = do
  b ← call cond to_bool
  if b then logical_and_loop vs else answer (bool false)

unfoldable pub logical_or_loop : List (Option Value) → Answer
logical_or_loop [] = answer (bool false)
logical_or_loop (cond ∷ vs) = do
  b ← call cond to_bool
  if b then answer (bool true) else logical_or_loop vs

module _ (quote : Bytes → Bytes) where
  -- The error of RelevantValues is dropped, and its nil slice is used.
  unfoldable pub array_agg : Status → Answer
  array_agg agg = elim (relevant_values quote agg) [
    | ok vs ↦ answer (array (of_list vs))
    | err e ↦ answer (array (of_list []))
    | panic ↦ panic
    | out_of_fuel ↦ out_of_fuel
  ]

  -- WINDOW_COUNT, WINDOW_COUNT_STAR and WINDOW_RANK have the same Done.
  unfoldable pub count : Status → Answer
  count agg = do values ← relevant_values quote agg; answer (int (pos (length values)))

  unfoldable pub countif : Status → Answer
  unfolding countif_loop
  countif agg = do values ← relevant_values quote agg; countif_loop (pos 0) values

  -- The loops of MAX (with GT) and MIN (with LT).
  unfoldable pub extremum_loop : Comparison → Option Value → List (Option Value) → Answer
  extremum_loop op best [] = ok best
  extremum_loop op best (none ∷ vs) = extremum_loop op best vs
  extremum_loop op none (some v ∷ vs) = extremum_loop op (some v) vs
  extremum_loop op (some best) (some v ∷ vs) = do
    cond ← Compare.compare quote op v (some best)
    extremum_loop op (some (if cond then v else best)) vs

  unfoldable pub window_max : Status → Answer
  unfolding extremum_loop
  window_max agg = do values ← relevant_values quote agg; extremum_loop gt none values

  unfoldable pub window_min : Status → Answer
  unfolding extremum_loop
  window_min agg = do values ← relevant_values quote agg; extremum_loop lt none values

  unfoldable pub strings_loop : List Bytes → List (Option Value) → Result (List Bytes)
  strings_loop texts [] = ok texts
  strings_loop texts (none ∷ vs) = strings_loop texts vs
  strings_loop texts (some v ∷ vs) = do
    text ← to_string quote v
    strings_loop (texts ++ text ∷ []) vs

  -- The delimiter that WINDOW_STRING_AGG.ParseArguments finds.
  unfoldable pub string_agg_delim : List (Option Value) → Result Bytes
  string_agg_delim (v ∷ d ∷ rest) = call d (to_string quote)
  string_agg_delim args = ok (codes ",")

  unfoldable pub string_agg : Bytes → Status → Answer
  unfolding strings_loop
  string_agg delim agg = do
    values ← relevant_values quote agg
    texts ← strings_loop [] values
    elim texts [ [] ↦ ok none | t ∷ ts ↦ answer (string (join delim (t ∷ ts))) ]

  unfoldable pub sum_loop : Option Value → List (Option Value) → Answer
  sum_loop sum [] = ok sum
  sum_loop sum (none ∷ vs) = sum_loop sum vs
  sum_loop none (some v ∷ vs) = sum_loop (some v) vs
  sum_loop (some s) (some v ∷ vs) = do added ← Arith.add quote s (some v); sum_loop (some added) vs

  unfoldable pub window_sum : Status → Answer
  unfolding sum_loop
  window_sum agg = do values ← relevant_values quote agg; sum_loop none values

  unfoldable pub logical_and : Status → Answer
  unfolding logical_and_loop
  logical_and agg = do values ← relevant_values quote agg; logical_and_loop values

  unfoldable pub logical_or : Status → Answer
  unfolding logical_or_loop
  logical_or agg = do values ← relevant_values quote agg; logical_or_loop values
