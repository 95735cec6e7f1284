-- ===== src/Function/Array.antt =====
-- internal/function_array.go: ARRAY_CONCAT, ARRAY_FIRST, ARRAY_LAST, ARRAY_SLICE, ARRAY_LENGTH,
-- ARRAY_REVERSE and GENERATE_ARRAY, with the checks of internal/function_bind.go.
pub mod Slice
pub mod Generate
pub mod Order
use go_zetasqlite.Prelude.{
  ℕ, zero, suc, ◌+◌, ◌-◌, Bool, true, false, not, ◌&&◌, ◌||◌, Option, none, some, List, [], ◌∷◌,
  ◌++◌, length, take, drop, leb, if◌then◌else◌,
}
use go_zetasqlite.Prelude.Int.{ℤ, pos, negsuc, ltb_ℤ, leb_ℤ, ◌+ℤ◌, ◌-ℤ◌}
use go_zetasqlite.Prelude.Bytes.{Bytes}
use go_zetasqlite.Result.{Result, ok, err, panic, out_of_fuel, out_of_range, argument_num, ◌>>=◌}
use go_zetasqlite.Value.{Value, int, array, to_list, of_list, call, Comparison, gt, gte, lte}
use go_zetasqlite.Value.Convert.{to_array, to_int64}
use go_zetasqlite.Value.Compare
use go_zetasqlite.Value.Arith
use go_zetasqlite.Function.Operators.{Answer, answer, exists_null}
use go_zetasqlite.Function.Access.{values, at}

-- `&ArrayValue{values: xs}`
abbrev pub make_array : List (Option Value) → Value
make_array xs = array (of_list xs)

unfoldable pub concat_loop : List (Option Value) → List (Option Value) → Answer
unfolding values
concat_loop acc [] = answer (make_array acc)
concat_loop acc (arg ∷ args) = do
  subarr ← call arg to_array
  xs ← values subarr
  concat_loop (acc ++ xs) args

unfoldable pub array_concat : List (Option Value) → Answer
unfolding concat_loop
array_concat args = concat_loop [] args

unfoldable pub array_first : List (Option Value) → Answer
unfolding at
array_first xs = at xs (pos 0)

unfoldable pub array_last : List (Option Value) → Answer
unfolding at
array_last xs = at xs (pos (length xs) -ℤ pos 1)

-- bindArrayFirst and bindArrayLast, on one argument: null gives null, an empty array an error.
unfoldable pub bind_array_first : Option Value → Answer
unfolding values array_first
bind_array_first none = ok none
bind_array_first (some v) = do
  arr ← to_array v
  xs ← values arr
  elim xs [ [] ↦ err out_of_range | x ∷ rest ↦ array_first (x ∷ rest) ]

unfoldable pub bind_array_last : Option Value → Answer
unfolding values array_last
bind_array_last none = ok none
bind_array_last (some v) = do
  arr ← to_array v
  xs ← values arr
  elim xs [ [] ↦ err out_of_range | x ∷ rest ↦ array_last (x ∷ rest) ]

-- The Go expression `xs[lo:hi]`, which panics unless 0 <= lo <= hi <= len(xs).
unfoldable pub go_slice : List (Option Value) → ℤ → ℤ → Result (List (Option Value))
go_slice xs (pos lo) (pos hi) =
    if leb lo hi && leb hi (length xs) then ok (take (hi - lo) (drop lo xs)) else panic
go_slice xs lo hi = panic

unfoldable pub clamped_slice : List (Option Value) → ℤ → ℤ → Result (List (Option Value))
unfolding go_slice
clamped_slice xs start end_ =
    if ltb_ℤ end_ start || leb_ℤ (pos (length xs)) start
    then ok []
    else go_slice xs start (end_ +ℤ pos 1)

unfoldable pub array_slice : List (Option Value) → ℤ → ℤ → Result (List (Option Value))
unfolding clamped_slice
array_slice xs start_offset end_offset =
    let arr_len = pos (length xs) in
    let start = if ltb_ℤ start_offset (pos 0) then arr_len +ℤ start_offset else start_offset in
    let end_ = if ltb_ℤ end_offset (pos 0) then arr_len +ℤ end_offset else end_offset in
    clamped_slice xs (if ltb_ℤ start (pos 0) then pos 0 else start)
      (if leb_ℤ arr_len end_ then arr_len -ℤ pos 1 else end_)

unfoldable pub array_length : List (Option Value) → Answer
array_length xs = answer (int (pos (length xs)))

-- `for i := len(v.values) - 1; i >= 0; i--`, with `i + 1` rounds left.
unfoldable pub reverse_loop :
    List (Option Value) → ℕ → List (Option Value) → Result (List (Option Value))
unfolding at
reverse_loop xs zero ret = ok ret
reverse_loop xs (suc i) ret = do v ← at xs (pos i); reverse_loop xs i (ret ++ v ∷ [])

unfoldable pub array_reverse : List (Option Value) → Answer
unfolding reverse_loop
array_reverse xs = do ret ← reverse_loop xs (length xs) []; answer (make_array ret)

module _ (quote : Bytes → Bytes) where
  -- The loop of generateArray, with fuel. `going_up` is `isLT`.
  unfoldable pub generate_loop :
      ℕ → Bool → Option Value → Option Value → List (Option Value) → Value → Answer
  generate_loop zero going_up end_ step acc cur = out_of_fuel
  generate_loop (suc fuel) going_up end_ step acc cur = do
    after ← Arith.add quote cur step
    cond ← Compare.compare quote (if going_up then lte else gte) after end_
    elim cond [
      | true ↦ generate_loop fuel going_up end_ step (acc ++ some cur ∷ []) after
      | false ↦ answer (make_array (acc ++ some cur ∷ []))
    ]

  unfoldable pub generate_array : ℕ → Option Value → Option Value → Option Value → Answer
  unfolding generate_loop
  generate_array fuel (some start) (some end_) (some step) = do
    is_lt ← Compare.compare quote lte start (some end_)
    is_positive ← Compare.compare quote gt step (some (int (pos 0)))
    if is_lt && not is_positive || not is_lt && is_positive
        then answer (make_array [])
        else generate_loop fuel is_lt (some end_) (some step) [] start
  generate_array fuel start end_ step = ok none

  -- GENERATE_ARRAY with the checks of bindGenerateArray: two or three arguments, and an empty array
  -- if one of them is null.
  unfoldable pub bind_generate_array : ℕ → List (Option Value) → Answer
  unfolding generate_array exists_null
  bind_generate_array fuel (start ∷ end_ ∷ []) =
      if exists_null (start ∷ end_ ∷ [])
      then answer (make_array [])
      else generate_array fuel start end_ (some (int (pos 1)))
  bind_generate_array fuel (start ∷ end_ ∷ step ∷ []) =
      if exists_null (start ∷ end_ ∷ step ∷ [])
      then answer (make_array [])
      else generate_array fuel start end_ step
  bind_generate_array fuel args = err argument_num
