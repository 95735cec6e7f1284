-- ===== src/Function/Access.antt =====
-- Array element access: ARRAY_OFFSET, ARRAY_ORDINAL and their SAFE forms (internal/function.go).
pub mod Safe
use go_zetasqlite.Prelude.{Option, none, some, List, length, get_elem?, if◌then◌else◌}
use go_zetasqlite.Prelude.Int.{ℤ, pos, negsuc, ltb_ℤ, leb_ℤ, ◌-ℤ◌}
use go_zetasqlite.Result.{Result, ok, err, panic, out_of_range, ◌>>=◌}
use go_zetasqlite.Value.{Value, Elems, to_list, call}
use go_zetasqlite.Value.Convert.{to_array}
use go_zetasqlite.Function.Operators.{Answer}

-- `array.values`: a nil *ArrayValue panics.
unfoldable pub values : Option Elems → Result (List (Option Value))
unfolding to_list
values none = panic
values (some xs) = ok (to_list xs)

-- `values[idx]`
unfoldable pub at : List (Option Value) → ℤ → Answer
at xs (pos i) = elim (get_elem? xs i) [ none ↦ panic | some v ↦ ok v ]
at xs (negsuc i) = panic

unfoldable pub array_offset : Option Value → ℤ → Answer
unfolding values at
array_offset v idx = do
  array ← call v to_array
  if ltb_ℤ idx (pos 0)
      then err out_of_range
      else do xs ← values array; if leb_ℤ (pos (length xs)) idx then err out_of_range else at xs idx

unfoldable pub array_safe_offset : Option Value → ℤ → Answer
unfolding values at
array_safe_offset v idx = do
  array ← call v to_array
  if ltb_ℤ idx (pos 0)
      then ok none
      else do xs ← values array; if leb_ℤ (pos (length xs)) idx then ok none else at xs idx

unfoldable pub array_ordinal : Option Value → ℤ → Answer
unfolding values at
array_ordinal v idx = do
  array ← call v to_array
  if ltb_ℤ idx (pos 1) then err out_of_range else do
    xs ← values array
    if ltb_ℤ (pos (length xs)) idx then err out_of_range else at xs (idx -ℤ pos 1)

unfoldable pub array_safe_ordinal : Option Value → ℤ → Answer
unfolding values at
array_safe_ordinal v idx = do
  array ← call v to_array
  if ltb_ℤ idx (pos 1) then ok none else do
    xs ← values array
    if ltb_ℤ (pos (length xs)) idx then ok none else at xs (idx -ℤ pos 1)
