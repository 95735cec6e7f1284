-- ===== src/Function/Access/Safe.antt =====
-- How the four functions for array access relate (internal/function.go).
use go_zetasqlite.Prelude.{
  ℕ, zero, suc, ◌<◌, ◌≡◌, refl, sym, Bool, true, false, Option, none, some, List, [], ◌∷◌, length,
  get_elem?, arith, if◌then◌else◌,
}
use go_zetasqlite.Prelude.Int.{ℤ, pos, negsuc, ltb_ℤ, leb_ℤ, ◌-ℤ◌}
use go_zetasqlite.Result.{ok, err, panic, out_of_fuel, out_of_range}
use go_zetasqlite.Value.{Value, int, string, bytes, bool, array, Elems, to_list}
use go_zetasqlite.Value.Convert.{to_array}
use go_zetasqlite.Function.Operators.{Answer}
use go_zetasqlite.Function.Access.{at, array_offset, array_safe_offset, array_ordinal}

-- The SAFE view of an outcome: the error for an index out of range becomes null.
abbrev pub safe : Answer → Answer
safe (ok v) = ok v
safe (err out_of_range) = ok none
safe (err e) = err e
safe panic = panic
safe out_of_fuel = out_of_fuel

at-in_range :
    (xs : List (Option Value)) (i : ℕ) → i < length xs → (v : Option Value) × (at xs (pos i) ≡ ok v)
unfolding at
at-in_range [] i h = elim h [ ]
at-in_range (x ∷ xs) zero h = (x, refl)
at-in_range (x ∷ xs) (suc i) h = at-in_range xs i (omega arith)

ordinal_test : (idx : ℤ) → ltb_ℤ idx (pos 1) ≡ ltb_ℤ (idx -ℤ pos 1) (pos 0)
unfolding ◌-ℤ◌
ordinal_test (pos i) = ground arith
ordinal_test (negsuc i) = ground arith

ordinal_bound : (n : ℕ) (idx : ℤ) → ltb_ℤ (pos n) idx ≡ leb_ℤ (pos n) (idx -ℤ pos 1)
unfolding ◌-ℤ◌
ordinal_bound n (pos i) = ground arith
ordinal_bound n (negsuc i) = ground arith

-- ORDINAL(idx) is OFFSET(idx - 1), for every value and index, errors and panics included.
pub ordinal-offset :
    (v : Option Value) (idx : ℤ) → array_ordinal v idx ≡ array_offset v (idx -ℤ pos 1)
unfolding array_ordinal array_offset
ordinal-offset v idx = simp (ordinal_test idx, ordinal_bound)

safe-at : (xs : List (Option Value)) (idx : ℤ) → safe (at xs idx) ≡ at xs idx
unfolding at
safe-at xs (negsuc i) = refl
safe-at xs (pos i) = ground arith

safe_guard :
    (xs : List (Option Value)) (idx : ℤ) (b c : Bool)
    → (if b then ok none else if c then ok none else at xs idx)
      ≡ safe (if b then err out_of_range else if c then err out_of_range else at xs idx)
safe_guard xs idx true c = refl
safe_guard xs idx false true = refl
safe_guard xs idx false false = sym (safe-at xs idx)

safe_nil :
    (b : Bool)
    → ◌≡◌ {A = Answer} (if b then ok none else panic) (safe (if b then err out_of_range else panic))
safe_nil true = refl
safe_nil false = refl

-- SAFE_OFFSET gives what OFFSET gives, other errors and panics included, except that null stands
-- for the error for an index out of range.
pub safe_offset-offset :
    (v : Option Value) (idx : ℤ) → array_safe_offset v idx ≡ safe (array_offset v idx)
unfolding array_safe_offset array_offset to_array
safe_offset-offset none idx = refl
safe_offset-offset (some (array xs)) idx = safe_guard (to_list xs) idx _ _
safe_offset-offset (some (string [])) idx = safe_nil _
safe_offset-offset (some (string (c ∷ s))) idx = refl
safe_offset-offset (some (int z)) idx = refl
safe_offset-offset (some (bytes s)) idx = refl
safe_offset-offset (some (bool b)) idx = refl

offset_in_list :
    (xs : List (Option Value)) (i : ℕ)
    → (if leb_ℤ (pos (length xs)) (pos i) then err out_of_range else at xs (pos i))
      ≡ elim (get_elem? xs i) [ none ↦ err out_of_range | some v ↦ ok v ]
unfolding at
offset_in_list [] i = ground arith
offset_in_list (x ∷ xs) zero = ground arith
offset_in_list (x ∷ xs) (suc i) = ground (arith, offset_in_list xs i)

-- OFFSET at an index of 0 or more is the array's element at that index, and the error for an index
-- out of range if there is none.
pub offset-get_elem? :
    (xs : Elems) (i : ℕ)
    → array_offset (some (array xs)) (pos i)
      ≡ elim (get_elem? (to_list xs) i) [ none ↦ err out_of_range | some v ↦ ok v ]
unfolding array_offset to_array
offset-get_elem? xs i = ground (arith, offset_in_list (to_list xs) i)
