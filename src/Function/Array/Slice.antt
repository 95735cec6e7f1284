-- ===== src/Function/Array/Slice.antt =====
-- The bounds of ARRAY_SLICE (internal/function_array.go).
use go_zetasqlite.Prelude.{
  ℕ, zero, suc, ◌-◌, ◌≤◌, ◌<◌, ◌≡◌, refl, ap, ◌⊎◌, Option, List, [], ◌∷◌, length, take, drop, arith,
  length-drop, if◌then◌else◌,
}
use go_zetasqlite.Prelude.Int.{ℤ, pos, negsuc, ltb_ℤ, leb_ℤ, ◌+ℤ◌, ◌-ℤ◌}
use go_zetasqlite.Result.{ok}
use go_zetasqlite.Value.{Value}
use go_zetasqlite.Function.Array.{clamped_slice, array_slice}

-- The position of an offset in an array of `n` elements, where a negative offset counts from the
-- end and stops at the start.
abbrev pub first_position : ℕ → ℤ → ℕ
first_position n (pos i) = i
first_position n (negsuc i) = n - suc i

-- The position behind the one of an offset.
abbrev pub position_after : ℕ → ℤ → ℕ
position_after n (pos i) = suc i
position_after n (negsuc i) = n - i

abbrev empty {ℓ} : {A : Type ℓ} → List A
empty = []

module _ {ℓ} {A : Type ℓ} where
  drop-all : (n : ℕ) (xs : List A) → length xs ≤ n → drop n xs ≡ []
  drop-all zero [] h = refl
  drop-all zero (x ∷ xs) h = absurd (omega arith)
  drop-all (suc n) [] h = refl
  drop-all (suc n) (x ∷ xs) h = drop-all n xs (omega arith)

  take-all : (n m : ℕ) (xs : List A) → length xs ≤ n → length xs ≤ m → take n xs ≡ take m xs
  take-all zero zero xs h k = refl
  take-all zero (suc m) [] h k = refl
  take-all (suc n) zero [] h k = refl
  take-all zero (suc m) (x ∷ xs) h k = absurd (omega arith)
  take-all (suc n) zero (x ∷ xs) h k = absurd (omega arith)
  take-all (suc n) (suc m) [] h k = refl
  take-all (suc n) (suc m) (x ∷ xs) h k =
      ap (λ r. x ∷ r) (take-all n m xs (omega arith) (omega arith))

  take-nil : (n : ℕ) → take n (empty {A = A}) ≡ []
  take-nil zero = refl
  take-nil (suc n) = refl

  take-drop-all : (k lo : ℕ) (xs : List A) → length xs ≤ lo → take k (drop lo xs) ≡ []
  take-drop-all k lo xs h = rw (drop-all lo xs h) (take-nil k)

-- `e` is the last position to read, none if it is negative, where the positions below `m` are
-- wanted from an array of `n` elements.
abbrev Ends : ℕ → ℤ → ℕ → Type 0
Ends n (pos hi) m = (hi < n) × ((m ≡ suc hi) ⊎ ((suc hi ≡ n) × (n ≤ m)))
Ends n (negsuc k) m = (m ≡ 0) ⊎ (n ≡ 0)

clamped_slice_lem :
    (xs : List (Option Value)) (lo : ℕ) (e : ℤ) (m : ℕ)
    → Ends (length xs) e m
    → clamped_slice xs (pos lo) e ≡ ok (take (m - lo) (drop lo xs))
unfolding clamped_slice ◌+ℤ◌
clamped_slice_lem xs lo (negsuc k) m h = ground (arith, take-drop-all (m - lo) lo xs)
clamped_slice_lem xs lo (pos hi) m (below, h) = ground (
  arith,
  take-drop-all (m - lo) lo xs,
  take-all (m - lo) (suc hi - lo) (drop lo xs),
  length-drop lo xs,
)

start_lem :
    (n : ℕ) (s : ℤ)
    → (let start = if ltb_ℤ s (pos 0) then pos n +ℤ s else s in
        if ltb_ℤ start (pos 0) then pos 0 else start)
      ≡ pos (first_position n s)
unfolding ◌+ℤ◌
start_lem n (pos i) = ground arith
start_lem n (negsuc i) = ground arith

abbrev last_read : ℕ → ℤ → ℤ
last_read n e =
    let end_ = if ltb_ℤ e (pos 0) then pos n +ℤ e else e in
    if leb_ℤ (pos n) end_ then pos n -ℤ pos 1 else end_

end_lem : (n : ℕ) (e last : ℤ) → last_read n e ≡ last → Ends n last (position_after n e)
unfolding ◌+ℤ◌ ◌-ℤ◌
end_lem n (pos i) (pos hi) h = ground arith
end_lem n (pos i) (negsuc k) h = ground arith
end_lem n (negsuc i) (pos hi) h = ground arith
end_lem n (negsuc i) (negsuc k) h = ground arith

-- ARRAY_SLICE returns the elements from the start offset up to and including the end offset, where
-- a negative offset counts from the end of the array and offsets outside it are cut to it. For all
-- offsets there is a result: no slice expression is out of bounds.
pub array_slice_lem :
    (xs : List (Option Value)) (s e : ℤ)
    → array_slice xs s e
      ≡ ok (
          take
            (position_after (length xs) e - first_position (length xs) s)
            (drop (first_position (length xs) s) xs))
unfolding array_slice
array_slice_lem xs s e =
    rw (start_lem (length xs) s)
      (clamped_slice_lem xs _ (last_read (length xs) e) _ (end_lem (length xs) e _ refl))
