-- ===== src/Window/Offset/Mirror.antt =====
-- LEAD and LAG on the frame and on the frame read backwards.
use mathlib.Core.List.{reverse, reverse-append}
use go_zetasqlite.Prelude.{
  ℕ, zero, suc, ◌+◌, ◌-◌, ◌≤◌, ◌<◌, ◌≡◌, refl, sym, ◌∙◌, Option, none, some, List, [], ◌∷◌, ◌++◌,
  length, length-append, arith, ltb, Bool-cases, inl, inr,
}
use go_zetasqlite.Prelude.Int.{ℤ, pos, negsuc, ltb_ℤ, ◌-ℤ◌, ◌≤ℤ◌}
use go_zetasqlite.Result.{ok, bind_parts}
use go_zetasqlite.Value.{Value}
use go_zetasqlite.Value.Convert.{to_int64}
use go_zetasqlite.Function.Access.{at}
use go_zetasqlite.Window.Status.{Status}
use go_zetasqlite.Window.Offset.{Shift, parse_shift, parse_offset, lead, lag}

-- The value `k` rows on, or the default beyond the last row.
abbrev pub get_or : List (Option Value) → ℕ → Option Value → Option Value
get_or [] k d = d
get_or (v ∷ vs) zero d = v
get_or (v ∷ vs) (suc k) d = get_or vs k d

at-get_or :
    (vs : List (Option Value)) (k : ℕ) (d : Option Value)
    → k < length vs
    → at vs (pos k) ≡ ok (get_or vs k d)
unfolding at
at-get_or [] k d h = elim h [ ]
at-get_or (v ∷ vs) zero d h = refl
at-get_or (v ∷ vs) (suc k) d h = at-get_or vs k d (omega arith)

get_or-beyond :
    (vs : List (Option Value)) (k : ℕ) (d : Option Value) → length vs ≤ k → get_or vs k d ≡ d
get_or-beyond [] k d h = refl
get_or-beyond (v ∷ vs) zero d h = absurd (omega arith)
get_or-beyond (v ∷ vs) (suc k) d h = get_or-beyond vs k d (omega arith)

shift_test : (n k : ℕ) → ltb_ℤ (pos n -ℤ pos 1) (pos k) ≡ ltb n (k + 1)
unfolding ◌-ℤ◌
shift_test n k = ground arith

-- LEAD with an offset of `k` is the value `k` rows after the first of the frame, and the default
-- beyond its end; it never fails or panics.
pub lead-get_or :
    (k : ℕ) (d : Option Value) (agg : Status)
    → lead (record { offset = pos k; default_value = d }) agg ≡ ok (get_or agg.values k d)
unfolding lead
lead-get_or k d agg = elim (Bool-cases (ltb (length agg.values) (k + 1))) [
  | inl e ↦
      rw (shift_test (length agg.values) k, e, get_or-beyond agg.values k d (ground (arith, e)))
  | inr e ↦ rw (shift_test (length agg.values) k, e, at-get_or agg.values k d (ground (arith, e)))
]

at-append_left :
    (xs ys : List (Option Value)) (k : ℕ) → k < length xs → at (xs ++ ys) (pos k) ≡ at xs (pos k)
unfolding at
at-append_left [] ys k h = elim h [ ]
at-append_left (x ∷ xs) ys zero h = refl
at-append_left (x ∷ xs) ys (suc k) h = at-append_left xs ys k (omega arith)

at-append_last :
    (xs : List (Option Value)) (x : Option Value) (k : ℕ)
    → k ≡ length xs
    → at (xs ++ x ∷ []) (pos k) ≡ ok x
unfolding at
at-append_last [] x zero h = refl
at-append_last [] x (suc k) h = absurd (omega arith)
at-append_last (y ∷ xs) x zero h = absurd (omega arith)
at-append_last (y ∷ xs) x (suc k) h = at-append_last xs x k (omega arith)

length-reverse : (xs : List (Option Value)) → length (reverse xs) ≡ length xs
length-reverse [] = refl
length-reverse (x ∷ xs) =
    rw (reverse-append (x ∷ []) xs)
      (omega (arith, length-append (reverse xs) (x ∷ []), length-reverse xs))

at-reverse :
    (xs : List (Option Value)) (k m : ℕ)
    → m + k + 1 ≡ length xs
    → at (reverse xs) (pos k) ≡ at xs (pos m)
at-reverse [] k m h = absurd (omega arith)
at-reverse (x ∷ xs) k zero h =
    rw
      (
        reverse-append (x ∷ []) xs,
        at-append_last (reverse xs) x k (omega (arith, length-reverse xs)),
      )
      (unfold at in refl)
at-reverse (x ∷ xs) k (suc m) h =
    rw
      (
        reverse-append (x ∷ []) xs,
        at-append_left (reverse xs) (x ∷ []) k (omega (arith, length-reverse xs)),
        at-reverse xs k m (omega arith),
      )
      (unfold at in refl)

lag_index : (n k : ℕ) → k < n → pos n -ℤ pos k -ℤ pos 1 ≡ pos (n - k - 1)
unfolding ◌-ℤ◌
lag_index n k h = ground arith

-- LAG with an offset of `k`, 0 or more, is LEAD with the same offset and default on the frame read
-- backwards.
pub lag-lead :
    (k : ℕ) (d : Option Value) (agg : Status)
    → lag (record { offset = pos k; default_value = d }) agg
      ≡ lead
          (record { offset = pos k; default_value = d })
          (record agg { values = reverse agg.values })
unfolding lag lead
lag-lead k d agg =
    let n = length agg.values in
    rw (shift_test n k, length-reverse agg.values, shift_test n k)
      (elim (Bool-cases (ltb n (k + 1))) [
        | inl e ↦ rw e
        | inr e ↦
            let lt : k < n = ground (arith, e) in
            rw (e, lag_index n k lt) (sym (at-reverse agg.values k (n - k - 1) (omega (arith, lt))))
      ])

parse_offset-nonneg : (o : Option Value) (z : ℤ) → parse_offset o ≡ ok z → pos 0 ≤ℤ z
unfolding parse_offset
parse_offset-nonneg none z h = cc
parse_offset-nonneg (some o) z h =
    let (w, read, checked) = bind_parts (to_int64 o) _ h in ground (arith, checked)

parse_shift-nonneg :
    (args : List (Option Value)) (f : Shift) → parse_shift args ≡ ok f → pos 0 ≤ℤ f.offset
unfolding parse_shift
parse_shift-nonneg [] f h = ground arith
parse_shift-nonneg (v ∷ []) f h = ground arith
parse_shift-nonneg (v ∷ o ∷ []) f h =
    let (z, read, built) = bind_parts (parse_offset o) _ h in
    let le = parse_offset-nonneg o z read in ground (arith, built, le)
parse_shift-nonneg (v ∷ o ∷ d ∷ []) f h =
    let (z, read, built) = bind_parts (parse_offset o) _ h in
    let le = parse_offset-nonneg o z read in ground (arith, built, le)
parse_shift-nonneg (v ∷ o ∷ d ∷ x ∷ xs) f h = cc

lead_nonneg :
    (z : ℤ) (d : Option Value) (agg : Status)
    → pos 0 ≤ℤ z
    → (v : Option Value) × (lead (record { offset = z; default_value = d }) agg ≡ ok v)
lead_nonneg (pos k) d agg h = (get_or agg.values k d, lead-get_or k d agg)
lead_nonneg (negsuc k) d agg h = absurd (omega arith)

lag_nonneg :
    (z : ℤ) (d : Option Value) (agg : Status)
    → pos 0 ≤ℤ z
    → (v : Option Value) × (lag (record { offset = z; default_value = d }) agg ≡ ok v)
lag_nonneg (pos k) d agg h = (
  get_or (reverse agg.values) k d,
  lag-lead k d agg ∙ lead-get_or k d (record agg { values = reverse agg.values }),
)
lag_nonneg (negsuc k) d agg h = absurd (omega arith)

-- With arguments that ParseArguments accepts, LEAD and LAG return a value on every frame: no error
-- and no index out of range.
pub shift_total :
    (args : List (Option Value)) (f : Shift) (agg : Status)
    → parse_shift args ≡ ok f
    → ((v : Option Value) × (lead f agg ≡ ok v)) × ((v : Option Value) × (lag f agg ≡ ok v))
shift_total args f agg h =
    let le = parse_shift-nonneg args f h in
    (lead_nonneg f.offset f.default_value agg le, lag_nonneg f.offset f.default_value agg le)
