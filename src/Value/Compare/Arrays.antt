-- ===== src/Value/Compare/Arrays.antt =====
-- The comparison methods of ArrayValue: the loop of the source, and what it decides on INT64 arrays.
use go_zetasqlite.Prelude.{
  ◌≡◌, refl, sym, ap, suc, Bool, true, false, not, ◌&&◌, Option, none, some, List, [], ◌∷◌, length,
  ◌==◌, arith, Bool-cases, inl, inr, if◌then◌else◌,
}
use go_zetasqlite.Prelude.Int.{ℤ}
use go_zetasqlite.Prelude.Bytes.{Bytes}
use go_zetasqlite.Result.{Result, ok, panic, ◌>>=◌}
use go_zetasqlite.Value.{
  Value, int, string, bytes, bool, array, Elems, end, elem, null, to_list, call, Comparison,
}
use go_zetasqlite.Value.Convert.{to_int64}
use go_zetasqlite.Value.IntValue
use go_zetasqlite.Value.Compare.{compare, compare_from, compare_elems, compare_scalar}

abbrev IsScalar : Value → Type 0
IsScalar (array xs) = ⊥
IsScalar v = Unit

module _ (quote : Bytes → Bytes) (op : Comparison) where
  from_receiver :
      (x y : Value)
      → IsScalar y
      → compare_from quote false op x (some y) ≡ compare_scalar quote op x (some y)
  unfolding compare_from
  from_receiver (int a) y h = refl
  from_receiver (string a) y h = refl
  from_receiver (bytes a) y h = refl
  from_receiver (bool a) y h = refl
  from_receiver (array xs) (array ys) h = absurd h
  from_receiver (array xs) y h = refl

  from_argument :
      (x y : Value)
      → IsScalar y
      → compare_from quote true op x (some y) ≡ compare_scalar quote op y (some x)
  unfolding compare_from
  from_argument (int a) y h = refl
  from_argument (string a) y h = refl
  from_argument (bytes a) y h = refl
  from_argument (bool a) y h = refl
  from_argument (array xs) (array ys) h = absurd h
  from_argument (array xs) y h = refl

  from_nil : (x : Value) → compare_from quote false op x none ≡ compare_scalar quote op x none
  unfolding compare_from
  from_nil (int a) = refl
  from_nil _ = refl

  nil_receiver : (x : Value) → compare_from quote true op x none ≡ panic
  unfolding compare_from
  nil_receiver (int a) = refl
  nil_receiver _ = refl

  mutual
    unfolding compare_from to_list

    flip_lem :
        (b : Bool) (x y : Value)
        → compare_from quote b op x (some y) ≡ compare_from quote (not b) op y (some x)
    flip_lem false (array xs) (array ys) =
        elim (Bool-cases (length (to_list ys) == length (to_list xs))) [
          | inl e ↦ rw e (flip_elems false xs ys (ground (arith, e)))
          | inr e ↦ rw e
        ]
    flip_lem true (array xs) (array ys) =
        elim (Bool-cases (length (to_list xs) == length (to_list ys))) [
          | inl e ↦ rw e (flip_elems true xs ys (ground (arith, e)))
          | inr e ↦ rw e
        ]
    flip_lem false (array xs) (int a) = refl
    flip_lem false (array xs) (string a) = refl
    flip_lem false (array xs) (bytes a) = refl
    flip_lem false (array xs) (bool a) = refl
    flip_lem true (array xs) (int a) = refl
    flip_lem true (array xs) (string a) = refl
    flip_lem true (array xs) (bytes a) = refl
    flip_lem true (array xs) (bool a) = refl
    flip_lem false (int a) y = sym (from_argument y (int a) tt)
    flip_lem false (string a) y = sym (from_argument y (string a) tt)
    flip_lem false (bytes a) y = sym (from_argument y (bytes a) tt)
    flip_lem false (bool a) y = sym (from_argument y (bool a) tt)
    flip_lem true (int a) y = sym (from_receiver y (int a) tt)
    flip_lem true (string a) y = sym (from_receiver y (string a) tt)
    flip_lem true (bytes a) y = sym (from_receiver y (bytes a) tt)
    flip_lem true (bool a) y = sym (from_receiver y (bool a) tt)

    flip_elems :
        (b : Bool) (xs ys : Elems)
        → length (to_list xs) ≡ length (to_list ys)
        → compare_elems quote b op xs (to_list ys) ≡ compare_elems quote (not b) op ys (to_list xs)
    flip_elems b end end h = refl
    flip_elems b end (elem y ys) h = absurd (omega arith)
    flip_elems b end (null ys) h = absurd (omega arith)
    flip_elems b (elem x xs) end h = absurd (omega arith)
    flip_elems b (null xs) end h = absurd (omega arith)
    flip_elems true (elem x xs) (elem y ys) h =
        rw (flip_lem false x y, flip_elems true xs ys (omega arith))
    flip_elems false (elem x xs) (elem y ys) h =
        rw (flip_lem true x y, flip_elems false xs ys (omega arith))
    flip_elems true (elem x xs) (null ys) h = rw (from_nil x, flip_elems true xs ys (omega arith))
    flip_elems false (elem x xs) (null ys) h = rw (nil_receiver x)
    flip_elems true (null xs) (elem y ys) h = rw (nil_receiver y)
    flip_elems false (null xs) (elem y ys) h = rw (flip_elems false xs ys (omega arith), from_nil y)
    flip_elems true (null xs) (null ys) h = refl
    flip_elems false (null xs) (null ys) h = refl

  -- The loop of the source: the other array's element is the receiver.
  abbrev pub source_loop : List (Option Value) → List (Option Value) → Result Bool
  source_loop [] ys = ok true
  source_loop (x ∷ xs) [] = panic
  source_loop (x ∷ xs) (y ∷ ys) = do
    cond ← call y (λ r. compare quote op r x)
    if cond then source_loop xs ys else ok false

  compare_elems-source_loop :
      (xs : Elems) (ys : List (Option Value))
      → compare_elems quote false op xs ys ≡ source_loop (to_list xs) ys
  unfolding compare_from compare to_list
  compare_elems-source_loop end ys = refl
  compare_elems-source_loop (elem x xs) [] = refl
  compare_elems-source_loop (null xs) [] = refl
  compare_elems-source_loop (elem x xs) (none ∷ ys) = rw (nil_receiver x)
  compare_elems-source_loop (elem x xs) (some y ∷ ys) =
      rw (flip_lem true x y, compare_elems-source_loop xs ys)
  compare_elems-source_loop (null xs) (none ∷ ys) = refl
  compare_elems-source_loop (null xs) (some y ∷ ys) =
      rw (from_nil y, compare_elems-source_loop xs ys)

  -- The comparison of two arrays is false if their lengths differ, and otherwise the loop of the
  -- source over both: each element of the argument is compared, as the receiver, with the element
  -- of the receiver, up to the first comparison that is false, fails or panics.
  compare-array :
      (xs ys : Elems)
      → compare quote op (array xs) (some (array ys)) ≡ (
          if length (to_list ys) == length (to_list xs)
          then source_loop (to_list xs) (to_list ys)
          else ok false)
  unfolding compare
  compare-array xs ys = rw compare_elems-source_loop

abbrev pub ints : List ℤ → Elems
ints [] = end
ints (a ∷ ms) = elem (int a) (ints ms)

-- Whether each element of the second list is in the relation to that of the first.
abbrev pub all_hold : Comparison → List ℤ → List ℤ → Bool
all_hold op [] ns = true
all_hold op (a ∷ ms) [] = false
all_hold op (a ∷ ms) (b ∷ ns) = IntValue.holds op b a && all_hold op ms ns

length-ints : (ms : List ℤ) → length (to_list (ints ms)) ≡ length ms
unfolding to_list
length-ints [] = refl
length-ints (a ∷ ms) = ap suc (length-ints ms)

module _ (quote : Bytes → Bytes) (op : Comparison) where
  compare_elems-ints :
      (ms ns : List ℤ)
      → length ns ≡ length ms
      → compare_elems quote false op (ints ms) (to_list (ints ns)) ≡ ok (all_hold op ms ns)
  unfolding compare_elems compare_scalar IntValue.compare to_int64 to_list
  compare_elems-ints [] ns h = refl
  compare_elems-ints (a ∷ ms) [] h = absurd (omega arith)
  compare_elems-ints (a ∷ ms) (b ∷ ns) h = elim (Bool-cases (IntValue.holds op b a)) [
    | inl e ↦ rw e (compare_elems-ints ms ns (omega arith))
    | inr e ↦ rw e
  ]

  -- On two INT64 arrays every comparison method holds exactly when the lengths agree and each
  -- element of the argument is in the relation to the receiver's: the receiver of GT, GTE, LT and
  -- LTE is on the wrong side of the order.
  pub compare-ints :
      (ms ns : List ℤ)
      → compare quote op (array (ints ms)) (some (array (ints ns)))
        ≡ ok ((length ns == length ms) && all_hold op ms ns)
  unfolding compare
  compare-ints ms ns =
      rw (length-ints ms, length-ints ns)
        (elim (Bool-cases (length ns == length ms)) [
          | inl e ↦ rw e (compare_elems-ints ms ns (ground (arith, e)))
          | inr e ↦ rw e
        ])
