-- ===== src/Function/Array/Generate.antt =====
-- GENERATE_ARRAY on INT64 arguments (internal/function_array.go).
use go_zetasqlite.Prelude.{
  ℕ, zero, suc, ◌+◌, ◌-◌, ◌/◌, ◌≤◌, ◌<◌, ◌≡◌, refl, ap, true, false, Option, some, List, [], ◌∷◌,
  ◌++◌, append_assoc, ◌∙◌, arith, leb, leb→le, Bool-cases, inl, inr,
}
use go_zetasqlite.Prelude.Int.{ℤ, pos, negsuc, ltb_ℤ, leb_ℤ, ◌+ℤ◌, ◌≤ℤ◌}
use go_zetasqlite.Prelude.Bytes.{Bytes}
use go_zetasqlite.Int64.{IsInt64, half}
use go_zetasqlite.Int64.Ring.{add-exact, add-zero_lem}
use go_zetasqlite.Result.{out_of_fuel}
use go_zetasqlite.Value.{Value, int}
use go_zetasqlite.Value.Convert.{to_int64}
use go_zetasqlite.Value.Arith
use go_zetasqlite.Value.Compare
use go_zetasqlite.Value.IntValue
use go_zetasqlite.Function.Operators.{answer}
use go_zetasqlite.Function.Array.{make_array, generate_loop, generate_array}

-- a, a + s, …, a + n * s
abbrev pub progression : ℤ → ℕ → ℕ → List (Option Value)
progression a s zero = some (int a) ∷ []
progression a s (suc n) = some (int a) ∷ progression (a +ℤ pos s) s n

leb-shift : (a : ℤ) (s d : ℕ) → leb_ℤ (a +ℤ pos s) (a +ℤ pos d) ≡ leb s d
unfolding ◌+ℤ◌
leb-shift (pos a) s d = ground arith
leb-shift (negsuc a) s d = ground arith

add_again : (a : ℤ) (s d : ℕ) → s ≤ d → a +ℤ pos s +ℤ pos (d - s) ≡ a +ℤ pos d
unfolding ◌+ℤ◌
add_again (pos a) s d h = ground arith
add_again (negsuc a) s d h = ground arith

between_values :
    (a : ℤ) (s d : ℕ) (z w : ℤ)
    → IsInt64 a
    → s ≤ d
    → a +ℤ pos s ≡ z
    → a +ℤ pos d ≡ w
    → IsInt64 w
    → IsInt64 z
unfolding ◌+ℤ◌
between_values (pos a) s d (pos z) (pos w) h k e f l = ground arith
between_values (pos a) s d (pos z) (negsuc w) h k e f l = ground arith
between_values (pos a) s d (negsuc z) w h k e f l = ground arith
between_values (negsuc a) s d (pos z) (pos w) h k e f l = ground arith
between_values (negsuc a) s d (pos z) (negsuc w) h k e f l = ground arith
between_values (negsuc a) s d (negsuc z) w h k e f l = ground arith

IsInt64-between :
    (a : ℤ) (s d : ℕ) → IsInt64 a → s ≤ d → IsInt64 (a +ℤ pos d) → IsInt64 (a +ℤ pos s)
IsInt64-between a s d h k l = between_values a s d _ _ h k refl refl l

div_step : (d s : ℕ) → 0 < s → s ≤ d → d / s ≡ suc ((d - s) / s)
div_step d s p h = grind arith

div_below : (d s : ℕ) → d < s → d / s ≡ 0
div_below d s h = grind arith

rest_fits :
    (a : ℤ) (s d : ℕ) → s ≤ d → IsInt64 (a +ℤ pos (d + s)) → IsInt64 (a +ℤ pos s +ℤ pos (d - s + s))
rest_fits a s d le l =
    let e : d - s + s ≡ d = omega arith in
    let e' : d + s - s ≡ d = omega arith in rw (e, ← e', add_again a s (d + s) (omega arith)) l

leb_of_le : (b a : ℤ) → b ≤ℤ a → leb_ℤ b a ≡ true
leb_of_le b a h = ground arith

not_leb : (b a : ℤ) → ltb_ℤ b a ≡ true → leb_ℤ a b ≡ false
not_leb b a h = ground arith

module _ (quote : Bytes → Bytes) where
  -- One round from `a`, where the end is `a + d`.
  round_up :
      (fuel : ℕ) (a : ℤ) (s d : ℕ) (acc : List (Option Value))
      → IsInt64 a
      → s < half
      → IsInt64 (a +ℤ pos s)
      → generate_loop quote
          (suc fuel)
          true
          (some (int (a +ℤ pos d)))
          (some (int (pos s)))
          acc
          (int a)
        ≡ elim (leb s d) [
          | true ↦
              generate_loop quote fuel true
                (some (int (a +ℤ pos d)))
                (some (int (pos s)))
                (acc ++ some (int a) ∷ [])
                (int (a +ℤ pos s))
          | false ↦ answer (make_array (acc ++ some (int a) ∷ []))
        ]
  unfolding generate_loop Arith.add IntValue.add to_int64 Compare.compare Compare.compare_scalar
      IntValue.compare
  round_up fuel a s d acc h k l = elim (Bool-cases (leb s d)) [
    | inl e ↦ rw (add-exact a (pos s) h k l, leb-shift a s d, e) (rw (add-exact a (pos s) h k l))
    | inr e ↦ rw (add-exact a (pos s) h k l, leb-shift a s d, e)
  ]

  loop_up :
      (fuel : ℕ) (a : ℤ) (s d : ℕ) (acc : List (Option Value))
      → 0 < s
      → d < fuel
      → IsInt64 a
      → s < half
      → IsInt64 (a +ℤ pos (d + s))
      → generate_loop quote fuel true (some (int (a +ℤ pos d))) (some (int (pos s))) acc (int a)
        ≡ answer (make_array (acc ++ progression a s (d / s)))
  loop_up zero a s d acc p f h k l = elim f [ ]
  loop_up (suc fuel) a s d acc p f h k l =
      let first : IsInt64 (a +ℤ pos s) = IsInt64-between a s (d + s) h (omega arith) l in
      elim (Bool-cases (leb s d)) [
        | inl e ↦
            let le : s ≤ d = leb→le s d e in
            rw (round_up fuel a s d acc h k first, e, div_step d s p le, ← add_again a s d le)
              (loop_up fuel (a +ℤ pos s) s (d - s) (acc ++ some (int a) ∷ []) p (omega arith) first
                  k (rest_fits a s d le l)
                ∙ ap (λ xs. answer (make_array xs)) (append_assoc acc (some (int a) ∷ []) _))
        | inr e ↦ rw (round_up fuel a s d acc h k first, e, div_below d s (ground arith))
      ]

  up_tests :
      (a : ℤ) (s d : ℕ) → 0 < s → (leb_ℤ a (a +ℤ pos d) ≡ true) × (ltb_ℤ (pos 0) (pos s) ≡ true)
  unfolding ◌+ℤ◌
  up_tests (pos a) s d p = (ground arith, ground arith)
  up_tests (negsuc a) s d p = (ground arith, ground arith)

  -- GENERATE_ARRAY from an INT64 `a` to `a + d` with a positive INT64 step `s` is a, a + s, a + 2s,
  -- … as far as `a + d`, provided that the end plus the step still fits an INT64. Any fuel above
  -- the distance `d` is enough.
  pub generate_array-progression :
      (fuel : ℕ) (a : ℤ) (s d : ℕ)
      → 0 < s
      → d < fuel
      → IsInt64 a
      → s < half
      → IsInt64 (a +ℤ pos (d + s))
      → generate_array quote fuel (some (int a)) (some (int (a +ℤ pos d))) (some (int (pos s)))
        ≡ answer (make_array (progression a s (d / s)))
  unfolding generate_array Compare.compare Compare.compare_scalar IntValue.compare to_int64
  generate_array-progression fuel a s d p f h k l =
      rw ((up_tests a s d p).0, (up_tests a s d p).1) (loop_up fuel a s d [] p f h k l)

  diverging_loop :
      (fuel : ℕ) (a b : ℤ) (acc : List (Option Value))
      → IsInt64 a
      → b ≤ℤ a
      → generate_loop quote fuel false (some (int b)) (some (int (pos 0))) acc (int a) ≡ out_of_fuel
  unfolding generate_loop Arith.add IntValue.add to_int64 Compare.compare Compare.compare_scalar
      IntValue.compare
  diverging_loop zero a b acc h le = refl
  diverging_loop (suc fuel) a b acc h le =
      rw (add-zero_lem a h, leb_of_le b a le)
        (rw (add-zero_lem a h) (diverging_loop fuel a b (acc ++ some (int a) ∷ []) h le))

  -- GENERATE_ARRAY with step 0 from a start above the end never ends: no fuel is enough.
  pub generate_array-diverges :
      (fuel : ℕ) (a b : ℤ)
      → IsInt64 a
      → ltb_ℤ b a ≡ true
      → generate_array quote fuel (some (int a)) (some (int b)) (some (int (pos 0))) ≡ out_of_fuel
  unfolding generate_array Compare.compare Compare.compare_scalar IntValue.compare to_int64
  generate_array-diverges fuel a b h lt =
      rw (not_leb b a lt) (diverging_loop fuel a b [] h (ground arith))
