-- ===== src/Aggregate/Extremum.antt =====
-- MAX and MIN over INT64 rows.
use go_zetasqlite.Prelude.{
  ◌≡◌, refl, sym, ◌⊎◌, true, Option, none, some, List, [], ◌∷◌, arith, Bool-cases, inl, inr,
  if◌then◌else◌,
}
use go_zetasqlite.Prelude.Int.{ℤ, ltb_ℤ, ◌≤ℤ◌}
use go_zetasqlite.Prelude.Bytes.{Bytes}
use go_zetasqlite.Result.{ok}
use go_zetasqlite.Value.{Value, int, gt}
use go_zetasqlite.Value.Convert.{to_int64}
use go_zetasqlite.Value.Compare
use go_zetasqlite.Value.IntValue
use go_zetasqlite.Aggregate.{run, Extreme, extreme_start, extreme_step}

-- INT64 rows, some of them NULL.
abbrev pub int_rows : List (Option ℤ) → List (Option Value)
int_rows [] = []
int_rows (none ∷ zs) = none ∷ int_rows zs
int_rows (some z ∷ zs) = some (int z) ∷ int_rows zs

abbrev pub AllAtMost : List (Option ℤ) → ℤ → Type 0
AllAtMost [] m = Unit
AllAtMost (none ∷ zs) m = AllAtMost zs m
AllAtMost (some z ∷ zs) m = (z ≤ℤ m) × AllAtMost zs m

abbrev pub Holds : List (Option ℤ) → ℤ → Type 0
Holds [] m = ⊥
Holds (none ∷ zs) m = Holds zs m
Holds (some z ∷ zs) m = (z ≡ m) ⊎ Holds zs m

abbrev pub AllNull : List (Option ℤ) → Type 0
AllNull [] = Unit
AllNull (none ∷ zs) = AllNull zs
AllNull (some z ∷ zs) = ⊥

-- The largest of `best` and the rows.
abbrev pub largest : ℤ → List (Option ℤ) → ℤ
largest best [] = best
largest best (none ∷ zs) = largest best zs
largest best (some z ∷ zs) = largest (if ltb_ℤ best z then z else best) zs

le-largest : (best : ℤ) (zs : List (Option ℤ)) → best ≤ℤ largest best zs
le-largest best [] = omega arith
le-largest best (none ∷ zs) = le-largest best zs
le-largest best (some z ∷ zs) = elim (Bool-cases (ltb_ℤ best z)) [
  | inl e ↦ rw e (ground (arith, e, le-largest z zs))
  | inr e ↦ rw e (le-largest best zs)
]

largest-AllAtMost : (best : ℤ) (zs : List (Option ℤ)) → AllAtMost zs (largest best zs)
largest-AllAtMost best [] = tt
largest-AllAtMost best (none ∷ zs) = largest-AllAtMost best zs
largest-AllAtMost best (some z ∷ zs) = elim (Bool-cases (ltb_ℤ best z)) [
  | inl e ↦ rw e (le-largest z zs, largest-AllAtMost z zs)
  | inr e ↦ rw e (ground (arith, e, le-largest best zs), largest-AllAtMost best zs)
]

largest-Holds :
    (best : ℤ) (zs : List (Option ℤ)) → (largest best zs ≡ best) ⊎ Holds zs (largest best zs)
largest-Holds best [] = inl refl
largest-Holds best (none ∷ zs) = largest-Holds best zs
largest-Holds best (some z ∷ zs) = elim (Bool-cases (ltb_ℤ best z)) [
  | inl e ↦ rw e (elim (largest-Holds z zs) [ inl p ↦ inr (inl (sym p)) | inr q ↦ inr (inr q) ])
  | inr e ↦ rw e (elim (largest-Holds best zs) [ inl p ↦ inl p | inr q ↦ inr (inr q) ])
]

module _ (quote : Bytes → Bytes) where
  abbrev seen : ℤ → Extreme
  seen z = record { initialized = true; best = some (int z) }

  run-largest :
      (best : ℤ) (zs : List (Option ℤ))
      → run (extreme_step quote gt) (seen best) (int_rows zs) ≡ ok (seen (largest best zs))
  unfolding extreme_step Compare.compare Compare.compare_scalar IntValue.compare to_int64
  run-largest best [] = refl
  run-largest best (none ∷ zs) = run-largest best zs
  run-largest best (some z ∷ zs) = elim (Bool-cases (ltb_ℤ best z)) [
    | inl e ↦ rw e (run-largest z zs)
    | inr e ↦ rw e (run-largest best zs)
  ]

  -- MAX over rows that are INT64 or NULL is NULL if all rows are, and otherwise a value of the rows
  -- that none of them exceeds.
  pub max_lem :
      (zs : List (Option ℤ))
      → (run (extreme_step quote gt) extreme_start (int_rows zs) ≡ ok extreme_start) × AllNull zs
        ⊎ ((m : ℤ) × (run (extreme_step quote gt) extreme_start (int_rows zs) ≡ ok (seen m))
            × Holds zs m
            × AllAtMost zs m)
  unfolding extreme_step
  max_lem [] = inl (refl, tt)
  max_lem (none ∷ zs) = max_lem zs
  max_lem (some z ∷ zs) = inr (
    largest z zs,
    run-largest z zs,
    elim (largest-Holds z zs) [ inl p ↦ inl (sym p) | inr q ↦ inr q ],
    (le-largest z zs, largest-AllAtMost z zs),
  )
