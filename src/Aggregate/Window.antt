-- ===== src/Aggregate/Window.antt =====
-- The window forms of MAX, MIN and SUM beside the aggregate functions.
use go_zetasqlite.Prelude.{
  ◌≡◌, refl, Bool, true, false, Option, none, some, List, [], ◌∷◌, if◌then◌else◌,
}
use go_zetasqlite.Prelude.Bytes.{Bytes}
use go_zetasqlite.Result.{Result, ok, err, panic, out_of_fuel, ◌>>=◌}
use go_zetasqlite.Value.{Value, Comparison, gt, lt}
use go_zetasqlite.Value.Compare
use go_zetasqlite.Value.Arith
use go_zetasqlite.Aggregate.{run, Extreme, extreme_start, extreme_step, sum_step}
use go_zetasqlite.Window.Status.{Status}
use go_zetasqlite.Window.Status.Relevant.{relevant_values-plain}
use go_zetasqlite.Window.Fold.{extremum_loop, window_max, window_min, sum_loop, window_sum}

-- A frame that holds the values of the rows.
abbrev pub frame : List (Option Value) → Status
frame rows = record { values = rows; ignore_nulls = false; distinct = false }

module _ (quote : Bytes → Bytes) where
  abbrev seen : Value → Extreme
  seen best = record { initialized = true; best = some best }

  abbrev best_of : Comparison → Extreme → List (Option Value) → Result (Option Value)
  best_of op f rows = run (extreme_step quote op) f rows >>= λ g. ok g.best

  -- One round: the comparison decides which value both go on from.
  round :
      (op : Comparison) (best v : Value) (rows : List (Option Value))
      → extremum_loop quote op (some v) rows ≡ best_of op (seen v) rows
      → extremum_loop quote op (some best) rows ≡ best_of op (seen best) rows
      → (r : Result Bool)
      → (r >>= λ cond. extremum_loop quote op (some (if cond then v else best)) rows) ≡ (
          (r >>= λ cond. ok (if cond then seen v else seen best))
          >>= (λ f. run (extreme_step quote op) f rows)
          >>= λ g. ok g.best)
  round op best v rows hv hb (ok true) = hv
  round op best v rows hv hb (ok false) = hb
  round op best v rows hv hb (err e) = refl
  round op best v rows hv hb panic = refl
  round op best v rows hv hb out_of_fuel = refl

  extremum-best_of :
      (op : Comparison) (best : Value) (rows : List (Option Value))
      → extremum_loop quote op (some best) rows ≡ best_of op (seen best) rows
  unfolding extremum_loop extreme_step
  extremum-best_of op best [] = refl
  extremum-best_of op best (none ∷ rows) = extremum-best_of op best rows
  extremum-best_of op best (some v ∷ rows) =
      round op best v rows (extremum-best_of op v rows) (extremum-best_of op best rows)
        (Compare.compare quote op v (some best))

  extremum_start :
      (op : Comparison) (rows : List (Option Value))
      → extremum_loop quote op none rows ≡ best_of op extreme_start rows
  unfolding extremum_loop extreme_step
  extremum_start op [] = refl
  extremum_start op (none ∷ rows) = extremum_start op rows
  extremum_start op (some v ∷ rows) = extremum-best_of op v rows

  sum-run :
      (sum : Option Value) (rows : List (Option Value))
      → sum_loop quote sum rows ≡ run (sum_step quote) sum rows
  unfolding sum_loop sum_step
  sum-run sum [] = refl
  sum-run none (none ∷ rows) = sum-run none rows
  sum-run (some s) (none ∷ rows) = sum-run (some s) rows
  sum-run none (some v ∷ rows) = sum-run (some v) rows
  sum-run (some s) (some v ∷ rows) = added (Arith.add quote s (some v)) (λ a. sum-run (some a) rows)
    where
      added :
          (r : Result Value)
          → ((a : Value) → sum_loop quote (some a) rows ≡ run (sum_step quote) (some a) rows)
          → (r >>= λ a. sum_loop quote (some a) rows)
            ≡ (r >>= (λ a. ok (some a)) >>= λ s'. run (sum_step quote) s' rows)
      added (ok a) ih = ih a
      added (err e) ih = refl
      added panic ih = refl
      added out_of_fuel ih = refl

  -- Over a frame without IGNORE NULLS and DISTINCT, the window functions MAX, MIN and SUM return what
  -- the aggregate functions of the same names return over its values, errors included.
  pub window-aggregate :
      (rows : List (Option Value))
      → (window_max quote (frame rows) ≡ best_of gt extreme_start rows)
        × (window_min quote (frame rows) ≡ best_of lt extreme_start rows)
        × (window_sum quote (frame rows) ≡ run (sum_step quote) none rows)
  unfolding window_max window_min window_sum
  window-aggregate rows =
      rw (relevant_values-plain quote rows false)
        (extremum_start gt rows, extremum_start lt rows, sum-run none rows)
