-- ===== src/Tests/Windows.antt =====
-- The window and aggregate functions at concrete inputs.
use go_zetasqlite.Prelude.{
  ℕ, ◌+◌, ◌<◌, ◌⊎◌, ◌≡◌, refl, Bool, true, false, Option, none, some, List, [], ◌∷◌, ◌++◌, arith,
}
use go_zetasqlite.Prelude.Int.{ℤ, pos, negsuc}
use go_zetasqlite.Prelude.Bytes.{Bytes}
use go_zetasqlite.Result.{Result, ok, ◌>>=◌}
use go_zetasqlite.Value.{Value, int, bool, gt, lt}
use go_zetasqlite.Value.Convert.{to_bool, to_int64, to_string}
use go_zetasqlite.Strconv.{format_int}
use go_zetasqlite.Function.Logic.{and, or}
use go_zetasqlite.Window.Status.{new_status, relevant_values}
use go_zetasqlite.Window.Status.Queue
use go_zetasqlite.Window.Status.Queue.{enter, leave, done, push, pop, run-Slides}
use go_zetasqlite.Window.Status.Relevant.{Fresh, relevant_values-Fresh}
use go_zetasqlite.Window.Offset.{lead, lag, parse_shift, parse_offset}
use go_zetasqlite.Window.Offset.Mirror.{lag-lead, shift_total}
use go_zetasqlite.Window.Ntile.{finish}
use go_zetasqlite.Window.Ntile.Buckets.{finish-bucket, finish_total}
use go_zetasqlite.Window.Fold.{window_max, window_min, window_sum}
use go_zetasqlite.Aggregate.{
  run, count_star_step, logical_and_step, logical_or_step, logical_done, bit_or_step, bit_or_start,
  extreme_start, extreme_step, sum_step,
}
use go_zetasqlite.Aggregate.Window.{frame, window-aggregate}
use go_zetasqlite.Aggregate.Extremum.{Holds, AllAtMost, max_lem}
use go_zetasqlite.Aggregate.Logical.{logical-scalar}
use go_zetasqlite.Aggregate.Bits.{bit_or-forget}
use go_zetasqlite.Aggregate.Options.{aggregator_step}
use go_zetasqlite.Aggregate.Options.Distinct.{first_rows, run-first_rows}

abbrev plain_quote : Bytes → Bytes
plain_quote s = b'"' ∷ (s ++ (b'"' ∷ []))

abbrev n : ℕ → Option Value
n k = some (int (pos k))

abbrev truth : Bool → Option Value
truth b = some (bool b)

abbrev rows : List (Option Value)
rows = n 4 ∷ none ∷ n 7 ∷ n 4 ∷ []

-- Two values enter, the older one leaves, and a null enters.
run-Slides_example :
    Queue.run (enter (n 1) ∷ enter (n 2) ∷ leave (n 1) ∷ enter none ∷ []) new_status
    ≡ ok (record { values = n 2 ∷ none ∷ []; ignore_nulls = false; distinct = false })
run-Slides_example = run-Slides new_status (push (n 1) (push (n 2) (pop (n 1) tt (push none done))))

relevant_values-Fresh_example : Fresh plain_quote [] (n 4 ∷ n 7 ∷ [])
unfolding relevant_values to_string format_int
relevant_values-Fresh_example =
    relevant_values-Fresh plain_quote (n 4 ∷ n 7 ∷ n 4 ∷ []) false (n 4 ∷ n 7 ∷ []) refl

lag-lead_example :
    lag (record { offset = pos 1; default_value = none }) (frame rows)
    ≡ lead (record { offset = pos 1; default_value = none }) (frame (n 4 ∷ n 7 ∷ none ∷ n 4 ∷ []))
lag-lead_example = lag-lead 1 none (frame rows)

shift_total_example :
    ((v : Option Value) × (lead (record { offset = pos 9; default_value = n 0 }) (frame rows)
        ≡ ok v))
    × ((v : Option Value) × (lag (record { offset = pos 9; default_value = n 0 }) (frame rows)
          ≡ ok v))
unfolding parse_shift parse_offset to_int64
shift_total_example =
    shift_total (n 1 ∷ n 9 ∷ n 0 ∷ []) (record { offset = pos 9; default_value = n 0 }) (frame rows)
      refl

-- Seven rows in three buckets: 3, 2 and 2.
finish-bucket_example : finish (record { n_param = 3; n_total = 7; i_row = 4 }) ≡ ok 2
finish-bucket_example =
    finish-bucket (record { n_param = 3; n_total = 7; i_row = 4 }) 1 (omega arith) (omega arith)
      (omega arith)

finish_total_example :
    (b : ℕ) × (b < 3) × (finish (record { n_param = 3; n_total = 7; i_row = 6 }) ≡ ok (b + 1))
finish_total_example =
    finish_total (record { n_param = 3; n_total = 7; i_row = 6 }) (omega arith) (omega arith)

window-aggregate_example :
    (window_max plain_quote (frame rows)
      ≡ (run (extreme_step plain_quote gt) extreme_start rows >>= λ g. ok g.best))
    × (window_min plain_quote (frame rows)
        ≡ (run (extreme_step plain_quote lt) extreme_start rows >>= λ g. ok g.best))
    × (window_sum plain_quote (frame rows) ≡ run (sum_step plain_quote) none rows)
window-aggregate_example = window-aggregate plain_quote rows

max_lem_example :
    (run (extreme_step plain_quote gt) extreme_start (n 3 ∷ none ∷ n 9 ∷ []) ≡ ok extreme_start) × ⊥
    ⊎ ((m : ℤ) × (run (extreme_step plain_quote gt) extreme_start (n 3 ∷ none ∷ n 9 ∷ [])
          ≡ ok (record { initialized = true; best = some (int m) }))
        × Holds (some (pos 3) ∷ none ∷ some (pos 9) ∷ []) m
        × AllAtMost (some (pos 3) ∷ none ∷ some (pos 9) ∷ []) m)
max_lem_example = max_lem plain_quote (some (pos 3) ∷ none ∷ some (pos 9) ∷ [])

logical-scalar_example :
    ((run logical_and_step true (truth true ∷ none ∷ truth false ∷ []) >>= logical_done)
      ≡ and (truth true ∷ truth false ∷ []))
    × ((run logical_or_step false (truth true ∷ none ∷ truth false ∷ []) >>= logical_done)
        ≡ or (truth true ∷ truth false ∷ []))
unfolding to_bool
logical-scalar_example =
    logical-scalar (truth true ∷ none ∷ truth false ∷ []) (some true ∷ none ∷ some false ∷ [])
      (refl, (tt, (refl, tt)))

-- The BIT_OR of 3, -1 and 5.
bit_or-forget_example :
    run bit_or_step bit_or_start (n 3 ∷ some (int (negsuc 0)) ∷ n 5 ∷ []) ≡ ok (pos 5)
bit_or-forget_example = bit_or-forget (pos 3 ∷ []) (pos 5)

-- COUNT(*) under DISTINCT.
abbrev star_step : ℤ → List (Option Value) → Result ℤ
star_step z args = count_star_step z none

run-first_rows_example :
    (run
        (λ a row. aggregator_step plain_quote star_step false true a (row ∷ []))
        (record { distinct_map = []; distinct_nil = false; state = pos 0 })
        rows
      >>= λ b. ok b.state)
    ≡ run (λ s row. star_step s (row ∷ [])) (pos 0) (first_rows plain_quote [] false rows)
run-first_rows_example = run-first_rows plain_quote star_step [] false (pos 0) rows
