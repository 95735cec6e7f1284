-- ===== src/Aggregate/Options.antt =====
-- internal/function_bind.go: Aggregator.Step, which applies IGNORE NULLS and DISTINCT in front of
-- an aggregate function. The options are those that parseAggregateOptions has read.
pub mod Distinct
use go_zetasqlite.Prelude.{Bool, true, false, Option, none, some, List, [], ◌∷◌, if◌then◌else◌}
use go_zetasqlite.Prelude.Bytes.{Bytes}
use go_zetasqlite.Result.{Result, ok, err, argument_num, ◌>>=◌}
use go_zetasqlite.Value.{Value}
use go_zetasqlite.Value.Convert.{to_string}
use go_zetasqlite.Window.Status.{has_key}
use go_zetasqlite.Window.Status.Relevant.{present}

-- Aggregator, around the state of an aggregate function.
pub record Aggregator (S : Type 0) : Type 0 where
  pub distinct_map : List Bytes
  pub distinct_nil : Bool
  pub state : S

module _ (quote : Bytes → Bytes) {S : Type 0} (step : S → List (Option Value) → Result S) where
  unfoldable pub call_step : Aggregator S → List (Option Value) → Result (Aggregator S)
  call_step a values = do s ← step a.state values; ok (record a { state = s })

  unfoldable pub distinct_step : Aggregator S → List (Option Value) → Result (Aggregator S)
  unfolding call_step
  distinct_step a [] = err argument_num
  distinct_step a (none ∷ values) =
      if a.distinct_nil then ok a else call_step (record a { distinct_nil = true }) (none ∷ values)
  distinct_step a (some v ∷ values) = do
    key ← to_string quote v
    if has_key a.distinct_map key
        then ok a
        else call_step (record a { distinct_map = key ∷ a.distinct_map }) (some v ∷ values)

  unfoldable pub filtered_step : Bool → Aggregator S → List (Option Value) → Result (Aggregator S)
  unfolding distinct_step
  filtered_step distinct a values = if distinct then distinct_step a values else call_step a values

  -- Aggregator.Step with the options IGNORE NULLS and DISTINCT.
  unfoldable pub aggregator_step :
      Bool → Bool → Aggregator S → List (Option Value) → Result (Aggregator S)
  unfolding filtered_step
  aggregator_step true distinct a values = elim (present values) [
    | [] ↦ ok a
    | v ∷ vs ↦ filtered_step distinct a (v ∷ vs)
  ]
  aggregator_step false distinct a values = filtered_step distinct a values
