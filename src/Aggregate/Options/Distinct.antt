-- ===== src/Aggregate/Options/Distinct.antt =====
-- The rows that reach an aggregate function under DISTINCT (Aggregator.Step of
-- internal/function_bind.go).
use go_zetasqlite.Prelude.{
  ◌≡◌, refl, Bool, true, false, Option, none, some, List, [], ◌∷◌, Bool-cases, inl, inr,
  if◌then◌else◌,
}
use go_zetasqlite.Prelude.Bytes.{Bytes}
use go_zetasqlite.Result.{Result, ok, err, panic, out_of_fuel, ◌>>=◌}
use go_zetasqlite.Value.{Value}
use go_zetasqlite.Value.Convert.Total.{to_string_total, key_of}
use go_zetasqlite.Aggregate.{run}
use go_zetasqlite.Aggregate.Options.{Aggregator, aggregator_step}
use go_zetasqlite.Window.Status.{has_key}

module _ (quote : Bytes → Bytes) where
  -- The first row of each string form that is not among the keys, and the first null if none was
  -- seen, in the order of the rows.
  pub first_rows : List Bytes → Bool → List (Option Value) → List (Option Value)
  first_rows keys nil_seen [] = []
  first_rows keys true (none ∷ rows) = first_rows keys true rows
  first_rows keys false (none ∷ rows) = none ∷ first_rows keys true rows
  first_rows keys nil_seen (some v ∷ rows) =
      let old = first_rows keys nil_seen rows in
      let new = some v ∷ first_rows (key_of quote v ∷ keys) nil_seen rows in
      if has_key keys (key_of quote v) then old else new

module _ (quote : Bytes → Bytes) {S : Type 0} (step : S → List (Option Value) → Result S) where
  abbrev with_distinct : Aggregator S → Option Value → Result (Aggregator S)
  with_distinct a row = aggregator_step quote step false true a (row ∷ [])

  abbrev plain : S → Option Value → Result S
  plain s row = step s (row ∷ [])

  go_on :
      (r : Result S) (f : S → Aggregator S) (rows rest : List (Option Value))
      → ((s : S) → (run with_distinct (f s) rows >>= λ b. ok b.state) ≡ run plain s rest)
      → (r >>= (λ s. ok (f s)) >>= (λ b. run with_distinct b rows) >>= λ b. ok b.state)
        ≡ (r >>= λ s. run plain s rest)
  go_on (ok s) f rows rest h = h s
  go_on (err e) f rows rest h = refl
  go_on panic f rows rest h = refl
  go_on out_of_fuel f rows rest h = refl

  -- An aggregate function under DISTINCT, called on rows of one argument, ends in the state (or
  -- error) that it reaches without DISTINCT on the first row of each string form and the first
  -- null.
  pub run-first_rows :
      (keys : List Bytes) (nil_seen : Bool) (s : S) (rows : List (Option Value))
      → (run with_distinct (record { distinct_map = keys; distinct_nil = nil_seen; state = s }) rows
          >>= λ b. ok b.state)
        ≡ run plain s (first_rows quote keys nil_seen rows)
  unfolding aggregator_step first_rows
  run-first_rows keys nil_seen s [] = refl
  run-first_rows keys true s (none ∷ rows) = run-first_rows keys true s rows
  run-first_rows keys false s (none ∷ rows) =
      go_on (step s (none ∷ []))
        (λ t. record { distinct_map = keys; distinct_nil = true; state = t }) rows
        (first_rows quote keys true rows) (λ t. run-first_rows keys true t rows)
  run-first_rows keys nil_seen s (some v ∷ rows) =
      elim (Bool-cases (has_key keys (key_of quote v))) [
        | inl e ↦ rw ((to_string_total quote v).1, e) (run-first_rows keys nil_seen s rows)
        | inr e ↦
            rw ((to_string_total quote v).1, e)
              (go_on (step s (some v ∷ []))
                (λ t. record {
                  distinct_map = key_of quote v ∷ keys;
                  distinct_nil = nil_seen;
                  state = t;
                })
                rows (first_rows quote (key_of quote v ∷ keys) nil_seen rows)
                (λ t. run-first_rows (key_of quote v ∷ keys) nil_seen t rows))
      ]
