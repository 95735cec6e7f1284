-- ===== src/Aggregate/Bits.antt =====
-- BIT_OR and BIT_XOR mark the state before the first row by the values -1 and 1.
use go_zetasqlite.Prelude.{
  ◌≡◌, refl, sym, ap, ◌∙◌, inl, inr, Option, some, List, [], ◌∷◌, ◌++◌, map, append_assoc,
  Bool-cases, if◌then◌else◌,
}
use go_zetasqlite.Prelude.Int.{ℤ, pos, negsuc, eqb_ℤ}
use go_zetasqlite.Result.{Result, ok, err, panic, out_of_fuel, ◌>>=◌}
use go_zetasqlite.Value.{Value, int}
use go_zetasqlite.Value.Convert.{to_int64}
use go_zetasqlite.Int64.{bitwise_or}
use go_zetasqlite.Int64.Bits.{bitwise_or-ones}
use go_zetasqlite.Aggregate.{run, bit_or_step, bit_xor_step, bit_or_start, bit_xor_start}

run-append {ℓ} :
    {S : Type ℓ} (step : S → Option Value → Result S) (s : S) (rows more : List (Option Value))
    → run step s (rows ++ more) ≡ (run step s rows >>= λ s'. run step s' more)
run-append step s [] more = refl
run-append {S} step s (row ∷ rows) more = after (step s row) (λ s'. run-append step s' rows more)
  where
    after :
        (r : Result S)
        → ((s' : S) → run step s' (rows ++ more) ≡ (run step s' rows >>= λ t. run step t more))
        → (r >>= λ s'. run step s' (rows ++ more))
          ≡ (r >>= (λ s'. run step s' rows) >>= λ t. run step t more)
    after (ok s') ih = ih s'
    after (err e) ih = refl
    after panic ih = refl
    after out_of_fuel ih = refl

abbrev int_row : ℤ → Option Value
int_row z = some (int z)

-- From every state a row of -1 leads to -1.
ones_row : (z : ℤ) → bit_or_step z (int_row (negsuc 0)) ≡ ok (negsuc 0)
unfolding bit_or_step to_int64
ones_row z = elim (Bool-cases (eqb_ℤ z (negsuc 0))) [
  | inl e ↦ rw e
  | inr e ↦ rw (e, bitwise_or-ones z)
]

run_to_ones :
    (s : ℤ) (zs : List ℤ)
    → run bit_or_step s (map int_row zs ++ int_row (negsuc 0) ∷ []) ≡ ok (negsuc 0)
unfolding bit_or_step to_int64
run_to_ones s [] = rw (ones_row s)
run_to_ones s (z ∷ zs) = run_to_ones (if eqb_ℤ s (negsuc 0) then z else bitwise_or s z) zs

-- BIT_OR over INT64 rows, the last but one of which is -1, is the last row's value: whatever the rows
-- before it are, they are forgotten, and so are the bits of -1.
pub bit_or-forget :
    (zs : List ℤ) (z : ℤ)
    → run bit_or_step bit_or_start (map int_row zs ++ int_row (negsuc 0) ∷ int_row z ∷ []) ≡ ok z
unfolding bit_or_step to_int64
bit_or-forget zs z =
    ap (λ rows. run bit_or_step bit_or_start rows)
      (sym (append_assoc (map int_row zs) (int_row (negsuc 0) ∷ []) (int_row z ∷ [])))
    ∙ rw (
      run-append bit_or_step bit_or_start (map int_row zs ++ int_row (negsuc 0) ∷ [])
          (int_row z ∷ []),
      run_to_ones bit_or_start zs,
    )

-- Rows whose BIT_XOR is 1 are forgotten: the BIT_XOR of these rows and of more rows behind them is
-- the BIT_XOR of the rows behind them alone.
pub bit_xor-forget :
    (rows more : List (Option Value))
    → run bit_xor_step bit_xor_start rows ≡ ok (pos 1)
    → run bit_xor_step bit_xor_start (rows ++ more) ≡ run bit_xor_step bit_xor_start more
bit_xor-forget rows more h = rw (run-append bit_xor_step, h)
