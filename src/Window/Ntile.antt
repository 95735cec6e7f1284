-- ===== src/Window/Ntile.antt =====
-- internal/function_window.go: NTILE. The counters are natural numbers: they count rows, and stay
-- below 2^63.
pub mod Buckets
use go_zetasqlite.Prelude.{
  ℕ, suc, ◌+◌, ◌-◌, ◌*◌, ◌/◌, Option, none, some, List, [], ◌∷◌, ltb, ◌==◌, if◌then◌else◌,
}
use go_zetasqlite.Prelude.Int.{ℤ, pos, negsuc}
use go_zetasqlite.Result.{
  Result, ok, err, argument_num, null_argument, negative_offset, assertion_failed, ◌>>=◌,
}
use go_zetasqlite.Value.{Value}
use go_zetasqlite.Value.Convert.{to_int64}

-- WINDOW_NTILE
pub record Ntile : Type 0 where
  pub n_param : ℕ
  pub n_total : ℕ
  pub i_row : ℕ

-- `value <= 0` is an error.
unfoldable pub positive : ℤ → Result ℕ
positive (pos value) = if value == 0 then err negative_offset else ok value
positive (negsuc value) = err negative_offset

unfoldable pub parse_arguments : List (Option Value) → Ntile → Result Ntile
unfolding positive
parse_arguments [] f = err argument_num
parse_arguments (none ∷ args) f = err null_argument
parse_arguments (some v ∷ args) f = do
  value ← to_int64 v
  n ← positive value
  ok (record f { n_param = n })

unfoldable pub step : Ntile → Ntile
step f = record f { n_total = f.n_total + 1 }

unfoldable pub inverse : Ntile → Ntile
inverse f = record f { i_row = f.i_row + 1 }

-- Done, with the bucket as a natural number.
unfoldable pub finish : Ntile → Result ℕ
finish f =
    let n_size = f.n_total / f.n_param in
    if n_size == 0
    then ok (f.i_row + 1)
    else (let n_large = f.n_total - f.n_param * n_size in
        let i_small = n_large * (n_size + 1) in
        if n_large * (n_size + 1) + (f.n_param - n_large) * n_size == f.n_total
        then (if ltb f.i_row i_small
            then ok (1 + f.i_row / (n_size + 1))
            else ok (1 + n_large + (f.i_row - i_small) / n_size))
        else err assertion_failed)
