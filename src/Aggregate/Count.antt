-- ===== src/Aggregate/Count.antt =====
-- COUNT, COUNT(*) and COUNTIF.
use go_zetasqlite.Prelude.{
  ℕ, suc, ◌+◌, ◌<◌, ◌≡◌, refl, ap, ◌∙◌, true, false, Option, none, some, List, [], ◌∷◌, length,
  arith,
}
use go_zetasqlite.Prelude.Int.{pos, ◌+ℤ◌}
use go_zetasqlite.Prelude.Bytes.{Bytes}
use go_zetasqlite.Int64
use go_zetasqlite.Int64.{half}
use go_zetasqlite.Int64.Ring.{add-exact}
use go_zetasqlite.Result.{ok, ◌>>=◌}
use go_zetasqlite.Value.{Value, int}
use go_zetasqlite.Value.Convert.{to_int64}
use go_zetasqlite.Value.Arith
use go_zetasqlite.Value.IntValue
use go_zetasqlite.Function.Operators.{answer}
use go_zetasqlite.Function.Logic.Kleene.{Truth, Denote}
use go_zetasqlite.Aggregate.{
  run, count_star_step, count_star_done, count_step, countif_step, count_done,
}
use go_zetasqlite.Window.Status.Relevant.{present}

one_more : (n : ℕ) → n + 1 < half → Int64.add (pos n) (pos 1) ≡ pos (n + 1)
one_more n h =
    add-exact (pos n) (pos 1) (omega arith) (omega arith) (unfold ◌+ℤ◌ in ground arith)
    ∙ unfold ◌+ℤ◌ in ground arith

-- How many of the truth values are true.
abbrev pub trues : List Truth → ℕ
trues [] = 0
trues (some true ∷ ts) = suc (trues ts)
trues (t ∷ ts) = trues ts

star-run :
    (n : ℕ) (rows : List (Option Value))
    → n + length rows < half
    → run count_star_step (pos n) rows ≡ ok (pos (n + length rows))
unfolding count_star_step
star-run n [] h = ap (λ k. ok (pos k)) (omega arith)
star-run n (row ∷ rows) h =
    rw (one_more n (omega arith))
      (star-run (n + 1) rows (omega arith) ∙ ap (λ k. ok (pos k)) (omega arith))

-- COUNT(*) returns the number of rows, if there are less than 2^63.
pub count_star-length :
    (rows : List (Option Value))
    → length rows < half
    → (run count_star_step (pos 0) rows >>= count_star_done) ≡ answer (int (pos (length rows)))
unfolding count_star_done
count_star-length rows h =
    rw (star-run 0 rows (omega arith)) (ap (λ k. answer (int (pos k))) (omega arith))

module _ (quote : Bytes → Bytes) where
  count-run :
      (n : ℕ) (rows : List (Option Value))
      → n + length (present rows) < half
      → run (count_step quote) (some (int (pos n))) rows
        ≡ ok (some (int (pos (n + length (present rows)))))
  unfolding count_step Arith.add IntValue.add to_int64
  count-run n [] h = ap (λ k. ok (some (int (pos k)))) (omega arith)
  count-run n (none ∷ rows) h = count-run n rows h
  count-run n (some v ∷ rows) h =
      rw (one_more n (omega arith))
        (count-run (n + 1) rows (omega arith) ∙ ap (λ k. ok (some (int (pos k)))) (omega arith))

  count_start :
      (rows : List (Option Value))
      → length (present rows) < half
      → (run (count_step quote) none rows >>= count_done)
        ≡ answer (int (pos (length (present rows))))
  unfolding count_step count_done
  count_start [] h = refl
  count_start (none ∷ rows) h = count_start rows h
  count_start (some v ∷ rows) h =
      rw (count-run 1 rows (omega arith)) (ap (λ k. answer (int (pos k))) (omega arith))

  -- COUNT returns the number of rows that are not null, if there are less than 2^63.
  pub count-present :
      (rows : List (Option Value))
      → length (present rows) < half
      → (run (count_step quote) none rows >>= count_done)
        ≡ answer (int (pos (length (present rows))))
  count-present rows h = count_start rows h

  countif-run :
      (n : ℕ) (rows : List (Option Value)) (ts : List Truth)
      → Denote rows ts
      → n + trues ts < half
      → run (countif_step quote) (some (int (pos n))) rows ≡ ok (some (int (pos (n + trues ts))))
  unfolding countif_step Arith.add IntValue.add to_int64
  countif-run n [] [] d h = ap (λ k. ok (some (int (pos k)))) (omega arith)
  countif-run n [] (t ∷ ts) d h = absurd d
  countif-run n (v ∷ rows) [] d h = absurd d
  countif-run n (none ∷ rows) (none ∷ ts) (d, ds) h = countif-run n rows ts ds h
  countif-run n (none ∷ rows) (some b ∷ ts) (d, ds) h = absurd d
  countif-run n (some v ∷ rows) (none ∷ ts) (d, ds) h = absurd d
  countif-run n (some v ∷ rows) (some true ∷ ts) (d, ds) h = rw d (
      rw (one_more n (omega arith)) (
        countif-run (n + 1) rows ts ds (omega arith)
        ∙ ap (λ k. ok (some (int (pos k)))) (omega arith)))
  countif-run n (some v ∷ rows) (some false ∷ ts) (d, ds) h = rw d (countif-run n rows ts ds h)

  -- COUNTIF over rows that convert to truth values or are null returns the number of those that are
  -- true, if there are less than 2^63.
  pub countif-trues :
      (rows : List (Option Value)) (ts : List Truth)
      → Denote rows ts
      → trues ts < half
      → (run (countif_step quote) none rows >>= count_done) ≡ answer (int (pos (trues ts)))
  unfolding countif_step count_done
  countif-trues [] [] d h = refl
  countif-trues [] (t ∷ ts) d h = absurd d
  countif-trues (v ∷ rows) [] d h = absurd d
  countif-trues (none ∷ rows) (none ∷ ts) (d, ds) h = countif-trues rows ts ds h
  countif-trues (none ∷ rows) (some b ∷ ts) (d, ds) h = absurd d
  countif-trues (some v ∷ rows) (none ∷ ts) (d, ds) h = absurd d
  countif-trues (some v ∷ rows) (some true ∷ ts) (d, ds) h =
      rw (d, countif-run 1 rows ts ds (omega arith)) (ap (λ k. answer (int (pos k))) (omega arith))
  countif-trues (some v ∷ rows) (some false ∷ ts) (d, ds) h = rw d (countif-trues rows ts ds h)
