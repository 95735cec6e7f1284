-- ===== src/Window/Ntile/Buckets.antt =====
-- The buckets into which NTILE cuts the rows of a frame.
use Prim.Native.Nat.{min}
use native.Mathlib.Nat.{div-add-mod, mod-lt, div-eq_of_lt-le}
use go_zetasqlite.Prelude.{
  ℕ, zero, suc, ◌+◌, ◌-◌, ◌*◌, ◌/◌, ◌%◌, ◌≤◌, ◌<◌, ◌≡◌, ap, arith, ltb, ◌==◌, Bool-cases, inl, inr,
  if◌then◌else◌,
}
use go_zetasqlite.Result.{Result, ok, err, assertion_failed}
use go_zetasqlite.Window.Ntile.{Ntile, finish}

-- The first row of bucket `b`, counted from 0, when `total` rows are cut into `n` buckets.
abbrev pub first_row : ℕ → ℕ → ℕ → ℕ
first_row n total b = b * (total / n) + min b (total % n)

remainder : (total n : ℕ) → total - n * (total / n) ≡ total % n
remainder total n = omega (arith, div-add-mod total n)

sizes_add_up : (n q r total : ℕ) → r ≤ n → n * q + r ≡ total → r * (q + 1) + (n - r) * q ≡ total
sizes_add_up n q r total h e =
    let split : r + (n - r) ≡ n = omega arith in omega (arith, ap (λ (t : ℕ). t * q) split)

-- The choice that Done makes, over the bucket size `q` and the number `r` of larger buckets.
abbrev choose : ℕ → ℕ → ℕ → ℕ → ℕ → Result ℕ
choose n q r total i =
    if q == 0
    then ok (i + 1)
    else (if r * (q + 1) + (n - r) * q == total
        then (if ltb i (r * (q + 1))
            then ok (1 + i / (q + 1))
            else ok (1 + r + (i - r * (q + 1)) / q))
        else err assertion_failed)

in_large :
    (q r i b : ℕ)
    → b < r
    → b * (q + 1) ≤ i
    → i < (b + 1) * (q + 1)
    → (i < r * (q + 1)) × (i / (q + 1) ≡ b)
in_large q r i b h lo hi = (grind arith, div-eq_of_lt-le (q + 1) lo hi)

in_small :
    (q r i b : ℕ)
    → r ≤ b
    → b * q + r ≤ i
    → i < (b + 1) * q + r
    → (r * (q + 1) ≤ i) × ((i - r * (q + 1)) / q ≡ b - r)
in_small q r i b h lo hi =
    let split : r + (b - r) ≡ b = omega arith in
    let scaled : (r + (b - r)) * q ≡ b * q = ap (λ (t : ℕ). t * q) split in
    (omega (arith, scaled), div-eq_of_lt-le q (omega (arith, scaled)) (omega (arith, scaled)))

choose_lem :
    (n q r total i b : ℕ)
    → r < n
    → n * q + r ≡ total
    → b * q + min b r ≤ i
    → i < (b + 1) * q + min (b + 1) r
    → choose n q r total i ≡ ok (b + 1)
choose_lem n zero r total i b h e lo hi = ap ok (omega arith)
choose_lem n (suc q) r total i b h e lo hi = elim (Bool-cases (ltb b r)) [
  | inl lt ↦
      let (below, same) =
        in_large (suc q) r i b (ground (arith, lt)) (ground (arith, lt)) (ground (arith, lt)) in
      ground (arith, sizes_add_up n (suc q) r total, below, same)
  | inr ge ↦
      let (above, same) =
        in_small (suc q) r i b (ground (arith, ge)) (ground (arith, ge)) (ground (arith, ge)) in
      ground (arith, sizes_add_up n (suc q) r total, above, same)
]

-- For a positive number of buckets, NTILE gives bucket `b + 1` to the rows from the first row of
-- bucket `b` up to that of the next; its assertion does not fail.
pub finish-bucket :
    (f : Ntile) (b : ℕ)
    → 0 < f.n_param
    → first_row f.n_param f.n_total b ≤ f.i_row
    → f.i_row < first_row f.n_param f.n_total (b + 1)
    → finish f ≡ ok (b + 1)
unfolding finish
finish-bucket f b p lo hi = rw (remainder f.n_total f.n_param) (
    choose_lem f.n_param (f.n_total / f.n_param) (f.n_total % f.n_param) f.n_total f.i_row b
      (mod-lt f.n_total p) (div-add-mod f.n_total f.n_param) lo hi)

some_bucket :
    (start : ℕ → ℕ) (n i : ℕ)
    → start 0 ≤ i
    → i < start n
    → (b : ℕ) × (b < n) × (start b ≤ i) × (i < start (b + 1))
some_bucket start zero i lo hi = absurd (omega arith)
some_bucket start (suc n) i lo hi = elim (Bool-cases (ltb i (start n))) [
  | inl lt ↦
      let (b, p, q, r) = some_bucket start n i lo (ground (arith, lt)) in (b, omega arith, q, r)
  | inr ge ↦ (n, omega arith, ground (arith, ge), let e : n + 1 ≡ suc n = omega arith in rw e hi)
]

last_start : (n total : ℕ) → 0 < n → first_row n total n ≡ total
last_start n total p = omega (arith, div-add-mod total n, mod-lt total p)

-- For a positive number `n` of buckets, NTILE gives every row in front of the last row's end,
-- `i_row` below `n_total`, a bucket between 1 and `n`, without error.
pub finish_total :
    (f : Ntile)
    → 0 < f.n_param
    → f.i_row < f.n_total
    → (b : ℕ) × (b < f.n_param) × (finish f ≡ ok (b + 1))
finish_total f p h =
    let (b, inside, lo, hi) =
      some_bucket (first_row f.n_param f.n_total) f.n_param f.i_row (omega arith)
        (rw (last_start f.n_param f.n_total p) h) in
    (b, inside, finish-bucket f b p lo hi)
