-- ===== src/Function/Operators.antt =====
-- internal/function.go: arithmetic, comparison and bit operators, BETWEEN, IN, DISTINCT FROM.
use go_zetasqlite.Prelude.{
  ℕ, Bool, true, false, not, ◌&&◌, Option, none, some, List, [], ◌∷◌, if◌then◌else◌,
}
use go_zetasqlite.Prelude.Int.{ℤ, pos, negsuc}
use go_zetasqlite.Prelude.Bytes.{Bytes}
use go_zetasqlite.Int64
use go_zetasqlite.Result.{Result, ok, panic, ◌>>=◌}
use go_zetasqlite.Value.{Value, int, bool, to_list, call, Comparison, eq, gte, lte}
use go_zetasqlite.Value.Convert.{to_int64, to_array}
use go_zetasqlite.Value.Compare
use go_zetasqlite.Value.Arith

-- A result of the Go type `Value`: `none` is nil.
abbrev pub Answer : Type 0
Answer = Result (Option Value)

abbrev pub answer : Value → Answer
answer v = ok (some v)

unfoldable pub exists_null : List (Option Value) → Bool
exists_null [] = false
exists_null (none ∷ args) = true
exists_null (some v ∷ args) = exists_null args

unfoldable pub sub : Option Value → Option Value → Answer
sub a b = do v ← call a (λ r. Arith.sub r b); answer v

unfoldable pub mul : Option Value → Option Value → Answer
mul a b = do v ← call a (λ r. Arith.mul r b); answer v

unfoldable pub op_div : Option Value → Option Value → Answer
op_div a b = do v ← call a (λ r. Arith.div r b); answer v

unfoldable pub bit_not : Option Value → Answer
bit_not a = do v ← call a to_int64; answer (int (Int64.complement v))

-- A shift by a negative count panics.
unfoldable pub shift_by : (ℤ → ℕ → ℤ) → ℤ → ℤ → Answer
shift_by shift va (pos k) = answer (int (shift va k))
shift_by shift va (negsuc k) = panic

unfoldable pub bit_left_shift : Option Value → Option Value → Answer
unfolding shift_by
bit_left_shift a b = do va ← call a to_int64; vb ← call b to_int64; shift_by Int64.shift_left va vb

unfoldable pub bit_right_shift : Option Value → Option Value → Answer
unfolding shift_by
bit_right_shift a b = do
  va ← call a to_int64
  vb ← call b to_int64
  shift_by Int64.shift_right va vb

unfoldable pub bit_and : Option Value → Option Value → Answer
bit_and a b = do va ← call a to_int64; vb ← call b to_int64; answer (int (Int64.bitwise_and va vb))

unfoldable pub bit_or : Option Value → Option Value → Answer
bit_or a b = do va ← call a to_int64; vb ← call b to_int64; answer (int (Int64.bitwise_or va vb))

unfoldable pub bit_xor : Option Value → Option Value → Answer
bit_xor a b = do va ← call a to_int64; vb ← call b to_int64; answer (int (Int64.bitwise_xor va vb))

module _ (quote : Bytes → Bytes) where
  unfoldable pub add : Option Value → Option Value → Answer
  add a b = do v ← call a (λ r. Arith.add quote r b); answer v

  -- EQ, GT, GTE, LT and LTE of function.go
  unfoldable pub comparison : Comparison → Option Value → Option Value → Answer
  comparison op a b = do cond ← call a (λ r. Compare.compare quote op r b); answer (bool cond)

  unfoldable pub not_eq : Option Value → Option Value → Answer
  not_eq a b = do cond ← call a (λ r. Compare.compare quote eq r b); answer (bool (not cond))

  unfoldable pub between : Option Value → Option Value → Option Value → Answer
  between target start end_ = do
    greater_than_start ← call target (λ r. Compare.compare quote gte r start)
    less_than_end ← call target (λ r. Compare.compare quote lte r end_)
    answer (bool (greater_than_start && less_than_end))

  -- `IN`: the loop over the listed values.
  unfoldable pub in_values : Option Value → List (Option Value) → Answer
  in_values a [] = answer (bool false)
  in_values a (none ∷ vs) = in_values a vs
  in_values a (some v ∷ vs) = do
    cond ← call a (λ r. Compare.compare quote eq r (some v))
    if cond then answer (bool true) else in_values a vs

  -- ArrayValue.Has
  unfoldable pub has : List (Option Value) → Option Value → Result Bool
  has [] v = ok false
  has (val ∷ vals) v = do
    cond ← call val (λ r. Compare.compare quote eq r v)
    if cond then ok true else has vals v

  unfoldable pub array_in : Option Value → Option Value → Answer
  unfolding has
  array_in a b = do
    array ← call b to_array
    elim array [ none ↦ panic | some xs ↦ do cond ← has (to_list xs) a; answer (bool cond) ]

  unfoldable pub is_distinct_from : Option Value → Option Value → Answer
  is_distinct_from none none = answer (bool false)
  is_distinct_from none (some b) = answer (bool true)
  is_distinct_from (some a) none = answer (bool true)
  is_distinct_from (some a) (some b) = do
    cond ← Compare.compare quote eq a (some b)
    answer (bool (not cond))

  unfoldable pub is_not_distinct_from : Option Value → Option Value → Answer
  is_not_distinct_from none none = answer (bool true)
  is_not_distinct_from none (some b) = answer (bool false)
  is_not_distinct_from (some a) none = answer (bool false)
  is_not_distinct_from (some a) (some b) = do
    cond ← Compare.compare quote eq a (some b)
    answer (bool cond)

  unfoldable pub nullif : Option Value → Option Value → Answer
  nullif none b = ok none
  nullif (some a) b = do cond ← Compare.compare quote eq a b; if cond then ok none else answer a
