-- ===== src/Function/Logic.antt =====
-- internal/function.go: AND, OR, NOT, IS NULL, IS TRUE, COALESCE, IF, IFNULL.
pub mod Kleene
use go_zetasqlite.Prelude.{Bool, true, false, not, Option, none, some, List, [], ◌∷◌, if◌then◌else◌}
use go_zetasqlite.Prelude.Int.{pos, eqb_ℤ}
use go_zetasqlite.Result.{Result, ok, err, argument_num, ◌>>=◌}
use go_zetasqlite.Value.{Value, bool, call}
use go_zetasqlite.Value.Convert.{to_int64, to_bool}
use go_zetasqlite.Function.Operators.{Answer, answer, exists_null}

-- The loop of AND: `done` is what follows it.
unfoldable pub and_loop : List (Option Value) → Answer → Answer
and_loop [] done = done
and_loop (none ∷ args) done = and_loop args done
and_loop (some v ∷ args) done = do
  cond ← to_bool v
  if cond then and_loop args done else answer (bool false)

unfoldable pub and : List (Option Value) → Answer
unfolding and_loop exists_null
and args = and_loop args (if exists_null args then ok none else answer (bool true))

unfoldable pub or_loop : List (Option Value) → Answer → Answer
or_loop [] done = done
or_loop (none ∷ args) done = or_loop args done
or_loop (some v ∷ args) done = do
  cond ← to_bool v
  if cond then answer (bool true) else or_loop args done

unfoldable pub or : List (Option Value) → Answer
unfolding or_loop exists_null
or args = or_loop args (if exists_null args then ok none else answer (bool false))

unfoldable pub not_ : Option Value → Answer
not_ a = do v ← call a to_int64; answer (bool (eqb_ℤ v (pos 0)))

-- NOT with the null check of bindNot.
unfoldable pub bind_not : Option Value → Answer
unfolding not_
bind_not none = ok none
bind_not (some a) = not_ (some a)

unfoldable pub is_null : Option Value → Answer
is_null none = answer (bool true)
is_null (some v) = answer (bool false)

unfoldable pub is_true : Option Value → Answer
is_true a = do b ← call a to_bool; answer (bool b)

unfoldable pub is_false : Option Value → Answer
is_false a = do b ← call a to_bool; answer (bool (not b))

unfoldable pub coalesce : List (Option Value) → Answer
coalesce [] = ok none
coalesce (none ∷ args) = coalesce args
coalesce (some v ∷ args) = answer v

-- bindCoalesce
unfoldable pub bind_coalesce : List (Option Value) → Answer
unfolding coalesce
bind_coalesce [] = err argument_num
bind_coalesce (a ∷ args) = coalesce (a ∷ args)

unfoldable pub if_ : Option Value → Option Value → Option Value → Answer
if_ none true_v false_v = ok false_v
if_ (some cond) true_v false_v = do b ← to_bool cond; ok (if b then true_v else false_v)

unfoldable pub ifnull : Option Value → Option Value → Answer
ifnull none null_result = ok null_result
ifnull (some expr) null_result = answer expr
