-- ===== src/Writer/Precedence.antt =====
-- The text of operators inside operators.
use go_zetasqlite.Prelude.{ℕ, ◌≡◌, refl, [], ◌∷◌, ◌++◌}
use go_zetasqlite.Prelude.Bytes.{Bytes, codes}
use go_zetasqlite.Result.{Result, ok, err, panic, out_of_fuel, ◌>>=◌}
use go_zetasqlite.Flatten.{Expr}
use go_zetasqlite.Query.Build.{new_binary_expression}
use go_zetasqlite.Query.Function.{optimize_function_to_sql, function_to_operator, chained, chain}
use go_zetasqlite.Writer.{Writer, Write, ◌▷◌, write}
use go_zetasqlite.Writer.Expression.{write_expr, write_suffix, unless_nil}

-- The text of an expression that was built without an error.
abbrev pub write_result : (at : ℕ → Write) → Result Expr → Write
write_result at (ok e) = write_expr at e
write_result at (err x) = λ w. err x
write_result at panic = λ w. panic
write_result at out_of_fuel = λ w. out_of_fuel

abbrev again : Write
again x = Result.ok x >>= ok

again_twice : (r : Result Writer) → (r >>= again) ≡ ((r >>= again) >>= again)
again_twice (ok x) = refl
again_twice (err e) = refl
again_twice panic = refl
again_twice out_of_fuel = refl

move_right :
    (r : Result Writer) (next : Write)
    → (((r >>= again) >>= next) >>= again) ≡ (((r >>= next) >>= again) >>= again)
move_right (ok x) next = again_twice (next x)
move_right (err e) next = refl
move_right panic next = refl
move_right out_of_fuel next = refl

regroup :
    (r : Result Writer) (b c : Write) (o p : Bytes)
    → ((((r >>= (write o ▷ b)) >>= again) >>= (write p ▷ c)) >>= again)
      ≡ ((r >>= (write o ▷ (λ x. ((b x >>= (write p ▷ c)) >>= again)))) >>= again)
unfolding write
regroup (ok x) b c o p = move_right (b (record x { builder = x.builder ++ o })) (write p ▷ c)
regroup (err e) b c o p = refl
regroup panic b c o p = refl
regroup out_of_fuel b c o p = refl

-- An AND of an OR has the text of an OR of an AND: the operators are written without parentheses,
-- so that SQL reads the first as the second.
pub and-or_text :
    (at : ℕ → Write) (a b c : Expr) (w : Writer)
    → write_result at
        (optimize_function_to_sql (codes "zetasqlite_or") (a ∷ b ∷ []) >>= λ e.
          optimize_function_to_sql (codes "zetasqlite_and") (e ∷ c ∷ []))
        w
      ≡ write_result at
          (optimize_function_to_sql (codes "zetasqlite_and") (b ∷ c ∷ []) >>= λ e.
            optimize_function_to_sql (codes "zetasqlite_or") (a ∷ e ∷ []))
          w
unfolding optimize_function_to_sql function_to_operator chained chain new_binary_expression
    write_expr write_suffix
and-or_text at a b c w =
    regroup (unless_nil a (write_expr at a) w) (unless_nil b (write_expr at b))
      (unless_nil c (write_expr at c)) (codes " OR ") (codes " AND ")
