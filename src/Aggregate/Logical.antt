-- ===== src/Aggregate/Logical.antt =====
-- LOGICAL_AND and LOGICAL_OR against the scalar functions AND and OR.
use go_zetasqlite.Prelude.{◌≡◌, refl, true, false, Option, none, some, List, [], ◌∷◌}
use go_zetasqlite.Result.{ok, ◌>>=◌}
use go_zetasqlite.Value.{Value, bool}
use go_zetasqlite.Function.Operators.{answer, exists_null}
use go_zetasqlite.Function.Logic.{and_loop, and, or_loop, or}
use go_zetasqlite.Function.Logic.Kleene.{Truth, Denote}
use go_zetasqlite.Aggregate.{run, logical_and_step, logical_or_step, logical_done}
use go_zetasqlite.Window.Status.Relevant.{present}

and-run-false :
    (rows : List (Option Value)) (ts : List Truth)
    → Denote rows ts
    → run logical_and_step false rows ≡ ok false
unfolding logical_and_step
and-run-false [] [] h = refl
and-run-false [] (t ∷ ts) h = absurd h
and-run-false (v ∷ rows) [] h = absurd h
and-run-false (none ∷ rows) (none ∷ ts) (d, h) = and-run-false rows ts h
and-run-false (none ∷ rows) (some b ∷ ts) (d, h) = absurd d
and-run-false (some v ∷ rows) (none ∷ ts) (d, h) = absurd d
and-run-false (some v ∷ rows) (some true ∷ ts) (d, h) = rw d (and-run-false rows ts h)
and-run-false (some v ∷ rows) (some false ∷ ts) (d, h) = rw d (and-run-false rows ts h)

or-run-true :
    (rows : List (Option Value)) (ts : List Truth)
    → Denote rows ts
    → run logical_or_step true rows ≡ ok true
unfolding logical_or_step
or-run-true [] [] h = refl
or-run-true [] (t ∷ ts) h = absurd h
or-run-true (v ∷ rows) [] h = absurd h
or-run-true (none ∷ rows) (none ∷ ts) (d, h) = or-run-true rows ts h
or-run-true (none ∷ rows) (some b ∷ ts) (d, h) = absurd d
or-run-true (some v ∷ rows) (none ∷ ts) (d, h) = absurd d
or-run-true (some v ∷ rows) (some true ∷ ts) (d, h) = rw d (or-run-true rows ts h)
or-run-true (some v ∷ rows) (some false ∷ ts) (d, h) = rw d (or-run-true rows ts h)

exists_null-present : (rows : List (Option Value)) → exists_null (present rows) ≡ false
unfolding exists_null
exists_null-present [] = refl
exists_null-present (none ∷ rows) = exists_null-present rows
exists_null-present (some v ∷ rows) = exists_null-present rows

and-run :
    (rows : List (Option Value)) (ts : List Truth)
    → Denote rows ts
    → (run logical_and_step true rows >>= logical_done)
      ≡ and_loop (present rows) (answer (bool true))
unfolding logical_and_step logical_done and_loop
and-run [] [] h = refl
and-run [] (t ∷ ts) h = absurd h
and-run (v ∷ rows) [] h = absurd h
and-run (none ∷ rows) (none ∷ ts) (d, h) = and-run rows ts h
and-run (none ∷ rows) (some b ∷ ts) (d, h) = absurd d
and-run (some v ∷ rows) (none ∷ ts) (d, h) = absurd d
and-run (some v ∷ rows) (some true ∷ ts) (d, h) = rw d (and-run rows ts h)
and-run (some v ∷ rows) (some false ∷ ts) (d, h) = rw (d, and-run-false rows ts h)

or-run :
    (rows : List (Option Value)) (ts : List Truth)
    → Denote rows ts
    → (run logical_or_step false rows >>= logical_done)
      ≡ or_loop (present rows) (answer (bool false))
unfolding logical_or_step logical_done or_loop
or-run [] [] h = refl
or-run [] (t ∷ ts) h = absurd h
or-run (v ∷ rows) [] h = absurd h
or-run (none ∷ rows) (none ∷ ts) (d, h) = or-run rows ts h
or-run (none ∷ rows) (some b ∷ ts) (d, h) = absurd d
or-run (some v ∷ rows) (none ∷ ts) (d, h) = absurd d
or-run (some v ∷ rows) (some false ∷ ts) (d, h) = rw d (or-run rows ts h)
or-run (some v ∷ rows) (some true ∷ ts) (d, h) = rw (d, or-run-true rows ts h)

-- Over rows that convert to truth values or are null, LOGICAL_AND is the scalar AND of the rows that
-- are not null, and LOGICAL_OR is the scalar OR of them.
pub logical-scalar :
    (rows : List (Option Value)) (ts : List Truth)
    → Denote rows ts
    → ((run logical_and_step true rows >>= logical_done) ≡ and (present rows))
      × ((run logical_or_step false rows >>= logical_done) ≡ or (present rows))
unfolding and or
logical-scalar rows ts h = rw (exists_null-present rows) (and-run rows ts h, or-run rows ts h)
