-- ===== src/Window/Status/Queue.antt =====
-- The frame through a series of calls of Step and Inverse.
use go_zetasqlite.Prelude.{◌≡◌, refl, true, false, Option, none, some, List, [], ◌∷◌, ◌++◌, arith}
use go_zetasqlite.Prelude.Bytes.{bytes_eq_refl}
use go_zetasqlite.Result.{Result, ok, ◌>>=◌}
use go_zetasqlite.Value.{Value, int, string, bytes, bool, array}
use go_zetasqlite.Window.Status.{Status, same_interface, step, cut, inverse}

-- The values that Go compares by content: all but byte strings and arrays.
abbrev pub Comparable : Option Value → Type 0
Comparable (some (bytes b)) = ⊥
Comparable (some (array xs)) = ⊥
Comparable v = Unit

-- The calls that SQLite makes as a frame slides.
pub data Move : Type 0 where
  enter leave : Option Value → Move

unfoldable pub run : List Move → Status → Result Status
unfolding step inverse
run [] s = ok s
run (enter v ∷ ms) s = run ms (step v s)
run (leave v ∷ ms) s = do s' ← inverse v s; run ms s'

-- A queue through a series of moves in which each value that leaves is the oldest one.
pub data Slides : List (Option Value) → List Move → List (Option Value) → Type 0 where
  done : {q : List (Option Value)} → Slides q [] q
  push :
      {q r : List (Option Value)} {ms : List Move} (v : Option Value)
      → Slides (q ++ v ∷ []) ms r
      → Slides q (enter v ∷ ms) r
  pop :
      {q r : List (Option Value)} {ms : List Move} (v : Option Value)
      → Comparable v
      → Slides q ms r
      → Slides (v ∷ q) (leave v ∷ ms) r

same_self : (v : Option Value) → Comparable v → same_interface v v ≡ ok true
unfolding same_interface
same_self none h = refl
same_self (some (int z)) h = ground arith
same_self (some (string s)) h = rw bytes_eq_refl
same_self (some (bool true)) h = refl
same_self (some (bool false)) h = refl
same_self (some (bytes s)) h = absurd h
same_self (some (array xs)) h = absurd h

inverse_oldest :
    (v : Option Value) (q : List (Option Value)) (s : Status)
    → Comparable v
    → inverse v (record s { values = v ∷ q }) ≡ ok (record s { values = q })
unfolding inverse cut
inverse_oldest v q s h = rw (same_self v h) (ground arith)

-- As long as each value that leaves the frame is the oldest one and is no byte string or array, the
-- calls of Step and Inverse never fail or panic, leave the options alone, and keep exactly the
-- values of a first-in first-out queue, in order.
pub run-Slides :
    (s : Status) {q r : List (Option Value)} {ms : List Move}
    → Slides q ms r
    → run ms (record s { values = q }) ≡ ok (record s { values = r })
unfolding run
run-Slides s done = refl
run-Slides s (push {q} v sl) = run-Slides s sl
run-Slides s (pop {q} v h sl) = rw (inverse_oldest v q s h) (run-Slides s sl)
