-- ===== src/Function/Array/Order.antt =====
-- ARRAY_REVERSE, ARRAY_CONCAT, ARRAY_FIRST and ARRAY_LAST against the list functions.
use mathlib.Core.List.{reverse, reverse-append, reverse-reverse, flatten}
use go_zetasqlite.Prelude.{
  ℕ, zero, suc, ◌≤◌, ◌<◌, ◌≡◌, refl, sym, ap, ◌∙◌, Option, some, List, [], ◌∷◌, ◌++◌, map,
  append_assoc, append-nil, length, length-append, take, arith,
}
use go_zetasqlite.Prelude.Int.{pos, ◌-ℤ◌}
use go_zetasqlite.Result.{ok, ◌>>=◌}
use go_zetasqlite.Value.{Value, array, Elems, to_list, of_list, to_list-of_list}
use go_zetasqlite.Value.Convert.{to_array}
use go_zetasqlite.Function.Operators.{answer}
use go_zetasqlite.Function.Access.{at, values}
use go_zetasqlite.Function.Array.{
  make_array, concat_loop, array_concat, array_last, bind_array_first, bind_array_last,
  reverse_loop, array_reverse,
}

take_next :
    (xs : List (Option Value)) (i : ℕ)
    → i < length xs
    → (v : Option Value) × (at xs (pos i) ≡ ok v) × (take (suc i) xs ≡ take i xs ++ v ∷ [])
unfolding at
take_next [] i h = elim h [ ]
take_next (x ∷ xs) zero h = (x, refl, refl)
take_next (x ∷ xs) (suc i) h =
    let (v, e, t) = take_next xs i (omega arith) in (v, e, ap (λ r. x ∷ r) t)

take-length : (xs : List (Option Value)) → take (length xs) xs ≡ xs
take-length [] = refl
take-length (x ∷ xs) = ap (λ r. x ∷ r) (take-length xs)

reverse_loop_lem :
    (xs : List (Option Value)) (n : ℕ) (ret : List (Option Value))
    → n ≤ length xs
    → reverse_loop xs n ret ≡ ok (ret ++ reverse (take n xs))
unfolding reverse_loop
reverse_loop_lem xs zero ret h = ap ok (sym (append-nil ret))
reverse_loop_lem xs (suc i) ret h =
    let (v, e, t) = take_next xs i h in
    rw (e, t, reverse-append (take i xs) (v ∷ []))
      (reverse_loop_lem xs i (ret ++ v ∷ []) (omega arith)
        ∙ ap ok (append_assoc ret (v ∷ []) (reverse (take i xs))))

-- ARRAY_REVERSE returns the elements in reverse order, and never fails.
pub array_reverse_lem :
    (xs : List (Option Value)) → array_reverse xs ≡ answer (make_array (reverse xs))
unfolding array_reverse
array_reverse_lem xs = rw (reverse_loop_lem xs (length xs) [] (omega arith), take-length)

concat_loop_lem :
    (acc : List (Option Value)) (xss : List Elems)
    → concat_loop acc (map (λ xs. some (array xs)) xss)
      ≡ answer (make_array (acc ++ flatten (map to_list xss)))
unfolding concat_loop to_array flatten
concat_loop_lem acc [] = rw append-nil
concat_loop_lem acc (xs ∷ xss) =
    concat_loop_lem (acc ++ to_list xs) xss
    ∙ ap (λ r. answer (make_array r)) (append_assoc acc (to_list xs) _)

-- ARRAY_CONCAT of arrays is the array of all their elements in order, nulls included.
pub array_concat_lem :
    (xss : List Elems)
    → array_concat (map (λ xs. some (array xs)) xss)
      ≡ answer (make_array (flatten (map to_list xss)))
unfolding array_concat
array_concat_lem xss = concat_loop_lem [] xss

at-append :
    (xs : List (Option Value)) (x : Option Value) → at (xs ++ x ∷ []) (pos (length xs)) ≡ ok x
unfolding at
at-append [] x = refl
at-append (y ∷ xs) x = at-append xs x

last_index :
    (x : Option Value) (xs : List (Option Value))
    → array_last (x ∷ xs) ≡ at (x ∷ xs) (pos (length xs))
unfolding array_last ◌-ℤ◌
last_index x xs =
    let e : pos (suc (length xs)) -ℤ pos 1 ≡ pos (length xs) = ground arith in
    ap (λ n. at (x ∷ xs) n) e

bind_array_last-at :
    (x : Option Value) (xs : List (Option Value))
    → bind_array_last (some (make_array (x ∷ xs))) ≡ at (x ∷ xs) (pos (length xs))
unfolding bind_array_last to_array
bind_array_last-at x xs = rw (to_list-of_list, ◌>>=◌) (last_index x xs)

bind_array_last-append :
    (xs : List (Option Value)) (x : Option Value)
    → bind_array_last (some (make_array (xs ++ x ∷ []))) ≡ ok x
bind_array_last-append [] x = bind_array_last-at x [] ∙ at-append [] x
bind_array_last-append (y ∷ ys) x = rw bind_array_last-at (
    let e : length (ys ++ x ∷ []) ≡ suc (length ys) = omega (arith, length-append ys (x ∷ [])) in
    ap (λ n. at (y ∷ ys ++ x ∷ []) (pos n)) e ∙ at-append (y ∷ ys) x)

bind_array_first-cons :
    (x : Option Value) (xs : List (Option Value))
    → bind_array_first (some (make_array (x ∷ xs))) ≡ ok x
unfolding bind_array_first to_array at
bind_array_first-cons x xs = rw to_list-of_list

by_reverse :
    (ys : List (Option Value))
    → bind_array_first (some (make_array ys)) ≡ bind_array_last (some (make_array (reverse ys)))
by_reverse [] = unfold bind_array_first bind_array_last to_array of_list values in refl
by_reverse (y ∷ ys) =
    rw (reverse-append (y ∷ []) ys, bind_array_first-cons)
      (sym (bind_array_last-append (reverse ys) y))

-- ARRAY_FIRST of a reversed array is ARRAY_LAST of the array; on the empty array both are the same
-- error.
pub first-reverse :
    (xs : List (Option Value))
    → bind_array_first (some (make_array (reverse xs))) ≡ bind_array_last (some (make_array xs))
first-reverse xs =
    by_reverse (reverse xs) ∙ ap (λ r. bind_array_last (some (make_array r))) (reverse-reverse xs)
