-- ===== src/Tests/Values.antt =====
-- The scalar functions and the values at concrete inputs.
use go_zetasqlite.Prelude.{◌≡◌, refl, true, false, Option, none, some, List, [], ◌∷◌, ◌++◌, arith}
use go_zetasqlite.Prelude.Int.{pos, negsuc, ◌+ℤ◌}
use go_zetasqlite.Prelude.Bytes.{Bytes}
use go_zetasqlite.Result.{ok, out_of_fuel, ◌>>=◌}
use go_zetasqlite.Value.{Value, int, string, bytes, bool, array, Elems, gt}
use go_zetasqlite.Value.Convert.{to_bool, to_int64, to_string, to_bytes}
use go_zetasqlite.Value.Convert.RoundTrip.{to_int64-to_string}
use go_zetasqlite.Value.Compare
use go_zetasqlite.Value.IntValue
use go_zetasqlite.Value.Compare.Arrays.{compare-ints, ints}
use go_zetasqlite.Function.Operators.{answer}
use go_zetasqlite.Function.Logic.{and, or}
use go_zetasqlite.Function.Logic.Kleene.{and-conj_all, or-disj_all}
use go_zetasqlite.Function.Access.{array_offset, array_safe_offset}
use go_zetasqlite.Function.Access.Safe.{safe, safe_offset-offset}
use go_zetasqlite.Function.Array.{array_slice, generate_array, make_array}
use go_zetasqlite.Function.Array.Slice.{array_slice_lem}
use go_zetasqlite.Function.Array.Generate.{generate_array-progression, generate_array-diverges}

-- Quotes around the text, as strconv.Quote puts them where nothing is to be escaped.
abbrev plain_quote : Bytes → Bytes
plain_quote s = b'"' ∷ (s ++ (b'"' ∷ []))

abbrev three : List (Option Value)
three = some (int (pos 1)) ∷ none ∷ some (int (pos 3)) ∷ []

abbrev numbers : Elems
numbers = ints (pos 5 ∷ pos 6 ∷ [])

and-conj_all_example :
    and (some (bool true) ∷ none ∷ some (int (pos 0)) ∷ []) ≡ ok (some (bool false))
unfolding to_bool
and-conj_all_example =
    and-conj_all (some (bool true) ∷ none ∷ some (int (pos 0)) ∷ [])
      (some true ∷ none ∷ some false ∷ []) (refl, (tt, (refl, tt)))

or-disj_all_example : or (none ∷ some (bool false) ∷ []) ≡ ok none
unfolding to_bool
or-disj_all_example =
    or-disj_all (none ∷ some (bool false) ∷ []) (none ∷ some false ∷ []) (tt, (refl, tt))

safe_offset-offset_example :
    array_safe_offset (some (array numbers)) (pos 7)
    ≡ safe (array_offset (some (array numbers)) (pos 7))
safe_offset-offset_example = safe_offset-offset (some (array numbers)) (pos 7)

array_slice_lem_example : array_slice three (negsuc 1) (pos 9) ≡ ok (none ∷ some (int (pos 3)) ∷ [])
array_slice_lem_example = array_slice_lem three (negsuc 1) (pos 9)

generate_array-progression_example :
    generate_array plain_quote 6 (some (int (pos 1))) (some (int (pos 6))) (some (int (pos 2)))
    ≡ answer (make_array (some (int (pos 1)) ∷ some (int (pos 3)) ∷ some (int (pos 5)) ∷ []))
unfolding ◌+ℤ◌
generate_array-progression_example =
    generate_array-progression plain_quote 6 (pos 1) 2 5 (omega arith) (omega arith) (omega arith)
      (omega arith) (omega arith)

generate_array-diverges_example :
    generate_array plain_quote 9 (some (int (pos 3))) (some (int (pos 1))) (some (int (pos 0)))
    ≡ out_of_fuel
generate_array-diverges_example =
    generate_array-diverges plain_quote 9 (pos 3) (pos 1) (omega arith) refl

-- [1] > [2], by the method.
compare-ints_example :
    Compare.compare plain_quote gt (array (ints (pos 1 ∷ []))) (some (array (ints (pos 2 ∷ []))))
    ≡ ok true
unfolding IntValue.holds
compare-ints_example = compare-ints plain_quote gt (pos 1 ∷ []) (pos 2 ∷ [])

to_int64-to_string_example :
    ((to_string plain_quote (int (negsuc 41)) >>= λ s. to_int64 (string s)) ≡ ok (negsuc 41))
    × ((to_bytes plain_quote (int (negsuc 41)) >>= λ s. to_int64 (bytes s)) ≡ ok (negsuc 41))
to_int64-to_string_example = to_int64-to_string plain_quote (negsuc 41) (omega arith)
