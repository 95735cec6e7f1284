-- ===== src/Value/Compare.antt =====
-- The comparison methods by dynamic type, with those of ArrayValue (internal/value.go).
-- ArrayValue calls `arr.values[idx].EQ(value)`: at each level the roles of receiver and argument
-- are exchanged, so the recursion keeps the receiver's array in place and a flag for the roles.
pub mod Arrays
use go_zetasqlite.Prelude.{
  Bool, true, false, not, Option, none, some, List, [], ◌∷◌, length, ◌==◌, if◌then◌else◌,
}
use go_zetasqlite.Prelude.Bytes.{Bytes}
use go_zetasqlite.Result.{Result, ok, panic, ◌>>=◌}
use go_zetasqlite.Value.{
  Value, int, string, bytes, bool, array, Elems, end, elem, null, to_list, call, Comparison,
}
use go_zetasqlite.Value.Convert.{to_array}
use go_zetasqlite.Value.IntValue
use go_zetasqlite.Value.StringValue
use go_zetasqlite.Value.BytesValue
use go_zetasqlite.Value.BoolValue

-- An ArrayValue receiver and an argument that is not an array: ToArray fails, or gives the nil
-- pointer of the empty string, whose field cannot be read.
unfoldable pub array_with_other : Option Value → Result Bool
array_with_other v = do arr ← call v to_array; panic

module _ (quote : Bytes → Bytes) where
  -- r.OP(v) where r or v is not an array.
  unfoldable pub compare_scalar : Comparison → Value → Option Value → Result Bool
  unfolding array_with_other
  compare_scalar op (int z) v = IntValue.compare op z v
  compare_scalar op (string s) v = StringValue.compare quote op s v
  compare_scalar op (bytes s) v = BytesValue.compare quote op s v
  compare_scalar op (bool b) v = BoolValue.compare op b v
  compare_scalar op (array xs) v = array_with_other v

  unfoldable mutual
    -- r.OP(v), or v.OP(r) if the flag is set.
    pub compare_from : Bool → Comparison → Value → Option Value → Result Bool
    compare_from false op (array xs) (some (array ys)) =
        if length (to_list ys) == length (to_list xs)
        then compare_elems false op xs (to_list ys)
        else ok false
    compare_from true op (array xs) (some (array ys)) =
        if length (to_list xs) == length (to_list ys)
        then compare_elems true op xs (to_list ys)
        else ok false
    compare_from false op r v = compare_scalar op r v
    compare_from true op r v = call v (λ s. compare_scalar op s (some r))

    -- The loop over the elements of r (first) and those of the other array.
    pub compare_elems : Bool → Comparison → Elems → List (Option Value) → Result Bool
    compare_elems flip op end ys = ok true
    compare_elems flip op (elem x xs) [] = panic
    compare_elems flip op (elem x xs) (y ∷ ys) = do
      cond ← compare_from (not flip) op x y
      if cond then compare_elems flip op xs ys else ok false
    compare_elems flip op (null xs) [] = panic
    compare_elems false op (null xs) (y ∷ ys) = do
      cond ← call y (λ s. compare_scalar op s none)
      if cond then compare_elems false op xs ys else ok false
    compare_elems true op (null xs) (y ∷ ys) = panic

  -- r.EQ(v), r.GT(v), r.GTE(v), r.LT(v), r.LTE(v)
  unfoldable pub compare : Comparison → Value → Option Value → Result Bool
  unfolding compare_from
  compare op r v = compare_from false op r v
