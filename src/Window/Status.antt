-- ===== src/Window/Status.antt =====
-- internal/function_window_option.go: the values in the current frame of a window function.
pub mod Queue
pub mod Relevant
use go_zetasqlite.Prelude.{
  ℕ, suc, ◌+◌, Bool, true, false, ◌&&◌, Option, none, some, List, [], ◌∷◌, ◌++◌, length, take, drop,
  ◌==◌, if◌then◌else◌,
}
use go_zetasqlite.Prelude.Int.{eqb_ℤ}
use go_zetasqlite.Prelude.Bytes.{Bytes, bytes_eq}
use go_zetasqlite.Result.{Result, ok, panic, ◌>>=◌}
use go_zetasqlite.Value.{Value, int, string, bytes, bool, array, call}
use go_zetasqlite.Value.Convert.{to_string}
use go_zetasqlite.Value.BoolValue.{same}

-- WindowFuncAggregatedStatus, with the two fields of its options that it reads.
pub record Status : Type 0 where
  pub values : List (Option Value)
  pub ignore_nulls : Bool
  pub distinct : Bool

abbrev pub new_status : Status
new_status = record { values = []; ignore_nulls = false; distinct = false }

-- Go's `==` on two interface values. BytesValue is a slice type, whose comparison panics. An array
-- is a pointer, and every argument is decoded into a new one, so two arrays are never the same.
unfoldable pub same_interface : Option Value → Option Value → Result Bool
same_interface none none = ok true
same_interface (some (int a)) (some (int b)) = ok (eqb_ℤ a b)
same_interface (some (string a)) (some (string b)) = ok (bytes_eq a b)
same_interface (some (bool a)) (some (bool b)) = ok (same a b)
same_interface (some (bytes a)) (some (bytes b)) = panic
same_interface v w = ok false

unfoldable pub step : Option Value → Status → Status
step value s = record s { values = s.values ++ value ∷ [] }

-- `append(s.Values[:i], s.Values[j:]...)` with the choice of j made in the source.
unfoldable pub cut : List (Option Value) → ℕ → List (Option Value)
cut values i = let j = if length values + 1 == i then i else i + 1 in take i values ++ drop j values

-- The loop of Inverse: `before` holds the values passed over.
unfoldable pub inverse_loop :
    Option Value → List (Option Value) → List (Option Value) → Result (List (Option Value))
unfolding cut same_interface
inverse_loop value before [] = ok before
inverse_loop value before (v ∷ rest) = do
  found ← same_interface v value
  if found
      then ok (cut (before ++ v ∷ rest) (length before))
      else inverse_loop value (before ++ v ∷ []) rest

unfoldable pub inverse : Option Value → Status → Result Status
unfolding inverse_loop
inverse value s = do values ← inverse_loop value [] s.values; ok (record s { values = values })

unfoldable pub has_key : List Bytes → Bytes → Bool
has_key [] key = false
has_key (k ∷ keys) key = if bytes_eq k key then true else has_key keys key

module _ (quote : Bytes → Bytes) where
  -- The loop of RelevantValues: the keys of the map, the rest of the values, the filtered values.
  unfoldable pub relevant_loop :
      Bool
      → Bool
      → List Bytes
      → List (Option Value)
      → List (Option Value)
      → Result (List (Option Value))
  unfolding has_key
  relevant_loop ignore distinct keys [] out = ok out
  relevant_loop true false keys (none ∷ vs) out = relevant_loop true false keys vs out
  relevant_loop true true keys (none ∷ vs) out = relevant_loop true true keys vs out
  relevant_loop false true keys (none ∷ vs) out = panic
  relevant_loop false false keys (none ∷ vs) out =
      relevant_loop false false keys vs (out ++ none ∷ [])
  relevant_loop ignore false keys (some v ∷ vs) out =
      relevant_loop ignore false keys vs (out ++ some v ∷ [])
  relevant_loop ignore true keys (some v ∷ vs) out = do
    key ← to_string quote v
    let seen = relevant_loop ignore true keys vs out
    let fresh = relevant_loop ignore true (key ∷ keys) vs (out ++ some v ∷ [])
    if has_key keys key then seen else fresh

  unfoldable pub relevant_values : Status → Result (List (Option Value))
  unfolding relevant_loop
  relevant_values s = relevant_loop s.ignore_nulls s.distinct [] s.values []
