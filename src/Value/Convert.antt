-- ===== src/Value/Convert.antt =====
-- The conversion methods of IntValue, StringValue, BytesValue, BoolValue and ArrayValue
-- (internal/value.go). `quote` stands for strconv.Quote.
pub mod Total
pub mod RoundTrip
use go_zetasqlite.Prelude.{
  Bool, true, false, Option, none, some, List, [], ◌∷◌, ◌++◌, if◌then◌else◌,
}
use go_zetasqlite.Prelude.Int.{ℤ, pos, eqb_ℤ}
use go_zetasqlite.Prelude.Bytes.{Bytes, codes, join}
use go_zetasqlite.Result.{Result, ok, err, convert_failed, ◌>>=◌}
use go_zetasqlite.Strconv.{
  parse_int_10, parse_int_0, contains_0x, parse_bool, format_int, format_bool,
}
use go_zetasqlite.Value.{Value, int, string, bytes, bool, array, Elems, end, elem, null}

-- StringValue.ToInt64
unfoldable pub string_to_int64 : Bytes → Result ℤ
string_to_int64 [] = ok (pos 0)
string_to_int64 (c ∷ s) = if contains_0x (c ∷ s) then parse_int_0 (c ∷ s) else parse_int_10 (c ∷ s)

-- BytesValue.ToInt64
unfoldable pub bytes_to_int64 : Bytes → Result ℤ
bytes_to_int64 [] = ok (pos 0)
bytes_to_int64 (c ∷ s) = parse_int_10 (c ∷ s)

-- BoolValue.ToInt64
unfoldable pub bool_to_int64 : Bool → Result ℤ
bool_to_int64 b = if b then ok (pos 1) else ok (pos 0)

-- v.ToInt64(), by the dynamic type.
unfoldable pub to_int64 : Value → Result ℤ
unfolding string_to_int64 bytes_to_int64 bool_to_int64
to_int64 (int z) = ok z
to_int64 (string s) = string_to_int64 s
to_int64 (bytes s) = bytes_to_int64 s
to_int64 (bool b) = bool_to_int64 b
to_int64 (array xs) = err convert_failed

-- IntValue.ToBool
unfoldable pub int_to_bool : ℤ → Result Bool
int_to_bool z =
    if eqb_ℤ z (pos 0) then ok false else if eqb_ℤ z (pos 1) then ok true else err convert_failed

-- StringValue.ToBool
unfoldable pub string_to_bool : Bytes → Result Bool
string_to_bool [] = ok false
string_to_bool (c ∷ s) = parse_bool (c ∷ s)

-- BytesValue.ToBool
unfoldable pub bytes_to_bool : Bytes → Result Bool
bytes_to_bool [] = ok false
bytes_to_bool (c ∷ s) = parse_bool (c ∷ s)

-- v.ToBool()
unfoldable pub to_bool : Value → Result Bool
unfolding int_to_bool string_to_bool bytes_to_bool
to_bool (int z) = int_to_bool z
to_bool (string s) = string_to_bool s
to_bool (bytes s) = bytes_to_bool s
to_bool (bool b) = ok b
to_bool (array xs) = err convert_failed

-- StringValue.ToArray: the empty string gives a nil pointer and no error.
unfoldable pub string_to_array : Bytes → Result (Option Elems)
string_to_array [] = ok none
string_to_array (c ∷ s) = err convert_failed

-- v.ToArray(): `ok none` is a nil *ArrayValue.
unfoldable pub to_array : Value → Result (Option Elems)
unfolding string_to_array
to_array (int z) = err convert_failed
to_array (string s) = string_to_array s
to_array (bytes s) = err convert_failed
to_array (bool b) = err convert_failed
to_array (array xs) = ok (some xs)

module _ (quote : Bytes → Bytes) where
  -- v.ToJSON(), and the loop of ArrayValue.ToString over the elements.
  unfoldable mutual
    pub to_json : Value → Result Bytes
    to_json (int z) = ok (format_int z)
    to_json (string s) = ok (quote s)
    to_json (bytes s) = ok (quote s)
    to_json (bool b) = ok (format_bool b)
    to_json (array xs) = do
      elems ← json_elems xs
      ok (codes "[" ++ (join (codes ",") elems ++ codes "]"))

    pub json_elems : Elems → Result (List Bytes)
    json_elems end = ok []
    json_elems (elem v xs) = do j ← to_json v; js ← json_elems xs; ok (j ∷ js)
    json_elems (null xs) = do js ← json_elems xs; ok (codes "null" ∷ js)

  -- ArrayValue.ToString
  unfoldable pub array_to_string : Elems → Result Bytes
  unfolding json_elems
  array_to_string xs = do
    elems ← json_elems xs
    ok (codes "[" ++ (join (codes ",") elems ++ codes "]"))

  -- v.ToString()
  unfoldable pub to_string : Value → Result Bytes
  unfolding array_to_string
  to_string (int z) = ok (format_int z)
  to_string (string s) = ok s
  to_string (bytes s) = ok s
  to_string (bool b) = ok (format_bool b)
  to_string (array xs) = array_to_string xs

  -- v.ToBytes()
  unfoldable pub to_bytes : Value → Result Bytes
  unfolding to_string
  to_bytes (int z) = ok (format_int z)
  to_bytes (string s) = ok s
  to_bytes (bytes s) = ok s
  to_bytes (bool b) = ok (format_bool b)
  to_bytes (array xs) = do s ← to_string (array xs); ok s
