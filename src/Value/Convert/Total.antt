-- ===== src/Value/Convert/Total.antt =====
-- The string forms of the modelled values.
use go_zetasqlite.Prelude.{◌≡◌, refl, List, [], ◌∷◌, ◌++◌}
use go_zetasqlite.Prelude.Bytes.{Bytes, codes, join}
use go_zetasqlite.Strconv.{format_int, format_bool}
use go_zetasqlite.Result.{ok}
use go_zetasqlite.Value.{Value, int, string, bytes, bool, array, Elems, end, elem, null}
use go_zetasqlite.Value.Convert.{to_json, json_elems, to_string}

module _ (quote : Bytes → Bytes) where
  mutual
    unfolding to_json

    to_json_total : (v : Value) → (s : Bytes) × (to_json quote v ≡ ok s)
    to_json_total (int z) = (format_int z, refl)
    to_json_total (string s) = (quote s, refl)
    to_json_total (bytes s) = (quote s, refl)
    to_json_total (bool b) = (format_bool b, refl)
    to_json_total (array xs) =
        let (js, e) = json_elems_total xs in (codes "[" ++ (join (codes ",") js ++ codes "]"), rw e)

    json_elems_total : (xs : Elems) → (js : List Bytes) × (json_elems quote xs ≡ ok js)
    json_elems_total end = ([], refl)
    json_elems_total (elem v xs) =
        let (j, e) = to_json_total v in let (js, f) = json_elems_total xs in (j ∷ js, rw (e, f))
    json_elems_total (null xs) = let (js, f) = json_elems_total xs in (codes "null" ∷ js, rw f)

  pub to_string_total : (v : Value) → (s : Bytes) × (to_string quote v ≡ ok s)
  unfolding to_string
  to_string_total (int z) = (format_int z, refl)
  to_string_total (string s) = (s, refl)
  to_string_total (bytes s) = (s, refl)
  to_string_total (bool b) = (format_bool b, refl)
  to_string_total (array xs) =
      let (js, e) = json_elems_total xs in (codes "[" ++ (join (codes ",") js ++ codes "]"), rw e)

  -- The string form of a value.
  abbrev pub key_of : Value → Bytes
  key_of v = (to_string_total v).0
