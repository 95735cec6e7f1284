-- ===== src/NamePath.antt =====
-- Name paths of internal/name_path.go: the project, data set and table parts of a name, and how the
-- parts that a query leaves out are filled in.
pub mod Merge
pub mod Stable
use go_zetasqlite.Prelude.{
  ℕ, ◌+◌, Bool, true, false, ◌&&◌, List, [], ◌∷◌, ◌++◌, length, ltb, leb, ◌==◌, if◌then◌else◌,
  arith,
}
use go_zetasqlite.Prelude.Int.{ℤ, pos, negsuc}
use go_zetasqlite.Prelude.Bytes.{Bytes, codes, bytes_eq, lower, join}
use go_zetasqlite.Result.{Result, ok, err, too_many_paths}

pub record NamePath : Type 0 where
  pub path : List Bytes
  pub max_num : ℕ

-- strings.ToLower, as far as a comparison with an ASCII name sees it: of the letters beyond ASCII
-- only U+0130 (the bytes 196 and 176) has a lower case, `i`, that such a name can hold.
unfoldable pub to_lower : Bytes → Bytes
unfolding lower
to_lower [] = []
to_lower (b ∷ []) = lower b ∷ []
to_lower (b ∷ c ∷ s) =
    let rest = to_lower s in
    if (b == 196) && (c == 176) then b'i' ∷ rest else lower b ∷ to_lower (c ∷ s)

-- The last part is not looked at.
unfoldable pub is_information_schema : List Bytes → Bool
is_information_schema [] = false
is_information_schema (part ∷ []) = false
is_information_schema (part ∷ next ∷ parts) =
    if bytes_eq (to_lower part) (codes "information_schema")
    then true
    else is_information_schema (next ∷ parts)

unfoldable pub set_max_num : NamePath → ℤ → NamePath
set_max_num p (pos n) = if ltb 0 n then record { path = p.path; max_num = n } else p
set_max_num p (negsuc n) = p

unfoldable pub get_max_num : NamePath → List Bytes → ℕ
get_max_num p path =
    if p.max_num == 0 then 0 else if is_information_schema path then p.max_num + 1 else p.max_num

abbrev pub dot : ℕ
dot = b'.'

abbrev pub cons_head : ℕ → List Bytes → List Bytes
cons_head b [] = (b ∷ []) ∷ []
cons_head b (s ∷ ss) = (b ∷ s) ∷ ss

-- strings.Split by ".": one part more than there are dots.
unfoldable pub split : Bytes → List Bytes
split [] = [] ∷ []
split (b ∷ s) = let rest = split s in if b == dot then [] ∷ rest else cons_head b rest

unfoldable pub normalize_path : List Bytes → List Bytes
normalize_path [] = []
normalize_path (part ∷ parts) = split part ++ normalize_path parts

-- The loop over the base path; `merged` counts the parts taken, `n` is the length of the path that
-- begins with `first`.
unfoldable pub take_base : ℕ → Bytes → ℕ → ℕ → List Bytes → List Bytes
take_base max first n merged [] = []
take_base max first n merged (base ∷ bases) =
    let rest = take_base max first n (merged + 1) bases in
    if bytes_eq first base
    then []
    else if ltb 0 max && leb max (merged + n)
    then []
    else base ∷ rest

abbrev pub merge_normal : NamePath → ℕ → List Bytes → List Bytes
merge_normal p max [] = p.path
merge_normal p max (first ∷ parts) =
    take_base max first (length (first ∷ parts)) 0 p.path ++ (first ∷ parts)

unfoldable pub merge_path : NamePath → List Bytes → List Bytes
merge_path p path =
    let normal = normalize_path path in
    let max = get_max_num p normal in
    if ltb 0 max && (length normal == max) then normal else merge_normal p max normal

unfoldable pub format_path : List Bytes → Bytes
format_path path = join (codes "_") path

unfoldable pub format : NamePath → List Bytes → Bytes
format p path = format_path (merge_path p path)

-- The limit is that of the path as given, the length that of its parts.
unfoldable pub set_path : NamePath → List Bytes → Result NamePath
set_path p path =
    let normal = normalize_path path in
    let max = get_max_num p path in
    if ltb 0 max && ltb max (length normal)
    then err too_many_paths
    else ok (record { path = normal; max_num = p.max_num })

unfoldable pub add_path : NamePath → Bytes → Result NamePath
add_path p path =
    let normal = normalize_path (path ∷ []) in
    let max = get_max_num p normal in
    if ltb 0 max && ltb max (length p.path + length normal)
    then err too_many_paths
    else ok (record { path = p.path ++ normal; max_num = p.max_num })

unfoldable pub empty : NamePath → Bool
empty p = length p.path == 0
