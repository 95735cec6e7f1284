-- ===== src/Strconv.antt =====
-- The functions of Go's packages strconv and fmt that internal/value.go calls on numbers and
-- truth values: ParseInt with base 10 and base 0, ParseBool, Sprint.
pub mod RoundTrip
use go_zetasqlite.Prelude.{
  ℕ, zero, suc, ◌+◌, ◌-◌, ◌*◌, ◌/◌, ◌%◌, Bool, true, false, not, ◌&&◌, ◌||◌, Option, none, some,
  List, [], ◌∷◌, ltb, leb, ◌==◌, if◌then◌else◌,
}
use go_zetasqlite.Prelude.Int.{ℤ, pos, negsuc}
use go_zetasqlite.Prelude.Bytes.{Bytes, codes, bytes_eq, lower}
use go_zetasqlite.Int64.{half}
use go_zetasqlite.Result.{Result, ok, err, parse_error, ◌>>=◌}

-- The value of a digit or letter; 36 for any other byte.
unfoldable pub digit_value : ℕ → ℕ
unfolding lower
digit_value c =
    if leb b'0' c && leb c b'9'
    then c - b'0'
    else if leb b'a' (lower c) && leb (lower c) b'z'
    then lower c - b'a' + 10
    else 36

-- The number that digits of a base spell behind `n`; in base 0 an underscore is passed over.
unfoldable pub scan : Bool → ℕ → Bytes → ℕ → Option ℕ
unfolding digit_value
scan skips base [] n = some n
scan skips base (c ∷ s) n =
    let digit = scan skips base s (n * base + digit_value c) in
    let same = scan skips base s n in
    if skips && (c == b'_') then same else if ltb (digit_value c) base then digit else none

-- A number read without its sign, given the sign: it must fit in 64 bits.
unfoldable pub signed : Bool → Option ℕ → Result ℤ
signed negative none = err parse_error
signed false (some n) = if ltb n half then ok (pos n) else err parse_error
signed true (some zero) = ok (pos zero)
signed true (some (suc n)) = if ltb n half then ok (negsuc n) else err parse_error

unfoldable pub unsigned_10 : Bytes → Option ℕ
unfolding scan
unsigned_10 [] = none
unsigned_10 (c ∷ s) = scan false 10 (c ∷ s) 0

-- strconv.ParseInt(s, 10, 64)
unfoldable pub parse_int_10 : Bytes → Result ℤ
unfolding unsigned_10 signed
parse_int_10 [] = err parse_error
parse_int_10 (c ∷ s) =
    if c == b'-'
    then signed true (unsigned_10 s)
    else if c == b'+'
    then signed false (unsigned_10 s)
    else signed false (unsigned_10 (c ∷ s))

-- An underscore must stand between digits, or between the prefix and a digit. `last` is whether
-- the byte before was a digit (or the prefix), `open` whether it was an underscore.
unfoldable pub underscores_ok : ℕ → Bool → Bool → Bytes → Bool
underscores_ok base last open_ [] = not open_
underscores_ok base last open_ (c ∷ s) =
    let after_digit = underscores_ok base true false s in
    let after_underscore = underscores_ok base false true s in
    let after_other = underscores_ok base false false s in
    if ltb (digit_value c) base
    then after_digit
    else if c == b'_'
    then last && after_underscore
    else not open_ && after_other

unfoldable pub with_base : ℕ → Bool → Bytes → Option ℕ
unfolding scan underscores_ok
with_base base prefixed [] = none
with_base base prefixed (c ∷ s) =
    if underscores_ok base prefixed false (c ∷ s) then scan true base (c ∷ s) 0 else none

-- Base 0: the prefix chooses the base.
unfoldable pub unsigned_0 : Bytes → Option ℕ
unfolding with_base lower
unsigned_0 (c ∷ d ∷ s) =
    if c == b'0'
    then (if lower d == b'x'
        then with_base 16 true s
        else if lower d == b'b'
        then with_base 2 true s
        else if lower d == b'o'
        then with_base 8 true s
        else with_base 8 true (d ∷ s))
    else with_base 10 false (c ∷ d ∷ s)
unsigned_0 s = with_base 10 false s

-- strconv.ParseInt(s, 0, 64)
unfoldable pub parse_int_0 : Bytes → Result ℤ
unfolding unsigned_0 signed
parse_int_0 [] = err parse_error
parse_int_0 (c ∷ s) =
    if c == b'-'
    then signed true (unsigned_0 s)
    else if c == b'+'
    then signed false (unsigned_0 s)
    else signed false (unsigned_0 (c ∷ s))

-- strings.Contains(strings.ToLower(s), "0x")
unfoldable pub contains_0x : Bytes → Bool
unfolding lower
contains_0x [] = false
contains_0x (c ∷ []) = false
contains_0x (c ∷ d ∷ s) = (c == b'0') && (lower d == b'x') || contains_0x (d ∷ s)

-- strconv.ParseBool
unfoldable pub parse_bool : Bytes → Result Bool
parse_bool s =
    if bytes_eq s (codes "1")
      || bytes_eq s (codes "t")
      || bytes_eq s (codes "T")
      || bytes_eq s (codes "TRUE")
      || bytes_eq s (codes "true")
      || bytes_eq s (codes "True")
    then ok true
    else if bytes_eq s (codes "0")
        || bytes_eq s (codes "f")
        || bytes_eq s (codes "F")
        || bytes_eq s (codes "FALSE")
        || bytes_eq s (codes "false")
        || bytes_eq s (codes "False")
    then ok false
    else err parse_error

-- Decimal digits, written from the last to the first. The fuel `suc n` is enough for `n`.
unfoldable pub digits : ℕ → ℕ → Bytes → Bytes
digits zero n out = out
digits (suc fuel) n out =
    let rest = digits fuel (n / 10) ((b'0' + n % 10) ∷ out) in
    if ltb n 10 then (b'0' + n) ∷ out else rest

-- fmt.Sprint of an int64.
unfoldable pub format_int : ℤ → Bytes
unfolding digits
format_int (pos n) = digits (suc n) n []
format_int (negsuc n) = b'-' ∷ digits (suc (suc n)) (suc n) []

-- fmt.Sprint of a bool.
unfoldable pub format_bool : Bool → Bytes
format_bool b = if b then codes "true" else codes "false"
