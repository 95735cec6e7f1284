-- ===== src/Int64.antt =====
-- Go's int64: integers between -2^63 and 2^63 - 1 whose operations wrap around.
pub mod Ring
pub mod Bits
use Prim.Native.Nat.{bit_and, bit_or, bit_xor}
use go_zetasqlite.Prelude.{ℕ, ◌+◌, ◌-◌, ◌*◌, ◌/◌, ◌%◌, ◌^◌, ◌<◌, Bool, ltb, if◌then◌else◌}
use go_zetasqlite.Prelude.Int.{ℤ, pos, negsuc}

abbrev pub word : ℕ
word = 2 ^ 64

abbrev pub half : ℕ
half = 2 ^ 63

abbrev pub IsInt64 : ℤ → Type 0
IsInt64 (pos n) = n < half
IsInt64 (negsuc n) = n < half

-- The two's complement bits of an integer, and the int64 that bits stand for.
unfoldable pub to_word : ℤ → ℕ
to_word (pos n) = n % word
to_word (negsuc n) = word - 1 - n % word

unfoldable pub of_word : ℕ → ℤ
of_word w = if ltb w half then pos w else negsuc (word - 1 - w)

unfoldable pub add : ℤ → ℤ → ℤ
add a b = of_word ((to_word a + to_word b) % word)

unfoldable pub sub : ℤ → ℤ → ℤ
sub a b = of_word ((to_word a + word - to_word b) % word)

unfoldable pub mul : ℤ → ℤ → ℤ
mul a b = of_word ((to_word a * to_word b) % word)

-- `a / b` truncates toward zero; the quotient -2^63 / -1 wraps to -2^63.
unfoldable pub quot : ℤ → ℤ → ℤ
quot (pos a) (pos b) = pos (a / b)
quot (pos a) (negsuc b) = sub (pos 0) (pos (a / (b + 1)))
quot (negsuc a) (pos b) = sub (pos 0) (of_word ((a + 1) / b % word))
quot (negsuc a) (negsuc b) = of_word ((a + 1) / (b + 1) % word)

-- `^a`
unfoldable pub complement : ℤ → ℤ
complement (pos n) = negsuc n
complement (negsuc n) = pos n

unfoldable pub bitwise_and : ℤ → ℤ → ℤ
bitwise_and a b = of_word (bit_and (to_word a) (to_word b))

unfoldable pub bitwise_or : ℤ → ℤ → ℤ
bitwise_or a b = of_word (bit_or (to_word a) (to_word b))

unfoldable pub bitwise_xor : ℤ → ℤ → ℤ
bitwise_xor a b = of_word (bit_xor (to_word a) (to_word b))

-- `a << k` and the arithmetic `a >> k`, for a count k that is not negative.
unfoldable pub shift_left : ℤ → ℕ → ℤ
shift_left a k = if ltb k 64 then of_word ((to_word a * 2 ^ k) % word) else pos 0

unfoldable pub shift_right : ℤ → ℕ → ℤ
shift_right (pos n) k = if ltb k 64 then pos (n / 2 ^ k) else pos 0
shift_right (negsuc n) k = if ltb k 64 then negsuc (n / 2 ^ k) else negsuc 0
