-- ===== src/Int64/Ring.antt =====
-- The range and the algebra of the wrap-around operations.
use go_zetasqlite.Prelude.{ℕ, ◌+◌, ◌%◌, ◌<◌, ◌≡◌, ap, ◌∙◌, arith}
use go_zetasqlite.Prelude.Int.{ℤ, pos, negsuc, ◌+ℤ◌}
use go_zetasqlite.Int64.{word, IsInt64, to_word, of_word, add, sub}

pub of_word-IsInt64 : (w : ℕ) → w < word → IsInt64 (of_word w)
unfolding of_word
of_word-IsInt64 w h = ground arith

pub to_word-lt : (a : ℤ) → to_word a < word
unfolding to_word
to_word-lt (pos n) = omega arith
to_word-lt (negsuc n) = omega arith

pub to_word-of_word : (w : ℕ) → w < word → to_word (of_word w) ≡ w
unfolding to_word of_word
to_word-of_word w h = ground arith

pub of_word-to_word : (a : ℤ) → IsInt64 a → of_word (to_word a) ≡ a
unfolding to_word of_word
of_word-to_word (pos n) h = ground arith
of_word-to_word (negsuc n) h = ground arith

pub add_comm_lem : (a b : ℤ) → add a b ≡ add b a
unfolding add
add_comm_lem a b = ap of_word (omega arith)

pub sub-add : (a b : ℤ) → IsInt64 a → sub (add a b) b ≡ a
unfolding add sub
sub-add a b h =
    ap of_word (
      omega (
        arith,
        to_word-of_word ((to_word a + to_word b) % word) (omega arith),
        to_word-lt a,
        to_word-lt b,
      ))
    ∙ of_word-to_word a h

pub add-IsInt64 : (a b : ℤ) → IsInt64 (add a b)
unfolding add
add-IsInt64 a b = of_word-IsInt64 _ (omega arith)

-- A sum that fits is the sum of the integers.
pub add-exact : (a b : ℤ) → IsInt64 a → IsInt64 b → IsInt64 (a +ℤ b) → add a b ≡ a +ℤ b
unfolding add to_word of_word ◌+ℤ◌
add-exact (pos a) (pos b) h k l = ground arith
add-exact (pos a) (negsuc b) h k l = ground arith
add-exact (negsuc a) (pos b) h k l = ground arith
add-exact (negsuc a) (negsuc b) h k l = ground arith

pub add-zero_lem : (a : ℤ) → IsInt64 a → add a (pos 0) ≡ a
unfolding add to_word of_word
add-zero_lem (pos n) h = ground arith
add-zero_lem (negsuc n) h = ground arith
