-- ===== src/Int64/Bits.antt =====
-- The word of 64 ones absorbs every other one under bitwise OR.
use Prim.Native.Nat.{max, digits, bit_or, bit_or-bitwise}
use go_zetasqlite.Prelude.{ℕ, zero, suc, ◌+◌, ◌*◌, ◌/◌, ◌%◌, ◌≤◌, ◌<◌, ◌≡◌, refl, ◌∙◌, ap, arith}
use go_zetasqlite.Prelude.Int.{ℤ, negsuc}
use go_zetasqlite.Int64.Ring.{to_word-lt}
use go_zetasqlite.Int64.{word, to_word, of_word, bitwise_or}

ones : ℕ → ℕ
ones zero = 0
ones (suc n) = ones n * 2 + 1

half_of : (k : ℕ) → (k * 2 + 1) / 2 ≡ k
half_of k = omega arith

odd : (k : ℕ) → (k * 2 + 1) % 2 ≡ 1
odd k = omega arith

max_digit : (d : ℕ) → d < 2 → max d 1 ≡ 1
max_digit zero h = refl
max_digit (suc zero) h = refl
max_digit (suc (suc d)) h = omega (arith, h)

max_one : (a : ℕ) → max (a % 2) 1 ≡ 1
max_one a = max_digit (a % 2) (omega arith)

digits-ones : (fuel a n : ℕ) → a ≤ ones n → digits (λ b. b) max fuel a (ones n) ≡ ones n
unfolding ones
digits-ones zero a n h = refl
digits-ones (suc fuel) zero n h = refl
digits-ones (suc fuel) (suc a) zero h = omega (arith, h)
digits-ones (suc fuel) (suc a) (suc n) h = rw (
  half_of (ones n),
  odd (ones n),
  max_one (suc a),
  digits-ones fuel (suc a / 2) n (omega (arith, h)),
)

bit_or-ones : (a : ℕ) → a < word → bit_or a (ones 64) ≡ ones 64
unfolding ones
bit_or-ones a h = (λ i. bit_or-bitwise a (ones 64) i) ∙ digits-ones a a 64 (omega (arith, h))

-- -1 has all bits set.
pub bitwise_or-ones : (z : ℤ) → bitwise_or z (negsuc 0) ≡ negsuc 0
unfolding bitwise_or to_word of_word ones
bitwise_or-ones z = ap of_word (bit_or-ones (to_word z) (to_word-lt z))
