-- ===== src/Strconv/RoundTrip.antt =====
-- Decimal texts that are printed and read back.
use go_zetasqlite.Prelude.{
  ℕ, zero, suc, ◌+◌, ◌*◌, ◌/◌, ◌%◌, ◌≤◌, ◌<◌, ◌≡◌, ◌≢◌, refl, false, [], ◌∷◌, arith, Bool-cases,
  ltb, inl, inr, All,
}
use go_zetasqlite.Prelude.Int.{ℤ, pos, negsuc}
use go_zetasqlite.Prelude.Bytes.{Bytes}
use go_zetasqlite.Int64.{IsInt64}
use go_zetasqlite.Result.{ok}
use go_zetasqlite.Strconv.{scan, signed, unsigned_10, parse_int_10, contains_0x, digits, format_int}

scan_digit :
    (d : ℕ) (s : Bytes) (n : ℕ)
    → d < 10
    → scan false 10 ((b'0' + d) ∷ s) n ≡ scan false 10 s (n * 10 + d)
unfolding scan
scan_digit d s n h = ground arith

scan-digits :
    (fuel n : ℕ) (out : Bytes)
    → n < fuel
    → scan false 10 (digits fuel n out) 0 ≡ scan false 10 out n
unfolding digits
scan-digits zero n out h = elim h [ ]
scan-digits (suc f) n out h = ground (
  arith,
  scan-digits f (n / 10) ((b'0' + n % 10) ∷ out),
  scan_digit (n % 10) out (n / 10),
  scan_digit n out 0,
)

abbrev pub IsDigit : ℕ → Type 0
IsDigit c = (b'0' ≤ c) × (c ≤ b'9')

pub digits-IsDigit :
    (fuel n : ℕ) (out : Bytes) → n < fuel → All IsDigit out → All IsDigit (digits fuel n out)
unfolding digits
digits-IsDigit zero n out h o = elim h [ ]
digits-IsDigit (suc f) n out h o = ground (arith, digits-IsDigit f (n / 10) ((b'0' + n % 10) ∷ out))

abbrev IsCons : Bytes → Type 0
IsCons [] = ⊥
IsCons (c ∷ s) = Unit

IsCons-ne-nil : (s : Bytes) → IsCons s → s ≢ []
IsCons-ne-nil [] h e = h
IsCons-ne-nil (c ∷ s) h e = cc

digits-IsCons_from : (fuel n : ℕ) (c : ℕ) (out : Bytes) → IsCons (digits fuel n (c ∷ out))
unfolding digits
digits-IsCons_from zero n c out = tt
digits-IsCons_from (suc f) n c out = elim (Bool-cases (ltb n 10)) [
  | inl e ↦ rw e tt
  | inr e ↦ rw e (digits-IsCons_from f (n / 10) (b'0' + n % 10) (c ∷ out))
]

digits-IsCons : (fuel n : ℕ) → IsCons (digits (suc fuel) n [])
unfolding digits
digits-IsCons f n = elim (Bool-cases (ltb n 10)) [
  | inl e ↦ rw e tt
  | inr e ↦ rw e (digits-IsCons_from f (n / 10) (b'0' + n % 10) [])
]

parse-digits :
    (s : Bytes) → IsCons s → All IsDigit s → parse_int_10 s ≡ signed false (scan false 10 s 0)
unfolding parse_int_10
parse-digits [] h a = absurd h
parse-digits (c ∷ s) h a = ground arith

unsigned-digits : (s : Bytes) → IsCons s → unsigned_10 s ≡ scan false 10 s 0
unfolding unsigned_10
unsigned-digits [] h = absurd h
unsigned-digits (c ∷ s) h = refl

contains_0x-digits : (s : Bytes) → All IsDigit s → contains_0x s ≡ false
unfolding contains_0x
contains_0x-digits [] a = refl
contains_0x-digits (c ∷ []) a = refl
contains_0x-digits (c ∷ d ∷ s) a = ground (arith, contains_0x-digits (d ∷ s))

contains_0x-minus : (s : Bytes) → All IsDigit s → contains_0x (b'-' ∷ s) ≡ false
unfolding contains_0x
contains_0x-minus [] a = refl
contains_0x-minus (d ∷ s) a = contains_0x-digits (d ∷ s) a

-- The decimal print of an int64 is read back by ParseInt with base 10.
pub parse-format_int : (z : ℤ) → IsInt64 z → parse_int_10 (format_int z) ≡ ok z
unfolding format_int signed
parse-format_int (pos n) h =
    rw
      (
        parse-digits _ (digits-IsCons n n) (digits-IsDigit (suc n) n [] (omega arith) tt),
        scan-digits (suc n) n [] (omega arith),
      )
      (unfold scan in ground arith)
parse-format_int (negsuc n) h =
    unfold parse_int_10 scan in
    rw
      (
        unsigned-digits _ (digits-IsCons (suc n) (suc n)),
        scan-digits (suc (suc n)) (suc n) [] (omega arith),
      )
      (ground arith)

pub contains_0x-format_int : (z : ℤ) → contains_0x (format_int z) ≡ false
unfolding format_int
contains_0x-format_int (pos n) = contains_0x-digits _ (digits-IsDigit (suc n) n [] (omega arith) tt)
contains_0x-format_int (negsuc n) =
    contains_0x-minus _ (digits-IsDigit (suc (suc n)) (suc n) [] (omega arith) tt)

pub format_int-ne-nil : (z : ℤ) → format_int z ≢ []
unfolding format_int
format_int-ne-nil (pos n) h = IsCons-ne-nil _ (digits-IsCons n n) h
format_int-ne-nil (negsuc n) h = cc
