-- ===== src/Result.antt =====
-- Go's `(T, error)` results. A run-time panic (a method call on a nil interface, an index out of
-- range) is a third outcome, and a loop that has used up its fuel is a fourth.
use go_zetasqlite.Prelude.{◌≡◌, refl}

-- The error values that the modelled code returns, by the message's format.
pub data Error : Type 0 where
  parse_error unsupported zero_divided convert_failed out_of_range : Error
  null_argument argument_num negative_offset assertion_failed too_many_paths : Error
  unexpected_scan validation_failed mapping_missing wrong_columns not_select : Error
  column_missing unsupported_operation : Error

pub data Result {ℓ} (A : Type ℓ) : Type ℓ where
  ok : A → Result A
  err : Error → Result A
  panic : Result A
  out_of_fuel : Result A

infixl 5 ◌>>=◌
abbrev pub ◌>>=◌ {ℓ κ} : {A : Type ℓ} {B : Type κ} → Result A → (A → Result B) → Result B
ok a >>= f = f a
err e >>= f = err e
panic >>= f = panic
out_of_fuel >>= f = out_of_fuel

-- `if err != nil { return …, fmt.Errorf(…) }`
abbrev pub rewrap {ℓ} : {A : Type ℓ} → Error → Result A → Result A
rewrap e (ok a) = ok a
rewrap e (err d) = err e
rewrap e panic = panic
rewrap e out_of_fuel = out_of_fuel

-- A chain that ends well went well before its last step.
pub bind_parts {ℓ κ} :
    {S : Type ℓ} {T : Type κ} (first : Result S) (next : S → Result T) {end : T}
    → (first >>= next) ≡ ok end
    → (middle : S) × (first ≡ ok middle) × (next middle ≡ ok end)
bind_parts panic next stopped = cc
bind_parts out_of_fuel next stopped = cc
bind_parts (err e) next stopped = cc
bind_parts (ok middle) next went_well = (middle, refl, went_well)
