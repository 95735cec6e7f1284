-- ===== src/Query/Context/Alias.antt =====
-- The aliases that generateIDBasedAlias gives to columns.
use go_zetasqlite.Prelude.{ℕ, suc, ◌≡◌, ◌≢◌, refl, sym, ◌∙◌, ap, [], ◌∷◌, ◌++◌, All, arith}
use go_zetasqlite.Prelude.Int.{ℤ, pos, negsuc}
use go_zetasqlite.Prelude.Bytes.{Bytes}
use go_zetasqlite.Int64.{IsInt64}
use go_zetasqlite.Result
use go_zetasqlite.Result.{ok}
use go_zetasqlite.Strconv.{format_int, parse_int_10}
use go_zetasqlite.Strconv.RoundTrip.{parse-format_int, digits-IsDigit, IsDigit}
use go_zetasqlite.Query.Context.{generate_id_based_alias}

abbrev NotLine : ℕ → Type 0
NotLine c = c ≢ b'_'

no_line : (ds ys rest : Bytes) → All NotLine ds → ds ≡ (ys ++ b'_' ∷ rest) → ⊥
no_line [] [] rest h e = cc
no_line [] (y ∷ ys) rest h e = cc
no_line (d ∷ ds) [] rest (hd, h) e = hd cc
no_line (d ∷ ds) (y ∷ ys) rest (hd, h) e = no_line ds ys rest h cc

no_second_line :
    (ds ys rest : Bytes) → All NotLine ds → (b'_' ∷ ds) ≡ (ys ++ b'_' ∷ b'_' ∷ rest) → ⊥
no_second_line ds [] rest h e = no_line ds [] rest h cc
no_second_line ds (y ∷ ys) rest h e = no_line ds ys (b'_' ∷ rest) h cc

-- Two texts that end in two underscores and a part without underscores agree in what stands before.
split_at_line :
    (xs ys ds es : Bytes)
    → All NotLine ds
    → All NotLine es
    → (xs ++ b'_' ∷ b'_' ∷ ds) ≡ (ys ++ b'_' ∷ b'_' ∷ es)
    → (xs ≡ ys) × (ds ≡ es)
split_at_line [] [] ds es hd he e = (refl, cc)
split_at_line [] (y ∷ ys) ds es hd he e = elim (no_second_line ds ys es hd cc) [ ]
split_at_line (x ∷ xs) [] ds es hd he e = elim (no_second_line es xs ds he cc) [ ]
split_at_line (x ∷ xs) (y ∷ ys) ds es hd he e =
    let same = split_at_line xs ys ds es hd he cc in (cons (cc) same.0, same.1)
  where
    cons : x ≡ y → xs ≡ ys → (x ∷ xs) ≡ (y ∷ ys)
    cons p q = cc

digits-NotLine : (s : Bytes) → All IsDigit s → All NotLine s
digits-NotLine [] h = tt
digits-NotLine (c ∷ s) ((low, high), h) = (λ e. omega (arith, e, low, high), digits-NotLine s h)

format_int-NotLine : (z : ℤ) → All NotLine (format_int z)
unfolding format_int
format_int-NotLine (pos n) = digits-NotLine _ (digits-IsDigit (suc n) n [] (omega arith) tt)
format_int-NotLine (negsuc n) = (
  λ e. omega (arith, e),
  digits-NotLine _ (digits-IsDigit (suc (suc n)) (suc n) [] (omega arith) tt),
)

format_int_injective : (a b : ℤ) → IsInt64 a → IsInt64 b → format_int a ≡ format_int b → a ≡ b
format_int_injective a b ha hb e =
    ok_injective (sym (parse-format_int a ha) ∙ ap parse_int_10 e ∙ parse-format_int b hb)
  where
    ok_injective : Result.ok a ≡ ok b → a ≡ b
    ok_injective h = cc

-- Columns with different names or different 64-bit identifiers have different aliases, whatever
-- underscores and digits the names hold.
pub generate_id_based_alias_injective :
    (name name' : Bytes) (id id' : ℤ)
    → IsInt64 id
    → IsInt64 id'
    → generate_id_based_alias name id ≡ generate_id_based_alias name' id'
    → (name ≡ name') × (id ≡ id')
unfolding generate_id_based_alias
generate_id_based_alias_injective name name' id id' h h' e =
    let same =
      split_at_line name name' (format_int id) (format_int id') (format_int-NotLine id)
        (format_int-NotLine id') e in
    (same.0, format_int_injective id id' h h' same.1)
