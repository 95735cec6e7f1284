-- ===== src/Writer/Appends.antt =====
-- What writing leaves of the writer.
pub mod Expression
pub mod Statement
pub mod Change
use go_zetasqlite.Prelude.{
  ℕ, ◌+◌, ◌-◌, ◌≡◌, refl, sym, ◌∙◌, ap, Bool, true, false, Option, none, some, List, [], ◌∷◌, ◌++◌,
  map, append_assoc, append-nil, arith, All,
}
use go_zetasqlite.Prelude.Bytes.{Bytes, codes}
use go_zetasqlite.Result.{Result, ok, err, panic, out_of_fuel, ◌>>=◌}
use go_zetasqlite.Writer.{
  Writer, Write, ◌▷◌, nothing, nil_panic, write, write_line, line_text, indent, dedent, when_,
  separated,
}

-- The second writer is the first with more text at its end.
pub record Longer (w w' : Writer) : Type 0 where
  pub text : Bytes
  pub builder : w'.builder ≡ (w.builder ++ text)
  pub indent_level : w'.indent_level ≡ w.indent_level
  pub use_newlines : w'.use_newlines ≡ w.use_newlines

abbrev pub After : Writer → Result Writer → Type 0
After w (ok w') = Longer w w'
After w (err e) = Unit
After w panic = Unit
After w out_of_fuel = Unit

-- A write that only appends.
pub record Appends (a : Write) : Type 0 where
  pub after : (w : Writer) → After w (a w)

Longer-refl : (w : Writer) → Longer w w
Longer-refl w = record {
  text = [];
  builder = sym (append-nil w.builder);
  indent_level = refl;
  use_newlines = refl;
}

Longer-trans : (u v w : Writer) → Longer u v → Longer v w → Longer u w
Longer-trans u v w h k = record {
  text = h.text ++ k.text;
  builder = k.builder ∙ ap (λ x. x ++ k.text) h.builder ∙ append_assoc u.builder h.text k.text;
  indent_level = k.indent_level ∙ h.indent_level;
  use_newlines = k.use_newlines ∙ h.use_newlines;
}

After-Longer : (u v : Writer) (r : Result Writer) → Longer u v → After v r → After u r
After-Longer u v (ok w) h k = Longer-trans u v w h k
After-Longer u v (err e) h k = tt
After-Longer u v panic h k = tt
After-Longer u v out_of_fuel h k = tt

After-bind :
    (u : Writer) (r : Result Writer) (b : Write) → After u r → Appends b → After u (r >>= b)
After-bind u (ok v) b h k = After-Longer u v (b v) h (k.after v)
After-bind u (err e) b h k = tt
After-bind u panic b h k = tt
After-bind u out_of_fuel b h k = tt

pub Appends_then : (a b : Write) → Appends a → Appends b → Appends (a ▷ b)
Appends_then a b h k = record { after = λ w. After-bind w (a w) b (h.after w) k }

pub Appends_nothing : Appends nothing
Appends_nothing = record { after = Longer-refl }

pub Appends_panic : Appends nil_panic
Appends_panic = record { after = λ w. tt }

pub Appends_write : (s : Bytes) → Appends (write s)
unfolding write
Appends_write s = record {
  after = λ w. record { text = s; builder = refl; indent_level = refl; use_newlines = refl };
}

pub Appends_write_line : (s : Bytes) → Appends (write_line s)
unfolding write_line
Appends_write_line s = record {
  after = λ w. record {
    text = line_text w.use_newlines w.indent_level s;
    builder = refl;
    indent_level = refl;
    use_newlines = refl;
  };
}

pub Appends_when : (b : Bool) (a : Write) → Appends a → Appends (when_ b a)
Appends_when true a h = h
Appends_when false a h = Appends_nothing

pub Appends_separated :
    (comma : Write) (as_ : List Write)
    → Appends comma
    → All Appends as_
    → Appends (separated comma as_)
unfolding separated
Appends_separated comma [] h k = Appends_nothing
Appends_separated comma (a ∷ []) h (k, ks) = k
Appends_separated comma (a ∷ b ∷ as_) h (k, ks) =
    Appends_then a _ k (Appends_then comma _ h (Appends_separated comma (b ∷ as_) h ks))

dedented :
    (w : Writer) (r : Result Writer)
    → After (record w { indent_level = w.indent_level + 1 }) r
    → After w (r >>= dedent)
unfolding dedent
dedented w (ok v) h = record {
  text = h.text;
  builder = h.builder;
  indent_level = ap (λ n. n - 1) h.indent_level ∙ omega arith;
  use_newlines = h.use_newlines;
}
dedented w (err e) h = tt
dedented w panic h = tt
dedented w out_of_fuel h = tt

-- What is indented and dedented again ends at the level it started from.
pub Appends_indented : (a : Write) → Appends a → Appends (indent ▷ a ▷ dedent)
unfolding indent
Appends_indented a h = record { after = λ w. dedented w (a _) (h.after _) }

rest-After :
    (w : Writer) (r : Result Writer) (b : Write)
    → After w (r >>= dedent)
    → Appends b
    → After w (r >>= λ x. dedent x >>= b)
unfolding dedent
rest-After w (ok v) b h k = After-Longer w _ (b _) h (k.after _)
rest-After w (err e) b h k = tt
rest-After w panic b h k = tt
rest-After w out_of_fuel b h k = tt

pub Appends_indented_then :
    (a b : Write) → Appends a → Appends b → Appends (indent ▷ a ▷ dedent ▷ b)
unfolding indent
Appends_indented_then a b h k = record {
  after = λ w. rest-After w (a _) b (dedented w (a _) (h.after _)) k;
}

infixr 4 ◌▶◌
pub ◌▶◌ : {a b : Write} → Appends a → Appends b → Appends (a ▷ b)
◌▶◌ {a} {b} h k = Appends_then a b h k
