-- ===== src/Writer.antt =====
-- The writer of internal/sqlbuilder_sqlbuilder.go: what the WriteSql methods write to.
pub mod Expression
pub mod Statement
pub mod Precedence
pub mod Change
pub mod Appends
use go_zetasqlite.Prelude.{
  ℕ, zero, suc, ◌+◌, ◌-◌, Bool, true, false, List, [], ◌∷◌, ◌++◌, map, if◌then◌else◌,
}
use go_zetasqlite.Prelude.Bytes.{Bytes, codes}
use go_zetasqlite.Result.{Result, ok, err, panic, out_of_fuel, ◌>>=◌}

-- SQLWriter
pub record Writer : Type 0 where
  pub builder : Bytes
  pub indent_level : ℕ
  pub use_newlines : Bool

-- A WriteSql call: it changes the writer, or panics.
abbrev pub Write : Type 0
Write = Writer → Result Writer

infixr 4 ◌▷◌
abbrev pub ◌▷◌ : Write → Write → Write
(a ▷ b) w = a w >>= b

abbrev pub nothing : Write
nothing w = ok w

abbrev pub nil_panic : Write
nil_panic w = panic

unfoldable pub write : Bytes → Write
write s w = ok (record w { builder = w.builder ++ s })

-- strings.Repeat("  ", n)
abbrev pub blanks : ℕ → Bytes
blanks zero = []
blanks (suc n) = codes "  " ++ blanks n

abbrev pub line_text : Bool → ℕ → Bytes → Bytes
line_text true n s = blanks n ++ s ++ 10 ∷ []
line_text false n s = s ++ codes " "

unfoldable pub write_line : Bytes → Write
write_line s w = ok (record w { builder = w.builder ++ line_text w.use_newlines w.indent_level s })

unfoldable pub indent : Write
indent w = ok (record w { indent_level = w.indent_level + 1 })

unfoldable pub dedent : Write
dedent w = ok (record w { indent_level = w.indent_level - 1 })

-- `if b { … }`
abbrev pub when_ : Bool → Write → Write
when_ true a = a
when_ false a = nothing

-- The writes in turn, `comma` between them.
unfoldable pub separated : Write → List Write → Write
separated comma [] = nothing
separated comma (a ∷ []) = a
separated comma (a ∷ b ∷ as_) = a ▷ comma ▷ separated comma (b ∷ as_)

-- "`" + s + "`"
abbrev pub quoted : Bytes → Bytes
quoted s = b'`' ∷ s ++ b'`' ∷ []
