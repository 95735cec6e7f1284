-- ===== src/Query/Context/Columns.antt =====
-- What a reference to a registered column is resolved to.
use go_zetasqlite.Prelude.{
  ◌≡◌, ◌∙◌, refl, inl, inr, Option, none, some, List, [], ◌∷◌, if◌then◌else◌, Bool-cases,
}
use go_zetasqlite.Prelude.Int.{ℤ, eqb_ℤ}
use go_zetasqlite.Prelude.Bytes.{Bytes}
use go_zetasqlite.Result.{Result, ok}
use go_zetasqlite.Query.Context.{
  Column, FragmentContext, alias_of, info_of, register_column_scope_mapping,
  get_qualified_column_ref,
}

abbrev pub or_else : Option Column → Option Column → Option Column
or_else (some d) o = some d
or_else none o = o

-- The last column of the list with the identifier, if there is one.
abbrev pub last_column : ℤ → List Column → Option Column
last_column id [] = none
last_column id (c ∷ cs) = or_else (last_column id cs) (if eqb_ℤ id c.id then some c else none)

abbrev pub resolved : Bytes → Result (Bytes × Bytes) → Option Column → Result (Bytes × Bytes)
resolved scope_alias r none = r
resolved scope_alias r (some c) = ok (alias_of c, scope_alias)

one_column :
    (scope_alias : Bytes) (c : Column) (fc : FragmentContext) (id : ℤ) (o : Option Column)
    → resolved scope_alias
        (get_qualified_column_ref
          (record fc {
            column_id_to_scope = (c.id, scope_alias) ∷ fc.column_id_to_scope;
            available_columns = (c.id, info_of c) ∷ fc.available_columns;
          })
          id)
        o
      ≡ resolved scope_alias
          (get_qualified_column_ref fc id)
          (or_else o (if eqb_ℤ id c.id then some c else none))
unfolding get_qualified_column_ref
one_column scope_alias c fc id (some d) = refl
one_column scope_alias c fc id none = elim (Bool-cases (eqb_ℤ id c.id)) [
  | inl e ↦ rw (e) refl
  | inr e ↦ rw (e) refl
]

-- After the columns of a scan are registered under its alias, a reference to one of their
-- identifiers is the alias of the last column with that identifier, in the scope of the scan; any
-- other reference is resolved as before.
pub ref-register_column_scope_mapping :
    (scope_alias : Bytes) (cs : List Column) (fc : FragmentContext) (id : ℤ)
    → get_qualified_column_ref (register_column_scope_mapping scope_alias cs fc) id
      ≡ resolved scope_alias (get_qualified_column_ref fc id) (last_column id cs)
unfolding register_column_scope_mapping
ref-register_column_scope_mapping scope_alias [] fc id = refl
ref-register_column_scope_mapping scope_alias (c ∷ cs) fc id =
    ref-register_column_scope_mapping scope_alias cs _ id
    ∙ one_column scope_alias c fc id (last_column id cs)
