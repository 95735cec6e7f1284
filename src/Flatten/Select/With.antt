-- ===== src/Flatten/Select/With.antt =====
-- Which WITH clause a name means after two levels have been merged.
use go_zetasqlite.Prelude.{
  ◌≡◌, refl, sym, ◌∙◌, inl, inr, Bool, true, false, ◌||◌, Option, none, some, List, [], ◌∷◌, ◌++◌,
  if◌then◌else◌, Bool-cases,
}
use go_zetasqlite.Prelude.Bytes.{Bytes, bytes_eq, bytes_eq_sound, bytes_eq_refl}
use go_zetasqlite.Flatten.Statement.{WithClause}
use go_zetasqlite.Flatten.Select.{has_name, without_names, merge_with_clauses}

-- The first clause of a name.
abbrev pub find_clause : List WithClause → Bytes → Option WithClause
find_clause [] name = none
find_clause (w ∷ ws) name = if bytes_eq w.name name then some w else find_clause ws name

abbrev pub or_else : Option WithClause → Option WithClause → Option WithClause
or_else none o = o
or_else (some w) o = some w

find_clause-append :
    (ws vs : List WithClause) (name : Bytes)
    → find_clause (ws ++ vs) name ≡ or_else (find_clause ws name) (find_clause vs name)
find_clause-append [] vs name = refl
find_clause-append (w ∷ ws) vs name = elim (Bool-cases (bytes_eq w.name name)) [
  | inl e ↦ rw e
  | inr e ↦ rw (e, find_clause-append ws vs name)
]

or-false : (a b : Bool) → (a || b) ≡ false → (a ≡ false) × (b ≡ false)
or-false true b h = cc
or-false false b h = (refl, h)

find_clause-absent :
    (ws : List WithClause) (name : Bytes) → has_name ws name ≡ false → find_clause ws name ≡ none
find_clause-absent [] name h = refl
find_clause-absent (w ∷ ws) name h =
    let both = or-false (bytes_eq w.name name) (has_name ws name) h in
    rw (both.0, find_clause-absent ws name both.1)

find_clause-present :
    (ws : List WithClause) (name : Bytes) (o : Option WithClause)
    → has_name ws name ≡ true
    → or_else (find_clause ws name) o ≡ find_clause ws name
find_clause-present [] name o h = cc
find_clause-present (w ∷ ws) name o h = elim (Bool-cases (bytes_eq w.name name)) [
  | inl e ↦ rw e
  | inr e ↦ rw e (find_clause-present ws name o (rw (sym h, e)))
]

find_clause-without :
    (inner ws : List WithClause) (name : Bytes)
    → has_name inner name ≡ false
    → find_clause (without_names inner ws) name ≡ find_clause ws name
find_clause-without inner [] name h = refl
find_clause-without inner (w ∷ ws) name h = elim (Bool-cases (bytes_eq w.name name)) [
  | inl e ↦ rw (bytes_eq_sound w.name name e, h, bytes_eq_refl name)
  | inr e ↦ elim (Bool-cases (has_name inner w.name)) [
    | inl e' ↦ rw (e', e, find_clause-without inner ws name h)
    | inr e' ↦ rw (e', e, find_clause-without inner ws name h)
  ]
]

-- After the merge a name means the inner clause of that name if there is one, and else the outer
-- clause of that name.
pub find-merge_with_clauses :
    (outer inner : List WithClause) (name : Bytes)
    → find_clause (merge_with_clauses outer inner) name
      ≡ or_else (find_clause inner name) (find_clause outer name)
unfolding merge_with_clauses
find-merge_with_clauses [] inner name = elim (Bool-cases (has_name inner name)) [
  | inl e ↦ sym (find_clause-present inner name none e)
  | inr e ↦ rw (find_clause-absent inner name e)
]
find-merge_with_clauses (w ∷ ws) [] name = refl
find-merge_with_clauses (w ∷ ws) (v ∷ vs) name =
    rw (find_clause-append (v ∷ vs) (without_names (v ∷ vs) (w ∷ ws)) name)
      (elim (Bool-cases (has_name (v ∷ vs) name)) [
        | inl e ↦
            find_clause-present (v ∷ vs) name (find_clause (without_names (v ∷ vs) (w ∷ ws)) name) e
            ∙ sym (find_clause-present (v ∷ vs) name (find_clause (w ∷ ws) name) e)
        | inr e ↦
            rw (find_clause-absent (v ∷ vs) name e) (find_clause-without (v ∷ vs) (w ∷ ws) name e)
      ])
