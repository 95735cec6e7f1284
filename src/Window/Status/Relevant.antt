-- ===== src/Window/Status/Relevant.antt =====
-- What RelevantValues keeps: all values, the non-null ones, or one for each printed form.
use go_zetasqlite.Prelude.{
  ◌≡◌, ap, sym, ◌∙◌, Bool, true, false, Option, none, some, List, [], ◌∷◌, ◌++◌, append_assoc,
  append-nil, Bool-cases, inl, inr, if◌then◌else◌,
}
use go_zetasqlite.Prelude.Bytes.{Bytes}
use go_zetasqlite.Result.{ok, bind_parts}
use go_zetasqlite.Value.{Value}
use go_zetasqlite.Value.Convert.{to_string}
use go_zetasqlite.Window.Status.{relevant_loop, relevant_values, has_key}

-- The values that are not null.
abbrev pub present : List (Option Value) → List (Option Value)
present [] = []
present (none ∷ vs) = present vs
present (some v ∷ vs) = some v ∷ present vs

module _ (quote : Bytes → Bytes) where
  loop-all :
      (vs out : List (Option Value)) → relevant_loop quote false false [] vs out ≡ ok (out ++ vs)
  unfolding relevant_loop
  loop-all [] out = ap ok (sym (append-nil out))
  loop-all (none ∷ vs) out =
      loop-all vs (out ++ none ∷ []) ∙ ap ok (append_assoc out (none ∷ []) vs)
  loop-all (some v ∷ vs) out =
      loop-all vs (out ++ some v ∷ []) ∙ ap ok (append_assoc out (some v ∷ []) vs)

  loop-present :
      (vs out : List (Option Value))
      → relevant_loop quote true false [] vs out ≡ ok (out ++ present vs)
  unfolding relevant_loop
  loop-present [] out = ap ok (sym (append-nil out))
  loop-present (none ∷ vs) out = loop-present vs out
  loop-present (some v ∷ vs) out =
      loop-present vs (out ++ some v ∷ []) ∙ ap ok (append_assoc out (some v ∷ []) (present vs))

  -- Without DISTINCT the relevant values are those of the frame, in order, less the nulls if nulls
  -- are ignored; there is no error.
  pub relevant_values-plain :
      (values : List (Option Value)) (ignore : Bool)
      → relevant_values quote (record { values = values; ignore_nulls = ignore; distinct = false })
        ≡ ok (if ignore then present values else values)
  unfolding relevant_values
  relevant_values-plain values true = loop-present values []
  relevant_values-plain values false = loop-all values []

  -- No two values of the list print alike, and none prints like a key.
  abbrev pub Fresh : List Bytes → List (Option Value) → Type 0
  Fresh keys [] = Unit
  Fresh keys (none ∷ vs) = ⊥
  Fresh keys (some v ∷ vs) =
      (key : Bytes) × (to_string quote v ≡ ok key)
      × (has_key keys key ≡ false)
      × Fresh (key ∷ keys) vs

  -- Every value of the list has a key that is among the keys, or prints like one of the others.
  loop-Fresh :
      (ignore : Bool) (keys : List Bytes) (vs out r : List (Option Value))
      → relevant_loop quote ignore true keys vs out ≡ ok r
      → (new : List (Option Value)) × (r ≡ out ++ new) × Fresh keys new
  unfolding relevant_loop
  loop-Fresh ignore keys [] out r h = ([], rw append-nil (cc), tt)
  loop-Fresh true keys (none ∷ vs) out r h = loop-Fresh true keys vs out r h
  loop-Fresh false keys (none ∷ vs) out r h = absurd (cc)
  loop-Fresh true keys (some v ∷ vs) out r h =
      let (key, printed, h') = bind_parts (to_string quote v) _ h in
      elim (Bool-cases (has_key keys key)) [
        | inl e ↦ loop-Fresh true keys vs out r (rw e at h')
        | inr e ↦
            let (new, split, fresh) =
              loop-Fresh true (key ∷ keys) vs (out ++ some v ∷ []) r (rw e at h') in
            (some v ∷ new, split ∙ append_assoc out (some v ∷ []) new, (key, printed, e, fresh))
      ]
  loop-Fresh false keys (some v ∷ vs) out r h =
      let (key, printed, h') = bind_parts (to_string quote v) _ h in
      elim (Bool-cases (has_key keys key)) [
        | inl e ↦ loop-Fresh false keys vs out r (rw e at h')
        | inr e ↦
            let (new, split, fresh) =
              loop-Fresh false (key ∷ keys) vs (out ++ some v ∷ []) r (rw e at h') in
            (some v ∷ new, split ∙ append_assoc out (some v ∷ []) new, (key, printed, e, fresh))
      ]

  -- With DISTINCT, when there is a result, its values are not null and no two of them have the same
  -- string form.
  pub relevant_values-Fresh :
      (values : List (Option Value)) (ignore : Bool) (r : List (Option Value))
      → relevant_values quote (record { values = values; ignore_nulls = ignore; distinct = true })
        ≡ ok r
      → Fresh [] r
  unfolding relevant_values
  relevant_values-Fresh values ignore r h =
      let (new, split, fresh) = loop-Fresh ignore [] values [] r h in rw split fresh
