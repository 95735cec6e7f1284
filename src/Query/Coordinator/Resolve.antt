-- ===== src/Query/Coordinator/Resolve.antt =====
-- What a scan's columns are resolved to after TransformScan.
use go_zetasqlite.Prelude.{ℕ, ◌+◌, ◌≡◌, refl, sym, ◌∙◌, ap, some, List, [], ◌∷◌, ◌++◌}
use mathlib.Core.Path.{subst}
use go_zetasqlite.Prelude.Int.{ℤ, pos}
use go_zetasqlite.Prelude.Bytes.{Bytes}
use go_zetasqlite.Result.{Result, ok, err, panic, out_of_fuel}
use go_zetasqlite.Strconv.{format_int}
use go_zetasqlite.Flatten.Statement.{FromItem, no_item, item}
use go_zetasqlite.Query.Action.{Action, ◌>>=◌, continue, given, pure, change_fragment, in_scope}
use go_zetasqlite.Query.Context.{
  Column, Context, FragmentContext, alias_of, get_id, enter_scope, exit_scope,
  get_qualified_column_ref,
}
use go_zetasqlite.Query.Context.Columns.{last_column, ref-register_column_scope_mapping}
use go_zetasqlite.Query.Coordinator.{
  scan_name, scan_alias, validated, finish_scan, run_scan, register, add_columns, transform_scan,
  transform_content,
}
use go_zetasqlite.Query.Coordinator.Invariant.{transform_content-Extends}
use go_zetasqlite.Query.Data.{ScanContent, scan}
use go_zetasqlite.Query.Environment.{Environment}
use go_zetasqlite.Query.Kept.{Extends, Within}
use go_zetasqlite.Query.Validate.{validate_column_data}

abbrev pub alias_field : FromItem → Bytes
alias_field no_item = []
alias_field (item alias b) = alias

-- A chain that gives a value gave one before its last step.
pub continue_parts {ℓ κ} :
    {A : Type ℓ} {B : Type κ} (r : Result (A × Context)) (next : A → Action B) {end : B × Context}
    → continue r next ≡ ok end
    → (middle : A × Context) × (r ≡ ok middle) × (next middle.0 middle.1 ≡ ok end)
continue_parts (ok middle) next e = (middle, refl, e)
continue_parts (err x) next e = cc
continue_parts panic next e = cc
continue_parts out_of_fuel next e = cc

abbrev IsFinished : Bytes → List Column → FromItem → Context → FromItem × Context → Type 0
IsFinished alias cs from c end =
    (alias_field end.0 ≡ alias)
    × (end.1 ≡ record c { fragment = register alias cs c.fragment })
    × (validate_column_data c.heap end.0 cs ≡ ok tt)

after_validation :
    (g : FragmentContext → FragmentContext) (f : FromItem) (c : Context) (r : Result {0} Unit)
    {end : FromItem × Context}
    → continue (given r c) (λ u. change_fragment g >>= λ v. pure f) ≡ ok end
    → (r ≡ ok tt) × (end ≡ (f, record c { fragment = g c.fragment }))
after_validation g f c (ok tt) e = (refl, cc)
after_validation g f c (err x) e = cc
after_validation g f c panic e = cc
after_validation g f c out_of_fuel e = cc

finish_parts :
    (name : Bytes) (cs : List Column) (from : FromItem) (c : Context) {end : FromItem × Context}
    → finish_scan name cs from c ≡ ok end
    → IsFinished (name ++ b'_' ∷ get_id c.fragment) cs from c end
unfolding finish_scan scan_alias validated
finish_parts name cs no_item c e = cc
finish_parts name cs (item old b) c {end} e =
    let alias = name ++ b'_' ∷ get_id c.fragment in
    let f = item alias b in
    let h = after_validation (register alias cs) f c (validate_column_data c.heap f cs) e in
    (
      ap (λ p. alias_field p.0) h.1,
      ap (λ p. p.1) h.1,
      ap (λ p. validate_column_data c.heap p.0 cs) h.1 ∙ h.0,
    )

-- The context in which the transformer of a scan runs.
abbrev inner : Context → Context
unfolding enter_scope
inner ctx = record ctx { fragment = enter_scope ctx.fragment }

leave_parts {ℓ} :
    {A : Type ℓ} (ctx : Context) (m : Action A) (a : A) (ctx' : Context)
    → in_scope m ctx ≡ ok (a, ctx')
    → (c : Context) × (m (inner ctx) ≡ ok (a, c))
      × (ctx' ≡ record c { fragment = exit_scope (ctx.fragment.count + 1) c.fragment })
unfolding in_scope inner
leave_parts ctx m a ctx' e = let parts = continue_parts (m (inner ctx)) _ e in (parts.0.1, cc, cc)

pub ok_parts {ℓ} : {A : Type ℓ} (x y : A × Context) → Result.ok x ≡ ok y → (x.0 ≡ y.0) × (x.1 ≡ y.1)
ok_parts x y e = (cc, cc)

pub Within-ok {ℓ} :
    {A : Type ℓ} (ctx : Context) (r : Result (A × Context)) (a : A) (c : Context)
    → Within ctx r
    → r ≡ ok (a, c)
    → Extends ctx c
Within-ok ctx (ok x) a c h e = subst (λ z. Extends ctx z) (ok_parts x (a, c) e).1 h
Within-ok ctx (err x) a c h e = cc
Within-ok ctx panic a c h e = cc
Within-ok ctx out_of_fuel a c h e = cc

-- The alias of a scan that starts in the context: its type and the number of its scope.
unfoldable pub alias_in : ScanContent → Context → Bytes
unfolding scan_name
alias_in content ctx = scan_name content ++ b'_' ∷ format_int (pos (ctx.fragment.count + 1))

get_id-inner :
    (ctx c : Context)
    → Extends (inner ctx) c
    → get_id c.fragment ≡ format_int (pos (ctx.fragment.count + 1))
unfolding get_id inner
get_id-inner ctx c h = rw (h.scopes.same_scopes) refl

ref-exit_scope :
    (n : ℕ) (fc : FragmentContext) (id : ℤ)
    → get_qualified_column_ref (exit_scope n fc) id ≡ get_qualified_column_ref fc id
unfolding exit_scope get_qualified_column_ref
ref-exit_scope n fc id = refl

ref-register :
    (alias : Bytes) (cs : List Column) (fc : FragmentContext) (id : ℤ) (c : Column)
    → last_column id cs ≡ some c
    → get_qualified_column_ref (register alias cs fc) id ≡ ok (alias_of c, alias)
unfolding register
ref-register alias cs fc id c e =
    rw (ref-register_column_scope_mapping alias cs (add_columns cs fc) id, e) refl

run_parts :
    (name : Bytes) (cs : List Column) (m : Action FromItem) (ctx : Context) (from : FromItem)
    (ctx' : Context)
    → run_scan name cs m ctx ≡ ok (from, ctx')
    → (f : FromItem) × (c c1 : Context) × (m (inner ctx) ≡ ok (f, c))
      × (finish_scan name cs f c ≡ ok (from, c1))
      × (ctx' ≡ record c1 { fragment = exit_scope (ctx.fragment.count + 1) c1.fragment })
unfolding run_scan
run_parts name cs m ctx from ctx' e =
    let left = leave_parts ctx (m >>= finish_scan name cs) from ctx' e in
    let parts = continue_parts (m (inner ctx)) (finish_scan name cs) left.1 in
    (parts.0.0, parts.0.1, left.0, parts.1, parts.2, left.2)

-- When TransformScan succeeds, the item it gives is named after the scan's type and the number of
-- the scope that was opened for it, and a reference to an output column's identifier is from then on
-- the alias of the last such column, in that item.
pub transform_scan_lem :
    (env : Environment) (cs : List Column) (content : ScanContent) (ctx : Context) (from : FromItem)
    (ctx' : Context) (id : ℤ) (c : Column)
    → transform_scan env (scan cs content) ctx ≡ ok (from, ctx')
    → last_column id cs ≡ some c
    → (alias_field from ≡ alias_in content ctx)
      × (get_qualified_column_ref ctx'.fragment id ≡ ok (alias_of c, alias_field from))
unfolding transform_scan alias_in
transform_scan_lem env cs content ctx from ctx' id c e l =
    let p = run_parts (scan_name content) cs (transform_content env cs content) ctx from ctx' e in
    let kept =
      Within-ok (inner ctx) (transform_content env cs content (inner ctx)) p.0 p.1
        (transform_content-Extends env cs content (inner ctx)) p.3 in
    let h = finish_parts (scan_name content) cs p.0 p.1 p.4 in
    let named = ap (λ x. scan_name content ++ b'_' ∷ x) (get_id-inner ctx p.1 kept) in
    (
      h.0 ∙ named,
      ap (λ x. get_qualified_column_ref x.fragment id) p.5
          ∙ ref-exit_scope (ctx.fragment.count + 1) p.2.fragment id
          ∙ ap (λ x. get_qualified_column_ref x.fragment id) h.1
          ∙ ref-register _ cs p.1.fragment id c l
          ∙ ap (λ a. Result.ok (alias_of c, a)) (sym h.0),
    )
