-- ===== src/Query/Validate/Accepts.antt =====
-- The select lists that the transformers build pass the check of the output columns.
use go_zetasqlite.Prelude.{
  ℕ, suc, ◌≡◌, refl, sym, ◌∙◌, ap, Bool, true, false, ◌||◌, Option, none, some, List, [], ◌∷◌, map,
  length, ◌==◌, All, arith,
}
use go_zetasqlite.Prelude.Bytes.{Bytes, bytes_eq, bytes_eq_refl}
use go_zetasqlite.Result.{Result, ok}
use go_zetasqlite.Flatten.{Expr}
use go_zetasqlite.Flatten.Statement.{SelectListItem, Clauses, Statement, FromItem, select}
use go_zetasqlite.Query.Action.{Action, ◌>>=◌, pure}
use go_zetasqlite.Query.Build.{select_item, new_subquery_from_item}
use go_zetasqlite.Query.Context.{Column, Context, alias_of, generate_id_based_alias}
use go_zetasqlite.Query.Coordinator.Resolve.{continue_parts}
use go_zetasqlite.Query.Scan.{select_columns, subquery_of}
use go_zetasqlite.Query.Validate.{
  has_alias, all_aliased, is_star_query, get_select_list, star_list, list_from, list_at,
  validate_subquery, validate_column_data,
}

abbrev pub aliases : List SelectListItem → List Bytes
aliases items = map (λ i. i.alias) items

not_empty : (c : Column) → bytes_eq (alias_of c) [] ≡ false
unfolding generate_id_based_alias
not_empty c = of_name c.name
  where
    of_name : (name : Bytes) → bytes_eq (generate_id_based_alias name c.id) [] ≡ false
    of_name [] = refl
    of_name (b ∷ s) = refl

abbrev Among : List Column → Column → Type 0
Among columns c = has_alias (alias_of c) columns ≡ true

Among-more :
    (d : Column) (columns cs : List Column) → All (Among columns) cs → All (Among (d ∷ columns)) cs
Among-more d columns [] h = tt
Among-more d columns (c ∷ cs) (k, h) =
    (later (bytes_eq (alias_of c) (alias_of d)) k, Among-more d columns cs h)
  where
    later :
        (b : Bool)
        → has_alias (alias_of c) columns ≡ true
        → (b || has_alias (alias_of c) columns) ≡ true
    later true e = refl
    later false e = e

All-Among : (cs : List Column) → All (Among cs) cs
All-Among [] = tt
All-Among (c ∷ cs) = (rw (bytes_eq_refl (alias_of c)) refl, Among-more c cs cs (All-Among cs))

all_aliased_lem :
    (columns cs : List Column) (items : List SelectListItem)
    → aliases items ≡ map alias_of cs
    → All (Among columns) cs
    → all_aliased columns items ≡ true
all_aliased_lem columns cs [] e h = refl
all_aliased_lem columns [] (i ∷ items) e h = cc
all_aliased_lem columns (c ∷ cs) (i ∷ items) e (k, h) =
    rw (heads e, not_empty c, k) (all_aliased_lem columns cs items (tails e) h)
  where
    heads : aliases (i ∷ items) ≡ map alias_of (c ∷ cs) → i.alias ≡ alias_of c
    heads p = cc

    tails : aliases (i ∷ items) ≡ map alias_of (c ∷ cs) → aliases items ≡ map alias_of cs
    tails p = cc

same_length :
    (cs : List Column) (items : List SelectListItem)
    → aliases items ≡ map alias_of cs
    → length items ≡ length cs
same_length [] [] e = refl
same_length [] (i ∷ items) e = cc
same_length (c ∷ cs) [] e = cc
same_length (c ∷ cs) (i ∷ items) e = ap suc (same_length cs items (tails e))
  where
    tails : aliases (i ∷ items) ≡ map alias_of (c ∷ cs) → aliases items ≡ map alias_of cs
    tails p = cc

==_of_≡ : (m n : ℕ) → m ≡ n → (m == n) ≡ true
==_of_≡ m n e = ground arith

ok_value : (x y : List SelectListItem × Context) → Result.ok x ≡ ok y → x.0 ≡ y.0
ok_value x y e = cc

abbrev add_item :
    (Column → Action Expr) → Column → List Column → Expr → Action (List SelectListItem)
add_item f c cs e = do rest ← select_columns f cs; pure (select_item e (alias_of c) ∷ rest)

select_columns-aliases :
    (f : Column → Action Expr) (cs : List Column) (ctx : Context) (items : List SelectListItem)
    (ctx' : Context)
    → select_columns f cs ctx ≡ ok (items, ctx')
    → aliases items ≡ map alias_of cs
unfolding select_columns
select_columns-aliases f [] ctx items ctx' e = ap aliases (sym (ok_value ([], ctx) (items, ctx') e))
select_columns-aliases f (c ∷ cs) ctx items ctx' e =
    let first = continue_parts (f c ctx) (add_item f c cs) e in
    let second =
      continue_parts (select_columns f cs first.0.1)
        (λ rest. pure (select_item first.0.0 (alias_of c) ∷ rest)) first.2 in
    ap aliases (sym (ok_value _ (items, ctx') second.2))
    ∙ ap (λ as_. alias_of c ∷ as_)
        (select_columns-aliases f cs first.0.1 second.0.0 second.0.1 second.1)

star_list_plain :
    (items : List SelectListItem) (o : Option (Result (List SelectListItem)))
    → is_star_query items ≡ false
    → star_list items o ≡ ok items
star_list_plain items none e = refl
star_list_plain items (some below) e = rw (e) refl

-- A select list with the columns' aliases, in order, passes the check.
pub validate_column_data-aliases :
    (heap : List Statement) (cs : List Column) (items : List SelectListItem) (from : FromItem)
    (alias : Bytes) (clauses : Clauses)
    → aliases items ≡ map alias_of cs
    → is_star_query items ≡ false
    → clauses.set_operation ≡ none
    → validate_column_data heap
        (new_subquery_from_item (select from (record clauses { select_list = items })) alias)
        cs
      ≡ ok tt
unfolding validate_column_data new_subquery_from_item validate_subquery get_select_list
validate_column_data-aliases heap [] items from alias clauses same s o = refl
validate_column_data-aliases heap (c ∷ cs) items from alias clauses same s o =
    rw
      (
        o,
        star_list_plain items (list_from (list_at heap) from) s,
        ==_of_≡ _ _ (same_length (c ∷ cs) items same),
        all_aliased_lem (c ∷ cs) (c ∷ cs) items same (All-Among (c ∷ cs)),
      )
      refl

-- A query over any FROM item passes the check of the output columns, whatever its ORDER BY and its
-- other clauses are, if it is no set operation and its select list is built from the columns as the
-- project, order by, analytic and array scans do, unless that list is one star.
pub validate_column_data-select_columns :
    (heap : List Statement) (f : Column → Action Expr) (cs : List Column) (ctx : Context)
    (items : List SelectListItem) (ctx' : Context) (from : FromItem) (clauses : Clauses)
    → select_columns f cs ctx ≡ ok (items, ctx')
    → is_star_query items ≡ false
    → clauses.set_operation ≡ none
    → validate_column_data heap (subquery_of from (record clauses { select_list = items })) cs
      ≡ ok tt
unfolding subquery_of
validate_column_data-select_columns heap f cs ctx items ctx' from clauses e s o =
    validate_column_data-aliases heap cs items from [] clauses
      (select_columns-aliases f cs ctx items ctx' e) s o
