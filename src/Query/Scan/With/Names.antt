-- ===== src/Query/Scan/With/Names.antt =====
-- References to a recursive query from inside its own WITH entry.
use go_zetasqlite.Prelude.{◌≡◌, List, ◌++◌, map}
use go_zetasqlite.Prelude.Bytes.{Bytes, codes}
use go_zetasqlite.Result.{Result, ok}
use go_zetasqlite.Flatten.Statement.{FromItem}
use go_zetasqlite.Query.Action.{Action, ◌>>=◌}
use go_zetasqlite.Query.Build.{new_clauses, new_table_from_item}
use go_zetasqlite.Query.Context.{Column, Context, alias_of, get_id}
use go_zetasqlite.Query.Scan.{subquery_of}
use go_zetasqlite.Query.Scan.With.{mapped_items, transform_recursive_ref}

-- The action leaves the names of WITH entries alone.
abbrev pub KeepsNames {ℓ} : {A : Type ℓ} → Action A → Type ℓ
KeepsNames {A = A} m =
    (c : Context) (a : A) (c' : Context)
    → m c ≡ ok (a, c')
    → (c'.recursive_cte_name ≡ c.recursive_cte_name) × (c'.with_mappings ≡ c.with_mappings)

abbrev reference_alias : Context → Bytes
reference_alias c = codes "rrs" ++ get_id c.fragment

-- A query of the table `name`, whose columns have the names that the entry's columns have.
abbrev pub recursive_reference : Bytes → (columns refs : List Column) → Context → FromItem
recursive_reference name columns refs c =
    subquery_of (new_table_from_item name (reference_alias c)) (record new_clauses {
      select_list = mapped_items (reference_alias c) (map alias_of columns) refs;
    })

module _ {ℓ} {A : Type ℓ} (name : Bytes) (columns refs : List Column) where
  -- A transformer that comes to a recursive reference, and one that is given the resolved reference.
  abbrev pub by_reference : Action A → (A → FromItem → Action FromItem) → Action FromItem
  by_reference before rest = before >>= λ a. transform_recursive_ref refs >>= λ from. rest a from

  abbrev pub by_name : Action A → (A → FromItem → Action FromItem) → Action FromItem
  by_name before rest = before >>= λ a c. rest a (recursive_reference name columns refs c) c
