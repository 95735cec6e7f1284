-- ===== src/Query/OrderItems.antt =====
-- ORDER BY items with the place of NULLs: createOrderByItems of
-- internal/transformer_scan_orderby.go, the method and the function.
use go_zetasqlite.Prelude.{Bool, List, [], ◌∷◌, ◌++◌, if◌then◌else◌}
use go_zetasqlite.Prelude.Bytes.{Bytes, codes}
use go_zetasqlite.Flatten.{
  Expr, nil, expr, OrderByItem, order_by_item, OrderByItems, no_items, then_by,
}
use go_zetasqlite.Query.Build.{new_binary_expression, new_literal_expression}
use go_zetasqlite.Query.Data.{NullOrderMode, order_unspecified, nulls_first, nulls_last}

-- `expr.Collation = "zetasqlite_collate"`
unfoldable pub collated : Expr → Expr
collated nil = nil
collated (expr type text fs) = expr type (record text { collation = codes "zetasqlite_collate" }) fs

abbrev pub direction_of : Bool → Bytes
direction_of is_descending = if is_descending then codes "DESC" else codes "ASC"

unfoldable pub is_not_null : Expr → Expr
unfolding collated new_binary_expression new_literal_expression
is_not_null e =
    collated
      (new_binary_expression (collated e) (codes "IS NOT") (new_literal_expression (codes "NULL")))

-- The item that puts the NULLs first or last.
unfoldable pub null_items : Expr → NullOrderMode → List OrderByItem
null_items e order_unspecified = []
null_items e nulls_first = order_by_item (is_not_null e) (codes "ASC") [] ∷ []
null_items e nulls_last = order_by_item (is_not_null e) (codes "DESC") [] ∷ []

unfoldable pub create_order_by_items : Expr → Bool → NullOrderMode → List OrderByItem
unfolding null_items collated
create_order_by_items e is_descending null_order =
    null_items e null_order ++ order_by_item (collated e) (direction_of is_descending) [] ∷ []

abbrev pub to_items : List OrderByItem → OrderByItems
to_items [] = no_items
to_items (i ∷ items) = then_by i (to_items items)

abbrev pub flatten {ℓ} : {A : Type ℓ} → List (List A) → List A
flatten [] = []
flatten (xs ∷ xss) = xs ++ flatten xss
