-- ===== src/Query/Function/Case.antt =====
-- The arguments of CASE in internal/transformer_function.go.
use go_zetasqlite.Prelude.{◌≡◌, refl, ap, List, [], ◌∷◌, ◌++◌, All}
use go_zetasqlite.Flatten.{Expr, nil, expr, WhenClauses, no_more, when}
use go_zetasqlite.Query.Function.{when_clauses}

abbrev pub NotNil : Expr → Type 0
NotNil nil = ⊥
NotNil (expr type t fs) = Unit

-- What a CASE expression evaluates, in order.
abbrev pub clause_args : WhenClauses → List Expr
clause_args no_more = []
clause_args (when condition result whens) = condition ∷ result ∷ clause_args whens

abbrev pub else_args : Expr → List Expr
else_args nil = []
else_args (expr type t fs) = expr type t fs ∷ []

-- The conditions and results of the WHEN clauses, and the ELSE expression where there is one, are
-- the arguments of the call in their order, none of them lost, if none is nil.
pub when_clauses_roundtrip :
    (args : List Expr)
    → All NotNil args
    → clause_args (when_clauses args).0 ++ else_args (when_clauses args).1 ≡ args
unfolding when_clauses
when_clauses_roundtrip [] h = refl
when_clauses_roundtrip (nil ∷ []) (h, hs) = elim h [ ]
when_clauses_roundtrip (expr type t fs ∷ []) h = refl
when_clauses_roundtrip (c ∷ r ∷ args) (hc, (hr, h)) =
    ap (λ es. c ∷ r ∷ es) (when_clauses_roundtrip args h)
