-- ===== src/Query/Context/Scopes.antt =====
-- The stack of scopes.
use go_zetasqlite.Prelude.{ℕ, ◌+◌, ◌≤◌, ◌≡◌, refl, true, some, List, ◌∷◌, arith, ◌==◌}
use go_zetasqlite.Query.Context.{FragmentContext, below, enter_scope, exit_scope}

-- What happens inside a scope leaves the scopes around it as they were, and gives out new numbers.
pub record Keeps (fc fc' : FragmentContext) : Type 0 where
  pub same_scopes : fc'.scopes ≡ fc.scopes
  pub grows : fc.count ≤ fc'.count

pub Keeps-refl : (fc : FragmentContext) → Keeps fc fc
Keeps-refl fc = record { same_scopes = refl; grows = omega arith }

pub Keeps-trans : (a b c : FragmentContext) → Keeps a b → Keeps b c → Keeps a c
Keeps-trans a b c h k = record { same_scopes = cc; grows = omega arith }

==_refl : (n : ℕ) → (n == n) ≡ true
==_refl n = ground arith

below_top : (n : ℕ) (scopes ss : List ℕ) → scopes ≡ (n ∷ ss) → below n scopes ≡ some ss
below_top n scopes ss e = rw (e, ==_refl n) refl

-- A scope that is entered, used and left keeps what was there before.
pub exit_scope-Keeps :
    (fc inner : FragmentContext)
    → Keeps (enter_scope fc) inner
    → Keeps fc (exit_scope (fc.count + 1) inner)
unfolding enter_scope exit_scope
exit_scope-Keeps fc inner h = record {
  same_scopes = rw (below_top (fc.count + 1) inner.scopes fc.scopes h.same_scopes) refl;
  grows = omega (arith, h.grows);
}
