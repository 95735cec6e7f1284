-- ===== src/Query/Action.antt =====
-- A transformation: it reads and changes the context, and may fail. The texts that
-- `fmt.Errorf("…: %w", err)` puts around an error are left out.
use go_zetasqlite.Prelude.{Option, none, some, List, [], ◌∷◌, ◌+◌}
use go_zetasqlite.Result.{Error, Result, ok, err, panic, out_of_fuel}
use go_zetasqlite.Query.Context.{Context, FragmentContext, enter_scope, exit_scope}

abbrev pub Action {ℓ} : Type ℓ → Type ℓ
Action A = Context → Result (A × Context)

abbrev pub continue {ℓ κ} :
    {A : Type ℓ} {B : Type κ} → Result (A × Context) → (A → Action B) → Result (B × Context)
continue (ok r) next = next r.0 r.1
continue (err e) next = err e
continue panic next = panic
continue out_of_fuel next = out_of_fuel

infixl 5 ◌>>=◌
abbrev pub ◌>>=◌ {ℓ κ} : {A : Type ℓ} {B : Type κ} → Action A → (A → Action B) → Action B
(m >>= next) ctx = continue (m ctx) next

abbrev pub pure {ℓ} : {A : Type ℓ} → A → Action A
pure a ctx = ok (a, ctx)

abbrev pub fail {ℓ} : {A : Type ℓ} → Error → Action A
fail e ctx = err e

-- What only reads the context.
abbrev with_context {ℓ} : {A : Type ℓ} → Result A → Context → Result (A × Context)
with_context (ok a) ctx = ok (a, ctx)
with_context (err e) ctx = err e
with_context panic ctx = panic
with_context out_of_fuel ctx = out_of_fuel

abbrev pub ask {ℓ} : {A : Type ℓ} → (Context → Result A) → Action A
ask f ctx = with_context (f ctx) ctx

abbrev pub given {ℓ} : {A : Type ℓ} → Result A → Action A
given r = ask (λ ctx. r)

-- What only changes the fragment's part of the context.
abbrev pub change_fragment : (FragmentContext → FragmentContext) → Action {0} Unit
change_fragment f ctx = ok (tt, record ctx { fragment = f ctx.fragment })

-- `token := EnterScope(); defer ExitScope(token)`
unfoldable pub in_scope {ℓ} : {A : Type ℓ} → Action A → Action A
unfolding enter_scope
in_scope m ctx =
    continue (m (record ctx { fragment = enter_scope ctx.fragment })) (λ a ctx'.
      ok (a, record ctx' { fragment = exit_scope (ctx.fragment.count + 1) ctx'.fragment }))

-- The actions in turn.
unfoldable pub each {ℓ} : {A : Type ℓ} → List (Action A) → Action (List A)
each [] = pure []
each (m ∷ ms) = do a ← m; rest ← each ms; pure (a ∷ rest)

-- The same for a list of keys and actions.
unfoldable pub each_keyed {ℓ κ} :
    {K : Type ℓ} {A : Type κ} → List (K × Action A) → Action (List (K × A))
each_keyed [] = pure []
each_keyed ((k, m) ∷ ms) = do a ← m; rest ← each_keyed ms; pure ((k, a) ∷ rest)

-- `if data != nil { … }`
unfoldable pub optional {ℓ} : {A : Type ℓ} → A → Option (Action A) → Action A
optional nil none = pure nil
optional nil (some m) = m
