-- ===== src/Query/Kept.antt =====
-- What every transformation leaves of the context it starts from.
use go_zetasqlite.Prelude.{
  ◌+◌, ◌≡◌, refl, ap, sym, ◌∙◌, Bool, true, false, Option, none, some, List, [], ◌∷◌, ◌++◌, All,
  append_assoc, if◌then◌else◌,
}
use go_zetasqlite.Result.{Result, ok, err, panic, out_of_fuel}
use go_zetasqlite.Flatten.Statement.{Statement}
use go_zetasqlite.Query.Action.{
  Action, continue, ◌>>=◌, ask, given, change_fragment, in_scope, each, each_keyed, optional,
}
use go_zetasqlite.Query.Context.{Context, FragmentContext, allocate, enter_scope, exit_scope}
use go_zetasqlite.Query.Context.Scopes.{Keeps, Keeps-refl, Keeps-trans, exit_scope-Keeps}
use go_zetasqlite.Query.Scan.{new_statement}

-- The scopes are as before, scope numbers have only grown, and the heap has only got new statements.
pub record Extends (ctx ctx' : Context) : Type 0 where
  pub scopes : Keeps ctx.fragment ctx'.fragment
  pub added : List Statement
  pub heap : ctx'.heap ≡ (added ++ ctx.heap)

pub Extends-refl : (ctx : Context) → Extends ctx ctx
Extends-refl ctx = record { scopes = Keeps-refl ctx.fragment; added = []; heap = refl }

pub Extends-trans : (a b c : Context) → Extends a b → Extends b c → Extends a c
Extends-trans a b c h k = record {
  scopes = Keeps-trans a.fragment b.fragment c.fragment h.scopes k.scopes;
  added = k.added ++ h.added;
  heap = k.heap ∙ ap (λ x. k.added ++ x) h.heap ∙ sym (append_assoc k.added h.added a.heap);
}

-- A result that is a value extends the context.
abbrev pub Within {ℓ} : {A : Type ℓ} → Context → Result (A × Context) → Type 0
Within ctx (ok r) = Extends ctx r.1
Within ctx (err e) = Unit
Within ctx panic = Unit
Within ctx out_of_fuel = Unit

abbrev pub Kept {ℓ} : {A : Type ℓ} → Action A → Type 0
Kept m = (ctx : Context) → Within ctx (m ctx)

weaken {ℓ} :
    {A : Type ℓ} (a b : Context) (r : Result (A × Context)) → Extends a b → Within b r → Within a r
weaken a b (ok (x, c)) h k = Extends-trans a b c h k
weaken a b (err e) h k = tt
weaken a b panic h k = tt
weaken a b out_of_fuel h k = tt

continue-Within {ℓ κ} :
    {A : Type ℓ} {B : Type κ} (ctx : Context) (r : Result (A × Context)) (next : A → Action B)
    → Within ctx r
    → ((a : A) → Kept (next a))
    → Within ctx (continue r next)
continue-Within ctx (ok (a, c)) next h k = weaken ctx c (next a c) h (k a c)
continue-Within ctx (err e) next h k = tt
continue-Within ctx panic next h k = tt
continue-Within ctx out_of_fuel next h k = tt

pub Kept-bind {ℓ κ} :
    {A : Type ℓ} {B : Type κ} (m : Action A) (next : A → Action B)
    → Kept m
    → ((a : A) → Kept (next a))
    → Kept (m >>= next)
Kept-bind m next h k ctx = continue-Within ctx (m ctx) next (h ctx) k

ask_Within {ℓ} : {A : Type ℓ} (ctx : Context) (r : Result A) → Within ctx (given r ctx)
ask_Within ctx (ok a) = Extends-refl ctx
ask_Within ctx (err e) = tt
ask_Within ctx panic = tt
ask_Within ctx out_of_fuel = tt

pub Kept-ask {ℓ} : {A : Type ℓ} (f : Context → Result A) → Kept (ask f)
Kept-ask f ctx = ask_Within ctx (f ctx)

pub Kept-given {ℓ} : {A : Type ℓ} (r : Result A) → Kept (given r)
Kept-given r = Kept-ask (λ ctx. r)

pub Kept-change :
    (f : FragmentContext → FragmentContext)
    → ((fc : FragmentContext) → Keeps fc (f fc))
    → Kept (change_fragment f)
Kept-change f h ctx = record { scopes = h ctx.fragment; added = []; heap = refl }

pub Kept-new_statement : (s : Statement) → Kept (new_statement s)
unfolding allocate new_statement
Kept-new_statement s ctx = record { scopes = Keeps-refl ctx.fragment; added = s ∷ []; heap = refl }

leave_Within {ℓ} :
    {A : Type ℓ} (ctx : Context) (r : Result (A × Context))
    → Within (record ctx { fragment = enter_scope ctx.fragment }) r
    → Within ctx (
        continue r (λ a ctx'.
          ok (a, record ctx' { fragment = exit_scope (ctx.fragment.count + 1) ctx'.fragment })))
leave_Within ctx (ok (a, c)) h = record {
  scopes = exit_scope-Keeps ctx.fragment c.fragment h.scopes;
  added = h.added;
  heap = h.heap;
}
leave_Within ctx (err e) h = tt
leave_Within ctx panic h = tt
leave_Within ctx out_of_fuel h = tt

pub Kept-in_scope {ℓ} : {A : Type ℓ} (m : Action A) → Kept m → Kept (in_scope m)
unfolding in_scope
Kept-in_scope m h ctx =
    leave_Within ctx (m (record ctx { fragment = enter_scope ctx.fragment })) (h _)

pub Kept-each {ℓ} : {A : Type ℓ} (ms : List (Action A)) → All Kept ms → Kept (each ms)
unfolding each
Kept-each [] h = Extends-refl
Kept-each (m ∷ ms) (hm, h) =
    Kept-bind m _ hm (λ a. Kept-bind (each ms) _ (Kept-each ms h) (λ rest. Extends-refl))

abbrev pub KeptEntries {ℓ κ} : {K : Type ℓ} {A : Type κ} → List (K × Action A) → Type 0
KeptEntries [] = Unit
KeptEntries ((k, m) ∷ ms) = Kept m × KeptEntries ms

pub Kept-each_keyed {ℓ κ} :
    {K : Type ℓ} {A : Type κ} (ms : List (K × Action A)) → KeptEntries ms → Kept (each_keyed ms)
unfolding each_keyed
Kept-each_keyed [] h = Extends-refl
Kept-each_keyed ((k, m) ∷ ms) (hm, h) =
    Kept-bind m _ hm
      (λ a. Kept-bind (each_keyed ms) _ (Kept-each_keyed ms h) (λ rest. Extends-refl))

abbrev pub KeptOption {ℓ} : {A : Type ℓ} → Option (Action A) → Type 0
KeptOption none = Unit
KeptOption (some m) = Kept m

pub Kept-optional {ℓ} :
    {A : Type ℓ} (a : A) (o : Option (Action A)) → KeptOption o → Kept (optional a o)
unfolding optional
Kept-optional a none h = Extends-refl
Kept-optional a (some m) h = h

pub Kept-if {ℓ} :
    {A : Type ℓ} (b : Bool) (m n : Action A) → Kept m → Kept n → Kept (if b then m else n)
Kept-if true m n h k = h
Kept-if false m n h k = k

pub Within-if {ℓ} :
    {A : Type ℓ} (ctx : Context) (b : Bool) (r s : Result (A × Context))
    → Within ctx r
    → Within ctx s
    → Within ctx (if b then r else s)
Within-if ctx true r s h k = h
Within-if ctx false r s h k = k
