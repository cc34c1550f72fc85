-- ===== src/Services/Scopes/Guard.antt =====
-- What the scopes give: a guard restores the stack, and a scope has one instance of a scoped service.
use plugify.Prelude.{
  ℕ, ◌≡◌, refl, sym, ◌∙◌, subst, none, some, List, [], ◌∷◌, inl, inr, Option-cases, ==_refl,
}
use plugify.Prelude.Table.{Table, find, find-assign}
use plugify.Services.{
  Pointer, scoped, Factory, returning, custom, ServiceDescriptor, Locator, finished, Operation,
  resolve_internal, begin_scope, end_scope, run, resolved, resolve_scoped, in_scope,
}
use plugify.Services.Scopes.{Grows, Grows-top, Balanced}
use plugify.Services.Scopes.Sequences.{run-Grows, end_scope-stack}

-- The type is registered as a scoped service.
abbrev pub IsScoped : ℕ → Locator → Type 0
IsScoped t l = (d : ServiceDescriptor) × (find t l.services ≡ some d) × (d.lifetime ≡ scoped)

-- The current scope has the instance x of t.
abbrev pub Held : ℕ → Pointer → List (Table Pointer) → Type 0
Held t x [] = ⊥
Held t x (scope ∷ outer) = find t scope ≡ some x

module _ (create : ℕ → ℕ → Pointer) where
  -- `ScopedServiceLocator`: between its constructor and its destructor, whatever calls are made, if
  -- each scope that they begin is ended and they do not clear the locator, `EndScope` does not throw
  -- in the destructor, and the stack of scopes is again what it was.
  pub guard_restores :
      (ops : List Operation) (l : Locator)
      → Balanced ops
      → ((end_scope (run create ops (begin_scope l).1).1).0 ≡ finished)
        × ((end_scope (run create ops (begin_scope l).1).1).1.scope_stack ≡ l.scope_stack)
  unfolding begin_scope
  guard_restores ops l balanced =
      (let top = Grows-top [] l.scope_stack _ (run-Grows create balanced (begin_scope l).1) in
        end_scope-stack create _ top.0 l.scope_stack top.1)

  pub Held-Grows :
      (t : ℕ) (x : Pointer) (a b : List (Table Pointer)) → Grows a b → Held t x a → Held t x b
  Held-Grows t x [] b g h = absurd h
  Held-Grows t x (scope ∷ outer) [] g h = g
  Held-Grows t x (scope ∷ outer) (top ∷ below) (keeps, _) h = keeps t x h

  resolve_scoped-Held :
      (t : ℕ) (x : Pointer) (f : Factory) (l : Locator) (scope : Table Pointer)
      (outer : List (Table Pointer))
      → l.scope_stack ≡ scope ∷ outer
      → (resolve_scoped create t f l scope outer (find t scope)).0 ≡ resolved x
      → Held t x (resolve_scoped create t f l scope outer (find t scope)).1.scope_stack
  resolve_scoped-Held t x f l scope outer e h = elim (Option-cases (find t scope)) [
    | inl missing ↦ rw missing (fresh f (rw missing at h))
    | inr (y, cached) ↦
        rw cached (subst (λ s. Held t x s) (sym e) (cached ∙ held y (rw cached at h)))
  ]
    where
      held : (y : Pointer) → resolved y ≡ resolved x → some y ≡ some x
      held y e = cc e

      fresh :
          (f : Factory)
          → (resolve_scoped create t f l scope outer none).0 ≡ resolved x
          → Held t x (resolve_scoped create t f l scope outer none).1.scope_stack
      fresh (returning y) h = find-assign t t y scope ∙ rw (==_refl t) (cc h)
      fresh (custom g) h = find-assign t t (create g l.calls) scope ∙ rw (==_refl t) (cc h)

  in_scope-Held :
      (t : ℕ) (x : Pointer) (f : Factory) (l : Locator) (scopes : List (Table Pointer))
      → l.scope_stack ≡ scopes
      → (in_scope create t f l scopes).0 ≡ resolved x
      → Held t x (in_scope create t f l scopes).1.scope_stack
  in_scope-Held t x f l [] e h = absurd (cc h)
  in_scope-Held t x f l (scope ∷ outer) e h = resolve_scoped-Held t x f l scope outer e h

  in_scope_again :
      (t : ℕ) (x : Pointer) (f : Factory) (l : Locator) (scopes : List (Table Pointer))
      → Held t x scopes
      → in_scope create t f l scopes ≡ (resolved x, l)
  in_scope_again t x f l [] h = absurd h
  in_scope_again t x f l (scope ∷ outer) h = rw h refl

  scoped_as :
      (t : ℕ) (l : Locator) (d : ServiceDescriptor)
      → find t l.services ≡ some d
      → d.lifetime ≡ scoped
      → resolve_internal create t l ≡ in_scope create t d.factory l l.scope_stack
  unfolding resolve_internal
  scoped_as t l d e s = rw e (rw s refl)

  pub resolved-Held :
      (t : ℕ) (x : Pointer) (l : Locator)
      → IsScoped t l
      → (resolve_internal create t l).0 ≡ resolved x
      → Held t x (resolve_internal create t l).1.scope_stack
  resolved-Held t x l (d, found, life) h =
      (let same = scoped_as t l d found life in
        subst (λ r. Held t x r.1.scope_stack) (sym same)
          (in_scope-Held t x d.factory l l.scope_stack refl (rw same at h)))

  pub resolve_again :
      (t : ℕ) (x : Pointer) (l : Locator)
      → IsScoped t l
      → Held t x l.scope_stack
      → resolve_internal create t l ≡ (resolved x, l)
  resolve_again t x l (d, found, life) h =
      scoped_as t l d found life ∙ in_scope_again t x d.factory l l.scope_stack h

  -- A scoped service that was resolved to an instance is resolved to the same instance again, and
  -- no factory is called for it, after any calls in the same scope that are balanced, if its type is
  -- then still registered as scoped, be it with another factory.
  pub scoped_once :
      (t : ℕ) (x : Pointer) (ops : List Operation) (l : Locator)
      → IsScoped t l
      → (resolve_internal create t l).0 ≡ resolved x
      → Balanced ops
      → IsScoped t (run create ops (resolve_internal create t l).1).1
      → resolve_internal create t (run create ops (resolve_internal create t l).1).1
        ≡ (resolved x, (run create ops (resolve_internal create t l).1).1)
  scoped_once t x ops l before h balanced after = resolve_again t x _ after (
      Held-Grows t x _ _ (run-Grows create balanced (resolve_internal create t l).1)
        (resolved-Held t x l before h))
