-- ===== src/Services/Scopes.antt =====
-- Scopes: what a call does to the stack, and balanced sequences of calls.
pub mod Sequences
pub mod Guard
use plugify.Prelude.{
  ℕ, suc, ◌≡◌, refl, sym, ◌∙◌, ap, subst, Bool, true, false, Option, none, some, List, [], ◌∷◌,
  ◌++◌, ◌==◌, if◌then◌else◌, ◌⊎◌, inl, inr, Option-cases, Bool-cases, ==_iff,
}
use plugify.Prelude.Table.{Table, find, assign, is_some, find-assign}
use plugify.Services.{
  Pointer, ServiceLifetime, transient, scoped, singleton, Factory, returning, custom,
  ServiceDescriptor, Locator, Answer, finished, thrown, Operation, register_instance_of,
  register_factory_of, register_instance_if_missing, register_factory_if_missing, resolve_of,
  try_resolve_of, is_registered_of, begin_of, end_of, clear_of, call, register_instance,
  register_factory, is_registered, resolve_internal, resolve, try_resolve, begin_scope, end_scope,
  clear, apply, run, Resolved, resolved, resolve_found, by_lifetime, in_scope, resolve_scoped,
  called, if_missing, pop_scope,
}

-- The top scope may have got more instances; what was in it is unchanged, and so is what is below.
abbrev pub Grows : List (Table Pointer) → List (Table Pointer) → Type 0
Grows [] [] = Unit
Grows [] (scope ∷ outer) = ⊥
Grows (scope ∷ outer) [] = ⊥
Grows (scope ∷ outer) (scope' ∷ outer') =
    ((t : ℕ) (x : Pointer) → find t scope ≡ some x → find t scope' ≡ some x) × (outer ≡ outer')

pub Grows-refl : (s : List (Table Pointer)) → Grows s s
Grows-refl [] = tt
Grows-refl (scope ∷ outer) = ((λ t x e. e), refl)

pub Grows-trans : (a b c : List (Table Pointer)) → Grows a b → Grows b c → Grows a c
Grows-trans [] [] [] h k = tt
Grows-trans [] [] (z ∷ zs) h k = k
Grows-trans [] (y ∷ ys) c h k = absurd h
Grows-trans (x ∷ xs) [] c h k = absurd h
Grows-trans (x ∷ xs) (y ∷ ys) [] h k = k
Grows-trans (x ∷ xs) (y ∷ ys) (z ∷ zs) (h, e) (k, f) = ((λ t v g. k t v (h t v g)), e ∙ f)

pub Grows-top :
    (scope : Table Pointer) (outer after : List (Table Pointer))
    → Grows (scope ∷ outer) after
    → (top : Table Pointer) × (after ≡ top ∷ outer)
      × ((t : ℕ) (x : Pointer) → find t scope ≡ some x → find t top ≡ some x)
Grows-top scope outer [] h = absurd h
Grows-top scope outer (top ∷ below) (keeps, same) = (top, ap (λ o. top ∷ o) (sym same), keeps)

-- Calls that neither begin nor end a scope, nor clear the locator.
abbrev pub IsPlain : Operation → Type 0
IsPlain begin_of = ⊥
IsPlain end_of = ⊥
IsPlain clear_of = ⊥
IsPlain (register_instance_of t x) = Unit
IsPlain (register_factory_of t f lifetime) = Unit
IsPlain (register_instance_if_missing t x) = Unit
IsPlain (register_factory_if_missing t f lifetime) = Unit
IsPlain (resolve_of t) = Unit
IsPlain (try_resolve_of t) = Unit
IsPlain (is_registered_of t) = Unit

-- Calls among which each scope that begins also ends, and none is cleared.
pub data Balanced : List Operation → Type 0 where
  nothing : Balanced []
  one : {op : Operation} {ops : List Operation} → IsPlain op → Balanced ops → Balanced (op ∷ ops)
  enclosed :
      {inner ops : List Operation}
      → Balanced inner
      → Balanced ops
      → Balanced (begin_of ∷ inner ++ end_of ∷ ops)

module _ (create : ℕ → ℕ → Pointer) where
  call-stack : (f : Factory) (l : Locator) → (call create f l).1.scope_stack ≡ l.scope_stack
  call-stack (returning x) l = refl
  call-stack (custom f) l = refl

  register_instance-stack :
      (t : ℕ) (x : Pointer) (l : Locator) → (register_instance t x l).1.scope_stack ≡ l.scope_stack
  unfolding register_instance
  register_instance-stack t none l = refl
  register_instance-stack t (some x) l = refl

  register_factory-stack :
      (t : ℕ) (f : Option Factory) (lifetime : ServiceLifetime) (l : Locator)
      → (register_factory create t f lifetime l).1.scope_stack ≡ l.scope_stack
  unfolding register_factory
  register_factory-stack t none lifetime l = refl
  register_factory-stack t (some f) transient l = refl
  register_factory-stack t (some f) scoped l = refl
  register_factory-stack t (some f) singleton l = call-stack f l

  if_missing-stack :
      (b : Bool) (register : Locator → Answer × Locator) (l : Locator)
      → (register l).1.scope_stack ≡ l.scope_stack
      → (if_missing b register l).1.scope_stack ≡ l.scope_stack
  if_missing-stack true register l h = refl
  if_missing-stack false register l h = h

  pub same-Grows : (a b : List (Table Pointer)) → b ≡ a → Grows a b
  same-Grows a b e = subst (λ x. Grows a x) (sym e) (Grows-refl a)

  assign-Grows :
      (t : ℕ) (x : Pointer) (scope : Table Pointer) (outer : List (Table Pointer))
      → find t scope ≡ none
      → Grows (scope ∷ outer) (assign t x scope ∷ outer)
  assign-Grows t x scope outer missing = (kept, refl)
    where
      kept : (q : ℕ) (y : Pointer) → find q scope ≡ some y → find q (assign t x scope) ≡ some y
      kept q y e = elim (Bool-cases (t == q)) [
        | inl s ↦ absurd (cc (missing, e, (==_iff t q).0 s))
        | inr n ↦ find-assign t q x scope ∙ rw n e
      ]

  resolve_scoped-Grows :
      (t : ℕ) (f : Factory) (l : Locator) (scope : Table Pointer) (outer : List (Table Pointer))
      → l.scope_stack ≡ scope ∷ outer
      → Grows (scope ∷ outer) (resolve_scoped create t f l scope outer (find t scope)).1.scope_stack
  resolve_scoped-Grows t f l scope outer e = elim (Option-cases (find t scope)) [
    | inl missing ↦ rw missing (fresh f missing)
    | inr (x, cached) ↦ rw cached (same-Grows (scope ∷ outer) l.scope_stack e)
  ]
    where
      fresh :
          (f : Factory)
          → find t scope ≡ none
          → Grows (scope ∷ outer) (resolve_scoped create t f l scope outer none).1.scope_stack
      fresh (returning x) missing = assign-Grows t x scope outer missing
      fresh (custom g) missing = assign-Grows t (create g l.calls) scope outer missing

  in_scope-Grows :
      (t : ℕ) (f : Factory) (l : Locator) (scopes : List (Table Pointer))
      → l.scope_stack ≡ scopes
      → Grows scopes (in_scope create t f l scopes).1.scope_stack
  in_scope-Grows t f l [] e = same-Grows [] l.scope_stack e
  in_scope-Grows t f l (scope ∷ outer) e = resolve_scoped-Grows t f l scope outer e

  called-stack :
      (f : Factory) (l : Locator) → (called (call create f l)).1.scope_stack ≡ l.scope_stack
  called-stack (returning x) l = refl
  called-stack (custom f) l = refl

  by_lifetime-Grows :
      (lifetime : ServiceLifetime) (t : ℕ) (d : ServiceDescriptor) (l : Locator)
      → Grows l.scope_stack (by_lifetime create lifetime t d l).1.scope_stack
  by_lifetime-Grows singleton t d l = Grows-refl l.scope_stack
  by_lifetime-Grows transient t d l = same-Grows _ _ (called-stack d.factory l)
  by_lifetime-Grows scoped t d l = in_scope-Grows t d.factory l l.scope_stack refl

  resolve_found-Grows :
      (d : Option ServiceDescriptor) (t : ℕ) (l : Locator)
      → Grows l.scope_stack (resolve_found create d t l).1.scope_stack
  resolve_found-Grows none t l = Grows-refl l.scope_stack
  resolve_found-Grows (some d) t l = by_lifetime-Grows d.lifetime t d l

  resolve_internal-Grows :
      (t : ℕ) (l : Locator) → Grows l.scope_stack (resolve_internal create t l).1.scope_stack
  unfolding resolve_internal
  resolve_internal-Grows t l = resolve_found-Grows (find t l.services) t l

  pub apply-Grows :
      (op : Operation) (l : Locator)
      → IsPlain op
      → Grows l.scope_stack (apply create op l).1.scope_stack
  unfolding apply resolve try_resolve
  apply-Grows (register_instance_of t x) l h = same-Grows _ _ (register_instance-stack t x l)
  apply-Grows (register_factory_of t f lifetime) l h =
      same-Grows _ _ (register_factory-stack t f lifetime l)
  apply-Grows (register_instance_if_missing t x) l h =
      same-Grows _ _ (if_missing-stack (is_registered t l) _ l (register_instance-stack t x l))
  apply-Grows (register_factory_if_missing t f lifetime) l h =
      same-Grows _ _
        (if_missing-stack (is_registered t l) _ l (register_factory-stack t f lifetime l))
  apply-Grows (resolve_of t) l h = resolve_internal-Grows t l
  apply-Grows (try_resolve_of t) l h = resolve_internal-Grows t l
  apply-Grows (is_registered_of t) l h = Grows-refl l.scope_stack
  apply-Grows begin_of l h = absurd h
  apply-Grows end_of l h = absurd h
  apply-Grows clear_of l h = absurd h
