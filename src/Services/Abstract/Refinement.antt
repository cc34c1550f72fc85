-- ===== src/Services/Abstract/Refinement.antt =====
-- The locator implements the abstract one.
use plugify.Prelude.{
  ℕ, suc, ◌≡◌, refl, sym, ◌∙◌, ap, subst, Bool, true, false, Option, none, some, List, [], ◌∷◌, map,
}
use plugify.Prelude.Table.{Table, find}
use plugify.Services.{
  Pointer, ServiceLifetime, transient, scoped, singleton, Factory, returning, custom,
  ServiceDescriptor, Locator, Answer, registered, Operation, register_instance_of,
  register_factory_of, register_instance_if_missing, register_factory_if_missing, resolve_of,
  try_resolve_of, is_registered_of, begin_of, end_of, clear_of, call, register_instance,
  register_factory, is_registered, resolve_internal, resolve, try_resolve, begin_scope, end_scope,
  clear, apply, run, Resolved, resolved, not_registered, outside_of_scope, resolve_found,
  by_lifetime, in_scope, resolve_scoped, called, or_throw, or_null, if_missing, pop_scope,
}
use plugify.Services.Abstract.{
  each_call, Spec, get, meant, perform, perform_all, instance_spec, factory_spec, unless,
  scoped_spec, in_scope_spec, or_exception, or_null_pointer, drop_scope,
}
use plugify.Services.Abstract.View.{
  meaning_by, meaning_of, scope_of, view, meaning-assign, scope-assign, with_meaning, with_scope,
  is_some-meaning,
}

module _ (create : ℕ → ℕ → Pointer) where
  -- The same answer, and states that stand for the same.
  abbrev Agrees : Answer × Locator → Answer × Spec → Type 0
  Agrees r q = (r.0 ≡ q.0) × (view r.1 ≡ q.1)

  register_instance-Agrees :
      (t : ℕ) (x : Pointer) (l : Locator)
      → Agrees (register_instance t x l) (instance_spec create t x (view l))
  unfolding register_instance view
  register_instance-Agrees t none l = (refl, refl)
  register_instance-Agrees t (some x) l =
      (refl, with_meaning l l.calls (meaning-assign t _ l.services))

  register_factory-Agrees :
      (t : ℕ) (f : Option Factory) (lifetime : ServiceLifetime) (l : Locator)
      → Agrees (register_factory create t f lifetime l) (factory_spec create t f lifetime (view l))
  unfolding register_factory view
  register_factory-Agrees t none lifetime l = (refl, refl)
  register_factory-Agrees t (some (custom f)) singleton l =
      (refl, with_meaning l (suc l.calls) (meaning-assign t _ l.services))
  register_factory-Agrees t (some (returning x)) singleton l =
      (refl, with_meaning l l.calls (meaning-assign t _ l.services))
  register_factory-Agrees t (some f) transient l =
      (refl, with_meaning l l.calls (meaning-assign t _ l.services))
  register_factory-Agrees t (some f) scoped l =
      (refl, with_meaning l l.calls (meaning-assign t _ l.services))

  abbrev instance_of : Resolved → Option Pointer
  instance_of (resolved x) = some x
  instance_of (not_registered t) = none
  instance_of (outside_of_scope t) = none

  abbrev Gets : Resolved × Locator → Option Pointer × Spec → Type 0
  Gets r q = (instance_of r.0 ≡ q.0) × (view r.1 ≡ q.1)

  resolve_scoped-Gets :
      (t : ℕ) (f : Factory) (l : Locator) (scope : Table Pointer) (outer : List (Table Pointer))
      (cached : Option Pointer)
      → Gets
          (resolve_scoped create t f l scope outer cached)
          (in_scope_spec create t f (view l) (scope_of scope) (map scope_of outer) cached)
  unfolding view
  resolve_scoped-Gets t f l scope outer (some x) = (refl, refl)
  resolve_scoped-Gets t (returning x) l scope outer none =
      (refl, with_scope l outer l.calls (scope-assign t x scope))
  resolve_scoped-Gets t (custom f) l scope outer none =
      (refl, with_scope l outer (suc l.calls) (scope-assign t _ scope))

  in_scope-Gets :
      (t : ℕ) (f : Factory) (l : Locator) (scopes : List (Table Pointer))
      → Gets (in_scope create t f l scopes) (scoped_spec create t f (view l) (map scope_of scopes))
  in_scope-Gets t f l [] = (refl, refl)
  in_scope-Gets t f l (scope ∷ outer) = resolve_scoped-Gets t f l scope outer (find t scope)

  called-Gets :
      (f : Factory) (t : ℕ) (l : Locator)
      → Gets (called (call create f l)) (meant create (some (each_call f)) t (view l))
  unfolding view
  called-Gets (returning x) t l = (refl, refl)
  called-Gets (custom f) t l = (refl, refl)

  by_lifetime-Gets :
      (lifetime : ServiceLifetime) (t : ℕ) (d : ServiceDescriptor) (l : Locator)
      → Gets
          (by_lifetime create lifetime t d l)
          (meant create (some (meaning_by lifetime d)) t (view l))
  unfolding view
  by_lifetime-Gets singleton t d l = (refl, refl)
  by_lifetime-Gets transient t d l = called-Gets d.factory t l
  by_lifetime-Gets scoped t d l = in_scope-Gets t d.factory l l.scope_stack

  resolve_found-Gets :
      (d : Option ServiceDescriptor) (t : ℕ) (l : Locator)
      → Gets (resolve_found create d t l) (meant create (meaning_of d) t (view l))
  resolve_found-Gets none t l = (refl, refl)
  resolve_found-Gets (some d) t l = by_lifetime-Gets d.lifetime t d l

  resolve_internal-Gets :
      (t : ℕ) (l : Locator) → Gets (resolve_internal create t l) (get create t (view l))
  unfolding resolve_internal get view
  resolve_internal-Gets t l = resolve_found-Gets (find t l.services) t l

  or_throw_as : (r : Resolved) → or_throw r ≡ or_exception (instance_of r)
  or_throw_as (resolved x) = refl
  or_throw_as (not_registered t) = refl
  or_throw_as (outside_of_scope t) = refl

  or_null_as : (r : Resolved) → or_null r ≡ or_null_pointer (instance_of r)
  or_null_as (resolved x) = refl
  or_null_as (not_registered t) = refl
  or_null_as (outside_of_scope t) = refl

  if_missing-Agrees :
      (b : Bool) (register : Locator → Answer × Locator) (q : Answer × Spec) (l : Locator)
      → Agrees (register l) q
      → Agrees (if_missing b register l) (unless create b q (view l))
  if_missing-Agrees true register q l h = (refl, refl)
  if_missing-Agrees false register q l h = h

  pop_scope-Agrees :
      (scopes : List (Table Pointer)) (l : Locator)
      → Agrees (pop_scope scopes l) (drop_scope create (map scope_of scopes) (view l))
  unfolding view
  pop_scope-Agrees [] l = (refl, refl)
  pop_scope-Agrees (scope ∷ outer) l = (refl, refl)

  apply-Agrees :
      (op : Operation) (l : Locator) → Agrees (apply create op l) (perform create op (view l))
  unfolding apply perform resolve try_resolve begin_scope end_scope clear view find
  apply-Agrees (register_instance_of t x) l = register_instance-Agrees t x l
  apply-Agrees (register_factory_of t f lifetime) l = register_factory-Agrees t f lifetime l
  apply-Agrees (register_instance_if_missing t x) l = rw (is_some-meaning (find t l.services)) (
      if_missing-Agrees (is_registered t l) (register_instance t x) _ l
        (register_instance-Agrees t x l))
  apply-Agrees (register_factory_if_missing t f lifetime) l =
      rw (is_some-meaning (find t l.services)) (
        if_missing-Agrees (is_registered t l) (register_factory create t f lifetime) _ l
          (register_factory-Agrees t f lifetime l))
  apply-Agrees (resolve_of t) l =
      (let g = resolve_internal-Gets t l in
        (or_throw_as (resolve_internal create t l).0 ∙ ap or_exception g.0, g.1))
  apply-Agrees (try_resolve_of t) l =
      (let g = resolve_internal-Gets t l in
        (or_null_as (resolve_internal create t l).0 ∙ ap or_null_pointer g.0, g.1))
  apply-Agrees (is_registered_of t) l =
      (ap registered (sym (is_some-meaning (find t l.services))), refl)
  apply-Agrees begin_of l = (refl, refl)
  apply-Agrees end_of l = pop_scope-Agrees l.scope_stack l
  apply-Agrees clear_of l = (refl, refl)

  -- Refinement: a sequence of calls of a locator gets the answers that the abstract locator gives for
  -- them, where a type is a function's argument and not a key in a table, and leaves a locator that
  -- stands for the abstract one that they leave.
  pub run-view :
      (ops : List Operation) (l : Locator)
      → ((run create ops l).0 ≡ (perform_all create ops (view l)).0)
        × (view (run create ops l).1 ≡ (perform_all create ops (view l)).1)
  unfolding run perform_all
  run-view [] l = (refl, refl)
  run-view (op ∷ ops) l =
      (let now = apply-Agrees op l in
        let later =
          subst
            (λ s.
              ((run create ops (apply create op l).1).0 ≡ (perform_all create ops s).0)
              × (view (run create ops (apply create op l).1).1 ≡ (perform_all create ops s).1))
            now.1 (run-view ops (apply create op l).1) in
        (rw now.0 (ap (λ xs. (perform create op (view l)).0 ∷ xs) later.0), later.1))
