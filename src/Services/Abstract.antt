-- ===== src/Services/Abstract.antt =====
-- The abstract locator: what each type stands for and what each scope holds, as functions of the type.
pub mod View
pub mod Refinement
use plugify.Prelude.{
  ℕ, suc, Bool, true, false, Option, none, some, List, [], ◌∷◌, ◌==◌, if◌then◌else◌, map,
}
use plugify.Prelude.Table.{Table, find, is_some}
use plugify.Services.{
  Pointer, ServiceLifetime, transient, scoped, singleton, Factory, returning, custom,
  ServiceDescriptor, Locator, Answer, finished, thrown, pointer, registered, Operation,
  register_instance_of, register_factory_of, register_instance_if_missing,
  register_factory_if_missing, resolve_of, try_resolve_of, is_registered_of, begin_of, end_of,
  clear_of,
}

-- What a type stands for: one instance, a new one for each call, or one for each scope.
pub data Meaning : Type 0 where
  always : Pointer → Meaning
  each_call each_scope : Factory → Meaning

pub record Spec : Type 0 where
  pub meaning : ℕ → Option Meaning
  pub scopes : List (ℕ → Option Pointer)
  pub calls : ℕ

abbrev pub set_at {ℓ} : {A : Type ℓ} → ℕ → A → (ℕ → Option A) → ℕ → Option A
set_at k a f q = if k == q then some a else f q

abbrev pub means : ℕ → Meaning → Spec → Spec
means t m s = record s { meaning = set_at t m s.meaning }

abbrev pub or_exception : Option Pointer → Answer
or_exception none = thrown
or_exception (some x) = pointer x

abbrev pub or_null_pointer : Option Pointer → Answer
or_null_pointer none = pointer none
or_null_pointer (some x) = pointer x

module _ (create : ℕ → ℕ → Pointer) where
  abbrev pub made : Factory → Spec → Pointer × Spec
  made (returning x) s = (x, s)
  made (custom f) s = (create f s.calls, record s { calls = suc s.calls })

  abbrev pub register_spec : ℕ → Factory → ServiceLifetime → Spec → Spec
  register_spec t f singleton s = let m = made f s in means t (always m.0) m.1
  register_spec t f transient s = means t (each_call f) s
  register_spec t f scoped s = means t (each_scope f) s

  abbrev pub remember :
      ℕ → (ℕ → Option Pointer) → List (ℕ → Option Pointer) → Pointer × Spec → Option Pointer × Spec
  remember t scope outer (x, s) = (some x, record s { scopes = set_at t x scope ∷ outer })

  abbrev pub in_scope_spec :
      ℕ
      → Factory
      → Spec
      → (ℕ → Option Pointer)
      → List (ℕ → Option Pointer)
      → Option Pointer
      → Option Pointer × Spec
  in_scope_spec t f s scope outer (some x) = (some x, s)
  in_scope_spec t f s scope outer none = remember t scope outer (made f s)

  abbrev pub scoped_spec : ℕ → Factory → Spec → List (ℕ → Option Pointer) → Option Pointer × Spec
  scoped_spec t f s [] = (none, s)
  scoped_spec t f s (scope ∷ outer) = in_scope_spec t f s scope outer (scope t)

  abbrev pub meant : Option Meaning → ℕ → Spec → Option Pointer × Spec
  meant none t s = (none, s)
  meant (some (always x)) t s = (some x, s)
  meant (some (each_call f)) t s = let m = made f s in (some m.0, m.1)
  meant (some (each_scope f)) t s = scoped_spec t f s s.scopes

  -- The instance that a type stands for, if it has one here.
  unfoldable pub get : ℕ → Spec → Option Pointer × Spec
  get t s = meant (s.meaning t) t s

  abbrev pub drop_scope : List (ℕ → Option Pointer) → Spec → Answer × Spec
  drop_scope [] s = (thrown, s)
  drop_scope (scope ∷ outer) s = (finished, record s { scopes = outer })

  abbrev pub unless : Bool → Answer × Spec → Spec → Answer × Spec
  unless true r s = (finished, s)
  unless false r s = r

  abbrev pub instance_spec : ℕ → Pointer → Spec → Answer × Spec
  instance_spec t none s = (thrown, s)
  instance_spec t (some x) s = (finished, means t (always (some x)) s)

  abbrev pub factory_spec : ℕ → Option Factory → ServiceLifetime → Spec → Answer × Spec
  factory_spec t none lifetime s = (thrown, s)
  factory_spec t (some f) lifetime s = (finished, register_spec t f lifetime s)

  unfoldable pub perform : Operation → Spec → Answer × Spec
  unfolding get
  perform (register_instance_of t x) s = instance_spec t x s
  perform (register_factory_of t f lifetime) s = factory_spec t f lifetime s
  perform (register_instance_if_missing t x) s =
      unless (is_some (s.meaning t)) (instance_spec t x s) s
  perform (register_factory_if_missing t f lifetime) s =
      unless (is_some (s.meaning t)) (factory_spec t f lifetime s) s
  perform (resolve_of t) s = let r = get t s in (or_exception r.0, r.1)
  perform (try_resolve_of t) s = let r = get t s in (or_null_pointer r.0, r.1)
  perform (is_registered_of t) s = (registered (is_some (s.meaning t)), s)
  perform begin_of s = (finished, record s { scopes = (λ t. none) ∷ s.scopes })
  perform end_of s = drop_scope s.scopes s
  perform clear_of s = (finished, record s { meaning = λ t. none; scopes = [] })

  unfoldable pub perform_all : List Operation → Spec → List Answer × Spec
  unfolding perform
  perform_all [] s = ([], s)
  perform_all (op ∷ ops) s =
      let r = perform op s in let rest = perform_all ops r.1 in (r.0 ∷ rest.0, rest.1)
