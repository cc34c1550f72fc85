-- ===== src/Services.antt =====
-- src/core/service_locator.cpp: the service locator, seen from one thread. A type is the number of its
-- type_index and an instance its address; none is the null pointer. `create f n` is what the factory f
-- returns when n factories were called before; a factory does not use the locator.
pub mod Abstract
pub mod Scopes
pub mod Shared
mod Tests
use plugify.Prelude.{ℕ, suc, Bool, true, false, Option, none, some, List, [], ◌∷◌, length}
use plugify.Prelude.Table.{Table, find, assign, is_some}

abbrev pub Pointer : Type 0
Pointer = Option ℕ

pub data ServiceLifetime : Type 0 where
  transient scoped singleton : ServiceLifetime

-- A `std::function`: the lambda of `RegisterInstance`, or one of the caller's.
pub data Factory : Type 0 where
  returning : Pointer → Factory
  custom : ℕ → Factory

pub record ServiceDescriptor : Type 0 where
  pub factory : Factory
  pub lifetime : ServiceLifetime
  pub singleton : Pointer

-- The services of a locator, with the stack of scopes of the thread, its top first.
pub record Locator : Type 0 where
  pub services : Table ServiceDescriptor
  pub scope_stack : List (Table Pointer)
  pub calls : ℕ

-- A new locator, on a thread where none was used.
abbrev pub no_services : Locator
no_services = record { services = []; scope_stack = []; calls = 0 }

pub data Resolved : Type 0 where
  resolved : Pointer → Resolved
  not_registered outside_of_scope : ℕ → Resolved

-- What a call of the locator gives; `thrown` is an exception.
pub data Answer : Type 0 where
  finished thrown : Answer
  pointer : Pointer → Answer
  registered : Bool → Answer

unfoldable pub register_instance : ℕ → Pointer → Locator → Answer × Locator
register_instance t none l = (thrown, l)
register_instance t (some x) l = (
  finished,
  record l {
    services =
        assign t (record { factory = returning (some x); lifetime = singleton; singleton = some x })
          l.services;
  },
)

abbrev pub called : Pointer × Locator → Resolved × Locator
called (x, l) = (resolved x, l)

-- The new instance is put in the current scope.
abbrev pub keep_scoped :
    ℕ → Table Pointer → List (Table Pointer) → Pointer × Locator → Resolved × Locator
keep_scoped t scope outer (x, l) = (resolved x, record l { scope_stack = assign t x scope ∷ outer })

abbrev pub or_throw : Resolved → Answer
or_throw (resolved x) = pointer x
or_throw (not_registered t) = thrown
or_throw (outside_of_scope t) = thrown

abbrev pub or_null : Resolved → Answer
or_null (resolved x) = pointer x
or_null (not_registered t) = pointer none
or_null (outside_of_scope t) = pointer none

module _ (create : ℕ → ℕ → Pointer) where
  abbrev pub call : Factory → Locator → Pointer × Locator
  call (returning x) l = (x, l)
  call (custom f) l = (create f l.calls, record l { calls = suc l.calls })

  abbrev pub first_instance : ServiceLifetime → Factory → Locator → Pointer × Locator
  first_instance singleton f l = call f l
  first_instance transient f l = (none, l)
  first_instance scoped f l = (none, l)

  -- An empty `std::function` is none.
  unfoldable pub register_factory :
      ℕ → Option Factory → ServiceLifetime → Locator → Answer × Locator
  register_factory t none lifetime l = (thrown, l)
  register_factory t (some f) lifetime l =
      let made = first_instance lifetime f l in
      (
        finished,
        record made.1 {
          services =
              assign t (record { factory = f; lifetime = lifetime; singleton = made.0 })
                made.1.services;
        },
      )

  abbrev pub resolve_scoped :
      ℕ
      → Factory
      → Locator
      → Table Pointer
      → List (Table Pointer)
      → Option Pointer
      → Resolved × Locator
  resolve_scoped t f l scope outer none = keep_scoped t scope outer (call f l)
  resolve_scoped t f l scope outer (some x) = (resolved x, l)

  abbrev pub in_scope : ℕ → Factory → Locator → List (Table Pointer) → Resolved × Locator
  in_scope t f l [] = (outside_of_scope t, l)
  in_scope t f l (scope ∷ outer) = resolve_scoped t f l scope outer (find t scope)

  abbrev pub by_lifetime : ServiceLifetime → ℕ → ServiceDescriptor → Locator → Resolved × Locator
  by_lifetime singleton t d l = (resolved d.singleton, l)
  by_lifetime transient t d l = called (call d.factory l)
  by_lifetime scoped t d l = in_scope t d.factory l l.scope_stack

  abbrev pub resolve_found : Option ServiceDescriptor → ℕ → Locator → Resolved × Locator
  resolve_found none t l = (not_registered t, l)
  resolve_found (some d) t l = by_lifetime d.lifetime t d l

  -- `ResolveInternal`.
  unfoldable pub resolve_internal : ℕ → Locator → Resolved × Locator
  resolve_internal t l = resolve_found (find t l.services) t l

  unfoldable pub resolve : ℕ → Locator → Answer × Locator
  unfolding resolve_internal
  resolve t l = let r = resolve_internal t l in (or_throw r.0, r.1)

  unfoldable pub try_resolve : ℕ → Locator → Answer × Locator
  unfolding resolve_internal
  try_resolve t l = let r = resolve_internal t l in (or_null r.0, r.1)

abbrev pub is_registered : ℕ → Locator → Bool
is_registered t l = is_some (find t l.services)

abbrev pub if_missing : Bool → (Locator → Answer × Locator) → Locator → Answer × Locator
if_missing true register l = (finished, l)
if_missing false register l = register l

unfoldable pub begin_scope : Locator → Answer × Locator
begin_scope l = (finished, record l { scope_stack = [] ∷ l.scope_stack })

abbrev pub pop_scope : List (Table Pointer) → Locator → Answer × Locator
pop_scope [] l = (thrown, l)
pop_scope (scope ∷ outer) l = (finished, record l { scope_stack = outer })

unfoldable pub end_scope : Locator → Answer × Locator
end_scope l = pop_scope l.scope_stack l

unfoldable pub clear : Locator → Answer × Locator
clear l = (finished, record l { services = []; scope_stack = [] })

abbrev pub count : Locator → ℕ
count l = length l.services

-- A call of the locator, and a sequence of calls with their answers.
pub data Operation : Type 0 where
  register_instance_of : ℕ → Pointer → Operation
  register_factory_of : ℕ → Option Factory → ServiceLifetime → Operation
  register_instance_if_missing : ℕ → Pointer → Operation
  register_factory_if_missing : ℕ → Option Factory → ServiceLifetime → Operation
  resolve_of try_resolve_of is_registered_of : ℕ → Operation
  begin_of end_of clear_of : Operation

module _ (create : ℕ → ℕ → Pointer) where
  unfoldable pub apply : Operation → Locator → Answer × Locator
  unfolding register_instance register_factory resolve try_resolve begin_scope end_scope clear
  apply (register_instance_of t x) l = register_instance t x l
  apply (register_factory_of t f lifetime) l = register_factory create t f lifetime l
  apply (register_instance_if_missing t x) l =
      if_missing (is_registered t l) (register_instance t x) l
  apply (register_factory_if_missing t f lifetime) l =
      if_missing (is_registered t l) (register_factory create t f lifetime) l
  apply (resolve_of t) l = resolve create t l
  apply (try_resolve_of t) l = try_resolve create t l
  apply (is_registered_of t) l = (registered (is_registered t l), l)
  apply begin_of l = begin_scope l
  apply end_of l = end_scope l
  apply clear_of l = clear l

  unfoldable pub run : List Operation → Locator → List Answer × Locator
  unfolding apply
  run [] l = ([], l)
  run (op ∷ ops) l = let r = apply op l in let rest = run ops r.1 in (r.0 ∷ rest.0, rest.1)
