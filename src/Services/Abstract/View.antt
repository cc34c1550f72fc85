-- ===== src/Services/Abstract/View.antt =====
-- What a locator stands for, and what an assignment to its tables changes of that.
use mathlib.Core.Path.{fun_ext}
use plugify.Prelude.{
  ℕ, ◌≡◌, refl, ap, Bool, true, false, Option, none, some, List, ◌∷◌, ◌==◌, if◌then◌else◌, map,
}
use plugify.Prelude.Table.{Table, find, assign, is_some, find-assign}
use plugify.Services.{
  Pointer, ServiceLifetime, transient, scoped, singleton, ServiceDescriptor, Locator,
}
use plugify.Services.Abstract.{Meaning, always, each_call, each_scope, Spec, set_at}

abbrev pub meaning_by : ServiceLifetime → ServiceDescriptor → Meaning
meaning_by singleton d = always d.singleton
meaning_by transient d = each_call d.factory
meaning_by scoped d = each_scope d.factory

abbrev pub meaning_of : Option ServiceDescriptor → Option Meaning
meaning_of none = none
meaning_of (some d) = some (meaning_by d.lifetime d)

abbrev pub scope_of : Table Pointer → ℕ → Option Pointer
scope_of scope t = find t scope

-- What a locator stands for.
unfoldable pub view : Locator → Spec
view l = record {
  meaning = λ t. meaning_of (find t l.services);
  scopes = map scope_of l.scope_stack;
  calls = l.calls;
}

pub meaning-assign :
    (t : ℕ) (d : ServiceDescriptor) (services : Table ServiceDescriptor)
    → (λ q. meaning_of (find q (assign t d services)))
      ≡ set_at t (meaning_by d.lifetime d) (λ q. meaning_of (find q services))
meaning-assign t d services = fun_ext λ q. rw (find-assign t q d services) (by_test (t == q) q)
  where
    by_test :
        (b : Bool) (q : ℕ)
        → meaning_of (if b then some d else find q services)
          ≡ (if b then some (meaning_by d.lifetime d) else meaning_of (find q services))
    by_test true q = refl
    by_test false q = refl

pub scope-assign :
    (t : ℕ) (x : Pointer) (scope : Table Pointer)
    → scope_of (assign t x scope) ≡ set_at t x (scope_of scope)
scope-assign t x scope = fun_ext λ q. find-assign t q x scope

-- The fields of a view one by one.
abbrev pub spec : (ℕ → Option Meaning) → List (ℕ → Option Pointer) → ℕ → Spec
spec meaning scopes calls = record { meaning = meaning; scopes = scopes; calls = calls }

pub with_meaning :
    (l : Locator) (calls : ℕ) {m n : ℕ → Option Meaning}
    → m ≡ n
    → spec m (map scope_of l.scope_stack) calls ≡ spec n (map scope_of l.scope_stack) calls
with_meaning l calls e = ap (λ x. spec x (map scope_of l.scope_stack) calls) e

pub with_scope :
    (l : Locator) (outer : List (Table Pointer)) (calls : ℕ) {f g : ℕ → Option Pointer}
    → f ≡ g
    → spec (λ t. meaning_of (find t l.services)) (f ∷ map scope_of outer) calls
      ≡ spec (λ t. meaning_of (find t l.services)) (g ∷ map scope_of outer) calls
with_scope l outer calls e =
    ap (λ x. spec (λ t. meaning_of (find t l.services)) (x ∷ map scope_of outer) calls) e

pub is_some-meaning : (d : Option ServiceDescriptor) → is_some (meaning_of d) ≡ is_some d
is_some-meaning none = refl
is_some-meaning (some d) = refl
