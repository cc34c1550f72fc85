-- ===== src/Services/Tests.antt =====
-- Runs of the service locator.
use plugify.Prelude.{
  ℕ, ◌+◌, ◌≡◌, refl, true, false, none, some, List, [], ◌∷◌, ◌++◌, ◌==◌, if◌then◌else◌,
}
use plugify.Prelude.Table.{find, assign}
use plugify.Services.{
  Pointer, transient, scoped, singleton, custom, Locator, no_services, finished, thrown, pointer,
  registered, Operation, register_instance_of, register_factory_of, register_instance_if_missing,
  resolve_of, try_resolve_of, is_registered_of, begin_of, end_of, clear_of, resolved,
  register_factory, resolve_internal, begin_scope, end_scope, run, apply, resolve, try_resolve,
}
use plugify.Services.Abstract.{perform_all}
use plugify.Services.Abstract.View.{view}
use plugify.Services.Abstract.Refinement.{run-view}
use plugify.Services.Scopes.{Balanced, nothing, one, enclosed}
use plugify.Services.Scopes.Guard.{IsScoped, guard_restores, scoped_once}
use plugify.Services.Shared.{
  Thread, locator, BalancedCalls, no_call, one_call, enclosed_calls, apply_on, run_on,
  scoped_across,
}

-- Each factory returns a new address at each call.
abbrev allocate : ℕ → ℕ → Pointer
allocate f n = some (100 + n)

-- Type 1 is scoped, 2 a singleton made by its factory, 3 transient.
abbrev setting_up : List Operation
setting_up =
    register_factory_of 1 (some (custom 1)) scoped
    ∷ register_factory_of 2 (some (custom 2)) singleton
    ∷ register_factory_of 3 (some (custom 3)) transient
    ∷ []

abbrev resolving : List Operation
resolving =
    resolve_of 2
    ∷ resolve_of 2
    ∷ resolve_of 3
    ∷ resolve_of 3
    ∷ resolve_of 1
    ∷ begin_of
    ∷ resolve_of 1
    ∷ begin_of
    ∷ resolve_of 1
    ∷ end_of
    ∷ resolve_of 1
    ∷ end_of
    ∷ end_of
    ∷ register_instance_if_missing 2 (some 7)
    ∷ try_resolve_of 2
    ∷ try_resolve_of 4
    ∷ is_registered_of 3
    ∷ register_instance_of 5 none
    ∷ clear_of
    ∷ is_registered_of 3
    ∷ []

answers :
    (run allocate (setting_up ++ resolving) no_services).0
    ≡ finished
      ∷ finished
      ∷ finished
      ∷ pointer (some 100)
      ∷ pointer (some 100)
      ∷ pointer (some 101)
      ∷ pointer (some 102)
      ∷ thrown
      ∷ finished
      ∷ pointer (some 103)
      ∷ finished
      ∷ pointer (some 104)
      ∷ finished
      ∷ pointer (some 103)
      ∷ finished
      ∷ thrown
      ∷ finished
      ∷ pointer (some 100)
      ∷ pointer none
      ∷ registered true
      ∷ thrown
      ∷ finished
      ∷ registered false
      ∷ []
unfolding run find assign
answers = refl

run-view_example :
    ((run allocate (setting_up ++ resolving) no_services).0
      ≡ (perform_all allocate (setting_up ++ resolving) (view no_services)).0)
    × (view (run allocate (setting_up ++ resolving) no_services).1
        ≡ (perform_all allocate (setting_up ++ resolving) (view no_services)).1)
run-view_example = run-view allocate (setting_up ++ resolving) no_services

abbrev ready : Locator
unfolding run find assign
ready = (run allocate (begin_of ∷ setting_up) no_services).1

abbrev inside : List Operation
inside = resolve_of 3 ∷ begin_of ∷ resolve_of 1 ∷ end_of ∷ []

inside-Balanced : Balanced inside
inside-Balanced = one tt (enclosed {inner = resolve_of 1 ∷ []} (one tt nothing) nothing)

guard_restores_example :
    ((end_scope (run allocate inside (begin_scope ready).1).1).0 ≡ finished)
    × ((end_scope (run allocate inside (begin_scope ready).1).1).1.scope_stack ≡ ready.scope_stack)
guard_restores_example = guard_restores allocate inside ready inside-Balanced

first_resolved : (resolve_internal allocate 1 ready).0 ≡ resolved (some 101)
unfolding run find assign resolve_internal
first_resolved = refl

ready-IsScoped : IsScoped 1 ready
unfolding run find assign
ready-IsScoped = (_, refl, refl)

later-IsScoped : IsScoped 1 (run allocate inside (resolve_internal allocate 1 ready).1).1
unfolding run find assign resolve_internal
later-IsScoped = (_, refl, refl)

scoped_once_example :
    resolve_internal allocate 1 (run allocate inside (resolve_internal allocate 1 ready).1).1
    ≡ (resolved (some 101), (run allocate inside (resolve_internal allocate 1 ready).1).1)
scoped_once_example =
    scoped_once allocate 1 (some 101) inside ready ready-IsScoped first_resolved inside-Balanced
      later-IsScoped

-- Another locator, with another factory for the type.
abbrev other : Locator
unfolding register_factory find assign
other = (register_factory allocate 1 (some (custom 9)) scoped no_services).1

-- The locator 0 is `ready`, and each other one is `other`.
abbrev both : Thread
both = record {
  services = λ i. if i == 0 then ready.services else other.services;
  scope_stack = ready.scope_stack;
  calls = ready.calls;
}

-- A nested scope that the locator 1 begins, and a call of the locator 0 in it.
abbrev across : List (ℕ × Operation)
across = (1, begin_of) ∷ (0, resolve_of 1) ∷ (1, end_of) ∷ (1, try_resolve_of 2) ∷ []

across-BalancedCalls : BalancedCalls across
across-BalancedCalls =
    enclosed_calls 1 (one_call {i = 0} {op = resolve_of 1} tt no_call)
      (one_call {i = 1} {op = try_resolve_of 2} tt no_call)

first_of_both : (apply_on allocate 0 (resolve_of 1) both).0 ≡ pointer (some 101)
unfolding run find assign apply_on apply resolve resolve_internal
first_of_both = refl

other-IsScoped-later :
    IsScoped 1 (locator 1 (run_on allocate across (apply_on allocate 0 (resolve_of 1) both).1))
unfolding run find assign apply_on run_on apply resolve try_resolve resolve_internal begin_scope
    end_scope register_factory
other-IsScoped-later = (_, refl, refl)

scoped_across_example :
    let later = run_on allocate across (apply_on allocate 0 (resolve_of 1) both).1 in
    ((apply_on allocate 1 (resolve_of 1) later).0 ≡ pointer (some 101))
    × ((apply_on allocate 1 (resolve_of 1) later).1.calls ≡ later.calls)
    × ((apply_on allocate 1 end_of (apply_on allocate 0 clear_of later).1).0 ≡ thrown)
scoped_across_example =
    scoped_across allocate 1 0 1 0 (some 101) across both ready-IsScoped first_of_both
      across-BalancedCalls other-IsScoped-later
