-- ===== src/Services/Shared.antt =====
-- The locators of a program, seen from one of its threads: `Impl::services` is a member of each
-- locator, and `Impl::scopeStack` is static and thread_local, so the thread has one stack for all.
use plugify.Prelude.{ℕ, ◌≡◌, refl, List, [], ◌∷◌, ◌++◌, if◌then◌else◌, ◌==◌}
use plugify.Prelude.Table.{Table}
use plugify.Services.{
  Pointer, ServiceDescriptor, Locator, Resolved, resolved, not_registered, outside_of_scope, Answer,
  thrown, pointer, Operation, resolve_of, begin_of, end_of, clear_of, or_throw, resolve,
  begin_scope, end_scope, clear, apply,
}
use plugify.Services.Scopes.{
  Grows, Grows-refl, Grows-trans, Grows-top, same-Grows, apply-Grows, IsPlain,
}
use plugify.Services.Scopes.Sequences.{end_scope-stack}
use plugify.Services.Scopes.Guard.{IsScoped, Held, Held-Grows, resolved-Held, resolve_again}

-- The services of each locator, which are numbered, and the stack of scopes that they share.
pub record Thread : Type 0 where
  pub services : ℕ → Table ServiceDescriptor
  pub scope_stack : List (Table Pointer)
  pub calls : ℕ

-- What a call of the locator i reads.
abbrev pub locator : ℕ → Thread → Locator
locator i p = record { services = p.services i; scope_stack = p.scope_stack; calls = p.calls }

-- What a call of the locator i leaves.
abbrev pub store : ℕ → Locator → Thread → Thread
store i l p = record {
  services = λ j. if i == j then l.services else p.services j;
  scope_stack = l.scope_stack;
  calls = l.calls;
}

-- Calls of several locators, each begun scope ended, by any of them, and none of them cleared.
pub data BalancedCalls : List (ℕ × Operation) → Type 0 where
  no_call : BalancedCalls []
  one_call :
      {i : ℕ} {op : Operation} {ops : List (ℕ × Operation)}
      → IsPlain op
      → BalancedCalls ops
      → BalancedCalls ((i, op) ∷ ops)
  enclosed_calls :
      {i : ℕ} {inner ops : List (ℕ × Operation)} (j : ℕ)
      → BalancedCalls inner
      → BalancedCalls ops
      → BalancedCalls ((i, begin_of) ∷ inner ++ (j, end_of) ∷ ops)

module _ (create : ℕ → ℕ → Pointer) where
  -- A call of the locator i.
  unfoldable pub apply_on : ℕ → Operation → Thread → Answer × Thread
  unfolding apply
  apply_on i op p = let r = apply create op (locator i p) in (r.0, store i r.1 p)

  unfoldable pub run_on : List (ℕ × Operation) → Thread → Thread
  unfolding apply_on
  run_on [] p = p
  run_on ((i, op) ∷ ops) p = run_on ops (apply_on i op p).1

  run_on-append :
      (a b : List (ℕ × Operation)) (p : Thread) → run_on (a ++ b) p ≡ run_on b (run_on a p)
  unfolding run_on
  run_on-append [] b p = refl
  run_on-append ((i, op) ∷ a) b p = run_on-append a b (apply_on i op p).1

  run_on-Grows :
      {ops : List (ℕ × Operation)}
      → BalancedCalls ops
      → (p : Thread) → Grows p.scope_stack (run_on ops p).scope_stack
  unfolding run_on apply_on apply begin_scope
  run_on-Grows no_call p = Grows-refl p.scope_stack
  run_on-Grows (one_call {i = i} {op = op} plain rest) p =
      Grows-trans _ _ _ (apply-Grows create op (locator i p) plain)
        (run_on-Grows rest (apply_on i op p).1)
  run_on-Grows (enclosed_calls {i = i} {inner = inner} {ops = ops} j b rest) p =
      (let begun = (apply_on i begin_of p).1 in
        let inside = run_on inner begun in
        let ended = (apply_on j end_of inside).1 in
        let top = Grows-top [] p.scope_stack inside.scope_stack (run_on-Grows b begun) in
        let back = (end_scope-stack create (locator j inside) top.0 p.scope_stack top.1).1 in
        rw (run_on-append inner ((j, end_of) ∷ ops) begun) (
          Grows-trans _ _ _ (same-Grows create p.scope_stack ended.scope_stack back)
            (run_on-Grows rest ended)))

  or_throw_resolved : (r : Resolved) (x : Pointer) → or_throw r ≡ pointer x → r ≡ resolved x
  or_throw_resolved (resolved y) x e = cc e
  or_throw_resolved (not_registered t) x e = absurd (cc e)
  or_throw_resolved (outside_of_scope t) x e = absurd (cc e)

  resolve_on-Held :
      (t i : ℕ) (x : Pointer) (p : Thread)
      → IsScoped t (locator i p)
      → (apply_on i (resolve_of t) p).0 ≡ pointer x
      → Held t x (apply_on i (resolve_of t) p).1.scope_stack
  unfolding apply_on apply resolve
  resolve_on-Held t i x p scoped h =
      resolved-Held create t x (locator i p) scoped (or_throw_resolved _ x h)

  resolve_on_again :
      (t j : ℕ) (x : Pointer) (p : Thread)
      → IsScoped t (locator j p)
      → Held t x p.scope_stack
      → ((apply_on j (resolve_of t) p).0 ≡ pointer x)
        × ((apply_on j (resolve_of t) p).1.calls ≡ p.calls)
  unfolding apply_on apply resolve
  resolve_on_again t j x p scoped h =
      rw (resolve_again create t x (locator j p) scoped h) (refl, refl)

  end_after_clear :
      (i j : ℕ) (p : Thread) → (apply_on j end_of (apply_on i clear_of p).1).0 ≡ thrown
  unfolding apply_on apply clear end_scope
  end_after_clear i j p = refl

  -- The locators of a thread share its scopes. When the locator i resolves a type that is registered
  -- on it as scoped, and after calls of any locators, in which each scope that they begin is ended and
  -- none is cleared, the locator j has the type registered as scoped, be it with another factory, then
  -- j resolves it to the instance that i gave, and no factory is called. And after `Clear` of any
  -- locator then, `EndScope` of each locator throws.
  pub scoped_across :
      (t i j k : ℕ) (x : Pointer) (ops : List (ℕ × Operation)) (p : Thread)
      → IsScoped t (locator i p)
      → (apply_on i (resolve_of t) p).0 ≡ pointer x
      → BalancedCalls ops
      → IsScoped t (locator j (run_on ops (apply_on i (resolve_of t) p).1))
      → (let later = run_on ops (apply_on i (resolve_of t) p).1 in
          ((apply_on j (resolve_of t) later).0 ≡ pointer x)
          × ((apply_on j (resolve_of t) later).1.calls ≡ later.calls)
          × ((apply_on j end_of (apply_on k clear_of later).1).0 ≡ thrown))
  scoped_across t i j k x ops p before h balanced after =
      (let again = resolve_on_again t j x (run_on ops (apply_on i (resolve_of t) p).1) after (
          Held-Grows create t x _ _ (run_on-Grows balanced (apply_on i (resolve_of t) p).1)
            (resolve_on-Held t i x p before h)) in
        (again.0, again.1, end_after_clear k j _))
