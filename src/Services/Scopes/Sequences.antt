-- ===== src/Services/Scopes/Sequences.antt =====
-- Balanced sequences of calls: the scopes that were there before are there again.
use plugify.Prelude.{ℕ, ◌≡◌, refl, List, [], ◌∷◌, ◌++◌}
use plugify.Prelude.Table.{Table}
use plugify.Services.{
  Pointer, Locator, finished, Operation, end_of, begin_scope, end_scope, apply, run,
}
use plugify.Services.Scopes.{
  Grows, Grows-refl, Grows-trans, Grows-top, same-Grows, apply-Grows, Balanced, nothing, one,
  enclosed,
}

module _ (create : ℕ → ℕ → Pointer) where
  run-append :
      (a b : List Operation) (l : Locator)
      → (run create (a ++ b) l).1 ≡ (run create b (run create a l).1).1
  unfolding run
  run-append [] b l = refl
  run-append (op ∷ a) b l = run-append a b (apply create op l).1

  pub end_scope-stack :
      (l : Locator) (top : Table Pointer) (outer : List (Table Pointer))
      → l.scope_stack ≡ top ∷ outer
      → ((end_scope l).0 ≡ finished) × ((end_scope l).1.scope_stack ≡ outer)
  unfolding end_scope
  end_scope-stack l top outer e = rw e (refl, refl)

  pub run-Grows :
      {ops : List Operation}
      → Balanced ops
      → (l : Locator) → Grows l.scope_stack (run create ops l).1.scope_stack
  unfolding run apply begin_scope
  run-Grows nothing l = Grows-refl l.scope_stack
  run-Grows (one {op = op} {ops = ops} plain rest) l =
      Grows-trans _ _ _ (apply-Grows create op l plain) (run-Grows rest (apply create op l).1)
  run-Grows (enclosed {inner = inner} {ops = ops} b rest) l =
      (let begun = (begin_scope l).1 in
        let inside = (run create inner begun).1 in
        let ended = (end_scope inside).1 in
        let top = Grows-top [] l.scope_stack inside.scope_stack (run-Grows b begun) in
        let back = (end_scope-stack inside top.0 l.scope_stack top.1).1 in
        rw (run-append inner (end_of ∷ ops) begun) (
          Grows-trans _ _ _ (same-Grows create l.scope_stack ended.scope_stack back)
            (run-Grows rest ended)))
