-- ===== src/Stages/Propagation.antt =====
-- What `PropagateFailureToDirectDependents` puts into the failure tracker.
use plugify.Prelude.{
  ℕ, ◌≡◌, refl, ◌∙◌, true, ◌||◌, Option, none, some, List, [], ◌∷◌, ◌==◌, arith, Bool-cases, inl,
  inr, ==_iff, subst, sym,
}
use plugify.Graph.{find, edges, or_empty, contains}
use plugify.Tracker.{mark_failed, has_failed}
use plugify.Stages.Shared.{Shared}
use plugify.Stages.Failure.{mark, mark_all, mark_found, propagate_failure_to_direct_dependents}

has_failed-mark_failed :
    (id x : ℕ) (failed : List ℕ)
    → has_failed x (mark_failed id failed) ≡ (has_failed x failed || x == id)
unfolding has_failed mark_failed
has_failed-mark_failed id x failed = elim (Bool-cases (contains failed id)) [
  | inl e ↦ elim (Bool-cases (x == id)) [
    | inl f ↦
        let g = subst (λ y. contains failed y ≡ true) (sym ((==_iff x id).0 f)) e in
        rw (e, f, g) refl
    | inr f ↦ rw (e, f) (ground arith)
  ]
  | inr e ↦ rw e (ground arith)
]

has_failed-mark_all :
    (ids : List ℕ) (x : ℕ) (w : Shared)
    → has_failed x (mark_all ids w).tracker ≡ (has_failed x w.tracker || contains ids x)
unfolding mark_all
has_failed-mark_all [] x w = ground arith
has_failed-mark_all (id ∷ ids) x w =
    has_failed-mark_all ids x (mark id w)
    ∙ rw (has_failed-mark_failed id x w.tracker) (ground arith)

has_failed-mark_found :
    (o : Option (List ℕ)) (x : ℕ) (w : Shared)
    → has_failed x (mark_found o w).tracker ≡ (has_failed x w.tracker || contains (or_empty o) x)
has_failed-mark_found none x w = ground arith
has_failed-mark_found (some ids) x w = has_failed-mark_all ids x w

-- After `PropagateFailureToDirectDependents` exactly these are marked as failed: what was, and what the
-- dependency graph lists for the failed extension, which is what it depends on itself.
pub has_failed-propagate_failure_to_direct_dependents :
    (id x : ℕ) (w : Shared)
    → has_failed x (propagate_failure_to_direct_dependents id w).tracker
      ≡ (has_failed x w.tracker || contains (edges id w.dep_graph) x)
unfolding propagate_failure_to_direct_dependents
has_failed-propagate_failure_to_direct_dependents id x w =
    has_failed-mark_found (find id w.dep_graph) x w
