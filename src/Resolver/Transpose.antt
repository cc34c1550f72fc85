-- ===== src/Resolver/Transpose.antt =====
-- The two graphs that `ComputeInstallationOrder` fills, and what the failure tracker reads in them.
use plugify.Prelude.{
  ℕ, ◌≡◌, refl, ◌∙◌, sym, subst, ◌↔◌, inl, inr, Bool, true, false, ◌&&◌, ◌||◌, Option, none, some,
  List, [], ◌∷◌, ◌++◌, ◌==◌, arith, Bool-cases, any_of, ==_sym, ==_iff, ==_refl,
}
use plugify.Graph.{Graph, find, push_edge, or_empty, edges, contains}
use plugify.Stages.Shared.{ResolutionReport}
use plugify.Tracker.{has_any_dependency_failed, any_failed}
use plugify.Resolver.{
  Pool, find_id, push_dependency, push_provider, push_providers, push_requirements, push_step,
  push_steps, compute_installation_order,
}

contains-append :
    (xs ys : List ℕ) (a : ℕ) → contains (xs ++ ys) a ≡ (contains xs a || contains ys a)
contains-append [] ys a = refl
contains-append (x ∷ xs) ys a = let rest = contains-append xs ys a in ground arith

other_key : (j k a : ℕ) → (j == k) ≡ true → (j == a) ≡ false → (a == k) ≡ false
other_key j k a e f = ground arith

other_key' : (j k a : ℕ) → (j == k) ≡ false → (j == a) ≡ true → (a == k) ≡ false
other_key' j k a e f = ground arith

same_key : (j k a : ℕ) → (j == k) ≡ true → (j == a) ≡ true → (a == k) ≡ true
same_key j k a e f = ground arith

-- Adding an edge adds that one, and keeps the others.
edges-push_edge :
    (k v a b : ℕ) (g : Graph)
    → contains (edges a (push_edge k v g)) b ≡ (contains (edges a g) b || (a == k && b == v))
unfolding push_edge find
edges-push_edge k v a b [] = elim (Bool-cases (k == a)) [
  | inl e ↦ let e' = ==_sym a k ∙ e in rw (e, e') (ground arith)
  | inr e ↦ let e' = ==_sym a k ∙ e in rw (e, e') refl
]
edges-push_edge k v a b ((j, vs) ∷ rest) = elim (Bool-cases (j == k)) [
  | inl e ↦ elim (Bool-cases (j == a)) [
    | inl f ↦ rw (e, f, same_key j k a e f) (contains-append vs (v ∷ []) b ∙ ground arith)
    | inr f ↦ rw (e, f, other_key j k a e f) (ground arith)
  ]
  | inr e ↦ elim (Bool-cases (j == a)) [
    | inl f ↦ rw (e, f, other_key' j k a e f) (ground arith)
    | inr f ↦ rw (e, f) (edges-push_edge k v a b rest)
  ]
]

-- Each of the graphs is the other one backwards.
abbrev pub IsTransposed : ResolutionReport → Type 0
IsTransposed r =
    (a b : ℕ)
    → contains (edges a r.dependency_graph) b ≡ contains (edges b r.reverse_dependency_graph) a

push_dependency-IsTransposed :
    (i j : ℕ) (r : ResolutionReport) → IsTransposed r → IsTransposed (push_dependency i j r)
unfolding push_dependency
push_dependency-IsTransposed i j r h a b =
    rw
      (
        edges-push_edge i j a b r.dependency_graph,
        edges-push_edge j i b a r.reverse_dependency_graph,
        h a b,
      )
      (ground arith)

push_provider-IsTransposed :
    (s : Bool) (i : ℕ) (o : Option ℕ) (r : ResolutionReport)
    → IsTransposed r
    → IsTransposed (push_provider s i o r)
push_provider-IsTransposed s i none r h = h
push_provider-IsTransposed true i (some j) r h = h
push_provider-IsTransposed false i (some j) r h = push_dependency-IsTransposed i j r h

module _ (pool : Pool) (ids : List (ℕ × ℕ)) where
  push_providers-IsTransposed :
      (p i : ℕ) (qs : List ℕ) (r : ResolutionReport)
      → IsTransposed r
      → IsTransposed (push_providers ids p i qs r)
  unfolding push_providers
  push_providers-IsTransposed p i [] r h = h
  push_providers-IsTransposed p i (q ∷ qs) r h =
      push_providers-IsTransposed p i qs _
        (push_provider-IsTransposed (q == p) i (find_id q ids) r h)

  push_requirements-IsTransposed :
      (p i : ℕ) (reqs : List ℕ) (r : ResolutionReport)
      → IsTransposed r
      → IsTransposed (push_requirements pool ids p i reqs r)
  unfolding push_requirements
  push_requirements-IsTransposed p i [] r h = h
  push_requirements-IsTransposed p i (q ∷ qs) r h =
      push_requirements-IsTransposed p i qs _
        (push_providers-IsTransposed p i (pool.what_provides q) r h)

  push_step-IsTransposed :
      (p : ℕ) (o : Option ℕ) (r : ResolutionReport)
      → IsTransposed r
      → IsTransposed (push_step pool ids p o r)
  push_step-IsTransposed p none r h = h
  push_step-IsTransposed p (some i) r h = push_requirements-IsTransposed p i (pool.requires p) _ h

  push_steps-IsTransposed :
      (ps : List ℕ) (r : ResolutionReport)
      → IsTransposed r
      → IsTransposed (push_steps pool ids ps r)
  unfolding push_steps
  push_steps-IsTransposed [] r h = h
  push_steps-IsTransposed (p ∷ ps) r h =
      push_steps-IsTransposed ps _ (push_step-IsTransposed p (find_id p ids) r h)

-- Whatever the solver answers, `ComputeInstallationOrder` fills the two graphs of a report, if they are
-- the reverses of each other to begin with, so that they are still: `b` is listed for `a` in the
-- dependency graph just when `a` is listed for `b` in the reverse one.
pub compute_installation_order-IsTransposed :
    (pool : Pool) (ids : List (ℕ × ℕ)) (steps : List ℕ) (r : ResolutionReport)
    → IsTransposed r
    → IsTransposed (compute_installation_order pool ids steps r)
unfolding compute_installation_order
compute_installation_order-IsTransposed pool ids steps r h =
    push_steps-IsTransposed pool ids steps r h

any_of-member :
    (failed xs : List ℕ)
    → any_of (contains failed) xs ≡ true
    → (b : ℕ) × (contains failed b ≡ true) × (contains xs b ≡ true)
any_of-member failed [] h = absurd (cc h)
any_of-member failed (x ∷ xs) h = elim (Bool-cases (contains failed x)) [
  | inl e ↦ (x, e, rw (==_refl x) refl)
  | inr e ↦ let (b, f, g) = any_of-member failed xs (rw e at h) in (b, f, ground arith)
]

member-any_of :
    (failed xs : List ℕ) (b : ℕ)
    → contains failed b ≡ true
    → contains xs b ≡ true
    → any_of (contains failed) xs ≡ true
member-any_of failed [] b f h = absurd (cc h)
member-any_of failed (x ∷ xs) b f h = elim (Bool-cases (b == x)) [
  | inl e ↦ let g = subst (λ y. contains failed y ≡ true) ((==_iff b x).0 e) f in rw g refl
  | inr e ↦ let g = member-any_of failed xs b f (rw e at h) in rw g (ground arith)
]

any_failed-edges :
    (failed : List ℕ) (o : Option (List ℕ))
    → any_failed failed o ≡ any_of (contains failed) (or_empty o)
any_failed-edges failed none = refl
any_failed-edges failed (some xs) = refl

-- `HasAnyDependencyFailed`, with the reverse graph that the stages give it, holds of an extension just
-- when some extension that has failed lists it among its own dependencies, if the two graphs are the
-- reverses of each other. So a stage skips what a failed extension needs, not what needs it.
pub has_any_dependency_failed_iff :
    (r : ResolutionReport) (failed : List ℕ) (id : ℕ)
    → IsTransposed r
    → (has_any_dependency_failed failed id r.reverse_dependency_graph ≡ true) ↔ (
        (other : ℕ) × (contains failed other ≡ true)
        × (contains (edges other r.dependency_graph) id ≡ true))
unfolding has_any_dependency_failed
has_any_dependency_failed_iff r failed id h =
    let e = any_failed-edges failed (find id r.reverse_dependency_graph) in
    (
      λ k.
          (let (b, f, g) = any_of-member failed (edges id r.reverse_dependency_graph) (sym e ∙ k) in
            (b, f, h b id ∙ g)),
      λ (b, f, g).
          e ∙ member-any_of failed (edges id r.reverse_dependency_graph) b f (sym (h b id) ∙ g),
    )
