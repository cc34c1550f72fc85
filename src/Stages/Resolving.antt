-- ===== src/Stages/Resolving.antt =====
-- What the resolution stage makes of parsed extensions, where it succeeds.
use Prim.Native.String.{String}
use plugify.Prelude.{
  suc, ℕ, ◌≡◌, refl, inl, inr, not, List, [], ◌∷◌, Option, none, some, ◌==◌, arith, All, All-append,
  All-map_of, Bool-cases, Option-cases, empty,
}
use plugify.Extension.State.{
  ExtensionState, ExtensionType, parsed, resolving, resolved, unresolved, is_valid_transition,
}
use plugify.Extension.Core.{Extension, Result, ok, err, foreign}
use plugify.Pipeline.{execute_stage, StageStatistics, barrier_statistics, execute_barrier}
use plugify.Stages.Shared.{Env, Shared, VisitsElements, ResolutionReport, DependencyIssue}
use plugify.Stages.States.{Now, set_state-Now, add_error-Now, add_warning-Now}
use plugify.Stages.Resolution.{
  filter_by_policy, add_language_dependencies, insert_extension, by_id, take_extension, kept_before,
  in_load_order, add_issue, add_issues, find_issues, mark_unresolved, build_result_in_order,
  resolve_filtered, resolve_all, resolution_stage,
}
use plugify.Stages.Policy.{
  LeftOut, Stands, Resolved, filter_by_policy-All, add_language_dependencies-All, map-All,
}

module _ {κ} (P : Extension → Type κ) where
  insert_extension-All :
      (e : Extension) (m : List Extension) → P e → All P m → All P (insert_extension e m)
  unfolding insert_extension
  insert_extension-All e [] p h = (p, tt)
  insert_extension-All e (x ∷ xs) p h = elim (Bool-cases (x.id == e.id)) [
    | inl y ↦ rw y (p, h.1)
    | inr y ↦ rw y (h.0, insert_extension-All e xs p h.1)
  ]

  by_id-All : (xs m : List Extension) → All P xs → All P m → All P (by_id xs m)
  unfolding by_id
  by_id-All [] m h hm = hm
  by_id-All (x ∷ xs) m h hm =
      by_id-All xs (insert_extension x m) h.1 (insert_extension-All x m h.0 hm)

  abbrev Taken : Option (Extension × List Extension) → Type κ
  Taken none = Unit
  Taken (some (e, m)) = P e × All P m

  kept :
      (x : Extension) (r : Option (Extension × List Extension))
      → P x
      → Taken r
      → Taken (kept_before x r)
  kept x none p h = tt
  kept x (some (e, m)) p h = (h.0, (p, h.1))

  take_extension-Taken : (id : ℕ) (m : List Extension) → All P m → Taken (take_extension id m)
  unfolding take_extension
  take_extension-Taken id [] h = tt
  take_extension-Taken id (x ∷ xs) h = elim (Bool-cases (x.id == id)) [
    | inl y ↦ rw y h
    | inr y ↦ rw y (kept x _ h.0 (take_extension-Taken id xs h.1))
  ]

add_issue-Now :
    (t : ExtensionType) (s : ExtensionState) (i : DependencyIssue) (e : Extension)
    → Now t s e
    → Now t s (add_issue e i)
unfolding add_issue
add_issue-Now t s i e now = elim (Bool-cases i.is_blocking) [
  | inl y ↦ rw y (add_error-Now now (foreign i.description))
  | inr y ↦ rw y (add_warning-Now now (foreign i.description))
]

add_issues-Now :
    (t : ExtensionType) (s : ExtensionState) (is : List DependencyIssue) (e : Extension)
    → Now t s e
    → Now t s (add_issues is e)
unfolding add_issues
add_issues-Now t s [] e now = now
add_issues-Now t s (i ∷ is) e now =
    add_issues-Now t s is (add_issue e i) (add_issue-Now t s i e now)

mark_unresolved-LeftOut :
    (report : ResolutionReport) (e : Extension)
    → Stands resolving e
    → LeftOut (mark_unresolved report e)
unfolding mark_unresolved is_valid_transition
mark_unresolved-LeftOut report e (t, k, now) = (
  t,
  inr (
      add_issues-Now t unresolved (find_issues e.id report.issues) _
        (set_state-Now now unresolved refl)),
)

in_load_order-All :
    (ids : List ℕ) (m : List Extension)
    → All (Stands resolving) m
    → All (Stands resolved) (in_load_order ids m).0 × All (Stands resolving) (in_load_order ids m).1
unfolding in_load_order is_valid_transition
in_load_order-All [] m h = (tt, h)
in_load_order-All (id ∷ ids) m h = elim (Option-cases (take_extension id m)) [
  | inl e ↦ rw (e, All) (in_load_order-All ids m h)
  | inr ((x, m'), e) ↦
      let ((t, k, now), h') = rw e at (take_extension-Taken (Stands resolving) id m h) in
      let (done, left) = in_load_order-All ids m' h' in
      rw (e, All) (((t, k, set_state-Now now resolved refl), done), left)
]

build_result_in_order-All :
    (env : Env) (visits : VisitsElements env) (xs ys : List Extension) (report : ResolutionReport)
    → All (Stands resolving) xs
    → All LeftOut ys
    → All Resolved (build_result_in_order env xs ys report)
unfolding build_result_in_order
build_result_in_order-All env visits xs ys report hx hy =
    let (done, left) =
      in_load_order-All report.load_order (by_id xs [])
        (by_id-All (Stands resolving) xs [] hx tt) in
    All-append Resolved _ _ (All-map_of _ Resolved (λ x h. inl h) _ done) (
      All-append Resolved _ _
        (map-All Resolved _ (λ x h. inr (mark_unresolved-LeftOut report x h)) _
          (visits.visits (Stands resolving) _ left))
        (All-map_of LeftOut Resolved (λ x h. inr h) _ hy))

resolve_filtered-All :
    (env : Env) (visits : VisitsElements env) (w : Shared) (xs ys : List Extension)
    → All (Stands resolving) xs
    → All LeftOut ys
    → (resolve_filtered env w xs ys).2 ≡ ok tt
    → All Resolved (resolve_filtered env w xs ys).1
unfolding resolve_filtered
resolve_filtered-All env visits w xs ys hx hy k =
    let items = add_language_dependencies xs in
    let report = env.resolve items in
    elim (Bool-cases (not report.is_load_order_valid)) [
      | inl e ↦ absurd (cc (rw e at k))
      | inr e ↦ elim (Bool-cases (empty report.load_order)) [
        | inl i ↦ absurd (cc (rw (e, i) at k))
        | inr i ↦
            rw (e, i)
              (build_result_in_order-All env visits items ys report
                (add_language_dependencies-All resolving xs hx) hy)
      ]
    ]

resolve_all-All :
    (env : Env) (visits : VisitsElements env) (w : Shared) (xs : List Extension)
    → All (Stands parsed) xs
    → (resolve_all env w xs).2 ≡ ok tt
    → All Resolved (resolve_all env w xs).1
unfolding resolve_all
resolve_all-All env visits w xs h k =
    let (f, e) = filter_by_policy-All env.settings xs h in
    elim (Bool-cases (empty (filter_by_policy env.settings xs).0)) [
      | inl i ↦ absurd (cc (rw i at k))
      | inr i ↦ rw i (resolve_filtered-All env visits w _ _ f e (rw i at k))
    ]

-- A barrier stage counts no failure only if it succeeds, or has no items at all.
barrier-ok :
    (r : Result (Unit {0})) (n : ℕ) (name : String) (s : StageStatistics)
    → (barrier_statistics (suc n) name r s).failed ≡ 0
    → r ≡ ok tt
barrier-ok (ok u) n name s h = refl
barrier-ok (err m) n name s h = absurd (omega arith)

-- The resolution stage on parsed extensions of known types, if going through a map visits its elements
-- and the stage counts no failure: afterwards every extension is resolved, or disabled or unresolved,
-- whatever the resolver reports, through transitions that `IsValidTransition` allows.
pub resolution_pass :
    (env : Env) (visits : VisitsElements env) (w : Shared) (xs : List Extension)
    → All (Stands parsed) xs
    → (execute_stage (resolution_stage env) w xs).1.failed ≡ 0
    → All Resolved (execute_stage (resolution_stage env) w xs).2
unfolding execute_stage resolution_stage execute_barrier resolve_all
resolution_pass env visits w [] h f = tt
resolution_pass env visits w (x ∷ xs) h f =
    resolve_all-All env visits w (x ∷ xs) h (barrier-ok _ _ _ _ f)
