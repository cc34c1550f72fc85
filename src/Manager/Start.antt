-- ===== src/Manager/Start.antt =====
-- src/core/manager.cpp: what `Initialize` leaves behind.
use plugify.Prelude.{
  ◌≡◌, refl, ◌∙◌, sym, subst, inl, inr, true, List, [], ◌∷◌, arith, All, Bool-cases, ltb,
}
use plugify.Extension.State.{discovered}
use plugify.Extension.Core.{Extension, ok}
use plugify.Pipeline.{Stage, execute, execute_stage, total_failed}
use plugify.Pipeline.Rules.{execute_zero}
use plugify.Stages.Shared.{Env, Shared, VisitsElements}
use plugify.Stages.Parsing.{parsing_stage}
use plugify.Stages.Resolution.{resolution_stage}
use plugify.Stages.Loading.{loading_stage}
use plugify.Stages.Exporting.{exporting_stage}
use plugify.Stages.Starting.{starting_stage}
use plugify.Stages.Policy.{Stands}
use plugify.Stages.Resolving.{resolution_pass}
use plugify.Manager.Core.{Manager, stages, fresh, initialize}
use plugify.Manager.Passes.{Started, parsing_pass, loading_pass, exporting_pass, starting_pass}

abbrev after_loading : Env → List (Stage Shared Extension)
after_loading env = exporting_stage env ∷ starting_stage env ∷ []

abbrev after_resolution : Env → List (Stage Shared Extension)
after_resolution env = loading_stage env ∷ after_loading env

abbrev after_parsing : Env → List (Stage Shared Extension)
after_parsing env = resolution_stage env ∷ after_resolution env

stages-Started :
    (env : Env) (visits : VisitsElements env) (w : Shared) (found : List Extension)
    → All (Stands discovered) found
    → total_failed (execute w (stages env) found).1 ≡ 0
    → All Started (execute w (stages env) found).2
unfolding execute
stages-Started env visits w found h f =
    let one = execute_stage (parsing_stage env) w found in
    let two = execute_stage (resolution_stage env) one.0 one.2 in
    let three = execute_stage (loading_stage env) two.0 two.2 in
    let four = execute_stage (exporting_stage env) three.0 three.2 in
    let (f₁, r₁, e₁) = execute_zero w (parsing_stage env) (after_parsing env) found f in
    let (f₂, r₂, e₂) = execute_zero one.0 (resolution_stage env) (after_resolution env) one.2 r₁ in
    let (f₃, r₃, e₃) = execute_zero two.0 (loading_stage env) (after_loading env) two.2 r₂ in
    let (f₄, r₄, e₄) =
      execute_zero three.0 (exporting_stage env) (starting_stage env ∷ []) three.2 r₃ in
    let (f₅, r₅, e₅) = execute_zero four.0 (starting_stage env) [] four.2 r₄ in
    let parsed = parsing_pass env w found h f₁ in
    let resolved = resolution_pass env visits one.0 one.2 parsed f₂ in
    let loaded = loading_pass env two.0 two.2 resolved f₃ in
    let exported = exporting_pass env three.0 three.2 loaded f₄ in
    subst (All Started) (sym (e₁ ∙ (e₂ ∙ (e₃ ∙ (e₄ ∙ e₅)))))
      (starting_pass env four.0 four.2 exported f₅)

-- If `Initialize` succeeds on extensions of known types that were just discovered, and going through a
-- map visits its elements, then the manager is initialized, and every extension is running, disabled or
-- unresolved and has only made transitions that `IsValidTransition` allows.
pub initialize-Started :
    (env : Env) (visits : VisitsElements env) (found : List Extension) (m : Manager)
    → All (Stands discovered) found
    → (initialize env found m).1 ≡ ok tt
    → ((initialize env found m).0.initialized ≡ true)
      × All Started (initialize env found m).0.extensions
unfolding initialize
initialize-Started env visits found m h r = elim (Bool-cases m.initialized) [
  | inl e ↦ absurd (cc (rw e at r))
  | inr e ↦ elim (Bool-cases (ltb 0 (total_failed (execute (fresh m) (stages env) found).1))) [
    | inl f ↦ absurd (cc (rw (e, f) at r))
    | inr f ↦ simp (e, f) (refl, stages-Started env visits (fresh m) found h (ground arith))
  ]
]
