-- ===== src/Stages/Policy.antt =====
-- What the policy makes of parsed extensions, and the languages that plugins depend on.
use Prim.Native.String.{String}
use plugify.Prelude.{
  ◌≡◌, ◌≢◌, refl, ◌⊎◌, inl, inr, true, List, [], ◌∷◌, map, Option, none, some, All, Bool-cases,
}
use plugify.Extension.State.{
  ExtensionState, ExtensionType, unknown_type, parsed, resolving, resolved, unresolved, disabled,
  same_state, is_valid_transition, is_plugin,
}
use plugify.Extension.Core.{Extension, add_dependency, excluded_by_policy}
use plugify.Stages.Shared.{Settings, find_text}
use plugify.Stages.States.{Now, set_state-Now, add_error-Now, add_warning-Now}
use plugify.Stages.Resolution.{
  is_included, exclude, filter_by_policy, add_language, add_language_dependencies,
  collect_languages,
}

-- An extension that the policy or the resolver left out.
abbrev pub LeftOut : Extension → Type 0
LeftOut e = (t : ExtensionType) × (Now t disabled e ⊎ Now t unresolved e)

-- An extension of a known type in a state.
abbrev pub Stands : ExtensionState → Extension → Type 0
Stands s e = (t : ExtensionType) × (t ≢ unknown_type) × Now t s e

abbrev pub Resolved : Extension → Type 0
Resolved e = Stands resolved e ⊎ LeftOut e

exclude-LeftOut : (e : Extension) → Stands parsed e → LeftOut (exclude e)
unfolding is_valid_transition
exclude-LeftOut e (t, k, now) =
    let h : same_state e.state parsed ≡ true = cc (now.state_is) in
    rw h (t, inl (add_warning-Now (set_state-Now now disabled refl) excluded_by_policy))

pub filter_by_policy-All :
    (c : Settings) (xs : List Extension)
    → All (Stands parsed) xs
    → All (Stands resolving) (filter_by_policy c xs).0 × All LeftOut (filter_by_policy c xs).1
unfolding filter_by_policy is_valid_transition
filter_by_policy-All c [] h = (tt, tt)
filter_by_policy-All c (x ∷ xs) ((t, k, now), h) =
    let (f, e) = filter_by_policy-All c xs h in
    elim (Bool-cases (is_included c x)) [
      | inl y ↦ rw y (((t, k, set_state-Now now resolving refl), f), e)
      | inr y ↦ rw y (f, (exclude-LeftOut x (t, k, now), e))
    ]

add_dependency-Stands :
    (s : ExtensionState) (name : String) (e : Extension)
    → Stands s e
    → Stands s (add_dependency name e)
unfolding add_dependency
add_dependency-Stands s name e (t, k, now) =
    (t, k, record { type_is = now.type_is; state_is = now.state_is; sound = now.sound })

add_language-Stands :
    (s : ExtensionState) (m : Option String) (e : Extension)
    → Stands s e
    → Stands s (add_language m e)
add_language-Stands s (some name) e h = add_dependency-Stands s name e h
add_language-Stands s none e h =
    let (t, k, now) = add_dependency-Stands s e.language e h in (t, k, add_error-Now now _)

pub map-All :
    {P : Extension → Type 0} (Q : Extension → Type 0) (f : Extension → Extension)
    (g : (x : Extension) → P x → Q (f x)) (xs : List Extension)
    → All P xs
    → All Q (map f xs)
map-All Q f g [] h = tt
map-All Q f g (x ∷ xs) h = (g x h.0, map-All Q f g xs h.1)

pub add_language_dependencies-All :
    (s : ExtensionState) (xs : List Extension)
    → All (Stands s) xs
    → All (Stands s) (add_language_dependencies xs)
unfolding add_language_dependencies
add_language_dependencies-All s xs h =
    map-All (Stands s) _
      (λ e p. elim (Bool-cases (is_plugin e.type)) [
        | inl y ↦ rw y (add_language-Stands s (find_text e.language (collect_languages xs [])) e p)
        | inr y ↦ rw y p
      ])
      xs h
