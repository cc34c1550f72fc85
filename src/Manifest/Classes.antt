-- ===== src/Manifest/Classes.antt =====
-- `ValidateClass` accepts exactly the valid classes.
use Prim.Native.String.{String}
use plugify.Prelude.{
  ◌≡◌, ◌≢◌, refl, ◌↔◌, inl, inr, Bool, true, false, ◌&&◌, ◌||◌, Option, none, some, List, [], ◌∷◌,
  map, All, arith, Bool-cases, ◌==◌, ap, sym, subst, ◌∙◌,
}
use plugify.Stages.Shared.{contains_text}
use plugify.Manifest.Types.{ValueType, void_type, Binding, Class}
use plugify.Manifest.Checked.{Passes}
use plugify.Manifest.Validate.{
  has_value, value_or, is_handleless, validate_bindings, validate_class,
}
use plugify.Manifest.Valid.{IsHandle, IsValidClass}
use plugify.Manifest.Uniqueness.{Unseen, Unseen-iff, guard_then}

abbrev BindsNothing : Bool → List Binding → Type 0
BindsNothing handleless bs = All (λ b. (handleless && value_or b.bind_self false) ≡ false) bs

bindings_iff :
    (name : String) (handleless : Bool) (seen : List String) (bs : List Binding)
    → Passes (validate_bindings name handleless seen bs)
      ↔ (Unseen seen (map (λ b. b.name) bs) × BindsNothing handleless bs)
unfolding validate_bindings
bindings_iff name handleless seen [] = (λ _. (tt, tt), λ _. refl)
bindings_iff name handleless seen (b ∷ bs) =
    let first = guard_then (contains_text seen b.name) _ _ in
    let second = guard_then (handleless && value_or b.bind_self false) _ _ in
    let rest = bindings_iff name handleless (b.name ∷ seen) bs in
    (
      λ h.
          (let (p, q) = first.0 h in
            let (r, s) = second.0 q in let (u, v) = rest.0 s in ((p, u), (r, v))),
      λ ((p, u), (r, v)). first.1 (p, second.1 (r, rest.1 (u, v))),
    )

handle_iff : (o : Option ValueType) → ((value_or o void_type == void_type) ≡ false) ↔ IsHandle o
handle_iff none = (λ h. absurd (cc h), λ h. absurd h)
handle_iff (some t) = ground arith

bind_self_iff : (o : Option Bool) → (value_or o false ≡ false) ↔ (o ≢ some true)
bind_self_iff none = (λ _ h. cc, λ _. refl)
bind_self_iff (some true) = (λ h. absurd (cc h), λ h. absurd (h refl))
bind_self_iff (some false) = (λ _ h. cc, λ _. refl)

none_bound : (bs : List Binding) → BindsNothing true bs ↔ All (λ b. b.bind_self ≢ some true) bs
none_bound [] = (λ _. tt, λ _. tt)
none_bound (b ∷ bs) =
    let first = bind_self_iff b.bind_self in
    let rest = none_bound bs in (λ (p, q). (first.0 p, rest.0 q), λ (p, q). (first.1 p, rest.1 q))

all_bound : (bs : List Binding) → BindsNothing false bs
all_bound [] = tt
all_bound (b ∷ bs) = (refl, all_bound bs)

no_value {ℓ} : {A : Type ℓ} (o : Option A) → (has_value o ≡ false) ↔ (o ≡ none)
no_value none = (λ _. refl, λ _. refl)
no_value (some a) = (λ h. absurd (cc h), λ h. absurd (cc h))

or_false : (a b : Bool) → ((a || b) ≡ false) ↔ ((a ≡ false) × (b ≡ false))
or_false true b = (λ h. absurd (cc h), λ (h, _). absurd (cc h))
or_false false b = (λ h. (refl, h), λ (_, h). h)

-- The class where it has no handle, and where it has one.
namespace_iff : (c : Class) → is_handleless c ≡ true → Passes (validate_class c) ↔ IsValidClass c
unfolding validate_class
namespace_iff c e =
    let members = or_false (has_value c.constructors) (has_value c.destructor) in
    let bindings = bindings_iff c.name (is_handleless c) [] c.bindings in
    let distinct = Unseen-iff (map (λ b. b.name) c.bindings) in
    let handle = handle_iff c.handle_type in
    let first =
      guard_then (is_handleless c && (has_value c.constructors || has_value c.destructor)) _ _ in
    (
      λ h.
          (let (p, q) = first.0 h in
            let (u, v) = bindings.0 q in
            let (a, b) = members.0 (ground arith) in
            record {
              bindings_distinct = distinct.0 u;
              handle_or_namespace = inr (
                (no_value _).0 a,
                (no_value _).0 b,
                (none_bound c.bindings).0 (subst (λ x. BindsNothing x c.bindings) e v),
              );
            }),
      λ k. elim k.handle_or_namespace [
        | inl i ↦ (let f = handle.1 i in absurd (cc (e, f)))
        | inr (a, b, n) ↦ first.1 (
          ap (λ x. is_handleless c && x) (members.1 ((no_value _).1 a, (no_value _).1 b))
              ∙ and_false (is_handleless c),
          bindings.1 (
            distinct.1 k.bindings_distinct,
            subst (λ x. BindsNothing x c.bindings) (sym e) ((none_bound c.bindings).1 n),
          ),
        )
      ],
    )
  where
    and_false : (a : Bool) → (a && false) ≡ false
    and_false true = refl
    and_false false = refl

handled_iff : (c : Class) → is_handleless c ≡ false → Passes (validate_class c) ↔ IsValidClass c
unfolding validate_class
handled_iff c e =
    let bindings = bindings_iff c.name (is_handleless c) [] c.bindings in
    let distinct = Unseen-iff (map (λ b. b.name) c.bindings) in
    let first =
      guard_then (is_handleless c && (has_value c.constructors || has_value c.destructor)) _ _ in
    (
      λ h. record {
        bindings_distinct = distinct.0 ((bindings.0 ((first.0 h).1)).0);
        handle_or_namespace = inl ((handle_iff c.handle_type).0 e);
      },
      λ k. first.1 (
        ap (λ x. x && (has_value c.constructors || has_value c.destructor)) e,
        bindings.1 (
          distinct.1 k.bindings_distinct,
          subst (λ x. BindsNothing x c.bindings) (sym e) (all_bound c.bindings),
        ),
      ),
    )

pub validate_class_iff : (c : Class) → Passes (validate_class c) ↔ IsValidClass c
validate_class_iff c = elim (Bool-cases (is_handleless c)) [
  | inl e ↦ namespace_iff c e
  | inr e ↦ handled_iff c e
]
