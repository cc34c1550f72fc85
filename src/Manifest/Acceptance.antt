-- ===== src/Manifest/Acceptance.antt =====
-- `Manifest::Validate` accepts exactly the valid manifests.
use Prim.Native.String.{String}
use plugify.Prelude.{ℕ, refl, ◌↔◌, List, [], ◌∷◌, map, All}
use plugify.Stages.Shared.{contains_text}
use plugify.Manifest.Types.{Enum, Method, Class, Manifest, Heap}
use plugify.Manifest.Checked.{Passes, both-Pass}
use plugify.Manifest.Validate.{
  validate_method, validate_enum, validate_class, validate_methods, validate_prototypes,
  validate_enums, validate_classes, validate,
}
use plugify.Manifest.Valid.{Distinct, IsSignature, IsValidClass, IsValidManifest}
use plugify.Manifest.Uniqueness.{Unseen, Unseen-iff, guard_then, validate_values_iff}
use plugify.Manifest.Validity.{validate_method_iff}
use plugify.Manifest.Classes.{validate_class_iff}

methods_iff :
    (names functions : List String) (ms : List Method)
    → Passes (validate_methods names functions ms) ↔ (
        Unseen names (map (λ m. m.name) ms)
        × Unseen functions (map (λ m. m.func_name) ms)
        × All IsSignature ms)
unfolding validate_methods
methods_iff names functions [] = (λ _. (tt, tt, tt), λ _. refl)
methods_iff names functions (m ∷ ms) =
    let first = guard_then (contains_text names m.name) _ _ in
    let second = guard_then (contains_text functions m.func_name) _ _ in
    let third = both-Pass (validate_method m "Method") _ in
    let valid = validate_method_iff m "Method" in
    let rest = methods_iff (m.name ∷ names) (m.func_name ∷ functions) ms in
    (
      λ h.
          (let (a, p) = first.0 h in
            let (b, q) = second.0 p in
            let (d, r) = third.0 q in let (u, v, w) = rest.0 r in ((a, u), (b, v), (valid.0 d, w))),
      λ ((a, u), (b, v), (d, w)). first.1 (a, second.1 (b, third.1 (valid.1 d, rest.1 (u, v, w)))),
    )

prototypes_iff :
    (h : Heap) (ps : List ℕ)
    → Passes (validate_prototypes h ps) ↔ All (λ p. IsSignature (h.method_at p)) ps
unfolding validate_prototypes
prototypes_iff h [] = (λ _. tt, λ _. refl)
prototypes_iff h (p ∷ ps) =
    let first =
      both-Pass (validate_method (h.method_at p) "Prototype") (validate_prototypes h ps) in
    let valid = validate_method_iff (h.method_at p) "Prototype" in
    let rest = prototypes_iff h ps in
    (
      λ k. (let (a, b) = first.0 k in (valid.0 a, rest.0 b)),
      λ (a, b). first.1 (valid.1 a, rest.1 b),
    )

validate_enum_iff : (e : Enum) → Passes (validate_enum e) ↔ Distinct (map (λ v. v.name) e.values)
unfolding validate_enum
validate_enum_iff e =
    let loop = validate_values_iff e.name [] e.values in
    let distinct = Unseen-iff (map (λ v. v.name) e.values) in
    (λ k. distinct.0 (loop.0 k), λ d. loop.1 (distinct.1 d))

enums_iff :
    (h : Heap) (ps : List ℕ)
    → Passes (validate_enums h ps) ↔ All (λ p. Distinct (map (λ v. v.name) (h.enum_at p).values)) ps
unfolding validate_enums
enums_iff h [] = (λ _. tt, λ _. refl)
enums_iff h (p ∷ ps) =
    let first = both-Pass (validate_enum (h.enum_at p)) (validate_enums h ps) in
    let valid = validate_enum_iff (h.enum_at p) in
    let rest = enums_iff h ps in
    (
      λ k. (let (a, b) = first.0 k in (valid.0 a, rest.0 b)),
      λ (a, b). first.1 (valid.1 a, rest.1 b),
    )

classes_iff :
    (names : List String) (cs : List Class)
    → Passes (validate_classes names cs)
      ↔ (Unseen names (map (λ c. c.name) cs) × All IsValidClass cs)
unfolding validate_classes
classes_iff names [] = (λ _. (tt, tt), λ _. refl)
classes_iff names (c ∷ cs) =
    let first = guard_then (contains_text names c.name) _ _ in
    let second = both-Pass (validate_class c) (validate_classes (c.name ∷ names) cs) in
    let valid = validate_class_iff c in
    let rest = classes_iff (c.name ∷ names) cs in
    (
      λ k.
          (let (a, p) = first.0 k in
            let (b, q) = second.0 p in let (u, v) = rest.0 q in ((a, u), (valid.0 b, v))),
      λ ((a, u), (b, v)). first.1 (a, second.1 (valid.1 b, rest.1 (u, v))),
    )

-- `Manifest::Validate` succeeds exactly on the valid manifests: no two methods with one name or one
-- function name, no repeated value in an enum and no repeated class or binding name, every reference
-- linked, a prototype for every function type, no void parameter, a variadic index that names a
-- parameter, and no members in a class without a handle.
pub validate_iff : (h : Heap) (m : Manifest) → Passes (validate h m) ↔ IsValidManifest h m
unfolding validate
validate_iff h m =
    let first = both-Pass (validate_methods [] [] m.methods) _ in
    let second = both-Pass (validate_prototypes h m.prototypes) _ in
    let third = both-Pass (validate_enums h m.enums) (validate_classes [] m.classes) in
    let methods = methods_iff [] [] m.methods in
    let prototypes = prototypes_iff h m.prototypes in
    let enums = enums_iff h m.enums in
    let classes = classes_iff [] m.classes in
    (
      λ k.
          (let (a, p) = first.0 k in
            let (b, q) = second.0 p in
            let (c, d) = third.0 q in
            let (u, v, w) = methods.0 a in
            let (x, y) = classes.0 d in
            record {
              methods_distinct = (Unseen-iff _).0 u;
              functions_distinct = (Unseen-iff _).0 v;
              methods_valid = w;
              prototypes_valid = prototypes.0 b;
              values_distinct = enums.0 c;
              classes_distinct = (Unseen-iff _).0 x;
              classes_valid = y;
            }),
      λ v. first.1 (
        methods.1 (
          (Unseen-iff _).1 v.methods_distinct,
          (Unseen-iff _).1 v.functions_distinct,
          v.methods_valid,
        ),
        second.1 (
          prototypes.1 v.prototypes_valid,
          third.1 (
            enums.1 v.values_distinct,
            classes.1 ((Unseen-iff _).1 v.classes_distinct, v.classes_valid),
          ),
        ),
      ),
    )
