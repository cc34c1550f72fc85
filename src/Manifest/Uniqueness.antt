-- ===== src/Manifest/Uniqueness.antt =====
-- The loops that collect the names seen so far find exactly the repetitions.
use Prim.Native.String.{String}
use text.Mathlib.Text.{◌==◌ as str_eq}
use text.Mathlib.TextEquality.{eq_iff}
use plugify.Prelude.{
  ◌≡◌, ◌≢◌, refl, ◌↔◌, Bool, true, false, ◌||◌, not, List, [], ◌∷◌, map, All, arith, Bool-cases,
  inl, inr,
}
use plugify.Stages.Shared.{contains_text}
use plugify.Manifest.Types.{Value}
use plugify.Manifest.Checked.{Checked, ManifestError, ◌>>◌, guard, Passes}
use plugify.Manifest.Valid.{Distinct}
use plugify.Manifest.Validate.{validate_values}

-- None of the names is among the ones seen, nor among those before it.
abbrev pub Unseen : List String → List String → Type 0
Unseen seen [] = Unit
Unseen seen (x ∷ xs) = (contains_text seen x ≡ false) × Unseen (x ∷ seen) xs

abbrev NotIn : List String → List String → Type 0
NotIn seen xs = All (λ x. contains_text seen x ≡ false) xs

or_false : (a b : Bool) → (a || b) ≡ false → (a ≡ false) × (b ≡ false)
or_false a b h = ground arith

str_eq-false : (x y : String) → (str_eq x y ≡ false) ↔ (x ≢ y)
str_eq-false x y = (
  λ h p. (let q = (eq_iff x y).1 p in cc (h, q)),
  λ h. elim (Bool-cases (str_eq x y)) [ inl e ↦ absurd (h ((eq_iff x y).0 e)) | inr e ↦ e ],
)

split_seen :
    (x : String) (seen xs : List String) → NotIn (x ∷ seen) xs → All (λ y. x ≢ y) xs × NotIn seen xs
split_seen x seen [] h = (tt, tt)
split_seen x seen (y ∷ ys) (h, hs) =
    let (a, b) = or_false (str_eq x y) (contains_text seen y) h in
    let (as', bs) = split_seen x seen ys hs in (((str_eq-false x y).0 a, as'), (b, bs))

join_seen :
    (x : String) (seen xs : List String) → All (λ y. x ≢ y) xs → NotIn seen xs → NotIn (x ∷ seen) xs
join_seen x seen [] h k = tt
join_seen x seen (y ∷ ys) (h, hs) (k, ks) =
    (rw ((str_eq-false x y).1 h, k) refl, join_seen x seen ys hs ks)

Unseen-Distinct : (seen xs : List String) → Unseen seen xs → Distinct xs × NotIn seen xs
Unseen-Distinct seen [] h = (tt, tt)
Unseen-Distinct seen (x ∷ xs) (h, hs) =
    let (d, n) = Unseen-Distinct (x ∷ seen) xs hs in
    let (a, b) = split_seen x seen xs n in ((a, d), (h, b))

Distinct-Unseen : (seen xs : List String) → Distinct xs → NotIn seen xs → Unseen seen xs
Distinct-Unseen seen [] d n = tt
Distinct-Unseen seen (x ∷ xs) (a, d) (h, b) =
    (h, Distinct-Unseen (x ∷ seen) xs d (join_seen x seen xs a b))

nothing_seen : (xs : List String) → NotIn [] xs
nothing_seen [] = tt
nothing_seen (x ∷ xs) = (refl, nothing_seen xs)

pub Unseen-iff : (xs : List String) → Unseen [] xs ↔ Distinct xs
Unseen-iff xs = (λ h. (Unseen-Distinct [] xs h).0, λ d. Distinct-Unseen [] xs d (nothing_seen xs))

-- A guard in front of other checks.
pub guard_then :
    (b : Bool) (e : ManifestError) (k : Checked (Unit {0}))
    → Passes (guard (not b) e >> k) ↔ ((b ≡ false) × Passes k)
guard_then true e k = (λ h. absurd (cc h), λ h. absurd (cc (h.0)))
guard_then false e k = (λ h. (refl, h), λ h. h.1)

pub validate_values_iff :
    (name : String) (seen : List String) (vs : List Value)
    → Passes (validate_values name seen vs) ↔ Unseen seen (map (λ v. v.name) vs)
unfolding validate_values
validate_values_iff name seen [] = (λ _. tt, λ _. refl)
validate_values_iff name seen (v ∷ vs) =
    let step = guard_then (contains_text seen v.name) _ _ in
    let rest = validate_values_iff name (v.name ∷ seen) vs in
    (λ h. (let (a, b) = step.0 h in (a, rest.0 b)), λ (a, b). step.1 (a, rest.1 b))
