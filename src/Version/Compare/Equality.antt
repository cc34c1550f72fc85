-- ===== src/Version/Compare/Equality.antt =====
-- When `operator==` holds of two versions.
use plugify.Prelude.{ℕ, ◌≡◌, refl, ◌↔◌, true, List, [], ◌∷◌, arith, length}
use plugify.Prelude.Int.{is_zero, sub_ℕ, Sign, minus, null, plus, sign}
use plugify.Version.Types.{Version, PrereleaseIdentifier, IdentifierType, numeric, alphanumeric}
use plugify.Version.Compare.{include_prerelease, compare, compare_digits, equals}
use plugify.Version.Compare.Exact.{
  exact_option, exact_numerically, exact_by_type, exact_identifier, exact_difference,
  exact_prerelease, exact_parsed,
}
use plugify.Version.Compare.Sized.{IsSized, compare_parsed_exact}
use plugify.Version.Compare.Signs.{opposite, sub_ℕ_null, or_else_null}
use plugify.Version.Compare.Total.{exact_prerelease_flip}

compare_null : (a b : List ℕ) → sign (compare a b) ≡ null → a ≡ b
unfolding compare
compare_null [] [] h = refl
compare_null [] (y ∷ ys) h = cc
compare_null (x ∷ xs) [] h = cc
compare_null (x ∷ xs) (y ∷ ys) h = ground (arith, compare_null xs ys)

compare_digits_null :
    (a b : List ℕ) → length a ≡ length b → sign (compare_digits a b) ≡ null → a ≡ b
unfolding compare_digits
compare_digits_null [] [] p h = refl
compare_digits_null [] (y ∷ ys) p h = absurd (omega arith)
compare_digits_null (x ∷ xs) [] p h = absurd (omega arith)
compare_digits_null (x ∷ xs) (y ∷ ys) p h = ground (
  arith,
  or_else_null (sub_ℕ x y) (compare_digits xs ys) h,
  sub_ℕ_null x y,
  compare_digits_null xs ys,
)

exact_numerically_null : (a b : List ℕ) → sign (exact_numerically a b) ≡ null → a ≡ b
unfolding exact_numerically
exact_numerically_null a b h = ground (arith, compare_digits_null a b)

by_type_null :
    (s t : IdentifierType) (a b : List ℕ) → sign (exact_by_type s t a b) ≡ null → (s ≡ t) × (a ≡ b)
unfolding exact_by_type
by_type_null numeric numeric a b h = (refl, exact_numerically_null a b h)
by_type_null numeric alphanumeric a b h = cc
by_type_null alphanumeric numeric a b h = cc
by_type_null alphanumeric alphanumeric a b h = (refl, compare_null a b h)

exact_identifier_null : (a b : PrereleaseIdentifier) → sign (exact_identifier a b) ≡ null → a ≡ b
unfolding exact_identifier
exact_identifier_null a b h = ground (arith, by_type_null a.type b.type a.identifier b.identifier h)

exact_difference_null :
    (xs ys : List PrereleaseIdentifier)
    → length xs ≡ length ys
    → sign (exact_difference xs ys) ≡ null
    → xs ≡ ys
unfolding exact_difference
exact_difference_null [] [] p h = refl
exact_difference_null [] (y ∷ ys) p h = absurd (omega arith)
exact_difference_null (x ∷ xs) [] p h = absurd (omega arith)
exact_difference_null (x ∷ xs) (y ∷ ys) p h = ground (
  arith,
  or_else_null (exact_identifier x y) (exact_difference xs ys) h,
  exact_identifier_null x y,
  exact_difference_null xs ys,
)

exact_prerelease_null :
    (xs ys : List PrereleaseIdentifier) → sign (exact_prerelease xs ys) ≡ null → xs ≡ ys
unfolding exact_prerelease
exact_prerelease_null [] [] h = refl
exact_prerelease_null [] (y ∷ ys) h = ground arith
exact_prerelease_null (x ∷ xs) [] h = ground arith
exact_prerelease_null (x ∷ xs) (y ∷ ys) h = ground (
  arith,
  or_else_null (exact_difference (x ∷ xs) (y ∷ ys)) (sub_ℕ (length (x ∷ xs)) (length (y ∷ ys))) h,
  sub_ℕ_null (length (x ∷ xs)) (length (y ∷ ys)),
  exact_difference_null (x ∷ xs) (y ∷ ys),
)

-- The comparison of versions includes everything but the build metadata.
pub record SameRelease (a b : Version) : Type 0 where
  pub same_major : a.major ≡ b.major
  pub same_minor : a.minor ≡ b.minor
  pub same_patch : a.patch ≡ b.patch
  pub same_identifiers : a.prerelease_identifiers ≡ b.prerelease_identifiers

exact-SameRelease :
    (a b : Version) → is_zero (exact_parsed a b include_prerelease) ≡ true → SameRelease a b
unfolding exact_parsed exact_option
exact-SameRelease a b h =
    ground (arith, exact_prerelease_null a.prerelease_identifiers b.prerelease_identifiers)

self_null : (s : Sign) → s ≡ opposite s → s ≡ null
self_null minus h = cc
self_null null h = refl
self_null plus h = cc

exact_prerelease_self : (xs : List PrereleaseIdentifier) → sign (exact_prerelease xs xs) ≡ null
exact_prerelease_self xs = self_null _ (exact_prerelease_flip xs xs)

SameRelease-exact :
    (a b : Version) → SameRelease a b → is_zero (exact_parsed a b include_prerelease) ≡ true
unfolding exact_parsed exact_option
SameRelease-exact a b h = let same = exact_prerelease_self b.prerelease_identifiers in ground arith

-- On versions whose prerelease identifiers are fewer than 2 ^ 31 and shorter than that, `operator==`
-- holds exactly when major, minor, patch and the prerelease identifiers are the same; the build
-- metadata is not compared.
pub equals_iff : (a b : Version) → IsSized a → IsSized b → (equals a b ≡ true) ↔ SameRelease a b
unfolding equals
equals_iff a b ha hb =
    rw (compare_parsed_exact a b ha hb include_prerelease)
      (exact-SameRelease a b, SameRelease-exact a b)
