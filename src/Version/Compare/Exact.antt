-- ===== src/Version/Compare/Exact.antt =====
-- The comparison on integers without a bound, in which a difference of sizes is what it says.
use plugify.Prelude.{ℕ, List, [], ◌∷◌, ◌==◌, if◌then◌else◌, length, empty}
use plugify.Prelude.Int.{ℤ, pos, negsuc, sub_ℕ, or_else}
use plugify.Version.Types.{Version, PrereleaseIdentifier, IdentifierType, numeric, alphanumeric}
use plugify.Version.Compare.{
  compare, compare_digits, differs, CompareOption, exclude_prerelease, include_prerelease,
}

unfoldable pub exact_numerically : List ℕ → List ℕ → ℤ
exact_numerically lhs rhs =
    if length lhs == length rhs then compare_digits lhs rhs else sub_ℕ (length lhs) (length rhs)

unfoldable pub exact_by_type : IdentifierType → IdentifierType → List ℕ → List ℕ → ℤ
exact_by_type numeric numeric lhs rhs = exact_numerically lhs rhs
exact_by_type alphanumeric alphanumeric lhs rhs = compare lhs rhs
exact_by_type alphanumeric numeric lhs rhs = pos 1
exact_by_type numeric alphanumeric lhs rhs = negsuc 0

unfoldable pub exact_identifier : PrereleaseIdentifier → PrereleaseIdentifier → ℤ
unfolding exact_by_type
exact_identifier lhs rhs = exact_by_type lhs.type rhs.type lhs.identifier rhs.identifier

unfoldable pub exact_difference : List PrereleaseIdentifier → List PrereleaseIdentifier → ℤ
exact_difference [] ys = pos 0
exact_difference (x ∷ xs) [] = pos 0
exact_difference (x ∷ xs) (y ∷ ys) = or_else (exact_identifier x y) (exact_difference xs ys)

unfoldable pub exact_prerelease : List PrereleaseIdentifier → List PrereleaseIdentifier → ℤ
unfolding exact_difference
exact_prerelease lhs rhs =
    if differs (empty lhs) (empty rhs)
    then sub_ℕ (length rhs) (length lhs)
    else or_else (exact_difference lhs rhs) (sub_ℕ (length lhs) (length rhs))

unfoldable pub exact_option : CompareOption → Version → Version → ℤ
exact_option exclude_prerelease lhs rhs = pos 0
exact_option include_prerelease lhs rhs =
    exact_prerelease lhs.prerelease_identifiers rhs.prerelease_identifiers

unfoldable pub exact_parsed : Version → Version → CompareOption → ℤ
unfolding exact_option
exact_parsed lhs rhs option = or_else (sub_ℕ lhs.major rhs.major) (
    or_else (sub_ℕ lhs.minor rhs.minor)
      (or_else (sub_ℕ lhs.patch rhs.patch) (exact_option option lhs rhs)))
