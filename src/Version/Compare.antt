-- ===== src/Version/Compare.antt =====
-- include/plg/version.hpp: `compare_parsed` and what it calls. Each function returns an `int` of
-- which only the sign is read. A size is a size_t, and its conversion to `int` is written out. Major,
-- minor and patch are not negative and at most 2 ^ 31 - 1, so that their differences do not overflow.
pub mod Signs
pub mod Exact
pub mod Order
pub mod Total
pub mod Sized
pub mod Equality
use plugify.Prelude.{
  ℕ, suc, ◌≡◌, refl, Bool, true, false, not, List, [], ◌∷◌, ltb, ◌==◌, if◌then◌else◌, length, empty,
}
use plugify.Prelude.Int.{
  ℤ, pos, negsuc, sub_ℕ, sub_ℤ, to_int, size_difference, is_zero, is_negative, is_positive, or_else,
}
use plugify.Version.Types.{Version, PrereleaseIdentifier, IdentifierType, numeric, alphanumeric}

-- std::string_view::compare: the first differing character decides, then the shorter text is less.
unfoldable pub compare : List ℕ → List ℕ → ℤ
compare [] [] = pos 0
compare [] (y ∷ ys) = negsuc 0
compare (x ∷ xs) [] = pos 1
compare (x ∷ xs) (y ∷ ys) = if x == y then compare xs ys else if ltb x y then negsuc 0 else pos 1

-- The loop of `compare_numerically`: a - b at the first place where the digits differ.
unfoldable pub compare_digits : List ℕ → List ℕ → ℤ
compare_digits [] ys = pos 0
compare_digits (x ∷ xs) [] = pos 0
compare_digits (x ∷ xs) (y ∷ ys) = or_else (sub_ℕ x y) (compare_digits xs ys)

unfoldable pub compare_numerically : List ℕ → List ℕ → ℤ
compare_numerically lhs rhs =
    if length lhs == length rhs
    then compare_digits lhs rhs
    else to_int (size_difference (length lhs) (length rhs))

unfoldable pub compare_by_type : IdentifierType → IdentifierType → List ℕ → List ℕ → ℤ
compare_by_type numeric numeric lhs rhs = compare_numerically lhs rhs
compare_by_type alphanumeric alphanumeric lhs rhs = compare lhs rhs
compare_by_type alphanumeric numeric lhs rhs = pos 1
compare_by_type numeric alphanumeric lhs rhs = negsuc 0

unfoldable pub compare_identifier : PrereleaseIdentifier → PrereleaseIdentifier → ℤ
unfolding compare_by_type
compare_identifier lhs rhs = compare_by_type lhs.type rhs.type lhs.identifier rhs.identifier

-- The loop over the identifiers that both versions have.
unfoldable pub first_difference : List PrereleaseIdentifier → List PrereleaseIdentifier → ℤ
first_difference [] ys = pos 0
first_difference (x ∷ xs) [] = pos 0
first_difference (x ∷ xs) (y ∷ ys) = or_else (compare_identifier x y) (first_difference xs ys)

abbrev pub differs : Bool → Bool → Bool
differs true b = not b
differs false b = b

-- `prerelease_comparator::compare`, on the identifiers of the two versions. The difference of two values
-- of type `int` is the integer; where it is not an `int`, the source's behaviour is undefined.
unfoldable pub compare_prerelease : List PrereleaseIdentifier → List PrereleaseIdentifier → ℤ
unfolding first_difference
compare_prerelease lhs rhs =
    if differs (empty lhs) (empty rhs)
    then sub_ℤ (to_int (length rhs)) (to_int (length lhs))
    else or_else (first_difference lhs rhs) (sub_ℤ (to_int (length lhs)) (to_int (length rhs)))

pub data CompareOption : Type 0 where
  exclude_prerelease include_prerelease : CompareOption

unfoldable pub compare_option : CompareOption → Version → Version → ℤ
compare_option exclude_prerelease lhs rhs = pos 0
compare_option include_prerelease lhs rhs =
    compare_prerelease lhs.prerelease_identifiers rhs.prerelease_identifiers

unfoldable pub compare_parsed : Version → Version → CompareOption → ℤ
unfolding compare_option
compare_parsed lhs rhs option = or_else (sub_ℕ lhs.major rhs.major) (
    or_else (sub_ℕ lhs.minor rhs.minor)
      (or_else (sub_ℕ lhs.patch rhs.patch) (compare_option option lhs rhs)))

-- `operator==`, `operator<` and `operator<=`.
unfoldable pub equals : Version → Version → Bool
equals lhs rhs = is_zero (compare_parsed lhs rhs include_prerelease)

unfoldable pub less : Version → Version → Bool
less lhs rhs = is_negative (compare_parsed lhs rhs include_prerelease)

unfoldable pub less_or_equal : Version → Version → Bool
less_or_equal lhs rhs = not (is_positive (compare_parsed lhs rhs include_prerelease))
