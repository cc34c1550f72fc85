-- ===== src/Version/Range.antt =====
-- include/plg/version.hpp: `range_comparator`, `range` and `range_set`: which versions they contain,
-- their texts and their parser. A range is the vector of its comparators, and a set of ranges the vector of its ranges.
pub mod Interval
pub mod Printing
pub mod Parser
pub mod Total
mod Tests
use plugify.Prelude.{
  ℕ, Bool, true, false, ◌&&◌, not, List, [], ◌∷◌, ◌++◌, map, if◌then◌else◌, empty, any_of, all_of,
}
use plugify.Prelude.Int.{ℤ, is_zero, is_negative, is_positive}
use plugify.Version.Types.{Version}
use plugify.Version.Lexer.{RangeOperator, less, less_or_equal, greater, greater_or_equal, equal}
use plugify.Version.Compare.{CompareOption, include_prerelease, exclude_prerelease, compare_parsed}
use plugify.Version.Text.{to_string}

pub record RangeComparator : Type 0 where
  pub version : Version
  pub operator : RangeOperator

-- The switch on the operator, on the comparison of a version with the comparator's.
abbrev pub holds : RangeOperator → ℤ → Bool
holds less c = is_negative c
holds less_or_equal c = not (is_positive c)
holds greater c = is_positive c
holds greater_or_equal c = not (is_negative c)
holds equal c = is_zero c

-- `range_comparator::contains`.
unfoldable pub comparator_contains : RangeComparator → Version → Bool
comparator_contains r other = holds r.operator (compare_parsed other r.version include_prerelease)

-- The test of one comparator, of the same release and with a prerelease tag itself.
abbrev pub names_prerelease : Version → RangeComparator → Bool
names_prerelease v r =
    not (empty r.version.prerelease_tag) && is_zero (compare_parsed v r.version exclude_prerelease)

-- `match_at_least_one_comparator_with_prerelease`.
unfoldable pub match_at_least_one_comparator_with_prerelease : List RangeComparator → Version → Bool
match_at_least_one_comparator_with_prerelease range v =
    if empty v.prerelease_tag then true else any_of (names_prerelease v) range

abbrev pub is_admitted : CompareOption → List RangeComparator → Version → Bool
is_admitted exclude_prerelease range v = match_at_least_one_comparator_with_prerelease range v
is_admitted include_prerelease range v = true

-- `range::contains`.
unfoldable pub range_contains : List RangeComparator → Version → CompareOption → Bool
unfolding comparator_contains match_at_least_one_comparator_with_prerelease
range_contains range v option =
    if not (is_admitted option range v) then false else all_of (λ r. comparator_contains r v) range

-- `range_set::contains`.
unfoldable pub range_set_contains : List (List RangeComparator) → Version → CompareOption → Bool
unfolding range_contains
range_set_contains ranges v option = any_of (λ r. range_contains r v option) ranges

abbrev pub operator_text : RangeOperator → List ℕ
operator_text less = b'<' ∷ []
operator_text less_or_equal = b'<' ∷ b'=' ∷ []
operator_text greater = b'>' ∷ []
operator_text greater_or_equal = b'>' ∷ b'=' ∷ []
operator_text equal = b'=' ∷ []

unfoldable pub comparator_to_string : RangeComparator → List ℕ
unfolding to_string
comparator_to_string r = operator_text r.operator ++ to_string r.version

-- `plg::join` with a space.
unfoldable pub join_spaced : List (List ℕ) → List ℕ
join_spaced [] = []
join_spaced (x ∷ []) = x
join_spaced (x ∷ y ∷ rest) = x ++ b' ' ∷ join_spaced (y ∷ rest)

unfoldable pub range_to_string : List RangeComparator → List ℕ
unfolding comparator_to_string join_spaced
range_to_string range = join_spaced (map comparator_to_string range)

unfoldable pub range_set_to_string : List (List RangeComparator) → List ℕ
unfolding range_to_string join_spaced
range_set_to_string ranges = join_spaced (map range_to_string ranges)
