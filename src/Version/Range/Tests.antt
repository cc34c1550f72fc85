-- ===== src/Version/Range/Tests.antt =====
-- The range >=0.1.0 <1.0.0, and a set of two ranges.
use Prim.Native.String.{String}
use Prim.Native.Char.{code}
use plugify.Version.Parser.{success}
use plugify.Prelude.{arith, ℕ, ◌≡◌, refl, true, List, [], ◌∷◌, ◌++◌}
use plugify.Version.Types.{Version, initial}
use plugify.Version.Lexer.{RangeOperator, eol, letter}
use plugify.Version.Compare.{less_or_equal, compare_parsed, exclude_prerelease}
use plugify.Version.Compare.Sized.{IsSized}
use plugify.Version.Range.{
  RangeComparator, is_admitted, match_at_least_one_comparator_with_prerelease, range_contains,
  range_set_to_string,
}
use plugify.Version.Range.Parser.{parse_range_set}
use plugify.Version.Range.Total.{RangesParsed, parse_range_set_total}
use plugify.Version.Range.Interval.{range_contains_between}
use plugify.Version.Range.Printing.{range_set_to_string-merges}

abbrev numbered : ℕ → ℕ → Version
numbered major minor = record initial { major = major; minor = minor }

abbrev from_initial : RangeComparator
from_initial = record { version = initial; operator = RangeOperator.greater_or_equal }

abbrev below_one : RangeComparator
below_one = record { version = numbered 1 0; operator = RangeOperator.less }

abbrev range : List RangeComparator
range = from_initial ∷ below_one ∷ []

first_below : less_or_equal (numbered 0 2) (numbered 0 3) ≡ true
unfolding less_or_equal compare_parsed
first_below = refl

second_below : less_or_equal (numbered 0 3) (numbered 0 9) ≡ true
unfolding less_or_equal compare_parsed
second_below = refl

first_inside : range_contains range (numbered 0 2) exclude_prerelease ≡ true
unfolding range_contains compare_parsed
first_inside = refl

last_inside : range_contains range (numbered 0 9) exclude_prerelease ≡ true
unfolding range_contains compare_parsed
last_inside = refl

inside_admitted : is_admitted exclude_prerelease range (numbered 0 3) ≡ true
unfolding match_at_least_one_comparator_with_prerelease
inside_admitted = refl

numbered-IsSized : (major minor : ℕ) → IsSized (numbered major minor)
numbered-IsSized major minor = record { count_fits = omega arith; lengths_fit = tt }

initial-IsSized : IsSized initial
initial-IsSized = record { count_fits = omega arith; lengths_fit = tt }

range_contains_between_example : range_contains range (numbered 0 3) exclude_prerelease ≡ true
range_contains_between_example =
    range_contains_between exclude_prerelease range (numbered 0 2) (numbered 0 3) (numbered 0 9)
      (initial-IsSized, (numbered-IsSized 1 0, tt)) (numbered-IsSized 0 2) (numbered-IsSized 0 3)
      (numbered-IsSized 0 9) inside_admitted first_below second_below first_inside last_inside

-- `>=0.1.0 || <1.0.0` is written as `>=0.1.0 <1.0.0`.
range_set_to_string-merges_example :
    range_set_to_string ((from_initial ∷ []) ∷ (below_one ∷ []) ∷ [])
    ≡ range_set_to_string (((from_initial ∷ []) ++ (below_one ∷ [])) ∷ [])
range_set_to_string-merges_example = range_set_to_string-merges from_initial [] below_one [] []

abbrev codes : String → List ℕ
codes String.[] = []
codes (String.◌∷◌ c s) = code c ∷ codes s

parse_range_set_total_example : RangesParsed (parse_range_set (codes ">=0.1.0 <1.0.0 || 2.0.0"))
parse_range_set_total_example = parse_range_set_total (codes ">=0.1.0 <1.0.0 || 2.0.0")

read_ranges :
    parse_range_set (codes ">=0.1.0 <1.0.0 || <1.0.0")
    ≡ success ((from_initial ∷ below_one ∷ []) ∷ (below_one ∷ []) ∷ []) (eol ∷ [])
unfolding parse_range_set
read_ranges = refl

-- Text behind the ranges is not refused.
trailing_text :
    parse_range_set (codes "<1.0.0 ab")
    ≡ success ((below_one ∷ []) ∷ []) (letter b'a' ∷ letter b'b' ∷ eol ∷ [])
unfolding parse_range_set
trailing_text = refl
