-- ===== src/Version/Range/Interval.antt =====
-- Which versions between two versions of a range are in it.
use plugify.Prelude.{
  All, all_of, ◌≡◌, refl, Bool, true, false, ◌&&◌, if◌then◌else◌, not, List, [], ◌∷◌, arith,
}
use plugify.Prelude.Int.{ℤ, sign, is_positive}
use plugify.Version.Types.{Version}
use plugify.Version.Lexer.{RangeOperator}
use plugify.Version.Compare.{CompareOption, less_or_equal, include_prerelease}
use plugify.Version.Compare.Signs.{Chain}
use plugify.Version.Compare.Sized.{IsSized, compare_parsed-IsOrder}
use plugify.Version.Range.{RangeComparator, holds, comparator_contains, is_admitted, range_contains}

both : (x y : Bool) → (x && y) ≡ true → (x ≡ true) × (y ≡ true)
both x y h = ground arith

-- The same on the results of the comparisons.
holds_between :
    (o : RangeOperator) (av vb aw vw bw : ℤ)
    → Chain (sign vb) (sign bw) (sign vw)
    → Chain (sign av) (sign vw) (sign aw)
    → not (is_positive av) ≡ true
    → not (is_positive vb) ≡ true
    → holds o aw ≡ true
    → holds o bw ≡ true
    → holds o vw ≡ true
holds_between RangeOperator.less av vb aw vw bw up down h k p q = ground arith
holds_between RangeOperator.less_or_equal av vb aw vw bw up down h k p q = ground arith
holds_between RangeOperator.greater av vb aw vw bw up down h k p q = ground arith
holds_between RangeOperator.greater_or_equal av vb aw vw bw up down h k p q = ground arith
holds_between RangeOperator.equal av vb aw vw bw up down h k p q = ground arith

comparator_between :
    (r : RangeComparator) (a v b : Version)
    → IsSized r.version
    → IsSized a
    → IsSized v
    → IsSized b
    → less_or_equal a v ≡ true
    → less_or_equal v b ≡ true
    → comparator_contains r a ≡ true
    → comparator_contains r b ≡ true
    → comparator_contains r v ≡ true
unfolding comparator_contains less_or_equal
comparator_between r a v b sr sa sv sb h k p q =
    holds_between r.operator _ _ _ _ _
      (compare_parsed-IsOrder include_prerelease v b r.version sv sb sr).1
      (compare_parsed-IsOrder include_prerelease a v r.version sa sv sr).1 h k p q

All-between :
    (range : List RangeComparator) (a v b : Version)
    → All (λ r. IsSized r.version) range
    → IsSized a
    → IsSized v
    → IsSized b
    → less_or_equal a v ≡ true
    → less_or_equal v b ≡ true
    → all_of (λ r. comparator_contains r a) range ≡ true
    → all_of (λ r. comparator_contains r b) range ≡ true
    → all_of (λ r. comparator_contains r v) range ≡ true
All-between [] a v b s sa sv sb h k p q = refl
All-between (r ∷ rs) a v b (sr, srs) sa sv sb h k p q =
    let (p₀, p₁) = both _ _ p in
    let (q₀, q₁) = both _ _ q in
    rw
      (
        comparator_between r a v b sr sa sv sb h k p₀ q₀,
        All-between rs a v b srs sa sv sb h k p₁ q₁,
      )
      refl

unguarded : (guard x : Bool) → (if not guard then false else x) ≡ true → x ≡ true
unguarded guard x h = ground arith

-- With two versions a range contains every version between them that the option admits. Where
-- prereleases are included, that is every version; where they are excluded, a version without a
-- prerelease tag, or with the release of a comparator that has a tag. Of all these versions and those
-- of the range, the prerelease identifiers are fewer than 2 ^ 31 and shorter than that.
pub range_contains_between :
    (option : CompareOption) (range : List RangeComparator) (a v b : Version)
    → All (λ r. IsSized r.version) range
    → IsSized a
    → IsSized v
    → IsSized b
    → is_admitted option range v ≡ true
    → less_or_equal a v ≡ true
    → less_or_equal v b ≡ true
    → range_contains range a option ≡ true
    → range_contains range b option ≡ true
    → range_contains range v option ≡ true
unfolding range_contains
range_contains_between option range a v b s sa sv sb admitted h k p q = rw admitted (
    All-between range a v b s sa sv sb h k (unguarded (is_admitted option range a) _ p)
      (unguarded (is_admitted option range b) _ q))
