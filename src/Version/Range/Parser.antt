-- ===== src/Version/Range/Parser.antt =====
-- include/plg/version.hpp: `range_parser` and `parse` of a set of ranges. The loops have the number of
-- tokens as their fuel.
use plugify.Prelude.{ℕ, zero, suc, Bool, true, false, List, [], ◌∷◌, if◌then◌else◌, length}
use plugify.Version.Lexer.{
  RangeOperator, equal, Token, space, logical_or, digit, range_operator, scan_tokens,
}
use plugify.Version.Parser.{
  Outcome, ◌>>=◌, success, past_end, out_of_fuel, succeed, advance_if_match, parse_version,
  after_scan,
}
use plugify.Version.Range.{RangeComparator}

abbrev pub is_space : Token → Bool
is_space space = true
is_space _ = false

abbrev pub is_logical_or : Token → Bool
is_logical_or logical_or = true
is_logical_or _ = false

-- `check(range_operator) || check(digit)`.
abbrev pub starts_comparator : Token → Bool
starts_comparator (range_operator op) = true
starts_comparator (digit d) = true
starts_comparator _ = false

unfoldable pub skip_whitespaces : List Token → Outcome (Unit {0})
skip_whitespaces [] = past_end
skip_whitespaces (t ∷ ts) =
    let rest = skip_whitespaces ts in if is_space t then rest else success tt (t ∷ ts)

-- The operator, which is `equal` if there is none.
unfoldable pub take_operator : List Token → Outcome RangeOperator
take_operator [] = past_end
take_operator (range_operator op ∷ ts) = success op ts
take_operator (t ∷ ts) = success equal (t ∷ ts)

unfoldable pub parse_range_comparator : List Token → Outcome RangeComparator
unfolding skip_whitespaces take_operator parse_version succeed
parse_range_comparator ts = do
  (op, a) ← take_operator ts
  (_, b) ← skip_whitespaces a
  (v, d) ← parse_version b
  succeed (record { version = v; operator = op }) d

abbrev pub more_comparators :
    RangeComparator → List Token → Outcome (List RangeComparator) → Outcome (List RangeComparator)
more_comparators r [] rest = past_end
more_comparators r (t ∷ ts) rest =
    if starts_comparator t
    then rest >>= (λ (rs, end). success (r ∷ rs) end)
    else success (r ∷ []) (t ∷ ts)

unfoldable pub parse_range : ℕ → List Token → Outcome (List RangeComparator)
unfolding skip_whitespaces parse_range_comparator
parse_range zero ts = out_of_fuel
parse_range (suc fuel) ts = do
  (_, a) ← skip_whitespaces ts
  (r, b) ← parse_range_comparator a
  (_, d) ← skip_whitespaces b
  more_comparators r d (parse_range fuel d)

abbrev pub more_ranges :
    List RangeComparator
    → Bool
    → List Token
    → Outcome (List (List RangeComparator))
    → Outcome (List (List RangeComparator))
more_ranges range true ts rest = rest >>= (λ (ranges, end). success (range ∷ ranges) end)
more_ranges range false ts rest = succeed (range ∷ []) ts

-- `range_parser::parse`.
unfoldable pub parse_ranges : ℕ → List Token → Outcome (List (List RangeComparator))
unfolding skip_whitespaces parse_range advance_if_match succeed
parse_ranges zero ts = out_of_fuel
parse_ranges (suc fuel) ts = do
  (range, a) ← parse_range (length ts) ts
  (_, b) ← skip_whitespaces a
  (more, d) ← advance_if_match is_logical_or b
  more_ranges range more d (parse_ranges fuel d)

abbrev pub parse_all_ranges : List Token → Outcome (List (List RangeComparator))
parse_all_ranges ts = parse_ranges (length ts) ts

-- `parse` of a set of ranges: what follows the last range is not looked at.
unfoldable pub parse_range_set : List ℕ → Outcome (List (List RangeComparator))
unfolding scan_tokens parse_ranges
parse_range_set text = after_scan parse_all_ranges (scan_tokens text)
