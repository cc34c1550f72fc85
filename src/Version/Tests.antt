-- ===== src/Version/Tests.antt =====
-- Runs of the parser and of the comparison at concrete texts.
use Prim.Native.String.{String}
use Prim.Native.Char.{code}
use plugify.Prelude.{ℕ, ◌≡◌, refl, List, [], ◌∷◌, ◌+◌, ◌*◌, ◌^◌, arith, All, true, ◌↔◌}
use plugify.Prelude.Int.{sign}
use plugify.Version.Types.{Version, initial, numeric, alphanumeric}
use plugify.Version.Parser.{
  parse, make_prerelease_identifier, success, failure, invalid_argument, result_out_of_range,
}
use plugify.Version.Text.{to_string}
use plugify.Version.Compare.{
  equals, less_or_equal, include_prerelease, compare_parsed, compare_prerelease,
}
use plugify.Version.Compare.Signs.{Chain, opposite}
use plugify.Version.Compare.Sized.{IsSized, compare_parsed-IsOrder}
use plugify.Version.Compare.Equality.{SameRelease, equals_iff}
use plugify.Version.Roundtrip.Tags.{IsTagIdentifier, IsBuildIdentifier}
use plugify.Version.Roundtrip.Whole.{assemble, IsWellFormed, parse-to_string, parse-overflow}
use plugify.Version.Total.Whole.{Parsed, parse_total}

abbrev codes : String → List ℕ
codes String.[] = []
codes (String.◌∷◌ c s) = code c ∷ codes s

abbrev candidate : Version
candidate = record {
  major = 1;
  minor = 20;
  patch = 3;
  prerelease_tag = codes "rc.1";
  build_metadata = codes "b-5.001";
  prerelease_identifiers =
      record { type = alphanumeric; identifier = codes "rc" }
      ∷ record { type = numeric; identifier = codes "1" }
      ∷ [];
}

parse-candidate : parse (codes "1.20.3-rc.1+b-5.001") ≡ success candidate []
unfolding parse
parse-candidate = refl

print_candidate : to_string candidate ≡ codes "1.20.3-rc.1+b-5.001"
unfolding to_string
print_candidate = refl

leading_zero : parse (codes "1.2.3-01") ≡ failure invalid_argument
unfolding parse
leading_zero = refl

too_large : parse (codes "2147483648.0.0") ≡ failure result_out_of_range
unfolding parse
too_large = refl

abbrev tag_parts : List (List ℕ)
tag_parts = codes "rc" ∷ codes "1" ∷ []

abbrev build_parts : List (List ℕ)
build_parts = codes "b-5" ∷ codes "001" ∷ []

tag_parts-allowed : All IsTagIdentifier tag_parts
tag_parts-allowed = ((tt, (refl, (refl, tt)), λ p q. cc q), ((tt, (refl, tt), λ p q. refl), tt))

build_parts-allowed : All IsBuildIdentifier build_parts
build_parts-allowed = ((tt, (refl, (refl, (refl, tt)))), ((tt, (refl, (refl, (refl, tt)))), tt))

candidate-IsWellFormed : IsWellFormed candidate
unfolding make_prerelease_identifier
candidate-IsWellFormed = record {
  ids = tag_parts;
  builds = build_parts;
  major_fits = omega arith;
  minor_fits = omega arith;
  patch_fits = omega arith;
  ids_allowed = tag_parts-allowed;
  builds_allowed = build_parts-allowed;
  tag_joined = refl;
  metadata_joined = refl;
  identifiers_made = refl;
}

parse-to_string_example : parse (to_string candidate) ≡ success candidate []
parse-to_string_example = parse-to_string candidate candidate-IsWellFormed

parse-overflow_example :
    parse (to_string (assemble (1 + 3 * 2 ^ 64) 20 3 tag_parts build_parts))
    ≡ success (assemble 1 20 3 tag_parts build_parts) []
unfolding make_prerelease_identifier
parse-overflow_example =
    parse-overflow 1 3 20 3 tag_parts build_parts candidate-IsWellFormed tag_parts-allowed
      build_parts-allowed

parse_total_example : Parsed (parse (codes "1.2.3-"))
parse_total_example = parse_total (codes "1.2.3-")

-- The release that the candidate is for.
abbrev release : Version
release = record candidate { prerelease_tag = []; prerelease_identifiers = [] }

candidate_first : less_or_equal candidate release ≡ true
unfolding less_or_equal compare_parsed compare_prerelease
candidate_first = refl

initial_first : less_or_equal initial candidate ≡ true
unfolding less_or_equal compare_parsed
initial_first = refl

candidate-IsSized : IsSized candidate
candidate-IsSized = record {
  count_fits = omega arith;
  lengths_fit = (omega arith, (omega arith, tt));
}

release-IsSized : IsSized release
release-IsSized = record { count_fits = omega arith; lengths_fit = tt }

initial-IsSized : IsSized initial
initial-IsSized = record { count_fits = omega arith; lengths_fit = tt }

compare_parsed-IsOrder_example :
    (sign (compare_parsed initial candidate include_prerelease)
      ≡ opposite (sign (compare_parsed candidate initial include_prerelease)))
    × Chain
        (sign (compare_parsed initial candidate include_prerelease))
        (sign (compare_parsed candidate release include_prerelease))
        (sign (compare_parsed initial release include_prerelease))
compare_parsed-IsOrder_example =
    compare_parsed-IsOrder include_prerelease initial candidate release initial-IsSized
      candidate-IsSized release-IsSized

equals_iff_example : (equals candidate release ≡ true) ↔ SameRelease candidate release
equals_iff_example = equals_iff candidate release candidate-IsSized release-IsSized
