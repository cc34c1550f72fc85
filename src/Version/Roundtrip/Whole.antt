-- ===== src/Version/Roundtrip/Whole.antt =====
-- The whole text of a version: what `parse` makes of what `to_string` writes.
use plugify.Prelude.{
  ℕ, ◌+◌, ◌*◌, ◌%◌, ◌^◌, ◌≤◌, ◌≡◌, refl, ◌∙◌, some, List, [], ◌∷◌, map, arith, All,
}
use plugify.Version.Types.{Version}
use plugify.Version.Lexer.{Token, eol, scan_tokens}
use plugify.Version.Parser.{
  success, int_max, parse, parse_version, parse_number, parse_optional_tag, parse_optional_metadata,
  consume, is_dot, is_eol, make_prerelease_identifier,
}
use plugify.Version.Text.{to_chars, to_string}
use plugify.Version.Roundtrip.Lexing.{tokens, token_of, IsVersionChar, scan_tokens-tokens}
use plugify.Version.Roundtrip.Numbers.{EndsNumber, to_chars-IsVersionChar, parse_number-to_chars}
use plugify.Version.Roundtrip.Tags.{IsBuildIdentifier, IsTagIdentifier, join}
use plugify.Version.Roundtrip.Parts.{
  tag_text, parse_optional_metadata-text, parse_optional_tag-text, EndsNumber-tag_text,
  tag_text-IsVersionChar,
}

-- A version of these parts.
abbrev pub assemble : ℕ → ℕ → ℕ → List (List ℕ) → List (List ℕ) → Version
assemble major minor patch ids builds = record {
  major = major;
  minor = minor;
  patch = patch;
  prerelease_tag = join ids;
  build_metadata = join builds;
  prerelease_identifiers = map make_prerelease_identifier ids;
}

abbrev wrap : ℕ → ℕ
wrap n = n % 2 ^ 64

abbrev whole_text : ℕ → ℕ → ℕ → List (List ℕ) → List (List ℕ) → List ℕ
whole_text major minor patch ids builds =
    to_chars major (b'.' ∷ to_chars minor (b'.' ∷ to_chars patch (tag_text ids builds)))

to_string-assemble :
    (major minor patch : ℕ) (ids builds : List (List ℕ))
    → to_string (assemble major minor patch ids builds) ≡ whole_text major minor patch ids builds
unfolding to_string
to_string-assemble major minor patch ids builds = refl

whole_text-IsVersionChar :
    (major minor patch : ℕ) (ids builds : List (List ℕ))
    → All IsTagIdentifier ids
    → All IsBuildIdentifier builds
    → All IsVersionChar (whole_text major minor patch ids builds)
whole_text-IsVersionChar major minor patch ids builds h k = to_chars-IsVersionChar major _ (
  refl,
  to_chars-IsVersionChar minor _
      (refl, to_chars-IsVersionChar patch _ (tag_text-IsVersionChar ids builds h k)),
)

read_number :
    (n : ℕ) (text : List ℕ)
    → EndsNumber text
    → wrap n ≤ int_max
    → parse_number (tokens (to_chars n text)) ≡ success (wrap n) (tokens text)
read_number n text e fits = parse_number-to_chars n text e ∙ ground arith

consume-dot : (text : List ℕ) → consume is_dot (tokens (b'.' ∷ text)) ≡ success tt (tokens text)
unfolding consume is_dot token_of
consume-dot text = refl

-- Each step of the parser on the part that it reads.
parse_version-parts :
    (ts ts₁ ts₂ ts₃ ts₄ ts₅ ts₆ ts₇ : List Token) (major minor patch : ℕ)
    (ids builds : List (List ℕ))
    → parse_number ts ≡ success major ts₁
    → consume is_dot ts₁ ≡ success tt ts₂
    → parse_number ts₂ ≡ success minor ts₃
    → consume is_dot ts₃ ≡ success tt ts₄
    → parse_number ts₄ ≡ success patch ts₅
    → parse_optional_tag ts₅ ≡ success (join ids, map make_prerelease_identifier ids) ts₆
    → parse_optional_metadata ts₆ ≡ success (join builds) ts₇
    → parse_version ts ≡ success (assemble major minor patch ids builds) ts₇
parse_version-parts ts ts₁ ts₂ ts₃ ts₄ ts₅ ts₆ ts₇ major minor patch ids builds a b c d e f g =
    unfold parse_version in rw (a, b, c, d, e, f, g)

parse-scanned :
    (text : List ℕ) {ts : List Token} (v : Version)
    → scan_tokens text ≡ some ts
    → parse_version ts ≡ success v (eol ∷ [])
    → parse text ≡ success v []
parse-scanned text v p q = unfold parse consume is_eol in rw (p, q)

-- The text of a version whose numbers are read modulo 2 ^ 64 within the range of an int.
parse-wrap :
    (major minor patch : ℕ) (ids builds : List (List ℕ))
    → All IsTagIdentifier ids
    → All IsBuildIdentifier builds
    → wrap major ≤ int_max
    → wrap minor ≤ int_max
    → wrap patch ≤ int_max
    → parse (to_string (assemble major minor patch ids builds))
      ≡ success (assemble (wrap major) (wrap minor) (wrap patch) ids builds) []
parse-wrap major minor patch ids builds h k fits_major fits_minor fits_patch =
    rw (to_string-assemble major minor patch ids builds) (
      parse-scanned _ _
        (scan_tokens-tokens _ (whole_text-IsVersionChar major minor patch ids builds h k))
        (parse_version-parts _ _ _ _ _ _ _ _ (wrap major) (wrap minor) (wrap patch) ids builds
          (read_number major (b'.' ∷ to_chars minor (b'.' ∷ to_chars patch (tag_text ids builds)))
            refl fits_major)
          (consume-dot _)
          (read_number minor (b'.' ∷ to_chars patch (tag_text ids builds)) refl fits_minor)
          (consume-dot _)
          (read_number patch (tag_text ids builds) (EndsNumber-tag_text ids builds h k) fits_patch)
          (parse_optional_tag-text ids builds h k) (parse_optional_metadata-text builds k)))

-- What the parser accepts and `to_string` writes: numbers that fit an int, and a tag and metadata
-- made of identifiers, those of the tag without leading zeroes.
pub record IsWellFormed (v : Version) : Type 0 where
  pub ids : List (List ℕ)
  pub builds : List (List ℕ)
  pub major_fits : v.major ≤ int_max
  pub minor_fits : v.minor ≤ int_max
  pub patch_fits : v.patch ≤ int_max
  pub ids_allowed : All IsTagIdentifier ids
  pub builds_allowed : All IsBuildIdentifier builds
  pub tag_joined : v.prerelease_tag ≡ join ids
  pub metadata_joined : v.build_metadata ≡ join builds
  pub identifiers_made : v.prerelease_identifiers ≡ map make_prerelease_identifier ids

wrap-small : (n : ℕ) → n ≤ int_max → wrap n ≡ n
wrap-small n h = omega arith

wrap-fits : (n : ℕ) → n ≤ int_max → wrap n ≤ int_max
wrap-fits n h = omega arith

wrap-multiple : (m k : ℕ) → m ≤ int_max → wrap (m + k * 2 ^ 64) ≡ m
wrap-multiple m k h = omega arith

-- Round trip: the text of every well-formed version parses as that version, and as a whole.
pub parse-to_string : (v : Version) → IsWellFormed v → parse (to_string v) ≡ success v []
parse-to_string v w = rw (v-assemble) (
    parse-wrap v.major v.minor v.patch w.ids w.builds w.ids_allowed w.builds_allowed
      (wrap-fits v.major w.major_fits) (wrap-fits v.minor w.minor_fits)
      (wrap-fits v.patch w.patch_fits)
    ∙ rw (
      wrap-small v.major w.major_fits,
      wrap-small v.minor w.minor_fits,
      wrap-small v.patch w.patch_fits,
    ))
  where
    v-assemble : v ≡ assemble v.major v.minor v.patch w.ids w.builds
    v-assemble = λ i. record {
      major = v.major;
      minor = v.minor;
      patch = v.patch;
      prerelease_tag = w.tag_joined i;
      build_metadata = w.metadata_joined i;
      prerelease_identifiers = w.identifiers_made i;
    }

-- A number that does not fit the 64 bits of the accumulator is not refused: the text of a version
-- with major version m + k * 2 ^ 64, for m in the range of an int, parses as the version with major
-- version m, for every k.
pub parse-overflow :
    (m k minor patch : ℕ) (ids builds : List (List ℕ))
    → IsWellFormed (assemble m minor patch ids builds)
    → All IsTagIdentifier ids
    → All IsBuildIdentifier builds
    → parse (to_string (assemble (m + k * 2 ^ 64) minor patch ids builds))
      ≡ success (assemble m minor patch ids builds) []
parse-overflow m k minor patch ids builds w h j =
    let same : wrap (m + k * 2 ^ 64) ≡ m = wrap-multiple m k w.major_fits in
    parse-wrap (m + k * 2 ^ 64) minor patch ids builds h j (omega (arith, same, w.major_fits))
      (wrap-fits minor w.minor_fits) (wrap-fits patch w.patch_fits)
    ∙ rw (same, wrap-small minor w.minor_fits, wrap-small patch w.patch_fits)
