-- ===== src/Version/Parser.antt =====
-- include/plg/version.hpp: `token_stream`, `version_parser` and `detail::parse`. A stream is the
-- tokens from the current one on. A read behind the last token, which is undefined behaviour in the
-- source, is the outcome `past_end`; loops that are not structural take fuel, and `out_of_fuel`
-- has no counterpart in the source.
mod Stream
unfoldable pub use Stream.*
use plugify.Prelude.{
  ℕ, zero, suc, ◌+◌, ◌*◌, ◌%◌, ◌^◌, Bool, true, false, ◌&&◌, ◌||◌, Option, none, some, List, [],
  ◌∷◌, ◌++◌, leb, ltb, ◌==◌, if◌then◌else◌, length, empty, any_of,
}
use plugify.Version.Types.{Version, PrereleaseIdentifier, numeric, alphanumeric}
use plugify.Version.Lexer.{Token, eol, dot, plus, hyphen, letter, digit, is_letter, scan_tokens}

abbrev pub int_max : ℕ
int_max = 2147483647

-- The loop of `parse_number`; `result` is a uint64_t.
unfoldable pub parse_digits : ℕ → List Token → Outcome ℕ
parse_digits result [] = past_end
parse_digits result (digit d ∷ ts) = parse_digits ((result * 10 + d) % 2 ^ 64) ts
parse_digits result (t ∷ ts) =
    if leb result int_max then success result (t ∷ ts) else failure result_out_of_range

unfoldable pub parse_number : List Token → Outcome ℕ
unfolding parse_digits succeed
parse_number [] = past_end
parse_number (digit d ∷ ts) = if d == 0 then succeed 0 ts else parse_digits d ts
parse_number (t ∷ ts) = failure invalid_argument

-- The loop of `is_leading_zero` over the tokens behind the digit: how many alphanumeric ones follow,
-- and how many of those are digits. It is none if the scan leaves the stream.
unfoldable pub count_run : List Token → Option (ℕ × ℕ)
count_run [] = none
count_run (digit d ∷ ts) = elim (count_run ts) [ none ↦ none | some (a, n) ↦ some (suc a, suc n) ]
count_run (hyphen ∷ ts) = elim (count_run ts) [ none ↦ none | some (a, n) ↦ some (suc a, n) ]
count_run (letter c ∷ ts) = elim (count_run ts) [ none ↦ none | some (a, n) ↦ some (suc a, n) ]
count_run (t ∷ ts) = some (0, 0)

abbrev pub digits_only : Option (ℕ × ℕ) → Option Bool
digits_only none = none
digits_only (some (a, n)) = some (ltb 0 n && n == a)

unfoldable pub is_leading_zero : ℕ → List Token → Option Bool
unfolding count_run
is_leading_zero d ts = if d == 0 then digits_only (count_run ts) else some false

-- What the switch in the loop of an identifier makes of a token.
pub data Pushed : Type 0 where
  pushed : ℕ → Pushed
  refused read_past : Pushed

abbrev pub pushed_digit : ℕ → Option Bool → Pushed
pushed_digit d none = read_past
pushed_digit d (some true) = refused
pushed_digit d (some false) = pushed (b'0' + d)

-- The zero is looked for only where the digit is the first character of the identifier.
unfoldable pub prerelease_char : List ℕ → Token → List Token → Pushed
unfolding is_leading_zero
prerelease_char result hyphen ts = pushed b'-'
prerelease_char result (letter c) ts = pushed c
prerelease_char result (digit d) ts =
    if empty result then pushed_digit d (is_leading_zero d ts) else pushed (b'0' + d)
prerelease_char result _ ts = refused

unfoldable pub build_char : Token → Pushed
build_char hyphen = pushed b'-'
build_char (letter c) = pushed c
build_char (digit d) = pushed (b'0' + d)
build_char _ = refused

unfoldable pub starts_alphanumeric : List Token → Bool
unfolding is_alphanumeric
starts_alphanumeric [] = false
starts_alphanumeric (t ∷ ts) = is_alphanumeric t

unfoldable pub parse_prerelease_identifier : List ℕ → List Token → Outcome (List ℕ)
unfolding prerelease_char starts_alphanumeric succeed
parse_prerelease_identifier result [] = past_end
parse_prerelease_identifier result (t ∷ ts) = elim (prerelease_char result t ts) [
  | refused ↦ failure invalid_argument
  | read_past ↦ past_end
  | pushed c ↦
      (let rest = parse_prerelease_identifier (result ++ c ∷ []) ts in
        if starts_alphanumeric ts then rest else succeed (result ++ c ∷ []) ts)
]

unfoldable pub parse_build_identifier : List ℕ → List Token → Outcome (List ℕ)
unfolding build_char starts_alphanumeric succeed
parse_build_identifier result [] = past_end
parse_build_identifier result (t ∷ ts) = elim (build_char t) [
  | refused ↦ failure invalid_argument
  | read_past ↦ past_end
  | pushed c ↦
      (let rest = parse_build_identifier (result ++ c ∷ []) ts in
        if starts_alphanumeric ts then rest else succeed (result ++ c ∷ []) ts)
]

unfoldable pub make_prerelease_identifier : List ℕ → PrereleaseIdentifier
unfolding is_letter
make_prerelease_identifier text = record {
  type = if any_of (λ c. c == b'-' || is_letter c) text then alphanumeric else numeric;
  identifier = text;
}

-- A dot stands before every identifier but the first.
unfoldable pub append_identifier : List ℕ → List ℕ → List ℕ
append_identifier [] identifier = identifier
append_identifier (c ∷ cs) identifier = (c ∷ cs) ++ b'.' ∷ identifier

unfoldable pub parse_prerelease_tag :
    ℕ
    → List ℕ
    → List PrereleaseIdentifier
    → List Token
    → Outcome (List ℕ × List PrereleaseIdentifier)
unfolding parse_prerelease_identifier make_prerelease_identifier append_identifier advance_if_match
    is_dot
parse_prerelease_tag zero result ids ts = out_of_fuel
parse_prerelease_tag (suc fuel) result ids ts = do
  (identifier, behind) ← parse_prerelease_identifier [] ts
  (more, rest) ← advance_if_match is_dot behind
  let result' = append_identifier result identifier
  let ids' = ids ++ make_prerelease_identifier identifier ∷ []
  let again = parse_prerelease_tag fuel result' ids' rest
  if more then again else succeed (result', ids') rest

unfoldable pub parse_build_metadata : ℕ → List ℕ → List Token → Outcome (List ℕ)
unfolding parse_build_identifier append_identifier advance_if_match is_dot
parse_build_metadata zero result ts = out_of_fuel
parse_build_metadata (suc fuel) result ts = do
  (identifier, behind) ← parse_build_identifier [] ts
  (more, rest) ← advance_if_match is_dot behind
  let result' = append_identifier result identifier
  let again = parse_build_metadata fuel result' rest
  if more then again else succeed result' rest

-- The two optional parts behind the numbers. Each round of a loop takes a token, so the number of
-- tokens is fuel enough.
unfoldable pub parse_optional_tag : List Token → Outcome (List ℕ × List PrereleaseIdentifier)
unfolding parse_prerelease_tag is_hyphen advance_if_match
parse_optional_tag ts = do
  (more, rest) ← advance_if_match is_hyphen ts
  let tag = parse_prerelease_tag (length rest) [] [] rest
  if more then tag else success ([], []) rest

unfoldable pub parse_optional_metadata : List Token → Outcome (List ℕ)
unfolding parse_build_metadata is_plus advance_if_match
parse_optional_metadata ts = do
  (more, rest) ← advance_if_match is_plus ts
  let metadata = parse_build_metadata (length rest) [] rest
  if more then metadata else success [] rest

-- `version_parser::parse`, which clears the version first.
unfoldable pub parse_version : List Token → Outcome Version
unfolding parse_number parse_optional_tag parse_optional_metadata consume is_dot
parse_version ts = do
  (major, ts₁) ← parse_number ts
  (_, ts₂) ← consume is_dot ts₁
  (minor, ts₃) ← parse_number ts₂
  (_, ts₄) ← consume is_dot ts₃
  (patch, ts₅) ← parse_number ts₄
  (tag, ts₆) ← parse_optional_tag ts₅
  (metadata, ts₇) ← parse_optional_metadata ts₆
  success
      (record {
        major = major;
        minor = minor;
        patch = patch;
        prerelease_tag = tag.0;
        build_metadata = metadata;
        prerelease_identifiers = tag.1;
      })
      ts₇

unfoldable pub is_eol : Token → Bool
is_eol eol = true
is_eol _ = false

abbrev pub after_scan {ℓ} :
    {A : Type ℓ} → (List Token → Outcome A) → Option (List Token) → Outcome A
after_scan p none = failure invalid_argument
after_scan p (some ts) = p ts

unfoldable pub parse_tokens : List Token → Outcome Version
unfolding parse_version consume is_eol
parse_tokens ts = do (v, rest) ← parse_version ts; (_, end) ← consume is_eol rest; success v end

-- `detail::parse` of a version.
unfoldable pub parse : List ℕ → Outcome Version
unfolding parse_tokens scan_tokens
parse text = after_scan parse_tokens (scan_tokens text)
