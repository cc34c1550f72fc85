-- ===== src/Version/Roundtrip/Parts.antt =====
-- The optional parts of a version's text: a tag behind `-` and build metadata behind `+`.
use plugify.Prelude.{
  ℕ, ◌<◌, ◌≡◌, refl, ◌∙◌, ap, List, [], ◌∷◌, ◌++◌, map, arith, length, length-append, length-map,
  All, All-append, All-map_of, append-nil,
}
use plugify.Version.Lexer.{Token, eol}
use plugify.Version.Parser.{
  success, parse_optional_tag, parse_optional_metadata, parse_prerelease_tag, parse_build_metadata,
  is_dot, is_alphanumeric, append_identifier, make_prerelease_identifier,
}
use plugify.Version.Text.{optional_part}
use plugify.Version.Roundtrip.Lexing.{token_of, tokens, IsVersionChar}
use plugify.Version.Roundtrip.Numbers.{EndsNumber}
use plugify.Version.Roundtrip.Identifiers.{IsIdentifierChar}
use plugify.Version.Roundtrip.Tags.{
  NonEmpty, IsBuildIdentifier, IsTagIdentifier, join, EndsTag, parse_prerelease_tag-join,
  parse_build_metadata-join,
}

abbrev pub metadata_text : List (List ℕ) → List ℕ
metadata_text builds = optional_part b'+' (join builds) []

abbrev pub tag_text : List (List ℕ) → List (List ℕ) → List ℕ
tag_text ids builds = optional_part b'-' (join ids) (metadata_text builds)

NonEmpty-append : (x y : List ℕ) → NonEmpty x → NonEmpty (x ++ y)
NonEmpty-append [] y h = absurd h
NonEmpty-append (c ∷ cs) y h = tt

NonEmpty-join : (x : List ℕ) (xs : List (List ℕ)) → NonEmpty x → NonEmpty (join (x ∷ xs))
NonEmpty-join x [] h = h
NonEmpty-join x (y ∷ ys) h = NonEmpty-append x _ h

pub optional_part-some :
    (mark : ℕ) (text behind : List ℕ)
    → NonEmpty text
    → optional_part mark text behind ≡ mark ∷ (text ++ behind)
unfolding optional_part
optional_part-some mark [] behind h = absurd h
optional_part-some mark (c ∷ cs) behind h = refl

pub tokens-append : (xs ys : List ℕ) → tokens (xs ++ ys) ≡ map token_of xs ++ tokens ys
tokens-append [] ys = refl
tokens-append (x ∷ xs) ys = ap (◌∷◌ (token_of x)) (tokens-append xs ys)

length-pos : (x : List ℕ) → NonEmpty x → 0 < length x
length-pos [] h = absurd h
length-pos (c ∷ cs) h = omega arith

-- Each identifier has a character, so there are tokens enough for the loop's rounds.
length-join :
    (x : List ℕ) (xs : List (List ℕ)) → All NonEmpty (x ∷ xs) → length xs < length (join (x ∷ xs))
length-join x [] h = length-pos x h.0
length-join x (y ∷ ys) h =
    omega (arith, length-append x (b'.' ∷ join (y ∷ ys)), length-pos x h.0, length-join y ys h.1)

fuel_enough :
    (x : List ℕ) (xs : List (List ℕ)) (ts : List Token)
    → All NonEmpty (x ∷ xs)
    → length xs < length (map token_of (join (x ∷ xs)) ++ ts)
fuel_enough x xs ts h = omega (
  arith,
  length-append (map token_of (join (x ∷ xs))) ts,
  length-map token_of (join (x ∷ xs)),
  length-join x xs h,
)

plus_step :
    (text : List ℕ)
    → parse_optional_metadata (tokens (b'+' ∷ text))
      ≡ parse_build_metadata (length (tokens text)) [] (tokens text)
unfolding parse_optional_metadata token_of
plus_step text = refl

hyphen_step :
    (text : List ℕ)
    → parse_optional_tag (tokens (b'-' ∷ text))
      ≡ parse_prerelease_tag (length (tokens text)) [] [] (tokens text)
unfolding parse_optional_tag token_of
hyphen_step text = refl

-- The metadata part is read back, up to the end of the tokens.
pub parse_optional_metadata-text :
    (builds : List (List ℕ))
    → All IsBuildIdentifier builds
    → parse_optional_metadata (tokens (metadata_text builds)) ≡ success (join builds) (eol ∷ [])
unfolding append_identifier
parse_optional_metadata-text [] h = unfold parse_optional_metadata optional_part in refl
parse_optional_metadata-text (x ∷ xs) h =
    rw (optional_part-some b'+' (join (x ∷ xs)) [] (NonEmpty-join x xs h.0.0), append-nil)
      (plus_step (join (x ∷ xs))
        ∙ parse_build_metadata-join _ [] x xs (eol ∷ [])
            (fuel_enough x xs (eol ∷ []) (All-map_of _ NonEmpty (λ y k. k.0) (x ∷ xs) h)) h
            (unfold is_alphanumeric is_dot in (refl, refl)))

EndsTag-metadata :
    (builds : List (List ℕ))
    → All IsBuildIdentifier builds
    → EndsTag (tokens (metadata_text builds))
unfolding is_alphanumeric is_dot optional_part token_of
EndsTag-metadata [] h = (refl, refl)
EndsTag-metadata (x ∷ xs) h =
    rw (optional_part-some b'+' (join (x ∷ xs)) [] (NonEmpty-join x xs h.0.0)) (refl, refl)

-- The tag is read back, up to the metadata part.
pub parse_optional_tag-text :
    (ids builds : List (List ℕ))
    → All IsTagIdentifier ids
    → All IsBuildIdentifier builds
    → parse_optional_tag (tokens (tag_text ids builds))
      ≡ success (join ids, map make_prerelease_identifier ids) (tokens (metadata_text builds))
unfolding append_identifier
parse_optional_tag-text [] [] h k = unfold parse_optional_tag optional_part in refl
parse_optional_tag-text [] (x ∷ xs) h k =
    unfold optional_part in
    rw (optional_part-some b'+' (join (x ∷ xs)) [] (NonEmpty-join x xs k.0.0))
      (unfold parse_optional_tag token_of in refl)
parse_optional_tag-text (x ∷ xs) builds h k =
    rw (optional_part-some b'-' (join (x ∷ xs)) (metadata_text builds) (NonEmpty-join x xs h.0.0)) (
      hyphen_step (join (x ∷ xs) ++ metadata_text builds)
      ∙ rw (tokens-append (join (x ∷ xs)) (metadata_text builds)) (
          parse_prerelease_tag-join _ [] [] x xs (tokens (metadata_text builds))
            (fuel_enough x xs _ (All-map_of _ NonEmpty (λ y j. j.0) (x ∷ xs) h)) h
            (EndsTag-metadata builds k)))

-- A number ends before the tag, and every character of the text is one that the lexer takes.
pub EndsNumber-tag_text :
    (ids builds : List (List ℕ))
    → All IsTagIdentifier ids
    → All IsBuildIdentifier builds
    → EndsNumber (tag_text ids builds)
EndsNumber-tag_text [] [] h k = unfold optional_part in tt
EndsNumber-tag_text [] (x ∷ xs) h k =
    unfold optional_part in
    rw (optional_part-some b'+' (join (x ∷ xs)) [] (NonEmpty-join x xs k.0.0)) refl
EndsNumber-tag_text (x ∷ xs) builds h k =
    rw (optional_part-some b'-' (join (x ∷ xs)) (metadata_text builds) (NonEmpty-join x xs h.0.0))
      refl

identifier-IsVersionChar : (c : ℕ) → IsIdentifierChar c → IsVersionChar c
identifier-IsVersionChar c h = rw h

join-IsVersionChar :
    (xs : List (List ℕ)) → All (All IsIdentifierChar) xs → All IsVersionChar (join xs)
join-IsVersionChar [] h = tt
join-IsVersionChar (x ∷ []) h = All-map_of _ _ identifier-IsVersionChar x h.0
join-IsVersionChar (x ∷ y ∷ rest) h =
    All-append _ x (b'.' ∷ join (y ∷ rest)) (All-map_of _ _ identifier-IsVersionChar x h.0)
      (refl, join-IsVersionChar (y ∷ rest) h.1)

optional_part-IsVersionChar :
    (mark : ℕ) (text behind : List ℕ)
    → IsVersionChar mark
    → All IsVersionChar text
    → All IsVersionChar behind
    → All IsVersionChar (optional_part mark text behind)
unfolding optional_part
optional_part-IsVersionChar mark [] behind m h k = k
optional_part-IsVersionChar mark (c ∷ cs) behind m h k = (m, All-append _ (c ∷ cs) behind h k)

pub tag_text-IsVersionChar :
    (ids builds : List (List ℕ))
    → All IsTagIdentifier ids
    → All IsBuildIdentifier builds
    → All IsVersionChar (tag_text ids builds)
tag_text-IsVersionChar ids builds h k =
    optional_part-IsVersionChar b'-' (join ids) (metadata_text builds) refl
      (join-IsVersionChar ids (All-map_of _ _ (λ x j. j.1) ids h))
      (optional_part-IsVersionChar b'+' (join builds) [] refl
        (join-IsVersionChar builds (All-map_of _ _ (λ x j. j.1) builds k)) tt)
