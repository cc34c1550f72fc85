-- ===== src/Version/Roundtrip/Tags.antt =====
-- The loops over the identifiers of a prerelease tag and of build metadata.
use plugify.Prelude.{
  ℕ, zero, suc, ◌<◌, ◌≡◌, refl, ◌∙◌, ap, Bool, true, false, List, [], ◌∷◌, ◌++◌, map, arith,
  if◌then◌else◌, length, All, append_assoc,
}
use mathlib.Core.Path.{ap₂}
use plugify.Version.Types.{PrereleaseIdentifier}
use plugify.Version.Lexer.{Token, dot}
use plugify.Version.Parser.{
  success, parse_prerelease_identifier, parse_build_identifier, parse_prerelease_tag,
  parse_build_metadata, advance_if_match, is_dot, is_alphanumeric, succeed, append_identifier,
  make_prerelease_identifier,
}
use plugify.Version.Roundtrip.Lexing.{token_of}
use plugify.Version.Roundtrip.Identifiers.{
  IsIdentifierChar, NoLeadingZero, EndsIdentifier, succeed-end, parse_prerelease_identifier-tokens,
  parse_build_identifier-tokens,
}

abbrev pub NonEmpty : List ℕ → Type 0
NonEmpty [] = ⊥
NonEmpty (c ∷ cs) = Unit

-- An identifier of build metadata, and one of a prerelease tag.
abbrev pub IsBuildIdentifier : List ℕ → Type 0
IsBuildIdentifier text = NonEmpty text × All IsIdentifierChar text

abbrev pub IsTagIdentifier : List ℕ → Type 0
IsTagIdentifier text = NonEmpty text × All IsIdentifierChar text × NoLeadingZero text

-- The identifiers with dots between them.
abbrev pub join : List (List ℕ) → List ℕ
join [] = []
join (x ∷ []) = x
join (x ∷ y ∷ rest) = x ++ b'.' ∷ join (y ∷ rest)

-- What stands behind the last identifier: a token that neither belongs to it nor is a dot.
abbrev pub EndsTag : List Token → Type 0
EndsTag [] = ⊥
EndsTag (t ∷ ts) = (is_alphanumeric t ≡ false) × (is_dot t ≡ false)

EndsTag-EndsIdentifier : (ts : List Token) → EndsTag ts → EndsIdentifier ts
EndsTag-EndsIdentifier [] e = e
EndsTag-EndsIdentifier (t ∷ ts) e = e.0

advance_if_match-end :
    (ts : List Token) → EndsTag ts → advance_if_match is_dot ts ≡ success false ts
unfolding advance_if_match
advance_if_match-end [] e = absurd e
advance_if_match-end (t ∷ ts) e = rw e.1

append_identifier_regroup :
    (r x : List ℕ) (y : List ℕ)
    → NonEmpty x
    → append_identifier (append_identifier r x) y ≡ append_identifier r (x ++ b'.' ∷ y)
unfolding append_identifier
append_identifier_regroup [] [] y h = absurd h
append_identifier_regroup [] (c ∷ cs) y h = refl
append_identifier_regroup (r ∷ rs) x y h = append_assoc (r ∷ rs) (b'.' ∷ x) (b'.' ∷ y)

tokens-join :
    (x y : List ℕ) (rest : List (List ℕ)) (ts : List Token)
    → map token_of (join (x ∷ y ∷ rest)) ++ ts
      ≡ map token_of x ++ dot ∷ (map token_of (join (y ∷ rest)) ++ ts)
unfolding token_of
tokens-join [] y rest ts = refl
tokens-join (c ∷ cs) y rest ts = ap (◌∷◌ (token_of c)) (tokens-join cs y rest ts)

-- One round of each loop, once the identifier is read and the dot is looked for.
tag_round :
    (f : ℕ) (r : List ℕ) (ids : List PrereleaseIdentifier) (ts : List Token) (x : List ℕ)
    (behind : List Token) (more : Bool) (rest : List Token)
    → parse_prerelease_identifier [] ts ≡ success x behind
    → advance_if_match is_dot behind ≡ success more rest
    → parse_prerelease_tag (suc f) r ids ts ≡ (
        if more
        then parse_prerelease_tag f
            (append_identifier r x)
            (ids ++ make_prerelease_identifier x ∷ [])
            rest
        else succeed (append_identifier r x, ids ++ make_prerelease_identifier x ∷ []) rest)
tag_round f r ids ts x behind more rest p q = unfold parse_prerelease_tag in rw (p, q)

metadata_round :
    (f : ℕ) (r : List ℕ) (ts : List Token) (x : List ℕ) (behind : List Token) (more : Bool)
    (rest : List Token)
    → parse_build_identifier [] ts ≡ success x behind
    → advance_if_match is_dot behind ≡ success more rest
    → parse_build_metadata (suc f) r ts ≡ (
        if more
        then parse_build_metadata f (append_identifier r x) rest
        else succeed (append_identifier r x) rest)
metadata_round f r ts x behind more rest p q = unfold parse_build_metadata in rw (p, q)

advance_if_match-dot : (ts : List Token) → advance_if_match is_dot (dot ∷ ts) ≡ success true ts
unfolding advance_if_match is_dot
advance_if_match-dot ts = refl

read_tag_identifier :
    (x : List ℕ) (ts : List Token)
    → IsTagIdentifier x
    → EndsIdentifier ts
    → parse_prerelease_identifier [] (map token_of x ++ ts) ≡ success x ts
read_tag_identifier [] ts h e = absurd h.0
read_tag_identifier (c ∷ cs) ts h e = parse_prerelease_identifier-tokens c cs ts h.1 h.2 e

read_build_identifier :
    (x : List ℕ) (ts : List Token)
    → IsBuildIdentifier x
    → EndsIdentifier ts
    → parse_build_identifier [] (map token_of x ++ ts) ≡ success x ts
read_build_identifier [] ts h e = absurd h.0
read_build_identifier (c ∷ cs) ts h e = parse_build_identifier-tokens [] c cs ts h.1 e

pub parse_prerelease_tag-join :
    (f : ℕ) (r : List ℕ) (ids : List PrereleaseIdentifier) (x : List ℕ) (xs : List (List ℕ))
    (ts : List Token)
    → length xs < f
    → All IsTagIdentifier (x ∷ xs)
    → EndsTag ts
    → parse_prerelease_tag f r ids (map token_of (join (x ∷ xs)) ++ ts)
      ≡ success
          (append_identifier r (join (x ∷ xs)), ids ++ map make_prerelease_identifier (x ∷ xs))
          ts
parse_prerelease_tag-join zero r ids x xs ts l h e = absurd (omega arith)
parse_prerelease_tag-join (suc f) r ids x [] ts l h e =
    tag_round f r ids _ x ts false ts (read_tag_identifier x ts h.0 (EndsTag-EndsIdentifier ts e))
      (advance_if_match-end ts e)
    ∙ succeed-end _ ts (EndsTag-EndsIdentifier ts e)
parse_prerelease_tag-join (suc f) r ids x (y ∷ ys) ts l h e = rw (tokens-join x y ys ts) (
    tag_round f r ids _ x (dot ∷ (map token_of (join (y ∷ ys)) ++ ts)) true
      (map token_of (join (y ∷ ys)) ++ ts)
      (read_tag_identifier x _ h.0 (unfold is_alphanumeric in refl)) (advance_if_match-dot _)
    ∙ (parse_prerelease_tag-join f (append_identifier r x)
          (ids ++ make_prerelease_identifier x ∷ []) y ys ts (omega arith) h.1 e
        ∙ ap₂ (λ tag l. success (tag, l) ts) (append_identifier_regroup r x (join (y ∷ ys)) h.0.0)
            (append_assoc ids (make_prerelease_identifier x ∷ [])
              (map make_prerelease_identifier (y ∷ ys)))))

pub parse_build_metadata-join :
    (f : ℕ) (r : List ℕ) (x : List ℕ) (xs : List (List ℕ)) (ts : List Token)
    → length xs < f
    → All IsBuildIdentifier (x ∷ xs)
    → EndsTag ts
    → parse_build_metadata f r (map token_of (join (x ∷ xs)) ++ ts)
      ≡ success (append_identifier r (join (x ∷ xs))) ts
parse_build_metadata-join zero r x xs ts l h e = absurd (omega arith)
parse_build_metadata-join (suc f) r x [] ts l h e =
    metadata_round f r _ x ts false ts
      (read_build_identifier x ts h.0 (EndsTag-EndsIdentifier ts e)) (advance_if_match-end ts e)
    ∙ succeed-end _ ts (EndsTag-EndsIdentifier ts e)
parse_build_metadata-join (suc f) r x (y ∷ ys) ts l h e = rw (tokens-join x y ys ts) (
    metadata_round f r _ x (dot ∷ (map token_of (join (y ∷ ys)) ++ ts)) true
      (map token_of (join (y ∷ ys)) ++ ts)
      (read_build_identifier x _ h.0 (unfold is_alphanumeric in refl)) (advance_if_match-dot _)
    ∙ (parse_build_metadata-join f (append_identifier r x) y ys ts (omega arith) h.1 e
        ∙ ap (λ tag. success tag ts) (append_identifier_regroup r x (join (y ∷ ys)) h.0.0)))
