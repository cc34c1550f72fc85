-- ===== src/Version/Roundtrip/Identifiers.antt =====
-- The loops over the characters of one identifier.
use plugify.Prelude.{
  ℕ, suc, ◌≤◌, ◌≡◌, refl, ◌∙◌, ap, Bool, true, false, ◌&&◌, some, List, [], ◌∷◌, ◌++◌, map, arith,
  leb, if◌then◌else◌, length, All, all_of, append_assoc,
}
use plugify.Version.Lexer.{Token, eol}
use plugify.Version.Parser.{
  success, count_run, is_leading_zero, prerelease_char, build_char, pushed,
  parse_prerelease_identifier, parse_build_identifier, starts_alphanumeric, is_alphanumeric,
  succeed,
}
use plugify.Version.Roundtrip.Lexing.{token_of, is_identifier_char}

abbrev pub IsIdentifierChar : ℕ → Type 0
IsIdentifierChar c = is_identifier_char c ≡ true

abbrev pub is_digit_char : ℕ → Bool
is_digit_char c = leb b'0' c && leb c b'9'

-- https://semver.org, 9: numeric identifiers must not include leading zeroes.
abbrev pub NoLeadingZero : List ℕ → Type 0
NoLeadingZero [] = Unit
NoLeadingZero (c ∷ cs) = c ≡ b'0' → all_of is_digit_char cs ≡ true → cs ≡ []

count_digits : List ℕ → ℕ
count_digits [] = 0
count_digits (c ∷ cs) = if is_digit_char c then suc (count_digits cs) else count_digits cs

count_digits-le : (cs : List ℕ) → count_digits cs ≤ length cs
unfolding count_digits
count_digits-le [] = omega arith
count_digits-le (c ∷ cs) = ground (arith, count_digits-le cs)

count_digits-all : (cs : List ℕ) → count_digits cs ≡ length cs → all_of is_digit_char cs ≡ true
unfolding count_digits
count_digits-all [] h = refl
count_digits-all (c ∷ cs) h = ground (arith, count_digits-all cs, count_digits-le cs)

-- What stands behind an identifier: a token that is not alphanumeric.
abbrev pub EndsIdentifier : List Token → Type 0
EndsIdentifier [] = ⊥
EndsIdentifier (t ∷ ts) = is_alphanumeric t ≡ false

count_run-token_of :
    (c : ℕ) (ts : List Token) (a n : ℕ)
    → IsIdentifierChar c
    → count_run ts ≡ some (a, n)
    → count_run (token_of c ∷ ts) ≡ some (suc a, if is_digit_char c then suc n else n)
unfolding count_run token_of
count_run-token_of c ts a n h e = ground arith

count_run-end : (ts : List Token) → EndsIdentifier ts → count_run ts ≡ some (0, 0)
unfolding count_run is_alphanumeric
count_run-end [] e = absurd e
count_run-end (eol ∷ ts) e = refl
count_run-end (_ ∷ ts) e = ground arith

count_run-identifier :
    (cs : List ℕ) (ts : List Token)
    → All IsIdentifierChar cs
    → EndsIdentifier ts
    → count_run (map token_of cs ++ ts) ≡ some (length cs, count_digits cs)
unfolding count_digits
count_run-identifier [] ts h e = count_run-end ts e
count_run-identifier (c ∷ cs) ts h e =
    count_run-token_of c (map token_of cs ++ ts) (length cs) (count_digits cs) h.0
      (count_run-identifier cs ts h.1 e)

-- The first character of an identifier without a leading zero is accepted, and so is any later one.
prerelease_char-first :
    (c : ℕ) (cs : List ℕ) (ts : List Token)
    → IsIdentifierChar c
    → All IsIdentifierChar cs
    → NoLeadingZero (c ∷ cs)
    → EndsIdentifier ts
    → prerelease_char [] (token_of c) (map token_of cs ++ ts) ≡ pushed c
unfolding prerelease_char is_leading_zero token_of
prerelease_char-first c cs ts h hs z e = ground (
  arith,
  count_run-identifier cs ts hs e,
  count_digits-all cs,
  z,
  ap (length {A = ℕ}) {x = cs} {y = []},
)

prerelease_char-later :
    (r : ℕ) (rs : List ℕ) (c : ℕ) (ts : List Token)
    → IsIdentifierChar c
    → prerelease_char (r ∷ rs) (token_of c) ts ≡ pushed c
unfolding prerelease_char token_of
prerelease_char-later r rs c ts h = ground arith

build_char-token_of : (c : ℕ) → IsIdentifierChar c → build_char (token_of c) ≡ pushed c
unfolding build_char token_of
build_char-token_of c h = ground arith

starts-end : (ts : List Token) → EndsIdentifier ts → starts_alphanumeric ts ≡ false
unfolding starts_alphanumeric
starts-end [] e = absurd e
starts-end (t ∷ ts) e = e

starts-char :
    (c : ℕ) (ts : List Token) → IsIdentifierChar c → starts_alphanumeric (token_of c ∷ ts) ≡ true
unfolding starts_alphanumeric is_alphanumeric token_of
starts-char c ts h = ground arith

pub succeed-end {ℓ} :
    {A : Type ℓ} (a : A) (ts : List Token) → EndsIdentifier ts → succeed a ts ≡ success a ts
unfolding succeed
succeed-end a [] e = absurd e
succeed-end a (t ∷ ts) e = refl

-- One round of each loop, at a character that is accepted.
prerelease_round :
    (result : List ℕ) (c : ℕ) (ts : List Token)
    → prerelease_char result (token_of c) ts ≡ pushed c
    → parse_prerelease_identifier result (token_of c ∷ ts) ≡ (
        if starts_alphanumeric ts
        then parse_prerelease_identifier (result ++ c ∷ []) ts
        else succeed (result ++ c ∷ []) ts)
unfolding parse_prerelease_identifier
prerelease_round result c ts e = rw (e, parse_prerelease_identifier)

build_round :
    (result : List ℕ) (c : ℕ) (ts : List Token)
    → IsIdentifierChar c
    → parse_build_identifier result (token_of c ∷ ts) ≡ (
        if starts_alphanumeric ts
        then parse_build_identifier (result ++ c ∷ []) ts
        else succeed (result ++ c ∷ []) ts)
unfolding parse_build_identifier
build_round result c ts h = rw (build_char-token_of c h, parse_build_identifier)

snoc-append : (result : List ℕ) (c : ℕ) (cs : List ℕ) → (result ++ c ∷ []) ++ cs ≡ result ++ c ∷ cs
snoc-append result c cs = append_assoc result (c ∷ []) cs

-- The rounds behind the first: with a result that is not empty no zero is refused.
prerelease_rounds :
    (r : ℕ) (rs : List ℕ) (c : ℕ) (cs : List ℕ) (ts : List Token)
    → All IsIdentifierChar (c ∷ cs)
    → EndsIdentifier ts
    → parse_prerelease_identifier (r ∷ rs) (token_of c ∷ (map token_of cs ++ ts))
      ≡ success ((r ∷ rs) ++ c ∷ cs) ts
prerelease_rounds r rs c [] ts h e =
    prerelease_round (r ∷ rs) c ts (prerelease_char-later r rs c ts h.0)
    ∙ rw (starts-end ts e) (succeed-end _ ts e)
prerelease_rounds r rs c (d ∷ ds) ts h e =
    prerelease_round (r ∷ rs) c _ (prerelease_char-later r rs c _ h.0)
    ∙ rw (starts-char d (map token_of ds ++ ts) h.1.0) (
        prerelease_rounds r (rs ++ c ∷ []) d ds ts h.1 e
        ∙ ap (λ l. success l ts) (snoc-append (r ∷ rs) c (d ∷ ds)))

-- The loop reads back an identifier without a leading zero, and stops behind it.
pub parse_prerelease_identifier-tokens :
    (c : ℕ) (cs : List ℕ) (ts : List Token)
    → All IsIdentifierChar (c ∷ cs)
    → NoLeadingZero (c ∷ cs)
    → EndsIdentifier ts
    → parse_prerelease_identifier [] (map token_of (c ∷ cs) ++ ts) ≡ success (c ∷ cs) ts
parse_prerelease_identifier-tokens c [] ts h z e =
    prerelease_round [] c ts (prerelease_char-first c [] ts h.0 h.1 z e)
    ∙ rw (starts-end ts e) (succeed-end _ ts e)
parse_prerelease_identifier-tokens c (d ∷ ds) ts h z e =
    prerelease_round [] c _ (prerelease_char-first c (d ∷ ds) ts h.0 h.1 z e)
    ∙ rw (starts-char d (map token_of ds ++ ts) h.1.0) (prerelease_rounds c [] d ds ts h.1 e)

pub parse_build_identifier-tokens :
    (result : List ℕ) (c : ℕ) (cs : List ℕ) (ts : List Token)
    → All IsIdentifierChar (c ∷ cs)
    → EndsIdentifier ts
    → parse_build_identifier result (map token_of (c ∷ cs) ++ ts) ≡ success (result ++ c ∷ cs) ts
parse_build_identifier-tokens result c [] ts h e =
    build_round result c ts h.0 ∙ rw (starts-end ts e) (succeed-end _ ts e)
parse_build_identifier-tokens result c (d ∷ ds) ts h e =
    build_round result c _ h.0
    ∙ rw (starts-char d (map token_of ds ++ ts) h.1.0) (
        parse_build_identifier-tokens (result ++ c ∷ []) d ds ts h.1 e
        ∙ ap (λ l. success l ts) (snoc-append result c (d ∷ ds)))
