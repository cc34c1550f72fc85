-- ===== src/Version/Total/Loops.antt =====
-- What the loops over identifiers leave of the stream, and what the whole of a version leaves.
use plugify.Prelude.{
  ℕ, zero, suc, ◌≤◌, ◌≡◌, refl, inl, inr, ◌⊎◌, some, List, [], ◌∷◌, ◌++◌, arith, length,
}
use plugify.Version.Types.{PrereleaseIdentifier}
use plugify.Version.Lexer.{Token, eol, hyphen, letter, digit}
use plugify.Version.Parser.{
  parse_number, count_run, prerelease_char, build_char, starts_alphanumeric, is_dot, is_hyphen,
  is_plus, parse_prerelease_identifier, parse_build_identifier, parse_prerelease_tag,
  parse_build_metadata, Pushed, pushed, refused, read_past, is_leading_zero, parse_optional_tag,
  parse_optional_metadata, parse_version,
}
use plugify.Version.Total.Streams.{
  Closed, Defined, succeeded, failed, Closed-tail, Defined-mono, if-Defined, succeed-Defined,
  consume-Defined, advance_if_match-Defined, parse_number-Defined, bind-Defined,
}

count_run-Defined : (ts : List Token) → Closed ts → (p : ℕ × ℕ) × (count_run ts ≡ some p)
unfolding count_run
count_run-Defined [] c = absurd c
count_run-Defined (digit d ∷ ts) c =
    let rest = count_run-Defined ts (Closed-tail (digit d) ts c (λ p. cc)) in
    ((suc rest.0.0, suc rest.0.1), ground arith)
count_run-Defined (hyphen ∷ ts) c =
    let rest = count_run-Defined ts (Closed-tail hyphen ts c (λ p. cc)) in
    ((suc rest.0.0, rest.0.1), ground arith)
count_run-Defined (letter l ∷ ts) c =
    let rest = count_run-Defined ts (Closed-tail (letter l) ts c (λ p. cc)) in
    ((suc rest.0.0, rest.0.1), ground arith)
count_run-Defined (_ ∷ ts) c = ((0, 0), refl)

abbrev Character : Pushed → Type 0
Character (pushed c) = Unit
Character refused = Unit
Character read_past = ⊥

prerelease_char-Defined :
    (result : List ℕ) (t : Token) (ts : List Token)
    → Closed (t ∷ ts)
    → Character (prerelease_char result t ts)
unfolding prerelease_char is_leading_zero
prerelease_char-Defined result hyphen ts c = tt
prerelease_char-Defined result (letter l) ts c = tt
prerelease_char-Defined [] (digit d) ts c =
    let run = count_run-Defined ts (Closed-tail (digit d) ts c (λ p. cc)) in ground arith
prerelease_char-Defined (r ∷ rs) (digit d) ts c = tt
prerelease_char-Defined result _ ts c = tt

-- A character that is taken is not the end token, so the stream goes on.
prerelease_char-rest :
    (result : List ℕ) (t : Token) (ts : List Token) (x : ℕ)
    → Closed (t ∷ ts)
    → prerelease_char result t ts ≡ pushed x
    → Closed ts
unfolding prerelease_char
prerelease_char-rest result eol ts x c e = cc
prerelease_char-rest result t ts x c e = Closed-tail t ts c (λ p. cc)

build_char-Defined : (t : Token) → Character (build_char t)
unfolding build_char
build_char-Defined hyphen = tt
build_char-Defined _ = tt

build_char-rest :
    (t : Token) (ts : List Token) (x : ℕ) → Closed (t ∷ ts) → build_char t ≡ pushed x → Closed ts
unfolding build_char
build_char-rest eol ts x c e = cc
build_char-rest t ts x c e = Closed-tail t ts c (λ p. cc)

Pushed-cases : (p : Pushed) → Character p → (p ≡ refused) ⊎ ((x : ℕ) × (p ≡ pushed x))
Pushed-cases (pushed x) h = inr (x, refl)
Pushed-cases refused h = inl refl
Pushed-cases read_past h = absurd h

-- An identifier takes a token at least.
prerelease_identifier-Defined :
    (t : Token) (ts : List Token) (result : List ℕ)
    → Closed (t ∷ ts)
    → Defined (length ts) (parse_prerelease_identifier result (t ∷ ts))
unfolding parse_prerelease_identifier
prerelease_identifier-Defined t [] result c =
    elim (Pushed-cases (prerelease_char result t []) (prerelease_char-Defined result t [] c)) [
      | inl e ↦ rw (e, parse_prerelease_identifier) failed
      | inr (x, e) ↦ absurd (prerelease_char-rest result t [] x c e)
    ]
prerelease_identifier-Defined t (u ∷ ts) result c =
    elim (Pushed-cases (prerelease_char result t (u ∷ ts))
      (prerelease_char-Defined result t (u ∷ ts) c)) [
        | inl e ↦ rw (e, parse_prerelease_identifier) failed
        | inr (x, e) ↦
            rw (e, parse_prerelease_identifier)
              (if-Defined (starts_alphanumeric (u ∷ ts))
                (Defined-mono (omega arith) (
                  prerelease_identifier-Defined u ts (result ++ x ∷ [])
                    (prerelease_char-rest result t (u ∷ ts) x c e)))
                (succeed-Defined _ (u ∷ ts) (prerelease_char-rest result t (u ∷ ts) x c e)))
      ]

build_identifier-Defined :
    (t : Token) (ts : List Token) (result : List ℕ)
    → Closed (t ∷ ts)
    → Defined (length ts) (parse_build_identifier result (t ∷ ts))
unfolding parse_build_identifier
build_identifier-Defined t [] result c = elim (Pushed-cases (build_char t) (build_char-Defined t)) [
  | inl e ↦ rw (e, parse_build_identifier) failed
  | inr (x, e) ↦ absurd (build_char-rest t [] x c e)
]
build_identifier-Defined t (u ∷ ts) result c =
    elim (Pushed-cases (build_char t) (build_char-Defined t)) [
      | inl e ↦ rw (e, parse_build_identifier) failed
      | inr (x, e) ↦
          rw (e, parse_build_identifier)
            (if-Defined (starts_alphanumeric (u ∷ ts))
              (Defined-mono (omega arith) (
                build_identifier-Defined u ts (result ++ x ∷ [])
                  (build_char-rest t (u ∷ ts) x c e)))
              (succeed-Defined _ (u ∷ ts) (build_char-rest t (u ∷ ts) x c e)))
    ]

-- A round takes an identifier, so the tokens left are fewer than before.
parse_prerelease_tag-Defined :
    (fuel : ℕ) (result : List ℕ) (ids : List PrereleaseIdentifier) (ts : List Token)
    → Closed ts
    → length ts ≤ fuel
    → Defined fuel (parse_prerelease_tag fuel result ids ts)
unfolding parse_prerelease_tag
parse_prerelease_tag-Defined zero result ids [] c l = absurd c
parse_prerelease_tag-Defined zero result ids (t ∷ ts) c l = absurd (omega arith)
parse_prerelease_tag-Defined (suc fuel) result ids [] c l = absurd c
parse_prerelease_tag-Defined (suc fuel) result ids (t ∷ ts) c l =
    bind-Defined _ (prerelease_identifier-Defined t ts [] c) λ x behind cb lb.
      bind-Defined _ (advance_if_match-Defined is_dot behind refl cb) λ more rest cr lr.
        if-Defined more
          (Defined-mono (omega arith) (parse_prerelease_tag-Defined fuel _ _ rest cr (omega arith)))
          (Defined-mono (omega arith) (succeed-Defined _ rest cr))

parse_build_metadata-Defined :
    (fuel : ℕ) (result : List ℕ) (ts : List Token)
    → Closed ts
    → length ts ≤ fuel
    → Defined fuel (parse_build_metadata fuel result ts)
unfolding parse_build_metadata
parse_build_metadata-Defined zero result [] c l = absurd c
parse_build_metadata-Defined zero result (t ∷ ts) c l = absurd (omega arith)
parse_build_metadata-Defined (suc fuel) result [] c l = absurd c
parse_build_metadata-Defined (suc fuel) result (t ∷ ts) c l =
    bind-Defined _ (build_identifier-Defined t ts [] c) λ x behind cb lb.
      bind-Defined _ (advance_if_match-Defined is_dot behind refl cb) λ more rest cr lr.
        if-Defined more
          (Defined-mono (omega arith) (parse_build_metadata-Defined fuel _ rest cr (omega arith)))
          (Defined-mono (omega arith) (succeed-Defined _ rest cr))

parse_optional_tag-Defined :
    (ts : List Token) → Closed ts → Defined (length ts) (parse_optional_tag ts)
unfolding parse_optional_tag
parse_optional_tag-Defined ts c =
    bind-Defined _ (advance_if_match-Defined is_hyphen ts refl c) λ more rest cr lr.
      if-Defined more
        (Defined-mono lr (parse_prerelease_tag-Defined (length rest) [] [] rest cr (omega arith)))
        (succeeded cr lr)

parse_optional_metadata-Defined :
    (ts : List Token) → Closed ts → Defined (length ts) (parse_optional_metadata ts)
unfolding parse_optional_metadata
parse_optional_metadata-Defined ts c =
    bind-Defined _ (advance_if_match-Defined is_plus ts refl c) λ more rest cr lr.
      if-Defined more
        (Defined-mono lr (parse_build_metadata-Defined (length rest) [] rest cr (omega arith)))
        (succeeded cr lr)

number-Defined : (ts : List Token) → Closed ts → Defined (length ts) (parse_number ts)
number-Defined [] c = absurd c
number-Defined (t ∷ ts) c = Defined-mono (omega arith) (parse_number-Defined t ts c)

-- A version takes a token at least.
pub parse_version-Shorter :
    (t : Token) (ts : List Token) → Closed (t ∷ ts) → Defined (length ts) (parse_version (t ∷ ts))
unfolding parse_version
parse_version-Shorter t ts c = bind-Defined _ (parse_number-Defined t ts c) λ _ ts₁ c₁ l₁.
    bind-Defined _ (consume-Defined is_dot ts₁ refl c₁) λ _ ts₂ c₂ l₂.
      bind-Defined _ (number-Defined ts₂ c₂) λ _ ts₃ c₃ l₃.
        bind-Defined _ (consume-Defined is_dot ts₃ refl c₃) λ _ ts₄ c₄ l₄.
          bind-Defined _ (number-Defined ts₄ c₄) λ _ ts₅ c₅ l₅.
            bind-Defined _ (parse_optional_tag-Defined ts₅ c₅) λ _ ts₆ c₆ l₆.
              bind-Defined _ (parse_optional_metadata-Defined ts₆ c₆)
                λ _ ts₇ c₇ l₇. succeeded c₇ (omega arith)

pub parse_version-Defined : (ts : List Token) → Closed ts → Defined (length ts) (parse_version ts)
parse_version-Defined [] c = absurd c
parse_version-Defined (t ∷ ts) c = Defined-mono (omega arith) (parse_version-Shorter t ts c)
