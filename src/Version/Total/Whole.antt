-- ===== src/Version/Total/Whole.antt =====
-- The parser has an answer on every text.
use plugify.Prelude.{
  ℕ, ◌≡◌, ◌≢◌, refl, ◌∙◌, ap, inl, inr, ◌⊎◌, Option, none, some, List, [], ◌∷◌, arith,
}
use plugify.Version.Types.{Version}
use plugify.Version.Lexer.{
  Token, Scanned, one_character, two_characters, scan_token, push, eol, scan_tokens,
}
use plugify.Version.Parser.{
  Outcome, ErrorCode, invalid_argument, success, failure, past_end, out_of_fuel, ◌>>=◌, consume,
  is_eol, parse_version, parse_tokens, parse, after_scan,
}
use plugify.Version.Total.Streams.{Closed, Defined, succeeded, failed}
use plugify.Version.Total.Loops.{parse_version-Defined}

scan_token-ne-eol :
    (c : ℕ) (next : Option ℕ)
    → (scan_token c next ≢ one_character eol) × (scan_token c next ≢ two_characters eol)
unfolding scan_token
scan_token-ne-eol c next = (λ h. ground arith, λ h. ground arith)

-- What the lexer makes is closed.
abbrev pub ClosedIfAny : Option (List Token) → Type 0
ClosedIfAny none = Unit
ClosedIfAny (some ts) = Closed ts

Closed-push :
    (t : Token) (o : Option (List Token)) → t ≢ eol → ClosedIfAny o → ClosedIfAny (push t o)
Closed-push t none h c = tt
Closed-push t (some []) h c = absurd c
Closed-push t (some (u ∷ ts)) h c = (h, c)

Scanned-cases :
    (s : Scanned)
    → (s ≡ Scanned.failure)
      ⊎ (((t : Token) × (s ≡ one_character t)) ⊎ ((t : Token) × (s ≡ two_characters t)))
Scanned-cases Scanned.failure = inl refl
Scanned-cases (one_character t) = inr (inl (t, refl))
Scanned-cases (two_characters t) = inr (inr (t, refl))

pub scan_tokens-Closed : (text : List ℕ) → ClosedIfAny (scan_tokens text)
unfolding scan_tokens
scan_tokens-Closed [] = refl
scan_tokens-Closed (c ∷ []) = elim (Scanned-cases (scan_token c none)) [
  | inl e ↦ rw (e, scan_tokens) tt
  | inr (inl (t, e)) ↦
      rw (e, scan_tokens) ((λ p. (scan_token-ne-eol c none).0 (e ∙ ap one_character p)), refl)
  | inr (inr (t, e)) ↦
      rw (e, scan_tokens) ((λ p. (scan_token-ne-eol c none).1 (e ∙ ap two_characters p)), refl)
]
scan_tokens-Closed (c ∷ d ∷ rest) = elim (Scanned-cases (scan_token c (some d))) [
  | inl e ↦ rw (e, scan_tokens) tt
  | inr (inl (t, e)) ↦
      rw (e, scan_tokens)
        (Closed-push t (scan_tokens (d ∷ rest))
          (λ p. (scan_token-ne-eol c (some d)).0 (e ∙ ap one_character p))
          (scan_tokens-Closed (d ∷ rest)))
  | inr (inr (t, e)) ↦
      rw (e, scan_tokens)
        (Closed-push t (scan_tokens rest)
          (λ p. (scan_token-ne-eol c (some d)).1 (e ∙ ap two_characters p))
          (scan_tokens-Closed rest))
]

-- The two outcomes that the source has.
abbrev pub Parsed : Outcome Version → Type 0
Parsed o = ((v : Version) × (o ≡ success v [])) ⊎ ((e : ErrorCode) × (o ≡ failure e))

finish-Parsed :
    (o : Outcome Version) {n : ℕ}
    → Defined n o
    → Parsed (o >>= λ (v, rest). consume is_eol rest >>= λ (_, end). success v end)
unfolding consume is_eol
finish-Parsed (success v []) (succeeded c l) = absurd c
finish-Parsed (success v (eol ∷ [])) (succeeded c l) = inl (v, refl)
finish-Parsed (success v (eol ∷ u ∷ ts)) (succeeded c l) = absurd (c.0 refl)
finish-Parsed (success v (t ∷ ts)) (succeeded c l) = inr (invalid_argument, refl)
finish-Parsed (failure e) failed = inr (e, refl)
finish-Parsed past_end d = elim d [ ]
finish-Parsed out_of_fuel d = elim d [ ]

parse_tokens-Parsed : (o : Option (List Token)) → ClosedIfAny o → Parsed (after_scan parse_tokens o)
unfolding parse_tokens
parse_tokens-Parsed none c = inr (invalid_argument, refl)
parse_tokens-Parsed (some ts) c = finish-Parsed (parse_version ts) (parse_version-Defined ts c)

-- On every text the parser either reads the whole of it as a version or reports an error; it never
-- reads behind the last token, and the fuel of its loops never runs out.
pub parse_total : (text : List ℕ) → Parsed (parse text)
unfolding parse
parse_total text = parse_tokens-Parsed (scan_tokens text) (scan_tokens-Closed text)
