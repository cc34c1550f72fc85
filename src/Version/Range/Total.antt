-- ===== src/Version/Range/Total.antt =====
-- The parser of sets of ranges ends on every text.
use plugify.Prelude.{
  ℕ, zero, suc, ◌≤◌, ◌≡◌, refl, Bool, true, false, inl, inr, ◌⊎◌, Option, none, some, List, [], ◌∷◌,
  arith, length, Bool-cases,
}
use plugify.Version.Lexer.{Token, range_operator, scan_tokens}
use plugify.Version.Parser.{
  Outcome, ErrorCode, success, failure, past_end, out_of_fuel, invalid_argument, after_scan,
  parse_version,
}
use plugify.Version.Total.Streams.{
  Closed, Defined, succeeded, Closed-tail, Defined-mono, succeed-Defined, advance_if_match-Defined,
  bind-Defined,
}
use plugify.Version.Total.Loops.{parse_version-Shorter}
use plugify.Version.Total.Whole.{ClosedIfAny, scan_tokens-Closed}
use plugify.Version.Range.{RangeComparator}
use plugify.Version.Range.Parser.{
  is_space, is_logical_or, starts_comparator, skip_whitespaces, take_operator,
  parse_range_comparator, more_comparators, parse_range, more_ranges, parse_ranges,
  parse_all_ranges, parse_range_set,
}

skip_whitespaces-Defined : (ts : List Token) → Closed ts → Defined (length ts) (skip_whitespaces ts)
unfolding skip_whitespaces
skip_whitespaces-Defined [] c = absurd c
skip_whitespaces-Defined (t ∷ ts) c = elim (Bool-cases (is_space t)) [
  | inl e ↦ rw e (
      Defined-mono (omega arith)
        (skip_whitespaces-Defined ts (Closed-tail t ts c (λ p. cc (e, p)))))
  | inr e ↦ rw e (succeeded c (omega arith))
]

take_operator-Defined : (ts : List Token) → Closed ts → Defined (length ts) (take_operator ts)
unfolding take_operator
take_operator-Defined [] c = absurd c
take_operator-Defined (range_operator op ∷ ts) c =
    succeeded (Closed-tail (range_operator op) ts c (λ p. cc)) (omega arith)
take_operator-Defined (t ∷ ts) c = succeeded c (omega arith)

version-Shorter :
    (ts : List Token) (n : ℕ) → Closed ts → length ts ≤ suc n → Defined n (parse_version ts)
version-Shorter [] n c l = absurd c
version-Shorter (t ∷ ts) n c l = Defined-mono (omega arith) (parse_version-Shorter t ts c)

comparator-Shorter :
    (ts : List Token) (n : ℕ)
    → Closed ts
    → length ts ≤ suc n
    → Defined n (parse_range_comparator ts)
unfolding parse_range_comparator
comparator-Shorter ts n c l = bind-Defined _ (take_operator-Defined ts c) λ _ ts₁ c₁ l₁.
    bind-Defined _ (skip_whitespaces-Defined ts₁ c₁) λ _ ts₂ c₂ l₂.
      bind-Defined _ (version-Shorter ts₂ n c₂ (omega arith))
        λ _ ts₃ c₃ l₃. Defined-mono l₃ (succeed-Defined _ ts₃ c₃)

more_comparators-Defined :
    (r : RangeComparator) (ts : List Token) (rest : Outcome (List RangeComparator)) (n : ℕ)
    → Closed ts
    → length ts ≤ n
    → Defined n rest
    → Defined n (more_comparators r ts rest)
more_comparators-Defined r [] rest n c l d = absurd c
more_comparators-Defined r (t ∷ ts) rest n c l d = elim (Bool-cases (starts_comparator t)) [
  | inl e ↦ rw e (bind-Defined _ d λ rs end ce le. succeeded ce le)
  | inr e ↦ rw e (succeeded c l)
]

-- A range takes a token at least, and its fuel is enough.
range-Shorter :
    (fuel : ℕ) (ts : List Token) (n : ℕ)
    → Closed ts
    → length ts ≤ fuel
    → length ts ≤ suc n
    → Defined n (parse_range fuel ts)
unfolding parse_range
range-Shorter zero [] n c f l = absurd c
range-Shorter zero (t ∷ ts) n c f l = absurd (omega arith)
range-Shorter (suc fuel) [] n c f l = absurd c
range-Shorter (suc fuel) (t ∷ us) n c f l =
    bind-Defined _ (skip_whitespaces-Defined (t ∷ us) c) λ _ ts₁ c₁ l₁.
      bind-Defined _ (comparator-Shorter ts₁ (length us) c₁ l₁) λ r ts₂ c₂ l₂.
        bind-Defined _ (skip_whitespaces-Defined ts₂ c₂) λ _ ts₃ c₃ l₃.
          more_comparators-Defined r ts₃ (parse_range fuel ts₃) n c₃ (omega arith)
            (range-Shorter fuel ts₃ n c₃ (omega arith) (omega arith))

more_ranges-Defined :
    (range : List RangeComparator) (more : Bool) (ts : List Token)
    (rest : Outcome (List (List RangeComparator))) (n : ℕ)
    → Closed ts
    → length ts ≤ n
    → Defined n rest
    → Defined n (more_ranges range more ts rest)
more_ranges-Defined range true ts rest n c l d =
    bind-Defined _ d λ ranges end ce le. succeeded ce le
more_ranges-Defined range false ts rest n c l d = Defined-mono l (succeed-Defined (range ∷ []) ts c)

ranges-Defined :
    (fuel : ℕ) (ts : List Token) (n : ℕ)
    → Closed ts
    → length ts ≤ fuel
    → length ts ≤ n
    → Defined n (parse_ranges fuel ts)
unfolding parse_ranges
ranges-Defined fuel [] n c f l = absurd c
ranges-Defined zero (t ∷ us) n c f l = absurd (omega arith)
ranges-Defined (suc fuel) (t ∷ us) n c f l =
    bind-Defined _
      (range-Shorter (length (t ∷ us)) (t ∷ us) (length us) c (omega arith) (omega arith))
      λ range ts₁ c₁ l₁. bind-Defined _ (skip_whitespaces-Defined ts₁ c₁) λ _ ts₂ c₂ l₂.
        bind-Defined _ (advance_if_match-Defined is_logical_or ts₂ refl c₂) λ more ts₃ c₃ l₃.
          more_ranges-Defined range more ts₃ (parse_ranges fuel ts₃) n c₃ (omega arith)
            (ranges-Defined fuel ts₃ n c₃ (omega arith) (omega arith))

-- The two outcomes that the source has; the text may go on behind the ranges.
abbrev pub RangesParsed : Outcome (List (List RangeComparator)) → Type 0
RangesParsed o =
    ((ranges : List (List RangeComparator)) × (rest : List Token) × (o ≡ success ranges rest))
    ⊎ ((e : ErrorCode) × (o ≡ failure e))

Defined-RangesParsed :
    (o : Outcome (List (List RangeComparator))) {n : ℕ} → Defined n o → RangesParsed o
Defined-RangesParsed (success ranges rest) d = inl (ranges, rest, refl)
Defined-RangesParsed (failure e) d = inr (e, refl)
Defined-RangesParsed past_end d = elim d [ ]
Defined-RangesParsed out_of_fuel d = elim d [ ]

after_scan-RangesParsed :
    (o : Option (List Token)) → ClosedIfAny o → RangesParsed (after_scan parse_all_ranges o)
after_scan-RangesParsed none c = inr (invalid_argument, refl)
after_scan-RangesParsed (some ts) c =
    Defined-RangesParsed _ (ranges-Defined (length ts) ts (length ts) c (omega arith) (omega arith))

-- On every text the parser of sets of ranges returns ranges or an error; it never reads behind the last
-- token, and the fuel of its loops never runs out.
pub parse_range_set_total : (text : List ℕ) → RangesParsed (parse_range_set text)
unfolding parse_range_set
parse_range_set_total text = after_scan-RangesParsed (scan_tokens text) (scan_tokens-Closed text)
