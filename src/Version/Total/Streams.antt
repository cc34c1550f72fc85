-- ===== src/Version/Total/Streams.antt =====
-- What a step of the parser leaves of the stream, for the steps that numbers are made of.
use plugify.Prelude.{
  ℕ, ◌+◌, ◌*◌, ◌%◌, ◌^◌, ◌≤◌, ◌≡◌, ◌≢◌, Bool, true, false, inl, inr, List, [], ◌∷◌, arith, leb,
  ◌==◌, if◌then◌else◌, length, Bool-cases,
}
use plugify.Version.Lexer.{Token, eol, digit}
use plugify.Version.Parser.{
  Outcome, ErrorCode, int_max, success, failure, succeed, ◌>>=◌, consume, advance_if_match,
  parse_digits, parse_number,
}

-- A stream that has the end token, and has it nowhere but at the end.
abbrev pub Closed : List Token → Type 0
Closed [] = ⊥
Closed (t ∷ []) = t ≡ eol
Closed (t ∷ u ∷ ts) = (t ≢ eol) × Closed (u ∷ ts)

-- The outcome is one that the source has, and leaves a closed stream of at most n tokens.
pub data Defined {ℓ} {A : Type ℓ} (n : ℕ) : Outcome A → Type ℓ where
  succeeded : {a : A} {ts : List Token} → Closed ts → length ts ≤ n → Defined n (success a ts)
  failed : {e : ErrorCode} → Defined n (failure e)

pub Closed-tail : (t : Token) (ts : List Token) → Closed (t ∷ ts) → t ≢ eol → Closed ts
Closed-tail t [] c h = absurd (h c)
Closed-tail t (u ∷ ts) c h = c.1

pub Defined-mono {ℓ} : {A : Type ℓ} {m n : ℕ} {o : Outcome A} → m ≤ n → Defined m o → Defined n o
Defined-mono h (succeeded c l) = succeeded c (omega arith)
Defined-mono h failed = failed

pub if-Defined {ℓ} :
    {A : Type ℓ} {n : ℕ} (b : Bool) {x y : Outcome A}
    → Defined n x
    → Defined n y
    → Defined n (if b then x else y)
if-Defined true h k = h
if-Defined false h k = k

pub succeed-Defined {ℓ} :
    {A : Type ℓ} (a : A) (ts : List Token) → Closed ts → Defined (length ts) (succeed a ts)
unfolding succeed
succeed-Defined a [] c = absurd c
succeed-Defined a (t ∷ ts) c = succeeded c (omega arith)

pub consume-Defined :
    (is : Token → Bool) (ts : List Token)
    → is eol ≡ false
    → Closed ts
    → Defined (length ts) (consume is ts)
unfolding consume
consume-Defined is [] h c = absurd c
consume-Defined is (t ∷ ts) h c = elim (Bool-cases (is t)) [
  | inl e ↦ rw e (succeeded (Closed-tail t ts c (λ p. cc)) (omega arith))
  | inr e ↦ rw e failed
]

pub advance_if_match-Defined :
    (is : Token → Bool) (ts : List Token)
    → is eol ≡ false
    → Closed ts
    → Defined (length ts) (advance_if_match is ts)
unfolding advance_if_match
advance_if_match-Defined is [] h c = absurd c
advance_if_match-Defined is (t ∷ ts) h c = elim (Bool-cases (is t)) [
  | inl e ↦ rw e (succeeded (Closed-tail t ts c (λ p. cc)) (omega arith))
  | inr e ↦ rw e (succeeded c (omega arith))
]

parse_digits-Defined :
    (r : ℕ) (ts : List Token) → Closed ts → Defined (length ts) (parse_digits r ts)
unfolding parse_digits
parse_digits-Defined r [] c = absurd c
parse_digits-Defined r (digit d ∷ ts) c =
    Defined-mono (omega arith)
      (parse_digits-Defined ((r * 10 + d) % 2 ^ 64) ts (Closed-tail (digit d) ts c (λ p. cc)))
parse_digits-Defined r (t ∷ ts) c = if-Defined (leb r int_max) (succeeded c (omega arith)) failed

-- A number takes a token at least.
pub parse_number-Defined :
    (t : Token) (ts : List Token) → Closed (t ∷ ts) → Defined (length ts) (parse_number (t ∷ ts))
unfolding parse_number
parse_number-Defined (digit d) ts c =
    let rest : Closed ts = Closed-tail (digit d) ts c (λ p. cc) in
    elim (Bool-cases (d == 0)) [
      | inl e ↦ rw e (succeed-Defined 0 ts rest)
      | inr e ↦ rw e (parse_digits-Defined d ts rest)
    ]
parse_number-Defined _ ts c = failed

-- A step that leaves at most m tokens, and then one that keeps to what it is given.
pub bind-Defined {ℓ κ} :
    {A : Type ℓ} {B : Type κ} {m n : ℕ} {o : Outcome A} (f : A × List Token → Outcome B)
    → Defined m o
    → ((a : A) (ts : List Token) → Closed ts → length ts ≤ m → Defined n (f (a, ts)))
    → Defined n (o >>= f)
bind-Defined f (succeeded {a = a} {ts = ts} c l) k = k a ts c l
bind-Defined f failed k = failed
