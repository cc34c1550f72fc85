-- ===== src/Version/Roundtrip/Numbers.antt =====
-- `parse_number` on the digits that `to_chars` writes. The accumulator wraps at 2 ^ 64.
use plugify.Prelude.{
  ℕ, zero, suc, ◌+◌, ◌*◌, ◌/◌, ◌%◌, ◌^◌, ◌<◌, ◌≡◌, refl, ◌∙◌, ap, Bool, true, ◌||◌, inl, inr, List,
  [], ◌∷◌, arith, ltb, leb, ◌==◌, if◌then◌else◌, All, Bool-cases,
}
use plugify.Version.Lexer.{digit}
use plugify.Version.Parser.{
  parse_number, parse_digits, succeed, success, failure, result_out_of_range, int_max,
}
use plugify.Version.Text.{to_chars, to_chars_loop}
use plugify.Version.Roundtrip.Lexing.{token_of, tokens, IsVersionChar}

token_of-digit : (d : ℕ) → d < 10 → token_of (b'0' + d) ≡ digit d
unfolding token_of
token_of-digit d h = ground arith

to_chars_loop-IsVersionChar :
    (f n : ℕ) (behind : List ℕ)
    → All IsVersionChar behind
    → All IsVersionChar (to_chars_loop f n behind)
unfolding to_chars_loop
to_chars_loop-IsVersionChar zero n behind h = h
to_chars_loop-IsVersionChar (suc f) n behind h =
    let first : IsVersionChar (b'0' + n % 10) = ground arith in
    elim (Bool-cases (ltb n 10)) [
      | inl small ↦ rw small (first, h)
      | inr large ↦ rw large (to_chars_loop-IsVersionChar f (n / 10) _ (first, h))
    ]

pub to_chars-IsVersionChar :
    (n : ℕ) (behind : List ℕ) → All IsVersionChar behind → All IsVersionChar (to_chars n behind)
unfolding to_chars
to_chars-IsVersionChar n behind h = to_chars_loop-IsVersionChar (suc n) n behind h

parse_digits-digit :
    (r d : ℕ) (text : List ℕ)
    → d < 10
    → parse_digits r (tokens ((b'0' + d) ∷ text))
      ≡ parse_digits ((r * 10 + d) % 2 ^ 64) (tokens text)
unfolding parse_digits
parse_digits-digit r d text h = rw (token_of-digit d h)

parse_number-digit :
    (d : ℕ) (text : List ℕ)
    → d < 10
    → parse_number (tokens ((b'0' + d) ∷ text))
      ≡ (if d == 0 then succeed 0 (tokens text) else parse_digits d (tokens text))
unfolding parse_number succeed parse_digits
parse_number-digit d text h = rw (token_of-digit d h)

shift_digit : (n : ℕ) → ((n / 10) % 2 ^ 64 * 10 + n % 10) % 2 ^ 64 ≡ n % 2 ^ 64
shift_digit n = omega arith

parse_number-loop :
    (f n : ℕ) (behind : List ℕ)
    → n < f
    → 0 < n
    → parse_number (tokens (to_chars_loop f n behind)) ≡ parse_digits (n % 2 ^ 64) (tokens behind)
unfolding to_chars_loop
parse_number-loop zero n behind p q = absurd (omega arith)
parse_number-loop (suc f) n behind p q = elim (Bool-cases (ltb n 10)) [
  | inl small ↦ rw small (parse_number-digit (n % 10) behind (omega arith) ∙ ground arith)
  | inr large ↦ rw large (
      parse_number-loop f (n / 10) ((b'0' + n % 10) ∷ behind) (ground arith) (ground arith)
      ∙ (parse_digits-digit ((n / 10) % 2 ^ 64) (n % 10) behind (omega arith)
          ∙ ap (λ r. parse_digits r (tokens behind)) (shift_digit n)))
]

succeed-tokens {ℓ} :
    {A : Type ℓ} (a : A) (text : List ℕ) → succeed a (tokens text) ≡ success a (tokens text)
unfolding succeed
succeed-tokens a [] = refl
succeed-tokens a (c ∷ cs) = refl

-- A text before which a number ends: the end, or a character that separates.
abbrev pub is_mark : ℕ → Bool
is_mark c = c == b'.' || c == b'-' || c == b'+'

abbrev pub EndsNumber : List ℕ → Type 0
EndsNumber [] = Unit
EndsNumber (c ∷ cs) = is_mark c ≡ true

parse_digits-end :
    (r : ℕ) (text : List ℕ)
    → EndsNumber text
    → parse_digits r (tokens text)
      ≡ (if leb r int_max then success r (tokens text) else failure result_out_of_range)
unfolding parse_digits token_of
parse_digits-end r [] e = refl
parse_digits-end r (c ∷ cs) e = ground arith

parse_number-zero :
    (behind : List ℕ) → parse_number (tokens (to_chars_loop 1 0 behind)) ≡ success 0 (tokens behind)
unfolding to_chars_loop
parse_number-zero behind = parse_number-digit 0 behind (omega arith) ∙ succeed-tokens 0 behind

-- The digits of n are read as n modulo 2 ^ 64, and refused if that does not fit an int.
pub parse_number-to_chars :
    (n : ℕ) (behind : List ℕ)
    → EndsNumber behind
    → parse_number (tokens (to_chars n behind)) ≡ (
        if leb (n % 2 ^ 64) int_max
        then success (n % 2 ^ 64) (tokens behind)
        else failure result_out_of_range)
unfolding to_chars
parse_number-to_chars zero behind e = parse_number-zero behind
parse_number-to_chars (suc n) behind e =
    parse_number-loop (suc (suc n)) (suc n) behind (omega arith) (omega arith)
    ∙ parse_digits-end (suc n % 2 ^ 64) behind e
