-- ===== src/Version/Parser/Stream.antt =====
-- include/plg/version.hpp: `token_stream`, and the outcome of a step that reads it.
use plugify.Prelude.{Bool, true, false, List, [], ◌∷◌, if◌then◌else◌}
use plugify.Version.Lexer.{Token, dot, plus, hyphen, letter, digit}

pub data ErrorCode : Type 0 where
  invalid_argument result_out_of_range : ErrorCode

pub data Outcome {ℓ} (A : Type ℓ) : Type ℓ where
  success : A → List Token → Outcome A
  failure : ErrorCode → Outcome A
  past_end out_of_fuel : Outcome A

infixl 5 ◌>>=◌
abbrev pub ◌>>=◌ {ℓ κ} :
    {A : Type ℓ} {B : Type κ} → Outcome A → (A × List Token → Outcome B) → Outcome B
success a ts >>= f = f (a, ts)
failure e >>= f = failure e
past_end >>= f = past_end
out_of_fuel >>= f = out_of_fuel

-- `success(stream_.peek().lexeme)`: the peek reads the current token.
unfoldable pub succeed {ℓ} : {A : Type ℓ} → A → List Token → Outcome A
succeed a [] = past_end
succeed a (t ∷ ts) = success a (t ∷ ts)

unfoldable pub advance : List Token → Outcome Token
advance [] = past_end
advance (t ∷ ts) = success t ts

unfoldable pub is_alphanumeric : Token → Bool
is_alphanumeric hyphen = true
is_alphanumeric (letter c) = true
is_alphanumeric (digit d) = true
is_alphanumeric _ = false

unfoldable pub is_dot : Token → Bool
is_dot dot = true
is_dot _ = false

unfoldable pub is_hyphen : Token → Bool
is_hyphen hyphen = true
is_hyphen _ = false

unfoldable pub is_plus : Token → Bool
is_plus plus = true
is_plus _ = false

-- `consume(type)`, with the failure that each caller makes of a mismatch.
unfoldable pub consume : (Token → Bool) → List Token → Outcome (Unit {0})
consume is [] = past_end
consume is (t ∷ ts) = if is t then success tt ts else failure invalid_argument

-- `advance_if_match(type)`: whether the current token was taken.
unfoldable pub advance_if_match : (Token → Bool) → List Token → Outcome Bool
advance_if_match is [] = past_end
advance_if_match is (t ∷ ts) = if is t then success true ts else success false (t ∷ ts)
