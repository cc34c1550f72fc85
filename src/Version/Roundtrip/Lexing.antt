-- ===== src/Version/Roundtrip/Lexing.antt =====
-- The lexer on the characters that a version's text is made of.
use plugify.Prelude.{
  ℕ, ◌-◌, ◌≡◌, refl, Bool, true, ◌&&◌, ◌||◌, Option, none, some, List, [], ◌∷◌, ◌++◌, map, arith,
  leb, ◌==◌, if◌then◌else◌, All,
}
use plugify.Version.Lexer.{
  Token, eol, dot, plus, hyphen, letter, digit, scan_token, one_character, scan_tokens,
}

-- A character of an identifier.
abbrev pub is_identifier_char : ℕ → Bool
is_identifier_char c =
    c == b'-'
    || (leb b'0' c && leb c b'9')
    || (leb b'A' c && leb c b'Z')
    || (leb b'a' c && leb c b'z')

abbrev pub IsVersionChar : ℕ → Type 0
IsVersionChar c = (is_identifier_char c || c == b'.' || c == b'+') ≡ true

unfoldable pub token_of : ℕ → Token
token_of c =
    if c == b'.'
    then dot
    else if c == b'-'
    then hyphen
    else if c == b'+'
    then plus
    else if leb b'0' c && leb c b'9'
    then digit (c - b'0')
    else letter c

scan_token-token_of :
    (c : ℕ) (next : Option ℕ) → IsVersionChar c → scan_token c next ≡ one_character (token_of c)
unfolding scan_token token_of
scan_token-token_of c next h = ground arith

-- The tokens of such a text.
abbrev pub tokens : List ℕ → List Token
tokens text = map token_of text ++ eol ∷ []

pub scan_tokens-tokens :
    (text : List ℕ) → All IsVersionChar text → scan_tokens text ≡ some (tokens text)
unfolding scan_tokens
scan_tokens-tokens [] h = refl
scan_tokens-tokens (c ∷ []) h = rw (scan_token-token_of c none h.0, scan_tokens)
scan_tokens-tokens (c ∷ d ∷ rest) h =
    rw (scan_token-token_of c (some d) h.0, scan_tokens, scan_tokens-tokens (d ∷ rest) h.1)
