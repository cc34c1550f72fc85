-- ===== src/Version/Lexer.antt =====
-- include/plg/version.hpp: `token` and `lexer`. A token's type and the value of its variant are one
-- constructor with its argument. The pointers that say where an error stands are not modelled.
use plugify.Prelude.{
  ℕ, ◌-◌, Bool, false, ◌&&◌, ◌||◌, Option, none, some, List, [], ◌∷◌, leb, ◌==◌, if◌then◌else◌,
}

pub data RangeOperator : Type 0 where
  less less_or_equal greater greater_or_equal equal : RangeOperator

pub data Token : Type 0 where
  eol space dot plus hyphen logical_or : Token
  letter : ℕ → Token
  digit : ℕ → Token
  range_operator : RangeOperator → Token

unfoldable pub is_digit : ℕ → Bool
is_digit c = leb b'0' c && leb c b'9'

unfoldable pub is_letter : ℕ → Bool
is_letter c = leb b'A' c && leb c b'Z' || leb b'a' c && leb c b'z'

unfoldable pub to_digit : ℕ → ℕ
to_digit c = c - b'0'

-- The characters that the switch of `scan_token` names come before digits and letters.
unfoldable pub plain_token : ℕ → Option Token
unfolding is_digit is_letter to_digit
plain_token c =
    if c == b' '
    then some space
    else if c == b'.'
    then some dot
    else if c == b'-'
    then some hyphen
    else if c == b'+'
    then some plus
    else if c == b'='
    then some (range_operator equal)
    else if is_digit c
    then some (digit (to_digit c))
    else if is_letter c
    then some (letter c)
    else none

-- `advance_if_match(c)` of the lexer: whether the next character is c.
unfoldable pub next_is : ℕ → Option ℕ → Bool
next_is c none = false
next_is c (some d) = d == c

pub data Scanned : Type 0 where
  failure : Scanned
  one_character : Token → Scanned
  two_characters : Token → Scanned

abbrev pub scanned_plain : Option Token → Scanned
scanned_plain none = failure
scanned_plain (some t) = one_character t

-- `scan_token` on a character and the one behind it.
unfoldable pub scan_token : ℕ → Option ℕ → Scanned
unfolding next_is plain_token
scan_token c next =
    if c == b'|'
    then (if next_is b'|' next then two_characters logical_or else failure)
    else if c == b'<'
    then (if next_is b'=' next
        then two_characters (range_operator less_or_equal)
        else one_character (range_operator less))
    else if c == b'>'
    then (if next_is b'=' next
        then two_characters (range_operator greater_or_equal)
        else one_character (range_operator greater))
    else scanned_plain (plain_token c)

abbrev pub push : Token → Option (List Token) → Option (List Token)
push t none = none
push t (some ts) = some (t ∷ ts)

-- `scan_tokens`: the tokens of a text with `eol` behind them, or none where a character is refused.
unfoldable pub scan_tokens : List ℕ → Option (List Token)
unfolding scan_token
scan_tokens [] = some (eol ∷ [])
scan_tokens (c ∷ []) = elim (scan_token c none) [
  | failure ↦ none
  | one_character t ↦ some (t ∷ eol ∷ [])
  | two_characters t ↦ some (t ∷ eol ∷ [])
]
scan_tokens (c ∷ d ∷ rest) = elim (scan_token c (some d)) [
  | failure ↦ none
  | one_character t ↦ push t (scan_tokens (d ∷ rest))
  | two_characters t ↦ push t (scan_tokens rest)
]
