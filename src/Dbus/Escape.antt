-- ===== src/Dbus/Escape.antt =====
-- `Hoho::escape` and `Hihi::unescape` of dbus/DBusMessage.cc.
mod RoundTrip
mod Tests
use ok_snap.Base.{
  ℕ, ◌+◌, ◌-◌, ◌*◌, ◌/◌, ◌%◌, Bool, true, false, ◌&&◌, ◌||◌, Option, none, some, [], ◌∷◌, ◌++◌, ltb,
  leb, ◌==◌, if◌then◌else◌, Text,
}
use mathlib.Core.Option

-- One digit of `%x`.
pub hex_digit : ℕ → ℕ
hex_digit n = if ltb n 10 then b'0' + n else b'a' + (n - 10)

-- `%x` of an `unsigned char`.
pub print_hex : ℕ → Text
unfolding hex_digit
print_hex c = if ltb c 16 then hex_digit c ∷ [] else hex_digit (c / 16) ∷ hex_digit (c % 16) ∷ []

pub escape_byte : ℕ → Text
unfolding print_hex
escape_byte c =
    if c == b'\\'
    then b'\\' ∷ b'\\' ∷ []
    else if ltb 127 c
    then b'\\' ∷ b'x' ∷ print_hex c
    else c ∷ []

pub escape : Text → Text
unfolding escape_byte
escape [] = []
escape (c ∷ s) = escape_byte c ++ escape s

pub isxdigit : ℕ → Bool
isxdigit c = (leb b'0' c && leb c b'9') || (leb b'a' c && leb c b'f') || (leb b'A' c && leb c b'F')

-- What `%x` of sscanf reads from one digit.
pub hex_value : ℕ → ℕ
hex_value c = if leb c b'9' then c - b'0' else if leb b'a' c then c - b'a' + 10 else c - b'A' + 10

-- Where the loop stands: at the head of its body, behind a backslash, behind `\x`, and behind the
-- first digit, where it looks whether another one follows.
pub data Mode : Type 0 where
  plain slash first_digit : Mode
  second_digit : ℕ → Mode

-- `none` is the MarshallingException.
pub unescape_from : Mode → Text → Option Text
unfolding isxdigit hex_value
unescape_from plain [] = some []
unescape_from slash [] = none
unescape_from first_digit [] = none
unescape_from (second_digit h) [] = some (hex_value h ∷ [])
unescape_from plain (c ∷ s) =
    if c == b'\\'
    then unescape_from slash s
    else Option.map (λ out. c ∷ out) (unescape_from plain s)
unescape_from slash (c ∷ s) = elim (c == b'\\') [
  | true ↦ Option.map (λ out. b'\\' ∷ out) (unescape_from plain s)
  | false ↦ elim (c == b'x') [ true ↦ unescape_from first_digit s | false ↦ none ]
]
unescape_from first_digit (c ∷ s) = if isxdigit c then unescape_from (second_digit c) s else none
unescape_from (second_digit h) (c ∷ s) = elim (isxdigit c) [
  | true ↦ Option.map (λ out. (hex_value h * 16 + hex_value c) ∷ out) (unescape_from plain s)
  | false ↦ elim (c == b'\\') [
    | true ↦ Option.map (λ out. hex_value h ∷ out) (unescape_from slash s)
    | false ↦ Option.map (λ out. hex_value h ∷ c ∷ out) (unescape_from plain s)
  ]
]

pub unescape : Text → Option Text
unfolding unescape_from
unescape = unescape_from plain
