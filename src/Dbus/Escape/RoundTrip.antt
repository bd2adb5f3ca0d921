-- ===== src/Dbus/Escape/RoundTrip.antt =====
-- What a string becomes on the bus: plain ASCII, and the same string again at the other end.
use ok_snap.Base.{
  ℕ, ◌/◌, ◌%◌, ◌<◌, ◌≡◌, refl, inl, inr, true, false, some, [], ◌∷◌, ◌++◌, arith, ltb, ◌==◌,
  Bool-cases, All, All-append, Text, IsBytes,
}
use mathlib.Core.Option
use ok_snap.Dbus.Escape.{
  hex_digit, print_hex, escape, escape_byte, isxdigit, hex_value, plain, unescape_from, unescape,
}

isxdigit-hex_digit : (n : ℕ) → n < 16 → isxdigit (hex_digit n) ≡ true
unfolding isxdigit hex_digit
isxdigit-hex_digit n h = ground arith

hex_value-hex_digit : (n : ℕ) → n < 16 → hex_value (hex_digit n) ≡ n
unfolding hex_value hex_digit
hex_value-hex_digit n h = ground arith

print_hex-high : (c : ℕ) → 127 < c → print_hex c ≡ hex_digit (c / 16) ∷ hex_digit (c % 16) ∷ []
unfolding print_hex
print_hex-high c h = ground arith

-- An escaped byte above ASCII is read back whatever follows it.
unescape-hex :
    (c : ℕ) (s : Text)
    → c < 256
    → unescape_from plain (b'\\' ∷ b'x' ∷ hex_digit (c / 16) ∷ hex_digit (c % 16) ∷ s)
      ≡ Option.map (λ out. c ∷ out) (unescape_from plain s)
unfolding unescape_from
unescape-hex c s h = ground (
  arith,
  isxdigit-hex_digit (c / 16) (omega arith),
  isxdigit-hex_digit (c % 16) (omega arith),
  hex_value-hex_digit (c / 16) (omega arith),
  hex_value-hex_digit (c % 16) (omega arith),
)

unescape-backslash :
    (s : Text)
    → unescape_from plain (b'\\' ∷ b'\\' ∷ s)
      ≡ Option.map (λ out. b'\\' ∷ out) (unescape_from plain s)
unfolding unescape_from
unescape-backslash s = refl

unescape-plain :
    (c : ℕ) (s : Text)
    → (c == b'\\') ≡ false
    → unescape_from plain (c ∷ s) ≡ Option.map (λ out. c ∷ out) (unescape_from plain s)
unfolding unescape_from
unescape-plain c s n = rw n

unescape_byte :
    (c : ℕ) (s : Text)
    → c < 256
    → unescape_from plain (escape_byte c ++ s) ≡ Option.map (λ out. c ∷ out) (unescape_from plain s)
unfolding escape_byte
unescape_byte c s h = elim (Bool-cases (c == b'\\')) [
  | inl e ↦ let eq : c ≡ b'\\' = ground arith in rw eq (unescape-backslash s)
  | inr n ↦ elim (Bool-cases (ltb 127 c)) [
    | inl high ↦ rw (n, high, print_hex-high c (ground arith)) (unescape-hex c s h)
    | inr low ↦ rw (n, low) (unescape-plain c s n)
  ]
]

-- Unescaping what escaping made of a text of any bytes gives the text.
pub unescape-escape : (s : Text) → IsBytes s → unescape (escape s) ≡ some s
unfolding unescape escape
unescape-escape [] b = refl
unescape-escape (c ∷ s) b = rw (unescape_byte c (escape s) b.0, unescape-escape s b.1)

escape_byte-IsAscii : (c : ℕ) → c < 256 → All (λ d. d < 128) (escape_byte c)
unfolding escape_byte hex_digit
escape_byte-IsAscii c h = ground arith

-- What escaping makes of a text of any bytes is ASCII.
pub IsAscii-escape : (s : Text) → IsBytes s → All (λ c. c < 128) (escape s)
unfolding escape
IsAscii-escape [] b = tt
IsAscii-escape (c ∷ s) b =
    All-append (λ d. d < 128) (escape_byte c) (escape s) (escape_byte-IsAscii c b.0)
      (IsAscii-escape s b.1)
