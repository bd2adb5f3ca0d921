-- ===== src/Files/Status.antt =====
-- The status of a file as a word of flags (`StatusFlags` of snapper/File.h) and as four letters
-- (the end of snapper/File.cc).
pub mod RoundTrip
mod Tests
use ok_snap.Base.{
  ℕ, bit_and, bit_or, bit_xor, Bool, ◌&&◌, ◌||◌, [], ◌∷◌, ltb, ◌==◌, if◌then◌else◌, has, Text,
}

abbrev pub created : ℕ
created = 1

abbrev pub deleted : ℕ
deleted = 2

abbrev pub type : ℕ
type = 4

abbrev pub content : ℕ
content = 8

abbrev pub permissions : ℕ
permissions = 16

abbrev pub user : ℕ
user = 32

abbrev pub group : ℕ
group = 64

first_letter : ℕ → ℕ
first_letter status =
    if has status created
    then b'+'
    else if has status deleted
    then b'-'
    else if has status type
    then b't'
    else if has status content
    then b'c'
    else b'.'

unfoldable pub status_to_string : ℕ → Text
unfolding first_letter
status_to_string status =
    first_letter status
    ∷ (if has status permissions then b'p' else b'.')
    ∷ (if has status user then b'u' else b'.')
    ∷ (if has status group then b'g' else b'.')
    ∷ []

-- The value that the switch on the first character adds.
first_flag : ℕ → ℕ
first_flag c =
    if c == b'+'
    then created
    else if c == b'-'
    then deleted
    else if c == b't'
    then type
    else if c == b'c'
    then content
    else 0

pub or_flag : ℕ → ℕ → ℕ → ℕ
or_flag letter flag c = if c == letter then flag else 0

-- The tests of the length are the patterns.
pub string_to_status : Text → ℕ
unfolding first_flag or_flag
string_to_status [] = 0
string_to_status (a ∷ []) = first_flag a
string_to_status (a ∷ b ∷ []) = bit_or (first_flag a) (or_flag b'p' permissions b)
string_to_status (a ∷ b ∷ c ∷ []) =
    bit_or (bit_or (first_flag a) (or_flag b'p' permissions b)) (or_flag b'u' user c)
string_to_status (a ∷ b ∷ c ∷ d ∷ rest) =
    bit_or (bit_or (bit_or (first_flag a) (or_flag b'p' permissions b)) (or_flag b'u' user c))
      (or_flag b'g' group d)

unfoldable pub invert_status : ℕ → ℕ
invert_status status =
    if has status (bit_or created deleted) then bit_xor status (bit_or created deleted) else status

-- What the comparison of two files yields: one flag at most of the first four.
unfoldable pub is_clean : ℕ → Bool
is_clean status =
    ltb status 128
    && (let kind = bit_and status 15 in
        kind == 0 || kind == created || kind == deleted || kind == type || kind == content)
