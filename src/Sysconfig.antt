-- ===== src/Sysconfig.antt =====
-- `AsciiFile` and `SysconfigFile` (snapper/AsciiFile.h and snapper/AsciiFile.cc): the lines of a file
-- with values of keys, and how a value is found and set. `regexec` of the C library is a parameter:
-- what it finds in a C string, by the numbers of the parts of the expression, if it matches. A key
-- goes into the expression as it is.
pub mod Values
pub mod Others
pub mod Saved
mod Tests
use ok_snap.Base.{
  ℕ, Bool, true, false, not, ◌&&◌, ◌||◌, Option, none, some, List, [], ◌∷◌, ◌++◌, ◌==◌,
  if◌then◌else◌, Text, codes, text_eq,
}
use ok_snap.Files.Listing.{c_str}
use ok_snap.Files.Defs.{strip_prefix}

abbrev pub single_quote : ℕ
single_quote = 39

abbrev pub double_quote : ℕ
double_quote = 34

abbrev pub is_blank : ℕ → Bool
is_blank c = (c == b' ') || (c == b'\t')

abbrev pub is_quote : ℕ → Bool
is_quote c = (c == single_quote) || (c == double_quote)

-- `Regex::ws` in front of something else.
unfoldable pub skip_blanks : Text → Text
skip_blanks [] = []
skip_blanks (c ∷ s) = if is_blank c then skip_blanks s else c ∷ s

-- `Regex::ws` up to the end.
unfoldable pub all_blank : Text → Bool
all_blank [] = true
all_blank (c ∷ s) = is_blank c && all_blank s

unfoldable pub no_quotes : Text → Bool
no_quotes [] = true
no_quotes (c ∷ s) = not (is_quote c) && no_quotes s

-- `([^'"]*)\1` behind the quote `q`, and blanks up to the end.
unfoldable pub until_quote : ℕ → Text → Option Text
unfolding all_blank
until_quote q [] = none
until_quote q (c ∷ s) = elim (is_quote c) [
  | true ↦ if (c == q) && all_blank s then some [] else none
  | false ↦ elim (until_quote q s) [ none ↦ none | some value ↦ some (c ∷ value) ]
]

-- What stands behind the `=`: in quotes of one kind, or without any. The longest match of a value
-- without quotes takes the blanks behind it.
unfoldable pub value_in : Text → Option Text
unfolding until_quote no_quotes
value_in [] = some []
value_in (c ∷ s) = elim (is_quote c) [
  | true ↦ until_quote c s
  | false ↦ if no_quotes s then some (c ∷ s) else none
]

-- What the regular expression of a key means where the key matches itself only, and what it captures
-- as the value.
unfoldable pub match_line : Text → Text → Option Text
unfolding skip_blanks value_in
match_line key line = elim (strip_prefix (key ++ b'=' ∷ []) (skip_blanks line)) [
  | none ↦ none
  | some rest ↦ value_in rest
]

-- `key="value"`
unfoldable pub value_line : Text → Text → Text
value_line key value = key ++ b'=' ∷ double_quote ∷ (value ++ double_quote ∷ [])

-- What `regexec` gives for an expression and a C string: the captured parts by their numbers.
abbrev pub Regexec : Type 0
Regexec = Text → Text → Option (ℕ → Text)

-- `'^' + Regex::ws + key + '=' + "(['\"]?)([^'\"]*)\\1" + Regex::ws + '$'`
unfoldable pub pattern : Text → Text
pattern key =
    codes "^[ \t]*"
    ++ (key
        ++ (codes "=(["
            ++ single_quote
              ∷ double_quote
              ∷ (codes "]?)([^"
                  ++ single_quote ∷ double_quote ∷ (codes "]*)" ++ b'\\' ∷ codes "1[ \t]*$"))))

-- `cap(2)`, if there is a match.
unfoldable pub second_part : Option (ℕ → Text) → Option Text
second_part none = none
second_part (some part) = some (part 2)

module _ (regexec : Regexec) where
  -- `Regex::match` on a line, and the part that the callers take.
  unfoldable pub find_in_line : Text → Text → Option Text
  unfolding pattern c_str second_part
  find_in_line key line = second_part (regexec (pattern key) (c_str line))

  unfoldable pub set_value : Text → Text → List Text → List Text
  unfolding find_in_line value_line
  set_value key value [] = value_line key value ∷ []
  set_value key value (line ∷ lines) = elim (find_in_line key line) [
    | some old ↦ value_line key value ∷ lines
    | none ↦ line ∷ set_value key value lines
  ]

  unfoldable pub get_value : Text → List Text → Option Text
  unfolding find_in_line
  get_value key [] = none
  get_value key (line ∷ lines) = elim (find_in_line key line) [
    | some value ↦ some value
    | none ↦ get_value key lines
  ]

  unfoldable pub set_bool : Text → Bool → List Text → List Text
  unfolding set_value
  set_bool key value = set_value key (if value then codes "yes" else codes "no")

  unfoldable pub get_bool : Text → List Text → Option Bool
  unfolding get_value text_eq
  get_bool key lines = elim (get_value key lines) [
    | none ↦ none
    | some tmp ↦ some (text_eq tmp (codes "yes"))
  ]

-- What `AsciiFile::save` writes.
unfoldable pub print_lines : List Text → Text
print_lines [] = []
print_lines (line ∷ lines) = line ++ b'\n' ∷ print_lines lines
