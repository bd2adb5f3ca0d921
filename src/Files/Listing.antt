-- ===== src/Files/Listing.antt =====
-- The file lists `filelist-<num>.txt` that `Comparison::save` writes and `Comparison::load` reads
-- (snapper/Comparison.cc), and `AsciiFileReader::getline` (snapper/AsciiFile.cc).
pub mod RoundTrip
mod Tests
use ok_snap.Base.{
  ℕ, Bool, true, false, Option, none, some, List, [], ◌∷◌, ◌++◌, map, ◌==◌, if◌then◌else◌, Text,
}
use ok_snap.Files.Status.{status_to_string, string_to_status, invert_status}
use ok_snap.Files.Defs.{File, file, sort}

-- A `%s` writes the text up to its first null byte.
unfoldable pub c_str : Text → Text
c_str [] = []
c_str (c ∷ s) = if c == 0 then [] else c ∷ c_str s

abbrev pub turn : Bool → ℕ → ℕ
turn invert status = if invert then invert_status status else status

pub print_line : Bool → File → Text
unfolding c_str
print_line invert f =
    status_to_string (turn invert f.pre_to_post_status) ++ b' ' ∷ (c_str f.name ++ b'\n' ∷ [])

-- The loop of `Comparison::save`.
unfoldable pub print_list : Bool → List File → Text
unfolding print_line
print_list invert [] = []
print_list invert (f ∷ fs) = print_line invert f ++ print_list invert fs

on_first : ℕ → List Text → List Text
on_first c [] = (c ∷ []) ∷ []
on_first c (l ∷ ls) = (c ∷ l) ∷ ls

-- A last line need not end in a newline.
unfoldable pub split_lines : Text → List Text
unfolding on_first
split_lines [] = []
split_lines (c ∷ s) = if c == b'\n' then [] ∷ split_lines s else on_first c (split_lines s)

-- What the calls of `getline` return for a file. `string(buffer, 0, n)` makes a string of the C string
-- first, which ends at the first null byte.
unfoldable pub get_lines : Text → List Text
unfolding split_lines c_str
get_lines s = map c_str (split_lines s)

-- The text before the first space and the text behind it.
pub split_space : Text → Option (Text × Text)
split_space [] = none
split_space (c ∷ s) = elim (c == b' ') [
  | true ↦ some ([], s)
  | false ↦ elim (split_space s) [ none ↦ none | some (a, b) ↦ some (c ∷ a, b) ]
]

pub parse_line : Bool → Text → Option File
unfolding split_space
parse_line invert line = elim (split_space line) [
  | none ↦ none
  | some (letters, name) ↦ some (file name (turn invert (string_to_status letters)))
]

-- The loop of `Comparison::load`: a line without a space is passed over.
pub parse_lines : Bool → List Text → List File
unfolding parse_line
parse_lines invert [] = []
parse_lines invert (l ∷ ls) =
    let rest = parse_lines invert ls in
    elim (parse_line invert l) [ none ↦ rest | some f ↦ f ∷ rest ]

unfoldable pub parse_list : Bool → Text → List File
unfolding get_lines parse_lines
parse_list invert s = sort (parse_lines invert (get_lines s))
