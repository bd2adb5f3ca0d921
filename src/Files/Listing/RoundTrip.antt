-- ===== src/Files/Listing/RoundTrip.antt =====
-- A file list that is written is read back, in its own direction and in the other one.
use ok_snap.Base.{
  ℕ, ◌≡◌, refl, ap, ◌∙◌, ◌≢◌, Bool, true, false, not, some, List, [], ◌∷◌, ◌++◌, map, append_assoc,
  arith, All, Text,
}
use ok_snap.Files.Defs.Sorted.{Before, IsSorted, sort-eq_of_IsSorted}
use ok_snap.Files.Status.RoundTrip.{
  status_letters, invert_status_twice, is_clean-invert_status, string_to_status-status_to_string,
}
use ok_snap.Files.Status.{is_clean, status_to_string, string_to_status, invert_status}
use ok_snap.Files.Defs.{sort, File, file}
use ok_snap.Files.Listing.{
  c_str, on_first, get_lines, parse_line, print_line, split_space, turn, parse_lines, parse_list,
  print_list, split_lines,
}

-- What a name can hold to be written on a line of its own.
abbrev pub IsName : Text → Type 0
IsName = All (λ c. (c ≢ 0) × (c ≢ b'\n'))

-- An entry as a comparison makes it, under a name that a line can hold.
pub record IsListable (f : File) : Type 0 where
  pub named : IsName f.name
  pub clean : is_clean f.pre_to_post_status ≡ true
  pub new : f ≡ file f.name f.pre_to_post_status

pub c_str-eq_of_IsName : (s : Text) → IsName s → c_str s ≡ s
unfolding c_str
c_str-eq_of_IsName [] h = refl
c_str-eq_of_IsName (c ∷ s) h = ground (arith, c_str-eq_of_IsName s h.1, h.0.0)

split_lines-line :
    (l rest : Text) → IsName l → split_lines (l ++ b'\n' ∷ rest) ≡ l ∷ split_lines rest
unfolding split_lines on_first
split_lines-line [] rest h = refl
split_lines-line (c ∷ l) rest h = ground (arith, split_lines-line l rest h.1, h.0.1)

pub get_lines-line : (l rest : Text) → IsName l → get_lines (l ++ b'\n' ∷ rest) ≡ l ∷ get_lines rest
unfolding get_lines
get_lines-line l rest h = rw (split_lines-line l rest h, c_str-eq_of_IsName l h)

abbrev Letters : Text → Type 0
Letters = All (λ c. (c ≢ 0) × (c ≢ b'\n') × (c ≢ b' '))

split_space_lem : (l rest : Text) → Letters l → split_space (l ++ b' ' ∷ rest) ≡ some (l, rest)
unfolding split_space
split_space_lem [] rest h = refl
split_space_lem (c ∷ l) rest h = ground (arith, split_space_lem l rest h.1, h.0.2)

IsName-line : (l s : Text) → Letters l → IsName s → IsName (l ++ b' ' ∷ s)
IsName-line [] s h n = ((λ e. omega arith, λ e. omega arith), n)
IsName-line (c ∷ l) s h n = ((h.0.0, h.0.1), IsName-line l s h.1 n)

regroup :
    (a b rest : Text) → (a ++ b' ' ∷ (b ++ b'\n' ∷ [])) ++ rest ≡ (a ++ b' ' ∷ b) ++ b'\n' ∷ rest
regroup a b rest = simp append_assoc

get_lines-print_line :
    (inv : Bool) (f : File) (rest : Text)
    → IsName f.name
    → get_lines (print_line inv f ++ rest)
      ≡ (status_to_string (turn inv f.pre_to_post_status) ++ b' ' ∷ f.name) ∷ get_lines rest
unfolding print_line
get_lines-print_line inv f rest n =
    let letters = status_to_string (turn inv f.pre_to_post_status) in
    let line = letters ++ b' ' ∷ f.name in
    rw (c_str-eq_of_IsName f.name n) (
      ap get_lines (regroup letters f.name rest)
      ∙ get_lines-line line rest
          (IsName-line letters f.name (status_letters (turn inv f.pre_to_post_status)) n))

parse_line-print :
    (out inv : Bool) (f : File)
    → parse_line inv (status_to_string (turn out f.pre_to_post_status) ++ b' ' ∷ f.name)
      ≡ some (
          file f.name
            (turn inv (string_to_status (status_to_string (turn out f.pre_to_post_status)))))
unfolding parse_line
parse_line-print out inv f = rw (
  split_space_lem (status_to_string (turn out f.pre_to_post_status)) f.name
      (status_letters (turn out f.pre_to_post_status)),
  parse_line,
)

turn-is_clean : (out : Bool) (s : ℕ) → is_clean s ≡ true → is_clean (turn out s) ≡ true
turn-is_clean true s h = is_clean-invert_status s h
turn-is_clean false s h = h

abbrev twice_turned : Bool → Bool → File → File
twice_turned out inv f = file f.name (turn inv (turn out f.pre_to_post_status))

parse_lines-print :
    (out inv : Bool) (fs : List File)
    → All IsListable fs
    → parse_lines inv (get_lines (print_list out fs)) ≡ map (twice_turned out inv) fs
unfolding print_list parse_lines get_lines
parse_lines-print out inv [] h = refl
parse_lines-print out inv (f ∷ fs) h =
    let letters =
      string_to_status-status_to_string (turn out f.pre_to_post_status)
        (turn-is_clean out f.pre_to_post_status h.0.clean) in
    rw (
      get_lines-print_line out f (print_list out fs) h.0.named,
      parse_lines,
      parse_line-print out inv f,
      letters,
      parse_lines-print out inv fs h.1,
    )

-- The same differences seen from the other snapshot.
abbrev pub inverted : File → File
inverted f = file f.name (invert_status f.pre_to_post_status)

same_twice : (inv : Bool) (fs : List File) → All IsListable fs → map (twice_turned inv inv) fs ≡ fs
same_twice inv [] h = refl
same_twice false (f ∷ fs) h = cc (same_twice false fs h.1, h.0.new)
same_twice true (f ∷ fs) h =
    cc (same_twice true fs h.1, h.0.new, invert_status_twice f.pre_to_post_status h.0.clean)

other_once : (inv : Bool) (fs : List File) → map (twice_turned inv (not inv)) fs ≡ map inverted fs
other_once true fs = refl
other_once false fs = refl

inverted-Before : (a : Text) (fs : List File) → Before a fs → Before a (map inverted fs)
inverted-Before a [] h = tt
inverted-Before a (f ∷ fs) h = (h.0, inverted-Before a fs h.1)

inverted-IsSorted : (fs : List File) → IsSorted fs → IsSorted (map inverted fs)
inverted-IsSorted [] h = tt
inverted-IsSorted (f ∷ fs) h = (inverted-Before f.name fs h.0, inverted-IsSorted fs h.1)

-- Sorted entries whose names have neither a newline nor a null byte, with a status that a comparison
-- gives and nothing but that status set, are read back, in the direction in which they were saved, as
-- they were.
pub parse_list-print_list :
    (inv : Bool) (fs : List File)
    → IsSorted fs
    → All IsListable fs
    → parse_list inv (print_list inv fs) ≡ fs
unfolding parse_list
parse_list-print_list inv fs s h =
    ap sort (parse_lines-print inv inv fs h ∙ same_twice inv fs h) ∙ sort-eq_of_IsSorted fs s

-- Read in the other direction, they are the same names with inverted statuses.
pub parse_list-print_list-inverted :
    (inv : Bool) (fs : List File)
    → IsSorted fs
    → All IsListable fs
    → parse_list (not inv) (print_list inv fs) ≡ map inverted fs
unfolding parse_list
parse_list-print_list-inverted inv fs s h =
    ap sort (parse_lines-print inv (not inv) fs h ∙ other_once inv fs)
    ∙ sort-eq_of_IsSorted (map inverted fs) (inverted-IsSorted fs s)
