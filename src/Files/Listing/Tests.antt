-- ===== src/Files/Listing/Tests.antt =====
-- Runs of the writing and reading of file lists.
use ok_snap.Base.{◌≡◌, refl, true, false, List, [], ◌∷◌, arith, All, codes, text_lt}
use ok_snap.Files.Status.{is_clean, status_to_string}
use ok_snap.Files.Defs.{File, file}
use ok_snap.Files.Defs.Sorted.{IsSorted}
use ok_snap.Files.Listing.{parse_list, print_list}
use ok_snap.Files.Listing.RoundTrip.{IsListable, parse_list-print_list}

abbrev created_dir : File
created_dir = file (codes "/a b") 1

abbrev changed : File
changed = file (codes "/c") 24

abbrev entries : List File
entries = created_dir ∷ changed ∷ []

abbrev entries-IsSorted : IsSorted entries
unfolding text_lt
entries-IsSorted = ((refl, tt), (tt, tt))

created_dir-IsListable : IsListable created_dir
unfolding is_clean
created_dir-IsListable = record {
  named = (
    (λ e. omega arith, λ e. omega arith),
    (
      (λ e. omega arith, λ e. omega arith),
      ((λ e. omega arith, λ e. omega arith), ((λ e. omega arith, λ e. omega arith), tt)),
    ),
  );
  clean = refl;
  new = refl;
}

changed-IsListable : IsListable changed
unfolding is_clean
changed-IsListable = record {
  named = ((λ e. omega arith, λ e. omega arith), ((λ e. omega arith, λ e. omega arith), tt));
  clean = refl;
  new = refl;
}

abbrev entries-IsListable : All IsListable entries
entries-IsListable = (created_dir-IsListable, (changed-IsListable, tt))

print_two : print_list false entries ≡ codes "+... /a b\ncp.. /c\n"
unfolding print_list status_to_string
print_two = refl

parse_list-print_list_example : parse_list true (print_list true entries) ≡ entries
parse_list-print_list_example =
    parse_list-print_list true entries entries-IsSorted entries-IsListable
