-- ===== src/Files/Defs/Tests.antt =====
-- Runs on the entries of a directory with a file, both created between two snapshots.
use ok_snap.Base.{ℕ, ◌≡◌, refl, true, List, [], ◌∷◌, Pairs, Text, codes, text_eq, text_lt}
use ok_snap.Files.Defs.{File, file, FilePaths, sort, get_undo_steps, undo_step}
use ok_snap.Files.Defs.Sorted.{IsSorted, AreDistinct, sort-eq_of_IsSorted}
use ok_snap.Files.Defs.Undo.{InOrder, get_undo_steps-InOrder}

abbrev marked : Text → ℕ → File
marked name status = record (file name status) { undo = true }

abbrev dir : File
dir = marked (codes "/d") 1

abbrev inner : File
inner = marked (codes "/d/f") 1

abbrev other : File
other = marked (codes "/e") 8

abbrev entries : List File
entries = dir ∷ inner ∷ other ∷ []

abbrev entries-IsSorted : IsSorted entries
unfolding text_lt
entries-IsSorted = ((refl, (refl, tt)), ((refl, tt), (tt, tt)))

abbrev entries-AreDistinct : AreDistinct (other ∷ inner ∷ dir ∷ [])
unfolding text_eq
entries-AreDistinct = ((refl, (refl, tt)), ((refl, tt), (tt, tt)))

-- The file goes before its directory, and the modification comes last.
inner_first : get_undo_steps entries ≡ undo_step inner ∷ undo_step dir ∷ undo_step other ∷ []
unfolding get_undo_steps
inner_first = refl

sort-eq_of_IsSorted_example : sort entries ≡ entries
sort-eq_of_IsSorted_example = sort-eq_of_IsSorted entries entries-IsSorted

abbrev paths : FilePaths
paths = record { system_path = codes "/home"; pre_path = codes "/s/1"; post_path = codes "/s/2" }

get_undo_steps-InOrder_example : Pairs InOrder (get_undo_steps entries)
get_undo_steps-InOrder_example = get_undo_steps-InOrder entries entries-IsSorted
