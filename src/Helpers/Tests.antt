-- ===== src/Helpers/Tests.antt =====
-- Runs of the helpers.
use ok_snap.Base.{
  ◌≤◌, ◌≡◌, refl, ◌↔◌, ◌⊎◌, true, some, List, [], ◌∷◌, ◌++◌, length, All, In, Text, codes, text_eq,
}
use ok_snap.Helpers.Quote.{quote, quote_list, sh_words, sh_words-quote_list, escape_quotes}
use ok_snap.Helpers.Subpath.{
  Mntent, Above, detect_fstype, detect_fstype_longest, is_subpath, is_subpath_iff, type_name,
  at_end, is_better, match_mount, match_mounts, behind,
}

quote_one : quote (39 ∷ 97 ∷ []) ≡ 39 ∷ 39 ∷ 92 ∷ 39 ∷ 39 ∷ 97 ∷ 39 ∷ []
unfolding quote escape_quotes
quote_one = refl

sh_words-quote_list_example :
    sh_words (quote_list ((39 ∷ 32 ∷ 92 ∷ []) ∷ [] ∷ codes "a b" ∷ []))
    ≡ some ((39 ∷ 32 ∷ 92 ∷ []) ∷ [] ∷ codes "a b" ∷ [])
sh_words-quote_list_example = sh_words-quote_list ((39 ∷ 32 ∷ 92 ∷ []) ∷ [] ∷ codes "a b" ∷ [])

is_subpath_iff_example : (is_subpath (codes "/home/a") (codes "/home") ≡ true) ↔ (
    (codes "/home" ≡ codes "/")
    ⊎ ((codes "/home/a" ≡ codes "/home")
        ⊎ ((rest : Text) × (codes "/home/a" ≡ codes "/home" ++ b'/' ∷ rest))))
is_subpath_iff_example = is_subpath_iff (codes "/home/a") (codes "/home")

abbrev table : List Mntent
table =
    record { mnt_dir = codes "/"; mnt_type = codes "btrfs" }
    ∷ record { mnt_dir = codes "/home"; mnt_type = codes "ext4dev" }
    ∷ record { mnt_dir = codes "/hom"; mnt_type = codes "xfs" }
    ∷ []

detect_fstype_longest_example :
    (m : Mntent) × In m table
    × Above (codes "/home/a") m
    × (codes "ext4" ≡ type_name m.mnt_type)
    × All (λ n. Above (codes "/home/a") n → length n.mnt_dir ≤ length m.mnt_dir) table
unfolding detect_fstype match_mounts match_mount is_better is_subpath behind at_end text_eq
detect_fstype_longest_example = detect_fstype_longest (codes "/home/a") (codes "ext4") table refl
