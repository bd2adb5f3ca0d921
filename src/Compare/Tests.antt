-- ===== src/Compare/Tests.antt =====
-- Two directory trees, and the comparison of them.
use ok_snap.Base.{ℕ, bit_or, ◌≡◌, refl, true, false, Option, some, [], ◌∷◌, codes, text_eq, text_lt}
use ok_snap.Exec.{ok}
use ok_snap.Files.Status.{
  permissions, created, deleted, content, type, status_to_string, string_to_status,
}
use ok_snap.Compare.Tree.{Stat, Entries, end, entry, reg, lnk, dir}
use ok_snap.Compare.Symmetry.{swapped}
use ok_snap.Compare.Swapped.{cmp_dirs-swapped}
use ok_snap.Compare.Blocks.{cmp_files_content_reg-text_eq}
use ok_snap.Compare.Content.{cmp_files, cmp_files_content_reg}
use ok_snap.Compare.Dirs.{cmp_dirs}
use ok_snap.Compare.Stored.{Statuses, cmp_dirs-Statuses}

abbrev stat_at : ℕ → ℕ → ℕ → Stat
stat_at perm size sec = record {
  perm = perm;
  uid = 0;
  gid = 0;
  dev = 40;
  ino = 1;
  size = size;
  mtime_sec = sec;
  mtime_nsec = 0;
}

abbrev other_stat : Stat
other_stat = record (stat_at 420 3 70) { ino = 2 }

abbrev old_tree : Entries
old_tree =
    entry (codes "bin")
      (dir (stat_at 493 0 10) true
        (entry (codes "sh") (reg (stat_at 493 3 10) (some (codes "old"))) end))
      (entry (codes "run") (lnk (stat_at 511 3 10) (some (codes "var")))
        (entry (codes "etc") (reg (stat_at 420 3 10) (some (codes "abc"))) end))

abbrev new_tree : Entries
new_tree = entry (codes "etc") (reg other_stat (some (codes "abd"))) (
    entry (codes "run")
      (dir (stat_at 493 0 20) true (entry (codes "pid") (reg (stat_at 420 0 20) (some [])) end))
      (entry (codes ".snapshots") (dir (stat_at 493 0 20) false end) end))

abbrev root : Option Stat
root = some (stat_at 493 0 0)

-- What the comparison of the two trees calls.
changes_of_trees :
    cmp_dirs root root old_tree new_tree
    ≡ ok (
        (codes "/bin", deleted)
        ∷ (codes "/bin/sh", deleted)
        ∷ (codes "/etc", content)
        ∷ (codes "/run", bit_or type permissions)
        ∷ (codes "/run/pid", created)
        ∷ [])
unfolding cmp_dirs cmp_files text_eq text_lt
changes_of_trees = refl

cmp_dirs-swapped_example :
    cmp_dirs root root new_tree old_tree ≡ swapped (cmp_dirs root root old_tree new_tree)
cmp_dirs-swapped_example = cmp_dirs-swapped root root old_tree new_tree

cmp_files_content_reg-text_eq_example :
    cmp_files_content_reg (stat_at 420 3 10) (some (codes "abc")) other_stat (some (codes "abd"))
    ≡ text_eq (codes "abc") (codes "abd")
cmp_files_content_reg-text_eq_example =
    cmp_files_content_reg-text_eq (stat_at 420 3 10) other_stat (codes "abc") (codes "abd") refl
      refl refl (λ h. absurd cc)

cmp_dirs-Statuses_example :
    Statuses (λ s. string_to_status (status_to_string s) ≡ s) (cmp_dirs root root old_tree new_tree)
cmp_dirs-Statuses_example = cmp_dirs-Statuses root root old_tree new_tree
