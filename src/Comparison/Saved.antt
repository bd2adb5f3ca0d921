-- ===== src/Comparison/Saved.antt =====
-- What `save` leaves on the disk, and what `load` makes of it.
use ok_snap.Comparison.{
  Comparison, load, save, load_list, find_list, put_list, list_of, high_num, low_num, is_inverted,
  has_current, put_written,
}
use ok_snap.Snapshots.Disk
use ok_snap.Snapshots.Disk.{Disk, Faults, FileList}
use ok_snap.Base.{ℕ, ◌≡◌, true, false, some, List, [], ◌∷◌, ◌++◌, arith, Text}
use ok_snap.Files.Listing.{get_lines, parse_lines}
use ok_snap.Exec.{ok}
use ok_snap.Files.Defs.{sort}

find_list-put_list :
    (new : FileList) (ls : List FileList)
    → find_list new.num2 new.num1 (put_list new ls) ≡ some new.content
unfolding find_list put_list
find_list-put_list new [] = ground arith
find_list-put_list new (l ∷ ls) = ground (arith, find_list-put_list new ls)

-- What is on the disk once the list is saved.
pub record IsSaved (c d : Comparison) : Type 0 where
  pub has_dir : Disk.member (high_num c) d.disk.info_dirs ≡ true
  pub has_list : find_list (high_num c) (low_num c) d.disk.file_lists ≡ some (list_of c).content

pub moved_IsSaved : (c d e : Comparison) → e.disk ≡ d.disk → IsSaved c d → IsSaved c e
moved_IsSaved c d e disk saved = record {
  has_dir = rw disk saved.has_dir;
  has_list = rw disk saved.has_list;
}

-- Every list is written whole, and comes to stand under its name.
abbrev pub WritesLists : Faults → Type 0
WritesLists faults = (n : ℕ) (text : Text) → faults.list_written n text ≡ some text

saved_disk :
    (faults : Faults) (c d : Comparison) (u : Unit {0})
    → WritesLists faults
    → save faults c ≡ (ok u, d)
    → (Disk.member (high_num c) d.disk.info_dirs ≡ true)
      × (d.disk.file_lists ≡ put_list (list_of c) c.disk.file_lists)
unfolding save Disk.open_info_dir put_written
saved_disk faults c d u whole done =
    let written = whole (high_num c) (list_of c).content in ground (arith, written)

pub save-IsSaved :
    (faults : Faults) (c d : Comparison) (u : Unit {0})
    → WritesLists faults
    → save faults c ≡ (ok u, d)
    → IsSaved c d
unfolding list_of
save-IsSaved faults c d u whole done =
    let (dir, lists) = saved_disk faults c d u whole done in
    record { has_dir = dir; has_list = rw lists (find_list-put_list (list_of c) c.disk.file_lists) }

pub load_found :
    (faults : Faults) (c : Comparison) (content : Text)
    → has_current c ≡ false
    → Disk.member (high_num c) c.disk.info_dirs ≡ true
    → find_list (high_num c) (low_num c) c.disk.file_lists ≡ some content
    → load faults c ≡ (
      ok true,
      record c { files = sort (c.files ++ parse_lines (is_inverted c) (get_lines content)) },
    )
unfolding load Disk.open_info_dir load_list
load_found faults c content current dir list = ground arith
