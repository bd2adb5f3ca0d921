-- ===== src/Comparison.antt =====
-- `Comparison` (snapper/Comparison.h and snapper/Comparison.cc): two snapshots, the disk that they are
-- on, and the files in which they differ. `Filesystem::cmpDirs` is the parameter `cmp`, on the numbers
-- of the snapshots; it may throw.
pub mod Saved
pub mod Again
pub mod Created
mod Tests
use ok_snap.Base.{
  ℕ, Bool, true, false, ◌&&◌, ◌||◌, Option, none, some, List, [], ◌∷◌, ◌++◌, ltb, ◌==◌,
  if◌then◌else◌, Text,
}
use ok_snap.Exec.{
  ◌>>=◌, ◌>>◌, modify, Exec, throw_if, err, illegal_snapshot, ok, gets, io_error, Result,
}
use ok_snap.Snapshots.Disk
use ok_snap.Snapshots.Disk.{Disk, Faults, FileList}
use ok_snap.Snapshots.Types.{Snapshot, is_current}
use ok_snap.Snapshots.Entry.{Entry, mount_filesystem_snapshot, umount_filesystem_snapshot}
use ok_snap.Files.Defs.{
  File, file, sort, filter, UndoStatistic, UndoStep, get_undo_statistic, get_undo_steps,
}
use ok_snap.Files.Listing.{print_list, get_lines, parse_lines}
use ok_snap.Compare.Dirs.{Changes, Change}

pub record Comparison : Type 0 where
  pub snapshot1 : Snapshot
  pub snapshot2 : Snapshot
  pub disk : Disk
  pub files : List File

-- `open` of `filelist-<num1>.txt` in the info directory `num2`.
unfoldable pub find_list : ℕ → ℕ → List FileList → Option Text
find_list num2 num1 [] = none
find_list num2 num1 (l ∷ ls) =
    if (l.num2 == num2) && (l.num1 == num1) then some l.content else find_list num2 num1 ls

-- The rename of the temporary file over the list.
unfoldable pub put_list : FileList → List FileList → List FileList
put_list new [] = new ∷ []
put_list new (l ∷ ls) =
    if (l.num2 == new.num2) && (l.num1 == new.num1) then new ∷ ls else l ∷ put_list new ls

-- What the rename of the temporary file does, of which the result is not looked at, as those of the
-- writing are not: the text under the list's name may be cut, and without the rename the temporary file
-- stays.
unfoldable pub put_written : Option Text → FileList → Disk → Disk
unfolding put_list
put_written none l d = record d { left_over = l.num2 ∷ d.left_over }
put_written (some text) l d = record d {
  file_lists = put_list (record l { content = text }) d.file_lists;
}

-- `swap(num1, num2)` if the first is greater.
abbrev pub is_inverted : Comparison → Bool
is_inverted c = ltb c.snapshot2.num c.snapshot1.num

abbrev pub low_num : Comparison → ℕ
low_num c = if is_inverted c then c.snapshot2.num else c.snapshot1.num

abbrev pub high_num : Comparison → ℕ
high_num c = if is_inverted c then c.snapshot1.num else c.snapshot2.num

unfoldable pub list_of : Comparison → FileList
unfolding print_list
list_of c = record {
  num2 = high_num c;
  num1 = low_num c;
  content = print_list (is_inverted c) c.files;
}

abbrev on_disk : {A : Type 0} → Exec Disk A → Exec Comparison A
on_disk m c = let (r, d) = m c.disk in (r, record c { disk = d })

abbrev pub on_snapshot1 : {A : Type 0} → Exec Entry A → Exec Comparison A
on_snapshot1 m c =
    let (r, e) = m (record { snapshot = c.snapshot1; disk = c.disk }) in
    (r, record c { snapshot1 = e.snapshot; disk = e.disk })

abbrev pub on_snapshot2 : {A : Type 0} → Exec Entry A → Exec Comparison A
on_snapshot2 m c =
    let (r, e) = m (record { snapshot = c.snapshot2; disk = c.disk }) in
    (r, record c { snapshot2 = e.snapshot; disk = e.disk })

abbrev pub has_current : Comparison → Bool
has_current c = is_current c.snapshot1 || is_current c.snapshot2

-- `if (getSnapshot1()->isCurrent() || getSnapshot2()->isCurrent()) throw IllegalSnapshotException();`
abbrev neither_current : Exec Comparison (Unit {0})
neither_current c = throw_if (has_current c) illegal_snapshot c

unfoldable pub unless_current : Bool → Exec Comparison (Unit {0}) → Exec Comparison (Unit {0})
unless_current true m c = (ok tt, c)
unless_current false m c = m c

-- `if (!getSnapshot1()->isCurrent())`, and the same for the other snapshot.
unfoldable pub on_number1 : Exec Entry (Unit {0}) → Exec Comparison (Unit {0})
unfolding unless_current
on_number1 m c = unless_current (is_current c.snapshot1) (on_snapshot1 m) c

unfoldable pub on_number2 : Exec Entry (Unit {0}) → Exec Comparison (Unit {0})
unfolding unless_current
on_number2 m c = unless_current (is_current c.snapshot2) (on_snapshot2 m) c

unfoldable pub on_each : Exec Entry (Unit {0}) → Exec Comparison (Unit {0})
unfolding on_number1 on_number2
on_each m = on_number1 m >> on_number2 m

unfoldable pub append_changes : List Change → List File
append_changes [] = []
append_changes ((name, status) ∷ changes) = file name status ∷ append_changes changes

-- What `load` does with the file that it opened, if there is one.
unfoldable pub load_list : Option Text → Exec Comparison Bool
unfolding sort
load_list none c = (ok false, c)
load_list (some content) c = (
  ok true,
  record c { files = sort (c.files ++ parse_lines (is_inverted c) (get_lines content)) },
)

unfoldable pub filter_files : (Text → Text → Bool) → List Text → Exec Comparison (Unit {0})
unfolding filter
filter_files fnmatch patterns = modify (λ c. record c { files = filter fnmatch patterns c.files })

-- `if (getSnapshot1()->isCurrent()) throw IllegalSnapshotException();`
abbrev first_not_current : Exec Comparison (Unit {0})
first_not_current c = throw_if (is_current c.snapshot1) illegal_snapshot c

unfoldable pub undo_statistic : Exec Comparison UndoStatistic
unfolding get_undo_statistic
undo_statistic = do first_not_current; gets (λ c. get_undo_statistic c.files)

unfoldable pub undo_steps : Exec Comparison (List UndoStep)
unfolding get_undo_steps
undo_steps = do first_not_current; gets (λ c. get_undo_steps c.files)

module _ (faults : Faults) where
  unfoldable pub mount : Exec Comparison (Unit {0})
  unfolding on_each mount_filesystem_snapshot
  mount = on_each (mount_filesystem_snapshot faults false)

  unfoldable pub umount : Exec Comparison (Unit {0})
  unfolding on_each umount_filesystem_snapshot
  umount = on_each (umount_filesystem_snapshot faults false)

  unfoldable pub load : Exec Comparison Bool
  unfolding Disk.open_info_dir find_list load_list
  load = do
    neither_current
    num2 ← gets high_num
    on_disk (Disk.open_info_dir num2)
    list ← gets (λ c. find_list num2 (low_num c) c.disk.file_lists)
    load_list list

  unfoldable pub save : Exec Comparison (Unit {0})
  unfolding Disk.open_info_dir put_written list_of
  save = do
    neither_current
    num2 ← gets high_num
    on_disk (Disk.open_info_dir num2)
    throw_if (faults.list_fails num2) io_error
    modify (λ c. record c {
      disk = put_written (faults.list_written num2 (list_of c).content) (list_of c) c.disk;
    })

  module _ (cmp : ℕ → ℕ → Changes) where
    -- When `cmpDirs` throws, what it had found is lost with the object, which is still being made.
    unfoldable pub cmp_snapshots : Exec Comparison (Unit {0})
    unfolding append_changes
    cmp_snapshots c = elim (cmp c.snapshot1.num c.snapshot2.num) [
      | err e ↦ (err e, c)
      | ok changes ↦ (ok tt, record c { files = c.files ++ append_changes changes })
    ]

    unfoldable pub create : Exec Comparison (Unit {0})
    unfolding mount cmp_snapshots umount sort
    create = do mount; cmp_snapshots; umount; modify (λ c. record c { files = sort c.files })

    -- What `initialize` does when `load` has returned.
    unfoldable pub unless_loaded : Bool → Exec Comparison (Unit {0})
    unfolding create save
    unless_loaded true c = (ok tt, c)
    unless_loaded false c = (create >> save) c

    unfoldable pub initialize : (Text → Text → Bool) → List Text → Exec Comparison (Unit {0})
    unfolding create load unless_loaded filter_files
    initialize fnmatch patterns = do
      current ← gets has_current
      (λ c. if current then create c else (load >>= unless_loaded) c)
      filter_files fnmatch patterns

    -- The constructor. Iterators that point to the same snapshot are equal.
    unfoldable pub construct :
        (Text → Text → Bool)
        → List Text
        → Option Snapshot
        → Option Snapshot
        → Disk
        → Result (Unit {0}) × Option Comparison
    unfolding initialize
    construct fnmatch patterns none o2 disk = (err illegal_snapshot, none)
    construct fnmatch patterns (some s1) none disk = (err illegal_snapshot, none)
    construct fnmatch patterns (some s1) (some s2) disk =
        let made =
          initialize fnmatch patterns
            (record { snapshot1 = s1; snapshot2 = s2; disk = disk; files = [] }) in
        if s1.num == s2.num then (err illegal_snapshot, none) else (made.0, some made.1)
