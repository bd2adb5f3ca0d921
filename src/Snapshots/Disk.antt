-- ===== src/Snapshots/Disk.antt =====
-- What is on disk for a configuration: the filesystem's snapshots, and the directories of the infos
-- directory with their `info.xml` and file lists. The calls of `Filesystem` and of `SDir` that the
-- code makes are modelled by what they do to it; `Faults` says which of them fail.
use ok_snap.Base.{
  ℕ, Bool, true, false, not, ◌&&◌, ◌||◌, Option, none, some, List, [], ◌∷◌, ◌==◌, if◌then◌else◌, ℤ,
  Text, pos, negsuc,
}
use ok_snap.Exec.{
  Exec, ok, err, io_error, create_snapshot_failed, delete_snapshot_failed,
  is_snapshot_mounted_failed, mount_snapshot_failed, umount_snapshot_failed,
}

-- The texts of the nodes of `info.xml`; an absent node is `none`.
pub record Info : Type 0 where
  pub type : Option Text
  pub num : Option Text
  pub date : Option Text
  pub uid : Option Text
  pub pre_num : Option Text
  pub description : Option Text
  pub cleanup : Option Text
  pub userdata : List (Text × Text)

-- What the libraries do: `<<` and `>>` of a stream with a number, `strftime` behind `gmtime_r` and
-- `timegm` behind `strptime` (in `datetime` and `scan_datetime` of snapper/AppUtil.cc), and what libxml2
-- reads of a document that it wrote.
pub record Conversions : Type 0 where
  pub dec_string : ℕ → Text
  pub number_in : Text → ℕ
  pub datetime : ℤ → Text
  pub scan_datetime : Text → ℤ
  pub read_again : Info → Info

-- Conversions of numbers below the base of a byte, as one byte, and of times from the same numbers.
abbrev pub one_byte : Conversions
one_byte = record {
  dec_string = λ n. n ∷ [];
  number_in = λ s. elim s [ [] ↦ 0 | c ∷ rest ↦ c ];
  datetime = λ z. elim z [ pos n ↦ n ∷ [] | negsuc n ↦ [] ];
  scan_datetime = λ s. elim s [ [] ↦ negsuc 0 | c ∷ rest ↦ pos c ];
  read_again = λ i. i;
}

-- `filelist-<num1>.txt` in the info directory `num2`.
pub record FileList : Type 0 where
  pub num2 : ℕ
  pub num1 : ℕ
  pub content : Text

pub record Disk : Type 0 where
  pub subvolumes : List ℕ
  pub mounted : List ℕ
  pub info_dirs : List ℕ
  pub infos : List (ℕ × Info)
  pub file_lists : List FileList
  -- The directories with a file that no deletion looks for: a temporary file that was left over.
  pub left_over : List ℕ

-- Which calls fail, and how the libraries convert. A `breaks` is an `IOErrorException` in place of the exception of the call. The five from `info_leaves` on are
-- failures that the code does not look at, and `list_written` is the text that comes to stand under
-- the name of a file list, if the rename works.
pub record Faults : Type 0 where
  pub create_fails : ℕ → Bool
  pub create_breaks : ℕ → Bool
  pub delete_fails : ℕ → Bool
  pub delete_breaks : ℕ → Bool
  pub mounted_fails : ℕ → Bool
  pub mount_fails : ℕ → Bool
  pub umount_fails : ℕ → Bool
  pub mkdir_fails : ℕ → Bool
  pub info_fails : ℕ → Bool
  pub list_fails : ℕ → Bool
  pub info_leaves : ℕ → Bool
  pub info_stays : ℕ → Bool
  pub list_stays : ℕ → ℕ → Bool
  pub rmdir_fails : ℕ → Bool
  pub list_written : ℕ → Text → Option Text
  pub conversions : Conversions

abbrev pub no_faults : Faults
no_faults = record {
  create_fails = λ _. false;
  create_breaks = λ _. false;
  delete_fails = λ _. false;
  delete_breaks = λ _. false;
  mounted_fails = λ _. false;
  mount_fails = λ _. false;
  umount_fails = λ _. false;
  mkdir_fails = λ _. false;
  info_fails = λ _. false;
  list_fails = λ _. false;
  info_leaves = λ _. false;
  info_stays = λ _. false;
  list_stays = λ _ _. false;
  rmdir_fails = λ _. false;
  list_written = λ _ text. some text;
  conversions = one_byte;
}

unfoldable pub member : ℕ → List ℕ → Bool
member n [] = false
member n (m ∷ ms) = (n == m) || member n ms

unfoldable pub without : ℕ → List ℕ → List ℕ
without n [] = []
without n (m ∷ ms) = let rest = without n ms in if n == m then rest else m ∷ rest

-- `writeInfo` renames a new `info.xml` over the old one.
unfoldable pub put_info : ℕ → Info → List (ℕ × Info) → List (ℕ × Info)
put_info n i [] = (n, i) ∷ []
put_info n i ((m, j) ∷ r) = if n == m then (n, i) ∷ r else (m, j) ∷ put_info n i r

unfoldable pub get_info : ℕ → List (ℕ × Info) → Option Info
get_info n [] = none
get_info n ((m, j) ∷ r) = if n == m then some j else get_info n r

unfoldable pub without_info : ℕ → List (ℕ × Info) → List (ℕ × Info)
without_info n [] = []
without_info n ((m, j) ∷ r) = let rest = without_info n r in if n == m then rest else (m, j) ∷ rest

unfoldable pub holds_list : ℕ → List FileList → Bool
holds_list n [] = false
holds_list n (l ∷ ls) = l.num2 == n || holds_list n ls

-- Nothing is in the info directory but what the filesystem keeps there.
unfoldable pub is_bare : ℕ → Disk → Bool
unfolding member get_info holds_list
is_bare n d =
    not (member n d.left_over)
    && elim (get_info n d.infos) [ none ↦ true | some i ↦ false ]
    && not (holds_list n d.file_lists)

unfoldable pub check_snapshot : ℕ → Disk → Bool
unfolding member
check_snapshot n d = member n d.subvolumes

-- Opening an info directory that is not there throws.
unfoldable pub open_info_dir : ℕ → Exec Disk (Unit {0})
unfolding member
open_info_dir n d = if member n d.info_dirs then (ok tt, d) else (err io_error, d)

module _ (faults : Faults) where
  unfoldable pub fs_create : ℕ → Exec Disk (Unit {0})
  fs_create n d =
      if faults.create_fails n
      then (err create_snapshot_failed, d)
      else if faults.create_breaks n
      then (err io_error, d)
      else (ok tt, record d { subvolumes = n ∷ d.subvolumes })

  unfoldable pub fs_delete : ℕ → Exec Disk (Unit {0})
  unfolding without
  fs_delete n d =
      if faults.delete_fails n
      then (err delete_snapshot_failed, d)
      else if faults.delete_breaks n
      then (err io_error, d)
      else (ok tt, record d { subvolumes = without n d.subvolumes })

  unfoldable pub fs_is_mounted : ℕ → Exec Disk Bool
  unfolding member
  fs_is_mounted n d =
      if faults.mounted_fails n
      then (err is_snapshot_mounted_failed, d)
      else (ok (member n d.mounted), d)

  unfoldable pub fs_mount : ℕ → Exec Disk (Unit {0})
  unfolding member
  fs_mount n d =
      if member n d.mounted
      then (ok tt, d)
      else if faults.mount_fails n
      then (err mount_snapshot_failed, d)
      else (ok tt, record d { mounted = n ∷ d.mounted })

  unfoldable pub fs_umount : ℕ → Exec Disk (Unit {0})
  unfolding member without
  fs_umount n d =
      if not (member n d.mounted)
      then (ok tt, d)
      else if faults.umount_fails n
      then (err umount_snapshot_failed, d)
      else (ok tt, record d { mounted = without n d.mounted })

  -- The temporary file that `writeInfo` makes, fills and renames. When it cannot be made, nothing is
  -- left, and otherwise it may stay.
  unfoldable pub save_info : ℕ → Info → Exec Disk (Unit {0})
  unfolding put_info
  save_info n i d =
      if not (faults.info_fails n) then (ok tt, record d { infos = put_info n i d.infos }) else (
        err io_error,
        if faults.info_leaves n then record d { left_over = n ∷ d.left_over } else d,
      )
