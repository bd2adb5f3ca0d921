-- ===== src/Snapshots/Table.antt =====
-- `Snapshots` (snapper/Snapshot.cc): the list of the snapshots, the one that stands for the current
-- system first, and what finds them. An iterator is the snapshot that it
-- points to, and `none` where it is `end()`.
use ok_snap.Base.{
  ℕ, ◌+◌, Bool, true, false, not, ◌&&◌, Option, none, some, List, [], ◌∷◌, ◌==◌, if◌then◌else◌,
  length,
}
use ok_snap.Exec.{Exec, Result, ok, err, illegal_snapshot}
use ok_snap.Snapshots.Types.{Snapshot, pre, post, is_current, type_eq}
use ok_snap.Snapshots.Disk
use ok_snap.Snapshots.Disk.{Disk, FileList, Faults}
use ok_snap.Snapshots.Entry.{Entry}

pub record Snapshots : Type 0 where
  pub entries : List Snapshot
  pub disk : Disk

abbrev pub on_disk : {A : Type 0} → Exec Disk A → Exec Snapshots A
on_disk m s = let (r, d) = m s.disk in (r, record s { disk = d })

unfoldable pub find : ℕ → List Snapshot → Option Snapshot
find num [] = none
find num (s ∷ ss) = if s.num == num then some s else find num ss

-- The loop of `findPost`.
unfoldable pub post_of : ℕ → List Snapshot → Option Snapshot
post_of num [] = none
post_of num (s ∷ ss) = if type_eq s.type post && (s.pre_num == num) then some s else post_of num ss

unfoldable pub is_pre : Snapshot → Bool
is_pre s = not (is_current s) && type_eq s.type pre

unfoldable pub is_post : Snapshot → Bool
is_post s = not (is_current s) && type_eq s.type post

unfoldable pub find_post : Option Snapshot → List Snapshot → Result (Option Snapshot)
unfolding post_of is_pre
find_post none entries = err illegal_snapshot
find_post (some p) entries = if is_pre p then ok (post_of p.num entries) else err illegal_snapshot

unfoldable pub find_pre : Option Snapshot → List Snapshot → Result (Option Snapshot)
unfolding find is_post
find_pre none entries = err illegal_snapshot
find_pre (some p) entries = if is_post p then ok (find p.pre_num entries) else err illegal_snapshot

-- Writing through an iterator.
unfoldable pub replace : ℕ → Snapshot → List Snapshot → List Snapshot
replace num t [] = []
replace num t (s ∷ ss) = if s.num == num then t ∷ ss else s ∷ replace num t ss

-- A method of the entry with a number. The callers test before that there is one.
unfoldable pub on_entry : {A : Type 0} → ℕ → Exec Entry A → Exec Snapshots A
unfolding find replace
on_entry num m s = elim (find num s.entries) [
  | none ↦ (err illegal_snapshot, s)
  | some e ↦
      let (r, e') = m (record { snapshot = e; disk = s.disk }) in
      (r, record { entries = replace num e'.snapshot s.entries; disk = e'.disk })
]

-- `entries.empty() ? 0 : entries.rbegin()->num`
unfoldable pub last_num : List Snapshot → ℕ
last_num [] = 0
last_num (s ∷ []) = s.num
last_num (s ∷ t ∷ ss) = last_num (t ∷ ss)

-- The loop passes over each number that is taken once at most.
unfoldable pub next_fuel : Disk → ℕ
next_fuel d = length d.subvolumes + length d.info_dirs + 1

-- `infos_dir.unlink(decString(num), AT_REMOVEDIR)`, of which the result is not looked at: a directory
-- with something in it stays.
unfoldable pub remove_info_dir : Faults → ℕ → Disk → Disk
unfolding Disk.without Disk.is_bare
remove_info_dir faults n d =
    if not (faults.rmdir_fails n) && Disk.is_bare n d
    then record d { info_dirs = Disk.without n d.info_dirs }
    else d

-- The test of `createPostSnapshot`, on an iterator.
unfoldable pub can_have_post : Option Snapshot → List Snapshot → Bool
unfolding is_pre post_of
can_have_post none entries = false
can_have_post (some p) entries =
    is_pre p && elim (post_of p.num entries) [ none ↦ true | some _ ↦ false ]

abbrev pub num_of : Option Snapshot → ℕ
num_of none = 0
num_of (some p) = p.num

-- The file lists of the deleted snapshot's own directory, and then those about it in the
-- directories of the other entries. A list whose `unlink` fails stays.
unfoldable pub drop_lists_in : Faults → ℕ → List FileList → List FileList
drop_lists_in faults n [] = []
drop_lists_in faults n (l ∷ ls) =
    let rest = drop_lists_in faults n ls in
    if (l.num2 == n) && not (faults.list_stays n l.num1) then rest else l ∷ rest

unfoldable pub drop_list : ℕ → ℕ → List FileList → List FileList
drop_list n2 n1 [] = []
drop_list n2 n1 (l ∷ ls) =
    let rest = drop_list n2 n1 ls in if (l.num2 == n2) && (l.num1 == n1) then rest else l ∷ rest

unfoldable pub unlink_list : Faults → ℕ → ℕ → List FileList → List FileList
unfolding drop_list
unlink_list faults n2 n1 ls = if faults.list_stays n2 n1 then ls else drop_list n2 n1 ls

unfoldable pub drop_lists_about : Faults → ℕ → List Snapshot → Exec Disk (Unit {0})
unfolding Disk.open_info_dir unlink_list
drop_lists_about faults n [] d = (ok tt, d)
drop_lists_about faults n (s ∷ ss) d = elim (is_current s) [
  | true ↦ drop_lists_about faults n ss d
  | false ↦
      let (r, d') = Disk.open_info_dir s.num d in
      elim r [
        | err e ↦ (err e, d')
        | ok _ ↦
            drop_lists_about faults n ss
              (record d' { file_lists = unlink_list faults s.num n d'.file_lists })
      ]
]

unfoldable pub erase : ℕ → List Snapshot → List Snapshot
erase n [] = []
erase n (s ∷ ss) = if s.num == n then ss else s ∷ erase n ss
