-- ===== src/Snapshots/Ops/Restore.antt =====
-- A creation that fails and can be undone leaves nothing behind.
use ok_snap.Base.{ℕ, ◌≡◌, ◌≢◌, true, false, ◌∷◌}
use ok_snap.Exec.{Result, ok, err, io_error, create_snapshot_failed}
use ok_snap.Snapshots.Types.{Snapshot}
use ok_snap.Snapshots.Disk.{Disk, Faults, member, without, is_bare}
use ok_snap.Snapshots.Entry
use ok_snap.Snapshots.Entry.{Entry}
use ok_snap.Snapshots.Table.{Snapshots}

-- The filesystem's snapshots, the directories and what is in them.
abbrev pub Same : Disk → Disk → Type 0
Same d d' =
    (d'.subvolumes ≡ d.subvolumes)
    × (d'.info_dirs ≡ d.info_dirs)
    × (d'.infos ≡ d.infos)
    × (d'.file_lists ≡ d.file_lists)
    × (d'.left_over ≡ d.left_over)

abbrev pub SameIfFailed : {A : Type 0} → Disk → Result A × Snapshots → Type 0
SameIfFailed d (ok a, t) = Unit
SameIfFailed d (err e, t) = Same d t.disk

-- What was done can be undone: the creation of a snapshot fails with the exception that is caught,
-- neither the unmounting nor the deletion of a snapshot fails, nor the removal of a directory, and no
-- temporary file stays.
pub record IsUndoable (faults : Faults) (n : ℕ) : Type 0 where
  pub caught : faults.create_breaks n ≡ false
  pub deletes : faults.delete_fails n ≡ false
  pub deletes_whole : faults.delete_breaks n ≡ false
  pub umounts : faults.umount_fails n ≡ false
  pub dir_goes : faults.rmdir_fails n ≡ false
  pub tidy : faults.info_leaves n ≡ false

-- What is in an info directory is in one that is there.
abbrev pub IsPlaced : Disk → Type 0
IsPlaced d = (n : ℕ) → member n d.info_dirs ≡ false → is_bare n d ≡ true

-- What `createFilesystemSnapshot`, `flushInfo` and `deleteFilesystemSnapshot` do to an entry.
abbrev Made : Entry → Result (Unit {0}) × Entry → Type 0
Made e (ok u, e') =
    e' ≡ record e { disk = record e.disk { subvolumes = e.snapshot.num ∷ e.disk.subvolumes } }
Made e (err create_snapshot_failed, e') = e' ≡ e
Made e (err x, e') = ⊥

abbrev Flushed : Entry → Result (Unit {0}) × Entry → Type 0
Flushed e (ok u, e') = Unit
Flushed e (err io_error, e') = e' ≡ e
Flushed e (err x, e') = ⊥

abbrev Removed : Entry → Result (Unit {0}) × Entry → Type 0
Removed e (ok u, e') =
    (e'.snapshot ≡ e.snapshot)
    × (e'.disk.subvolumes ≡ without e.snapshot.num e.disk.subvolumes)
    × (e'.disk.info_dirs ≡ e.disk.info_dirs)
    × (e'.disk.infos ≡ e.disk.infos)
    × (e'.disk.file_lists ≡ e.disk.file_lists)
    × (e'.disk.left_over ≡ e.disk.left_over)
Removed e (err x, e') = ⊥

-- The disk once the directory with a number is made, and once the snapshot with it is.
abbrev with_directory : ℕ → Disk → Disk
with_directory n d = record d { info_dirs = n ∷ d.info_dirs }

abbrev with_both : ℕ → Disk → Disk
with_both n d = record d { subvolumes = n ∷ d.subvolumes; info_dirs = n ∷ d.info_dirs }

module _ (faults : Faults) (d : Disk) (snap : Snapshot) (undoable : IsUndoable faults snap.num)
    (placed : IsPlaced d) (real : snap.num ≢ 0) (modified : snap.info_modified ≡ true)
    (no_snapshot : member snap.num d.subvolumes ≡ false)
    (no_dir : member snap.num d.info_dirs ≡ false) where
  made : Entry
  made = record { snapshot = snap; disk = with_both snap.num d }
