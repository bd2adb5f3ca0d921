-- ===== src/Snapshots/Ops.antt =====
-- `Snapshots::nextNumber`, the three `create…Snapshot` with `createHelper`, and `deleteSnapshot`
-- (snapper/Snapshot.cc).
pub mod Number
pub mod Consistent
pub mod Create
pub mod Delete
pub mod Dropped
pub mod Forget
pub mod Erased
pub mod Restore
mod Tests
use ok_snap.Base.{
  ℕ, zero, suc, ◌+◌, ◌%◌, ◌^◌, true, not, Option, none, some, [], ◌∷◌, ◌++◌, if◌then◌else◌, ℤ, Text,
}
use ok_snap.Exec.{
  ◌>>=◌, ◌>>◌, Exec, Result, ok, err, modify, throw, throw_if, gets, illegal_snapshot, io_error,
  out_of_fuel, create_snapshot_failed,
}
use ok_snap.Snapshots.Types.{Snapshot, single, pre, post, is_current, new_snapshot}
use ok_snap.Snapshots.Disk
use ok_snap.Snapshots.Disk.{Disk, Faults}
use ok_snap.Snapshots.Entry
use ok_snap.Snapshots.Entry.{Entry}
use ok_snap.Snapshots.Table.{
  Snapshots, on_disk, on_entry, last_num, next_fuel, remove_info_dir, can_have_post, num_of,
  drop_lists_in, drop_lists_about, erase,
}

-- The directory that the loop made, and its number.
abbrev pub with_dir : Result ℕ → Exec Snapshots ℕ
with_dir (ok n) s = (ok n, record s { disk = record s.disk { info_dirs = n ∷ s.disk.info_dirs } })
with_dir (err e) s = (err e, s)

module _ (faults : Faults) where
  -- The loop of `nextNumber`: the first number behind `num` that is taken neither by a snapshot of
  -- the filesystem nor by an info directory.
  unfoldable pub next_loop : ℕ → ℕ → Disk → Result ℕ
  unfolding Disk.check_snapshot
  next_loop zero num d = err out_of_fuel
  next_loop (suc fuel) num d =
      let n = (num + 1) % 2 ^ 32 in
      let rest = next_loop fuel n d in
      if Disk.check_snapshot n d
      then rest
      else if Disk.member n d.info_dirs
      then rest
      else if faults.mkdir_fails n
      then err io_error
      else ok n

  unfoldable pub next_number : Exec Snapshots ℕ
  unfolding next_loop last_num next_fuel
  next_number s = with_dir (next_loop (next_fuel s.disk) (last_num s.entries) s.disk) s

  -- The `catch (const IOErrorException& e)` of `createHelper`, behind its call of
  -- `deleteFilesystemSnapshot`.
  abbrev pub undone : Result (Unit {0}) × Entry → Exec Snapshots Snapshot
  undone (ok u, e) s =
      (err io_error, record s { disk = remove_info_dir faults e.snapshot.num e.disk })
  undone (err x, e) s = (err x, record s { disk = e.disk })

  -- The end of `createHelper`, behind `flushInfo`.
  abbrev pub finish : Result (Unit {0}) × Entry → Exec Snapshots Snapshot
  finish (ok u, e) s =
      (ok e.snapshot, record { entries = s.entries ++ e.snapshot ∷ []; disk = e.disk })
  finish (err io_error, e) s = undone (Entry.delete_filesystem_snapshot faults e) s
  finish (err x, e) s = (err x, record s { disk = e.disk })

  -- Its beginning. Of the exceptions of `createFilesystemSnapshot`, it catches
  -- `CreateSnapshotFailedException` alone.
  abbrev pub begin : Result (Unit {0}) × Entry → Exec Snapshots Snapshot
  begin (ok u, e) s = finish (Entry.flush_info faults e) s
  begin (err create_snapshot_failed, e) s =
      (err create_snapshot_failed, record s { disk = remove_info_dir faults e.snapshot.num e.disk })
  begin (err x, e) s = (err x, record s { disk = e.disk })

  unfoldable pub create_helper : Snapshot → Exec Snapshots Snapshot
  unfolding Entry.create_filesystem_snapshot Entry.flush_info Entry.delete_filesystem_snapshot
      remove_info_dir
  create_helper snapshot s =
      begin
        (Entry.create_filesystem_snapshot faults (record { snapshot = snapshot; disk = s.disk })) s

  unfoldable pub create_single_snapshot : ℤ → Text → Exec Snapshots Snapshot
  unfolding next_number create_helper
  create_single_snapshot now description = do
    num ← next_number
    create_helper
        (record (new_snapshot single num now) { description = description; info_modified = true })

  unfoldable pub create_pre_snapshot : ℤ → Text → Exec Snapshots Snapshot
  unfolding next_number create_helper
  create_pre_snapshot now description = do
    num ← next_number
    create_helper
        (record (new_snapshot pre num now) { description = description; info_modified = true })

  unfoldable pub create_post_snapshot : ℤ → Text → Option Snapshot → Exec Snapshots Snapshot
  unfolding next_number create_helper can_have_post
  create_post_snapshot now description p = do
    allowed ← gets (λ s. can_have_post p s.entries)
    throw_if (not allowed) illegal_snapshot
    num ← next_number
    create_helper (record (new_snapshot post num now) {
      description = description;
      pre_num = num_of p;
      info_modified = true;
    })

  -- `info_dir.unlink("info.xml", 0)`
  unfoldable pub drop_info : ℕ → Disk → Disk
  unfolding Disk.without_info
  drop_info num d =
      if faults.info_stays num then d else record d { infos = Disk.without_info num d.infos }

  -- What `deleteSnapshot` does behind `deleteFilesystemSnapshot`: it removes the snapshot's own files,
  -- the file lists about it, its directory and its entry. It looks at no result of `unlink`.
  unfoldable pub forget : ℕ → Exec Snapshots (Unit {0})
  unfolding Disk.open_info_dir drop_info drop_lists_in drop_lists_about remove_info_dir erase
  forget num = do
    on_disk (Disk.open_info_dir num)
    modify (λ s. record s { disk = drop_info num s.disk })
    modify (λ s. record s {
      disk = record s.disk { file_lists = drop_lists_in faults num s.disk.file_lists };
    })
    all ← gets (λ s. s.entries)
    on_disk (drop_lists_about faults num all)
    modify (λ s. record { entries = erase num s.entries; disk = remove_info_dir faults num s.disk })

  unfoldable pub delete_snapshot : Option Snapshot → Exec Snapshots (Unit {0})
  unfolding on_entry Entry.delete_filesystem_snapshot forget
  delete_snapshot none = throw illegal_snapshot
  delete_snapshot (some p) = do
    throw_if (is_current p) illegal_snapshot
    on_entry p.num (Entry.delete_filesystem_snapshot faults)
    forget p.num
