-- ===== src/Snapshots/Entry/Tests.antt =====
-- Runs of mounting and unmounting.
use ok_snap.Base.{◌-◌, ◌^◌, ◌≡◌, refl, inr, true, false, [], ◌∷◌, arith, pos}
use ok_snap.Snapshots.Types.{single, new_snapshot}
use ok_snap.Snapshots.Disk.{no_faults, member}
use ok_snap.Snapshots.Entry.{
  Entry, mount_filesystem_snapshot, umount_filesystem_snapshot, handle_umount_filesystem_snapshot,
}
use ok_snap.Snapshots.Entry.Mounted.{IsHeld, HeldIfOk, use_IsHeld}

-- A snapshot that a user wants mounted and that is in use twice.
abbrev wanted : Entry
wanted = record {
  snapshot = record (new_snapshot single 4 (pos 1)) {
    mount_checked = true;
    mount_user_request = true;
    mount_use_count = 2;
  };
  disk = record {
    subvolumes = 4 ∷ [];
    mounted = 4 ∷ [];
    info_dirs = 4 ∷ [];
    infos = [];
    file_lists = [];
    left_over = [];
  };
}

wanted-IsHeld : IsHeld wanted
unfolding member
wanted-IsHeld = inr refl

-- The user does not want it any longer, but the uses do.
still_mounted : (umount_filesystem_snapshot no_faults true wanted).1.disk.mounted ≡ 4 ∷ []
unfolding umount_filesystem_snapshot
still_mounted = refl

-- Without a mount before, the count wraps round.
wraps_round :
    (umount_filesystem_snapshot no_faults false (record wanted {
      snapshot = record wanted.snapshot { mount_use_count = 0 };
    })).1.snapshot.mount_use_count
    ≡ 2 ^ 32 - 1
unfolding umount_filesystem_snapshot
wraps_round = refl

use_IsHeld_example :
    HeldIfOk (mount_filesystem_snapshot no_faults false wanted)
    × IsHeld (umount_filesystem_snapshot no_faults false wanted).1
    × IsHeld (handle_umount_filesystem_snapshot no_faults wanted).1
use_IsHeld_example = use_IsHeld no_faults false wanted wanted-IsHeld (inr (omega arith))
