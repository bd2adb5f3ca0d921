-- ===== src/Snapshots/Entry/Mounted.antt =====
-- A snapshot that is in use stays mounted.
use ok_snap.Base.{ℕ, ◌<◌, ◌≡◌, ◌⊎◌, Bool, true, false, List, ◌∷◌, arith, ==_self}
use ok_snap.Exec.{Result, ok, err}
use ok_snap.Snapshots.Disk.{Faults, member}
use ok_snap.Snapshots.Entry.{
  Entry, mount_filesystem_snapshot, umount_filesystem_snapshot, handle_umount_filesystem_snapshot,
}

-- The snapshot is mounted, or nobody wants it to be: neither a user nor one of the uses that are
-- counted.
abbrev pub IsHeld : Entry → Type 0
IsHeld e =
    ((e.snapshot.mount_user_request ≡ false) × (e.snapshot.mount_use_count ≡ 0))
    ⊎ (member e.snapshot.num e.disk.mounted ≡ true)

abbrev pub HeldIfOk : Result (Unit {0}) × Entry → Type 0
HeldIfOk (ok u, e) = IsHeld e
HeldIfOk (err x, e) = Unit

member_first : (n : ℕ) (ms : List ℕ) → member n (n ∷ ms) ≡ true
unfolding member
member_first n ms = rw (==_self n)

module _ (faults : Faults) (user_request : Bool) (e : Entry) where
  mount-HeldIfOk : HeldIfOk (mount_filesystem_snapshot faults user_request e)
  unfolding mount_filesystem_snapshot
  mount-HeldIfOk = ground (arith, member_first e.snapshot.num e.disk.mounted)

  umount-IsHeld :
      IsHeld e
      → (user_request ≡ true) ⊎ (0 < e.snapshot.mount_use_count)
      → IsHeld (umount_filesystem_snapshot faults user_request e).1
  unfolding umount_filesystem_snapshot
  umount-IsHeld held used = ground arith

  handle_umount-IsHeld : IsHeld e → IsHeld (handle_umount_filesystem_snapshot faults e).1
  unfolding handle_umount_filesystem_snapshot
  handle_umount-IsHeld held = ground arith

-- `mountFilesystemSnapshot` leaves the snapshot mounted or unwanted whenever it returns. From there
-- `umountFilesystemSnapshot`, for a user or for a use that was counted, and
-- `handleUmountFilesystemSnapshot` leave it so, whether they return or throw: they never unmount a
-- snapshot that a user or another use still wants.
pub use_IsHeld :
    (faults : Faults) (user_request : Bool) (e : Entry)
    → IsHeld e
    → (user_request ≡ true) ⊎ (0 < e.snapshot.mount_use_count)
    → HeldIfOk (mount_filesystem_snapshot faults user_request e)
      × IsHeld (umount_filesystem_snapshot faults user_request e).1
      × IsHeld (handle_umount_filesystem_snapshot faults e).1
use_IsHeld faults user_request e held used = (
  mount-HeldIfOk faults user_request e,
  umount-IsHeld faults user_request e held used,
  handle_umount-IsHeld faults user_request e held,
)
