-- ===== src/Server/Tests.antt =====
-- Runs of the methods with two clients and one configuration.
use ok_snap.Base.{◌≡◌, refl, true, false, none, some, List, [], ◌∷◌, All, Text, codes, text_eq, pos}
use ok_snap.Server.Comparisons.{begin_comparison, delete_comparison}
use ok_snap.Exec.{err, permissions, snapshot_in_use}
use ok_snap.Snapshots.Types.{Snapshot, single, new_snapshot}
use ok_snap.Snapshots.Disk.{no_faults}
use ok_snap.Snapshots.Table.{Snapshots}
use ok_snap.Server.State.{
  Daemon, MetaSnapper, Client, Mount, find_config, is_permitted, locked_by_other, mounted_by_any,
}
use ok_snap.Server.Handlers.{
  lock_config, unlock_config, set_snapshot, create_single_snapshot, create_pre_snapshot,
  create_post_snapshot, delete_snapshots, mount_snapshot, umount_snapshot,
}
use ok_snap.Server.Denied.{refused-Unchanged}
use ok_snap.Server.Deletion.{delete_snapshots-Allowed}

abbrev pub first : Snapshot
first = new_snapshot single 1 (pos 100)

abbrev pub snapshots : Snapshots
snapshots = record {
  entries = new_snapshot single 0 (pos 0) ∷ first ∷ [];
  disk = record {
    subvolumes = 1 ∷ [];
    mounted = [];
    info_dirs = 1 ∷ [];
    infos = [];
    file_lists = [];
    left_over = [];
  };
}

abbrev pub root : MetaSnapper
root = record { config_name = codes "r"; uids = 1000 ∷ []; use_count = 0; snapshots = snapshots }

abbrev client : Text → List Mount → Client
client name mounts = record {
  name = name;
  zombie = false;
  comparisons = [];
  locks = [];
  mounts = mounts;
}

abbrev one_mount : List Mount
one_mount = record { config_name = codes "r"; number = 1; use_count = 2 } ∷ []

abbrev daemon : List Mount → Daemon
daemon mounts = record {
  meta_snappers = root ∷ [];
  clients = client (codes "a") [] ∷ client (codes "b") mounts ∷ [];
  pending = [];
  backgrounds = [];
  worked = none;
  signals = [];
}

mounted_stays :
    (delete_snapshots no_faults (codes "a") 1000 (codes "r") (1 ∷ []) (daemon one_mount)).0
    ≡ err snapshot_in_use
unfolding delete_snapshots text_eq
mounted_stays = refl

refused-Unchanged_example :
    (lock_config (codes "a") 7 (codes "r") (daemon []) ≡ (err permissions, daemon []))
    × (unlock_config (codes "a") 7 (codes "r") (daemon []) ≡ (err permissions, daemon []))
    × (set_snapshot no_faults 7 (codes "r") 1 [] [] [] (daemon []) ≡ (err permissions, daemon []))
    × (create_single_snapshot no_faults (pos 200) 7 (codes "r") [] [] [] (daemon [])
        ≡ (err permissions, daemon []))
    × (create_pre_snapshot no_faults (pos 200) 7 (codes "r") [] [] [] (daemon [])
        ≡ (err permissions, daemon []))
    × (create_post_snapshot no_faults (pos 200) true 7 (codes "r") 1 [] [] [] (daemon [])
        ≡ (err permissions, daemon []))
    × (delete_snapshots no_faults (codes "a") 7 (codes "r") (1 ∷ []) (daemon [])
        ≡ (err permissions, daemon []))
    × (mount_snapshot no_faults (codes "a") 7 (codes "r") 1 true (daemon [])
        ≡ (err permissions, daemon []))
    × (umount_snapshot no_faults (codes "a") 7 (codes "r") 1 true (daemon [])
        ≡ (err permissions, daemon []))
    × (begin_comparison (codes "a") 7 (codes "r") 1 2 (daemon []) ≡ (err permissions, daemon []))
    × (delete_comparison (codes "a") 7 (codes "r") 1 2 (daemon []) ≡ (err permissions, daemon []))
unfolding find_config is_permitted text_eq
refused-Unchanged_example =
    refused-Unchanged no_faults (codes "a") (codes "r") [] [] 7 1 2 (1 ∷ []) (pos 200) true []
      (daemon []) permissions refl

abbrev after_deletion : Daemon
unfolding delete_snapshots text_eq
after_deletion = (delete_snapshots no_faults (codes "a") 1000 (codes "r") (1 ∷ []) (daemon [])).1

delete_snapshots-Allowed_example :
    (it : MetaSnapper) × (find_config (codes "r") (daemon []).meta_snappers ≡ some it)
    × (is_permitted 1000 it ≡ true)
    × (locked_by_other (codes "a") (codes "r") (daemon []).clients ≡ false)
    × (it.use_count ≡ 0)
    × All (λ n. mounted_by_any (codes "r") n (daemon []).clients ≡ false) (1 ∷ [])
unfolding delete_snapshots text_eq after_deletion
delete_snapshots-Allowed_example =
    delete_snapshots-Allowed no_faults (codes "a") (codes "r") 1000 (1 ∷ []) (daemon [])
      after_deletion refl
