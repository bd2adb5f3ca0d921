-- ===== src/Snapshots/Entry.antt =====
-- The methods of `Snapshot` (snapper/Snapshot.cc), on a snapshot and the disk that it is on.
pub mod Mounted
mod Tests
use ok_snap.Base.{
  ℕ, ◌+◌, ◌-◌, ◌%◌, ◌^◌, Bool, true, false, not, ◌&&◌, ◌||◌, Option, none, some, List, [], ◌∷◌, map,
  ◌==◌, if◌then◌else◌, Text,
}
use ok_snap.Files.Listing.{c_str}
use ok_snap.Exec.{
  ◌>>=◌, ◌>>◌, Exec, ok, modify, throw_if, gets, pure, illegal_snapshot, invalid_userdata,
}
use ok_snap.Snapshots.Types.{Snapshot, post, is_current, type_eq, type_name}
use ok_snap.Snapshots.Disk
use ok_snap.Snapshots.Disk.{Disk, Faults, Info, Conversions}

pub record Entry : Type 0 where
  pub snapshot : Snapshot
  pub disk : Disk

abbrev on_disk : {A : Type 0} → Exec Disk A → Exec Entry A
on_disk m s = let (r, d) = m s.disk in (r, record s { disk = d })

abbrev change : (Snapshot → Snapshot) → Exec Entry (Unit {0})
change f = modify (λ s. record s { snapshot = f s.snapshot })

-- `if (isCurrent()) throw IllegalSnapshotException();`
abbrev not_current : Exec Entry (Unit {0})
not_current s = throw_if (is_current s.snapshot) illegal_snapshot s

unfoldable pub set_uid : ℕ → Exec Entry (Unit {0})
set_uid val = do not_current; change (λ s. record s { uid = val; info_modified = true })

unfoldable pub set_description : Text → Exec Entry (Unit {0})
set_description val = do
  not_current
  change (λ s. record s { description = val; info_modified = true })

unfoldable pub set_cleanup : Text → Exec Entry (Unit {0})
set_cleanup val = do not_current; change (λ s. record s { cleanup = val; info_modified = true })

-- `find_first_of(",=") != string::npos`
unfoldable pub has_separator : Text → Bool
has_separator [] = false
has_separator (c ∷ s) = c == b',' || c == b'=' || has_separator s

unfoldable pub is_empty : Text → Bool
is_empty [] = true
is_empty (c ∷ s) = false

-- The loop of `setUserdata` finds something to refuse.
unfoldable pub is_invalid : List (Text × Text) → Bool
unfolding has_separator is_empty
is_invalid [] = false
is_invalid ((k, v) ∷ rest) = is_empty k || has_separator k || has_separator v || is_invalid rest

unfoldable pub set_userdata : List (Text × Text) → Exec Entry (Unit {0})
unfolding is_invalid
set_userdata val = do
  not_current
  throw_if (is_invalid val) invalid_userdata
  change (λ s. record s { userdata = val; info_modified = true })

-- `setChildValue`, unless the text is empty: the document gets a C string.
unfoldable pub text_node : Text → Option Text
unfolding c_str
text_node [] = none
text_node (c ∷ s) = some (c_str (c ∷ s))

-- The document that `writeInfo` makes.
unfoldable pub info_of : Conversions → Snapshot → Info
unfolding text_node c_str type_name
info_of conversions s = record {
  type = some (type_name s.type);
  num = some (conversions.dec_string s.num);
  date = some (conversions.datetime s.date);
  uid = some (conversions.dec_string s.uid);
  pre_num = if type_eq s.type post then some (conversions.dec_string s.pre_num) else none;
  description = text_node s.description;
  cleanup = text_node s.cleanup;
  userdata = map (λ kv. (c_str kv.0, c_str kv.1)) s.userdata;
}

module _ (faults : Faults) where
  unfoldable pub write_info : Exec Entry (Unit {0})
  unfolding Disk.open_info_dir Disk.save_info info_of
  write_info = do
    not_current
    n ← gets (λ s. s.snapshot.num)
    on_disk (Disk.open_info_dir n)
    i ← gets (λ s. info_of faults.conversions s.snapshot)
    on_disk (Disk.save_info faults n i)

  unfoldable pub flush_info : Exec Entry (Unit {0})
  unfolding write_info
  flush_info s =
      if not s.snapshot.info_modified
      then (ok tt, s)
      else (do write_info; change (λ s. record s { info_modified = false })) s

  -- The first use of the mount counters asks the filesystem whether a user had it mounted before.
  unfoldable pub check_mount : Exec Entry (Unit {0})
  unfolding Disk.fs_is_mounted
  check_mount s =
      if s.snapshot.mount_checked
      then (ok tt, s)
      else (do
        m ← on_disk (Disk.fs_is_mounted faults s.snapshot.num)
        change (λ s. record s { mount_user_request = m; mount_checked = true }))
          s

  unfoldable pub mount_filesystem_snapshot : Bool → Exec Entry (Unit {0})
  unfolding check_mount Disk.fs_mount
  mount_filesystem_snapshot user_request = do
    not_current
    check_mount
    change (λ s.
        if user_request
        then record s { mount_user_request = true }
        else record s { mount_use_count = (s.mount_use_count + 1) % 2 ^ 32 })
    n ← gets (λ s. s.snapshot.num)
    on_disk (Disk.fs_mount faults n)

  unfoldable pub umount_filesystem_snapshot : Bool → Exec Entry (Unit {0})
  unfolding check_mount Disk.fs_umount
  umount_filesystem_snapshot user_request = do
    not_current
    check_mount
    change (λ s.
        if user_request
        then record s { mount_user_request = false }
        else record s { mount_use_count = (s.mount_use_count + 2 ^ 32 - 1) % 2 ^ 32 })
    idle ← gets (λ s. user_request && s.snapshot.mount_use_count == 0)
    n ← gets (λ s. s.snapshot.num)
    on_disk (if idle then Disk.fs_umount faults n else pure tt)

  unfoldable pub handle_umount_filesystem_snapshot : Exec Entry (Unit {0})
  unfolding Disk.fs_umount
  handle_umount_filesystem_snapshot s =
      if not s.snapshot.mount_checked
      then (ok tt, s)
      else if not s.snapshot.mount_user_request && s.snapshot.mount_use_count == 0
      then on_disk (Disk.fs_umount faults s.snapshot.num) s
      else (ok tt, s)

  unfoldable pub create_filesystem_snapshot : Exec Entry (Unit {0})
  unfolding Disk.fs_create
  create_filesystem_snapshot = do
    not_current
    n ← gets (λ s. s.snapshot.num)
    on_disk (Disk.fs_create faults n)

  unfoldable pub delete_filesystem_snapshot : Exec Entry (Unit {0})
  unfolding Disk.fs_umount Disk.fs_delete
  delete_filesystem_snapshot = do
    not_current
    n ← gets (λ s. s.snapshot.num)
    on_disk (Disk.fs_umount faults n)
    on_disk (Disk.fs_delete faults n)
