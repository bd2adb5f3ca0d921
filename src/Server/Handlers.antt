-- ===== src/Server/Handlers.antt =====
-- The methods of `Client` on the snapshots of a configuration: `me` is the client and `uid` the user
-- that the message comes from. What they send as a reply is their result.
use ok_snap.Base.{ℕ, Bool, List, [], ◌∷◌, ◌++◌, if◌then◌else◌, ℤ, Text, text_eq}
use ok_snap.Snapshots.Entry.{Entry}
use ok_snap.Exec.{Exec, ok, modify, pure, ◌>>=◌, ◌>>◌}
use ok_snap.Snapshots.Types.{Snapshot}
use ok_snap.Snapshots.Disk.{Faults}
use ok_snap.Snapshots.Entry
use ok_snap.Snapshots.Table
use ok_snap.Snapshots.Table.{Snapshots, on_entry}
use ok_snap.Snapshots.Ops
use ok_snap.Server.State.{
  Daemon, Client, Task, snapshot_created, snapshot_modified, snapshots_deleted, meta_find,
  check_permission, check_lock, check_config_in_use, check_snapshot_in_use, on_snapshots, on_client,
  send_signal, inc_use_count,
}
use ok_snap.Server.Mounts.{add_mount, remove_mount}

-- `set<string>::insert` and `erase`
unfoldable pub add_lock : Text → List Text → List Text
add_lock config_name [] = config_name ∷ []
add_lock config_name (l ∷ ls) =
    if text_eq l config_name then l ∷ ls else l ∷ add_lock config_name ls

unfoldable pub remove_lock : Text → List Text → List Text
remove_lock config_name [] = []
remove_lock config_name (l ∷ ls) =
    if text_eq l config_name then ls else l ∷ remove_lock config_name ls

abbrev pub change_client : Text → (Client → Client) → Exec Daemon (Unit {0})
change_client me f d = (ok tt, record d { clients = on_client me f d.clients })

unfoldable pub lock_config : Text → ℕ → Text → Exec Daemon (Unit {0})
unfolding meta_find check_permission on_client add_lock
lock_config me uid config_name = do
  it ← meta_find config_name
  check_permission uid it
  change_client me (λ c. record c { locks = add_lock config_name c.locks })

unfoldable pub unlock_config : Text → ℕ → Text → Exec Daemon (Unit {0})
unfolding meta_find check_permission on_client remove_lock
unlock_config me uid config_name = do
  it ← meta_find config_name
  check_permission uid it
  change_client me (λ c. record c { locks = remove_lock config_name c.locks })

-- A method of the snapshot with a number, which must be there.
unfoldable pub on_snapshot : {A : Type 0} → Text → ℕ → Exec Entry.Entry A → Exec Daemon A
unfolding on_snapshots on_entry
on_snapshot config_name num m = on_snapshots config_name (on_entry num m)

-- `Backgrounds::add_task`
unfoldable pub add_task : Text → ℕ → ℕ → Daemon → Daemon
unfolding inc_use_count
add_task config_name num1 num2 d =
    let task : Task = record { config_name = config_name; num1 = num1; num2 = num2 } in
    inc_use_count config_name (record d { backgrounds = d.backgrounds ++ task ∷ [] })

module _ (faults : Faults) where
  -- The setters that the methods below call, and `flushInfo`.
  unfoldable pub set_fields : Text → List (Text × Text) → Exec Entry.Entry (Unit {0})
  unfolding Entry.set_cleanup Entry.set_userdata Entry.flush_info
  set_fields cleanup userdata = do
    Entry.set_cleanup cleanup
    Entry.set_userdata userdata
    Entry.flush_info faults

  unfoldable pub set_snapshot :
      ℕ → Text → ℕ → Text → Text → List (Text × Text) → Exec Daemon (Unit {0})
  unfolding meta_find check_permission on_snapshot set_fields Entry.set_description
  set_snapshot uid config_name num description cleanup userdata = do
    it ← meta_find config_name
    check_permission uid it
    on_snapshot config_name num (do Entry.set_description description; set_fields cleanup userdata)
    send_signal (snapshot_modified config_name num)

  -- What follows the creation of a snapshot: `setUid` and the setters.
  unfoldable pub describe : ℕ → Text → Text → List (Text × Text) → Snapshot → Exec Daemon ℕ
  unfolding on_snapshot set_fields Entry.set_uid
  describe uid config_name cleanup userdata snap = do
    on_snapshot config_name snap.num (do Entry.set_uid uid; set_fields cleanup userdata)
    pure snap.num

  abbrev pub reply_created : Text → ℕ → Exec Daemon ℕ
  reply_created config_name num = do send_signal (snapshot_created config_name num); pure num

  -- `now` is `time(NULL)`.
  unfoldable pub create_single_snapshot :
      ℤ → ℕ → Text → Text → Text → List (Text × Text) → Exec Daemon ℕ
  unfolding meta_find check_permission on_snapshots Ops.create_single_snapshot describe
  create_single_snapshot now uid config_name description cleanup userdata = do
    it ← meta_find config_name
    check_permission uid it
    snap1 ← on_snapshots config_name (Ops.create_single_snapshot faults now description)
    num ← describe uid config_name cleanup userdata snap1
    reply_created config_name num

  unfoldable pub create_pre_snapshot :
      ℤ → ℕ → Text → Text → Text → List (Text × Text) → Exec Daemon ℕ
  unfolding meta_find check_permission on_snapshots Ops.create_pre_snapshot describe
  create_pre_snapshot now uid config_name description cleanup userdata = do
    it ← meta_find config_name
    check_permission uid it
    snap1 ← on_snapshots config_name (Ops.create_pre_snapshot faults now description)
    num ← describe uid config_name cleanup userdata snap1
    reply_created config_name num

  -- `background` says that `BACKGROUND_COMPARISON` is not set, or set to `yes`.
  unfoldable pub create_post_snapshot :
      ℤ → Bool → ℕ → Text → ℕ → Text → Text → List (Text × Text) → Exec Daemon ℕ
  unfolding meta_find check_permission on_snapshots Ops.create_post_snapshot Table.find describe
      add_task
  create_post_snapshot now background uid config_name pre_num description cleanup userdata = do
    it ← meta_find config_name
    check_permission uid it
    snap2 ←
        on_snapshots config_name
          (λ s. Ops.create_post_snapshot faults now description (Table.find pre_num s.entries) s)
    num ← describe uid config_name cleanup userdata snap2
    modify (λ d. if background then add_task config_name pre_num num d else d)
    reply_created config_name num

  -- `snapper->deleteSnapshot(snapshots.find(num))`
  unfoldable pub delete_one : ℕ → Exec Snapshots (Unit {0})
  unfolding Ops.delete_snapshot Table.find
  delete_one num s = Ops.delete_snapshot faults (Table.find num s.entries) s

  -- The loop of `delete_snapshots`.
  unfoldable pub delete_each : Text → List ℕ → Exec Daemon (Unit {0})
  unfolding check_snapshot_in_use on_snapshots delete_one
  delete_each config_name [] d = (ok tt, d)
  delete_each config_name (num ∷ nums) d =
      (do
        check_snapshot_in_use config_name num
        on_snapshots config_name (delete_one num)
        delete_each config_name nums)
        d

  unfoldable pub delete_snapshots : Text → ℕ → Text → List ℕ → Exec Daemon (Unit {0})
  unfolding meta_find check_permission check_lock delete_each
  delete_snapshots me uid config_name nums = do
    it ← meta_find config_name
    check_permission uid it
    check_lock me config_name
    check_config_in_use it
    delete_each config_name nums
    send_signal (snapshots_deleted config_name nums)

  unfoldable pub mount_snapshot : Text → ℕ → Text → ℕ → Bool → Exec Daemon (Unit {0})
  unfolding meta_find check_permission on_snapshot Entry.mount_filesystem_snapshot on_client
      add_mount
  mount_snapshot me uid config_name num user_request = do
    it ← meta_find config_name
    check_permission uid it
    on_snapshot config_name num (Entry.mount_filesystem_snapshot faults user_request)
    if user_request
        then pure tt
        else change_client me (λ c. record c { mounts = add_mount config_name num c.mounts })

  unfoldable pub umount_snapshot : Text → ℕ → Text → ℕ → Bool → Exec Daemon (Unit {0})
  unfolding meta_find check_permission on_snapshot Entry.umount_filesystem_snapshot on_client
      remove_mount
  umount_snapshot me uid config_name num user_request = do
    it ← meta_find config_name
    check_permission uid it
    on_snapshot config_name num (Entry.umount_filesystem_snapshot faults user_request)
    if user_request
        then pure tt
        else change_client me (λ c. record c { mounts = remove_mount config_name num c.mounts })
