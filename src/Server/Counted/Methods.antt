-- ===== src/Server/Counted/Methods.antt =====
-- Each method on snapshots keeps the use counts right.
use ok_snap.Base.{ℕ, ◌≡◌, refl, Bool, true, false, not, List, [], ◌∷◌, ◌==◌, if◌then◌else◌, ℤ, Text}
use ok_snap.Server.Handlers.{
  change_client, delete_each, delete_one, delete_snapshots, lock_config, mount_snapshot,
  on_snapshot, reply_created, set_snapshot, umount_snapshot, unlock_config, describe,
  create_single_snapshot, create_pre_snapshot,
}
use ok_snap.Snapshots.Table.{Snapshots}
use ok_snap.Snapshots.Types.{Snapshot}
use ok_snap.Snapshots.Disk.{Faults}
use ok_snap.Exec.{Exec, pure, ◌>>=◌, locked, config_in_use, snapshot_in_use}
use ok_snap.Exec.Keeps.{Keeps, bind-Keeps, throw_if-Keeps}
use ok_snap.Server.Counted.{
  IsBalanced, change_client-IsBalanced, guarded-IsBalanced, on_snapshots-IsBalanced,
}
use ok_snap.Server.State.{
  Daemon, Client, check_config_in_use, check_lock, check_snapshot_in_use, locked_by_other,
  mounted_by_any, on_snapshots,
}

-- What follows a call on snapshots.
after_snapshots :
    {A B : Type 0} (cn : Text) (m : Exec Snapshots A) (next : A → Exec Daemon B)
    → ((a : A) → Keeps IsBalanced (next a))
    → Keeps IsBalanced (on_snapshots cn m >>= next)
after_snapshots cn m next each =
    bind-Keeps IsBalanced next (on_snapshots cn m) (on_snapshots-IsBalanced cn m) each

pub lock_config-IsBalanced :
    (me : Text) (uid : ℕ) (cn : Text) → Keeps IsBalanced (lock_config me uid cn)
unfolding lock_config
lock_config-IsBalanced me uid cn =
    guarded-IsBalanced uid cn _ (λ it d hit. change_client-IsBalanced me _ (λ c. refl) d)

pub unlock_config-IsBalanced :
    (me : Text) (uid : ℕ) (cn : Text) → Keeps IsBalanced (unlock_config me uid cn)
unfolding unlock_config
unlock_config-IsBalanced me uid cn =
    guarded-IsBalanced uid cn _ (λ it d hit. change_client-IsBalanced me _ (λ c. refl) d)

module _ (faults : Faults) where
  pub set_snapshot-IsBalanced :
      (uid : ℕ) (cn : Text) (num : ℕ) (description cleanup : Text) (userdata : List (Text × Text))
      → Keeps IsBalanced (set_snapshot faults uid cn num description cleanup userdata)
  unfolding set_snapshot on_snapshot
  set_snapshot-IsBalanced uid cn num description cleanup userdata =
      guarded-IsBalanced uid cn _ (λ it d hit. after_snapshots cn _ _ (λ _ d h. h) d)

  -- What a creation does behind `createSnapshot`.
  described :
      (uid : ℕ) (cn cleanup : Text) (userdata : List (Text × Text)) (snap : Snapshot)
      → Keeps IsBalanced
          (describe faults uid cn cleanup userdata snap >>= (λ num. reply_created faults cn num))
  unfolding describe on_snapshot
  described uid cn cleanup userdata snap =
      bind-Keeps IsBalanced _ (describe faults uid cn cleanup userdata snap)
        (after_snapshots cn _ _ (λ _ d h. h)) (λ num d h. h)

  pub create_single_snapshot-IsBalanced :
      (now : ℤ) (uid : ℕ) (cn description cleanup : Text) (userdata : List (Text × Text))
      → Keeps IsBalanced (create_single_snapshot faults now uid cn description cleanup userdata)
  unfolding create_single_snapshot
  create_single_snapshot-IsBalanced now uid cn description cleanup userdata =
      guarded-IsBalanced uid cn _
        (λ it d hit. after_snapshots cn _ _ (described uid cn cleanup userdata) d)

  pub create_pre_snapshot-IsBalanced :
      (now : ℤ) (uid : ℕ) (cn description cleanup : Text) (userdata : List (Text × Text))
      → Keeps IsBalanced (create_pre_snapshot faults now uid cn description cleanup userdata)
  unfolding create_pre_snapshot
  create_pre_snapshot-IsBalanced now uid cn description cleanup userdata =
      guarded-IsBalanced uid cn _
        (λ it d hit. after_snapshots cn _ _ (described uid cn cleanup userdata) d)

  pub delete_each-IsBalanced :
      (cn : Text) (nums : List ℕ) → Keeps IsBalanced (delete_each faults cn nums)
  unfolding delete_each check_snapshot_in_use
  delete_each-IsBalanced cn [] d h = h
  delete_each-IsBalanced cn (n ∷ ns) d h =
      bind-Keeps IsBalanced _ (check_snapshot_in_use cn n)
        (λ d. throw_if-Keeps IsBalanced (mounted_by_any cn n d.clients) snapshot_in_use d)
        (λ _. after_snapshots cn (delete_one faults n) _ (λ _. delete_each-IsBalanced cn ns)) d h

  pub delete_snapshots-IsBalanced :
      (me : Text) (uid : ℕ) (cn : Text) (nums : List ℕ)
      → Keeps IsBalanced (delete_snapshots faults me uid cn nums)
  unfolding delete_snapshots check_lock
  delete_snapshots-IsBalanced me uid cn nums = guarded-IsBalanced uid cn _ (λ it d hit.
      bind-Keeps IsBalanced _ (check_lock me cn)
        (λ d. throw_if-Keeps IsBalanced (locked_by_other me cn d.clients) locked d)
        (λ _.
          bind-Keeps IsBalanced _ (check_config_in_use it)
            (throw_if-Keeps IsBalanced (not (it.use_count == 0)) config_in_use)
            (λ _.
              bind-Keeps IsBalanced _ (delete_each faults cn nums) (delete_each-IsBalanced cn nums)
                (λ _ d h. h)))
        d)

  change_mounts :
      (me : Text) (user_request : Bool) (f : Client → Client)
      → ((c : Client) → (f c).comparisons ≡ c.comparisons)
      → Keeps IsBalanced (if user_request then pure tt else change_client me f)
  change_mounts me true f same d h = h
  change_mounts me false f same d h = change_client-IsBalanced me f same d h

  pub mount_snapshot-IsBalanced :
      (me : Text) (uid : ℕ) (cn : Text) (num : ℕ) (user_request : Bool)
      → Keeps IsBalanced (mount_snapshot faults me uid cn num user_request)
  unfolding mount_snapshot on_snapshot
  mount_snapshot-IsBalanced me uid cn num user_request =
      guarded-IsBalanced uid cn _
        (λ it d hit. after_snapshots cn _ _ (λ _. change_mounts me user_request _ (λ c. refl)) d)

  pub umount_snapshot-IsBalanced :
      (me : Text) (uid : ℕ) (cn : Text) (num : ℕ) (user_request : Bool)
      → Keeps IsBalanced (umount_snapshot faults me uid cn num user_request)
  unfolding umount_snapshot on_snapshot
  umount_snapshot-IsBalanced me uid cn num user_request =
      guarded-IsBalanced uid cn _
        (λ it d hit. after_snapshots cn _ _ (λ _. change_mounts me user_request _ (λ c. refl)) d)
