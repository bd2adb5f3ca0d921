-- ===== src/Server/Denied.antt =====
-- Who may not call a method, and what a call does then: nothing.
use ok_snap.Base.{
  ℕ, ◌≡◌, ap, inl, inr, Bool, Option, none, some, List, if◌then◌else◌, Bool-cases, ℤ, Text,
}
use ok_snap.Exec.{Exec, Exception, err, unknown_config, permissions, ◌>>=◌, ◌>>◌}
use ok_snap.Snapshots.Disk.{Faults}
use ok_snap.Server.State.{
  found, Daemon, MetaSnapper, find_config, is_permitted, meta_find, check_permission,
}
use ok_snap.Server.Comparisons.{begin_comparison, delete_comparison}
use ok_snap.Server.Handlers.{
  lock_config, unlock_config, set_snapshot, create_single_snapshot, create_pre_snapshot,
  create_post_snapshot, delete_snapshots, mount_snapshot, umount_snapshot,
}

-- The exception that a user meets: there is no such configuration, or the user is neither root nor
-- one of its users.
abbrev pub refusal : ℕ → Option MetaSnapper → Option Exception
refusal uid none = some unknown_config
refusal uid (some m) = if is_permitted uid m then none else some permissions

some_inj : (x y : Exception) → some x ≡ some y → x ≡ y
some_inj x y h = ap (λ o. elim o [ none ↦ x | some z ↦ z ]) h

refused :
    {A : Type 0} (uid : ℕ) (rest : MetaSnapper → Exec Daemon A) (d : Daemon) (e : Exception)
    (o : Option MetaSnapper)
    → refusal uid o ≡ some e
    → (found o >>= λ it. check_permission uid it >> rest it) d ≡ (err e, d)
unfolding check_permission
refused uid rest d e none h = ap (λ x. (err x, d)) (some_inj unknown_config e h)
refused uid rest d e (some m) h = elim (Bool-cases (is_permitted uid m)) [
  | inl may ↦ absurd (let clash : none ≡ some e = rw may at h in cc)
  | inr may_not ↦
      let same : some permissions ≡ some e = rw may_not at h in
      let answer : (err permissions, d) ≡ (err e, d) =
        ap (λ x. (err x, d)) (some_inj permissions e same) in
      (rw may_not answer)
]

guarded :
    {A : Type 0} (uid : ℕ) (config_name : Text) (rest : MetaSnapper → Exec Daemon A) (d : Daemon)
    (e : Exception)
    → refusal uid (find_config config_name d.meta_snappers) ≡ some e
    → (meta_find config_name >>= λ it. check_permission uid it >> rest it) d ≡ (err e, d)
unfolding meta_find check_permission
guarded uid config_name rest d e h =
    refused uid rest d e (find_config config_name d.meta_snappers) h

-- A user who may not use a configuration, or who names one that there is not, gets that exception
-- from the methods that lock, unlock, set, create, delete, mount and unmount and from those that
-- create and delete a comparison, and nothing changes: not a snapshot, a lock, a mount or a
-- comparison, and no signal is sent.
pub refused-Unchanged :
    (faults : Faults) (me config_name description cleanup : Text) (uid num num2 : ℕ) (nums : List ℕ)
    (now : ℤ) (flag : Bool) (userdata : List (Text × Text)) (d : Daemon) (e : Exception)
    → refusal uid (find_config config_name d.meta_snappers) ≡ some e
    → (lock_config me uid config_name d ≡ (err e, d))
      × (unlock_config me uid config_name d ≡ (err e, d))
      × (set_snapshot faults uid config_name num description cleanup userdata d ≡ (err e, d))
      × (create_single_snapshot faults now uid config_name description cleanup userdata d
          ≡ (err e, d))
      × (create_pre_snapshot faults now uid config_name description cleanup userdata d ≡ (err e, d))
      × (create_post_snapshot faults now flag uid config_name num description cleanup userdata d
          ≡ (err e, d))
      × (delete_snapshots faults me uid config_name nums d ≡ (err e, d))
      × (mount_snapshot faults me uid config_name num flag d ≡ (err e, d))
      × (umount_snapshot faults me uid config_name num flag d ≡ (err e, d))
      × (begin_comparison me uid config_name num num2 d ≡ (err e, d))
      × (delete_comparison me uid config_name num num2 d ≡ (err e, d))
unfolding lock_config unlock_config set_snapshot create_single_snapshot create_pre_snapshot
    create_post_snapshot delete_snapshots mount_snapshot umount_snapshot begin_comparison
    delete_comparison
refused-Unchanged faults me config_name description cleanup uid num num2 nums now flag userdata d e
      h =
    (
      guarded uid config_name _ d e h,
      guarded uid config_name _ d e h,
      guarded uid config_name _ d e h,
      guarded uid config_name _ d e h,
      guarded uid config_name _ d e h,
      guarded uid config_name _ d e h,
      guarded uid config_name _ d e h,
      guarded uid config_name _ d e h,
      guarded uid config_name _ d e h,
      guarded uid config_name _ d e h,
      guarded uid config_name _ d e h,
    )
