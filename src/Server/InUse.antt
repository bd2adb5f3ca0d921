-- ===== src/Server/InUse.antt =====
-- The use counts in every state that the daemon can come to.
use ok_snap.Base.{
  ℕ, ◌≡◌, refl, ap, inl, inr, Bool, true, false, none, some, List, [], ◌∷◌, arith, Bool-cases, All,
  ℤ, Text, text_eq,
}
use ok_snap.Server.Deletion.{delete_snapshots-Allowed}
use ok_snap.Server.Handlers.{delete_snapshots}
use ok_snap.Server.Counted.Zombies.{delete_comparison-IsBalanced, remove_each-IsBalanced}
use ok_snap.Server.Counted.Methods.{
  create_pre_snapshot-IsBalanced, create_single_snapshot-IsBalanced, delete_snapshots-IsBalanced,
  lock_config-IsBalanced, mount_snapshot-IsBalanced, set_snapshot-IsBalanced,
  umount_snapshot-IsBalanced, unlock_config-IsBalanced,
}
use ok_snap.Server.Counted.Tasks.{create_post_snapshot-IsBalanced, work_on-IsBalanced}
use ok_snap.Server.Counted.Clients.{begin_comparison-IsBalanced, end_comparison-IsBalanced}
use ok_snap.Snapshots.Disk.{Faults}
use ok_snap.Exec.{Exec, ok}
use ok_snap.Exec.Keeps.{Keeps, bind-Keeps}
use ok_snap.Server.Counted.{IsBalanced, change_client-IsBalanced}
use ok_snap.Server.State.{Daemon, MetaSnapper, use_of, find_config}
use ok_snap.Server.Uses.{held, held_by, held_by-append, count, waiting, queued}
use ok_snap.Server.Loop.{
  done, Request, has_client, remove_zombies, dispatch, connect, disconnect, work, lock_config_of,
  unlock_config_of, set_snapshot_of, create_single_of, create_pre_of, create_post_of,
  delete_snapshots_of, mount_of, umount_of, create_comparison_of, delete_comparison_of,
}
use ok_snap.Server.Reach.{
  Step, Reach, call, later, start, period, compare_end, background_work, background_pop, connection,
  disconnection,
}

unused : (name : Text) (ms : List MetaSnapper) → All (λ m. m.use_count ≡ 0) ms → use_of name ms ≡ 0
unfolding use_of
unused name [] h = refl
unused name (m ∷ ms) h = elim (Bool-cases (text_eq m.config_name name)) [
  | inl hit ↦ rw hit h.0
  | inr miss ↦ rw (miss, unused name ms h.1)
]

done-IsBalanced : (m : Exec Daemon ℕ) → Keeps IsBalanced m → Keeps IsBalanced (done m)
done-IsBalanced m keeps = bind-Keeps IsBalanced _ m keeps (λ _ d h. h)

dispatch-IsBalanced :
    (faults : Faults) (me : Text) (uid : ℕ) (now : ℤ) (background : Bool) (r : Request)
    → Keeps IsBalanced (dispatch faults me uid now background r)
unfolding dispatch
dispatch-IsBalanced faults me uid now background (lock_config_of c) =
    lock_config-IsBalanced me uid c
dispatch-IsBalanced faults me uid now background (unlock_config_of c) =
    unlock_config-IsBalanced me uid c
dispatch-IsBalanced faults me uid now background (set_snapshot_of c n t cl u) =
    set_snapshot-IsBalanced faults uid c n t cl u
dispatch-IsBalanced faults me uid now background (create_single_of c t cl u) =
    done-IsBalanced _ (create_single_snapshot-IsBalanced faults now uid c t cl u)
dispatch-IsBalanced faults me uid now background (create_pre_of c t cl u) =
    done-IsBalanced _ (create_pre_snapshot-IsBalanced faults now uid c t cl u)
dispatch-IsBalanced faults me uid now background (create_post_of c n t cl u) =
    done-IsBalanced _ (create_post_snapshot-IsBalanced faults now background uid c n t cl u)
dispatch-IsBalanced faults me uid now background (delete_snapshots_of c ns) =
    delete_snapshots-IsBalanced faults me uid c ns
dispatch-IsBalanced faults me uid now background (mount_of c n b) =
    mount_snapshot-IsBalanced faults me uid c n b
dispatch-IsBalanced faults me uid now background (umount_of c n b) =
    umount_snapshot-IsBalanced faults me uid c n b
dispatch-IsBalanced faults me uid now background (create_comparison_of c n1 n2) =
    begin_comparison-IsBalanced me uid c n1 n2
dispatch-IsBalanced faults me uid now background (delete_comparison_of c n1 n2) =
    delete_comparison-IsBalanced me uid c n1 n2

connect-IsBalanced : (me : Text) (d : Daemon) → IsBalanced d → IsBalanced (connect me d)
unfolding connect held_by count
connect-IsBalanced me d h = elim (Bool-cases (has_client me d.clients)) [
  | inl there ↦ rw there h
  | inr new ↦ rw new (λ name. omega (
    arith,
    h name,
    held_by-append name d.clients
        (record { name = me; zombie = false; comparisons = []; locks = []; mounts = [] } ∷ []),
  ))
]

Step-IsBalanced : (faults : Faults) {d t : Daemon} → Step faults d t → IsBalanced d → IsBalanced t
unfolding remove_zombies disconnect work
Step-IsBalanced faults (call me uid now background r here idle) h name =
    dispatch-IsBalanced faults me uid now background r _ h name
Step-IsBalanced faults (compare_end me outcome here) h name =
    end_comparison-IsBalanced me outcome _ here h name
Step-IsBalanced faults {d} background_work h name =
    (work_on-IsBalanced d.worked d.backgrounds d refl h).1 name
Step-IsBalanced faults background_pop h name = h name
Step-IsBalanced faults (connection me) h name = connect-IsBalanced me _ h name
Step-IsBalanced faults {d} (disconnection me) h name =
    change_client-IsBalanced me (λ c. record c { zombie = true }) (λ c. refl) d h name
Step-IsBalanced faults {d} (period joined ended) h name =
    remove_each-IsBalanced faults joined [] d.clients d refl h name

-- In every state that the daemon can come to, whatever the clients call in whatever order, the use
-- count of each configuration is the number of the uses that are held: the comparisons that clients
-- keep and that are being made, and the tasks that wait for the background comparison.
pub Reach-IsBalanced :
    (faults : Faults) (d : Daemon) (name : Text)
    → Reach faults d
    → use_of name d.meta_snappers ≡ held name d
unfolding held_by count
Reach-IsBalanced faults d name (start ms fresh) = unused name ms fresh
Reach-IsBalanced faults d name (later r s) =
    Step-IsBalanced faults s (λ n. Reach-IsBalanced faults _ n r) name

find-use_of :
    (cn : Text) (ms : List MetaSnapper) (it : MetaSnapper)
    → find_config cn ms ≡ some it
    → use_of cn ms ≡ it.use_count
unfolding find_config use_of
find-use_of cn [] it h = cc
find-use_of cn (m ∷ ms) it h = elim (Bool-cases (text_eq m.config_name cn)) [
  | inl hit ↦
      let found_it : some m ≡ some it = rw hit at h in
      rw hit (ap (λ o. elim o [ none ↦ m.use_count | some x ↦ MetaSnapper.use_count x ]) found_it)
  | inr miss ↦ let ih = find-use_of cn ms it (rw miss at h) in rw miss ih
]

-- When a call of `delete_snapshots` returns in a state that the daemon can come to, no client keeps
-- or makes a comparison of the configuration, and no background comparison of it waits.
pub delete_snapshots-NotHeld :
    (faults : Faults) (me cn : Text) (uid : ℕ) (nums : List ℕ) (d t : Daemon)
    → Reach faults d
    → delete_snapshots faults me uid cn nums d ≡ (ok tt, t)
    → (held_by cn d.clients ≡ 0) × (waiting cn d.pending ≡ 0) × (queued cn d.backgrounds ≡ 0)
delete_snapshots-NotHeld faults me cn uid nums d t r h =
    let (it, hit, may, free, idle, rest) = delete_snapshots-Allowed faults me cn uid nums d t h in
    let none_held = Reach-IsBalanced faults d cn r in
    let same = find-use_of cn d.meta_snappers it hit in
    (
      omega (arith, none_held, same, idle),
      omega (arith, none_held, same, idle),
      omega (arith, none_held, same, idle),
    )
