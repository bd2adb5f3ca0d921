-- ===== src/Server/Loop.antt =====
-- What the daemon does in a step: a method call (`Client::dispatch`), the end of a comparison, the
-- worker of server/Background.cc, and the main loop of server/snapperd.cc.
use ok_snap.Base.{
  ℕ, zero, suc, Bool, true, false, ◌&&◌, Option, none, some, List, [], ◌∷◌, ◌++◌, if◌then◌else◌, ℤ,
  Text, text_eq,
}
use ok_snap.Snapshots.Entry.{Entry}
use ok_snap.Snapshots.Entry
use ok_snap.Exec.{Exec, ok, pure, modify, ◌>>=◌, ◌>>◌}
use ok_snap.Snapshots.Disk.{Faults}
use ok_snap.Server.State.{Daemon, Client, Task, on_client, dec_use_count, Mount, meta_find}
use ok_snap.Server.Handlers.{
  on_snapshot, lock_config, unlock_config, set_snapshot, create_single_snapshot,
  create_pre_snapshot, create_post_snapshot, delete_snapshots, mount_snapshot, umount_snapshot,
}
use ok_snap.Server.Comparisons.{begin_comparison, delete_comparison, delete_each_comparison}

-- The methods that change the daemon, with what their messages carry.
pub data Request : Type 0 where
  lock_config_of unlock_config_of : Text → Request
  set_snapshot_of : Text → ℕ → Text → Text → List (Text × Text) → Request
  create_single_of create_pre_of : Text → Text → Text → List (Text × Text) → Request
  create_post_of : Text → ℕ → Text → Text → List (Text × Text) → Request
  delete_snapshots_of : Text → List ℕ → Request
  mount_of umount_of : Text → ℕ → Bool → Request
  create_comparison_of delete_comparison_of : Text → ℕ → ℕ → Request

abbrev pub done : Exec Daemon ℕ → Exec Daemon (Unit {0})
done m = m >> pure tt

-- `Client::dispatch`. The last arguments are the time and whether the configuration has background
-- comparisons.
unfoldable pub dispatch : Faults → Text → ℕ → ℤ → Bool → Request → Exec Daemon (Unit {0})
unfolding lock_config unlock_config set_snapshot create_single_snapshot create_pre_snapshot
    create_post_snapshot delete_snapshots mount_snapshot umount_snapshot begin_comparison
    delete_comparison
dispatch faults me uid now background (lock_config_of c) = lock_config me uid c
dispatch faults me uid now background (unlock_config_of c) = unlock_config me uid c
dispatch faults me uid now background (set_snapshot_of c n d cl u) =
    set_snapshot faults uid c n d cl u
dispatch faults me uid now background (create_single_of c d cl u) =
    done (create_single_snapshot faults now uid c d cl u)
dispatch faults me uid now background (create_pre_of c d cl u) =
    done (create_pre_snapshot faults now uid c d cl u)
dispatch faults me uid now background (create_post_of c n d cl u) =
    done (create_post_snapshot faults now background uid c n d cl u)
dispatch faults me uid now background (delete_snapshots_of c ns) =
    delete_snapshots faults me uid c ns
dispatch faults me uid now background (mount_of c n b) = mount_snapshot faults me uid c n b
dispatch faults me uid now background (umount_of c n b) = umount_snapshot faults me uid c n b
dispatch faults me uid now background (create_comparison_of c n1 n2) =
    begin_comparison me uid c n1 n2
dispatch faults me uid now background (delete_comparison_of c n1 n2) =
    delete_comparison me uid c n1 n2

-- `Backgrounds::worker` up to `dec_use_count`, if there is a task.
abbrev pub work_on : Option Task → List Task → Exec Daemon (Unit {0})
work_on (some task) tasks d = (ok tt, d)
work_on none [] d = (ok tt, d)
work_on none (task ∷ tasks) d =
    dec_use_count task.config_name (record d { worked = some task; backgrounds = tasks })

unfoldable pub work : Exec Daemon (Unit {0})
unfolding dec_use_count
work d = work_on d.worked d.backgrounds d

-- `tasks.pop_front()`
abbrev pub pop_task : Daemon → Daemon
pop_task d = record d { worked = none }

unfoldable pub has_client : Text → List Client → Bool
has_client me [] = false
has_client me (c ∷ cs) = if text_eq c.name me then true else has_client me cs

-- `method_call`: a client that is not known is added.
unfoldable pub connect : Text → Daemon → Daemon
unfolding has_client
connect me d = if has_client me d.clients then d else record d {
  clients =
      d.clients
      ++ record { name = me; zombie = false; comparisons = []; locks = []; mounts = [] } ∷ [];
}

-- `client_disconnected`
unfoldable pub disconnect : Text → Daemon → Daemon
unfolding on_client
disconnect me d = record d { clients = on_client me (λ c. record c { zombie = true }) d.clients }

-- `~Client` on one entry of `mounts`.
unfoldable pub umount_times : Faults → Text → ℕ → ℕ → Exec Daemon (Unit {0})
unfolding on_snapshot Entry.umount_filesystem_snapshot
umount_times faults config_name num zero = pure tt
umount_times faults config_name num (suc n) =
    on_snapshot config_name num (Entry.umount_filesystem_snapshot faults false)
    >> umount_times faults config_name num n

unfoldable pub umount_each : Faults → List Mount → Exec Daemon (Unit {0})
unfolding meta_find umount_times
umount_each faults [] = pure tt
umount_each faults (m ∷ ms) =
    meta_find m.config_name
    >>= (λ it. umount_times faults m.config_name m.number m.use_count >> umount_each faults ms)

abbrev pub destroy : Faults → Client → Exec Daemon (Unit {0})
destroy faults c = delete_each_comparison c.comparisons >> umount_each faults c.mounts

-- The loop of `Clients::remove_zombies`: `kept` are the clients that it has passed, and `joined` is
-- what `timed_join` says of the thread of a client. `erase` takes the client from the list before it
-- destroys it.
unfoldable pub remove_each :
    Faults → (Client → Bool) → List Client → List Client → Exec Daemon (Unit {0})
unfolding delete_each_comparison umount_each
remove_each faults joined kept [] d = (ok tt, d)
remove_each faults joined kept (c ∷ cs) d =
    if c.zombie && joined c
    then ((modify (λ d. record d { clients = kept ++ cs }) >> destroy faults c)
          >> remove_each faults joined kept cs)
        d
    else remove_each faults joined (kept ++ c ∷ []) cs d

unfoldable pub remove_zombies : Faults → (Client → Bool) → Exec Daemon (Unit {0})
unfolding remove_each
remove_zombies faults joined d = remove_each faults joined [] d.clients d
