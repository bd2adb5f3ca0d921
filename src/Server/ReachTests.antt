-- ===== src/Server/ReachTests.antt =====
-- A run of the daemon: a client connects, and makes a comparison.
use ok_snap.Base.{◌≡◌, refl, true, some, [], ◌∷◌, codes, text_eq, pos}
use ok_snap.Server.Made.{end_comparison-Deletable}
use ok_snap.Server.Comparisons.{drop_comparison, end_comparison, is_comparison, pending_of}
use ok_snap.Server.Handlers.{delete_snapshots}
use ok_snap.Server.InUse.{Reach-IsBalanced, delete_snapshots-NotHeld}
use ok_snap.Exec.{ok}
use ok_snap.Snapshots.Disk.{no_faults}
use ok_snap.Server.State.{Daemon, Comparison, Pending, use_of}
use ok_snap.Server.Loop.{connect, dispatch, create_comparison_of}
use ok_snap.Server.Reach.{Reach, start, later, call, connection, started}
use ok_snap.Server.Tests.{root}
use ok_snap.Server.Uses.{held, held_by, waiting, queued}

abbrev connected : Daemon
unfolding connect text_eq
connected = connect (codes "a") (started (root ∷ []))

connected-Reach : Reach no_faults connected
unfolding connect text_eq
connected-Reach = later (start (root ∷ []) (refl, tt)) (connection (codes "a"))

abbrev comparing : Daemon
comparing =
    (dispatch no_faults (codes "a") 1000 (pos 200) true (create_comparison_of (codes "r") 0 1)
      connected).1

comparing-Reach : Reach no_faults comparing
unfolding connect text_eq pending_of
comparing-Reach =
    later connected-Reach
      (call (codes "a") 1000 (pos 200) true (create_comparison_of (codes "r") 0 1) refl refl)

-- The uses that are held while the comparison is made.
one_use : use_of (codes "r") comparing.meta_snappers ≡ 1
unfolding dispatch connect text_eq use_of
one_use = refl

Reach-IsBalanced_example : use_of (codes "r") comparing.meta_snappers ≡ held (codes "r") comparing
Reach-IsBalanced_example = Reach-IsBalanced no_faults comparing (codes "r") comparing-Reach

abbrev pending : Pending
pending = record {
  owner = codes "a";
  config_name = codes "r";
  snapshot1 = some 0;
  snapshot2 = some 1;
}

abbrev comparison : Comparison
comparison = record { config_name = codes "r"; snapshot1 = 0; snapshot2 = 1 }

end_comparison-Deletable_example :
    ((end_comparison (codes "a") (ok tt) comparing).0 ≡ ok tt)
    × ((drop_comparison
          (codes "a")
          (codes "r")
          (is_comparison (codes "r") (some 0) (some 1))
          (end_comparison (codes "a") (ok tt) comparing).1).0
        ≡ ok tt)
unfolding dispatch connect text_eq pending_of
end_comparison-Deletable_example =
    end_comparison-Deletable no_faults (codes "a") (ok tt) comparing pending comparison
      comparing-Reach refl refl refl

abbrev after_deletion : Daemon
after_deletion = (delete_snapshots no_faults (codes "a") 1000 (codes "r") (1 ∷ []) connected).1

delete_snapshots-NotHeld_example :
    (held_by (codes "r") connected.clients ≡ 0)
    × (waiting (codes "r") connected.pending ≡ 0)
    × (queued (codes "r") connected.backgrounds ≡ 0)
unfolding dispatch connect text_eq pending_of
delete_snapshots-NotHeld_example =
    delete_snapshots-NotHeld no_faults (codes "a") (codes "r") 1000 (1 ∷ []) connected
      after_deletion connected-Reach refl
