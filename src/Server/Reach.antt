-- ===== src/Server/Reach.antt =====
-- The daemon as steps of its threads in any order: what one of them does while it has `big_mutex` is
-- one step.
use ok_snap.Base.{ℕ, ◌≡◌, Bool, true, false, ◌&&◌, none, List, [], All, ℤ, Text, text_eq}
use ok_snap.Server.Comparisons.{end_comparison, pending_of}
use ok_snap.Server.Loop.{
  Request, has_client, pop_task, remove_zombies, dispatch, connect, disconnect, work,
}
use ok_snap.Snapshots.Disk.{Faults}
use ok_snap.Exec.{Result}
use ok_snap.Server.State.{Daemon, MetaSnapper, Client, Pending}

-- After `MetaSnappers::init`.
abbrev pub started : List MetaSnapper → Daemon
started ms = record {
  meta_snappers = ms;
  clients = [];
  pending = [];
  worked = none;
  backgrounds = [];
  signals = [];
}

-- A method runs in the thread of its client, which makes one comparison at a time; `timed_join`
-- succeeds only when the thread has ended.
pub data Step (faults : Faults) (d : Daemon) : Daemon → Type 0 where
  call :
      (me : Text) (uid : ℕ) (now : ℤ) (background : Bool) (r : Request)
      → has_client me d.clients ≡ true
      → pending_of me d.pending ≡ none
      → Step faults d (dispatch faults me uid now background r d).1
  compare_end :
      (me : Text) (outcome : Result (Unit {0}))
      → has_client me d.clients ≡ true
      → Step faults d (end_comparison me outcome d).1
  background_work : Step faults d (work d).1
  background_pop : Step faults d (pop_task d)
  connection : (me : Text) → Step faults d (connect me d)
  disconnection : (me : Text) → Step faults d (disconnect me d)
  period :
      (joined : Client → Bool)
      → All
          (λ (p : Pending).
            All (λ (c : Client). text_eq c.name p.owner && joined c ≡ false) d.clients)
          d.pending
      → Step faults d (remove_zombies faults joined d).1

pub data Reach (faults : Faults) : Daemon → Type 0 where
  start : (ms : List MetaSnapper) → All (λ m. m.use_count ≡ 0) ms → Reach faults (started ms)
  later : {d t : Daemon} → Reach faults d → Step faults d t → Reach faults t
