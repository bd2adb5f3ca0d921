-- ===== src/Server/State.antt =====
-- The state of the daemon that server/Client.cc works on, and the checks of `Client`. A client is
-- known by its name on the bus, and `this` is a name.
use ok_snap.Base.{
  ℕ, ◌+◌, ◌-◌, Bool, false, not, ◌&&◌, ◌||◌, Option, none, some, List, [], ◌∷◌, ◌==◌, if◌then◌else◌,
  Text, text_eq,
}
use ok_snap.Exec.{
  assertion_failed, Exec, ok, err, unknown_config, permissions, locked, config_in_use,
  snapshot_in_use, throw_if,
}
use ok_snap.Snapshots.Table.{Snapshots}

pub data Signal : Type 0 where
  snapshot_created : Text → ℕ → Signal
  snapshot_modified : Text → ℕ → Signal
  snapshots_deleted : Text → List ℕ → Signal

-- A `MetaSnapper` whose `Snapper` is loaded.
pub record MetaSnapper : Type 0 where
  pub config_name : Text
  pub uids : List ℕ
  pub use_count : ℕ
  pub snapshots : Snapshots

-- One entry of the map `mounts`.
pub record Mount : Type 0 where
  pub config_name : Text
  pub number : ℕ
  pub use_count : ℕ

-- A `Comparison` that a client keeps: the configuration stands for its `Snapper`, and numbers for the
-- snapshots.
pub record Comparison : Type 0 where
  pub config_name : Text
  pub snapshot1 : ℕ
  pub snapshot2 : ℕ

pub record Client : Type 0 where
  pub name : Text
  pub zombie : Bool
  pub comparisons : List Comparison
  pub locks : List Text
  pub mounts : List Mount

-- A `create_comparison` that has given `big_mutex` back and compares; `none` is the end of the list.
pub record Pending : Type 0 where
  pub owner : Text
  pub config_name : Text
  pub snapshot1 : Option ℕ
  pub snapshot2 : Option ℕ

pub record Task : Type 0 where
  pub config_name : Text
  pub num1 : ℕ
  pub num2 : ℕ

-- The queue of the background comparison is `worked` and then `backgrounds`: `worked` is the first
-- task once the worker is done with it and has not yet taken it away. `signals` are those that were
-- sent.
pub record Daemon : Type 0 where
  pub meta_snappers : List MetaSnapper
  pub clients : List Client
  pub pending : List Pending
  pub worked : Option Task
  pub backgrounds : List Task
  pub signals : List Signal

unfoldable pub find_config : Text → List MetaSnapper → Option MetaSnapper
find_config config_name [] = none
find_config config_name (m ∷ ms) =
    if text_eq m.config_name config_name then some m else find_config config_name ms

-- `MetaSnappers::find`
abbrev pub found : Option MetaSnapper → Exec Daemon MetaSnapper
found none d = (err unknown_config, d)
found (some m) d = (ok m, d)

unfoldable pub meta_find : Text → Exec Daemon MetaSnapper
unfolding find_config
meta_find config_name d = found (find_config config_name d.meta_snappers) d

-- `find(uids.begin(), uids.end(), uid) != uids.end()`
unfoldable pub has_uid : ℕ → List ℕ → Bool
has_uid uid [] = false
has_uid uid (u ∷ us) = u == uid || has_uid uid us

unfoldable pub is_permitted : ℕ → MetaSnapper → Bool
unfolding has_uid
is_permitted uid m = uid == 0 || has_uid uid m.uids

unfoldable pub check_permission : ℕ → MetaSnapper → Exec Daemon (Unit {0})
unfolding is_permitted
check_permission uid m = throw_if (not (is_permitted uid m)) permissions

unfoldable pub contains : Text → List Text → Bool
contains t [] = false
contains t (u ∷ us) = text_eq u t || contains t us

-- `contains(locks, config_name)`
unfoldable pub has_lock : Text → Client → Bool
unfolding contains
has_lock config_name c = contains config_name c.locks

-- The loop of `check_lock` comes to its `throw`.
unfoldable pub locked_by_other : Text → Text → List Client → Bool
unfolding has_lock
locked_by_other me config_name [] = false
locked_by_other me config_name (c ∷ cs) =
    (not (c.zombie || text_eq c.name me) && has_lock config_name c)
    || locked_by_other me config_name cs

unfoldable pub check_lock : Text → Text → Exec Daemon (Unit {0})
unfolding locked_by_other
check_lock me config_name d = throw_if (locked_by_other me config_name d.clients) locked d

abbrev pub check_config_in_use : MetaSnapper → Exec Daemon (Unit {0})
check_config_in_use m = throw_if (not (m.use_count == 0)) config_in_use

-- What is called through the iterator that `MetaSnappers::find` gave.
unfoldable pub on_meta : Text → (MetaSnapper → MetaSnapper) → List MetaSnapper → List MetaSnapper
on_meta config_name f [] = []
on_meta config_name f (m ∷ ms) =
    if text_eq m.config_name config_name then f m ∷ ms else m ∷ on_meta config_name f ms

unfoldable pub inc_use_count : Text → Daemon → Daemon
unfolding on_meta
inc_use_count config_name d = record d {
  meta_snappers =
      on_meta config_name (λ m. record m { use_count = m.use_count + 1 }) d.meta_snappers;
}

unfoldable pub use_of : Text → List MetaSnapper → ℕ
use_of config_name [] = 0
use_of config_name (m ∷ ms) =
    if text_eq m.config_name config_name then m.use_count else use_of config_name ms

-- `assert(counter > 0)` comes first.
unfoldable pub dec_use_count : Text → Exec Daemon (Unit {0})
unfolding on_meta use_of
dec_use_count config_name d =
    if use_of config_name d.meta_snappers == 0 then (err assertion_failed, d) else (
      ok tt,
      record d {
        meta_snappers =
            on_meta config_name (λ m. record m { use_count = m.use_count - 1 }) d.meta_snappers;
      },
    )

abbrev pub is_mount_of : Text → ℕ → Mount → Bool
is_mount_of config_name number m = text_eq m.config_name config_name && (m.number == number)

unfoldable pub has_mount : Text → ℕ → List Mount → Bool
has_mount config_name number [] = false
has_mount config_name number (m ∷ ms) =
    is_mount_of config_name number m || has_mount config_name number ms

-- The loop of `check_snapshot_in_use` comes to its `throw`.
unfoldable pub mounted_by_any : Text → ℕ → List Client → Bool
unfolding has_mount
mounted_by_any config_name number [] = false
mounted_by_any config_name number (c ∷ cs) =
    has_mount config_name number c.mounts || mounted_by_any config_name number cs

unfoldable pub check_snapshot_in_use : Text → ℕ → Exec Daemon (Unit {0})
unfolding mounted_by_any
check_snapshot_in_use config_name number d =
    throw_if (mounted_by_any config_name number d.clients) snapshot_in_use d

-- Writing through the iterator that `MetaSnappers::find` gave.
unfoldable pub put_snapshots : Text → Snapshots → List MetaSnapper → List MetaSnapper
put_snapshots config_name s [] = []
put_snapshots config_name s (m ∷ ms) =
    if text_eq m.config_name config_name
    then record m { snapshots = s } ∷ ms
    else m ∷ put_snapshots config_name s ms

-- What a call on the snapshots of a configuration does to the daemon.
unfoldable pub on_snapshots : {A : Type 0} → Text → Exec Snapshots A → Exec Daemon A
unfolding find_config put_snapshots
on_snapshots config_name m d = elim (find_config config_name d.meta_snappers) [
  | none ↦ (err unknown_config, d)
  | some meta ↦
      let (r, s) = m meta.snapshots in
      (r, record d { meta_snappers = put_snapshots config_name s d.meta_snappers })
]

unfoldable pub on_client : Text → (Client → Client) → List Client → List Client
on_client me f [] = []
on_client me f (c ∷ cs) = if text_eq c.name me then f c ∷ cs else c ∷ on_client me f cs

abbrev pub send_signal : Signal → Exec Daemon (Unit {0})
send_signal s d = (ok tt, record d { signals = s ∷ d.signals })
