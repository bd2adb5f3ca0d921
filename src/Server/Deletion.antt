-- ===== src/Server/Deletion.antt =====
-- `Client::delete_snapshots`: what has been checked when it returns.
use ok_snap.Base.{
  ℕ, ◌≡◌, refl, sym, ap, ◌∙◌, subst, inl, inr, Bool, true, false, not, Option, none, some, List, [],
  ◌∷◌, ◌==◌, ==_iff, Option-cases, All, Text,
}
use ok_snap.Exec.{snapshot_in_use, config_in_use, locked, permissions, Exec, ok, err, ◌>>◌}
use ok_snap.Exec.Returns.{bind_ok, throw_if-ok}
use ok_snap.Snapshots.Disk.{Faults}
use ok_snap.Snapshots.Table.{Snapshots}
use ok_snap.Server.State.{
  snapshots_deleted, Daemon, MetaSnapper, find_config, is_permitted, meta_find, found,
  check_permission, check_lock, check_config_in_use, check_snapshot_in_use, locked_by_other,
  mounted_by_any, on_snapshots, send_signal,
}
use ok_snap.Server.Handlers.{delete_each, delete_snapshots, delete_one}

module _ {A : Type 0} (config_name : Text) (m : Exec Snapshots A) (d : Daemon) where
  -- What changes snapshots leaves the clients alone.
  pub on_snapshots-clients : (on_snapshots config_name m d).1.clients ≡ d.clients
  unfolding on_snapshots
  on_snapshots-clients = elim (Option-cases (find_config config_name d.meta_snappers)) [
    | inl nothing ↦ rw (nothing, on_snapshots)
    | inr (meta, hit) ↦ rw (hit, on_snapshots)
  ]

delete_each-Unmounted :
    (faults : Faults) (config_name : Text) (nums : List ℕ) (d t : Daemon)
    → delete_each faults config_name nums d ≡ (ok tt, t)
    → All (λ n. mounted_by_any config_name n d.clients ≡ false) nums
unfolding delete_each check_snapshot_in_use
delete_each-Unmounted faults config_name [] d t h = tt
delete_each-Unmounted faults config_name (n ∷ ns) d t h =
    let del = on_snapshots config_name (delete_one faults n) in
    let (u, d1, checked, rest) =
      bind_ok (check_snapshot_in_use config_name n) (λ _. del >> delete_each faults config_name ns)
        d t tt h in
    let (free, same) =
      throw_if-ok (mounted_by_any config_name n d.clients) snapshot_in_use d d1 u checked in
    let (v, d2, gone, others) = bind_ok del (λ _. delete_each faults config_name ns) d1 t tt rest in
    let ih = delete_each-Unmounted faults config_name ns d2 t others in
    let kept : d2.clients ≡ d.clients =
      sym (ap (λ p. p.1.clients) gone)
      ∙ on_snapshots-clients config_name (delete_one faults n) d1
      ∙ ap (λ (x : Daemon). x.clients) (sym same) in
    (free, subst (λ cs. All (λ k. mounted_by_any config_name k cs ≡ false) ns) kept ih)

found-ok :
    (o : Option MetaSnapper) (d t : Daemon) (it : MetaSnapper)
    → found o d ≡ (ok it, t)
    → (o ≡ some it) × (d ≡ t)
found-ok none d t it h = absurd cc
found-ok (some m) d t it h =
    (ap some (ap (λ p. elim p.0 [ ok x ↦ x | err e ↦ it ]) h), ap (λ p. p.1) h)

true_of_not : (b : Bool) → not b ≡ false → b ≡ true
true_of_not true h = refl
true_of_not false h = cc

-- When a call of `delete_snapshots` returns, the user may use the configuration, no other client
-- that is not a zombie holds a lock on it, it is not in use by a comparison, and none of the
-- snapshots was mounted for any client.
pub delete_snapshots-Allowed :
    (faults : Faults) (me config_name : Text) (uid : ℕ) (nums : List ℕ) (d t : Daemon)
    → delete_snapshots faults me uid config_name nums d ≡ (ok tt, t)
    → (it : MetaSnapper) × (find_config config_name d.meta_snappers ≡ some it)
      × (is_permitted uid it ≡ true)
      × (locked_by_other me config_name d.clients ≡ false)
      × (it.use_count ≡ 0)
      × All (λ n. mounted_by_any config_name n d.clients ≡ false) nums
unfolding delete_snapshots meta_find check_permission check_lock
delete_snapshots-Allowed faults me config_name uid nums d t h =
    let end : Exec Daemon (Unit {0}) = send_signal (snapshots_deleted config_name nums) in
    let deletes = delete_each faults config_name nums in
    let (it, d1, hit, h1) =
      bind_ok (meta_find config_name)
        (λ it.
          check_permission uid it
          >> (check_lock me config_name >> (check_config_in_use it >> (deletes >> end))))
        d t tt h in
    let (some_it, e1) = found-ok (find_config config_name d.meta_snappers) d d1 it hit in
    let (u2, d2, may, h2) =
      bind_ok (check_permission uid it)
        (λ _. check_lock me config_name >> (check_config_in_use it >> (deletes >> end))) d1 t tt
        h1 in
    let (permitted, e2) = throw_if-ok (not (is_permitted uid it)) permissions d1 d2 u2 may in
    let (u3, d3, unlocked, h3) =
      bind_ok (check_lock me config_name) (λ _. check_config_in_use it >> (deletes >> end)) d2 t tt
        h2 in
    let (free, e3) =
      throw_if-ok (locked_by_other me config_name d2.clients) locked d2 d3 u3 unlocked in
    let (u4, d4, unused, h4) = bind_ok (check_config_in_use it) (λ _. deletes >> end) d3 t tt h3 in
    let (idle, e4) = throw_if-ok (not (it.use_count == 0)) config_in_use d3 d4 u4 unused in
    let (u5, d5, gone, h5) = bind_ok deletes (λ _. end) d4 t tt h4 in
    let same12 = e1 ∙ e2 in
    let same = same12 ∙ e3 ∙ e4 in
    let unmounted = delete_each-Unmounted faults config_name nums d4 d5 gone in
    (
      it,
      some_it,
      true_of_not _ permitted,
      subst (λ (x : Daemon). locked_by_other me config_name x.clients ≡ false) (sym same12) free,
      (==_iff it.use_count 0).0 (true_of_not _ idle),
      subst (λ (x : Daemon). All (λ n. mounted_by_any config_name n x.clients ≡ false) nums)
          (sym same) unmounted,
    )
