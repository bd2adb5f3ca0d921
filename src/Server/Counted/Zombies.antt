-- ===== src/Server/Counted/Zombies.antt =====
-- Comparisons that are given back: by `delete_comparison`, and for a client that is gone.
use ok_snap.Base.{
  ℕ, zero, suc, ◌+◌, ◌≡◌, refl, sym, ap, ◌∙◌, inl, inr, Bool, true, false, ◌&&◌, List, [], ◌∷◌,
  ◌++◌, append_assoc, arith, Bool-cases, Text,
}
use ok_snap.Server.Found.{meta_find-Keeps}
use ok_snap.Snapshots.Entry.{Entry}
use ok_snap.Server.Deletion.{on_snapshots-clients}
use ok_snap.Server.Handlers.{on_snapshot}
use ok_snap.Snapshots.Table.{on_entry}
use ok_snap.Server.Counted.Clients.{IsOwed, held_by-erase, is_comparison-config}
use ok_snap.Snapshots.Entry
use ok_snap.Server.Loop.{remove_each, umount_each, umount_times}
use ok_snap.Server.Comparisons.{
  comparisons_of, delete_comparison, delete_each_comparison, drop_comparison, erase_comparison,
  find_num, has_comparison,
}
use ok_snap.Snapshots.Disk.{Faults}
use ok_snap.Exec.{ok}
use ok_snap.Exec.Keeps.{Keeps, bind-Keeps, bind_ends}
use ok_snap.Server.Counted.{IsBalanced, guarded-IsBalanced, on_snapshots-IsBalanced}
use ok_snap.Server.Uses.{
  held, compares, count, counted_down, dec_use_count-ok, held_by, held_by-append,
}
use ok_snap.Server.State.{
  Daemon, Client, Comparison, on_client, use_of, Mount, meta_find, on_snapshots,
}

pub drop_comparison-ok :
    (me cn : Text) (test : Comparison → Bool) (d : Daemon)
    → ((c : Comparison) → test c ≡ true → c.config_name ≡ cn)
    → has_comparison test (comparisons_of me d.clients) ≡ true
    → IsBalanced d
    → ((drop_comparison me cn test d).0 ≡ ok tt) × IsBalanced (drop_comparison me cn test d).1
unfolding drop_comparison
drop_comparison-ok me cn test d of there h =
    let f : Client → Client = λ c. record c { comparisons = erase_comparison test c.comparisons } in
    let d1 : Daemon = record d { clients = on_client me f d.clients } in
    let owed : IsOwed cn d1 =
      λ name. omega (arith, h name, held_by-erase name cn me test d.clients of there) in
    let (done, back) = dec_use_count-ok cn (λ name. held name d1) d owed in
    rw (there, drop_comparison, done) (refl, back)

pub drop_comparison-IsBalanced :
    (me cn : Text) (test : Comparison → Bool)
    → ((c : Comparison) → test c ≡ true → c.config_name ≡ cn)
    → Keeps IsBalanced (drop_comparison me cn test)
unfolding drop_comparison
drop_comparison-IsBalanced me cn test of d h =
    elim (Bool-cases (has_comparison test (comparisons_of me d.clients))) [
      | inr missing ↦ rw (missing, drop_comparison) h
      | inl there ↦ (drop_comparison-ok me cn test d of there h).1
    ]

pub delete_comparison-IsBalanced :
    (me : Text) (uid : ℕ) (cn : Text) (num1 num2 : ℕ)
    → Keeps IsBalanced (delete_comparison me uid cn num1 num2)
unfolding delete_comparison
delete_comparison-IsBalanced me uid cn num1 num2 = guarded-IsBalanced uid cn _ (λ it d hit.
    drop_comparison-IsBalanced me cn _
      (is_comparison-config cn (find_num num1 it.snapshots) (find_num num2 it.snapshots)) d)

-- Uses of comparisons are counted that no client keeps any more.
abbrev IsOwedFor : List Comparison → Daemon → Type 0
IsOwedFor cs d = (name : Text) → use_of name d.meta_snappers ≡ held name d + compares name cs

delete_each-ok :
    (cs : List Comparison) (d : Daemon)
    → IsOwedFor cs d
    → (d' : Daemon) × (delete_each_comparison cs d ≡ (ok tt, d'))
      × (d'.clients ≡ d.clients)
      × IsBalanced d'
unfolding delete_each_comparison count
delete_each-ok [] d h = (d, refl, refl, (λ name. omega (arith, h name)))
delete_each-ok (c ∷ cs) d h =
    let (done, after) =
      dec_use_count-ok c.config_name (λ name. held name d + compares name cs) d
        (λ name. omega (arith, h name)) in
    let (d', e, same, back) = delete_each-ok cs (counted_down c.config_name d) after in
    (d', rw done e, same, back)

-- The daemon with these clients.
abbrev IsLeft : List Client → Daemon → Type 0
IsLeft cs d = IsBalanced d × (d.clients ≡ cs)

module _ (faults : Faults) (clients : List Client) where
  umount_times-IsLeft :
      (cn : Text) (num n : ℕ) → Keeps (IsLeft clients) (umount_times faults cn num n)
  unfolding umount_times on_snapshot
  umount_times-IsLeft cn num zero d h = h
  umount_times-IsLeft cn num (suc n) d h =
      let first = on_entry num (Entry.umount_filesystem_snapshot faults false) in
      bind-Keeps (IsLeft clients) _ (on_snapshots cn first)
        (λ d h. (on_snapshots-IsBalanced cn first d h.0, on_snapshots-clients cn first d ∙ h.1))
        (λ _. umount_times-IsLeft cn num n) d h

  umount_each-IsLeft : (ms : List Mount) → Keeps (IsLeft clients) (umount_each faults ms)
  unfolding umount_each
  umount_each-IsLeft [] d h = h
  umount_each-IsLeft (m ∷ ms) d h =
      bind-Keeps (IsLeft clients) _ (meta_find m.config_name)
        (meta_find-Keeps m.config_name (IsLeft clients))
        (λ it.
          bind-Keeps (IsLeft clients) _ (umount_times faults m.config_name m.number m.use_count)
            (umount_times-IsLeft m.config_name m.number m.use_count) (λ _. umount_each-IsLeft ms))
        d h

pub remove_each-IsBalanced :
    (faults : Faults) (joined : Client → Bool) (kept left : List Client) (d : Daemon)
    → d.clients ≡ kept ++ left
    → IsBalanced d
    → IsBalanced (remove_each faults joined kept left d).1
unfolding remove_each held_by
remove_each-IsBalanced faults joined kept [] d e h = h
remove_each-IsBalanced faults joined kept (c ∷ cs) d e h =
    let stay =
      remove_each-IsBalanced faults joined (kept ++ c ∷ []) cs d
        (e ∙ sym (append_assoc kept (c ∷ []) cs)) h in
    let d1 : Daemon = record d { clients = kept ++ cs } in
    let owed : IsOwedFor c.comparisons d1 = λ name. omega (
      arith,
      h name,
      ap (held_by name) e,
      held_by-append name kept (c ∷ cs),
      held_by-append name kept cs,
    ) in
    let (d2, done, same, back) = delete_each-ok c.comparisons d1 owed in
    let left = umount_each-IsLeft faults (kept ++ cs) c.mounts d2 (back, same) in
    elim (Bool-cases (c.zombie && joined c)) [
      | inr stays ↦ rw stays stay
      | inl goes ↦
          let ends =
            bind_ends (IsLeft (kept ++ cs)) IsBalanced (λ _. remove_each faults joined kept cs)
              (umount_each faults c.mounts) d2 (λ t p. p.0)
              (λ _ t p. remove_each-IsBalanced faults joined kept cs t p.1 p.0) left in
          rw (goes, done) ends
    ]
