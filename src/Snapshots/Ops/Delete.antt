-- ===== src/Snapshots/Ops/Delete.antt =====
-- Deleting a snapshot: what becomes of the list.
use ok_snap.Base.{
  ℕ, ◌≡◌, refl, subst, inl, inr, some, List, [], ◌∷◌, arith, Bool-cases, Option-cases,
}
use ok_snap.Exec.{Exec, Result, ok, err, continue}
use ok_snap.Snapshots.Types.{Snapshot, is_current}
use ok_snap.Snapshots.Disk.{Disk, Faults, member}
use ok_snap.Snapshots.Entry
use ok_snap.Snapshots.Entry.{Entry}
use ok_snap.Snapshots.Table.{Snapshots, find, replace, on_entry, erase, remove_info_dir}
use ok_snap.Snapshots.Ops.{delete_snapshot, forget, drop_info}

replace_found :
    (n : ℕ) (entries : List Snapshot) (e : Snapshot)
    → find n entries ≡ some e
    → replace n e entries ≡ entries
unfolding find replace
replace_found n [] e h = cc
replace_found n (s ∷ ss) e h = ground (arith, replace_found n ss e)

-- A method that leaves the snapshot as it is leaves the list as it is.
pub on_entry-entries :
    {A : Type 0} (n : ℕ) (m : Exec Entry A) (s : Snapshots)
    → ((e : Entry) → (m e).1.snapshot ≡ e.snapshot)
    → (on_entry n m s).1.entries ≡ s.entries
unfolding on_entry
on_entry-entries n m s keeps = elim (Option-cases (find n s.entries)) [
  | inl missing ↦ rw (missing, on_entry)
  | inr (e, hit) ↦
      rw (hit, on_entry, keeps (record { snapshot = e; disk = s.disk }))
        (replace_found n s.entries e hit)
]

pub delete_filesystem_snapshot-snapshot :
    (faults : Faults) (e : Entry)
    → (Entry.delete_filesystem_snapshot faults e).1.snapshot ≡ e.snapshot
unfolding Entry.delete_filesystem_snapshot
delete_filesystem_snapshot-snapshot faults e = ground arith

-- What a deletion does to the list: nothing if it throws.
abbrev pub Deleted : ℕ → List Snapshot → Result (Unit {0}) × Snapshots → Type 0
Deleted num entries (ok u, s') = s'.entries ≡ erase num entries
Deleted num entries (err e, s') = s'.entries ≡ entries

forget_lists :
    (faults : Faults) (num : ℕ) (s : Snapshots) (r : Result (Unit {0}) × Disk)
    → Deleted num s.entries (
        continue r.0
          (λ _ t. (
            ok tt,
            record { entries = erase num t.entries; disk = remove_info_dir faults num t.disk },
          ))
          (record s { disk = r.1 }))
forget_lists faults num s (ok u, d) = refl
forget_lists faults num s (err e, d) = refl

forget-Deleted :
    (faults : Faults) (num : ℕ) (s : Snapshots) → Deleted num s.entries (forget faults num s)
unfolding forget drop_info
forget-Deleted faults num s = elim (Bool-cases (member num s.disk.info_dirs)) [
  | inl there ↦ rw there (forget_lists faults num s _)
  | inr missing ↦ rw missing refl
]

behind :
    (faults : Faults) (num : ℕ) (entries : List Snapshot) (r : Result (Unit {0}) × Snapshots)
    → r.1.entries ≡ entries
    → Deleted num entries (continue r.0 (λ _. forget faults num) r.1)
behind faults num entries (ok u, s) h =
    subst (λ es. Deleted num es (forget faults num s)) h (forget-Deleted faults num s)
behind faults num entries (err e, s) h = h

pub delete_snapshot-Deleted :
    (faults : Faults) (p : Snapshot) (s : Snapshots)
    → Deleted p.num s.entries (delete_snapshot faults (some p) s)
unfolding delete_snapshot
delete_snapshot-Deleted faults p s = elim (Bool-cases (is_current p)) [
  | inl current ↦ rw current refl
  | inr other ↦ rw other (
      behind faults p.num s.entries (on_entry p.num (Entry.delete_filesystem_snapshot faults) s) (
        on_entry-entries p.num (Entry.delete_filesystem_snapshot faults) s
          (delete_filesystem_snapshot-snapshot faults)))
]
