-- ===== src/Snapshots/Ops/Forget.antt =====
-- Behind a deletion in which no `unlink` fails nothing on disk refers to the number of the deleted snapshot, so that another
-- snapshot with that number finds no file list of the old one.
use ok_snap.Base.{
  ℕ, ◌≡◌, refl, subst, ◌≢◌, inl, inr, false, none, some, List, [], ◌∷◌, arith, Bool-cases,
  Option-cases, All, In, All-In, All_of_In,
}
use ok_snap.Snapshots.Ops.Dropped.{
  Dropped, SameBut, drop_lists_about-All, drop_lists_about-Dropped, drop_lists_about-same,
  drop_lists_in-All, drop_lists_in-gone, get_info-without, member-without,
}
use ok_snap.Exec.{Result, ok, err, continue}
use ok_snap.Snapshots.Types.{Snapshot, is_current}
use ok_snap.Snapshots.Disk
use ok_snap.Snapshots.Disk.{Disk, Faults, member, get_info, without_info, FileList}
use ok_snap.Snapshots.Entry
use ok_snap.Snapshots.Entry.{Entry}
use ok_snap.Snapshots.Table.{
  Snapshots, find, replace, on_entry, erase, drop_lists_about, drop_lists_in, remove_info_dir,
}
use ok_snap.Snapshots.Ops.{delete_snapshot, forget, drop_info}
use ok_snap.Snapshots.Ops.Delete.{on_entry-entries, delete_filesystem_snapshot-snapshot}

-- Every file list stands in the directory of an entry.
abbrev pub ListsHeld : Snapshots → Type 0
ListsHeld s =
    All (λ l. (e : Snapshot) × In e s.entries × (is_current e ≡ false) × (l.num2 ≡ e.num))
      s.disk.file_lists

abbrev pub Forgotten : ℕ → Disk → Type 0
Forgotten n d =
    (member n d.subvolumes ≡ false)
    × (member n d.info_dirs ≡ false)
    × (get_info n d.infos ≡ none)
    × All (λ l. (l.num2 ≢ n) × (l.num1 ≢ n)) d.file_lists

abbrev IfOk : {A S : Type 0} → (S → Type 0) → Result A × S → Type 0
IfOk P (ok a, s) = P s
IfOk P (err e, s) = Unit

-- Nothing of the number is kept: none of its files, no list about it and not its directory fails to
-- be removed, and the directory holds no file that was left over.
pub record IsRemovable (faults : Faults) (n : ℕ) (d : Disk) : Type 0 where
  pub info_goes : faults.info_stays n ≡ false
  pub own_go : (m : ℕ) → faults.list_stays n m ≡ false
  pub others_go : (m : ℕ) → faults.list_stays m n ≡ false
  pub dir_goes : faults.rmdir_fails n ≡ false
  pub clean : member n d.left_over ≡ false

holds_list-All :
    (n : ℕ) (ls : List FileList) → All (λ l. l.num2 ≢ n) ls → Disk.holds_list n ls ≡ false
unfolding Disk.holds_list
holds_list-All n [] h = refl
holds_list-All n (l ∷ ls) h = ground (arith, holds_list-All n ls h.1, h.0)

remove_info_dir-gone :
    (faults : Faults) (n : ℕ) (d : Disk)
    → faults.rmdir_fails n ≡ false
    → member n d.left_over ≡ false
    → get_info n d.infos ≡ none
    → All (λ l. l.num2 ≢ n) d.file_lists
    → remove_info_dir faults n d ≡ record d { info_dirs = Disk.without n d.info_dirs }
unfolding remove_info_dir Disk.is_bare
remove_info_dir-gone faults n d dir clean info own =
    rw (dir, clean, info, holds_list-All n d.file_lists own) refl

-- The last step of `forget`, behind the loop over the entries.
forget_end :
    (faults : Faults) (n : ℕ) (s : Snapshots) (r : Result (Unit {0}) × Disk)
    → IsRemovable faults n s.disk
    → member n s.disk.subvolumes ≡ false
    → SameBut (record s.disk { infos = without_info n s.disk.infos }) r.1
    → All (λ l. l.num2 ≢ n) r.1.file_lists
    → All
        (λ l. (e : Snapshot) × In e s.entries × (is_current e ≡ false) × (l.num2 ≡ e.num))
        r.1.file_lists
    → Dropped n s.entries r
    → IfOk
        (λ t. Forgotten n t.disk)
        (continue r.0
          (λ _ t.
            (ok tt, record { entries = erase n t.entries; disk = remove_info_dir faults n t.disk }))
          (record s { disk = r.1 }))
unfolding SameBut
forget_end faults n s (err x, d) gone free same own held dropped = tt
forget_end faults n s (ok u, d) gone free same own held dropped =
    let info : get_info n d.infos ≡ none = rw same.2 (get_info-without n s.disk.infos) in
    let clean : member n d.left_over ≡ false = rw same.3 gone.clean in
    rw (remove_info_dir-gone faults n d gone.dir_goes clean info own) (
      rw same.0 free,
      member-without n d.info_dirs,
      info,
      All_of_In _ d.file_lists (λ l m.
          let (e, me, other, at) = All-In _ d.file_lists l held m in
          (All-In _ d.file_lists l own m, All-In _ d.file_lists l (dropped e me) m other at)),
    )

forget-Forgotten :
    (faults : Faults) (n : ℕ) (s : Snapshots)
    → IsRemovable faults n s.disk
    → member n s.disk.subvolumes ≡ false
    → ListsHeld s
    → IfOk (λ t. Forgotten n t.disk) (forget faults n s)
unfolding forget drop_info Disk.open_info_dir
forget-Forgotten faults n s gone free held = elim (Bool-cases (member n s.disk.info_dirs)) [
  | inr missing ↦ rw missing tt
  | inl there ↦
      let ls = drop_lists_in faults n s.disk.file_lists in
      let d1 = record s.disk { infos = without_info n s.disk.infos; file_lists = ls } in
      rw (there, gone.info_goes)
        (forget_end faults n s (drop_lists_about faults n s.entries d1) gone free
          (unfold SameBut in drop_lists_about-same faults n s.entries d1)
          (drop_lists_about-All faults _ n s.entries d1
            (drop_lists_in-gone faults n s.disk.file_lists gone.own_go))
          (drop_lists_about-All faults _ n s.entries d1
            (drop_lists_in-All _ faults n s.disk.file_lists held))
          (drop_lists_about-Dropped faults n s.entries d1 gone.others_go))
]

-- `deleteFilesystemSnapshot` removes the filesystem's snapshot and touches no file.
abbrev FilesSame : Disk → Disk → Type 0
FilesSame d d' =
    (d'.info_dirs ≡ d.info_dirs)
    × (d'.infos ≡ d.infos)
    × (d'.file_lists ≡ d.file_lists)
    × (d'.left_over ≡ d.left_over)

delete_filesystem_snapshot-disk :
    (faults : Faults) (e : Entry)
    → IfOk
        (λ e'. (member e.snapshot.num e'.disk.subvolumes ≡ false) × FilesSame e.disk e'.disk)
        (Entry.delete_filesystem_snapshot faults e)
unfolding Entry.delete_filesystem_snapshot
delete_filesystem_snapshot-disk faults e =
    ground (arith, member-without e.snapshot.num e.disk.subvolumes)

find-num : (n : ℕ) (es : List Snapshot) (e : Snapshot) → find n es ≡ some e → e.num ≡ n
unfolding find
find-num n [] e h = cc
find-num n (s ∷ ss) e h = ground (arith, find-num n ss e)

IfOk-image :
    {A S T : Type 0} (P : T → Type 0) (g : S → T) (r : Result A × S)
    → IfOk (λ s. P (g s)) r
    → IfOk P (r.0, g r.1)
IfOk-image P g (ok a, s) h = h
IfOk-image P g (err e, s) h = tt

on_entry-delete :
    (faults : Faults) (n : ℕ) (s : Snapshots)
    → IfOk
        (λ t. (member n t.disk.subvolumes ≡ false) × FilesSame s.disk t.disk)
        (on_entry n (Entry.delete_filesystem_snapshot faults) s)
unfolding on_entry
on_entry-delete faults n s = elim (Option-cases (find n s.entries)) [
  | inl missing ↦ rw (missing, on_entry) tt
  | inr (e, hit) ↦
      let found : Entry = record { snapshot = e; disk = s.disk } in
      rw (hit, on_entry)
        (IfOk-image
          (λ (t : Snapshots). (member n t.disk.subvolumes ≡ false) × FilesSame s.disk t.disk)
          (λ (e' : Entry). record { entries = replace n e'.snapshot s.entries; disk = e'.disk })
          (Entry.delete_filesystem_snapshot faults found)
          (subst
            (λ k.
              IfOk
                (λ (e' : Entry). (member k e'.disk.subvolumes ≡ false) × FilesSame s.disk e'.disk)
                (Entry.delete_filesystem_snapshot faults found))
            (find-num n s.entries e hit) (delete_filesystem_snapshot-disk faults found)))
]

moved_IsRemovable :
    {faults : Faults} {n : ℕ} {d d' : Disk}
    → d'.left_over ≡ d.left_over
    → IsRemovable faults n d
    → IsRemovable faults n d'
moved_IsRemovable same gone = record {
  info_goes = gone.info_goes;
  own_go = gone.own_go;
  others_go = gone.others_go;
  dir_goes = gone.dir_goes;
  clean = rw same gone.clean;
}

forget_behind :
    (faults : Faults) (n : ℕ) (s : Snapshots) (r : Result (Unit {0}) × Snapshots)
    → IsRemovable faults n s.disk
    → ListsHeld s
    → r.1.entries ≡ s.entries
    → IfOk (λ t. (member n t.disk.subvolumes ≡ false) × FilesSame s.disk t.disk) r
    → IfOk (λ t. Forgotten n t.disk) (continue r.0 (λ _. forget faults n) r.1)
forget_behind faults n s (ok u, t) gone held same h =
    forget-Forgotten faults n t (moved_IsRemovable h.1.3 gone) h.0 (rw (h.1.2, same) held)
forget_behind faults n s (err e, t) gone held same h = tt

IfOk_at :
    {A S : Type 0} (P : S → Type 0) (r : Result A × S) (a : A) (t : S)
    → IfOk P r
    → r ≡ (ok a, t)
    → P t
IfOk_at P r a t h e = subst (IfOk P) e h

delete_snapshot-IfOk :
    (faults : Faults) (p : Snapshot) (s : Snapshots)
    → IsRemovable faults p.num s.disk
    → ListsHeld s
    → IfOk (λ t. Forgotten p.num t.disk) (delete_snapshot faults (some p) s)
unfolding delete_snapshot
delete_snapshot-IfOk faults p s gone held = elim (Bool-cases (is_current p)) [
  | inl current ↦ rw current tt
  | inr other ↦ rw other (
      forget_behind faults p.num s (on_entry p.num (Entry.delete_filesystem_snapshot faults) s) gone
        held
        (on_entry-entries p.num (Entry.delete_filesystem_snapshot faults) s
          (delete_filesystem_snapshot-snapshot faults))
        (on_entry-delete faults p.num s))
]

-- Where every file list stands in the directory of an entry, no `unlink` of a file of the deleted
-- snapshot, of a list about it or of its directory fails, and no temporary file was left in that
-- directory, a deletion that returns leaves neither a snapshot of the filesystem, nor a directory, nor
-- an `info.xml`, nor a file list with or about the deleted number.
pub delete_snapshot-Forgotten :
    (faults : Faults) (p : Snapshot) (s t : Snapshots)
    → IsRemovable faults p.num s.disk
    → ListsHeld s
    → delete_snapshot faults (some p) s ≡ (ok tt, t)
    → Forgotten p.num t.disk
delete_snapshot-Forgotten faults p s t gone held e =
    IfOk_at (λ u. Forgotten p.num u.disk) (delete_snapshot faults (some p) s) tt t
      (delete_snapshot-IfOk faults p s gone held) e
