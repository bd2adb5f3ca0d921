-- ===== src/Comparison/Created.antt =====
-- What `create` leaves alone: the numbers of the snapshots, the info directories and the lists in them.
use ok_snap.Comparison.{
  Comparison, mount, umount, create, unless_current, append_changes, cmp_snapshots, on_each,
  on_snapshot1, on_snapshot2, on_number1, on_number2,
}
use ok_snap.Snapshots.Entry.{
  Entry, mount_filesystem_snapshot, umount_filesystem_snapshot, check_mount,
}
use ok_snap.Snapshots.Disk
use ok_snap.Snapshots.Disk.{Disk, Faults}
use ok_snap.Base.{ℕ, ◌≡◌, refl, sym, ap, ◌∙◌, subst, Bool, true, false, List, ◌++◌, arith}
use ok_snap.Exec.Returns.{bind_ok}
use ok_snap.Compare.Dirs.{Change, Changes}
use ok_snap.Snapshots.Types.{is_current}
use ok_snap.Exec.Keeps.{Keeps, bind-Keeps}
use ok_snap.Exec.{◌>>◌, modify, Exec, ok}
use ok_snap.Files.Defs.{sort}

-- A snapshot with its number, on a disk with these directories and lists.
abbrev pub KeepsEntry : Entry → Entry → Type 0
KeepsEntry e f =
    (f.snapshot.num ≡ e.snapshot.num)
    × (f.disk.info_dirs ≡ e.disk.info_dirs)
    × (f.disk.file_lists ≡ e.disk.file_lists)

mount-KeepsEntry :
    (faults : Faults) (e : Entry) → KeepsEntry e (mount_filesystem_snapshot faults false e).1
unfolding mount_filesystem_snapshot check_mount Disk.fs_mount Disk.fs_is_mounted
mount-KeepsEntry faults e = ground arith

umount-KeepsEntry :
    (faults : Faults) (e : Entry) → KeepsEntry e (umount_filesystem_snapshot faults false e).1
unfolding umount_filesystem_snapshot check_mount Disk.fs_umount Disk.fs_is_mounted
umount-KeepsEntry faults e = ground arith

abbrev pub KeepsPlace : Comparison → Comparison → Type 0
KeepsPlace c d =
    (d.snapshot1.num ≡ c.snapshot1.num)
    × (d.snapshot2.num ≡ c.snapshot2.num)
    × (d.disk.info_dirs ≡ c.disk.info_dirs)
    × (d.disk.file_lists ≡ c.disk.file_lists)

-- The files are also as they were.
abbrev Stays : Comparison → Comparison → Type 0
Stays c d = KeepsPlace c d × (d.files ≡ c.files)

Stays-refl : (c : Comparison) → Stays c c
Stays-refl c = ((refl, refl, refl, refl), refl)

unless_current-Stays :
    (c : Comparison) (current : Bool) (m : Exec Comparison (Unit {0}))
    → Keeps (Stays c) m
    → Keeps (Stays c) (unless_current current m)
unfolding unless_current
unless_current-Stays c true m keeps d h = h
unless_current-Stays c false m keeps d h = keeps d h

module _ (c : Comparison) where
  on_each-Stays :
      (m : Exec Entry (Unit {0}))
      → ((e : Entry) → KeepsEntry e (m e).1)
      → Keeps (Stays c) (on_each m)
  unfolding on_each on_number1 on_number2
  on_each-Stays m keeps =
      bind-Keeps (Stays c) (λ u. on_number2 m) (on_number1 m)
        (λ d.
          unless_current-Stays c (is_current d.snapshot1) (on_snapshot1 m)
            (λ d h. ground (arith, h, keeps (record { snapshot = d.snapshot1; disk = d.disk }))) d)
        (λ u d.
          unless_current-Stays c (is_current d.snapshot2) (on_snapshot2 m)
            (λ d h. ground (arith, h, keeps (record { snapshot = d.snapshot2; disk = d.disk }))) d)

  mount-Stays : (faults : Faults) → Keeps (Stays c) (mount faults)
  unfolding mount
  mount-Stays faults =
      on_each-Stays (mount_filesystem_snapshot faults false) (mount-KeepsEntry faults)

  umount-Stays : (faults : Faults) → Keeps (Stays c) (umount faults)
  unfolding umount
  umount-Stays faults =
      on_each-Stays (umount_filesystem_snapshot faults false) (umount-KeepsEntry faults)

module _ (faults : Faults) (cmp : ℕ → ℕ → Changes) (c d : Comparison) (changes : List Change) where
  abbrev sort_files : Exec Comparison (Unit {0})
  sort_files = modify (λ c. record c { files = sort c.files })

  -- When `create` returns, the files are those that were found, in order.
  pub create-files :
      (u : Unit {0})
      → cmp c.snapshot1.num c.snapshot2.num ≡ ok changes
      → create faults cmp c ≡ (ok u, d)
      → KeepsPlace c d × (d.files ≡ sort (c.files ++ append_changes changes))
  unfolding create cmp_snapshots
  create-files u found done =
      let (u1, c1, mounted, rest1) =
        bind_ok (mount faults) (λ u. cmp_snapshots faults cmp >> (umount faults >> sort_files)) c d
          u done in
      let (u2, c2, compared, rest2) =
        bind_ok (cmp_snapshots faults cmp) (λ u. umount faults >> sort_files) c1 d u rest1 in
      let (u3, c3, umounted, rest3) = bind_ok (umount faults) (λ u. sort_files) c2 d u rest2 in
      let at1 : Stays c c1 =
        subst (λ r. Stays c r.1) mounted (mount-Stays c faults c (Stays-refl c)) in
      let at3 : Stays c2 c3 =
        subst (λ r. Stays c2 r.1) umounted (umount-Stays c2 faults c2 (Stays-refl c2)) in
      let here : cmp c1.snapshot1.num c1.snapshot2.num ≡ ok changes = rw (at1.0.0, at1.0.1) found in
      let grown : cmp_snapshots faults cmp c1
          ≡ (ok tt, record c1 { files = c1.files ++ append_changes changes }) =
        rw (here, cmp_snapshots) refl in
      let e2 : c2 ≡ record c1 { files = c1.files ++ append_changes changes } =
        ap (λ r. r.1) (sym compared ∙ grown) in
      let e4 : d ≡ record c3 { files = sort c3.files } = ap (λ r. r.1) (sym rest3) in
      ground (arith, at1, at3, e2, e4)
