-- ===== src/Comparison/Again.antt =====
-- A comparison that is made again: what the first one saved is what the later one loads, in the same
-- or in the other direction.
use ok_snap.Comparison.{
  Comparison, load, save, initialize, create, unless_loaded, filter_files, find_list, list_of,
  high_num, low_num, is_inverted, has_current, append_changes, load_list,
}
use ok_snap.Comparison.Saved.{IsSaved, save-IsSaved, load_found, moved_IsSaved, WritesLists}
use ok_snap.Comparison.Created.{create-files, KeepsPlace}
use ok_snap.Snapshots.Disk
use ok_snap.Snapshots.Disk.{Disk, Faults}
use ok_snap.Files.Listing.{parse_list, print_list, get_lines, parse_lines}
use ok_snap.Files.Listing.RoundTrip.{
  IsListable, inverted, parse_list-print_list, parse_list-print_list-inverted,
}
use ok_snap.Files.Defs.Sorted.{IsSorted, AreDistinct, All-sort, sort-IsSorted}
use ok_snap.Base.{
  ℕ, ◌≡◌, refl, sym, ap, ◌∙◌, subst, ◌≢◌, Bool, true, false, not, none, List, [], ◌++◌, map, arith,
  if◌then◌else◌, All, Text,
}
use ok_snap.Exec.Returns.{bind_ok}
use ok_snap.Compare.Dirs.{Changes, Change}
use ok_snap.Exec.{◌>>◌, ◌>>=◌, Exec, ok}
use ok_snap.Files.Defs.{File, sort, filter}

-- The files as a comparison of the snapshots in this order, or in the other, has them.
abbrev pub seen : Bool → List File → List File
seen false fs = fs
seen true fs = map inverted fs

-- The same snapshots in the same order, or in the other.
abbrev pub SameSnapshots : Bool → Comparison → Comparison → Type 0
SameSnapshots false c d = (d.snapshot1.num ≡ c.snapshot1.num) × (d.snapshot2.num ≡ c.snapshot2.num)
SameSnapshots true c d = (d.snapshot1.num ≡ c.snapshot2.num) × (d.snapshot2.num ≡ c.snapshot1.num)

same_from :
    (swapped : Bool) (c c2 d : Comparison)
    → KeepsPlace c c2
    → SameSnapshots swapped c d
    → SameSnapshots swapped c2 d
same_from false c c2 d place same = (same.0 ∙ sym place.0, same.1 ∙ sym place.1)
same_from true c c2 d place same = (same.0 ∙ sym place.1, same.1 ∙ sym place.0)

same_place :
    (swapped : Bool) (c d : Comparison)
    → c.snapshot1.num ≢ c.snapshot2.num
    → SameSnapshots swapped c d
    → (high_num d ≡ high_num c)
      × (low_num d ≡ low_num c)
      × (is_inverted d ≡ (if swapped then not (is_inverted c) else is_inverted c))
      × (has_current d ≡ has_current c)
same_place false c d differ same = ground arith
same_place true c d differ same = ground arith

read_back :
    (swapped inv : Bool) (fs : List File)
    → IsSorted fs
    → All IsListable fs
    → parse_list (if swapped then not inv else inv) (print_list inv fs) ≡ seen swapped fs
read_back false inv fs sorted listable = parse_list-print_list inv fs sorted listable
read_back true inv fs sorted listable = parse_list-print_list-inverted inv fs sorted listable

-- A list that was saved is loaded.
load-save :
    (faults : Faults) (swapped : Bool) (c d : Comparison)
    → c.snapshot1.num ≢ c.snapshot2.num
    → has_current c ≡ false
    → IsSorted c.files
    → All IsListable c.files
    → IsSaved c d
    → SameSnapshots swapped c d
    → d.files ≡ []
    → load faults d ≡ (ok true, record d { files = seen swapped c.files })
unfolding parse_list list_of
load-save faults swapped c d differ current sorted listable saved same empty =
    let (high, low, inv, cur) = same_place swapped c d differ same in
    let content = print_list (is_inverted c) c.files in
    let back = read_back swapped (is_inverted c) c.files sorted listable in
    load_found faults d content (cur ∙ current) (rw high saved.has_dir)
      (rw (high, low) saved.has_list)
    ∙ ap
        (λ fs. (
          ok true,
          record d { files = sort (fs ++ parse_lines (is_inverted d) (get_lines content)) },
        ))
        empty
    ∙ ap (λ fs. (ok true, record d { files = fs })) (rw inv back)

module _ (faults : Faults) (cmp : ℕ → ℕ → Changes) (fnmatch : Text → Text → Bool)
    (patterns : List Text) where
  -- A comparison that finds its list filters it, and compares nothing.
  initialize_loaded :
      (d : Comparison) (fs : List File)
      → has_current d ≡ false
      → load faults d ≡ (ok true, record d { files = fs })
      → initialize faults cmp fnmatch patterns d
        ≡ (ok tt, record d { files = filter fnmatch patterns fs })
  unfolding initialize unless_loaded filter_files
  initialize_loaded d fs current loaded = rw (loaded, current, initialize) refl

  load_missing :
      (c d : Comparison) (b : Bool)
      → find_list (high_num c) (low_num c) c.disk.file_lists ≡ none
      → load faults c ≡ (ok b, d)
      → (b ≡ false) × (d ≡ c)
  unfolding load load_list Disk.open_info_dir
  load_missing c d b missing done = ground arith

  -- A comparison that does not find its list makes it and saves it before it filters.
  initialize_created :
      (c e : Comparison) (u : Unit {0})
      → WritesLists faults
      → has_current c ≡ false
      → find_list (high_num c) (low_num c) c.disk.file_lists ≡ none
      → initialize faults cmp fnmatch patterns c ≡ (ok u, e)
      → (d : Comparison) × (create faults cmp c ≡ (ok tt, d)) × (IsSaved d e)
  unfolding initialize unless_loaded filter_files
  initialize_created c e u whole current missing done =
      let start : Exec Comparison (Unit {0}) = λ x.
        if has_current c
        then create faults cmp x
        else (load faults >>= unless_loaded faults cmp) x in
      let (u1, c1, started, filtered) =
        bind_ok start (λ v. filter_files fnmatch patterns) c e u done in
      let started2 : (load faults >>= unless_loaded faults cmp) c ≡ (ok u1, c1) =
        subst
          (λ b.
            (if b then create faults cmp c else (load faults >>= unless_loaded faults cmp) c)
            ≡ (ok u1, c1))
          current started in
      let (b, c2, loaded, made) =
        bind_ok (load faults) (unless_loaded faults cmp) c c1 u1 started2 in
      let (not_found, same) = load_missing c c2 b missing loaded in
      let made2 : (create faults cmp >> save faults) c ≡ (ok u1, c1) =
        subst (λ x. unless_loaded faults cmp false x ≡ (ok u1, c1)) same
          (subst (λ x. unless_loaded faults cmp x c2 ≡ (ok u1, c1)) not_found made) in
      let (u2, d, created_now, saved) =
        bind_ok (create faults cmp) (λ v. save faults) c c1 u1 made2 in
      let now = save-IsSaved faults d c1 u1 whole saved in
      let disk : e.disk ≡ c1.disk = ap (λ r. r.1.disk) (sym filtered) in
      (d, created_now, moved_IsSaved d c1 e disk now)

-- Once a comparison of two snapshots that are not current, without a list on the disk, has returned and
-- the list was written whole and got its name (which the code does not test), a
-- comparison of them on that disk, in either order and with any ignore patterns, returns and has the
-- files that were found the first time, in the order of their names, turned round if the order is the
-- other one, without those that its own patterns ignore; it needs no comparison of directories. What
-- was found has distinct names without null bytes and newlines.
pub initialize_again :
    (faults later : Faults) (cmp cmp_later : ℕ → ℕ → Changes) (fnmatch : Text → Text → Bool)
    (patterns patterns_later : List Text) (swapped : Bool) (c d e : Comparison)
    (changes : List Change) (u : Unit {0})
    → WritesLists faults
    → c.snapshot1.num ≢ c.snapshot2.num
    → has_current c ≡ false
    → c.files ≡ []
    → find_list (high_num c) (low_num c) c.disk.file_lists ≡ none
    → cmp c.snapshot1.num c.snapshot2.num ≡ ok changes
    → AreDistinct (append_changes changes)
    → All IsListable (append_changes changes)
    → initialize faults cmp fnmatch patterns c ≡ (ok u, e)
    → SameSnapshots swapped c d
    → d.disk ≡ e.disk
    → d.files ≡ []
    → initialize later cmp_later fnmatch patterns_later d ≡ (
      ok tt,
      record d {
        files = filter fnmatch patterns_later (seen swapped (sort (append_changes changes)));
      },
    )
initialize_again faults later cmp cmp_later fnmatch patterns patterns_later swapped c d e changes u
      whole differ current empty missing found distinct listable done same disk empty_later =
    let (c2, made, saved) =
      initialize_created faults cmp fnmatch patterns c e u whole current missing done in
    let (place, files) = create-files faults cmp c c2 changes tt found made in
    let sorted_files : c2.files ≡ sort (append_changes changes) =
      files ∙ ap (λ fs. sort (fs ++ append_changes changes)) empty in
    let differ2 : c2.snapshot1.num ≢ c2.snapshot2.num = rw (place.0, place.1) differ in
    let current2 : has_current c2 ≡ false = rw (place.0, place.1) current in
    let same2 = same_from swapped c c2 d place same in
    let loaded =
      load-save later swapped c2 d differ2 current2
        (rw sorted_files (sort-IsSorted (append_changes changes) distinct))
        (rw sorted_files (All-sort IsListable (append_changes changes) listable))
        (moved_IsSaved c2 e d disk saved) same2 empty_later in
    let (high, low, inv, cur) = same_place swapped c2 d differ2 same2 in
    initialize_loaded later cmp_later fnmatch patterns_later d (seen swapped c2.files)
      (cur ∙ current2) loaded
    ∙ ap (λ fs. (ok tt, record d { files = filter fnmatch patterns_later (seen swapped fs) }))
        sorted_files
