-- ===== src/Comparison/Tests.antt =====
-- A comparison of two snapshots, made again in the other direction.
use ok_snap.Comparison.{
  Comparison, initialize, append_changes, create, cmp_snapshots, filter_files, find_list, list_of,
  load_list, on_each, on_number1, on_number2, put_list, unless_current, unless_loaded, mount,
  umount, load, save, put_written,
}
use ok_snap.Comparison.Again.{initialize_again}
use ok_snap.Snapshots.Types.{new_snapshot, single}
use ok_snap.Snapshots.Disk
use ok_snap.Snapshots.Disk.{Disk, no_faults}
use ok_snap.Compare.Dirs.{Changes}
use ok_snap.Files.Defs.{file, sort, insert, filter, ignored}
use ok_snap.Base.{ℕ, ◌≡◌, refl, ◌≢◌, Bool, true, [], ◌∷◌, arith, Text, codes, text_eq, text_lt, pos}
use ok_snap.Files.Listing.{print_list}
use ok_snap.Files.Status.{invert_status, is_clean}
use ok_snap.Snapshots.Entry.{check_mount, mount_filesystem_snapshot, umount_filesystem_snapshot}
use ok_snap.Files.Listing.RoundTrip.{IsListable}
use ok_snap.Exec.{ok, err, io_error}

abbrev disk : Disk
disk = record {
  subvolumes = 1 ∷ 2 ∷ [];
  mounted = [];
  info_dirs = 1 ∷ 2 ∷ [];
  infos = [];
  file_lists = [];
  left_over = [];
}

abbrev first : Comparison
first = record {
  snapshot1 = new_snapshot single 1 (pos 0);
  snapshot2 = new_snapshot single 2 (pos 0);
  disk = disk;
  files = [];
}

abbrev cmp_found : ℕ → ℕ → Changes
cmp_found num1 num2 = ok ((codes "/b", 8) ∷ (codes "/a", 1) ∷ [])

abbrev cmp_none : ℕ → ℕ → Changes
cmp_none num1 num2 = err io_error

abbrev ignores_b : Text → Text → Bool
ignores_b pattern name = text_eq name (codes "/b")

abbrev ended : Comparison
ended = (initialize no_faults cmp_found ignores_b (codes "/b" ∷ []) first).1

abbrev later : Comparison
later = record first {
  snapshot1 = new_snapshot single 2 (pos 0);
  snapshot2 = new_snapshot single 1 (pos 0);
  disk = ended.disk;
}

listable :
    (c status : ℕ)
    → c ≢ 0
    → c ≢ b'\n'
    → is_clean status ≡ true
    → IsListable (file (b'/' ∷ c ∷ []) status)
listable c status no_null no_break clean = record {
  named = ((λ e. omega arith, λ e. omega arith), ((no_null, no_break), tt));
  clean = clean;
  new = refl;
}

initialize_again_example :
    initialize no_faults cmp_none ignores_b [] later
    ≡ (ok tt, record later { files = file (codes "/a") 2 ∷ file (codes "/b") 8 ∷ [] })
unfolding initialize create mount umount on_each on_number1 on_number2 unless_current
    mount_filesystem_snapshot umount_filesystem_snapshot check_mount Disk.fs_mount
    Disk.fs_is_mounted Disk.member Disk.open_info_dir load load_list unless_loaded save put_list
    put_written find_list list_of cmp_snapshots filter_files filter ignored sort insert text_lt
    text_eq append_changes is_clean invert_status print_list
initialize_again_example =
    initialize_again no_faults no_faults cmp_found cmp_none ignores_b (codes "/b" ∷ []) [] true
      first later ended ((codes "/b", 8) ∷ (codes "/a", 1) ∷ []) tt (λ n text. refl)
      (λ h. absurd (omega arith)) refl refl refl refl ((refl, tt), (tt, tt))
      (
        listable b'b' 8 (λ e. omega arith) (λ e. omega arith) refl,
        (listable b'a' 1 (λ e. omega arith) (λ e. omega arith) refl, tt),
      )
      refl (refl, refl) refl refl
