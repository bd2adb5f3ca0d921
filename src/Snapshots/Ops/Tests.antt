-- ===== src/Snapshots/Ops/Tests.antt =====
-- Runs on a system with a pre snapshot.
use ok_snap.Base.{◌≡◌, refl, inl, inr, some, [], ◌∷◌, arith, ◌==◌, codes, pos}
use ok_snap.Exec.{ok, err, illegal_snapshot, io_error}
use ok_snap.Snapshots.Types.{Snapshot, single, pre, post, new_snapshot}
use ok_snap.Snapshots.Disk.{Disk, Faults, FileList, no_faults}
use ok_snap.Snapshots.Table.{Snapshots, last_num, next_fuel}
use ok_snap.Snapshots.Ops.{
  next_number, create_single_snapshot, create_post_snapshot, delete_snapshot,
}
use ok_snap.Snapshots.Ops.Number.{HasRoom, Numbered, next_number-Numbered}
use ok_snap.Snapshots.Ops.Consistent.{IsConsistent}
use ok_snap.Snapshots.Ops.Create.{create_post_snapshot-IsConsistent}
use ok_snap.Snapshots.Ops.Forget.{Forgotten, delete_snapshot-Forgotten}

abbrev current : Snapshot
current = new_snapshot single 0 (pos 0)

abbrev first : Snapshot
first = new_snapshot pre 1 (pos 100)

abbrev second : Snapshot
second = record (new_snapshot post 2 (pos 200)) { pre_num = 1 }

abbrev list_of_second : FileList
list_of_second = record { num2 = 2; num1 = 1; content = codes "+... /a\n" }

abbrev disk : Disk
disk = record {
  subvolumes = 1 ∷ 2 ∷ [];
  mounted = [];
  info_dirs = 1 ∷ 2 ∷ [];
  infos = [];
  file_lists = list_of_second ∷ [];
  left_over = [];
}

abbrev pair : Snapshots
pair = record { entries = current ∷ first ∷ second ∷ []; disk = disk }

abbrev half : Snapshots
half = record { entries = current ∷ first ∷ []; disk = disk }

half-HasRoom : HasRoom half
unfolding last_num next_fuel
half-HasRoom = omega arith

half-IsConsistent : IsConsistent half.entries
half-IsConsistent = record {
  current_first = (refl, refl);
  ascending = ((omega arith, tt), (tt, tt));
  pre_before = ((λ e. cc), ((λ e. cc), tt));
  pre_in = ((λ e. cc), ((λ e. cc), tt));
  one_post = (((λ e. cc), tt), (tt, tt));
}

-- The numbers of the directories that are left over are passed over.
skips_taken : (next_number no_faults half).0 ≡ ok 3
unfolding next_number
skips_taken = refl

second_post_refused :
    (create_post_snapshot no_faults (pos 300) [] (some first) pair).0 ≡ err illegal_snapshot
unfolding create_post_snapshot
second_post_refused = refl

next_number-Numbered_example : Numbered half (next_number no_faults half)
next_number-Numbered_example = next_number-Numbered no_faults half half-HasRoom

abbrev failing : Faults
failing = record no_faults { create_fails = λ n. n == 3 }

create_post_snapshot-IsConsistent_example :
    IsConsistent (create_post_snapshot no_faults (pos 300) (codes "x") (some first) half).1.entries
create_post_snapshot-IsConsistent_example =
    create_post_snapshot-IsConsistent no_faults (pos 300) (codes "x") (some first) half half-HasRoom
      (inr (inl refl)) half-IsConsistent

abbrev without_first : Snapshots
without_first = record {
  entries = current ∷ second ∷ [];
  disk = record {
    subvolumes = 2 ∷ [];
    mounted = [];
    info_dirs = 2 ∷ [];
    infos = [];
    file_lists = [];
    left_over = [];
  };
}

delete_snapshot-Forgotten_example : Forgotten 1 without_first.disk
unfolding delete_snapshot
delete_snapshot-Forgotten_example =
    delete_snapshot-Forgotten no_faults first pair without_first
      (record {
        info_goes = refl;
        own_go = λ m. refl;
        others_go = λ m. refl;
        dir_goes = refl;
        clean = refl;
      })
      ((second, inr (inr (inl refl)), refl, refl), tt) refl

abbrev write_fails : Faults
write_fails = record no_faults { info_fails = λ n. n == 3 }

create_fails_whole :
    (create_single_snapshot write_fails (pos 300) (codes "x") half).0 ≡ err io_error
unfolding create_single_snapshot
create_fails_whole = refl
