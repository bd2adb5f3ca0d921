-- ===== src/Files/Defs/Statistic.antt =====
-- The undo statistic counts the undo steps.
use ok_snap.Base.{
  ℕ, ◌+◌, ◌^◌, ◌≤◌, ◌<◌, ◌≡◌, List, [], ◌∷◌, arith, if◌then◌else◌, length, length-append,
}
use ok_snap.Files.Defs.{
  File, UndoStatistic, get_action, created_step, other_step, created_steps, other_steps,
  get_undo_steps, count, statistic_from, get_undo_statistic, inc32,
}

inc32-small : (n : ℕ) → n + 1 < 2 ^ 32 → inc32 n ≡ n + 1
unfolding inc32
inc32-small n h = omega arith

-- What a round adds to the numbers, as long as they do not wrap.
after_round : UndoStatistic → File → UndoStatistic
after_round rs f = if f.undo then count (get_action f) rs else rs

abbrev total : UndoStatistic → ℕ
total rs = rs.num_create + rs.num_modify + rs.num_delete

round-counts :
    (rs : UndoStatistic) (f : File)
    → total rs + 1 < 2 ^ 32
    → ((after_round rs f).num_delete ≡ rs.num_delete + length (created_step f))
      × ((after_round rs f).num_create + (after_round rs f).num_modify
          ≡ rs.num_create + rs.num_modify + length (other_step f))
      × (total (after_round rs f) ≤ total rs + 1)
unfolding after_round count get_action created_step other_step
round-counts rs f h =
    ground (arith, inc32-small rs.num_delete, inc32-small rs.num_create, inc32-small rs.num_modify)

statistic-counts :
    (rs : UndoStatistic) (fs : List File)
    → total rs + length fs < 2 ^ 32
    → ((statistic_from rs fs).num_delete ≡ rs.num_delete + length (created_steps fs))
      × ((statistic_from rs fs).num_create + (statistic_from rs fs).num_modify
          ≡ rs.num_create + rs.num_modify + length (other_steps fs))
unfolding statistic_from after_round created_steps other_steps
statistic-counts rs [] h = (omega arith, omega arith)
statistic-counts rs (f ∷ fs) h =
    let (d, o, t) = round-counts rs f (omega arith) in
    let (ds, os) = statistic-counts (after_round rs f) fs (omega arith) in
    (
      omega (arith, length-append (created_steps fs) (created_step f)),
      omega (arith, length-append (other_step f) (other_steps fs)),
    )

-- With fewer than 2 ^ 32 entries, `num_delete` is the number of deletions among the undo steps, and
-- the three numbers add up to the number of all steps.
pub get_undo_statistic-counts :
    (fs : List File)
    → length fs < 2 ^ 32
    → ((get_undo_statistic fs).num_delete ≡ length (created_steps fs))
      × ((get_undo_statistic fs).num_create
            + (get_undo_statistic fs).num_modify
            + (get_undo_statistic fs).num_delete
          ≡ length (get_undo_steps fs))
unfolding get_undo_statistic get_undo_steps
get_undo_statistic-counts fs h =
    let (d, o) =
      statistic-counts (record { num_create = 0; num_modify = 0; num_delete = 0 }) fs
        (omega arith) in
    (omega arith, omega (arith, length-append (created_steps fs) (other_steps fs)))
