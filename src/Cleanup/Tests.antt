-- ===== src/Cleanup/Tests.antt =====
-- Runs of the cleanup algorithms on small lists of snapshots.
use ok_snap.Base.{
  ℕ, ◌+◌, ◌≤◌, ◌≡◌, refl, ◌↔◌, inl, inr, false, some, List, [], ◌∷◌, ◌++◌, arith, length, All, In,
  ℤ, ◌-ℤ◌, Text, codes, text_eq, pos, negsuc,
}
use ok_snap.Snapshots.Types.{SnapshotType, single, pre, post}
use ok_snap.Cleanup.Types.{XSnapshot, find_pre, find_post}
use ok_snap.Cleanup.Filter.{younger_than, filter2}
use ok_snap.Cleanup.Algorithms.{
  select, doomed_number, Tm, Counts, unclaimed, no_counts, doomed_empty,
}
use ok_snap.Cleanup.Pairing.{filter2-KeepsPairs}
use ok_snap.Cleanup.Chosen.{doomed_number-Chosen, IsCutAt}
use ok_snap.Cleanup.Empty.{IsHalf, doomed_empty-IsHalf}
use ok_snap.Cleanup.Kept.{unclaimed-length, total}

abbrev snapshot : SnapshotType → ℕ → ℕ → Text → ℕ → XSnapshot
snapshot type num pre_num cleanup date = record {
  type = type;
  num = num;
  date = pos date;
  uid = 0;
  pre_num = pre_num;
  description = [];
  cleanup = cleanup;
  userdata = [];
}

abbrev before : XSnapshot
before = snapshot pre 1 0 (codes "number") 100

abbrev after : XSnapshot
after = snapshot post 2 1 (codes "number") 200

abbrev alone : XSnapshot
alone = snapshot single 3 0 (codes "number") 300

abbrev listed : List XSnapshot
listed = before ∷ after ∷ alone ∷ []

-- With a limit of two the first half of a pair would go alone, so nothing does.
split_pair : doomed_number (pos 5000) (pos 1800) 2 listed ≡ some []
unfolding doomed_number text_eq
split_pair = refl

filter2-KeepsPairs_example : In before (before ∷ after ∷ []) ↔ In after (before ∷ after ∷ [])
unfolding find_pre find_post filter2
filter2-KeepsPairs_example =
    filter2-KeepsPairs listed (before ∷ after ∷ []) (before ∷ after ∷ []) before after
      (((λ e. omega arith), ((λ e. omega arith), tt)), (((λ e. omega arith), tt), (tt, tt)))
      (inl refl, (inr (inl refl), tt)) refl refl refl

doomed_number-Chosen_example :
    (front : List XSnapshot) × (newest : List XSnapshot) × (select (codes "number") listed
      ≡ front ++ newest)
    × IsCutAt 1 front newest
    × All (λ s. In s front × (younger_than (pos 5000 -ℤ pos 1800) s ≡ false)) (before ∷ after ∷ [])
unfolding doomed_number text_eq
doomed_number-Chosen_example =
    doomed_number-Chosen (pos 5000) (pos 1800) 1 listed (before ∷ after ∷ []) refl

-- Seconds taken for hours, of one day.
abbrev clock : ℤ → Tm
clock t = record {
  tm_year = 110;
  tm_mon = 0;
  tm_mday = 1;
  tm_hour = elim t [ pos n ↦ n | negsuc n ↦ 0 ];
}

abbrev hourly : List XSnapshot
hourly =
    snapshot single 1 0 (codes "timeline") 1
    ∷ snapshot single 2 0 (codes "timeline") 1
    ∷ snapshot single 3 0 (codes "timeline") 2
    ∷ []

abbrev one_an_hour : Counts
one_an_hour = record { hourly = 2; daily = 0; monthly = 0; yearly = 0 }

doomed_empty-IsHalf_example :
    All
      (λ s. IsHalf (λ _ _. false) listed s × (younger_than (pos 5000 -ℤ pos 1800) s ≡ false))
      (before ∷ after ∷ [])
unfolding doomed_empty text_eq
doomed_empty-IsHalf_example =
    doomed_empty-IsHalf (λ _ _. false) (pos 5000) (pos 1800) listed (before ∷ after ∷ []) refl

unclaimed-length_example : 3 ≤ length (unclaimed clock one_an_hour no_counts hourly) + 2
unfolding total
unclaimed-length_example =
    unclaimed-length clock one_an_hour no_counts hourly
      (omega arith, omega arith, omega arith, omega arith)
