-- ===== src/Cleanup/Algorithms.antt =====
-- `do_cleanup_number`, `do_cleanup_timeline` and `do_cleanup_empty_pre_post` of client/cleanup.cc.
-- Each gives the numbers that it asks the daemon to delete, one call for each and in this order;
-- `none` where the program ends by a `throw;`.
use ok_snap.Base.{
  ℕ, ◌+◌, Bool, true, false, not, ◌&&◌, Option, none, some, List, [], ◌∷◌, map, ltb, ◌==◌,
  if◌then◌else◌, length, ℤ, ltb_ℤ, Text, codes, text_eq, pos,
}
use mathlib.Core.List.{reverse}
use ok_snap.Snapshots.Types.{pre, type_eq}
use ok_snap.Cleanup.Types.{XSnapshot, XConfigInfo, find_post}
use ok_snap.Cleanup.Filter.{filter1, filter2}

unfoldable pub lookup : Text → List (Text × Text) → Option Text
lookup k [] = none
lookup k ((j, v) ∷ m) = if text_eq j k then some v else lookup k m

-- What the C and C++ libraries give: the value of an `istringstream >> v`, the value that `v` had
-- before being the second argument, and the broken-down local time.
pub record Tm : Type 0 where
  pub tm_year : ℕ
  pub tm_mon : ℕ
  pub tm_mday : ℕ
  pub tm_hour : ℕ

pub record Platform : Type 0 where
  pub scan_time : Text → ℤ → ℤ
  pub scan_size : Text → ℕ → ℕ
  pub localtime : ℤ → Tm

-- `if ((pos = ci.raw.find(key)) != ci.raw.end()) pos->second >> value;`
unfoldable pub read_value : {A : Type 0} → (Text → A → A) → XConfigInfo → Text → A → A
unfolding lookup
read_value scan ci key value = elim (lookup key ci.raw) [ none ↦ value | some s ↦ scan s value ]

-- The loop that collects the snapshots of one algorithm.
unfoldable pub select : Text → List XSnapshot → List XSnapshot
select algorithm [] = []
select algorithm (s ∷ ss) =
    let rest = select algorithm ss in if text_eq s.cleanup algorithm then s ∷ rest else rest

unfoldable pub nums_of : Option (List XSnapshot) → Option (List ℕ)
nums_of none = none
nums_of (some ss) = some (map (λ s. s.num) ss)

-- What is left of the list when its last `limit` elements are erased.
unfoldable pub drop_last : ℕ → List XSnapshot → List XSnapshot
drop_last limit [] = []
drop_last limit (s ∷ ss) = if ltb (length ss) limit then [] else s ∷ drop_last limit ss

abbrev pub tmp_number : ℕ → List XSnapshot → List XSnapshot
tmp_number limit tmp = if ltb limit (length tmp) then drop_last limit tmp else []

-- The snapshots that the number algorithm deletes.
unfoldable pub doomed_number : ℤ → ℤ → ℕ → List XSnapshot → Option (List XSnapshot)
unfolding select drop_last filter1 filter2
doomed_number now min_age limit snapshots =
    filter2 snapshots (filter1 now min_age (tmp_number limit (select (codes "number") snapshots)))

unfoldable pub do_cleanup_number : Platform → ℤ → XConfigInfo → List XSnapshot → Option (List ℕ)
unfolding read_value doomed_number nums_of
do_cleanup_number platform now ci snapshots =
    let min_age = read_value platform.scan_time ci (codes "NUMBER_MIN_AGE") (pos 1800) in
    let limit = read_value platform.scan_size ci (codes "NUMBER_LIMIT") 50 in
    nums_of (doomed_number now min_age limit snapshots)

abbrev pub equal_year : Tm → Tm → Bool
equal_year a b = a.tm_year == b.tm_year

abbrev pub equal_month : Tm → Tm → Bool
equal_month a b = equal_year a b && (a.tm_mon == b.tm_mon)

abbrev pub equal_day : Tm → Tm → Bool
equal_day a b = equal_month a b && (a.tm_mday == b.tm_mday)

abbrev pub equal_hour : Tm → Tm → Bool
equal_hour a b = equal_day a b && (a.tm_hour == b.tm_hour)

-- The loop of `is_first`, from an iterator on.
unfoldable pub is_first : (ℤ → Tm) → (Tm → Tm → Bool) → XSnapshot → List XSnapshot → Bool
is_first localtime pred s [] = true
is_first localtime pred s (t ∷ ts) =
    let rest = is_first localtime pred s ts in
    if t.num == s.num
    then rest
    else if not (pred (localtime s.date) (localtime t.date))
    then true
    else if ltb_ℤ t.date s.date
    then false
    else rest

pub record Counts : Type 0 where
  pub hourly : ℕ
  pub daily : ℕ
  pub monthly : ℕ
  pub yearly : ℕ

-- A round of the loop: the counts behind it if it erases the snapshot from the candidates, which
-- is to keep it. The list starts with the snapshot.
unfoldable pub claim : (ℤ → Tm) → Counts → Counts → XSnapshot → List XSnapshot → Option Counts
unfolding is_first
claim localtime limits num s tail =
    if ltb num.hourly limits.hourly && is_first localtime equal_hour s tail
    then some (record num { hourly = num.hourly + 1 })
    else if ltb num.daily limits.daily && is_first localtime equal_day s tail
    then some (record num { daily = num.daily + 1 })
    else if ltb num.monthly limits.monthly && is_first localtime equal_month s tail
    then some (record num { monthly = num.monthly + 1 })
    else if ltb num.yearly limits.yearly && is_first localtime equal_year s tail
    then some (record num { yearly = num.yearly + 1 })
    else none

-- The loop over the candidates, newest first: what it leaves.
unfoldable pub unclaimed : (ℤ → Tm) → Counts → Counts → List XSnapshot → List XSnapshot
unfolding claim
unclaimed localtime limits num [] = []
unclaimed localtime limits num (s ∷ ss) = elim (claim localtime limits num s (s ∷ ss)) [
  | some num' ↦ unclaimed localtime limits num' ss
  | none ↦ s ∷ unclaimed localtime limits num ss
]

abbrev pub no_counts : Counts
no_counts = record { hourly = 0; daily = 0; monthly = 0; yearly = 0 }

-- The snapshots that the timeline algorithm deletes.
unfoldable pub doomed_timeline :
    (ℤ → Tm) → ℤ → ℤ → Counts → List XSnapshot → Option (List XSnapshot)
unfolding select unclaimed filter1 filter2
doomed_timeline localtime now min_age limits snapshots = filter2 snapshots (
    filter1 now min_age (
      reverse
        (unclaimed localtime limits no_counts (reverse (select (codes "timeline") snapshots)))))

unfoldable pub do_cleanup_timeline : Platform → ℤ → XConfigInfo → List XSnapshot → Option (List ℕ)
unfolding read_value doomed_timeline nums_of
do_cleanup_timeline platform now ci snapshots =
    let min_age = read_value platform.scan_time ci (codes "TIMELINE_MIN_AGE") (pos 1800) in
    let limits : Counts = record {
      hourly = read_value platform.scan_size ci (codes "TIMELINE_LIMIT_HOURLY") 10;
      daily = read_value platform.scan_size ci (codes "TIMELINE_LIMIT_DAILY") 10;
      monthly = read_value platform.scan_size ci (codes "TIMELINE_LIMIT_MONTHLY") 10;
      yearly = read_value platform.scan_size ci (codes "TIMELINE_LIMIT_YEARLY") 10;
    } in
    nums_of (doomed_timeline platform.localtime now min_age limits snapshots)

unfoldable pub add_pair :
    XSnapshot → XSnapshot → Bool → Option (List XSnapshot) → Option (List XSnapshot)
add_pair s t false tmp = tmp
add_pair s t true none = none
add_pair s t true (some tmp) = some (s ∷ t ∷ tmp)

-- A round of the loop of `do_cleanup_empty_pre_post`, with what the rounds behind it collect.
-- `differ` says whether the comparison of two snapshots lists any file.
unfoldable pub empty_round :
    (ℕ → ℕ → Bool)
    → XSnapshot
    → Option (Option XSnapshot)
    → Option (List XSnapshot)
    → Option (List XSnapshot)
unfolding add_pair
empty_round differ s none tmp = none
empty_round differ s (some none) tmp = tmp
empty_round differ s (some (some t)) tmp = add_pair s t (not (differ s.num t.num)) tmp

unfoldable pub empty_pairs :
    (ℕ → ℕ → Bool) → List XSnapshot → List XSnapshot → Option (List XSnapshot)
unfolding empty_round find_post
empty_pairs differ snapshots [] = some []
empty_pairs differ snapshots (s ∷ ss) =
    let rest = empty_pairs differ snapshots ss in
    if type_eq s.type pre then empty_round differ s (find_post snapshots s) rest else rest

abbrev pub filter_both : ℤ → ℤ → List XSnapshot → Option (List XSnapshot) → Option (List XSnapshot)
filter_both now min_age snapshots none = none
filter_both now min_age snapshots (some tmp) = filter2 snapshots (filter1 now min_age tmp)

unfoldable pub doomed_empty : (ℕ → ℕ → Bool) → ℤ → ℤ → List XSnapshot → Option (List XSnapshot)
unfolding empty_pairs filter1 filter2
doomed_empty differ now min_age snapshots =
    filter_both now min_age snapshots (empty_pairs differ snapshots snapshots)

unfoldable pub do_cleanup_empty_pre_post :
    Platform → (ℕ → ℕ → Bool) → ℤ → XConfigInfo → List XSnapshot → Option (List ℕ)
unfolding read_value doomed_empty nums_of
do_cleanup_empty_pre_post platform differ now ci snapshots =
    let min_age = read_value platform.scan_time ci (codes "EMPTY_PRE_POST_MIN_AGE") (pos 1800) in
    nums_of (doomed_empty differ now min_age snapshots)
