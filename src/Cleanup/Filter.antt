-- ===== src/Cleanup/Filter.antt =====
-- `filter1` and `filter2` of client/cleanup.cc.
use ok_snap.Base.{
  Bool, true, false, ◌||◌, Option, none, some, List, [], ◌∷◌, ◌==◌, if◌then◌else◌, ℤ, ◌-ℤ◌, ltb_ℤ,
}
use ok_snap.Snapshots.Types.{pre, post, type_eq}
use ok_snap.Cleanup.Types.{XSnapshot, find_pre, find_post}

unfoldable pub younger_than : ℤ → XSnapshot → Bool
younger_than t s = ltb_ℤ t s.date

-- `now` is `time(NULL)`.
unfoldable pub filter1 : ℤ → ℤ → List XSnapshot → List XSnapshot
unfolding younger_than ◌-ℤ◌
filter1 now min_age [] = []
filter1 now min_age (s ∷ ss) =
    let rest = filter1 now min_age ss in if younger_than (now -ℤ min_age) s then rest else s ∷ rest

-- `find(tmp.begin(), tmp.end(), it) != tmp.end()`
unfoldable pub is_in : XSnapshot → List XSnapshot → Bool
is_in s [] = false
is_in s (t ∷ ts) = (t.num == s.num) || is_in s ts

-- The test on what `findPost` and `findPre` gave: the other half is not there, or is in `tmp` too.
unfoldable pub with_partner : Option (Option XSnapshot) → List XSnapshot → Option Bool
unfolding is_in
with_partner none tmp = none
with_partner (some none) tmp = some true
with_partner (some (some s)) tmp = some (is_in s tmp)

-- Whether a round of the loop of `filter2` comes to its `push_back`.
unfoldable pub keeps : List XSnapshot → List XSnapshot → XSnapshot → Option Bool
unfolding with_partner find_post find_pre
keeps snapshots tmp s =
    if type_eq s.type pre
    then with_partner (find_post snapshots s) tmp
    else if type_eq s.type post
    then with_partner (find_pre snapshots s) tmp
    else some true

unfoldable pub push : XSnapshot → Option Bool → Option (List XSnapshot) → Option (List XSnapshot)
push s (some true) (some ret) = some (s ∷ ret)
push s (some false) (some ret) = some ret
push s _ _ = none

unfoldable pub filter2_loop :
    List XSnapshot → List XSnapshot → List XSnapshot → Option (List XSnapshot)
unfolding keeps push
filter2_loop snapshots tmp [] = some []
filter2_loop snapshots tmp (s ∷ ss) = push s (keeps snapshots tmp s) (filter2_loop snapshots tmp ss)

unfoldable pub filter2 : List XSnapshot → List XSnapshot → Option (List XSnapshot)
unfolding filter2_loop
filter2 snapshots tmp = filter2_loop snapshots tmp tmp
