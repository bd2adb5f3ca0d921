-- ===== src/Cleanup/Types.antt =====
-- `XSnapshot` and `XSnapshots` of client/types.h and client/types.cc. An iterator is the snapshot
-- that it points to; the daemon gives each snapshot a number of its own, so iterators are compared
-- by that.
use ok_snap.Base.{
  ℕ, Bool, not, ◌&&◌, ◌||◌, Option, none, some, List, [], ◌∷◌, ◌==◌, if◌then◌else◌, ℤ, Text,
}
use ok_snap.Snapshots.Types.{SnapshotType, pre, post, type_eq}

pub record XSnapshot : Type 0 where
  pub type : SnapshotType
  pub num : ℕ
  pub date : ℤ
  pub uid : ℕ
  pub pre_num : ℕ
  pub description : Text
  pub cleanup : Text
  pub userdata : List (Text × Text)

pub record XConfigInfo : Type 0 where
  pub config_name : Text
  pub subvolume : Text
  pub raw : List (Text × Text)

-- The first snapshot that passes a test: the loops of `findPre` and `findPost`.
unfoldable pub first_with : (XSnapshot → Bool) → List XSnapshot → Option XSnapshot
first_with p [] = none
first_with p (s ∷ ss) = if p s then some s else first_with p ss

abbrev pub is_pre_of : XSnapshot → XSnapshot → Bool
is_pre_of s p = type_eq p.type pre && (p.num == s.pre_num)

abbrev pub is_post_of : XSnapshot → XSnapshot → Bool
is_post_of s q = type_eq q.type post && (q.pre_num == s.num)

-- `none` is the `throw;` with no exception to throw again, which ends the program.
unfoldable pub find_pre : List XSnapshot → XSnapshot → Option (Option XSnapshot)
unfolding first_with
find_pre snapshots s =
    if s.num == 0 || not (type_eq s.type post)
    then none
    else some (first_with (is_pre_of s) snapshots)

unfoldable pub find_post : List XSnapshot → XSnapshot → Option (Option XSnapshot)
unfolding first_with
find_post snapshots s =
    if s.num == 0 || not (type_eq s.type pre)
    then none
    else some (first_with (is_post_of s) snapshots)
