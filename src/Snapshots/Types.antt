-- ===== src/Snapshots/Types.antt =====
-- `Snapshot` of snapper/Snapshot.h.
use ok_snap.Base.{
  ℕ, Bool, true, false, Option, none, some, List, [], ◌==◌, if◌then◌else◌, ℤ, Text, codes, text_eq,
}

pub data SnapshotType : Type 0 where
  single pre post : SnapshotType

abbrev pub type_eq : SnapshotType → SnapshotType → Bool
type_eq single single = true
type_eq pre pre = true
type_eq post post = true
type_eq _ _ = false

-- `toString` and `toValue` of snapper/Enum.h with the names of snapper/Enum.cc.
unfoldable pub type_name : SnapshotType → Text
type_name single = codes "single"
type_name pre = codes "pre"
type_name post = codes "post"

unfoldable pub type_value : Text → Option SnapshotType
unfolding type_name text_eq
type_value str =
    if text_eq str (type_name single)
    then some single
    else if text_eq str (type_name pre)
    then some pre
    else if text_eq str (type_name post)
    then some post
    else none

pub record Snapshot : Type 0 where
  pub type : SnapshotType
  pub num : ℕ
  pub date : ℤ
  pub uid : ℕ
  pub pre_num : ℕ
  pub description : Text
  pub cleanup : Text
  pub userdata : List (Text × Text)
  pub info_modified : Bool
  pub mount_checked : Bool
  pub mount_user_request : Bool
  pub mount_use_count : ℕ

-- The constructor of `Snapshot`.
abbrev pub new_snapshot : SnapshotType → ℕ → ℤ → Snapshot
new_snapshot type num date = record {
  type = type;
  num = num;
  date = date;
  uid = 0;
  pre_num = 0;
  description = [];
  cleanup = [];
  userdata = [];
  info_modified = false;
  mount_checked = false;
  mount_user_request = false;
  mount_use_count = 0;
}

abbrev pub is_current : Snapshot → Bool
is_current s = s.num == 0
