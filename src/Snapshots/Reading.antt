-- ===== src/Snapshots/Reading.antt =====
-- `Snapshots::read` and the list that `Snapshots::initialize` makes (snapper/Snapshot.cc). The name
-- of a directory is its number; a directory with another name has no number that matches.
pub mod RoundTrip
pub mod Again
mod Tests
use ok_snap.Base.{
  ℕ, Bool, false, not, ◌||◌, Option, none, some, List, [], ◌∷◌, ltb, ◌==◌, if◌then◌else◌, ℤ, Text,
  codes, text_eq, text_lt, pos, negsuc,
}
use ok_snap.Snapshots.Types.{Snapshot, SnapshotType, single, new_snapshot, type_value}
use ok_snap.Snapshots.Disk.{Disk, Info, get_info, check_snapshot, Conversions}

unfoldable pub value_or : {A : Type 0} → A → Option A → A
value_or a none = a
value_or a (some b) = b

-- `userdata[key] = value`, on a map as the list of its entries in the order of the keys
unfoldable pub set_value : Text × Text → List (Text × Text) → List (Text × Text)
set_value kv [] = kv ∷ []
set_value kv (x ∷ xs) =
    if text_lt x.0 kv.0
    then x ∷ set_value kv xs
    else if text_eq x.0 kv.0
    then kv ∷ xs
    else kv ∷ x ∷ xs

-- The loop over the nodes `userdata`, with the map `acc` so far.
unfoldable pub read_userdata : List (Text × Text) → List (Text × Text) → List (Text × Text)
unfolding set_value
read_userdata acc [] = acc
read_userdata acc (([], value) ∷ rest) = read_userdata acc rest
read_userdata acc ((c ∷ key, value) ∷ rest) = read_userdata (set_value (c ∷ key, value) acc) rest

-- `(time_t)(-1)`
unfoldable pub is_no_date : ℤ → Bool
is_no_date (pos n) = false
is_no_date (negsuc n) = n == 0

module _ (conversions : Conversions) where
  -- `getChildValue` with a number, which is 0 at first and where the text has no number.
  unfoldable pub number_or_zero : Option Text → ℕ
  number_or_zero none = 0
  number_or_zero (some text) = conversions.number_in text

  -- The body of the loop from the test of the number up to `checkSnapshot`, for a directory of which the
  -- name is the number `dir`.
  unfoldable pub read_snapshot : ℕ → Info → SnapshotType → ℕ → ℤ → Option Snapshot
  unfolding is_no_date read_userdata value_or number_or_zero
  read_snapshot dir i type num date =
      if num == 0 || is_no_date date || not (dir == num)
      then none
      else some (record (new_snapshot type num date) {
        uid = number_or_zero i.uid;
        pre_num = number_or_zero i.pre_num;
        description = value_or [] i.description;
        cleanup = value_or [] i.cleanup;
        userdata = read_userdata [] i.userdata;
      })

  unfoldable pub read_info : ℕ → Info → Option Snapshot
  unfolding read_snapshot type_value
  read_info dir i = elim i.type [
    | none ↦ none
    | some name ↦ elim (type_value name) [
      | none ↦ none
      | some type ↦ elim i.num [
        | none ↦ none
        | some num ↦ elim i.date [
          | none ↦ none
          | some date ↦
              read_snapshot dir i type (conversions.number_in num) (conversions.scan_datetime date)
        ]
      ]
    ]
  ]

  -- The loop of `read`. A directory without an `info.xml` is passed over.
  unfoldable pub read_dirs : Disk → List ℕ → List Snapshot
  unfolding read_info get_info check_snapshot
  read_dirs d [] = []
  read_dirs d (n ∷ ns) =
      let rest = read_dirs d ns in
      elim (get_info n d.infos) [
        | none ↦ rest
        | some i ↦ elim (read_info n (conversions.read_again i)) [
          | none ↦ rest
          | some s ↦ if check_snapshot n d then s ∷ rest else rest
        ]
      ]

-- `list::sort`, which keeps the order of elements that are equal
unfoldable pub insert_by_num : Snapshot → List Snapshot → List Snapshot
insert_by_num s [] = s ∷ []
insert_by_num s (t ∷ ts) = if ltb t.num s.num then t ∷ insert_by_num s ts else s ∷ t ∷ ts

unfoldable pub sort_by_num : List Snapshot → List Snapshot
unfolding insert_by_num
sort_by_num [] = []
sort_by_num (s ∷ ss) = insert_by_num s (sort_by_num ss)

unfoldable pub initialize : Conversions → Disk → List Snapshot
unfolding read_dirs sort_by_num
initialize conversions d = sort_by_num (
    record (new_snapshot single 0 (negsuc 0)) { description = codes "current" }
    ∷ read_dirs conversions d d.info_dirs)
