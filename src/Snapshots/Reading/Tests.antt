-- ===== src/Snapshots/Reading/Tests.antt =====
-- Runs of the reading of `info.xml`.
use ok_snap.Snapshots.Types.{Snapshot, post, new_snapshot, type_value, type_name}
use ok_snap.Snapshots.Entry.{info_of, text_node}
use ok_snap.Snapshots.Reading.{
  read_info, is_no_date, number_or_zero, read_snapshot, read_userdata, value_or, set_value,
}
use ok_snap.Snapshots.Disk.{one_byte}
use ok_snap.Base.{◌≡◌, refl, none, some, [], ◌∷◌, codes, text_eq, text_lt, pos}
use ok_snap.Files.Listing.{c_str}

abbrev stored : Snapshot
stored = record (new_snapshot post 7 (pos 100)) {
  pre_num = 6;
  uid = 90;
  description = codes "update";
  userdata = (codes "a", codes "1") ∷ (codes "b", []) ∷ [];
}

-- A snapshot that is written is read in the directory of its number.
stored_again : read_info one_byte 7 (info_of one_byte stored) ≡ some stored
unfolding read_info info_of type_name type_value text_node c_str read_userdata set_value text_lt
    text_eq value_or number_or_zero is_no_date read_snapshot
stored_again = refl

-- A directory whose number is not the one in its file is passed over.
mismatch : read_info one_byte 8 (info_of one_byte stored) ≡ none
unfolding read_info info_of type_name type_value text_eq
mismatch = refl
