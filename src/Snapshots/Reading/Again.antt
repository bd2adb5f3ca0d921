-- ===== src/Snapshots/Reading/Again.antt =====
-- What `writeInfo` writes, `read` reads.
use ok_snap.Snapshots.Types.{Snapshot, post, type_eq}
use ok_snap.Snapshots.Disk.{Conversions}
use ok_snap.Files.Listing.{c_str}
use ok_snap.Snapshots.Reading.{number_or_zero}
use ok_snap.Base.{ℕ, ◌^◌, ◌<◌, ◌≡◌, ◌≢◌, false, some, All, Text, pos}
use ok_snap.Snapshots.Reading.RoundTrip.{IsUserdata}

-- What the libraries promise: a number of 32 bits that `<<` wrote is read by `>>`, and a time of the
-- years 1970 to 9999 that `datetime` wrote is what `scan_datetime` reads.
pub record IsConversions (conversions : Conversions) : Type 0 where
  pub number_again : (n : ℕ) → n < 2 ^ 32 → conversions.number_in (conversions.dec_string n) ≡ n
  pub time_again :
      (n : ℕ) → n < 253402300800 → conversions.scan_datetime (conversions.datetime (pos n)) ≡ pos n

-- No byte of a text is null.
abbrev pub IsCText : Text → Type 0
IsCText = All (λ c. c ≢ 0)

abbrev pub IsCPair : Text × Text → Type 0
IsCPair kv = IsCText kv.0 × IsCText kv.1

-- What can be written: a number that is not that of the current system, a date, a map as userdata, and
-- the number of a pre snapshot for a post snapshot alone, all in the ranges of their types, and texts
-- without null bytes.
pub record IsStorable (s : Snapshot) (time : ℕ) : Type 0 where
  pub numbered : s.num ≢ 0
  pub num_fits : s.num < 2 ^ 32
  pub dated : s.date ≡ pos time
  pub time_fits : time < 253402300800
  pub uid_fits : s.uid < 2 ^ 32
  pub pre_num_fits : s.pre_num < 2 ^ 32
  pub single_pre : type_eq s.type post ≡ false → s.pre_num ≡ 0
  pub mapped : IsUserdata s.userdata
  pub plain_userdata : All IsCPair s.userdata
  pub plain_description : IsCText s.description
  pub plain_cleanup : IsCText s.cleanup

-- A snapshot as it comes from a file: nothing of it has changed, and its mounts are not known.
abbrev pub unchanged : Snapshot → Snapshot
unchanged s = record s {
  info_modified = false;
  mount_checked = false;
  mount_user_request = false;
  mount_use_count = 0;
}

abbrev c_pair : Text × Text → Text × Text
c_pair kv = (c_str kv.0, c_str kv.1)

module _ {conversions : Conversions} (law : IsConversions conversions) where
  number_again :
      (n : ℕ) → n < 2 ^ 32 → number_or_zero conversions (some (conversions.dec_string n)) ≡ n
  unfolding number_or_zero
  number_again n fits = law.number_again n fits
