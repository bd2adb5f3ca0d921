-- ===== src/Files/Status/Tests.antt =====
-- Runs of the printing and parsing of a status.
use ok_snap.Base.{◌≡◌, refl, codes}
use ok_snap.Files.Status.{status_to_string, string_to_status, invert_status}

print_modified : status_to_string 24 ≡ codes "cp.."
unfolding status_to_string
print_modified = refl

parse_created : string_to_status (codes "+..g ") ≡ 65
unfolding string_to_status
parse_created = refl

invert_created : invert_status 1 ≡ 2
unfolding invert_status
invert_created = refl
