-- ===== src/Sysconfig/Saved.antt =====
-- What `AsciiFile::save` wrote is what `AsciiFile::reload` reads.
use ok_snap.Base.{◌≡◌, refl, ap, ◌∙◌, List, [], ◌∷◌, All, Text}
use ok_snap.Sysconfig.{print_lines}
use ok_snap.Files.Listing.{get_lines}
use ok_snap.Files.Listing.RoundTrip.{get_lines-line, IsName}

-- Lines without newlines and null bytes are read as they were written.
pub get_lines-print_lines :
    (lines : List Text) → All IsName lines → get_lines (print_lines lines) ≡ lines
unfolding print_lines get_lines
get_lines-print_lines [] h = refl
get_lines-print_lines (line ∷ lines) h =
    let rest = get_lines-print_lines lines h.1 in
    get_lines-line line (print_lines lines) h.0 ∙ ap (λ ls. line ∷ ls) rest
