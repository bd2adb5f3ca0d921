-- ===== src/Sysconfig/Others.antt =====
-- Setting a value changes no other value.
use ok_snap.Base.{Option, [], ◌∷◌, ◌++◌, Text}
use ok_snap.Files.Defs.{strip_prefix}

abbrev key_part : Text → Text → Option Text
key_part key s = strip_prefix (key ++ b'=' ∷ []) s
