-- ===== src/Dbus/Escape/Tests.antt =====
-- Runs of the escaping of strings.
use ok_snap.Base.{◌≡◌, refl, none, some, [], ◌∷◌, arith, Text, codes, IsBytes}
use ok_snap.Dbus.Escape.RoundTrip.{unescape-escape}
use ok_snap.Dbus.Escape.{escape, unescape}

escape_umlaut : escape (b'a' ∷ 0xc3 ∷ 0xa4 ∷ b'\\' ∷ []) ≡ codes "a\\xc3\\xa4\\\\"
unfolding escape
escape_umlaut = refl

unescape_short : unescape (codes "\\x4g") ≡ some (4 ∷ b'g' ∷ [])
unfolding unescape
unescape_short = refl

unescape_bad : unescape (codes "a\\n") ≡ none
unfolding unescape
unescape_bad = refl

abbrev umlaut : Text
umlaut = b'a' ∷ 0xc3 ∷ 0xa4 ∷ b'\\' ∷ []

abbrev umlaut-IsBytes : IsBytes umlaut
umlaut-IsBytes = (omega arith, (omega arith, (omega arith, (omega arith, tt))))

unescape-escape_example : unescape (escape umlaut) ≡ some umlaut
unescape-escape_example = unescape-escape umlaut umlaut-IsBytes
