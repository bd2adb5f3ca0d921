-- ===== src/Client/Tests.antt =====
-- Userdata on the command line.
use ok_snap.Base.{
  ℕ, ◌≡◌, refl, Bool, false, ◌||◌, none, some, List, [], ◌∷◌, arith, ◌==◌, All, Text, codes,
  text_eq, text_lt,
}
use ok_snap.Client.Userdata.{read_userdata_text, show_userdata, trim_copy, comma, equals_sign}
use ok_snap.Client.RoundTrip.{IsEntry, read_userdata_text-show_userdata, Avoids}

abbrev two_entries : List (Text × Text)
two_entries = (codes "bootloader", codes "grub2") ∷ (codes "important", codes "a = b") ∷ []

shown : show_userdata two_entries ≡ codes "bootloader=grub2, important=a = b"
unfolding show_userdata
shown = refl

-- An entry without a value takes the key away, and one without an equals sign is an error.
without_value :
    read_userdata_text (codes "important=,,x = y") two_entries
    ≡ some ((codes "bootloader", codes "grub2") ∷ (codes "x", codes "y") ∷ [])
unfolding read_userdata_text text_eq text_lt
without_value = refl

refused : read_userdata_text (codes "important") two_entries ≡ none
unfolding read_userdata_text
refused = refl

has_code : ℕ → Text → Bool
has_code c [] = false
has_code c (d ∷ t) = d == c || has_code c t

has_code-Avoids : (c : ℕ) (t : Text) → has_code c t ≡ false → Avoids c t
unfolding has_code
has_code-Avoids c [] h = tt
has_code-Avoids c (d ∷ t) h = (ground arith, has_code-Avoids c t (ground arith))

entries-IsEntry : All IsEntry two_entries
unfolding trim_copy has_code
entries-IsEntry = (
  record {
    no_comma = (
      has_code-Avoids comma (codes "bootloader") refl,
      has_code-Avoids comma (codes "grub2") refl,
    );
    no_equals = has_code-Avoids equals_sign (codes "bootloader") refl;
    trimmed = (refl, refl);
    filled = ((λ e. cc), (λ e. cc));
  },
  (
    record {
      no_comma = (
        has_code-Avoids comma (codes "important") refl,
        has_code-Avoids comma (codes "a = b") refl,
      );
      no_equals = has_code-Avoids equals_sign (codes "important") refl;
      trimmed = (refl, refl);
      filled = ((λ e. cc), (λ e. cc));
    },
    tt,
  ),
)

read_userdata_text-show_userdata_example :
    read_userdata_text (show_userdata two_entries) [] ≡ some two_entries
unfolding text_lt
read_userdata_text-show_userdata_example =
    read_userdata_text-show_userdata (codes "bootloader", codes "grub2")
      ((codes "important", codes "a = b") ∷ []) entries-IsEntry
      (((λ e. cc), ((λ e. cc), tt)), ((refl, tt), (tt, tt)))
