-- ===== src/Sysconfig/Tests.antt =====
-- Runs of the setting and finding of values.
use ok_snap.Base.{ℕ, ◌≡◌, refl, Option, none, some, List, [], ◌∷◌, if◌then◌else◌, Text, codes}
use ok_snap.Files.Defs.{strip_prefix}
use ok_snap.Sysconfig.{
  get_value, match_line, no_quotes, skip_blanks, value_in, Regexec, find_in_line, pattern,
  second_part,
}
use ok_snap.Sysconfig.Values.{is_word}
use ok_snap.Files.Listing.{c_str}
use ok_snap.Compare.Content.{drop}

abbrev lines : List Text
lines = codes "# head" ∷ codes " A=old " ∷ codes "B=b" ∷ []

word_in : Text → Text
word_in [] = []
word_in (c ∷ s) = if is_word c then c ∷ word_in s else []

all_parts : Option Text → Option (ℕ → Text)
all_parts none = none
all_parts (some value) = some (λ part. value)

-- A `regexec` that reads the key out of the expression.
abbrev word_regexec : Regexec
word_regexec expression line = all_parts (match_line (word_in (drop 6 expression)) line)

set_one : get_value word_regexec (codes "B") lines ≡ some (codes "b")
unfolding get_value match_line skip_blanks strip_prefix value_in no_quotes find_in_line second_part
    all_parts pattern c_str drop word_in
set_one = refl
