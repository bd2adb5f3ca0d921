-- ===== src/Sysconfig/Values.antt =====
-- A value that was set is found again.
use ok_snap.Base.{
  ℕ, ◌≡◌, refl, ap, ◌∙◌, ◌≢◌, inl, inr, Bool, true, false, ◌&&◌, ◌||◌, some, List, [], ◌∷◌, ◌++◌,
  arith, leb, ◌==◌, Option-cases, All, All-append, Text,
}
use ok_snap.Files.Listing.{c_str}
use ok_snap.Files.Listing.RoundTrip.{IsName, c_str-eq_of_IsName}
use ok_snap.Sysconfig.{
  match_line, value_line, set_value, get_value, until_quote, value_in, no_quotes, skip_blanks,
  is_blank, all_blank, double_quote, Regexec, find_in_line,
}
use ok_snap.Files.Defs.{strip_prefix}

-- No byte of a key is a blank or an equals sign.
abbrev pub IsKey : Text → Type 0
IsKey = All (λ c. (is_blank c ≡ false) × (c ≢ b'='))

pub strip_own : (key rest : Text) → strip_prefix (key ++ b'=' ∷ []) (key ++ b'=' ∷ rest) ≡ some rest
unfolding strip_prefix
strip_own [] rest = refl
strip_own (c ∷ key) rest = ground (arith, strip_own key rest)

until_quote-value :
    (value : Text)
    → no_quotes value ≡ true
    → until_quote double_quote (value ++ double_quote ∷ []) ≡ some value
unfolding until_quote no_quotes all_blank
until_quote-value [] h = refl
until_quote-value (c ∷ value) h = ground (arith, until_quote-value value)

pub skip_blanks-key :
    (key rest : Text) → IsKey key → skip_blanks (key ++ b'=' ∷ rest) ≡ key ++ b'=' ∷ rest
unfolding skip_blanks
skip_blanks-key [] rest h = refl
skip_blanks-key (c ∷ key) rest h = ground (arith, h.0.0)

pub match_line-value_line :
    (key value : Text)
    → IsKey key
    → no_quotes value ≡ true
    → match_line key (value_line key value) ≡ some value
unfolding match_line value_line value_in
match_line-value_line key value k h =
    let rest = double_quote ∷ (value ++ double_quote ∷ []) in
    rw (skip_blanks-key key rest k, strip_own key rest, match_line) (until_quote-value value h)

-- A letter, a digit or `_`.
abbrev pub is_word : ℕ → Bool
is_word c =
    (leb b'0' c && leb c b'9')
    || (leb b'A' c && leb c b'Z')
    || (leb b'a' c && leb c b'z')
    || (c == b'_')

-- A key that matches itself only, in a regular expression.
abbrev pub IsWord : Text → Type 0
IsWord = All (λ c. is_word c ≡ true)

pub IsWord-IsKey : (key : Text) → IsWord key → IsKey key
IsWord-IsKey [] h = tt
IsWord-IsKey (c ∷ key) h = ((ground (arith, h.0), λ e. ground (arith, h.0)), IsWord-IsKey key h.1)

pub IsWord-IsName : (key : Text) → IsWord key → IsName key
IsWord-IsName [] h = tt
IsWord-IsName (c ∷ key) h =
    ((λ e. ground (arith, h.0), λ e. ground (arith, h.0)), IsWord-IsName key h.1)

-- What POSIX says of the expression of a key that is a word: the value is the leftmost longest one.
pub record IsRegexec (regexec : Regexec) : Type 0 where
  pub word_key :
      (key line : Text) → IsWord key → find_in_line regexec key line ≡ match_line key (c_str line)

append-IsName : (s t : Text) → IsName s → IsName t → IsName (s ++ t)
append-IsName s t h k = All-append (λ c. (c ≢ 0) × (c ≢ b'\n')) s t h k

pub value_line-IsName :
    (key value : Text) → IsName key → IsName value → IsName (value_line key value)
unfolding value_line
value_line-IsName key value k v =
    append-IsName key (b'=' ∷ double_quote ∷ (value ++ double_quote ∷ [])) k (
      (λ e. omega arith, λ e. omega arith),
      (
        (λ e. omega arith, λ e. omega arith),
        append-IsName value (double_quote ∷ []) v ((λ e. omega arith, λ e. omega arith), tt),
      ),
    )

module _ {regexec : Regexec} (law : IsRegexec regexec) where
  pub find_in_line-value_line :
      (key value : Text)
      → IsWord key
      → IsName value
      → no_quotes value ≡ true
      → find_in_line regexec key (value_line key value) ≡ some value
  find_in_line-value_line key value k v h =
      let line = value_line key value in
      law.word_key key line k
      ∙ ap (match_line key)
          (c_str-eq_of_IsName line (value_line-IsName key value (IsWord-IsName key k) v))
      ∙ match_line-value_line key value (IsWord-IsKey key k) h

  -- `getValue` gives the value that `setValue` set, whatever the lines are.
  pub get_value-set_value :
      (key value : Text) (lines : List Text)
      → IsWord key
      → IsName value
      → no_quotes value ≡ true
      → get_value regexec key (set_value regexec key value lines) ≡ some value
  unfolding get_value set_value
  get_value-set_value key value [] k v h =
      rw (find_in_line-value_line key value k v h, get_value) refl
  get_value-set_value key value (line ∷ lines) k v h =
      elim (Option-cases (find_in_line regexec key line)) [
        | inl e ↦
            let rest = get_value-set_value key value lines k v h in
            rw (e, set_value) (rw (e, get_value) rest)
        | inr (old, e) ↦
            rw (e, set_value) (rw (find_in_line-value_line key value k v h, get_value) refl)
      ]
