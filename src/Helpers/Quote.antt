-- ===== src/Helpers/Quote.antt =====
-- `SystemCmd::quote`: what the shell makes of a quoted text is the text.
use ok_snap.Base.{
  ℕ, ◌≡◌, refl, sym, ap, ◌∙◌, subst, inl, inr, Option, none, some, List, [], ◌∷◌, ◌++◌, append-nil,
  append_assoc, ◌==◌, if◌then◌else◌, ==_iff, Bool-cases, Text,
}
use ok_snap.Sysconfig.{single_quote}

abbrev backslash : ℕ
backslash = 92

-- `boost::replace_all_copy(str, "'", "'\\''")`
unfoldable pub escape_quotes : Text → Text
escape_quotes [] = []
escape_quotes (c ∷ s) =
    let rest = escape_quotes s in
    if c == single_quote
    then single_quote ∷ backslash ∷ single_quote ∷ single_quote ∷ rest
    else c ∷ rest

unfoldable pub quote : Text → Text
unfolding escape_quotes
quote str = single_quote ∷ (escape_quotes str ++ single_quote ∷ [])

unfoldable pub quote_rest : List Text → Text
unfolding quote
quote_rest [] = []
quote_rest (str ∷ strs) = b' ' ∷ (quote str ++ quote_rest strs)

unfoldable pub quote_list : List Text → Text
unfolding quote quote_rest
quote_list [] = []
quote_list (str ∷ strs) = quote str ++ quote_rest strs

-- How POSIX has a shell split a command into words, as far as quotes, backslashes and spaces go: the
-- word that is being read, if there is one, and what is left. Nothing comes of an open quote.
pub data Reading : Type 0 where
  outside escaped : Option Text → Reading
  inside : Text → Reading

abbrev finish : Option Text → List Text
finish none = []
finish (some word) = word ∷ []

abbrev begun : Option Text → Text
begun none = []
begun (some word) = word

abbrev longer : Option Text → ℕ → Option Text
longer word c = some (begun word ++ c ∷ [])

next_reading : Reading → ℕ → Reading
next_reading (outside word) c =
    if c == single_quote
    then inside (begun word)
    else if c == backslash
    then escaped word
    else if c == b' '
    then outside none
    else outside (longer word c)
next_reading (escaped word) c = outside (longer word c)
next_reading (inside word) c =
    if c == single_quote then outside (some word) else inside (word ++ c ∷ [])

-- The word that ends at a space.
ended_word : Reading → ℕ → List Text
ended_word (outside word) c = if c == b' ' then finish word else []
ended_word _ c = []

last_words : Reading → Option (List Text)
last_words (outside word) = some (finish word)
last_words _ = none

abbrev put_words : List Text → Option (List Text) → Option (List Text)
put_words [] rest = rest
put_words (word ∷ words) none = none
put_words (word ∷ words) (some rest) = some (word ∷ (words ++ rest))

pub sh_from : Reading → Text → Option (List Text)
unfolding next_reading ended_word last_words
sh_from reading [] = last_words reading
sh_from reading (c ∷ s) = put_words (ended_word reading c) (sh_from (next_reading reading c) s)

pub sh_words : Text → Option (List Text)
unfolding sh_from
sh_words = sh_from (outside none)

-- Between the quotes a text is read as it was before it was escaped.
inside_escaped :
    (word str rest : Text)
    → sh_from (inside word) (escape_quotes str ++ single_quote ∷ rest)
      ≡ sh_from (outside (some (word ++ str))) rest
unfolding escape_quotes sh_from next_reading ended_word
inside_escaped word [] rest = ap (λ w. sh_from (outside (some w)) rest) (sym (append-nil word))
inside_escaped word (c ∷ str) rest =
    let ih = inside_escaped (word ++ c ∷ []) str rest in
    let joined = ih ∙ ap (λ w. sh_from (outside (some w)) rest) (append_assoc word (c ∷ []) str) in
    elim (Bool-cases (c == single_quote)) [
      | inl e ↦
          let same = (==_iff c single_quote).0 e in
          let start : escape_quotes (c ∷ str) ++ single_quote ∷ rest
              ≡ single_quote
                ∷ backslash
                ∷ single_quote
                ∷ single_quote
                ∷ (escape_quotes str ++ single_quote ∷ rest) =
            rw e refl in
          ap (sh_from (inside word)) start
          ∙ subst
              (λ d.
                sh_from (inside (word ++ d ∷ [])) (escape_quotes str ++ single_quote ∷ rest)
                ≡ sh_from (outside (some (word ++ c ∷ str))) rest)
              same joined
      | inr e ↦
          let start : escape_quotes (c ∷ str) ++ single_quote ∷ rest
              ≡ c ∷ (escape_quotes str ++ single_quote ∷ rest) =
            rw e refl in
          let step : sh_from (inside word) (c ∷ (escape_quotes str ++ single_quote ∷ rest))
              ≡ sh_from (inside (word ++ c ∷ [])) (escape_quotes str ++ single_quote ∷ rest) =
            rw (e, sh_from, next_reading, ended_word) refl in
          ap (sh_from (inside word)) start ∙ step ∙ joined
    ]

quoted_word :
    (str rest : Text)
    → sh_from (outside none) (quote str ++ rest) ≡ sh_from (outside (some str)) rest
unfolding quote sh_from next_reading ended_word
quoted_word str rest =
    ap (sh_from (inside [])) (append_assoc (escape_quotes str) (single_quote ∷ []) rest)
    ∙ inside_escaped [] str rest

quoted_rest :
    (str : Text) (strs : List Text)
    → sh_from (outside (some str)) (quote_rest strs) ≡ some (str ∷ strs)
unfolding quote_rest sh_from next_reading ended_word last_words
quoted_rest str [] = refl
quoted_rest str (next ∷ strs) =
    ap (put_words (str ∷ [])) (quoted_word next (quote_rest strs) ∙ quoted_rest next strs)

-- A shell reads the texts that `SystemCmd::quote` quoted as the words that they are, whatever is in
-- them: quotes, backslashes, spaces or nothing.
pub sh_words-quote_list : (strs : List Text) → sh_words (quote_list strs) ≡ some strs
unfolding sh_words quote_list sh_from last_words
sh_words-quote_list [] = refl
sh_words-quote_list (str ∷ strs) = quoted_word str (quote_rest strs) ∙ quoted_rest str strs
