-- ===== src/Client/Userdata.antt =====
-- `read_userdata` and `show_userdata` (client/snapper.cc). A map is the list of its entries in the
-- order of the keys. `boost::split` and `boost::trim_copy` are written out as documented, for the
-- white space of the classic locale.
use ok_snap.Base.{
  ℕ, Bool, true, false, ◌&&◌, ◌||◌, Option, none, some, List, [], ◌∷◌, ◌++◌, leb, ◌==◌,
  if◌then◌else◌, Text, text_eq,
}
use ok_snap.Snapshots.Reading.{set_value}

abbrev pub comma : ℕ
comma = 44

abbrev pub equals_sign : ℕ
equals_sign = 61

abbrev pub space : ℕ
space = 32

abbrev pub is_space : ℕ → Bool
is_space c = (c == space) || (leb 9 c && leb c 13)

unfoldable pub trim_left : Text → Text
trim_left [] = []
trim_left (c ∷ s) = let rest = trim_left s in if is_space c then rest else c ∷ s

abbrev pub trim_end : ℕ → Text → Text
trim_end c [] = if is_space c then [] else c ∷ []
trim_end c (d ∷ s) = c ∷ d ∷ s

unfoldable pub trim_right : Text → Text
trim_right [] = []
trim_right (c ∷ s) = trim_end c (trim_right s)

unfoldable pub trim_copy : Text → Text
unfolding trim_left trim_right
trim_copy s = trim_right (trim_left s)

abbrev pub new_piece : Text × List Text → Text × List Text
new_piece (p, ps) = ([], p ∷ ps)

abbrev pub longer_piece : ℕ → Text × List Text → Text × List Text
longer_piece c (p, ps) = (c ∷ p, ps)

-- `boost::split` at commas with `token_compress_on`: the first piece and the others; `after` says
-- that a comma came before.
unfoldable pub pieces : Bool → Text → Text × List Text
pieces after [] = ([], [])
pieces after (c ∷ s) =
    let split = pieces true s in
    let same = pieces false s in
    if c == comma then (if after then split else new_piece split) else longer_piece c same

abbrev pub longer_key : ℕ → Option (Text × Text) → Option (Text × Text)
longer_key c none = none
longer_key c (some (k, v)) = some (c ∷ k, v)

-- `it->find("=")`, and what stands before and behind it.
unfoldable pub split_key : Text → Option (Text × Text)
split_key [] = none
split_key (c ∷ s) =
    let rest = split_key s in if c == equals_sign then some ([], s) else longer_key c rest

-- `userdata.erase(key)`
unfoldable pub erase_key : Text → List (Text × Text) → List (Text × Text)
unfolding text_eq
erase_key key [] = []
erase_key key (x ∷ xs) = if text_eq x.0 key then xs else x ∷ erase_key key xs

-- A key and a value that are trimmed; `none` is `exit(EXIT_FAILURE)`.
abbrev pub enter : Text → Text → List (Text × Text) → Option (List (Text × Text))
enter [] value userdata = none
enter (c ∷ key) [] userdata = some (erase_key (c ∷ key) userdata)
enter (c ∷ key) (d ∷ value) userdata = some (set_value (c ∷ key, d ∷ value) userdata)

-- The body of the loop.
unfoldable pub read_entry : Text → List (Text × Text) → Option (List (Text × Text))
unfolding split_key trim_copy erase_key set_value
read_entry entry userdata = elim (split_key entry) [
  | none ↦ none
  | some kv ↦ enter (trim_copy kv.0) (trim_copy kv.1) userdata
]

unfoldable pub read_entries : List Text → List (Text × Text) → Option (List (Text × Text))
unfolding read_entry
read_entries [] userdata = some userdata
read_entries (e ∷ es) userdata = elim (read_entry e userdata) [
  | none ↦ none
  | some next ↦ read_entries es next
]

-- `read_userdata`, of which `old` are the entries to start with.
unfoldable pub read_userdata_text : Text → List (Text × Text) → Option (List (Text × Text))
unfolding pieces read_entries
read_userdata_text s old = let (p, ps) = pieces false s in read_entries (p ∷ ps) old

abbrev pub entry_text : Text × Text → Text
entry_text kv = kv.0 ++ equals_sign ∷ kv.1

-- The loop of `show_userdata` behind the first entry.
unfoldable pub show_others : List (Text × Text) → Text
show_others [] = []
show_others (kv ∷ kvs) = comma ∷ space ∷ (entry_text kv ++ show_others kvs)

unfoldable pub show_userdata : List (Text × Text) → Text
unfolding show_others
show_userdata [] = []
show_userdata (kv ∷ kvs) = entry_text kv ++ show_others kvs
