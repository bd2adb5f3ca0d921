-- ===== src/Client/RoundTrip.antt =====
-- What `show_userdata` prints, `read_userdata` reads.
use ok_snap.Base.{
  ℕ, ◌≡◌, refl, sym, ap, ◌∙◌, ◌≢◌, false, some, List, [], ◌∷◌, ◌++◌, map, append-nil, ◌==◌, All,
  All-append, Text,
}
use ok_snap.Snapshots.Reading.{set_value, read_userdata}
use ok_snap.Snapshots.Reading.RoundTrip.{IsUserdata, read_userdata-append}
use ok_snap.Client.Userdata.{
  comma, equals_sign, space, trim_copy, pieces, entry_text, show_others, read_entries, read_entry,
  read_userdata_text, show_userdata, split_key, trim_left, enter,
}

abbrev pub Avoids : ℕ → Text → Type 0
Avoids c t = All (λ d. (d == c) ≡ false) t

-- An entry that can be printed: no comma in it, no equals sign in the key, and neither of the two
-- empty or with white space at an end.
pub record IsEntry (kv : Text × Text) : Type 0 where
  pub no_comma : Avoids comma kv.0 × Avoids comma kv.1
  pub no_equals : Avoids equals_sign kv.0
  pub trimmed : (trim_copy kv.0 ≡ kv.0) × (trim_copy kv.1 ≡ kv.1)
  pub filled : (kv.0 ≢ []) × (kv.1 ≢ [])

-- A text without commas makes the first piece longer.
abbrev longer : Text → Text × List Text → Text × List Text
longer t (p, ps) = (t ++ p, ps)

pieces-append :
    (t rest : Text) → Avoids comma t → pieces false (t ++ rest) ≡ longer t (pieces false rest)
unfolding pieces
pieces-append [] rest h = refl
pieces-append (c ∷ t) rest h = let ih = pieces-append t rest h.1 in rw (h.0, ih)

abbrev spaced : Text × Text → Text
spaced kv = space ∷ entry_text kv

entry-Avoids : (kv : Text × Text) → IsEntry kv → Avoids comma (entry_text kv)
entry-Avoids kv v =
    All-append (λ d. (d == comma) ≡ false) kv.0 (equals_sign ∷ kv.1) v.no_comma.0
      (refl, v.no_comma.1)

pieces-show_others :
    (kvs : List (Text × Text))
    → All IsEntry kvs
    → pieces false (show_others kvs) ≡ ([], map spaced kvs)
unfolding pieces show_others
pieces-show_others [] h = refl
pieces-show_others (kv ∷ kvs) h =
    let ih = pieces-show_others kvs h.1 in
    let first = pieces-append (entry_text kv) (show_others kvs) (entry-Avoids kv h.0) in
    rw (first, ih, append-nil (entry_text kv))

pieces-show_userdata :
    (kv : Text × Text) (kvs : List (Text × Text))
    → All IsEntry (kv ∷ kvs)
    → pieces false (show_userdata (kv ∷ kvs)) ≡ (entry_text kv, map spaced kvs)
unfolding show_userdata
pieces-show_userdata kv kvs h =
    let others = pieces-show_others kvs h.1 in
    let first = pieces-append (entry_text kv) (show_others kvs) (entry-Avoids kv h.0) in
    rw (first, others, append-nil (entry_text kv))

split_key-append :
    (k v : Text) → Avoids equals_sign k → split_key (k ++ equals_sign ∷ v) ≡ some (k, v)
unfolding split_key
split_key-append [] v h = refl
split_key-append (c ∷ k) v h = let ih = split_key-append k v h.1 in rw (h.0, ih)

trim-spaced : (t : Text) → trim_copy (space ∷ t) ≡ trim_copy t
unfolding trim_copy trim_left
trim-spaced t = refl

enter-filled :
    (k v : Text) (userdata : List (Text × Text))
    → k ≢ []
    → v ≢ []
    → enter k v userdata ≡ some (set_value (k, v) userdata)
enter-filled [] v userdata hk hv = absurd (hk refl)
enter-filled (c ∷ k) [] userdata hk hv = absurd (hv refl)
enter-filled (c ∷ k) (d ∷ v) userdata hk hv = refl

read_entry-text :
    (kv : Text × Text) (userdata : List (Text × Text))
    → IsEntry kv
    → read_entry (entry_text kv) userdata ≡ some (set_value kv userdata)
unfolding read_entry
read_entry-text kv userdata v =
    let e = enter-filled kv.0 kv.1 userdata v.filled.0 v.filled.1 in
    let split : split_key (entry_text kv) ≡ some (kv.0, kv.1) =
      split_key-append kv.0 kv.1 v.no_equals in
    rw (read_entry, split, v.trimmed.0, v.trimmed.1) e

read_entry-spaced :
    (kv : Text × Text) (userdata : List (Text × Text))
    → IsEntry kv
    → read_entry (spaced kv) userdata ≡ some (set_value kv userdata)
unfolding read_entry
read_entry-spaced kv userdata v =
    let e = enter-filled kv.0 kv.1 userdata v.filled.0 v.filled.1 in
    let split : split_key (spaced kv) ≡ some (space ∷ kv.0, kv.1) =
      split_key-append (space ∷ kv.0) kv.1 (refl, v.no_equals) in
    rw (read_entry, split, trim-spaced kv.0, v.trimmed.0, v.trimmed.1) e

-- What is read of entries is what the program reads of the same entries in `info.xml`.
read_userdata-set :
    (kv : Text × Text) (kvs acc : List (Text × Text))
    → kv.0 ≢ []
    → read_userdata acc (kv ∷ kvs) ≡ read_userdata (set_value kv acc) kvs
unfolding read_userdata
read_userdata-set ([], v) kvs acc h = absurd (h refl)
read_userdata-set (c ∷ k, v) kvs acc h = refl

read_entries-spaced :
    (kvs acc : List (Text × Text))
    → All IsEntry kvs
    → read_entries (map spaced kvs) acc ≡ some (read_userdata acc kvs)
unfolding read_entries read_userdata
read_entries-spaced [] acc h = refl
read_entries-spaced (kv ∷ kvs) acc h =
    let ih = read_entries-spaced kvs (set_value kv acc) h.1 in
    let e = ih ∙ ap some (sym (read_userdata-set kv kvs acc h.0.filled.0)) in
    rw (read_entry-spaced kv acc h.0, read_entries) e

-- A map that is not empty, whose keys and values are not empty, are without commas, have no white
-- space at their ends, and no equals sign in a key: what `show_userdata` prints of it,
-- `read_userdata` reads back as the same map, and the client does not exit.
pub read_userdata_text-show_userdata :
    (kv : Text × Text) (kvs : List (Text × Text))
    → All IsEntry (kv ∷ kvs)
    → IsUserdata (kv ∷ kvs)
    → read_userdata_text (show_userdata (kv ∷ kvs)) [] ≡ some (kv ∷ kvs)
unfolding read_userdata_text
read_userdata_text-show_userdata kv kvs h v =
    let split = pieces-show_userdata kv kvs h in
    let others = read_entries-spaced kvs (set_value kv []) h.1 in
    let all =
      sym (read_userdata-set kv kvs [] h.0.filled.0) ∙ read_userdata-append [] (kv ∷ kvs) v tt in
    let read : read_entries (entry_text kv ∷ map spaced kvs) [] ≡ some (kv ∷ kvs) =
      rw (read_entries, read_entry-text kv [] h.0) (others ∙ ap some all) in
    ap (λ p. read_entries (p.0 ∷ p.1) []) split ∙ read
