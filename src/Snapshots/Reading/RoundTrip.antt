-- ===== src/Snapshots/Reading/RoundTrip.antt =====
-- The userdata of an `info.xml`, read into a map.
use ok_snap.Base.{
  ◌≡◌, refl, sym, ap, ◌∙◌, ◌≢◌, true, List, [], ◌∷◌, ◌++◌, append-nil, append_assoc, All,
  All-append, Pairs, All-map, Text, text_lt,
}
use ok_snap.Snapshots.Reading.{read_userdata, set_value}

abbrev Smaller : Text × Text → Text × Text → Type 0
Smaller x y = text_lt x.0 y.0 ≡ true

abbrev HasKey : Text × Text → Type 0
HasKey x = x.0 ≢ []

-- The entries of a map in the order of their keys, of which none is empty.
abbrev pub IsUserdata : List (Text × Text) → Type 0
IsUserdata kvs = All HasKey kvs × Pairs Smaller kvs

set_value-last :
    (kv : Text × Text) (acc : List (Text × Text))
    → All (λ x. Smaller x kv) acc
    → set_value kv acc ≡ acc ++ kv ∷ []
unfolding set_value
set_value-last kv [] h = refl
set_value-last kv (x ∷ xs) h = let tail = ap (λ r. x ∷ r) (set_value-last kv xs h.1) in rw h.0 tail

-- Every entry that is there comes before every one that is to come.
abbrev Precedes : List (Text × Text) → List (Text × Text) → Type 0
Precedes kvs acc = All (λ x. All (λ y. Smaller x y) kvs) acc

Precedes-next :
    (kv : Text × Text) (rest acc : List (Text × Text))
    → Pairs Smaller (kv ∷ rest)
    → Precedes (kv ∷ rest) acc
    → Precedes rest (acc ++ kv ∷ [])
Precedes-next kv rest acc sorted before =
    All-append (λ x. All (λ y. Smaller x y) rest) acc (kv ∷ []) (All-map acc (λ x h. h.1) before)
      (sorted.0, tt)

pub read_userdata-append :
    (acc kvs : List (Text × Text))
    → IsUserdata kvs
    → Precedes kvs acc
    → read_userdata acc kvs ≡ acc ++ kvs
unfolding read_userdata
read_userdata-append acc [] valid before = sym (append-nil acc)
read_userdata-append acc (([], value) ∷ rest) valid before = absurd (valid.0.0 refl)
read_userdata-append acc ((c ∷ key, value) ∷ rest) valid before =
    let kv : Text × Text = (c ∷ key, value) in
    let last = set_value-last kv acc (All-map acc (λ x h. h.0) before) in
    let next =
      read_userdata-append (acc ++ kv ∷ []) rest (valid.0.1, valid.1.1)
        (Precedes-next kv rest acc valid.1 before) in
    ap (λ m. read_userdata m rest) last ∙ next ∙ append_assoc acc (kv ∷ []) rest
