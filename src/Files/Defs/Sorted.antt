-- ===== src/Files/Defs/Sorted.antt =====
-- Entries in the order of their names, as `Comparison` keeps them.
use ok_snap.Base.{
  ◌≡◌, refl, inl, inr, true, false, List, [], ◌∷◌, arith, Bool-cases, All, text_lt-asymm,
  text_lt_trans, text_lt_total, Text, text_eq, text_eq_iff, text_lt,
}
use ok_snap.Files.Defs.{File, insert, sort}

abbrev pub Before : Text → List File → Type 0
Before name fs = All (λ g. text_lt name g.name ≡ true) fs

abbrev pub IsSorted : List File → Type 0
IsSorted [] = Unit
IsSorted (f ∷ fs) = Before f.name fs × IsSorted fs

insert_first : (f : File) (fs : List File) → Before f.name fs → insert f fs ≡ f ∷ fs
unfolding insert
insert_first f [] h = refl
insert_first f (g ∷ gs) h = rw (text_lt-asymm f.name g.name h.0)

-- Entries that are in order stay as they are.
pub sort-eq_of_IsSorted : (fs : List File) → IsSorted fs → sort fs ≡ fs
unfolding sort
sort-eq_of_IsSorted [] h = refl
sort-eq_of_IsSorted (f ∷ fs) h = rw (sort-eq_of_IsSorted fs h.1) (insert_first f fs h.0)

pub Before-trans : (a b : Text) (fs : List File) → text_lt a b ≡ true → Before b fs → Before a fs
Before-trans a b [] h k = tt
Before-trans a b (f ∷ fs) h k = (text_lt_trans a b f.name h k.0, Before-trans a b fs h k.1)

insert-Before :
    (a : Text) (f : File) (fs : List File)
    → text_lt a f.name ≡ true
    → Before a fs
    → Before a (insert f fs)
unfolding insert
insert-Before a f [] h k = (h, tt)
insert-Before a f (g ∷ gs) h k = ground (arith, insert-Before a f gs h k.1)

-- No entry has this name.
abbrev pub Fresh : Text → List File → Type 0
Fresh name fs = All (λ g. text_eq name g.name ≡ false) fs

insert-IsSorted :
    (f : File) (fs : List File) → Fresh f.name fs → IsSorted fs → IsSorted (insert f fs)
unfolding insert
insert-IsSorted f [] h s = (tt, tt)
insert-IsSorted f (g ∷ gs) h s = elim (Bool-cases (text_lt g.name f.name)) [
  | inl lt ↦ rw lt (insert-Before g.name f gs lt s.0, insert-IsSorted f gs h.1 s.1)
  | inr ge ↦
      let lt = text_lt_total g.name f.name ge (text_eq-sym-false f.name g.name h.0) in
      rw ge ((lt, Before-trans f.name g.name gs lt s.0), s)
]
  where
    text_eq-sym-false : (s t : Text) → text_eq s t ≡ false → text_eq t s ≡ false
    text_eq-sym-false s t e = ground (arith, text_eq_iff s t, text_eq_iff t s)

insert-Fresh :
    (a : Text) (f : File) (fs : List File)
    → text_eq a f.name ≡ false
    → Fresh a fs
    → Fresh a (insert f fs)
unfolding insert
insert-Fresh a f [] h k = (h, tt)
insert-Fresh a f (g ∷ gs) h k = ground (arith, insert-Fresh a f gs h k.1)

-- No two entries have the same name.
abbrev pub AreDistinct : List File → Type 0
AreDistinct [] = Unit
AreDistinct (f ∷ fs) = Fresh f.name fs × AreDistinct fs

sort-Fresh : (a : Text) (fs : List File) → Fresh a fs → Fresh a (sort fs)
unfolding sort
sort-Fresh a [] h = tt
sort-Fresh a (f ∷ fs) h = insert-Fresh a f (sort fs) h.0 (sort-Fresh a fs h.1)

-- Whatever the order in which the differences were found, sorting puts them in order.
pub sort-IsSorted : (fs : List File) → AreDistinct fs → IsSorted (sort fs)
unfolding sort
sort-IsSorted [] h = tt
sort-IsSorted (f ∷ fs) h =
    insert-IsSorted f (sort fs) (sort-Fresh f.name fs h.0) (sort-IsSorted fs h.1)

All-insert : (P : File → Type 0) (f : File) (fs : List File) → P f → All P fs → All P (insert f fs)
unfolding insert
All-insert P f [] h k = (h, tt)
All-insert P f (g ∷ gs) h k =
    let rest = All-insert P f gs h k.1 in
    elim (Bool-cases (text_lt g.name f.name)) [ inl e ↦ rw e (k.0, rest) | inr e ↦ rw e (h, k) ]

-- Sorting keeps what all entries have.
pub All-sort : (P : File → Type 0) (fs : List File) → All P fs → All P (sort fs)
unfolding sort
All-sort P [] h = tt
All-sort P (f ∷ fs) h = All-insert P f (sort fs) h.0 (All-sort P fs h.1)
