-- ===== src/Snapshots/Ops/Consistent.antt =====
-- What holds of the list of the snapshots, and why a new entry at its end keeps it.
use ok_snap.Base.{
  ◌≤◌, ◌<◌, ◌≡◌, refl, ap, ◌≢◌, inl, inr, List, [], ◌∷◌, ◌++◌, arith, All, All-append, In,
  In-append, All-In, All_of_In, Pairs, Pairs-append,
}
use ok_snap.Snapshots.Types.{Snapshot, single, pre, post}
use ok_snap.Snapshots.Table.{last_num}

abbrev pub StartsCurrent : List Snapshot → Type 0
StartsCurrent [] = ⊥
StartsCurrent (c ∷ rest) = (c.num ≡ 0) × (c.type ≡ single)

abbrev pub Below : Snapshot → Snapshot → Type 0
Below a b = a.num < b.num

-- At most one post snapshot to a pre snapshot.
abbrev pub OtherPre : Snapshot → Snapshot → Type 0
OtherPre a b = a.type ≡ post → b.type ≡ post → a.pre_num ≢ b.pre_num

abbrev pub PreIn : List Snapshot → Snapshot → Type 0
PreIn entries p = p.type ≡ post → (q : Snapshot) → In q entries → q.num ≡ p.pre_num → q.type ≡ pre

abbrev pub PreBefore : Snapshot → Type 0
PreBefore p = p.type ≡ post → p.pre_num < p.num

-- The entry for the current system comes first, the numbers ascend, and a post snapshot stands
-- behind its pre snapshot: nothing else has that number, and no other post snapshot refers to it.
pub record IsConsistent (entries : List Snapshot) : Type 0 where
  pub current_first : StartsCurrent entries
  pub ascending : Pairs Below entries
  pub pre_before : All PreBefore entries
  pub pre_in : All (PreIn entries) entries
  pub one_post : Pairs OtherPre entries

last_num-In :
    (x : Snapshot) (entries : List Snapshot)
    → Pairs Below (x ∷ entries)
    → (q : Snapshot) → In q (x ∷ entries)
    → q.num ≤ last_num (x ∷ entries)
unfolding last_num
last_num-In x [] h q (inl e) = omega (arith, ap (λ (s : Snapshot). s.num) e)
last_num-In x [] h q (inr m) = absurd m
last_num-In x (y ∷ ys) h q (inl e) =
    omega (arith, ap (λ (s : Snapshot). s.num) e, h.0.0, last_num-In y ys h.1 y (inl refl))
last_num-In x (y ∷ ys) h q (inr m) = last_num-In y ys h.1 q m

pub In-le-last_num :
    (entries : List Snapshot) (q : Snapshot)
    → Pairs Below entries
    → In q entries
    → q.num ≤ last_num entries
In-le-last_num [] q h m = absurd m
In-le-last_num (x ∷ xs) q h m = last_num-In x xs h q m

module _ (entries : List Snapshot) (x : Snapshot) (valid : IsConsistent entries) where
  StartsCurrent-append : (es : List Snapshot) → StartsCurrent es → StartsCurrent (es ++ x ∷ [])
  StartsCurrent-append [] h = absurd h
  StartsCurrent-append (c ∷ es) h = h

  module _ (above : last_num entries < x.num) where
    below : (q : Snapshot) → In q entries → q.num < x.num
    below q m = omega (arith, In-le-last_num entries q valid.ascending m)

    -- An older post snapshot does not refer to the new number.
    old-PreIn : (p : Snapshot) → In p entries → PreIn (entries ++ x ∷ []) p
    old-PreIn p mp t q mq e = elim (In-append q entries (x ∷ []) mq) [
      | inl old ↦ All-In (PreIn entries) entries p valid.pre_in mp t q old e
      | inr new ↦
          let same = ap (λ (s : Snapshot). s.num) (only new) in
          absurd (omega (arith, below p mp, All-In PreBefore entries p valid.pre_before mp t, same))
    ]
      where
        only : In q (x ∷ []) → q ≡ x
        only (inl i) = i
        only (inr i) = absurd i

    -- A new entry above all the others that is no post snapshot, or the only one to a pre snapshot.
    pub append-IsConsistent :
        (x.type ≡ post
          → (x.pre_num < x.num)
            × ((q : Snapshot) → In q entries → q.num ≡ x.pre_num → q.type ≡ pre)
            × ((q : Snapshot) → In q entries → q.type ≡ post → q.pre_num ≢ x.pre_num))
        → IsConsistent (entries ++ x ∷ [])
    append-IsConsistent new = record {
      current_first = StartsCurrent-append entries valid.current_first;
      ascending =
          Pairs-append Below entries (x ∷ []) valid.ascending (tt, tt)
            (All_of_In _ entries (λ q m. (below q m, tt)));
      pre_before = All-append PreBefore entries (x ∷ []) valid.pre_before ((λ t. (new t).0), tt);
      pre_in =
          All-append (PreIn (entries ++ x ∷ [])) entries (x ∷ []) (All_of_In _ entries old-PreIn)
            (new-PreIn, tt);
      one_post =
          Pairs-append OtherPre entries (x ∷ []) valid.one_post (tt, tt)
            (All_of_In _ entries (λ q m. ((λ tq tx. (new tx).2 q m tq), tt)));
    }
      where
        new-PreIn : PreIn (entries ++ x ∷ []) x
        new-PreIn t q mq e = elim (In-append q entries (x ∷ []) mq) [
          | inl old ↦ (new t).1 q old e
          | inr (inl i) ↦ absurd (omega (arith, (new t).0, ap (λ (s : Snapshot). s.num) i))
          | inr (inr i) ↦ absurd i
        ]
