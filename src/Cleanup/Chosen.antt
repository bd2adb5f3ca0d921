-- ===== src/Cleanup/Chosen.antt =====
-- What the number algorithm of client/cleanup.cc never deletes.
use ok_snap.Base.{
  ℕ, ◌<◌, ◌≡◌, refl, sym, ap, ◌∙◌, subst, ◌⊎◌, inl, inr, false, some, List, [], ◌∷◌, arith, ltb,
  ◌==◌, ==_iff, Bool-cases, length, All, In, All_of_In, ℤ, ◌-ℤ◌, codes,
}
use mathlib.Core.List.{◌++◌}
use ok_snap.Cleanup.Types.{XSnapshot}
use ok_snap.Cleanup.Filter.{younger_than, filter1, filter2}
use ok_snap.Cleanup.Algorithms.{select, drop_last, tmp_number, doomed_number}
use ok_snap.Cleanup.Pairing.{filter2_loop_sound}

filter1_sound :
    (now min_age : ℤ) (ss : List XSnapshot) (s : XSnapshot)
    → In s (filter1 now min_age ss)
    → In s ss × (younger_than (now -ℤ min_age) s ≡ false)
unfolding filter1
filter1_sound now min_age [] s m = absurd m
filter1_sound now min_age (x ∷ xs) s m = elim (Bool-cases (younger_than (now -ℤ min_age) x)) [
  | inl young ↦ let (a, b) = filter1_sound now min_age xs s (rw young at m) in (inr a, b)
  | inr old ↦
      let m' = (rw old at m) in
      elim m' [
        | inl same ↦ (inl same, subst (λ y. younger_than (now -ℤ min_age) y ≡ false) (sym same) old)
        | inr tail ↦ let (a, b) = filter1_sound now min_age xs s tail in (inr a, b)
      ]
]

pub filters_sound :
    (now min_age : ℤ) (snapshots tmp out : List XSnapshot)
    → filter2 snapshots (filter1 now min_age tmp) ≡ some out
    → All (λ s. In s tmp × (younger_than (now -ℤ min_age) s ≡ false)) out
unfolding filter2
filters_sound now min_age snapshots tmp out h = All_of_In _ out (λ s m.
    let old = filter1 now min_age tmp in
    filter1_sound now min_age tmp s (filter2_loop_sound snapshots old old out s h m).0)

-- `newest` has `limit` elements, or fewer and then nothing stands in front of it.
abbrev pub IsCutAt : ℕ → List XSnapshot → List XSnapshot → Type 0
IsCutAt limit front newest = (length newest ≡ limit) ⊎ ((length newest < limit) × (front ≡ []))

all-IsCutAt :
    (limit : ℕ) (ss : List XSnapshot) → ltb limit (length ss) ≡ false → IsCutAt limit [] ss
all-IsCutAt limit ss h = elim (Bool-cases (length ss == limit)) [
  | inl same ↦ inl ((==_iff _ _).0 same)
  | inr less ↦ inr (ground arith, refl)
]

cons-IsCutAt :
    (limit : ℕ) (s : XSnapshot) (ss front kept : List XSnapshot)
    → ss ≡ front ++ kept
    → ltb (length ss) limit ≡ false
    → IsCutAt limit front kept
    → IsCutAt limit (s ∷ front) kept
cons-IsCutAt limit s ss front kept e many (inl same) = inl same
cons-IsCutAt limit s ss front kept e many (inr (less, alone)) =
    let whole : ss ≡ kept = e ∙ ap (λ f. f ++ kept) alone in
    let sizes : length ss ≡ length kept = ap length whole in absurd (ground arith)

Cut : ℕ → List XSnapshot → List XSnapshot → Type 0
Cut limit ss front = (kept : List XSnapshot) × (ss ≡ front ++ kept) × IsCutAt limit front kept

drop_last-Cut : (limit : ℕ) (ss : List XSnapshot) → Cut limit ss (drop_last limit ss)
unfolding drop_last Cut
drop_last-Cut limit [] = ([], refl, all-IsCutAt limit [] (ground arith))
drop_last-Cut limit (s ∷ ss) = elim (Bool-cases (ltb (length ss) limit)) [
  | inl few ↦
      let front : drop_last limit (s ∷ ss) ≡ [] = rw few in
      subst (Cut limit (s ∷ ss)) (sym front)
        (s ∷ ss, refl, all-IsCutAt limit (s ∷ ss) (ground arith))
  | inr many ↦
      let front : drop_last limit (s ∷ ss) ≡ s ∷ drop_last limit ss = rw many in
      let (kept, e, c) = drop_last-Cut limit ss in
      subst (Cut limit (s ∷ ss)) (sym front)
        (kept, ap (λ r. s ∷ r) e, cons-IsCutAt limit s ss (drop_last limit ss) kept e many c)
]

tmp_number-Cut : (limit : ℕ) (ss : List XSnapshot) → Cut limit ss (tmp_number limit ss)
unfolding Cut
tmp_number-Cut limit ss = elim (Bool-cases (ltb limit (length ss))) [
  | inl more ↦
      let front : tmp_number limit ss ≡ drop_last limit ss = rw more in
      subst (Cut limit ss) (sym front) (drop_last-Cut limit ss)
  | inr few ↦
      let front : tmp_number limit ss ≡ [] = rw few in
      subst (Cut limit ss) (sym front) (ss, refl, all-IsCutAt limit ss few)
]

-- The number algorithm never deletes any of the `limit` newest of the snapshots that it looks at,
-- which are those that are listed last, and never one that is younger than the minimum age: if a
-- run does not end by a `throw;`, those snapshots are a list in front and `limit` newest ones, or
-- fewer and nothing in front, and each snapshot to delete is one of the list in front and is old.
pub doomed_number-Chosen :
    (now min_age : ℤ) (limit : ℕ) (snapshots out : List XSnapshot)
    → doomed_number now min_age limit snapshots ≡ some out
    → (front : List XSnapshot) × (newest : List XSnapshot) × (select (codes "number") snapshots
        ≡ front ++ newest)
      × IsCutAt limit front newest
      × All (λ s. In s front × (younger_than (now -ℤ min_age) s ≡ false)) out
unfolding doomed_number Cut
doomed_number-Chosen now min_age limit snapshots out h =
    let ss = select (codes "number") snapshots in
    let (newest, e, c) = tmp_number-Cut limit ss in
    (
      tmp_number limit ss,
      newest,
      e,
      c,
      filters_sound now min_age snapshots (tmp_number limit ss) out h,
    )
