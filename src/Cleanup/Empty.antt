-- ===== src/Cleanup/Empty.antt =====
-- What the algorithm for empty pairs of client/cleanup.cc deletes.
use ok_snap.Base.{
  ℕ, ◌≡◌, refl, subst, ◌⊎◌, inl, inr, Bool, true, false, not, Option, none, some, List, [], ◌∷◌,
  arith, if◌then◌else◌, Option-cases, All, All-In, All-map, ℤ, ◌-ℤ◌,
}
use ok_snap.Snapshots.Types.{pre, type_eq}
use ok_snap.Cleanup.Types.{XSnapshot, find_post}
use ok_snap.Cleanup.Filter.{younger_than, filter1, filter2}
use ok_snap.Cleanup.Algorithms.{empty_round, add_pair, empty_pairs, doomed_empty}
use ok_snap.Cleanup.Chosen.{filters_sound}

-- One half of a pre snapshot and its post snapshot between which no file differs.
abbrev pub IsHalf : (ℕ → ℕ → Bool) → List XSnapshot → XSnapshot → Type 0
IsHalf differ snapshots s =
    (p : XSnapshot) × (q : XSnapshot) × (find_post snapshots p ≡ some (some q))
    × (differ p.num q.num ≡ false)
    × ((s ≡ p) ⊎ (s ≡ q))

module _ (differ : ℕ → ℕ → Bool) (snapshots : List XSnapshot) where
  AllHalves : Option (List XSnapshot) → Type 0
  AllHalves none = Unit
  AllHalves (some tmp) = All (IsHalf differ snapshots) tmp

  add_pair-AllHalves :
      (s t : XSnapshot) (same : Bool) (rest : Option (List XSnapshot))
      → find_post snapshots s ≡ some (some t)
      → not (differ s.num t.num) ≡ same
      → AllHalves rest
      → AllHalves (add_pair s t same rest)
  unfolding AllHalves add_pair
  add_pair-AllHalves s t false rest f e h = h
  add_pair-AllHalves s t true none f e h = tt
  add_pair-AllHalves s t true (some tmp) f e h =
      let no_difference : differ s.num t.num ≡ false = ground arith in
      ((s, t, f, no_difference, inl refl), ((s, t, f, no_difference, inr refl), h))

  empty_round-AllHalves :
      (s : XSnapshot) (o : Option (Option XSnapshot)) (rest : Option (List XSnapshot))
      → find_post snapshots s ≡ o
      → AllHalves rest
      → AllHalves (empty_round differ s o rest)
  unfolding AllHalves empty_round
  empty_round-AllHalves s none rest f h = tt
  empty_round-AllHalves s (some none) rest f h = h
  empty_round-AllHalves s (some (some t)) rest f h =
      add_pair-AllHalves s t (not (differ s.num t.num)) rest f refl h

  either_AllHalves :
      (b : Bool) (x y : Option (List XSnapshot))
      → AllHalves x
      → AllHalves y
      → AllHalves (if b then x else y)
  either_AllHalves true x y hx hy = hx
  either_AllHalves false x y hx hy = hy

  empty_pairs-AllHalves : (ss : List XSnapshot) → AllHalves (empty_pairs differ snapshots ss)
  unfolding AllHalves empty_pairs
  empty_pairs-AllHalves [] = tt
  empty_pairs-AllHalves (s ∷ ss) =
      let rest = empty_pairs-AllHalves ss in
      either_AllHalves (type_eq s.type pre) _ (empty_pairs differ snapshots ss)
        (empty_round-AllHalves s (find_post snapshots s) (empty_pairs differ snapshots ss) refl
          rest)
        rest

-- The algorithm for empty pairs deletes only halves of a pre snapshot and its post snapshot between
-- which the comparison lists no file, and only such that are not younger than the minimum age, if
-- the run does not end by a `throw;`.
pub doomed_empty-IsHalf :
    (differ : ℕ → ℕ → Bool) (now min_age : ℤ) (snapshots out : List XSnapshot)
    → doomed_empty differ now min_age snapshots ≡ some out
    → All (λ s. IsHalf differ snapshots s × (younger_than (now -ℤ min_age) s ≡ false)) out
unfolding doomed_empty AllHalves
doomed_empty-IsHalf differ now min_age snapshots out h =
    elim (Option-cases (empty_pairs differ snapshots snapshots)) [
      | inl thrown ↦ absurd (let e = rw thrown at h in cc)
      | inr (tmp, pairs) ↦
          let halves : All (IsHalf differ snapshots) tmp =
            subst (AllHalves differ snapshots) pairs
              (empty_pairs-AllHalves differ snapshots snapshots) in
          let filtered : filter2 snapshots (filter1 now min_age tmp) ≡ some out = rw pairs at h in
          All-map out (λ s m. (All-In (IsHalf differ snapshots) tmp s halves m.0, m.1))
            (filters_sound now min_age snapshots tmp out filtered)
    ]
