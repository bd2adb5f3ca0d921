-- ===== src/Cleanup/Kept.antt =====
-- What the timeline algorithm of client/cleanup.cc deletes and keeps.
use ok_snap.Base.{
  ℕ, suc, ◌+◌, ◌≤◌, ◌≡◌, refl, ap, subst, ◌⊎◌, inl, inr, Bool, true, false, ◌&&◌, Option, none,
  some, List, [], ◌∷◌, arith, ltb, if◌then◌else◌, Option-cases, length, ℤ,
}
use ok_snap.Cleanup.Types.{XSnapshot}
use ok_snap.Cleanup.Algorithms.{
  Tm, Counts, claim, unclaimed, is_first, equal_hour, equal_day, equal_month, equal_year,
}

unfoldable pub total : Counts → ℕ
total c = c.hourly + c.daily + c.monthly + c.yearly

-- Every count is at most its limit.
abbrev pub IsWithin : Counts → Counts → Type 0
IsWithin limits num =
    (num.hourly ≤ limits.hourly)
    × (num.daily ≤ limits.daily)
    × (num.monthly ≤ limits.monthly)
    × (num.yearly ≤ limits.yearly)

total-IsWithin : (limits num : Counts) → IsWithin limits num → total num ≤ total limits
unfolding total
total-IsWithin limits num w = omega arith

branch :
    (c : Bool) (x y : Counts) (rest : Option Counts)
    → (if c then some x else rest) ≡ some y
    → ((c ≡ true) × (x ≡ y)) ⊎ (rest ≡ some y)
branch true x y rest h = inl (refl, ap (λ o. elim o [ none ↦ x | some c ↦ c ]) h)
branch false x y rest h = inr h

-- A round that keeps a snapshot adds one to one of the counts, which was below its limit.
OneMore : Counts → Counts → Counts → Type 0
OneMore limits num num' = IsWithin limits num' × (total num' ≡ suc (total num))

claim-OneMore :
    (localtime : ℤ → Tm) (limits num num' : Counts) (s : XSnapshot) (ss : List XSnapshot)
    → claim localtime limits num s ss ≡ some num'
    → IsWithin limits num
    → OneMore limits num num'
unfolding claim total OneMore
claim-OneMore localtime limits num num' s ss h w =
    let hour = ltb num.hourly limits.hourly && is_first localtime equal_hour s ss in
    let day = ltb num.daily limits.daily && is_first localtime equal_day s ss in
    let month = ltb num.monthly limits.monthly && is_first localtime equal_month s ss in
    let year = ltb num.yearly limits.yearly && is_first localtime equal_year s ss in
    let by_year = if year then some (record num { yearly = num.yearly + 1 }) else none in
    let by_month = if month then some (record num { monthly = num.monthly + 1 }) else by_year in
    let by_day = if day then some (record num { daily = num.daily + 1 }) else by_month in
    elim (branch hour (record num { hourly = num.hourly + 1 }) num' by_day h) [
      | inl (c, e) ↦ subst (OneMore limits num) e (ground arith)
      | inr h1 ↦ elim (branch day (record num { daily = num.daily + 1 }) num' by_month h1) [
        | inl (c, e) ↦ subst (OneMore limits num) e (ground arith)
        | inr h2 ↦ elim (branch month (record num { monthly = num.monthly + 1 }) num' by_year h2) [
          | inl (c, e) ↦ subst (OneMore limits num) e (ground arith)
          | inr h3 ↦ elim (branch year (record num { yearly = num.yearly + 1 }) num' none h3) [
            | inl (c, e) ↦ subst (OneMore limits num) e (ground arith)
            | inr h4 ↦ cc
          ]
        ]
      ]
    ]

-- The loop over the candidates keeps no more of them than the four limits allow altogether: the
-- rest of a list, from counts within the limits on, has at least as many elements as the list, less
-- what the limits leave of those counts.
pub unclaimed-length :
    (localtime : ℤ → Tm) (limits num : Counts) (ss : List XSnapshot)
    → IsWithin limits num
    → length ss + total num ≤ length (unclaimed localtime limits num ss) + total limits
unfolding unclaimed OneMore
unclaimed-length localtime limits num [] w = omega (arith, total-IsWithin limits num w)
unclaimed-length localtime limits num (s ∷ ss) w =
    elim (Option-cases (claim localtime limits num s (s ∷ ss))) [
      | inl nothing ↦
          let e : unclaimed localtime limits num (s ∷ ss) ≡ s ∷ unclaimed localtime limits num ss =
            rw (nothing, unclaimed) in
          let sizes = ap length e in
          let ih = unclaimed-length localtime limits num ss w in omega arith
      | inr (num', claimed) ↦
          let e : unclaimed localtime limits num (s ∷ ss) ≡ unclaimed localtime limits num' ss =
            rw (claimed, unclaimed) in
          let sizes = ap length e in
          let (w', more) = claim-OneMore localtime limits num num' s (s ∷ ss) claimed w in
          let ih = unclaimed-length localtime limits num' ss w' in omega arith
    ]
