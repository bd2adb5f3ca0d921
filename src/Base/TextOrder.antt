-- ===== src/Base/TextOrder.antt =====
-- `operator<` of `std::string` is a strict total order, and a directory comes before what is in it.
use Prim.Native.Nat.{ℕ}
use mathlib.Core.Path.{◌≡◌, refl, sym, ap, ◌∙◌}
use mathlib.Core.Logic.{inl, inr}
use mathlib.Core.Bool.{true, false, false≢true}
use mathlib.Core.List.{[], ◌∷◌, ◌++◌}
use native.Mathlib.Omega.{arith}
use ok_snap.Base.Tests.{Bool-cases}
use ok_snap.Base.Strings.{Text, text_eq, text_eq_iff, text_lt}

pub text_eq_refl : (s : Text) → text_eq s s ≡ true
text_eq_refl s = (text_eq_iff s s).1 refl

pub text_lt_irrefl : (s : Text) → text_lt s s ≡ false
unfolding text_lt
text_lt_irrefl [] = refl
text_lt_irrefl (c ∷ s) = ground (arith, text_lt_irrefl s)

pub text_lt-asymm : (s t : Text) → text_lt s t ≡ true → text_lt t s ≡ false
unfolding text_lt
text_lt-asymm [] [] h = cc
text_lt-asymm [] (d ∷ t) h = refl
text_lt-asymm (c ∷ s) [] h = cc
text_lt-asymm (c ∷ s) (d ∷ t) h = ground (arith, text_lt-asymm s t)

pub text_lt_trans : (s t u : Text) → text_lt s t ≡ true → text_lt t u ≡ true → text_lt s u ≡ true
unfolding text_lt
text_lt_trans [] [] u h k = cc
text_lt_trans [] (d ∷ t) [] h k = cc
text_lt_trans [] (d ∷ t) (e ∷ u) h k = refl
text_lt_trans (c ∷ s) [] u h k = cc
text_lt_trans (c ∷ s) (d ∷ t) [] h k = cc
text_lt_trans (c ∷ s) (d ∷ t) (e ∷ u) h k = ground (arith, text_lt_trans s t u)

pub text_lt_total : (s t : Text) → text_lt s t ≡ false → text_eq s t ≡ false → text_lt t s ≡ true
unfolding text_lt text_eq
text_lt_total [] [] h k = cc
text_lt_total [] (d ∷ t) h k = cc
text_lt_total (c ∷ s) [] h k = refl
text_lt_total (c ∷ s) (d ∷ t) h k = ground (arith, text_lt_total s t)

pub text_lt-append : (s : Text) (c : ℕ) (t : Text) → text_lt s (s ++ c ∷ t) ≡ true
unfolding text_lt
text_lt-append [] c t = refl
text_lt-append (d ∷ s) c t = ground (arith, text_lt-append s c t)

pub text_eq_same : (a b c : Text) → text_eq a b ≡ true → text_eq a c ≡ text_eq b c
text_eq_same a b c h = ap (λ s. text_eq s c) ((text_eq_iff a b).0 h)

pub text_eq_apart : (a b c : Text) → text_eq a b ≡ false → text_eq a c ≡ true → text_eq b c ≡ false
text_eq_apart a b c h k = elim (Bool-cases (text_eq b c)) [
  | inr apart ↦ apart
  | inl same ↦
      let a_b = (text_eq_iff a c).0 k ∙ sym ((text_eq_iff b c).0 same) in
      absurd (false≢true (sym h ∙ (text_eq_iff a b).1 a_b))
]

pub text_eq_comm : (s t : Text) → text_eq s t ≡ text_eq t s
unfolding text_eq
text_eq_comm [] [] = refl
text_eq_comm [] (d ∷ t) = refl
text_eq_comm (c ∷ s) [] = refl
text_eq_comm (c ∷ s) (d ∷ t) = ground (arith, text_eq_comm s t)
