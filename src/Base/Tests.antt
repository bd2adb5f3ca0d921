-- ===== src/Base/Tests.antt =====
-- Boolean tests on the native numbers, the conditional, and the tests of flags in a word.
use Prim.Native.Nat.{ℕ, zero, suc, ◌<◌, compare, Ordering, bit_and}
use mathlib.Core.Path.{◌≡◌, refl, ap, ◌∙◌}
use mathlib.Core.Logic.{◌↔◌, ◌⊎◌, inl, inr}
use mathlib.Core.Bool.{Bool, true, false, not, ◌&&◌}
use mathlib.Core.Option.{Option, none, some}
use native.Mathlib.Omega.{arith}

abbrev pub ltb : ℕ → ℕ → Bool
ltb a b = elim (compare a b) [ Ordering.lt ↦ true | _ ↦ false ]

abbrev pub leb : ℕ → ℕ → Bool
leb a b = elim (compare a b) [ Ordering.gt ↦ false | _ ↦ true ]

infix 50 ◌==◌
abbrev pub ◌==◌ : ℕ → ℕ → Bool
a == b = elim (compare a b) [ Ordering.eq ↦ true | _ ↦ false ]

infix 1 if◌then◌else◌
abbrev pub if◌then◌else◌ {ℓ} : {A : Type ℓ} → Bool → A → A → A
if true then x else y = x
if false then x else y = y

pub ==_iff : (a b : ℕ) → ((a == b) ≡ true) ↔ (a ≡ b)
==_iff a b = ground arith

pub ==_self : (a : ℕ) → (a == a) ≡ true
==_self a = ground arith

pub Bool-cases : (b : Bool) → (b ≡ true) ⊎ (b ≡ false)
Bool-cases true = inl refl
Bool-cases false = inr refl

pub Option-cases {ℓ} : {A : Type ℓ} (o : Option A) → (o ≡ none) ⊎ ((a : A) × (o ≡ some a))
Option-cases none = inl refl
Option-cases (some a) = inr (a, refl)

-- `status & flag` as a condition.
abbrev pub has : ℕ → ℕ → Bool
has status flag = not (bit_and status flag == 0)

-- A table: every value below the bound passes the test.
unfoldable pub tested : (ℕ → Bool) → ℕ → Bool
tested test zero = true
tested test (suc bound) = tested test bound && test bound

pub tested_below :
    (test : ℕ → Bool) (bound value : ℕ)
    → value < bound
    → tested test bound ≡ true
    → test value ≡ true
unfolding tested
tested_below test zero value below table = absurd (omega arith)
tested_below test (suc bound) value below table = elim (Bool-cases (value == bound)) [
  | inl last ↦ ap test ((==_iff value bound).0 last) ∙ ground arith
  | inr before ↦ tested_below test bound value (ground arith) (ground arith)
]
