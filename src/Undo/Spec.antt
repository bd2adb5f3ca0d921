-- ===== src/Undo/Spec.antt =====
-- What a chain of calls on one path does: it touches that path alone, and when it returns true it has
-- done its work.
use ok_snap.Undo.Calls.{Calls, View, Inode}
use ok_snap.Undo.Posix.{Call}
use ok_snap.Undo.Defs.{Act, ◌and_then◌}
use ok_snap.Base.{◌≡◌, refl, ◌∙◌, inl, inr, Bool, true, false≢true, Option, Bool-cases, Text}

module _ {sys : Calls} (view : View sys) (path : Text) where
  abbrev pub Spec : (s : sys.State) → Act sys.State → (sys.State → Type 0) → Type 0
  Spec s act Done = Call view path s (act s).1 × ((act s).0 ≡ true → Done (act s).1)

  -- What is under the path now.
  abbrev pub Holds : Option Inode → sys.State → Type 0
  Holds x t = view.node t path ≡ x

  pub Call-refl : (s : sys.State) → Call view path s s
  Call-refl s = (λ q apart. refl, λ fd. refl)

  pub Call-trans :
      {s t u : sys.State} → Call view path s t → Call view path t u → Call view path s u
  Call-trans first next =
      (λ q apart. next.0 q apart ∙ first.0 q apart, λ fd. next.1 fd ∙ first.1 fd)

  pub spec_succeeds :
      (s : sys.State) (b : Bool) (Done : sys.State → Type 0) → Done s → Spec s (λ t. (b, t)) Done
  spec_succeeds s b Done done = (Call-refl s, λ h. done)

  -- A chain of two parts does what its second part does from where its first part ends.
  pub spec_then :
      (s : sys.State) (first next : Act sys.State) (Middle Done : sys.State → Type 0)
      → Spec s first Middle
      → (Middle (first s).1 → Spec (first s).1 next Done)
      → Spec s (first and_then next) Done
  spec_then s first next Middle Done start rest = elim (Bool-cases (first s).0) [
    | inr e ↦ rw (e, ◌and_then◌) (start.0, λ h. absurd (false≢true h))
    | inl e ↦
        let after = rest (start.1 e) in rw (e, ◌and_then◌) (Call-trans start.0 after.0, after.1)
  ]
