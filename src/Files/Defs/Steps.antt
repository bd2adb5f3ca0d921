-- ===== src/Files/Defs/Steps.antt =====
-- Which entries an undo touches.
use ok_snap.Base.{
  ◌≡◌, refl, sym, subst, ◌↔◌, ◌⊎◌, inl, inr, true, List, [], ◌∷◌, arith, ◌==◌, Bool-cases, In,
  In-append_left, In-append_right, In-append,
}
use ok_snap.Files.Defs.{
  File, UndoStep, undo_step, created_step, other_step, created_steps, other_steps, get_undo_steps,
}

round_complete :
    (f : File) → f.undo ≡ true → In (undo_step f) (created_step f) ⊎ In (undo_step f) (other_step f)
unfolding created_step other_step
round_complete f u = elim (Bool-cases (f.pre_to_post_status == 1)) [
  | inl c ↦ rw (u, c) (inl (inl refl))
  | inr n ↦ rw (u, n) (inr (inl refl))
]

created_steps-In :
    (f : File) (fs : List File) (s : UndoStep)
    → In f fs
    → In s (created_step f)
    → In s (created_steps fs)
unfolding created_steps
created_steps-In f [] s m h = absurd m
created_steps-In f (g ∷ gs) s (inl e) h =
    In-append_right s (created_steps gs) (created_step g) (subst (λ x. In s (created_step x)) e h)
created_steps-In f (g ∷ gs) s (inr m) h =
    In-append_left s (created_steps gs) (created_step g) (created_steps-In f gs s m h)

other_steps-In :
    (f : File) (fs : List File) (s : UndoStep)
    → In f fs
    → In s (other_step f)
    → In s (other_steps fs)
unfolding other_steps
other_steps-In f [] s m h = absurd m
other_steps-In f (g ∷ gs) s (inl e) h =
    In-append_left s (other_step g) (other_steps gs) (subst (λ x. In s (other_step x)) e h)
other_steps-In f (g ∷ gs) s (inr m) h =
    In-append_right s (other_step g) (other_steps gs) (other_steps-In f gs s m h)

steps_complete :
    (fs : List File) (f : File) → In f fs → f.undo ≡ true → In (undo_step f) (get_undo_steps fs)
unfolding get_undo_steps
steps_complete fs f m u = elim (round_complete f u) [
  | inl h ↦ In-append_left _ (created_steps fs) (other_steps fs) (created_steps-In f fs _ m h)
  | inr h ↦ In-append_right _ (created_steps fs) (other_steps fs) (other_steps-In f fs _ m h)
]

abbrev IsStepOf : List File → UndoStep → Type 0
IsStepOf fs s = (f : File) × In f fs × (f.undo ≡ true) × (s ≡ undo_step f)

created_step_sound :
    (f : File) (s : UndoStep) → In s (created_step f) → (f.undo ≡ true) × (s ≡ undo_step f)
unfolding created_step
created_step_sound f s h = ground arith

other_step_sound :
    (f : File) (s : UndoStep) → In s (other_step f) → (f.undo ≡ true) × (s ≡ undo_step f)
unfolding other_step
other_step_sound f s h = ground arith

weaken : (g : File) (gs : List File) (s : UndoStep) → IsStepOf gs s → IsStepOf (g ∷ gs) s
weaken g gs s (f, m, u, e) = (f, inr m, u, e)

created_steps_sound : (fs : List File) (s : UndoStep) → In s (created_steps fs) → IsStepOf fs s
unfolding created_steps
created_steps_sound [] s h = absurd h
created_steps_sound (g ∷ gs) s h = elim (In-append s (created_steps gs) (created_step g) h) [
  | inl k ↦ weaken g gs s (created_steps_sound gs s k)
  | inr k ↦ let (u, e) = created_step_sound g s k in (g, inl refl, u, e)
]

other_steps_sound : (fs : List File) (s : UndoStep) → In s (other_steps fs) → IsStepOf fs s
unfolding other_steps
other_steps_sound [] s h = absurd h
other_steps_sound (g ∷ gs) s h = elim (In-append s (other_step g) (other_steps gs) h) [
  | inl k ↦ let (u, e) = other_step_sound g s k in (g, inl refl, u, e)
  | inr k ↦ weaken g gs s (other_steps_sound gs s k)
]

steps_sound : (fs : List File) (s : UndoStep) → In s (get_undo_steps fs) → IsStepOf fs s
unfolding get_undo_steps
steps_sound fs s h = elim (In-append s (created_steps fs) (other_steps fs) h) [
  | inl k ↦ created_steps_sound fs s k
  | inr k ↦ other_steps_sound fs s k
]

-- A step is carried out exactly for the entries that are marked, with the entry's own action.
pub get_undo_steps_iff :
    (fs : List File) (s : UndoStep)
    → In s (get_undo_steps fs) ↔ ((f : File) × In f fs × (f.undo ≡ true) × (s ≡ undo_step f))
get_undo_steps_iff fs s = (
  steps_sound fs s,
  λ h. subst (λ t. In t (get_undo_steps fs)) (sym h.3) (steps_complete fs h.0 h.1 h.2),
)
