-- ===== src/Files/Defs/Undo.antt =====
-- The steps of an undo: what they undo, how many they are, and that their order is safe.
use ok_snap.Base.{
  ◌≡◌, ap, ◌≢◌, true, List, [], ◌∷◌, ◌++◌, arith, All, All-append, Pairs, Pairs-append, All-map,
  text_lt-asymm, text_lt-append, Text, text_lt,
}
use ok_snap.Files.Defs.{
  File, delete, UndoStep, get_action, created_steps, other_steps, get_undo_steps, created_step,
  other_step,
}
use ok_snap.Files.Defs.Sorted.{Before, IsSorted}

-- Two steps, the first one earlier: deletions come first; what lies in a directory is deleted
-- before the directory, and created or modified after it.
pub record InOrder (s t : UndoStep) : Type 0 where
  pub deletions_first : t.action ≡ delete → s.action ≡ delete
  pub deletes_inner_first :
      (rest : Text) → s.action ≡ delete → t.action ≡ delete → t.name ≢ s.name ++ b'/' ∷ rest
  pub creates_outer_first :
      (rest : Text) → s.action ≢ delete → t.action ≢ delete → s.name ≢ t.name ++ b'/' ∷ rest

-- A name that stands below another one in a directory is not before it.
not_below : (a b rest : Text) → text_lt b a ≡ true → b ≢ a ++ b'/' ∷ rest
not_below a b rest h e = cc (text_lt-asymm b a h, text_lt-append a b'/' rest, ap (text_lt a) e)

descending : (s t : UndoStep) → s.action ≡ delete → text_lt t.name s.name ≡ true → InOrder s t
descending s t d h = record {
  deletions_first = λ _. d;
  deletes_inner_first = λ rest _ _. not_below s.name t.name rest h;
  creates_outer_first = λ rest n _. absurd (n d);
}

ascending : (s t : UndoStep) → t.action ≢ delete → text_lt s.name t.name ≡ true → InOrder s t
ascending s t d h = record {
  deletions_first = λ e. absurd (d e);
  deletes_inner_first = λ rest _ e. absurd (d e);
  creates_outer_first = λ rest _ _. not_below t.name s.name rest h;
}

abbrev Deletes : Text → UndoStep → Type 0
Deletes a s = (s.action ≡ delete) × (text_lt a s.name ≡ true)

abbrev Others : Text → UndoStep → Type 0
Others a s = (s.action ≢ delete) × (text_lt a s.name ≡ true)

created_step-Deletes :
    (a : Text) (f : File) → text_lt a f.name ≡ true → All (Deletes a) (created_step f)
unfolding created_step get_action
created_step-Deletes a f h = ground arith

other_step-Others : (a : Text) (f : File) → text_lt a f.name ≡ true → All (Others a) (other_step f)
unfolding other_step get_action
other_step-Others a f h = ground arith

created_steps-Deletes :
    (a : Text) (fs : List File) → Before a fs → All (Deletes a) (created_steps fs)
unfolding created_steps
created_steps-Deletes a [] h = tt
created_steps-Deletes a (f ∷ fs) h =
    All-append (Deletes a) (created_steps fs) (created_step f) (created_steps-Deletes a fs h.1)
      (created_step-Deletes a f h.0)

other_steps-Others : (a : Text) (fs : List File) → Before a fs → All (Others a) (other_steps fs)
unfolding other_steps
other_steps-Others a [] h = tt
other_steps-Others a (f ∷ fs) h =
    All-append (Others a) (other_step f) (other_steps fs) (other_step-Others a f h.0)
      (other_steps-Others a fs h.1)

-- A round adds one step for its own entry, or none.
created_step-name :
    (f : File)
    → All (λ s. (s.name ≡ f.name) × (s.action ≡ delete)) (created_step f)
      × Pairs InOrder (created_step f)
unfolding created_step get_action
created_step-name f = ground arith

created_steps-InOrder : (fs : List File) → IsSorted fs → Pairs InOrder (created_steps fs)
unfolding created_steps
created_steps-InOrder [] h = tt
created_steps-InOrder (f ∷ fs) h =
    Pairs-append InOrder (created_steps fs) (created_step f) (created_steps-InOrder fs h.1)
      (created_step-name f).1
      (All-map (created_steps fs)
        (λ s d.
          All-map (created_step f) (λ t e. descending s t d.0 (rw e.0 d.1)) (created_step-name f).0)
        (created_steps-Deletes f.name fs h.0))

other_step-name :
    (f : File) → All (λ s. s.name ≡ f.name) (other_step f) × Pairs InOrder (other_step f)
unfolding other_step get_action
other_step-name f = ground arith

other_steps-InOrder : (fs : List File) → IsSorted fs → Pairs InOrder (other_steps fs)
unfolding other_steps
other_steps-InOrder [] h = tt
other_steps-InOrder (f ∷ fs) h =
    Pairs-append InOrder (other_step f) (other_steps fs) (other_step-name f).1
      (other_steps-InOrder fs h.1)
      (All-map (other_step f)
        (λ s e.
          All-map (other_steps fs) (λ t o. ascending s t o.0 (rw e o.1))
            (other_steps-Others f.name fs h.0))
        (other_step-name f).0)

created_steps-delete : (fs : List File) → All (λ s. s.action ≡ delete) (created_steps fs)
unfolding created_steps
created_steps-delete [] = tt
created_steps-delete (f ∷ fs) =
    All-append (λ s. s.action ≡ delete) (created_steps fs) (created_step f)
      (created_steps-delete fs) (All-map (created_step f) (λ s e. e.1) (created_step-name f).0)

other_step-ne-delete : (f : File) → All (λ s. s.action ≢ delete) (other_step f)
unfolding other_step get_action
other_step-ne-delete f = ground arith

other_steps-ne-delete : (fs : List File) → All (λ s. s.action ≢ delete) (other_steps fs)
unfolding other_steps
other_steps-ne-delete [] = tt
other_steps-ne-delete (f ∷ fs) =
    All-append (λ s. s.action ≢ delete) (other_step f) (other_steps fs) (other_step-ne-delete f)
      (other_steps-ne-delete fs)

deletion_first : (s t : UndoStep) → s.action ≡ delete → t.action ≢ delete → InOrder s t
deletion_first s t d n = record {
  deletions_first = λ _. d;
  deletes_inner_first = λ rest _ e. absurd (n e);
  creates_outer_first = λ rest m _. absurd (m d);
}

-- The steps of an undo of sorted entries come in an order in which they can be carried out: all
-- deletions first, the content of a directory deleted before the directory, and everything else
-- below a directory created or modified after it.
pub get_undo_steps-InOrder : (fs : List File) → IsSorted fs → Pairs InOrder (get_undo_steps fs)
unfolding get_undo_steps
get_undo_steps-InOrder fs h =
    Pairs-append InOrder (created_steps fs) (other_steps fs) (created_steps-InOrder fs h)
      (other_steps-InOrder fs h)
      (All-map (created_steps fs)
        (λ s d. All-map (other_steps fs) (λ t n. deletion_first s t d n) (other_steps-ne-delete fs))
        (created_steps-delete fs))
