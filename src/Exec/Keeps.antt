-- ===== src/Exec/Keeps.antt =====
-- Code that keeps an invariant of the object that it changes, whether it returns or throws.
use ok_snap.Base.{Bool, true, false}
use ok_snap.Exec.{Exec, Exception, Result, ok, err, continue, throw_if, ◌>>=◌}

abbrev pub Keeps : {S A : Type 0} → (S → Type 0) → Exec S A → Type 0
Keeps P m = (s : _) → P s → P (m s).1

module _ {S A B : Type 0} (P : S → Type 0) (next : A → Exec S B) where
  after :
      (outcome : Result A) (state : S)
      → ((a : A) → Keeps P (next a))
      → P state
      → P (continue outcome next state).1
  after (err exception) state each valid = valid
  after (ok value) state each valid = each value state valid

  -- A chain keeps what its parts keep.
  pub bind-Keeps :
      (first : Exec S A) → Keeps P first → ((a : A) → Keeps P (next a)) → Keeps P (first >>= next)
  bind-Keeps first start each state valid =
      after (first state).0 (first state).1 each (start state valid)

module _ {S A B : Type 0} (P Q : S → Type 0) (next : A → Exec S B) where
  after_first :
      (outcome : Result A) (state : S)
      → (P state → Q state)
      → ((a : A) (t : S) → P t → Q (next a t).1)
      → P state
      → Q (continue outcome next state).1
  after_first (err exception) state thrown each valid = thrown valid
  after_first (ok value) state thrown each valid = each value state valid

  -- What follows a call whose result has `P` ends with `Q`, and so does an exception of the call.
  pub bind_ends :
      (first : Exec S A) (state : S)
      → ((t : S) → P t → Q t)
      → ((a : A) (t : S) → P t → Q (next a t).1)
      → P (first state).1
      → Q ((first >>= next) state).1
  bind_ends first state thrown each valid =
      after_first (first state).0 (first state).1 (thrown (first state).1) each valid

pub throw_if-Keeps :
    {S : Type 0} (P : S → Type 0) (test : Bool) (e : Exception) → Keeps P (throw_if test e)
throw_if-Keeps P true e s h = h
throw_if-Keeps P false e s h = h
