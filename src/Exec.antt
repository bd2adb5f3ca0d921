-- ===== src/Exec.antt =====
-- Code that changes an object and may throw: what was written before an exception stays written,
-- so the state comes back beside the exception too.
pub mod Returns
pub mod Keeps
use ok_snap.Base.{Bool, if◌then◌else◌}

pub data Exception : Type 0 where
  illegal_snapshot invalid_userdata io_error : Exception
  create_snapshot_failed delete_snapshot_failed : Exception
  is_snapshot_mounted_failed mount_snapshot_failed umount_snapshot_failed : Exception
  unknown_config permissions locked config_in_use snapshot_in_use no_comparison : Exception
  -- no exceptions of the program: an `assert` ends it, or the model's fuel ran out
  assertion_failed out_of_fuel : Exception

pub data Result (A : Type 0) : Type 0 where
  ok : A → Result A
  err : Exception → Result A

abbrev pub Exec : Type 0 → Type 0 → Type 0
Exec S A = S → Result A × S

module _ {S A : Type 0} where
  abbrev pub pure : A → Exec S A
  pure a s = (ok a, s)

  abbrev pub throw : Exception → Exec S A
  throw e s = (err e, s)

  -- A read of the state.
  abbrev pub gets : (S → A) → Exec S A
  gets field state = (ok (field state), state)

module _ {S A B : Type 0} where
  abbrev pub continue : Result A → (A → Exec S B) → Exec S B
  continue (ok a) f s = f a s
  continue (err e) f s = (err e, s)

  infixl 10 ◌>>=◌ ◌>>◌
  abbrev pub ◌>>=◌ : Exec S A → (A → Exec S B) → Exec S B
  ◌>>=◌ first next state = continue (first state).0 next (first state).1

  abbrev pub ◌>>◌ : Exec S A → Exec S B → Exec S B
  first >> second = first >>= (λ result. second)

module _ {S : Type 0} where
  abbrev pub modify : (S → S) → Exec S (Unit {0})
  modify f s = (ok tt, f s)

  -- `if (test) throw e;`
  abbrev pub throw_if : Bool → Exception → Exec S (Unit {0})
  throw_if b e s = if b then (err e, s) else (ok tt, s)
