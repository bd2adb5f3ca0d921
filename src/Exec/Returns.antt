-- ===== src/Exec/Returns.antt =====
-- What a chain of calls that returns says of its parts.
use ok_snap.Base.{◌≡◌, refl, ap, Bool, true, false}
use ok_snap.Exec.{Exec, Exception, Result, ok, err, continue, throw_if, ◌>>=◌}

module _ {S A B : Type 0} where
  continue-ok :
      (r : Result A) (f : A → Exec S B) (s t : S) (b : B)
      → continue r f s ≡ (ok b, t)
      → (a : A) × (r ≡ ok a) × (f a s ≡ (ok b, t))
  continue-ok (ok a) f s t b h = (a, refl, h)
  continue-ok (err e) f s t b h = absurd cc

  -- A chain returns only if its first call does, and then what follows.
  pub bind_ok :
      (m : Exec S A) (f : A → Exec S B) (s t : S) (b : B)
      → (m >>= f) s ≡ (ok b, t)
      → (a : A) × (s' : S) × (m s ≡ (ok a, s')) × (f a s' ≡ (ok b, t))
  bind_ok m f s t b h =
      let (a, e, rest) = continue-ok (m s).0 f (m s).1 t b h in
      (a, (m s).1, ap (λ r. (r, (m s).1)) e, rest)

pub throw_if-ok :
    {S : Type 0} (test : Bool) (e : Exception) (s t : S) (u : Unit {0})
    → throw_if test e s ≡ (ok u, t)
    → (test ≡ false) × (s ≡ t)
throw_if-ok true e s t u h = absurd cc
throw_if-ok false e s t u h = (refl, ap (λ p. p.1) h)
