-- ===== src/Undo/System.antt =====
-- The statuses of an entry against the system, which are computed when they are asked for (snapper/File.cc),
-- and `dirname` and `basename` (snapper/AppUtil.cc). `cmp` is `cmpFiles` on the name in the directory of
-- two roots.
use ok_snap.Base.{
  ℕ, ◌≡◌, refl, inl, inr, none, some, [], ◌∷◌, ◌++◌, arith, ◌==◌, if◌then◌else◌, Option-cases, Text,
  codes,
}
use ok_snap.Files.Defs.{File, FilePaths, invalid}
use ok_snap.Undo.Calls.{Calls}
use ok_snap.Undo.Defs.{leading_path, do_undo, forget_system}

unfoldable pub dirname : Text → Text
unfolding leading_path
dirname name = elim (leading_path name) [
  | none ↦ codes "."
  | some [] ↦ codes "/"
  | some (c ∷ leading) ↦ c ∷ leading
]

unfoldable pub basename : Text → Text
unfolding leading_path
basename [] = []
basename (c ∷ name) = elim (leading_path name) [
  | some leading ↦ basename name
  | none ↦ if c == b'/' then name else c ∷ name
]

-- A name with a slash is what is before the last one, the slash and the base name.
pub leading_path-basename :
    (name leading : Text)
    → leading_path name ≡ some leading
    → name ≡ leading ++ b'/' ∷ basename name
unfolding leading_path basename
leading_path-basename [] leading h = absurd cc
leading_path-basename (c ∷ name) leading h = elim (Option-cases (leading_path name)) [
  | inl e ↦ ground arith
  | inr (above, e) ↦ ground (arith, leading_path-basename name above e)
]

pub data Cmp : Type 0 where
  cmp_pre_to_post cmp_pre_to_system cmp_post_to_system : Cmp

module _ (cmp : Text → Text → Text → Text → ℕ) (paths : FilePaths) where
  unfoldable pub get_pre_to_system_status : File → ℕ × File
  unfolding dirname basename
  get_pre_to_system_status f =
      let status = cmp paths.pre_path paths.system_path (dirname f.name) (basename f.name) in
      if f.pre_to_system_status == invalid
      then (status, record f { pre_to_system_status = status })
      else (f.pre_to_system_status, f)

  unfoldable pub get_post_to_system_status : File → ℕ × File
  unfolding dirname basename
  get_post_to_system_status f =
      let status = cmp paths.post_path paths.system_path (dirname f.name) (basename f.name) in
      if f.post_to_system_status == invalid
      then (status, record f { post_to_system_status = status })
      else (f.post_to_system_status, f)

  unfoldable pub get_status : Cmp → File → ℕ × File
  unfolding get_pre_to_system_status get_post_to_system_status
  get_status cmp_pre_to_post f = (f.pre_to_post_status, f)
  get_status cmp_pre_to_system f = get_pre_to_system_status f
  get_status cmp_post_to_system f = get_post_to_system_status f

  -- After an undo both statuses are computed again, whatever they were and whatever the undo returned.
  pub get_status-do_undo :
      (sys : Calls) (fuel : ℕ) (f : File) (s : sys.State)
      → let after = (do_undo sys fuel paths f s).0.1 in
        ((get_status cmp_pre_to_system after).0
          ≡ cmp paths.pre_path paths.system_path (dirname f.name) (basename f.name))
        × ((get_status cmp_post_to_system after).0
            ≡ cmp paths.post_path paths.system_path (dirname f.name) (basename f.name))
  unfolding get_status get_pre_to_system_status get_post_to_system_status do_undo forget_system
  get_status-do_undo sys fuel f s = (refl, refl)
