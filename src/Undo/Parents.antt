-- ===== src/Undo/Parents.antt =====
-- `createParentDirectories` makes what is missing above a path, and nothing else.
use ok_snap.Undo.Calls.{Calls, View, s_ifdir, Format, s_ifreg, s_iflnk, s_other}
use ok_snap.Undo.Posix.{IsPosix, SameHandles}
use ok_snap.Undo.Defs.{create_parents, leading_path, make_parent, ◌and_then◌}
use ok_snap.Base.{
  ℕ, zero, suc, ◌≤◌, ◌<◌, ◌≡◌, refl, ◌∙◌, subst, inl, inr, Option, none, some, [], ◌∷◌, arith,
  Bool-cases, Option-cases, length, Text,
}

leading_path-length :
    (path leading : Text) → leading_path path ≡ some leading → length leading < length path
unfolding leading_path
leading_path-length [] leading h = absurd cc
leading_path-length (c ∷ path) leading h = elim (Option-cases (leading_path path)) [
  | inl e ↦ ground arith
  | inr (above, e) ↦ ground (arith, leading_path-length path above e)
]

module _ {sys : Calls} (view : View sys) where
  abbrev pub OtherFrom : (Text → Type 0) → Option Text → Text → Type 0
  OtherFrom Higher none other = Unit
  OtherFrom Higher (some leading) other = view.Other leading other × Higher leading

  -- `other` is another entry than the path above `path`, and than all that is above that one.
  unfoldable pub OtherAbove : ℕ → Text → Text → Type 0
  unfolding leading_path
  OtherAbove zero path other = Unit
  OtherAbove (suc fuel) path other =
      OtherFrom (λ leading. OtherAbove fuel leading other) (leading_path path) other

  -- What does not show in `other`, nor in the descriptors.
  abbrev pub Unseen : Text → sys.State → sys.State → Type 0
  Unseen other s t = (view.node t other ≡ view.node s other) × SameHandles view s t

  Unseen-refl : (other : Text) (s : sys.State) → Unseen other s s
  Unseen-refl other s = (refl, λ fd. refl)

module _ {sys : Calls} {view : View sys} (posix : IsPosix sys view) where
  make_parent-Unseen :
      (leading other : Text) (s t : sys.State)
      → view.Other leading other
      → Unseen view other s t
      → Unseen view other s (make_parent sys leading t).1
  unfolding make_parent
  make_parent-Unseen leading other s t apart (kept, handles) =
      let call = posix.mkdir_call leading 511 t in
      (call.0 other apart ∙ kept, λ fd. call.1 fd ∙ handles fd)

  found_dir :
      (fuel : ℕ) (path leading other : Text) (s : sys.State) (format : Format)
      → leading_path path ≡ some leading
      → sys.stat s leading ≡ some format
      → Unseen view other s (create_parents sys (suc fuel) path s).1
  unfolding create_parents
  found_dir fuel path leading other s s_ifdir e k =
      rw (e, k, create_parents) (Unseen-refl view other s)
  found_dir fuel path leading other s s_ifreg e k =
      rw (e, k, create_parents) (Unseen-refl view other s)
  found_dir fuel path leading other s s_iflnk e k =
      rw (e, k, create_parents) (Unseen-refl view other s)
  found_dir fuel path leading other s s_other e k =
      rw (e, k, create_parents) (Unseen-refl view other s)

  pub create_parents-Unseen :
      (fuel : ℕ) (path other : Text) (s : sys.State)
      → OtherAbove view fuel path other
      → Unseen view other s (create_parents sys fuel path s).1
  unfolding create_parents OtherAbove
  create_parents-Unseen zero path other s apart = Unseen-refl view other s
  create_parents-Unseen (suc fuel) path other s apart = elim (Option-cases (leading_path path)) [
    | inl e ↦ rw (e, create_parents) (Unseen-refl view other s)
    | inr (leading, e) ↦
        let both : view.Other leading other × OtherAbove view fuel leading other =
          subst (λ o. OtherFrom view (λ l. OtherAbove view fuel l other) o other) e apart in
        let above = create_parents-Unseen fuel leading other s both.1 in
        let t = (create_parents sys fuel leading s).1 in
        elim (Option-cases (sys.stat s leading)) [
          | inr (format, k) ↦ found_dir fuel path leading other s format e k
          | inl k ↦ elim (Bool-cases (create_parents sys fuel leading s).0) [
            | inl b ↦
                rw (e, k, b, create_parents, ◌and_then◌)
                  (make_parent-Unseen leading other s t both.0 above)
            | inr b ↦ rw (e, k, b, create_parents, ◌and_then◌) above
          ]
        ]
  ]

-- The length of the path is fuel enough: no path has more paths above it.
pub create_parents_enough :
    (sys : Calls) (more fuel : ℕ) (path : Text) (s : sys.State)
    → length path ≤ fuel
    → fuel ≤ more
    → create_parents sys more path s ≡ create_parents sys fuel path s
unfolding create_parents
create_parents_enough sys zero zero path s short below = refl
create_parents_enough sys (suc more) zero path s short below =
    elim (Option-cases (leading_path path)) [
      | inl e ↦ rw (e, create_parents) refl
      | inr (leading, e) ↦ absurd (omega (arith, leading_path-length path leading e))
    ]
create_parents_enough sys zero (suc fuel) path s short below = absurd (omega arith)
create_parents_enough sys (suc more) (suc fuel) path s short below =
    elim (Option-cases (leading_path path)) [
      | inl e ↦ rw (e, create_parents) refl
      | inr (leading, e) ↦
          let shorter = leading_path-length path leading e in
          let rest =
            create_parents_enough sys more fuel leading s (omega (arith, shorter)) (omega arith) in
          rw (e, create_parents) (ground (arith, rest))
    ]
