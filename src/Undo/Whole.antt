-- ===== src/Undo/Whole.antt =====
-- `File::doUndo` as a whole: a file that was created is gone, one that was deleted, replaced or
-- changed is as it was, and nothing else is touched but what is missing above it.
use ok_snap.Undo.Calls.{Calls, View, Inode, FileStat, stat_of, format_of, found}
use ok_snap.Undo.Posix.{IsPosix, SameHandles, is_link}
use ok_snap.Undo.Defs.{
  create_all_types, modify_all_types, modify_as, create_kind, create_parent_directories,
  create_parents, ◌and_then◌, Act, act_if,
}
use ok_snap.Undo.Delete.{is_special, Lstat-cases}
use ok_snap.Undo.Parents.{OtherAbove, create_parents-Unseen}
use ok_snap.Undo.Create.{Restored, create_body-Made}
use ok_snap.Undo.Modify.{InSnapshot, Starting, modify_as-Restored}
use ok_snap.Undo.Spec.{Spec}
use ok_snap.Files.Status.{permissions}
use ok_snap.Base.{
  ℕ, ◌≡◌, refl, ap, ◌∙◌, inl, inr, Bool, true, false, false≢true, none, some, arith, Bool-cases,
  has, length, Text,
}

module _ {sys : Calls} (view : View sys) (p q : Text) where
  -- The path in the system and the one in the snapshot are apart from each other, and what is above
  -- the former is neither of the two.
  pub record Separate : Type 0 where
    pub apart : view.Apart p q
    pub below : OtherAbove view (length p) p p
    pub beside : OtherAbove view (length p) p q

  -- Nothing is touched but the path and what is above it.
  abbrev pub Wide : sys.State → sys.State → Type 0
  Wide s t =
      ((other : Text)
        → view.Apart p other
        → OtherAbove view (length p) p other
        → view.node t other ≡ view.node s other)
      × SameHandles view s t

  abbrev pub WideSpec : sys.State → Act sys.State → (sys.State → Type 0) → Type 0
  WideSpec s act Done = Wide s (act s).1 × ((act s).0 ≡ true → Done (act s).1)

  pub Wide-refl : (s : sys.State) → Wide s s
  Wide-refl s = (λ other far up. refl, λ fd. refl)

  pub Wide-trans : {s t u : sys.State} → Wide s t → Wide t u → Wide s u
  Wide-trans first next =
      (λ other far up. next.0 other far up ∙ first.0 other far up, λ fd. next.1 fd ∙ first.1 fd)

  pub wide_of :
      (s : sys.State) (act : Act sys.State) (Done : sys.State → Type 0)
      → Spec view p s act Done
      → WideSpec s act Done
  wide_of s act Done spec = ((λ other far up. spec.0.0 other far, spec.0.1), spec.1)

module _ {sys : Calls} {view : View sys} (posix : IsPosix sys view) (p q : Text) where
  -- What the parents leave alone: the path, its counterpart and the descriptors.
  parents_then :
      (s : sys.State) (act : Act sys.State) (Done : sys.State → Type 0)
      → Separate view p q
      → ((t : sys.State)
          → view.node t p ≡ view.node s p
          → view.node t q ≡ view.node s q
          → Spec view p t act Done)
      → WideSpec view p q s (create_parent_directories sys p and_then act) Done
  unfolding create_parent_directories
  parents_then s act Done separate next =
      let t = (create_parents sys (length p) p s).1 in
      let above : Wide view p q s t = (
        λ other far up. (create_parents-Unseen posix (length p) p other s up).0,
        (create_parents-Unseen posix (length p) p p s separate.below).1,
      ) in
      let after = wide_of view p q t act Done (
        next t (create_parents-Unseen posix (length p) p p s separate.below).0
          (above.0 q separate.apart separate.beside)) in
      elim (Bool-cases (create_parents sys (length p) p s).0) [
        | inr e ↦ rw (e, ◌and_then◌) (above, λ no. absurd (false≢true no))
        | inl e ↦ rw (e, ◌and_then◌) (Wide-trans view p q above after.0, after.1)
      ]

  stat_in_snapshot :
      (s : sys.State) (j : Inode) (fs : FileStat)
      → view.node s q ≡ some j
      → sys.lstat s q ≡ found fs
      → fs ≡ stat_of j
  stat_in_snapshot s j fs there e =
      let (i, here, same) = posix.lstat_found s q fs e in ground (arith, here, there, same)

  pub create_all_types-Restored :
      (fuel : ℕ) (j : Inode) (s : sys.State)
      → Separate view p q
      → InSnapshot posix p q j s
      → view.node s p ≡ none
      → WideSpec view p q s (create_all_types sys fuel q p) (Restored posix p q j)
  unfolding create_all_types
  create_all_types-Restored fuel j s separate (apart, there, can) free =
      elim (Lstat-cases (sys.lstat s q)) [
        | inr (errno, e) ↦
            rw (e, create_all_types) (Wide-refl view p q s, λ no. absurd (false≢true no))
        | inl (fs, e) ↦
            let same = stat_in_snapshot s j fs there e in
            rw (e, create_all_types, same)
              (parents_then s (create_kind sys fuel q p (stat_of j) (format_of j.body))
                (Restored posix p q j) separate
                (λ t here beside.
                  create_body-Made posix p q fuel j t j.body refl apart (beside ∙ there) can
                    (here ∙ free)))
      ]

  pub modify_stage :
      (fuel status : ℕ) (j : Inode) (s : sys.State) (Done : sys.State → Type 0)
      → Separate view p q
      → view.node s q ≡ some j
      → ((t : sys.State)
          → view.node t p ≡ view.node s p
          → view.node t q ≡ view.node s q
          → Spec view p t (modify_as sys fuel q p status (stat_of j)) Done)
      → WideSpec view p q s (modify_all_types sys fuel q p status) Done
  unfolding modify_all_types
  modify_stage fuel status j s Done separate there next = elim (Lstat-cases (sys.lstat s q)) [
    | inr (errno, e) ↦ rw (e, modify_all_types) (Wide-refl view p q s, λ no. absurd (false≢true no))
    | inl (fs, e) ↦
        let same = stat_in_snapshot s j fs there e in
        rw (e, modify_all_types, same)
          (parents_then s (modify_as sys fuel q p status (stat_of j)) Done separate next)
  ]

  still_Starting :
      (status : ℕ) (j : Inode) (s t : sys.State)
      → view.node t p ≡ view.node s p
      → Starting posix p q j status s
      → Starting posix p q j status t
  still_Starting status j s t here (inl (asked, no_dir, plain)) =
      inl (asked, no_dir, ap is_special here ∙ plain)
  still_Starting status j s t here (inr (none_asked, (i, now, alike))) =
      inr (none_asked, (i, here ∙ now, alike))

  -- `modifyAllTypes` on a path that is there already or whose content is to be made again.
  pub modify_all_types-Restored :
      (fuel status : ℕ) (j : Inode) (s : sys.State)
      → Separate view p q
      → InSnapshot posix p q j s
      → Starting posix p q j status s
      → (has status permissions ≡ true → is_link (some j) ≡ false)
      → WideSpec view p q s (modify_all_types sys fuel q p status) (Restored posix p q j)
  modify_all_types-Restored fuel status j s separate (apart, there, can) start no_link =
      modify_stage fuel status j s (Restored posix p q j) separate there (λ t here beside.
        modify_as-Restored posix p q fuel j status t (apart, beside ∙ there, can)
          (still_Starting status j s t here start) no_link)

  -- A part that is skipped returns true and changes nothing.
  pub act_if-Wide :
      (test : Bool) (act : Act sys.State) (s : sys.State) (Done : sys.State → Type 0)
      → (test ≡ true → WideSpec view p q s act Done)
      → (test ≡ false → Done s)
      → WideSpec view p q s (act_if test act) Done
  act_if-Wide true act s Done asked skipped = asked refl
  act_if-Wide false act s Done asked skipped = (Wide-refl view p q s, λ yes. skipped refl)
