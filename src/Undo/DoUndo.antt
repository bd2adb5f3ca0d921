-- ===== src/Undo/DoUndo.antt =====
-- `File::doUndo`: its three parts, in the states that they leave to each other.
use ok_snap.Undo.Calls.{Calls, View, Inode, format_of, s_ifdir}
use ok_snap.Undo.Posix.{IsPosix, is_link, keeps_mode, Call}
use ok_snap.Undo.Defs.{
  create_all_types, modify_all_types, Act, act_if, undo_status, and_also, delete_all_types,
}
use ok_snap.Undo.Delete.{delete_all_types-Gone, is_special}
use ok_snap.Undo.Create.{Restored}
use ok_snap.Undo.Modify.{InSnapshot, Starting, attributes, modify_as-attributes}
use ok_snap.Undo.Whole.{
  Separate, Wide, WideSpec, wide_of, Wide-trans, act_if-Wide, create_all_types-Restored,
  modify_all_types-Restored, modify_stage,
}
use ok_snap.Undo.Status.{
  is_remade, asks_create, asks_delete, asks_modify, content_alone, content_asked, unasked_flags,
}
use ok_snap.Undo.Spec.{Holds}
use ok_snap.Files.Status.{created, deleted, content, permissions, is_clean}
use ok_snap.Base.{
  ℕ, ◌≡◌, refl, sym, ap, ◌∙◌, subst, ◌≢◌, inl, inr, Bool, true, false, false≢true, none, some,
  arith, Bool-cases, has, Text,
}

also_true :
    {S : Type 0} (first next : Act S) (s : S)
    → (and_also first next s).0 ≡ true
    → ((first s).0 ≡ true) × ((next (first s).1).0 ≡ true)
also_true first next s h = (ground arith, ground arith)

skip :
    {S : Type 0} (test : Bool) (act : Act S) (s : S) → test ≡ false → act_if test act s ≡ (true, s)
skip test act s h = rw h refl

-- A first part that is skipped leaves the second.
also_skipped :
    {S : Type 0} (first next : Act S) (s : S) → first s ≡ (true, s) → and_also first next s ≡ next s
also_skipped first next s h = rw h refl

module _ {sys : Calls} {view : View sys} (posix : IsPosix sys view) (p q : Text) (fuel status : ℕ)
    (j : Inode) where
  -- What is under the path once the first part is done.
  abbrev AfterDelete : sys.State → sys.State → Type 0
  AfterDelete s t =
      (is_special (view.node t p) ≡ false)
      × (asks_delete status ≡ true → view.node t p ≡ none)
      × (asks_delete status ≡ false → view.node t p ≡ view.node s p)

  delete_stage :
      (s : sys.State)
      → Separate view p q
      → is_special (view.node s p) ≡ false
      → WideSpec view p q s (act_if (asks_delete status) (delete_all_types sys p)) (AfterDelete s)
  delete_stage s separate plain =
      act_if-Wide posix p q (asks_delete status) (delete_all_types sys p) s (AfterDelete s)
        (λ asked.
          let gone = delete_all_types-Gone posix p s plain in
          let wide = wide_of view p q s (delete_all_types sys p) (Holds view p none) gone in
          (
            wide.0,
            λ yes. (
              ap is_special (gone.1 yes),
              (λ e. gone.1 yes),
              λ no. absurd (false≢true (sym no ∙ asked)),
            ),
          ))
        (λ skipped. (plain, (λ asked. absurd (false≢true (sym skipped ∙ asked))), λ e. refl))

  abbrev AfterCreate : sys.State → sys.State → Type 0
  AfterCreate t u =
      (asks_create status ≡ true → Restored posix p q j u)
      × (asks_create status ≡ false → view.node u p ≡ view.node t p)

  create_stage :
      (t : sys.State)
      → Separate view p q
      → InSnapshot posix p q j t
      → (asks_create status ≡ true → view.node t p ≡ none)
      → WideSpec view p q t
          (act_if (asks_create status) (create_all_types sys fuel q p))
          (AfterCreate t)
  create_stage t separate there free =
      act_if-Wide posix p q (asks_create status) (create_all_types sys fuel q p) t (AfterCreate t)
        (λ asked.
          let made = create_all_types-Restored posix p q fuel j t separate there (free asked) in
          (made.0, λ yes. ((λ e. made.1 yes), λ no. absurd (false≢true (sym no ∙ asked)))))
        (λ skipped. ((λ asked. absurd (false≢true (sym skipped ∙ asked))), λ e. refl))

  free_for_create :
      (s t : sys.State)
      → AfterDelete s t
      → (has status deleted ≡ true → view.node s p ≡ none)
      → asks_create status ≡ true
      → view.node t p ≡ none
  free_for_create s t (plain, gone, kept) free asked = elim (Bool-cases (asks_delete status)) [
    | inl e ↦ gone e
    | inr e ↦ kept e ∙ free (ground arith)
  ]

  -- With the content to be made again no other part is asked for; without it the path is restored.
  Starting-at :
      (s t u : sys.State)
      → is_clean status ≡ true
      → is_remade status ≡ true
      → (has status content ≡ true → format_of j.body ≢ s_ifdir)
      → AfterDelete s t
      → AfterCreate t u
      → Starting posix p q j status u
  Starting-at s t u clean remade no_dir (plain, gone, kept) (restored, same) =
      elim (Bool-cases (has status content)) [
        | inl e ↦
            let alone = content_alone status clean e in
            inl (e, no_dir e, ap is_special (same alone.1) ∙ plain)
        | inr e ↦ inr (e, restored (ground arith))
      ]

  Restored-now :
      (u : sys.State)
      → is_clean status ≡ true
      → Starting posix p q j status u
      → asks_modify status ≡ false
      → Restored posix p q j u
  Restored-now u clean (inr (e, now)) none_asked = now
  Restored-now u clean (inl (e, no_dir, plain)) none_asked =
      absurd (false≢true (sym none_asked ∙ (content_alone status clean e).0))

  InSnapshot-still :
      (s t : sys.State)
      → Separate view p q
      → InSnapshot posix p q j s
      → Wide view p q s t
      → InSnapshot posix p q j t
  InSnapshot-still s t separate (apart, there, can) wide =
      (apart, wide.0 q separate.apart separate.beside ∙ there, can)

  pub undo_status-Restored :
      (s : sys.State)
      → Separate view p q
      → InSnapshot posix p q j s
      → is_special (view.node s p) ≡ false
      → is_clean status ≡ true
      → is_remade status ≡ true
      → (has status deleted ≡ true → view.node s p ≡ none)
      → (has status content ≡ true → format_of j.body ≢ s_ifdir)
      → (has status permissions ≡ true → is_link (some j) ≡ false)
      → (undo_status sys fuel q p status s).0 ≡ true
      → Wide view p q s (undo_status sys fuel q p status s).1
        × Restored posix p q j (undo_status sys fuel q p status s).1
  unfolding undo_status
  undo_status-Restored s separate there plain clean remade free no_dir no_link done =
      let removing = act_if (asks_delete status) (delete_all_types sys p) in
      let making = act_if (asks_create status) (create_all_types sys fuel q p) in
      let changing = act_if (asks_modify status) (modify_all_types sys fuel q p status) in
      let t = (removing s).1 in
      let u = (making t).1 in
      let first = also_true removing (and_also making changing) s done in
      let second = also_true making changing t first.1 in
      let removed = delete_stage s separate plain in
      let after = removed.1 first.0 in
      let there_t = InSnapshot-still s t separate there removed.0 in
      let made = create_stage t separate there_t (free_for_create s t after free) in
      let start = Starting-at s t u clean remade no_dir after (made.1 second.0) in
      let changed =
        act_if-Wide posix p q (asks_modify status) (modify_all_types sys fuel q p status) u
          (Restored posix p q j)
          (λ asked.
            modify_all_types-Restored posix p q fuel status j u separate
              (InSnapshot-still t u separate there_t made.0) start no_link)
          (Restored-now u clean start) in
      (Wide-trans view p q (Wide-trans view p q removed.0 made.0) changed.0, changed.1 second.1)

  pub undo_status-attributes :
      (i : Inode) (s : sys.State)
      → Separate view p q
      → view.node s q ≡ some j
      → view.node s p ≡ some i
      → is_link (some i) ≡ false
      → keeps_mode (attributes posix p q status j i) ≡ true
      → is_clean status ≡ true
      → is_remade status ≡ false
      → has status created ≡ false
      → (undo_status sys fuel q p status s).0 ≡ true
      → Wide view p q s (undo_status sys fuel q p status s).1
        × (view.node (undo_status sys fuel q p status s).1 p
            ≡ some (attributes posix p q status j i))
  unfolding undo_status
  undo_status-attributes i s separate there here plain keeps clean same old done =
      let Done = Holds view p (some (attributes posix p q status j i)) in
      let making = act_if (asks_create status) (create_all_types sys fuel q p) in
      let changing = act_if (asks_modify status) (modify_all_types sys fuel q p status) in
      let no_delete : asks_delete status ≡ false = ground arith in
      let no_create : asks_create status ≡ false = ground arith in
      let changed =
        act_if-Wide posix p q (asks_modify status) (modify_all_types sys fuel q p status) s Done
          (λ asked. modify_stage posix p q fuel status j s Done separate there (λ t at beside.
            modify_as-attributes posix p q fuel i j status t (at ∙ here) plain
              (content_asked status same) keeps))
          (λ skipped.
            let (no_mode, no_owner) = unasked_flags status clean skipped in
            here ∙ rw no_mode (rw no_owner refl)) in
      let alone : undo_status sys fuel q p status s ≡ changing s =
        also_skipped (act_if (asks_delete status) (delete_all_types sys p))
          (and_also making changing) s
          (skip (asks_delete status) (delete_all_types sys p) s no_delete)
        ∙ also_skipped making changing s
            (skip (asks_create status) (create_all_types sys fuel q p) s no_create) in
      subst (λ r. Wide view p q s r.1 × Done r.1) (sym alone)
        (changed.0, changed.1 (sym (ap (λ r. r.0) alone) ∙ done))

module _ {sys : Calls} {view : View sys} (posix : IsPosix sys view) (p q : Text) (fuel : ℕ) where
  pub undo_created-Gone :
      (status : ℕ) (s : sys.State)
      → status ≡ created
      → is_special (view.node s p) ≡ false
      → (undo_status sys fuel q p status s).0 ≡ true
      → Call view p s (undo_status sys fuel q p status s).1
        × (view.node (undo_status sys fuel q p status s).1 p ≡ none)
  unfolding undo_status
  undo_created-Gone status s fresh plain done =
      let gone = delete_all_types-Gone posix p s plain in
      let t = (delete_all_types sys p s).1 in
      let removed : (undo_status sys fuel q p status s).1 ≡ t =
        ap (λ c. (undo_status sys fuel q p c s).1) fresh in
      let ok : (delete_all_types sys p s).0 ≡ true =
        (also_true (delete_all_types sys p) (λ u. (true, u)) s
          (ap (λ c. (undo_status sys fuel q p c s).0) (sym fresh) ∙ done)).0 in
      subst (λ u. Call view p s u × (view.node u p ≡ none)) (sym removed) (gone.0, gone.1 ok)
