-- ===== src/Undo/Modify.antt =====
-- `modifyAllTypes` once the parents are there: the content, the mode and the owner that it gives back.
use ok_snap.Undo.Calls.{
  Calls, View, Inode, Body, regular, directory, link, special, FileStat, stat_of, mode_of,
  format_of, s_ifdir,
}
use ok_snap.Undo.Posix.{IsPosix, is_link, with_perm, with_owner, keeps_mode}
use ok_snap.Undo.Defs.{
  modify_as, modify_content, act_if, delete_all_types, create_file, create_link, ◌and_then◌,
}
use ok_snap.Undo.Delete.{delete_all_types-Gone, is_special}
use ok_snap.Undo.Create.{Restored, can_restore, create_link-Made, create_regular-Made}
use ok_snap.Undo.Spec.{Spec, Call-refl, spec_then, Holds}
use ok_snap.Files.Status.{content, permissions, user, group}
use ok_snap.Base.{
  ℕ, bit_or, ◌≡◌, refl, ap, ◌∙◌, ◌≢◌, ◌⊎◌, inl, inr, Bool, true, false, none, some, arith,
  if◌then◌else◌, has, Text,
}

moded_Alike :
    (i j : Inode)
    → is_link (some i) ≡ false
    → stat_of i ≡ stat_of j
    → stat_of (with_perm (mode_of j) i) ≡ stat_of j
moded_Alike i j plain a =
    let mode : mode_of (with_perm (mode_of j) i) ≡ mode_of j = ground arith in
    rw mode (ap (λ (fs : FileStat). record fs { mode = mode_of j }) a)

owned_Alike :
    (i j : Inode) → stat_of i ≡ stat_of j → stat_of (with_owner j.owner j.owner_group i) ≡ stat_of j
owned_Alike i j a = ap (λ (fs : FileStat). record fs { uid = j.owner; gid = j.owner_group }) a

restorable_keeps :
    (i j : Inode)
    → i.body ≡ j.body
    → stat_of i ≡ stat_of j
    → can_restore j ≡ true
    → keeps_mode i ≡ true
restorable_keeps i j b a can = ground (arith, ap (λ (fs : FileStat). fs.mode) a)

module _ {sys : Calls} {view : View sys} (posix : IsPosix sys view) (p q : Text) where
  -- The snapshot has this, and it is apart from the path.
  abbrev pub InSnapshot : Inode → sys.State → Type 0
  InSnapshot j s = view.Apart p q × (view.node s q ≡ some j) × (can_restore j ≡ true)

  Gone : sys.State → Type 0
  Gone t = view.node t p ≡ none

  modify_body-Restored :
      (fuel : ℕ) (j : Inode) (s : sys.State) (body : Body)
      → j.body ≡ body
      → (format_of body ≢ s_ifdir)
      → InSnapshot j s
      → is_special (view.node s p) ≡ false
      → Spec view p s
          (modify_content sys fuel q p (stat_of j) (format_of body))
          (Restored posix p q j)
  unfolding modify_content
  modify_body-Restored fuel j s directory b no_dir (apart, there, can) plain = absurd (no_dir refl)
  modify_body-Restored fuel j s special b no_dir (apart, there, can) plain =
      absurd (ground (arith, b, can))
  modify_body-Restored fuel j s (regular text) b no_dir (apart, there, can) plain =
      let gone = delete_all_types-Gone posix p s plain in
      spec_then view p s (delete_all_types sys p) (create_file sys fuel q p (stat_of j))
        (Holds view p none) (Restored posix p q j) gone
        (λ free.
          create_regular-Made posix p q fuel j text (delete_all_types sys p s).1 apart
            (gone.0.0 q apart ∙ there) b (ground (arith, b, can)) free)
  modify_body-Restored fuel j s (link target) b no_dir (apart, there, can) plain =
      let gone = delete_all_types-Gone posix p s plain in
      spec_then view p s (delete_all_types sys p) (create_link sys q p (stat_of j))
        (Holds view p none) (Restored posix p q j) gone
        (λ free.
          create_link-Made posix p q j target (delete_all_types sys p s).1
            (gone.0.0 q apart ∙ there) b (ground (arith, b, can)))

  mode_Restored :
      (test : Bool) (j : Inode) (s : sys.State)
      → (test ≡ true → is_link (some j) ≡ false)
      → Restored posix p q j s
      → Spec view p s (act_if test (sys.chmod p (mode_of j))) (Restored posix p q j)
  mode_Restored false j s no_link now = (Call-refl view p s, λ yes. now)
  mode_Restored true j s no_link (i, here, (b, a)) =
      let plain : is_link (some i) ≡ false = rw b (no_link refl) in
      (
        posix.chmod_call p (mode_of j) s (ap is_link here ∙ plain),
        λ yes. (
          with_perm (mode_of j) i,
          posix.chmod_done p (mode_of j) s i here plain yes,
          (b, moded_Alike i j plain a),
        ),
      )

  lchown_Restored :
      (test : Bool) (j : Inode) (s : sys.State)
      → can_restore j ≡ true
      → Restored posix p q j s
      → Spec view p s (act_if test (sys.lchown p j.owner j.owner_group)) (Restored posix p q j)
  lchown_Restored false j s can now = (Call-refl view p s, λ yes. now)
  lchown_Restored true j s can (i, here, (b, a)) = (
    posix.lchown_call p j.owner j.owner_group s,
    λ yes. (
      with_owner j.owner j.owner_group i,
      posix.lchown_done p j.owner j.owner_group s i here (restorable_keeps i j b a can) yes,
      (b, owned_Alike i j a),
    ),
  )

  -- What is asked of the path before `modifyAllTypes` gives its content back: that it is there
  -- already, or that its content is to be made again and can be removed first.
  abbrev pub Starting : Inode → ℕ → sys.State → Type 0
  Starting j status s =
      ((has status content ≡ true)
        × (format_of j.body ≢ s_ifdir)
        × (is_special (view.node s p) ≡ false))
      ⊎ ((has status content ≡ false) × Restored posix p q j s)

  content_Restored :
      (fuel : ℕ) (j : Inode) (status : ℕ) (s : sys.State)
      → InSnapshot j s
      → Starting j status s
      → Spec view p s
          (act_if (has status content) (modify_content sys fuel q p (stat_of j) (format_of j.body)))
          (Restored posix p q j)
  content_Restored fuel j status s there (inr (none_asked, now)) =
      rw none_asked (Call-refl view p s, λ yes. now)
  content_Restored fuel j status s there (inl (asked, no_dir, plain)) =
      rw asked (modify_body-Restored fuel j s j.body refl no_dir there plain)

  -- After the content, the mode and the owner the path is as it was in the snapshot.
  pub modify_as-Restored :
      (fuel : ℕ) (j : Inode) (status : ℕ) (s : sys.State)
      → InSnapshot j s
      → Starting j status s
      → (has status permissions ≡ true → is_link (some j) ≡ false)
      → Spec view p s (modify_as sys fuel q p status (stat_of j)) (Restored posix p q j)
  unfolding modify_as
  modify_as-Restored fuel j status s there start no_link =
      let fs = stat_of j in
      let Done = Restored posix p q j in
      let write = act_if (has status content) (modify_content sys fuel q p fs fs.format) in
      let moding = act_if (has status permissions) (sys.chmod p fs.mode) in
      let owning = act_if (has status (bit_or user group)) (sys.lchown p fs.uid fs.gid) in
      spec_then view p s write (moding and_then owning) Done Done
        (content_Restored fuel j status s there start)
        (λ written.
          spec_then view p (write s).1 moding owning Done Done
            (mode_Restored (has status permissions) j (write s).1 no_link written)
            (λ moded.
              lchown_Restored (has status (bit_or user group)) j (moding (write s).1).1 there.2
                moded))

  -- What a change of the mode and the owner alone gives back to what is there.
  abbrev pub attributes : ℕ → Inode → Inode → Inode
  attributes status j i = record {
    body = i.body;
    perm = if has status permissions then mode_of j else i.perm;
    owner = if has status (bit_or user group) then j.owner else i.owner;
    owner_group = if has status (bit_or user group) then j.owner_group else i.owner_group;
  }

  chmod_if :
      (test : Bool) (mode : ℕ) (i : Inode) (s : sys.State)
      → view.node s p ≡ some i
      → is_link (some i) ≡ false
      → Spec view p s
          (act_if test (sys.chmod p mode))
          (Holds view p (some (record i { perm = if test then mode else i.perm })))
  chmod_if true mode i s here plain = (
    posix.chmod_call p mode s (ap is_link here ∙ plain),
    λ yes. posix.chmod_done p mode s i here plain yes,
  )
  chmod_if false mode i s here plain = (Call-refl view p s, λ yes. here)

  lchown_if :
      (test : Bool) (u g : ℕ) (i : Inode) (s : sys.State)
      → view.node s p ≡ some i
      → keeps_mode i ≡ true
      → Spec view p s (act_if test (sys.lchown p u g)) (
          Holds view p (
            some (record i {
              owner = if test then u else i.owner;
              owner_group = if test then g else i.owner_group;
            })))
  lchown_if true u g i s here keeps =
      (posix.lchown_call p u g s, λ yes. posix.lchown_done p u g s i here keeps yes)
  lchown_if false u g i s here keeps = (Call-refl view p s, λ yes. here)

  -- Without a change of content the path keeps it, and gets the mode and the owner that differ.
  pub modify_as-attributes :
      (fuel : ℕ) (i j : Inode) (status : ℕ) (s : sys.State)
      → view.node s p ≡ some i
      → is_link (some i) ≡ false
      → has status content ≡ false
      → keeps_mode (attributes status j i) ≡ true
      → Spec view p s
          (modify_as sys fuel q p status (stat_of j))
          (Holds view p (some (attributes status j i)))
  unfolding modify_as
  modify_as-attributes fuel i j status s here plain none_asked keeps =
      let moding = act_if (has status permissions) (sys.chmod p (mode_of j)) in
      let owning = act_if (has status (bit_or user group)) (sys.lchown p j.owner j.owner_group) in
      let moded = record i { perm = if has status permissions then mode_of j else i.perm } in
      rw none_asked (
        spec_then view p s moding owning (Holds view p (some moded))
          (Holds view p (some (attributes status j i)))
          (chmod_if (has status permissions) (mode_of j) i s here plain)
          (λ now.
            lchown_if (has status (bit_or user group)) j.owner j.owner_group moded (moding s).1 now
              keeps))
