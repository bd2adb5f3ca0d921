-- ===== src/Undo/Create.antt =====
-- `createAllTypes` makes what is in the snapshot: a directory, a file or a link.
use ok_snap.Undo.Calls.{
  Calls, View, Inode, regular, directory, link, special, FileStat, stat_of, Errno, success, eexist,
  enoent, other_errno, format_of, Body,
}
use ok_snap.Undo.Posix.{IsPosix, is_plain, is_link, with_perm, with_owner}
use ok_snap.Undo.Defs.{
  create_directory, after_mkdir, create_link, read_link, create_kind, ◌and_then◌, Act, create_file,
}
use ok_snap.Undo.CreateFile.{create_file-Created}
use ok_snap.Undo.Spec.{Spec, spec_then, Holds}
use ok_snap.Base.{
  ℕ, zero, suc, ◌≤◌, ◌≡◌, refl, sym, ap, ◌∙◌, subst, ◌⊎◌, inl, inr, Bool, true, false, false≢true,
  none, some, [], ◌∷◌, arith, ltb, leb, Option-cases, length, Text,
}
use ok_snap.Undo.Delete.{Errno-cases}
use ok_snap.Compare.Content.{take}

take_all : (n : ℕ) (s : Text) → length s ≤ n → take n s ≡ s
unfolding take
take_all zero [] h = refl
take_all zero (c ∷ s) h = absurd (omega arith)
take_all (suc n) [] h = refl
take_all (suc n) (c ∷ s) h = let ih = take_all n s (omega (arith, h)) in ap (λ t. c ∷ t) ih

-- What can be made again: no special file, no file with the set-user-ID or set-group-ID bit, no link
-- whose target is longer than the buffer that it is read into.
abbrev pub can_restore : Inode → Bool
can_restore i = elim i.body [
  | directory ↦ true
  | regular content ↦ ltb i.perm 1024
  | link target ↦ leb (length target) 1024
  | special ↦ false
]

-- What `lstat` tells and what is in the file are the same.
abbrev pub Alike : Inode → Inode → Type 0
Alike i j = (i.body ≡ j.body) × (stat_of i ≡ stat_of j)

module _ {sys : Calls} {view : View sys} (posix : IsPosix sys view) (p q : Text) where
  -- Under the path is what is in the snapshot.
  abbrev pub Restored : Inode → sys.State → Type 0
  Restored j t = (i : Inode) × (view.node t p ≡ some i) × Alike i j

  abbrev Directory : sys.State → Type 0
  Directory t =
      (view.node t p ≡ none) ⊎ ((i : Inode) × (view.node t p ≡ some i) × (i.body ≡ directory))

  abbrev making : ℕ → Act sys.State
  making mode t = after_mkdir sys p (sys.mkdir p mode t).0 (sys.mkdir p mode t).1

  after_mkdir-state : (errno : Errno) (t : sys.State) → (after_mkdir sys p errno t).1 ≡ t
  unfolding after_mkdir
  after_mkdir-state success t = refl
  after_mkdir-state eexist t = refl
  after_mkdir-state enoent t = refl
  after_mkdir-state other_errno t = refl

  making-Directory :
      (s : sys.State) (mode : ℕ) → view.node s p ≡ none → Spec view p s (making mode) Directory
  making-Directory s mode free =
      let r = sys.mkdir p mode s in
      let made : Directory r.1 = elim (Errno-cases r.0) [
        | inl e ↦ inr (posix.mkdir_made p mode s e)
        | inr e ↦ inl (posix.mkdir_failed p mode s e ∙ free)
      ] in
      let call = posix.mkdir_call p mode s in
      rw (after_mkdir-state r.0 r.1)
        ((λ o apart. call.0 o (posix.apart_other p o apart), call.1), λ yes. made)

  abbrev Moded : FileStat → sys.State → Type 0
  Moded fs t = (i : Inode) × (view.node t p ≡ some i) × (i.body ≡ directory) × (i.perm ≡ fs.mode)

  own_directory :
      (fs : FileStat) (s : sys.State) (i : Inode)
      → view.node s p ≡ some i
      → i.body ≡ directory
      → Spec view p s (sys.chown p fs.uid fs.gid) (Holds view p (some (with_owner fs.uid fs.gid i)))
  own_directory fs s i here b =
      let no_link : is_link (some i) ≡ false = ground arith in
      (
        posix.chown_call p fs.uid fs.gid s (ap is_link here ∙ no_link),
        posix.chown_done p fs.uid fs.gid s i here no_link (ground arith),
      )

  chmod-Directory :
      (fs : FileStat) (s : sys.State) → Directory s → Spec view p s (sys.chmod p fs.mode) (Moded fs)
  chmod-Directory fs s (inl free) = (
    posix.chmod_call p fs.mode s (ap is_link free),
    λ yes. absurd (false≢true (sym (posix.chmod_none p fs.mode s free) ∙ yes)),
  )
  chmod-Directory fs s (inr (i, here, b)) =
      let no_link : is_link (some i) ≡ false = ground arith in
      (
        posix.chmod_call p fs.mode s (ap is_link here ∙ no_link),
        λ yes. (with_perm fs.mode i, posix.chmod_done p fs.mode s i here no_link yes, b, refl),
      )

  create_directory-Made :
      (j : Inode) (s : sys.State)
      → j.body ≡ directory
      → view.node s p ≡ none
      → Spec view p s (create_directory sys p (stat_of j)) (Restored j)
  unfolding create_directory
  create_directory-Made j s d free =
      let fs = stat_of j in
      let rest = sys.chmod p fs.mode and_then sys.chown p fs.uid fs.gid in
      let start = making-Directory s 0 free in
      spec_then view p s (making 0) rest Directory (Restored j) start (λ made.
        let t = (making 0 s).1 in
        spec_then view p t (sys.chmod p fs.mode) (sys.chown p fs.uid fs.gid) (Moded fs) (Restored j)
          (chmod-Directory fs t made)
          (λ moded.
            let (i, here, b, m) = moded in
            let owned = own_directory fs (sys.chmod p fs.mode t).1 i here b in
            (
              owned.0,
              λ yes.
                  (with_owner fs.uid fs.gid i, owned.1 yes, (b ∙ sym d, ground (arith, b, d, m))),
            )))

  symlink_target :
      (j : Inode) (target : Text) (s : sys.State)
      → view.node s q ≡ some j
      → j.body ≡ link target
      → length target ≤ 1024
      → (sys.symlink (read_link sys s q) p s).0 ≡ true
      → read_link sys s q ≡ target
  unfolding read_link
  symlink_target j target s there b short made = elim (Option-cases (sys.readlink s q 1024)) [
    | inl e ↦
        let empty : read_link sys s q ≡ [] = rw (e, read_link) refl in
        let made_empty = subst (λ text. (sys.symlink text p s).0 ≡ true) empty made in
        absurd (false≢true (sym (posix.symlink_empty p s) ∙ made_empty))
    | inr (text, e) ↦
        rw (e, read_link)
          (posix.readlink_read s q 1024 j target text there b e ∙ take_all 1024 target short)
  ]

  pub create_link-Made :
      (j : Inode) (target : Text) (s : sys.State)
      → view.node s q ≡ some j
      → j.body ≡ link target
      → length target ≤ 1024
      → Spec view p s (create_link sys q p (stat_of j)) (Restored j)
  unfolding create_link
  create_link-Made j target s there b short =
      let fs = stat_of j in
      let text = read_link sys s q in
      let t = (sys.symlink text p s).1 in
      let Linked : sys.State → Type 0 =
        λ t. (i : Inode) × (view.node t p ≡ some i) × (i.body ≡ link target) in
      spec_then view p s (λ u. sys.symlink (read_link sys u q) p u) (sys.lchown p fs.uid fs.gid)
        Linked (Restored j)
        (
          posix.symlink_call text p s,
          λ yes.
              let (i, here, c) = posix.symlink_made text p s yes in
              (i, here, c ∙ ap link (symlink_target j target s there b short yes)),
        )
        (λ linked.
          let (i, here, c) = linked in
          (
            posix.lchown_call p fs.uid fs.gid t,
            λ yes. (
              with_owner fs.uid fs.gid i,
              posix.lchown_done p fs.uid fs.gid t i here (ground (arith, c)) yes,
              (c ∙ sym b, ground (arith, b, c)),
            ),
          ))

  pub create_regular-Made :
      (fuel : ℕ) (j : Inode) (content : Text) (s : sys.State)
      → view.Apart p q
      → view.node s q ≡ some j
      → j.body ≡ regular content
      → ltb j.perm 1024 ≡ true
      → view.node s p ≡ none
      → Spec view p s (create_file sys fuel q p (stat_of j)) (Restored j)
  create_regular-Made fuel j content s apart there b small free =
      let fs = stat_of j in
      let made =
        create_file-Created posix p q fuel fs content j s
          (apart, ap is_plain free, there, b, ground (arith, b, small)) in
      (
        made.0,
        λ yes. (
          record { body = regular content; perm = fs.mode; owner = fs.uid; owner_group = fs.gid },
          made.1 yes,
          (sym b, ground (arith, b)),
        ),
      )

  pub create_body-Made :
      (fuel : ℕ) (j : Inode) (s : sys.State) (body : Body)
      → j.body ≡ body
      → view.Apart p q
      → view.node s q ≡ some j
      → can_restore j ≡ true
      → view.node s p ≡ none
      → Spec view p s (create_kind sys fuel q p (stat_of j) (format_of body)) (Restored j)
  unfolding create_kind
  create_body-Made fuel j s directory b apart there can free = create_directory-Made j s b free
  create_body-Made fuel j s (regular content) b apart there can free =
      create_regular-Made fuel j content s apart there b (ground (arith, b, can)) free
  create_body-Made fuel j s (link target) b apart there can free =
      create_link-Made j target s there b (ground (arith, b, can))
  create_body-Made fuel j s special b apart there can free = absurd (ground (arith, b, can))
