-- ===== src/Undo/Fill.antt =====
-- What `createFile` does to the new file while it and its source are open.
use ok_snap.Undo.Calls.{Calls, View, Inode, regular, FileStat}
use ok_snap.Undo.Posix.{IsPosix, Call, with_body, with_perm, with_owner}
use ok_snap.Undo.Defs.{fill_file, clonefile, copyfile, ◌and_then◌, ◌or_else◌}
use ok_snap.Undo.Copy.{BothOpen, copyfile-Copied}
use ok_snap.Undo.Spec.{Spec, Call-trans, spec_then, Holds}
use ok_snap.Base.{ℕ, ◌≡◌, ap, ◌∙◌, inl, inr, true, some, [], arith, ltb, Bool-cases, Text}

-- The regular file that is wanted, made of the one that is there.
abbrev pub filled : FileStat → Text → Inode → Inode
filled fs content i = with_body (regular content) (with_owner fs.uid fs.gid (with_perm fs.mode i))

module _ {sys : Calls} {view : View sys} (posix : IsPosix sys view) (p q : Text)
    (src dest : ℕ) where
  -- The new file as it is, and what its source still has to give.
  abbrev pub Filling : Inode → Inode → Text → sys.State → Type 0
  Filling i j content s =
      BothOpen posix p q src dest s
      × (view.node s p ≡ some i)
      × (view.node s q ≡ some j)
      × (view.unread s src ≡ content)

  -- A call on the new file leaves the source and the descriptors as they are.
  still_Filling :
      (i k j : Inode) (content : Text) (s t : sys.State)
      → Filling i j content s
      → Call view p s t
      → view.unread t src ≡ view.unread s src
      → view.node t p ≡ some k
      → Filling k j content t
  still_Filling i k j content s t ((d, h, apart), here, there, left) call same now =
      ((call.1 dest ∙ d, call.1 src ∙ h, apart), now, call.0 q apart ∙ there, same ∙ left)

  clone_or_copy :
      (fuel : ℕ) (s : sys.State) (i j : Inode) (content : Text)
      → Filling i j content s
      → i.body ≡ regular []
      → j.body ≡ regular content
      → Spec view p s
          (clonefile sys src dest or_else copyfile sys fuel src dest)
          (Holds view p (some (with_body (regular content) i)))
  unfolding clonefile
  clone_or_copy fuel s i j content ((d, h, apart), here, there, left) b c =
      let call = posix.clone_call dest src s p d in
      let t = (sys.ioctl_clone dest src s).1 in
      elim (Bool-cases (sys.ioctl_clone dest src s).0) [
        | inl e ↦
            rw (e, ◌or_else◌, clonefile)
              (call.0, λ yes. posix.clone_done dest src s p q i j content d h here there b c e)
        | inr e ↦
            let copied =
              copyfile-Copied posix p q src dest fuel t i []
                (call.0.1 dest ∙ d, call.0.1 src ∙ h, apart)
                (posix.clone_failed dest src s p d e ∙ here) b in
            rw (e, ◌or_else◌, clonefile)
              (
                Call-trans view p call.0 copied.0,
                λ yes.
                    copied.1 yes
                    ∙ ap (λ c. some (with_body (regular c) i)) (call.1 src q h apart ∙ left),
              )
      ]

  pub fill_file-Filled :
      (fuel : ℕ) (fs : FileStat) (s : sys.State) (i j : Inode) (content : Text)
      → Filling i j content s
      → i.body ≡ regular []
      → j.body ≡ regular content
      → ltb fs.mode 1024 ≡ true
      → Spec view p s (fill_file sys fuel fs src dest) (Holds view p (some (filled fs content i)))
  unfolding fill_file
  fill_file-Filled fuel fs s i j content now b c small =
      let ((d, h, apart), here, there, left) = now in
      let moded = with_perm fs.mode i in
      let owned = with_owner fs.uid fs.gid moded in
      let mod_call = posix.fchmod_call dest fs.mode s p d in
      let t = (sys.fchmod dest fs.mode s).1 in
      let Outcome = Holds view p (some (filled fs content i)) in
      let write = clonefile sys src dest or_else copyfile sys fuel src dest in
      spec_then view p s (sys.fchmod dest fs.mode) (sys.fchown dest fs.uid fs.gid and_then write)
        (Filling moded j content) Outcome
        (
          mod_call.0,
          λ yes.
              still_Filling i moded j content s t now mod_call.0 (mod_call.1 src q h apart)
                (posix.fchmod_done dest fs.mode s p i d here yes),
        )
        (λ then_moded.
          let ((d', h', apart'), here', there', left') = then_moded in
          let own_call = posix.fchown_call dest fs.uid fs.gid t p d' in
          let u = (sys.fchown dest fs.uid fs.gid t).1 in
          spec_then view p t (sys.fchown dest fs.uid fs.gid) write (Filling owned j content) Outcome
            (
              own_call.0,
              λ yes.
                  still_Filling moded owned j content t u then_moded own_call.0
                    (own_call.1 src q h' apart)
                    (posix.fchown_done dest fs.uid fs.gid t p moded d' here'
                      (ground (arith, b, small)) yes),
            )
            (λ then_owned. clone_or_copy fuel u owned j content then_owned b c))
