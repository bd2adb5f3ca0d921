-- ===== src/Undo/CreateFile.antt =====
-- `createFile` makes the file that is in the snapshot and leaves no descriptor open.
use ok_snap.Undo.Calls.{Calls, View, Inode, regular, FileStat}
use ok_snap.Undo.Posix.{IsPosix, Call, Opened, SameHandles, is_plain, is_link, SameNodes}
use ok_snap.Undo.Defs.{create_file, with_src, with_dest, fill_file}
use ok_snap.Undo.Fill.{fill_file-Filled}
use ok_snap.Undo.Spec.{Spec}
use ok_snap.Base.{
  ℕ, ◌≡◌, refl, sym, ap, ◌∙◌, ◌≢◌, inl, inr, true, false, false≢true, Option, none, some, arith,
  ltb, ◌==◌, ==_iff, Bool-cases, Option-cases, Text,
}

module _ {sys : Calls} {view : View sys} (posix : IsPosix sys view) where
  -- What was opened and is closed again leaves the descriptors as they were.
  closed_again :
      (p : Text) (fd : ℕ) (s t u : sys.State)
      → Opened view p fd s t
      → SameHandles view t u
      → SameHandles view s (sys.close fd u)
  closed_again p fd s t u (free, taken, others) same other =
      let (nodes, shut, rest) = posix.close_call fd u in
      elim (Bool-cases (other == fd)) [
        | inl e ↦ let here = (==_iff other fd).0 e in rw here (shut ∙ sym free)
        | inr e ↦
            let apart : other ≢ fd = λ here. false≢true (sym e ∙ (==_iff other fd).1 here) in
            rest other apart ∙ same other ∙ others other apart
      ]

  plain_no_link : (x : Option Inode) → is_plain x ≡ true → is_link x ≡ false
  plain_no_link none h = refl
  plain_no_link (some i) h = ground arith

  module _ (p q : Text) (fuel : ℕ) (fs : FileStat) (content : Text) (j : Inode) where
    -- The path is free or a regular file, and the snapshot has a file with this content.
    abbrev pub Ready : sys.State → Type 0
    Ready s =
        view.Apart p q
        × (is_plain (view.node s p) ≡ true)
        × (view.node s q ≡ some j)
        × (j.body ≡ regular content)
        × (ltb fs.mode 1024 ≡ true)

    abbrev pub Created : sys.State → Type 0
    Created t =
        view.node t p
        ≡ some (record {
          body = regular content;
          perm = fs.mode;
          owner = fs.uid;
          owner_group = fs.gid;
        })

    -- With the source open: what is left to do is done, and the source is closed.
    with_dest-Created :
        (s t : sys.State) (src : ℕ)
        → Ready s
        → SameNodes view s t
        → Opened view q src s t
        → view.unread t src ≡ content
        → let written = sys.open_write p fs.mode t in
          Call view p s (with_dest sys fuel fs src written.0 written.1).1
          × ((with_dest sys fuel fs src written.0 written.1).0 ≡ true
              → Created (with_dest sys fuel fs src written.0 written.1).1)
    unfolding with_dest
    with_dest-Created s t src (apart, plain, there, c, small) nodes opened left =
        let no_link = ap is_link (nodes p) ∙ plain_no_link (view.node s p) plain in
        let (frame, unread) = posix.open_write_frame p fs.mode t no_link in
        let w = (sys.open_write p fs.mode t).1 in
        elim (Option-cases (sys.open_write p fs.mode t).0) [
          | inl e ↦
              rw (e, with_dest)
                (
                  (
                    λ r far. (posix.close_call src w).0 r ∙ frame r far ∙ nodes r,
                    closed_again q src s t w opened (posix.open_write_none p fs.mode t e),
                  ),
                  λ no. absurd (false≢true no),
                )
          | inr (dest, e) ↦
              let (free, taken, others) = posix.open_write_some p fs.mode t dest e in
              let (i, here, empty) =
                posix.open_write_made p fs.mode t dest e (ap is_plain (nodes p) ∙ plain) in
              let differ : src ≢ dest = λ same. absurd (ground arith) in
              let done =
                fill_file-Filled posix p q src dest fuel fs w i j content
                  (
                    (taken, others src differ ∙ opened.1, apart),
                    here,
                    frame q apart ∙ nodes q ∙ there,
                    unread src q opened.1 apart ∙ left,
                  )
                  empty c small in
              let u = (fill_file sys fuel fs src dest w).1 in
              let inner = closed_again p dest t w u (free, taken, others) done.0.1 in
              let closes = λ (r : Text).
                (posix.close_call src (sys.close dest u)).0 r ∙ (posix.close_call dest u).0 r in
              rw (e, with_dest)
                (
                  (
                    λ r far. closes r ∙ done.0.0 r far ∙ frame r far ∙ nodes r,
                    closed_again q src s t (sys.close dest u) opened inner,
                  ),
                  λ yes. closes p ∙ done.1 yes,
                )
        ]

    -- When `createFile` has returned true the file is as in the snapshot; it changes nothing else,
    -- and what it opened is closed, whatever it returns.
    pub create_file-Created :
        (s : sys.State) → Ready s → Spec view p s (create_file sys fuel q p fs) Created
    unfolding create_file with_src
    create_file-Created s (apart, plain, there, c, small) =
        elim (Option-cases (sys.open_read q s).0) [
          | inl e ↦
              let (nodes, handles) = posix.open_read_none q s e in
              rw (e, create_file, with_src)
                ((λ r far. nodes r, handles), λ no. absurd (false≢true no))
          | inr (src, e) ↦
              let (nodes, opened) = posix.open_read_some q s src e in
              let left = posix.open_read_unread q s src j content e there c in
              rw (e, create_file, with_src)
                (with_dest-Created s (sys.open_read q s).1 src (apart, plain, there, c, small) nodes
                  opened left)
        ]
