-- ===== src/Undo/Posix.antt =====
-- What POSIX and Linux say of the system calls of `File::doUndo` and `copyfile`.
use ok_snap.Undo.Calls.{
  Calls, View, Inode, FileStat, Body, found, stat_of, failed, enoent, s_ifdir, directory, success,
  link, regular, sent,
}
use ok_snap.Base.{
  ℕ, suc, ◌<◌, ◌≡◌, ◌≢◌, Bool, true, false, Option, none, some, [], ◌++◌, ltb, length, Text,
}
use ok_snap.Compare.Content.{take}

abbrev pub is_link : Option Inode → Bool
is_link none = false
is_link (some i) = elim i.body [ link target ↦ true | _ ↦ false ]

-- Nothing, or a regular file.
abbrev pub is_plain : Option Inode → Bool
is_plain none = true
is_plain (some i) = elim i.body [ regular content ↦ true | _ ↦ false ]

-- `chown` leaves the mode alone, but for a file with the set-user-ID or the set-group-ID bit.
abbrev pub keeps_mode : Inode → Bool
keeps_mode i = elim i.body [ regular content ↦ ltb i.perm 1024 | _ ↦ true ]

abbrev pub with_body : Body → Inode → Inode
with_body body i = record i { body = body }

abbrev pub with_perm : ℕ → Inode → Inode
with_perm perm i = record i { perm = perm }

abbrev pub with_owner : ℕ → ℕ → Inode → Inode
with_owner owner owner_group i = record i { owner = owner; owner_group = owner_group }

module _ {sys : Calls} (view : View sys) where
  -- Nothing shows in a path apart from `path`.
  abbrev pub Frame : Text → sys.State → sys.State → Type 0
  Frame path s t = (q : Text) → view.Apart path q → view.node t q ≡ view.node s q

  abbrev pub SameNodes : sys.State → sys.State → Type 0
  SameNodes s t = (q : Text) → view.node t q ≡ view.node s q

  abbrev pub SameHandles : sys.State → sys.State → Type 0
  SameHandles s t = (fd : ℕ) → view.handle t fd ≡ view.handle s fd

  abbrev pub Call : Text → sys.State → sys.State → Type 0
  Call path s t = Frame path s t × SameHandles s t

  -- `open` took a descriptor that was free.
  abbrev pub Opened : Text → ℕ → sys.State → sys.State → Type 0
  Opened path fd s t =
      (view.handle s fd ≡ none)
      × (view.handle t fd ≡ some path)
      × ((other : ℕ) → other ≢ fd → view.handle t other ≡ view.handle s other)

  -- What is left to read from a file apart from `path` is as it was.
  abbrev pub SameUnread : Text → sys.State → sys.State → Type 0
  SameUnread path s t =
      (fd : ℕ) (q : Text)
      → view.handle s fd ≡ some q
      → view.Apart path q
      → view.unread t fd ≡ view.unread s fd

-- What is documented of the calls; on failure they promise no more than their frame. An undo of a file
-- makes calls on its path, on its counterpart in the snapshot and on the paths above, so a real system
-- may be taken with these alone, where a call on any other path, or one but `mkdir` and `stat` on a path
-- above, fails. Then no directory on the way to a path is replaced by a link, and which paths are apart
-- does not depend on the state.
pub record IsPosix (sys : Calls) (view : View sys) : Type 0 where
  pub lstat_found :
      (s : sys.State) (p : Text) (a : FileStat)
      → sys.lstat s p ≡ found a
      → (i : Inode) × (view.node s p ≡ some i) × (stat_of i ≡ a)
  pub lstat_enoent :
      (s : sys.State) (p : Text) → sys.lstat s p ≡ failed enoent → view.node s p ≡ none
  pub stat_dir :
      (s : sys.State) (p : Text)
      → sys.stat s p ≡ some s_ifdir
      → is_link (view.node s p) ≡ false
      → (i : Inode) × (view.node s p ≡ some i) × (i.body ≡ directory)
  -- A pathname that is empty names nothing.
  pub stat_empty : (s : sys.State) → sys.stat s [] ≡ none
  pub mkdir_empty : (m : ℕ) (s : sys.State) → (sys.mkdir [] m s).0 ≢ success
  pub readlink_read :
      (s : sys.State) (p : Text) (size : ℕ) (i : Inode) (target text : Text)
      → view.node s p ≡ some i
      → i.body ≡ link target
      → sys.readlink s p size ≡ some text
      → text ≡ take size target
  pub apart_other : (p q : Text) → view.Apart p q → view.Other p q
  -- A new directory is empty, so `mkdir` shows in no other entry, be it below the path or above it.
  pub mkdir_call :
      (p : Text) (m : ℕ) (s : sys.State)
      → ((q : Text) → view.Other p q → view.node (sys.mkdir p m s).1 q ≡ view.node s q)
        × SameHandles view s (sys.mkdir p m s).1
  pub mkdir_made :
      (p : Text) (m : ℕ) (s : sys.State)
      → (sys.mkdir p m s).0 ≡ success
      → (i : Inode) × (view.node (sys.mkdir p m s).1 p ≡ some i) × (i.body ≡ directory)
  pub mkdir_failed :
      (p : Text) (m : ℕ) (s : sys.State)
      → (sys.mkdir p m s).0 ≢ success
      → view.node (sys.mkdir p m s).1 p ≡ view.node s p
  pub rmdir_call : (p : Text) (s : sys.State) → Call view p s (sys.rmdir p s).1
  pub rmdir_gone :
      (p : Text) (s : sys.State) → (sys.rmdir p s).0 ≡ true → view.node (sys.rmdir p s).1 p ≡ none
  pub unlink_call : (p : Text) (s : sys.State) → Call view p s (sys.unlink p s).1
  pub unlink_gone :
      (p : Text) (s : sys.State) → (sys.unlink p s).0 ≡ true → view.node (sys.unlink p s).1 p ≡ none
  pub symlink_call : (t p : Text) (s : sys.State) → Call view p s (sys.symlink t p s).1
  pub symlink_made :
      (t p : Text) (s : sys.State)
      → (sys.symlink t p s).0 ≡ true
      → (i : Inode) × (view.node (sys.symlink t p s).1 p ≡ some i) × (i.body ≡ link t)
  pub symlink_empty : (p : Text) (s : sys.State) → (sys.symlink [] p s).0 ≡ false
  pub chmod_call :
      (p : Text) (m : ℕ) (s : sys.State)
      → is_link (view.node s p) ≡ false
      → Call view p s (sys.chmod p m s).1
  pub chmod_none :
      (p : Text) (m : ℕ) (s : sys.State) → view.node s p ≡ none → (sys.chmod p m s).0 ≡ false
  pub chmod_done :
      (p : Text) (m : ℕ) (s : sys.State) (i : Inode)
      → view.node s p ≡ some i
      → is_link (some i) ≡ false
      → (sys.chmod p m s).0 ≡ true
      → view.node (sys.chmod p m s).1 p ≡ some (with_perm m i)
  pub chown_call :
      (p : Text) (u g : ℕ) (s : sys.State)
      → is_link (view.node s p) ≡ false
      → Call view p s (sys.chown p u g s).1
  pub chown_done :
      (p : Text) (u g : ℕ) (s : sys.State) (i : Inode)
      → view.node s p ≡ some i
      → is_link (some i) ≡ false
      → keeps_mode i ≡ true
      → (sys.chown p u g s).0 ≡ true
      → view.node (sys.chown p u g s).1 p ≡ some (with_owner u g i)
  pub lchown_call : (p : Text) (u g : ℕ) (s : sys.State) → Call view p s (sys.lchown p u g s).1
  pub lchown_done :
      (p : Text) (u g : ℕ) (s : sys.State) (i : Inode)
      → view.node s p ≡ some i
      → keeps_mode i ≡ true
      → (sys.lchown p u g s).0 ≡ true
      → view.node (sys.lchown p u g s).1 p ≡ some (with_owner u g i)
  pub open_read_none :
      (p : Text) (s : sys.State)
      → (sys.open_read p s).0 ≡ none
      → SameNodes view s (sys.open_read p s).1 × SameHandles view s (sys.open_read p s).1
  pub open_read_some :
      (p : Text) (s : sys.State) (fd : ℕ)
      → (sys.open_read p s).0 ≡ some fd
      → SameNodes view s (sys.open_read p s).1 × Opened view p fd s (sys.open_read p s).1
  pub open_read_unread :
      (p : Text) (s : sys.State) (fd : ℕ) (i : Inode) (content : Text)
      → (sys.open_read p s).0 ≡ some fd
      → view.node s p ≡ some i
      → i.body ≡ regular content
      → view.unread (sys.open_read p s).1 fd ≡ content
  pub open_write_frame :
      (p : Text) (m : ℕ) (s : sys.State)
      → is_link (view.node s p) ≡ false
      → Frame view p s (sys.open_write p m s).1 × SameUnread view p s (sys.open_write p m s).1
  pub open_write_none :
      (p : Text) (m : ℕ) (s : sys.State)
      → (sys.open_write p m s).0 ≡ none
      → SameHandles view s (sys.open_write p m s).1
  pub open_write_some :
      (p : Text) (m : ℕ) (s : sys.State) (fd : ℕ)
      → (sys.open_write p m s).0 ≡ some fd
      → Opened view p fd s (sys.open_write p m s).1
  pub open_write_made :
      (p : Text) (m : ℕ) (s : sys.State) (fd : ℕ)
      → (sys.open_write p m s).0 ≡ some fd
      → is_plain (view.node s p) ≡ true
      → (i : Inode) × (view.node (sys.open_write p m s).1 p ≡ some i) × (i.body ≡ regular [])
  pub fchmod_call :
      (fd m : ℕ) (s : sys.State) (p : Text)
      → view.handle s fd ≡ some p
      → Call view p s (sys.fchmod fd m s).1 × SameUnread view p s (sys.fchmod fd m s).1
  pub fchmod_done :
      (fd m : ℕ) (s : sys.State) (p : Text) (i : Inode)
      → view.handle s fd ≡ some p
      → view.node s p ≡ some i
      → (sys.fchmod fd m s).0 ≡ true
      → view.node (sys.fchmod fd m s).1 p ≡ some (with_perm m i)
  pub fchown_call :
      (fd u g : ℕ) (s : sys.State) (p : Text)
      → view.handle s fd ≡ some p
      → Call view p s (sys.fchown fd u g s).1 × SameUnread view p s (sys.fchown fd u g s).1
  pub fchown_done :
      (fd u g : ℕ) (s : sys.State) (p : Text) (i : Inode)
      → view.handle s fd ≡ some p
      → view.node s p ≡ some i
      → keeps_mode i ≡ true
      → (sys.fchown fd u g s).0 ≡ true
      → view.node (sys.fchown fd u g s).1 p ≡ some (with_owner u g i)
  pub clone_call :
      (dest src : ℕ) (s : sys.State) (p : Text)
      → view.handle s dest ≡ some p
      → Call view p s (sys.ioctl_clone dest src s).1
        × SameUnread view p s (sys.ioctl_clone dest src s).1
  -- ioctl_ficlone(2) clones the whole file, and names no error that leaves a part of it. That a clone
  -- that fails has changed nothing is an assumption.
  pub clone_done :
      (dest src : ℕ) (s : sys.State) (p q : Text) (i j : Inode) (content : Text)
      → view.handle s dest ≡ some p
      → view.handle s src ≡ some q
      → view.node s p ≡ some i
      → view.node s q ≡ some j
      → i.body ≡ regular []
      → j.body ≡ regular content
      → (sys.ioctl_clone dest src s).0 ≡ true
      → view.node (sys.ioctl_clone dest src s).1 p ≡ some (with_body (regular content) i)
  pub clone_failed :
      (dest src : ℕ) (s : sys.State) (p : Text)
      → view.handle s dest ≡ some p
      → (sys.ioctl_clone dest src s).0 ≡ false
      → view.node (sys.ioctl_clone dest src s).1 p ≡ view.node s p
  pub sendfile_call :
      (dest src n : ℕ) (s : sys.State) (p : Text)
      → view.handle s dest ≡ some p
      → Call view p s (sys.sendfile dest src n s).1
  pub sendfile_end :
      (dest src n : ℕ) (s : sys.State) (p q : Text) (i : Inode) (content : Text)
      → view.handle s dest ≡ some p
      → view.handle s src ≡ some q
      → view.Apart p q
      → view.node s p ≡ some i
      → i.body ≡ regular content
      → 0 < n
      → (sys.sendfile dest src n s).0 ≡ sent 0
      → (view.unread s src ≡ []) × (view.node (sys.sendfile dest src n s).1 p ≡ view.node s p)
  pub sendfile_sent :
      (dest src n : ℕ) (s : sys.State) (p q : Text) (i : Inode) (content : Text) (k : ℕ)
      → view.handle s dest ≡ some p
      → view.handle s src ≡ some q
      → view.Apart p q
      → view.node s p ≡ some i
      → i.body ≡ regular content
      → (sys.sendfile dest src n s).0 ≡ sent (suc k)
      → (chunk : Text) × (view.unread s src
          ≡ chunk ++ view.unread (sys.sendfile dest src n s).1 src)
        × (length chunk ≡ suc k)
        × (view.node (sys.sendfile dest src n s).1 p
            ≡ some (with_body (regular (content ++ chunk)) i))
  pub close_call :
      (fd : ℕ) (s : sys.State)
      → SameNodes view s (sys.close fd s)
        × (view.handle (sys.close fd s) fd ≡ none)
        × ((other : ℕ) → other ≢ fd → view.handle (sys.close fd s) other ≡ view.handle s other)
