-- ===== src/Undo/Delete.antt =====
-- `deleteAllTypes` leaves nothing under the path.
use ok_snap.Undo.Calls.{
  Calls, View, Inode, Format, s_ifdir, s_ifreg, s_iflnk, s_other, failed, found, FileStat, special,
  Errno, Lstat, enoent, success, eexist, other_errno,
}
use ok_snap.Undo.Posix.{IsPosix}
use ok_snap.Undo.Defs.{delete_all_types, delete_kind}
use ok_snap.Undo.Spec.{Spec, Call-refl, spec_succeeds}
use ok_snap.Base.{
  ◌≡◌, refl, ◌≢◌, ◌⊎◌, inl, inr, Bool, true, false, false≢true, Option, none, some, arith, Text,
}

-- A device, a fifo or a socket is left where it is.
abbrev pub is_special : Option Inode → Bool
is_special none = false
is_special (some i) = elim i.body [ special ↦ true | _ ↦ false ]

pub Errno-cases : (e : Errno) → (e ≡ success) ⊎ (e ≢ success)
Errno-cases success = inl refl
Errno-cases eexist = inr (λ h. absurd cc)
Errno-cases enoent = inr (λ h. absurd cc)
Errno-cases other_errno = inr (λ h. absurd cc)

pub Lstat-cases : (l : Lstat) → ((fs : FileStat) × (l ≡ found fs)) ⊎ ((e : Errno) × (l ≡ failed e))
Lstat-cases (found fs) = inl (fs, refl)
Lstat-cases (failed e) = inr (e, refl)

module _ {sys : Calls} {view : View sys} (posix : IsPosix sys view) (path : Text) where
  delete_kind_spec :
      (fs : FileStat) (format : Format) (s : sys.State)
      → (format ≡ s_other → ⊥)
      → Spec view path s (delete_kind sys path format) (λ t. view.node t path ≡ none)
  unfolding delete_kind
  delete_kind_spec fs s_ifdir s h = (posix.rmdir_call path s, posix.rmdir_gone path s)
  delete_kind_spec fs s_ifreg s h = (posix.unlink_call path s, posix.unlink_gone path s)
  delete_kind_spec fs s_iflnk s h = (posix.unlink_call path s, posix.unlink_gone path s)
  delete_kind_spec fs s_other s h = absurd (h refl)

  lstat_failed :
      (s : sys.State) (errno : Errno)
      → sys.lstat s path ≡ failed errno
      → Spec view path s (delete_all_types sys path) (λ t. view.node t path ≡ none)
  unfolding delete_all_types
  lstat_failed s enoent e =
      rw (e, delete_all_types)
        (spec_succeeds view path s true (λ t. view.node t path ≡ none)
          (posix.lstat_enoent s path e))
  lstat_failed s success e =
      rw (e, delete_all_types) (Call-refl view path s, λ h. absurd (false≢true h))
  lstat_failed s eexist e =
      rw (e, delete_all_types) (Call-refl view path s, λ h. absurd (false≢true h))
  lstat_failed s other_errno e =
      rw (e, delete_all_types) (Call-refl view path s, λ h. absurd (false≢true h))

  -- After `deleteAllTypes` has returned true nothing is under the path, unless a special file was.
  pub delete_all_types-Gone :
      (s : sys.State)
      → is_special (view.node s path) ≡ false
      → Spec view path s (delete_all_types sys path) (λ t. view.node t path ≡ none)
  unfolding delete_all_types
  delete_all_types-Gone s plain = elim (Lstat-cases (sys.lstat s path)) [
    | inl (fs, e) ↦
        let (i, here, same) = posix.lstat_found s path fs e in
        rw (e, delete_all_types) (delete_kind_spec fs fs.format s (ground (arith, e)))
    | inr (errno, e) ↦ lstat_failed s errno e
  ]
