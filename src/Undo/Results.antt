-- ===== src/Undo/Results.antt =====
-- What `File::doUndo` leaves under the path of its entry when it returns true, and a case in which it
-- cannot.
use ok_snap.Undo.Calls.{Calls, View, Inode, format_of, s_ifdir}
use ok_snap.Undo.Posix.{IsPosix, is_link, keeps_mode, Call}
use ok_snap.Undo.Defs.{do_undo}
use ok_snap.Undo.Delete.{is_special}
use ok_snap.Undo.Create.{Restored, can_restore}
use ok_snap.Undo.Modify.{attributes}
use ok_snap.Undo.Whole.{Separate, Wide}
use ok_snap.Undo.DoUndo.{undo_status-Restored, undo_status-attributes, undo_created-Gone}
use ok_snap.Undo.Status.{is_remade}
use ok_snap.Files.Status.{created, deleted, content, permissions, is_clean}
use ok_snap.Files.Defs.{FilePaths, File, get_absolute_path, pre, system}
use ok_snap.Base.{ℕ, ◌≡◌, ◌≢◌, Bool, true, false, none, some, has, Text}

module _ {sys : Calls} {view : View sys} (posix : IsPosix sys view) (fuel : ℕ) (paths : FilePaths)
    (f : File) (s : sys.State) where
  abbrev pub system_file : Text
  system_file = get_absolute_path paths system f

  abbrev pub pre_file : Text
  pre_file = get_absolute_path paths pre f

  abbrev pub ending : (Bool × File) × sys.State
  ending = do_undo sys fuel paths f s

  -- When `doUndo` returns true for an entry that was deleted, that changed its type or its content, with
  -- a status that a comparison gives, then the path in the system has the type, content, target, mode
  -- and owner that the file has in the pre snapshot; nothing shows in a path that is apart from it and
  -- is none of those above it, and no descriptor is left open. The file's path and its counterpart in
  -- the snapshot are apart, which means that the way to neither leads over the other, and neither is one
  -- of the paths above the file. The snapshot's file can be made again: it is no special file, has no
  -- set-ID bit, and a link's target fits the buffer. The path holds no special file; it is free if the
  -- entry was deleted; only files and links change their content; and no link has its mode changed. The
  -- system calls do what POSIX and Linux document, and a clone that fails has changed nothing.
  pub do_undo-Restored :
      (j : Inode)
      → Separate view system_file pre_file
      → view.node s pre_file ≡ some j
      → can_restore j ≡ true
      → is_special (view.node s system_file) ≡ false
      → is_clean f.pre_to_post_status ≡ true
      → is_remade f.pre_to_post_status ≡ true
      → (has f.pre_to_post_status deleted ≡ true → view.node s system_file ≡ none)
      → (has f.pre_to_post_status content ≡ true → format_of j.body ≢ s_ifdir)
      → (has f.pre_to_post_status permissions ≡ true → is_link (some j) ≡ false)
      → ending.0.0 ≡ true
      → Wide view system_file pre_file s ending.1 × Restored posix system_file pre_file j ending.1
  unfolding do_undo
  do_undo-Restored j separate there can plain clean remade free no_dir no_link done =
      undo_status-Restored posix system_file pre_file fuel f.pre_to_post_status j s separate
        (separate.apart, there, can) plain clean remade free no_dir no_link done

  -- When `doUndo` returns true for an entry that was created and is no special file, nothing is under
  -- its path, and nothing shows in a path apart from it or in a descriptor.
  pub do_undo-Gone :
      f.pre_to_post_status ≡ created
      → is_special (view.node s system_file) ≡ false
      → ending.0.0 ≡ true
      → Call view system_file s ending.1 × (view.node ending.1 system_file ≡ none)
  unfolding do_undo
  do_undo-Gone fresh plain done =
      undo_created-Gone posix system_file pre_file fuel f.pre_to_post_status s fresh plain done

  -- When `doUndo` returns true for an entry of which only the mode or the owner changed, and that is no
  -- link and gets no set-ID bit, then the path has its old content, the mode of the pre snapshot if the
  -- permissions were flagged, and its owner and group if the user or the group was; nothing shows in a
  -- path that is apart from it and is none of those above it. The file's path and its counterpart in the
  -- snapshot are apart, and neither is one of the paths above the file. The status is one that a
  -- comparison gives, and the system calls do what POSIX and Linux document.
  pub do_undo-attributes :
      (i j : Inode)
      → Separate view system_file pre_file
      → view.node s pre_file ≡ some j
      → view.node s system_file ≡ some i
      → is_link (some i) ≡ false
      → keeps_mode (attributes posix system_file pre_file f.pre_to_post_status j i) ≡ true
      → is_clean f.pre_to_post_status ≡ true
      → is_remade f.pre_to_post_status ≡ false
      → has f.pre_to_post_status created ≡ false
      → ending.0.0 ≡ true
      → Wide view system_file pre_file s ending.1
        × (view.node ending.1 system_file
            ≡ some (attributes posix system_file pre_file f.pre_to_post_status j i))
  unfolding do_undo
  do_undo-attributes i j separate there here plain keeps clean same old done =
      undo_status-attributes posix system_file pre_file fuel f.pre_to_post_status j i s separate
        there here plain keeps clean same old done
