-- ===== src/Undo/Defs.antt =====
-- `File::doUndo`, `Files::doUndoStep` (snapper/File.cc), and `clonefile`, `copyfile` and `checkDir`
-- (snapper/AppUtil.cc).
use ok_snap.Undo.Calls.{
  Calls, Errno, success, eexist, enoent, found, failed, Format, s_ifdir, s_ifreg, s_iflnk, s_other,
  sent, send_failed, FileStat,
}
use ok_snap.Base.{
  ℕ, zero, suc, bit_or, Bool, true, false, ◌&&◌, ◌||◌, Option, none, some, List, [], ◌∷◌, ◌==◌,
  if◌then◌else◌, has, length, Text, text_eq,
}
use ok_snap.Files.Status.{created, deleted, type, content, permissions, user, group}
use ok_snap.Files.Defs.{pre, system, FilePaths, File, get_absolute_path, UndoStep, invalid, find}

-- Code that returns a bool and changes the file system.
abbrev pub Act : Type 0 → Type 0
Act S = S → Bool × S

module _ {S : Type 0} where
  -- `if (!first) return false;`, then what follows.
  infixr 15 ◌and_then◌ ◌or_else◌
  abbrev pub ◌and_then◌ : Act S → Act S → Act S
  (first and_then next) s = elim (first s).0 [
    | true ↦ next (first s).1
    | false ↦ (false, (first s).1)
  ]

  abbrev pub ◌or_else◌ : Act S → Act S → Act S
  (first or_else next) s = elim (first s).0 [
    | true ↦ (true, (first s).1)
    | false ↦ next (first s).1
  ]

  abbrev pub act_if : Bool → Act S → Act S
  act_if test act s = if test then act s else (true, s)

  -- An error of one part does not keep the parts behind it from being tried.
  abbrev pub and_also : Act S → Act S → Act S
  and_also first next s = ((first s).0 && (next (first s).1).0, (next (first s).1).1)

  abbrev pub succeeds : Act S
  succeeds s = (true, s)

-- `path.substr(0, path.rfind('/'))`, if there is a slash.
unfoldable pub leading_path : Text → Option Text
leading_path [] = none
leading_path (c ∷ path) = elim (leading_path path) [
  | some leading ↦ some (c ∷ leading)
  | none ↦ if c == b'/' then some [] else none
]

-- `mkdir(...) != 0` is an error.
unfoldable pub made_dir : Errno → Bool
made_dir success = true
made_dir _ = false

-- What is known of the system is forgotten.
unfoldable pub forget_system : File → File
forget_system f = record f { pre_to_system_status = invalid; post_to_system_status = invalid }

-- The entry that `find` gave is a reference to the one in the list.
unfoldable pub put_entry : File → List File → List File
put_entry f [] = []
put_entry f (g ∷ gs) = if text_eq g.name f.name then f ∷ gs else g ∷ put_entry f gs

-- What `copyfile` asks of one `sendfile`.
abbrev pub chunk_size : ℕ
chunk_size = 65535

module _ (sys : Calls) where
  unfoldable pub check_dir : sys.State → Text → Bool
  check_dir s path = elim (sys.stat s path) [ some s_ifdir ↦ true | _ ↦ false ]

  unfoldable pub make_parent : Text → Act sys.State
  unfolding made_dir
  make_parent path s = (made_dir (sys.mkdir path 511 s).0, (sys.mkdir path 511 s).1)

  -- A leading path is shorter than its path, whose length is fuel enough.
  unfoldable pub create_parents : ℕ → Text → Act sys.State
  unfolding leading_path make_parent
  create_parents zero path s = (true, s)
  create_parents (suc fuel) path s = elim (leading_path path) [
    | none ↦ (true, s)
    | some leading ↦ elim (sys.stat s leading) [
      | some s_ifdir ↦ (true, s)
      | some _ ↦ (false, s)
      | none ↦ (create_parents fuel leading and_then make_parent leading) s
    ]
  ]

  unfoldable pub create_parent_directories : Text → Act sys.State
  unfolding create_parents
  create_parent_directories path = create_parents (length path) path

  -- What comes behind `mkdir`. Only an existing name that is no directory is an error.
  unfoldable pub after_mkdir : Text → Errno → Act sys.State
  unfolding check_dir
  after_mkdir path eexist s = (check_dir s path, s)
  after_mkdir path _ s = (true, s)

  unfoldable pub create_directory : Text → FileStat → Act sys.State
  unfolding after_mkdir
  create_directory path fs =
      (λ s. after_mkdir path (sys.mkdir path 0 s).0 (sys.mkdir path 0 s).1)
      and_then sys.chmod path fs.mode
      and_then sys.chown path fs.uid fs.gid

  unfoldable pub clonefile : ℕ → ℕ → Act sys.State
  clonefile src dest = sys.ioctl_clone dest src

  -- `while (true)`, with the rounds that are left.
  unfoldable pub copyfile : ℕ → ℕ → ℕ → Act sys.State
  copyfile zero src dest s = (false, s)
  copyfile (suc fuel) src dest s =
      let r1 = sys.sendfile dest src chunk_size s in
      let more = copyfile fuel src dest r1.1 in
      elim r1.0 [ sent zero ↦ (true, r1.1) | sent (suc _) ↦ more | send_failed ↦ (false, r1.1) ]

  -- Both files are closed on every way out.
  abbrev close_both : ℕ → ℕ → Act sys.State → Act sys.State
  close_both src dest act s = ((act s).0, sys.close src (sys.close dest (act s).1))

  -- What is done to the new file while both are open.
  unfoldable pub fill_file : ℕ → FileStat → ℕ → ℕ → Act sys.State
  unfolding clonefile copyfile
  fill_file fuel fs src dest =
      sys.fchmod dest fs.mode
      and_then sys.fchown dest fs.uid fs.gid
      and_then (clonefile src dest or_else copyfile fuel src dest)

  unfoldable pub with_dest : ℕ → FileStat → ℕ → Option ℕ → Act sys.State
  unfolding fill_file
  with_dest fuel fs src none s = (false, sys.close src s)
  with_dest fuel fs src (some dest) s = close_both src dest (fill_file fuel fs src dest) s

  unfoldable pub with_src : ℕ → Text → FileStat → Option ℕ → Act sys.State
  unfolding with_dest
  with_src fuel path fs none s = (false, s)
  with_src fuel path fs (some src) s =
      with_dest fuel fs src (sys.open_write path fs.mode s).0 (sys.open_write path fs.mode s).1

  unfoldable pub create_file : ℕ → Text → Text → FileStat → Act sys.State
  unfolding with_src
  create_file fuel pre_path path fs s =
      with_src fuel path fs (sys.open_read pre_path s).0 (sys.open_read pre_path s).1

  -- The buffer has 1024 bytes; a link that cannot be read leaves the text empty.
  unfoldable pub read_link : sys.State → Text → Text
  read_link s path = elim (sys.readlink s path 1024) [ some text ↦ text | none ↦ [] ]

  unfoldable pub create_link : Text → Text → FileStat → Act sys.State
  unfolding read_link
  create_link pre_path path fs =
      (λ s. sys.symlink (read_link s pre_path) path s) and_then sys.lchown path fs.uid fs.gid

  unfoldable pub create_kind : ℕ → Text → Text → FileStat → Format → Act sys.State
  unfolding create_directory create_file create_link
  create_kind fuel pre_path path fs s_ifdir = create_directory path fs
  create_kind fuel pre_path path fs s_ifreg = create_file fuel pre_path path fs
  create_kind fuel pre_path path fs s_iflnk = create_link pre_path path fs
  create_kind fuel pre_path path fs s_other = succeeds

  unfoldable pub create_all_types : ℕ → Text → Text → Act sys.State
  unfolding create_kind create_parent_directories
  create_all_types fuel pre_path path s = elim (sys.lstat s pre_path) [
    | failed _ ↦ (false, s)
    | found fs ↦
        (create_parent_directories path and_then create_kind fuel pre_path path fs fs.format) s
  ]

  unfoldable pub delete_kind : Text → Format → Act sys.State
  delete_kind path s_ifdir = sys.rmdir path
  delete_kind path s_ifreg = sys.unlink path
  delete_kind path s_iflnk = sys.unlink path
  delete_kind path s_other = succeeds

  unfoldable pub delete_all_types : Text → Act sys.State
  unfolding delete_kind
  delete_all_types path s = elim (sys.lstat s path) [
    | found fs ↦ delete_kind path fs.format s
    | failed enoent ↦ (true, s)
    | failed _ ↦ (false, s)
  ]

  unfoldable pub modify_content : ℕ → Text → Text → FileStat → Format → Act sys.State
  unfolding delete_all_types create_file create_link
  modify_content fuel pre_path path fs s_ifreg =
      delete_all_types path and_then create_file fuel pre_path path fs
  modify_content fuel pre_path path fs s_iflnk =
      delete_all_types path and_then create_link pre_path path fs
  modify_content fuel pre_path path fs _ = succeeds

  unfoldable pub modify_as : ℕ → Text → Text → ℕ → FileStat → Act sys.State
  unfolding modify_content
  modify_as fuel pre_path path status fs =
      act_if (has status content) (modify_content fuel pre_path path fs fs.format)
      and_then act_if (has status permissions) (sys.chmod path fs.mode)
      and_then act_if (has status (bit_or user group)) (sys.lchown path fs.uid fs.gid)

  unfoldable pub modify_all_types : ℕ → Text → Text → ℕ → Act sys.State
  unfolding modify_as create_parent_directories
  modify_all_types fuel pre_path path status s = elim (sys.lstat s pre_path) [
    | failed _ ↦ (false, s)
    | found fs ↦ (create_parent_directories path and_then modify_as fuel pre_path path status fs) s
  ]

  unfoldable pub undo_status : ℕ → Text → Text → ℕ → Act sys.State
  unfolding delete_all_types create_all_types modify_all_types
  undo_status fuel pre_path path status =
      and_also (act_if (has status created || has status type) (delete_all_types path)) (
        and_also
          (act_if (has status deleted || has status type) (create_all_types fuel pre_path path))
          (act_if (has status (bit_or (bit_or (bit_or content permissions) user) group))
            (modify_all_types fuel pre_path path status)))

  unfoldable pub do_undo : ℕ → FilePaths → File → sys.State → (Bool × File) × sys.State
  unfolding undo_status forget_system
  do_undo fuel paths f s =
      let done =
        undo_status fuel (get_absolute_path paths pre f) (get_absolute_path paths system f)
          f.pre_to_post_status s in
      ((done.0, forget_system f), done.1)

  unfoldable pub do_undo_step :
      ℕ → FilePaths → UndoStep → List File → sys.State → (Bool × List File) × sys.State
  unfolding do_undo put_entry
  do_undo_step fuel paths step entries s = elim (find entries step.name) [
    | none ↦ ((false, entries), s)
    | some f ↦ let done = do_undo fuel paths f s in ((done.0.0, put_entry done.0.1 entries), done.1)
  ]
