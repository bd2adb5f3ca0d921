-- ===== src/Undo/Root.antt =====
-- A system that is mounted at the root: what is above a path right under it is the empty path, which
-- cannot be made.
use ok_snap.Undo.Calls.{Calls, View}
use ok_snap.Undo.Posix.{IsPosix}
use ok_snap.Undo.Defs.{
  do_undo, undo_status, modify_all_types, create_all_types, create_parents, make_parent, made_dir,
  leading_path, create_parent_directories, ◌and_then◌, act_if, delete_all_types,
}
use ok_snap.Undo.Status.{asks_create, asks_modify, asks_delete}
use ok_snap.Files.Defs.{FilePaths, File, get_absolute_path, pre, system, path_prefix}
use ok_snap.Base.{
  ℕ, zero, suc, ◌≡◌, refl, ◌∙◌, inl, inr, true, false, ◌||◌, none, [], ◌∷◌, arith, length, Text,
  codes, text_eq,
}
use ok_snap.Undo.Delete.{Errno-cases, Lstat-cases}

at_root :
    (paths : FilePaths) (f : File)
    → paths.system_path ≡ codes "/"
    → get_absolute_path paths system f ≡ f.name
unfolding get_absolute_path path_prefix text_eq
at_root paths f root = rw (root, get_absolute_path) refl

module _ {sys : Calls} {view : View sys} (posix : IsPosix sys view) where
  no_empty_parent : (s : sys.State) → (make_parent sys [] s).0 ≡ false
  unfolding make_parent made_dir
  no_empty_parent s = elim (Errno-cases (sys.mkdir [] 511 s).0) [
    | inl e ↦ absurd (posix.mkdir_empty 511 s e)
    | inr e ↦ ground arith
  ]

  empty_parents : (n : ℕ) (s : sys.State) → create_parents sys n [] s ≡ (true, s)
  unfolding create_parents leading_path
  empty_parents zero s = refl
  empty_parents (suc n) s = refl

  no_parents :
      (name : Text) (s : sys.State)
      → leading_path name ≡ none
      → (create_parent_directories sys (b'/' ∷ name) s).0 ≡ false
  unfolding create_parent_directories create_parents leading_path
  no_parents name s flat =
      rw
        (
          flat,
          posix.stat_empty s,
          empty_parents (length name) s,
          create_parents,
          ◌and_then◌,
          leading_path,
        )
        (no_empty_parent (create_parents sys (length name) [] s).1)

  module _ (fuel : ℕ) (q name : Text) (flat : leading_path name ≡ none) where
    no_create : (s : sys.State) → (create_all_types sys fuel q (b'/' ∷ name) s).0 ≡ false
    unfolding create_all_types
    no_create s = elim (Lstat-cases (sys.lstat s q)) [
      | inr (errno, e) ↦ rw (e, create_all_types) refl
      | inl (fs, e) ↦ rw (e, no_parents name s flat, create_all_types, ◌and_then◌) refl
    ]

    no_modify :
        (status : ℕ) (s : sys.State)
        → (modify_all_types sys fuel q (b'/' ∷ name) status s).0 ≡ false
    unfolding modify_all_types
    no_modify status s = elim (Lstat-cases (sys.lstat s q)) [
      | inr (errno, e) ↦ rw (e, modify_all_types) refl
      | inl (fs, e) ↦ rw (e, no_parents name s flat, modify_all_types, ◌and_then◌) refl
    ]

    pub undo_status_root :
        (status : ℕ) (s : sys.State)
        → (asks_create status || asks_modify status) ≡ true
        → (undo_status sys fuel q (b'/' ∷ name) status s).0 ≡ false
    unfolding undo_status
    undo_status_root status s asked =
        let t = (act_if (asks_delete status) (delete_all_types sys (b'/' ∷ name)) s).1 in
        let u = (act_if (asks_create status) (create_all_types sys fuel q (b'/' ∷ name)) t).1 in
        let made = no_create t in
        let changed = no_modify status u in ground (arith, asked, made, changed)

  -- With the system at the root, `doUndo` returns false for every entry right under it that is to be
  -- made again or changed, whatever is in the snapshot: the path above it is empty, and cannot be made.
  pub do_undo_root :
      (fuel : ℕ) (paths : FilePaths) (f : File) (name : Text) (s : sys.State)
      → paths.system_path ≡ codes "/"
      → f.name ≡ b'/' ∷ name
      → leading_path name ≡ none
      → (asks_create f.pre_to_post_status || asks_modify f.pre_to_post_status) ≡ true
      → (do_undo sys fuel paths f s).0.0 ≡ false
  unfolding do_undo
  do_undo_root fuel paths f name s root named flat asked =
      let here : get_absolute_path paths system f ≡ b'/' ∷ name = at_root paths f root ∙ named in
      rw here (
        undo_status_root fuel (get_absolute_path paths pre f) name flat f.pre_to_post_status s
          asked)
