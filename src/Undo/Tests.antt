-- ===== src/Undo/Tests.antt =====
-- Runs of `doUndo` on a small file system in memory.
use ok_snap.Undo.Calls.{Inode, directory, regular, link, Body}
use ok_snap.Undo.Memory.{
  memory, Memory, memory_view, content_of, mem_clone, mem_lchown, mem_lstat, mem_mkdir,
  mem_open_read, mem_open_write, mem_remove, mem_send, mem_sendfile, mem_stat, new_inode, on_node,
  on_open, path_in, put_node, put_slot, rest_in, take_slot, truncated, appended,
}
use ok_snap.Undo.Memory.Instance.{memory-IsPosix}
use ok_snap.Undo.Defs.{
  do_undo, copyfile, check_dir, create_all_types, create_directory, create_file, create_kind,
  create_parent_directories, create_parents, delete_all_types, delete_kind, fill_file, leading_path,
  made_dir, make_parent, modify_all_types, modify_as, modify_content, undo_status, with_dest,
  with_src, clonefile,
}
use ok_snap.Undo.Copy.{copyfile_enough}
use ok_snap.Undo.Results.{do_undo-Restored, do_undo-Gone, do_undo-attributes}
use ok_snap.Undo.Root.{do_undo_root}
use ok_snap.Files.Defs.{FilePaths, File, file, get_absolute_path, path_prefix}
use ok_snap.Base.{
  ℕ, ◌≡◌, refl, false, false≢true, Option, none, some, [], arith, ◌==◌, if◌then◌else◌, Text, codes,
  text_eq,
}
use ok_snap.Undo.Parents.{OtherAbove}
use ok_snap.Undo.Create.{Restored}
use ok_snap.Undo.Whole.{Wide}
use ok_snap.Undo.Posix.{Call}
use ok_snap.Files.Status.{created, deleted, permissions, is_clean}
use ok_snap.Compare.Content.{take, drop}

abbrev inode : Body → ℕ → ℕ → ℕ → Option Inode
inode body perm owner group =
    some (record { body = body; perm = perm; owner = owner; owner_group = group })

-- A link where the snapshot has a file, and two files beside it.
abbrev tree : Text → Option Inode
tree path =
    if text_eq path (codes "/m")
    then inode directory 493 0 0
    else if text_eq path (codes "/m/a")
    then inode (link (codes "b")) 511 0 0
    else if text_eq path (codes "/m/b")
    then inode (regular (codes "old")) 384 7 8
    else if text_eq path (codes "/s/a")
    then inode (regular (codes "text")) 420 1 2
    else if text_eq path (codes "/s/b")
    then inode (regular (codes "old")) 420 7 8
    else none

abbrev start : Memory
start = record { nodes = tree; slots = λ fd. none; next = 3 }

abbrev paths : FilePaths
paths = record { system_path = codes "/m"; pre_path = codes "/s"; post_path = codes "/t" }

abbrev replaced : File
replaced = file (codes "/a") 52

abbrev wanted : Inode
wanted = record { body = regular (codes "text"); perm = 420; owner = 1; owner_group = 2 }

do_undo-Restored_example :
    let ended = do_undo memory 10 paths replaced start in
    Wide memory_view (codes "/m/a") (codes "/s/a") start ended.1
    × Restored memory-IsPosix (codes "/m/a") (codes "/s/a") wanted ended.1
unfolding get_absolute_path path_prefix text_eq OtherAbove leading_path do_undo undo_status
    delete_all_types delete_kind create_all_types create_parent_directories create_parents
    create_kind create_directory create_file with_src with_dest fill_file clonefile copyfile
    modify_all_types modify_as modify_content check_dir make_parent made_dir mem_lstat mem_stat
    mem_mkdir mem_remove on_node mem_lchown mem_open_read mem_open_write on_open mem_clone mem_send
    mem_sendfile take_slot truncated put_node put_slot appended content_of new_inode take drop
    path_in rest_in is_clean
do_undo-Restored_example =
    do_undo-Restored memory-IsPosix 10 paths replaced start wanted
      (record { apart = refl; below = (refl, (refl, tt)); beside = (refl, (refl, tt)) }) refl refl
      refl refl refl (λ h. absurd (false≢true h)) (λ h. absurd (false≢true h)) (λ h. refl) refl

abbrev fresh : File
fresh = file (codes "/b") created

do_undo-Gone_example :
    let ended = do_undo memory 10 paths fresh start in
    Call memory_view (codes "/m/b") start ended.1 × (memory_view.node ended.1 (codes "/m/b") ≡ none)
unfolding get_absolute_path path_prefix text_eq OtherAbove leading_path do_undo undo_status
    delete_all_types delete_kind create_all_types create_parent_directories create_parents
    create_kind create_directory create_file with_src with_dest fill_file clonefile copyfile
    modify_all_types modify_as modify_content check_dir make_parent made_dir mem_lstat mem_stat
    mem_mkdir mem_remove on_node mem_lchown mem_open_read mem_open_write on_open mem_clone mem_send
    mem_sendfile take_slot truncated put_node put_slot appended content_of new_inode take drop
    path_in rest_in is_clean
do_undo-Gone_example = do_undo-Gone memory-IsPosix 10 paths fresh start refl refl refl

abbrev reowned : File
reowned = file (codes "/b") permissions

do_undo-attributes_example :
    let ended = do_undo memory 10 paths reowned start in
    Wide memory_view (codes "/m/b") (codes "/s/b") start ended.1
    × (memory_view.node ended.1 (codes "/m/b") ≡ inode (regular (codes "old")) 420 7 8)
unfolding get_absolute_path path_prefix text_eq OtherAbove leading_path do_undo undo_status
    delete_all_types delete_kind create_all_types create_parent_directories create_parents
    create_kind create_directory create_file with_src with_dest fill_file clonefile copyfile
    modify_all_types modify_as modify_content check_dir make_parent made_dir mem_lstat mem_stat
    mem_mkdir mem_remove on_node mem_lchown mem_open_read mem_open_write on_open mem_clone mem_send
    mem_sendfile take_slot truncated put_node put_slot appended content_of new_inode take drop
    path_in rest_in is_clean
do_undo-attributes_example =
    do_undo-attributes memory-IsPosix 10 paths reowned start
      (record { body = regular (codes "old"); perm = 384; owner = 7; owner_group = 8 })
      (record { body = regular (codes "old"); perm = 420; owner = 7; owner_group = 8 })
      (record { apart = refl; below = (refl, (refl, tt)); beside = (refl, (refl, tt)) }) refl refl
      refl refl refl refl refl refl

-- A file that was deleted right under the root.
do_undo_root_example :
    (do_undo memory 10
      (record paths { system_path = codes "/" })
      (file (codes "/a") deleted)
      start).0.0
    ≡ false
unfolding get_absolute_path path_prefix text_eq OtherAbove leading_path do_undo undo_status
    delete_all_types delete_kind create_all_types create_parent_directories create_parents
    create_kind create_directory create_file with_src with_dest fill_file clonefile copyfile
    modify_all_types modify_as modify_content check_dir make_parent made_dir mem_lstat mem_stat
    mem_mkdir mem_remove on_node mem_lchown mem_open_read mem_open_write on_open mem_clone mem_send
    mem_sendfile take_slot truncated put_node put_slot appended content_of new_inode take drop
    path_in rest_in is_clean
do_undo_root_example =
    do_undo_root memory-IsPosix 10 (record paths { system_path = codes "/" })
      (file (codes "/a") deleted) (codes "a") start refl refl refl refl

-- The new file is empty, and all of its source is left to read.
abbrev copying : Memory
copying = record start {
  slots = λ fd.
      if fd == 4
      then some (record { path = codes "/m/b"; rest = [] })
      else if fd == 3
      then some (record { path = codes "/s/a"; rest = codes "text" })
      else none;
}

copyfile_enough_example : copyfile memory 9 3 4 copying ≡ copyfile memory 5 3 4 copying
unfolding get_absolute_path path_prefix text_eq OtherAbove leading_path do_undo undo_status
    delete_all_types delete_kind create_all_types create_parent_directories create_parents
    create_kind create_directory create_file with_src with_dest fill_file clonefile copyfile
    modify_all_types modify_as modify_content check_dir make_parent made_dir mem_lstat mem_stat
    mem_mkdir mem_remove on_node mem_lchown mem_open_read mem_open_write on_open mem_clone mem_send
    mem_sendfile take_slot truncated put_node put_slot appended content_of new_inode take drop
    path_in rest_in is_clean
copyfile_enough_example =
    copyfile_enough memory-IsPosix (codes "/m/b") (codes "/s/a") 3 4 9 5 copying
      (record { body = regular (codes "old"); perm = 384; owner = 7; owner_group = 8 })
      (codes "old") (refl, refl, refl) refl refl (omega arith) (omega arith)
