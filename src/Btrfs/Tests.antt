-- ===== src/Btrfs/Tests.antt =====
-- Trees of changed files.
use ok_snap.Base.{◌≡◌, refl, true, none, [], ◌∷◌, In, codes, text_eq, text_lt}
use ok_snap.Btrfs.Result.{result_childs_complete}
use ok_snap.Btrfs.Refinement.{command_update, process-update}
use ok_snap.Btrfs.Statuses.{status_at}
use ok_snap.Files.Status.{created, deleted, content}
use ok_snap.Btrfs.TreeNode.{
  TreeNode, node, nothing, child, new_node, find_node, created_file, deleted_file, rename_node,
  childs_in, changed_status,
}
use ok_snap.Btrfs.Renamed.{rename_node-Moved, is_apart}
use ok_snap.Btrfs.Stream.{process, mkfile, mkdir, write, process_rename, result_childs}

-- A file `etc/a` is created, and `etc/b` deleted.
abbrev changes : TreeNode
changes =
    created_file (codes "etc") (codes "a" ∷ [])
      (deleted_file (codes "etc") (codes "b" ∷ []) new_node)

changes_tree :
    changes
    ≡ node 0 (
        child
          (codes "etc")
          (node 0 (
            child
              (codes "a")
              (node created nothing)
              (child (codes "b") (node deleted nothing) nothing)))
          nothing)
unfolding created_file deleted_file text_eq text_lt
changes_tree = refl

rename_node-Moved_example :
    ((rename_node (codes "etc") [] (codes "tmp") [] changes).0 ≡ true)
    × (find_node (codes "tmp") [] (rename_node (codes "etc") [] (codes "tmp") [] changes).1
        ≡ find_node (codes "etc") [] changes)
    × (find_node (codes "etc") [] (rename_node (codes "etc") [] (codes "tmp") [] changes).1 ≡ none)
    × (find_node (codes "usr") [] (rename_node (codes "etc") [] (codes "tmp") [] changes).1
        ≡ find_node (codes "usr") [] changes)
unfolding created_file deleted_file text_eq text_lt is_apart
rename_node-Moved_example =
    rename_node-Moved (codes "etc") [] (codes "tmp") [] (codes "usr") [] _ changes refl refl refl
      refl refl

process-update_example :
    status_at
      (codes "etc")
      (codes "c" ∷ [])
      (process (mkfile (codes "etc", codes "a" ∷ [])) changes)
    ≡ command_update
        (mkfile (codes "etc", codes "a" ∷ []))
        (λ a xs. find_node a xs changes)
        (λ a xs. status_at a xs changes)
        (codes "etc")
        (codes "c" ∷ [])
process-update_example =
    process-update (mkfile (codes "etc", codes "a" ∷ [])) (codes "etc") (codes "c" ∷ []) changes

-- A directory is renamed to a name that the tree has already: what is nested deeper gets the new
-- name twice.
merged_twice :
    result_childs [] (
      childs_in (
        process_rename
          (codes "a", [])
          (codes "b", [])
          []
          (process (write (codes "b", [])) (
            process
              (mkfile (codes "a", codes "d" ∷ codes "x" ∷ []))
              (process (mkdir (codes "a", codes "d" ∷ [])) new_node)))))
    ≡ (codes "b" ∷ [], changed_status content)
      ∷ (codes "b" ∷ codes "b" ∷ codes "d" ∷ codes "x" ∷ [], created)
      ∷ (codes "b" ∷ codes "d" ∷ [], created)
      ∷ []
unfolding process_rename process result_childs text_eq text_lt
merged_twice = refl

result_childs_complete_example :
    In
      (
        codes "etc" ∷ codes "a" ∷ [],
        status_at (codes "etc") (codes "a" ∷ []) (node 0 (childs_in changes)),
      )
      (result_childs [] (childs_in changes))
unfolding created_file deleted_file text_eq text_lt
result_childs_complete_example =
    result_childs_complete [] (codes "etc") (codes "a" ∷ []) 0 (childs_in changes) (λ e. cc)
