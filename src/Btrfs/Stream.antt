-- ===== src/Btrfs/Stream.antt =====
-- The commands of the send stream and what they do to the tree of changed files.
use ok_snap.Base.{ℕ, bit_or, Option, none, some, List, [], ◌∷◌, ◌++◌, ◌==◌, if◌then◌else◌, Text}
use ok_snap.Files.Status.{content, permissions, user, group}
use ok_snap.Btrfs.TreeNode.{
  TreeNode, node, insert_node, created_file, deleted_file, Childs, changed_status, childs_in,
  find_node, rename_node, status_in, child, nothing,
}

-- A name with its parts.
abbrev pub TreePath : Type 0
TreePath = Text × List Text

-- The commands that name one path.
pub data Command : Type 0 where
  mkfile mkdir mknod mkfifo mksock symlink link : TreePath → Command
  unlink rmdir : TreePath → Command
  write clone truncate update_extent chmod chown : TreePath → Command
  set_xattr remove_xattr utimes : TreePath → Command

abbrev pub or_status : ℕ → TreeNode → TreeNode
or_status flag (node s cs) = node (bit_or s flag) cs

-- `process_mkfile` and so on.
unfoldable pub process : Command → TreeNode → TreeNode
unfolding created_file deleted_file insert_node
process (mkfile (a, xs)) t = created_file a xs t
process (mkdir (a, xs)) t = created_file a xs t
process (mknod p) t = t
process (mkfifo p) t = t
process (mksock p) t = t
process (symlink (a, xs)) t = created_file a xs t
process (link (a, xs)) t = created_file a xs t
process (unlink (a, xs)) t = deleted_file a xs t
process (rmdir (a, xs)) t = deleted_file a xs t
process (write (a, xs)) t = insert_node (or_status content) a xs t
process (clone (a, xs)) t = insert_node (or_status content) a xs t
process (truncate (a, xs)) t = insert_node (or_status content) a xs t
process (update_extent (a, xs)) t = insert_node (or_status content) a xs t
process (chmod (a, xs)) t = insert_node (or_status permissions) a xs t
process (chown (a, xs)) t = insert_node (or_status (bit_or user group)) a xs t
process (set_xattr p) t = t
process (remove_xattr p) t = t
process (utimes p) t = t

-- The mark that `merge` sets.
abbrev pub merged_mark : ℕ → Option TreeNode → TreeNode → TreeNode
merged_mark status none (node s cs) = node status cs
merged_mark status (some t) (node s cs) = node (changed_status s) cs

abbrev pub merge_mark : ℕ → TreePath → TreeNode → TreeNode
merge_mark status (a, xs) t = insert_node (merged_mark status (find_node a xs t)) a xs t

unfoldable mutual
  unfolding find_node insert_node

  -- `merge` on the children of `tmp`: `prefix` has the parts of the argument of that name.
  pub merge_childs : TreePath → List Text → Childs → TreeNode → TreeNode
  merge_childs to prefix nothing files = files
  merge_childs to prefix (child a t cs) files =
      let x : TreePath = (to.0, to.1 ++ prefix ++ a ∷ []) in
      merge_childs to prefix cs (merge_below to (x.0 ∷ x.1) t (merge_mark (status_in t) x files))

  pub merge_below : TreePath → List Text → TreeNode → TreeNode → TreeNode
  merge_below to prefix (node s cs) files = merge_childs to prefix cs files

-- The loop over `entries_recursive` of what had the old name in the first snapshot; there are no
-- entries where that was not a directory.
unfoldable pub rename_entries : TreePath → TreePath → List (List Text) → TreeNode → TreeNode
unfolding created_file deleted_file
rename_entries from to [] files = files
rename_entries from to (e ∷ es) files =
    rename_entries from to es
      (created_file to.0 (to.1 ++ e) (deleted_file from.0 (from.1 ++ e) files))

abbrev pub without_childs : TreeNode → TreeNode
without_childs (node s cs) = node s nothing

unfoldable pub process_rename : TreePath → TreePath → List (List Text) → TreeNode → TreeNode
unfolding find_node insert_node created_file deleted_file rename_node merge_childs rename_entries
process_rename (o, os) (n, ns) entries files = elim (find_node o os files) [
  | none ↦ rename_entries (o, os) (n, ns) entries (created_file n ns (deleted_file o os files))
  | some it1 ↦ elim (find_node n ns files) [
    | none ↦ (rename_node o os n ns files).1
    | some it2 ↦
        merge_childs (n, ns) [] (childs_in it1)
          (created_file n ns (deleted_file o os (insert_node without_childs o os files)))
  ]
]

unfoldable mutual
  -- `tree_node::result`: the calls of the callback, with the parts of each name.
  pub result_childs : List Text → Childs → List (List Text × ℕ)
  result_childs prefix nothing = []
  result_childs prefix (child a t cs) =
      let below = result_node (prefix ++ a ∷ []) t in
      let rest = result_childs prefix cs in
      if status_in t == 0 then below ++ rest else (prefix ++ a ∷ [], status_in t) ∷ (below ++ rest)

  pub result_node : List Text → TreeNode → List (List Text × ℕ)
  result_node prefix (node s cs) = result_childs prefix cs
