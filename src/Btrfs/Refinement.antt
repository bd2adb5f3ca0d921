-- ===== src/Btrfs/Refinement.antt =====
-- `created` and `deleted` of `StreamProcessor` against a map from names to statuses.
use ok_snap.Base.{
  ℕ, bit_or, ◌≡◌, refl, sym, ap, ◌∙◌, inl, inr, true, false≢true, Option, none, some, List, [], ◌∷◌,
  arith, if◌then◌else◌, Bool-cases, Option-cases, Text, text_eq_iff,
}
use ok_snap.Btrfs.Marked.{find-insert, status_at-erase, status_at-insert}
use ok_snap.Files.Status.{created, deleted, content, permissions, user, group}
use ok_snap.Btrfs.TreeNode.{
  TreeNode, node, find_node, insert_node, or_new, status_in, childs_in, changed_status,
  created_mark, created_file, deleted_file,
}
use ok_snap.Btrfs.Statuses.{same_path, status_or, status_at}
use ok_snap.Btrfs.Stream.{
  process, clone, write, link, unlink, rmdir, chmod, chown, symlink, truncate, update_extent,
  utimes, mkfile, mkdir, mknod, mkfifo, mksock, set_xattr, remove_xattr, or_status, Command,
}

same_path_sound :
    (a : Text) (xs : List Text) (b : Text) (ys : List Text)
    → same_path a xs b ys ≡ true
    → (a ≡ b) × (xs ≡ ys)
unfolding same_path
same_path_sound a [] b [] h = ((text_eq_iff a b).0 h, refl)
same_path_sound a [] b (y ∷ ys) h = absurd (false≢true h)
same_path_sound a (x ∷ xs) b [] h = absurd (false≢true h)
same_path_sound a (x ∷ xs) b (y ∷ ys) h =
    let (same, rest) = same_path_sound x xs y ys (ground arith) in
    ((text_eq_iff a b).0 (ground arith), (λ i. same i ∷ rest i))

same_status :
    (a : Text) (xs : List Text) (b : Text) (ys : List Text) (t : TreeNode)
    → same_path a xs b ys ≡ true
    → status_at b ys t ≡ status_at a xs t
same_status a xs b ys t h =
    let (same, rest) = same_path_sound a xs b ys h in λ i. status_at (sym same i) (sym rest i) t

-- The map after writing the status of one name.
abbrev pub update : Text → List Text → ℕ → (Text → List Text → ℕ) → Text → List Text → ℕ
update a xs s statuses b ys = if same_path a xs b ys then s else statuses b ys

-- What a file that is created, or deleted, gets by what the tree has of its name.
abbrev pub status_created : Option TreeNode → ℕ
status_created none = created
status_created (some t) = changed_status (status_in t)

abbrev pub status_deleted : Option TreeNode → ℕ
status_deleted none = deleted
status_deleted (some t) = 0

insert-update :
    (mark : TreeNode → TreeNode) (a : Text) (xs : List Text) (b : Text) (ys : List Text)
    (t : TreeNode)
    → ((x : TreeNode) → childs_in (mark x) ≡ childs_in x)
    → status_at b ys (insert_node mark a xs t)
      ≡ update a xs (status_in (mark (or_new (find_node a xs t)))) (λ c zs. status_at c zs t) b ys
insert-update mark a xs b ys t keep = elim (Bool-cases (same_path a xs b ys)) [
  | inl hit ↦
      let e =
        same_status a xs b ys (insert_node mark a xs t) hit
        ∙ ap status_or (find-insert mark a xs t) in
      rw hit e
  | inr miss ↦ let e = status_at-insert mark a xs b ys t keep miss in rw miss e
]

mark_keeps : (o : Option TreeNode) (x : TreeNode) → childs_in (created_mark o x) ≡ childs_in x
mark_keeps none (node s cs) = refl
mark_keeps (some t) (node s cs) = refl

marked_status : (o : Option TreeNode) → status_in (created_mark o (or_new o)) ≡ status_created o
marked_status none = refl
marked_status (some (node s cs)) = refl

created-update :
    (a : Text) (xs : List Text) (b : Text) (ys : List Text) (t : TreeNode)
    → status_at b ys (created_file a xs t)
      ≡ update a xs (status_created (find_node a xs t)) (λ c zs. status_at c zs t) b ys
unfolding created_file
created-update a xs b ys t =
    let o = find_node a xs t in
    insert-update (created_mark o) a xs b ys t (mark_keeps o)
    ∙ ap (λ s. update a xs s (λ c zs. status_at c zs t) b ys) (marked_status o)

deleted-update :
    (a : Text) (xs : List Text) (b : Text) (ys : List Text) (t : TreeNode)
    → status_at b ys (deleted_file a xs t)
      ≡ update a xs (status_deleted (find_node a xs t)) (λ c zs. status_at c zs t) b ys
unfolding deleted_file
deleted-update a xs b ys t = elim (Option-cases (find_node a xs t)) [
  | inl missing ↦
      let e = insert-update (λ x. node deleted (childs_in x)) a xs b ys t (λ x. refl) in
      rw (missing, deleted_file) e
  | inr (x, there) ↦ let e = status_at-erase a xs b ys t in rw (there, deleted_file) e
]

-- A further flag for what the tree has of a name.
abbrev pub status_flagged : ℕ → Option TreeNode → ℕ
status_flagged flag o = bit_or (status_or o) flag

flagged-update :
    (flag : ℕ) (a : Text) (xs : List Text) (b : Text) (ys : List Text) (t : TreeNode)
    → status_at b ys (insert_node (or_status flag) a xs t)
      ≡ update a xs (status_flagged flag (find_node a xs t)) (λ c zs. status_at c zs t) b ys
flagged-update flag a xs b ys t =
    insert-update (or_status flag) a xs b ys t (keeps flag)
    ∙ ap (λ s. update a xs s (λ c zs. status_at c zs t) b ys) (flagged flag (find_node a xs t))
  where
    keeps : (flag : ℕ) (x : TreeNode) → childs_in (or_status flag x) ≡ childs_in x
    keeps flag (node s cs) = refl

    flagged :
        (flag : ℕ) (o : Option TreeNode)
        → status_in (or_status flag (or_new o)) ≡ status_flagged flag o
    flagged flag none = refl
    flagged flag (some (node s cs)) = refl

-- What a command means for a map from names to statuses, where `found` says what the tree has of a
-- name.
abbrev pub command_update :
    Command → (Text → List Text → Option TreeNode) → (Text → List Text → ℕ) → Text → List Text → ℕ
command_update (mkfile (a, xs)) found m = update a xs (status_created (found a xs)) m
command_update (mkdir (a, xs)) found m = update a xs (status_created (found a xs)) m
command_update (symlink (a, xs)) found m = update a xs (status_created (found a xs)) m
command_update (link (a, xs)) found m = update a xs (status_created (found a xs)) m
command_update (unlink (a, xs)) found m = update a xs (status_deleted (found a xs)) m
command_update (rmdir (a, xs)) found m = update a xs (status_deleted (found a xs)) m
command_update (write (a, xs)) found m = update a xs (status_flagged content (found a xs)) m
command_update (clone (a, xs)) found m = update a xs (status_flagged content (found a xs)) m
command_update (truncate (a, xs)) found m = update a xs (status_flagged content (found a xs)) m
command_update (update_extent (a, xs)) found m = update a xs (status_flagged content (found a xs)) m
command_update (chmod (a, xs)) found m = update a xs (status_flagged permissions (found a xs)) m
command_update (chown (a, xs)) found m =
    update a xs (status_flagged (bit_or user group) (found a xs)) m
command_update (mknod p) found m = m
command_update (mkfifo p) found m = m
command_update (mksock p) found m = m
command_update (set_xattr p) found m = m
command_update (remove_xattr p) found m = m
command_update (utimes p) found m = m

-- Each command but a rename is an update of the map from names to statuses at its path, whatever
-- else the tree has: a created file gets `CREATED` where the tree had nothing of its name, and else
-- the flags of a change in place of `CREATED` and `DELETED`; a deleted file gets `DELETED` where the
-- tree had nothing of its name, and no status where it had something; a write, a change of the mode
-- or of the owner adds its flags; the other commands leave the map.
pub process-update :
    (c : Command) (b : Text) (ys : List Text) (t : TreeNode)
    → status_at b ys (process c t)
      ≡ command_update c (λ a xs. find_node a xs t) (λ a xs. status_at a xs t) b ys
unfolding process
process-update (mkfile (a, xs)) b ys t = created-update a xs b ys t
process-update (mkdir (a, xs)) b ys t = created-update a xs b ys t
process-update (symlink (a, xs)) b ys t = created-update a xs b ys t
process-update (link (a, xs)) b ys t = created-update a xs b ys t
process-update (unlink (a, xs)) b ys t = deleted-update a xs b ys t
process-update (rmdir (a, xs)) b ys t = deleted-update a xs b ys t
process-update (write (a, xs)) b ys t = flagged-update content a xs b ys t
process-update (clone (a, xs)) b ys t = flagged-update content a xs b ys t
process-update (truncate (a, xs)) b ys t = flagged-update content a xs b ys t
process-update (update_extent (a, xs)) b ys t = flagged-update content a xs b ys t
process-update (chmod (a, xs)) b ys t = flagged-update permissions a xs b ys t
process-update (chown (a, xs)) b ys t = flagged-update (bit_or user group) a xs b ys t
process-update (mknod p) b ys t = refl
process-update (mkfifo p) b ys t = refl
process-update (mksock p) b ys t = refl
process-update (set_xattr p) b ys t = refl
process-update (remove_xattr p) b ys t = refl
process-update (utimes p) b ys t = refl
