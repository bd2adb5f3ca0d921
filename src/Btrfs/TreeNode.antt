-- ===== src/Btrfs/TreeNode.antt =====
-- `tree_node`, and the operations of `StreamProcessor` and of `process_rename` on it. A name is given
-- by its parts between the slashes, of which there is one at least.
use ok_snap.Base.{
  ℕ, ◌-◌, ◌^◌, bit_and, bit_or, Bool, true, false, ◌&&◌, Option, none, some, List, [], ◌∷◌, ◌==◌,
  if◌then◌else◌, Text, text_eq, text_lt,
}
use ok_snap.Files.Status.{created, deleted, content, permissions, user, group}

mutual
  pub data TreeNode : Type 0 where
    node : ℕ → Childs → TreeNode

  -- `map<string, tree_node>`: the names are distinct and ascending.
  pub data Childs : Type 0 where
    nothing : Childs
    child : Text → TreeNode → Childs → Childs

abbrev pub new_node : TreeNode
new_node = node 0 nothing

abbrev pub status_in : TreeNode → ℕ
status_in (node s cs) = s

abbrev pub childs_in : TreeNode → Childs
childs_in (node s cs) = cs

abbrev pub no_childs : Childs → Bool
no_childs nothing = true
no_childs (child a t cs) = false

unfoldable pub find_child : Text → Childs → Option TreeNode
find_child a nothing = none
find_child a (child b t cs) = if text_eq b a then some t else find_child a cs

-- Writing the node of a name, which may be a new one.
unfoldable pub put_child : Text → TreeNode → Childs → Childs
put_child a t nothing = child a t nothing
put_child a t (child b u cs) =
    if text_eq b a
    then child b t cs
    else if text_lt b a
    then child b u (put_child a t cs)
    else child a t (child b u cs)

unfoldable pub erase_child : Text → Childs → Childs
erase_child a nothing = nothing
erase_child a (child b t cs) =
    if text_eq b a then erase_child a cs else child b t (erase_child a cs)

-- `tree_node::find`
unfoldable pub find_node : Text → List Text → TreeNode → Option TreeNode
unfolding find_child
find_node a [] (node s cs) = find_child a cs
find_node a (b ∷ rest) (node s cs) = elim (find_child a cs) [
  | none ↦ none
  | some t ↦ find_node b rest t
]

abbrev pub or_new : Option TreeNode → TreeNode
or_new none = new_node
or_new (some t) = t

-- `tree_node::insert`, and what is then written through the pointer that it gives.
unfoldable pub insert_node : (TreeNode → TreeNode) → Text → List Text → TreeNode → TreeNode
unfolding find_child put_child
insert_node write a [] (node s cs) = node s (put_child a (write (or_new (find_child a cs))) cs)
insert_node write a (b ∷ rest) (node s cs) =
    node s (put_child a (insert_node write b rest (or_new (find_child a cs))) cs)

-- What `tree_node::erase` does with the node that it comes to.
abbrev pub erase_found : Text → Childs → Option TreeNode → Childs
erase_found a cs none = cs
erase_found a cs (some (node s nothing)) = erase_child a cs
erase_found a cs (some (node s (child b t ds))) = put_child a (node 0 (child b t ds)) cs

-- And on the way back from there.
abbrev pub trim : Text → Childs → TreeNode → Childs
trim a cs (node s ds) =
    if (s == 0) && no_childs ds then erase_child a cs else put_child a (node s ds) cs

-- `tree_node::erase`; nobody reads what it returns.
unfoldable pub erase_node : Text → List Text → TreeNode → TreeNode
unfolding find_child erase_child put_child
erase_node a [] (node s cs) = node s (erase_found a cs (find_child a cs))
erase_node a (b ∷ rest) (node s cs) = elim (find_child a cs) [
  | none ↦ node s cs
  | some t ↦ node s (trim a cs (erase_node b rest t))
]

-- `tree_node::rename`, to a name that is not below the old one.
abbrev pub rename_found : Text → List Text → Text → List Text → TreeNode → TreeNode → TreeNode
rename_found o os n ns oo t =
    erase_node o os
      (insert_node (λ x. node (status_in x) nothing) o os (insert_node (λ nn. oo) n ns t))

unfoldable pub rename_node : Text → List Text → Text → List Text → TreeNode → Bool × TreeNode
unfolding find_node insert_node erase_node
rename_node o os n ns t = elim (find_node o os t) [
  | none ↦ (false, t)
  | some oo ↦ elim (find_node n ns t) [
    | some nn ↦ (false, t)
    | none ↦ (true, rename_found o os n ns oo t)
  ]
]

-- `status &= ~(CREATED | DELETED); status |= CONTENT | PERMISSIONS | USER | GROUP;`
abbrev pub changed_status : ℕ → ℕ
changed_status s =
    bit_or (bit_and s (2 ^ 32 - 1 - bit_or created deleted))
      (bit_or content (bit_or permissions (bit_or user group)))

abbrev pub created_mark : Option TreeNode → TreeNode → TreeNode
created_mark none (node s cs) = node created cs
created_mark (some t) (node s cs) = node (changed_status s) cs

-- `StreamProcessor::created` and `deleted`
unfoldable pub created_file : Text → List Text → TreeNode → TreeNode
unfolding find_node insert_node
created_file a rest t = insert_node (created_mark (find_node a rest t)) a rest t

unfoldable pub deleted_file : Text → List Text → TreeNode → TreeNode
unfolding find_node insert_node erase_node
deleted_file a rest t = elim (find_node a rest t) [
  | none ↦ insert_node (λ x. node deleted (childs_in x)) a rest t
  | some x ↦ erase_node a rest t
]
