-- ===== src/Btrfs/Renamed.antt =====
-- `tree_node::rename` moves a node with all that is below it.
use ok_snap.Base.{
  ℕ, ◌≡◌, refl, sym, ap, ◌∙◌, ◌⊎◌, inl, inr, Bool, true, false, not, ◌&&◌, ◌||◌, false≢true, Option,
  none, some, List, [], ◌∷◌, arith, ◌==◌, if◌then◌else◌, Bool-cases, Option-cases, text_eq_refl,
  text_eq_comm, Text, text_eq, text_eq_iff,
}
use ok_snap.Btrfs.Marked.{find-insert, find_nothing}
use ok_snap.Btrfs.TreeNode.{
  TreeNode, Childs, node, nothing, child, find_child, put_child, erase_child, find_node, trim,
  erase_found, no_childs, erase_node, insert_node, or_new, rename_node, status_in,
}
use ok_snap.Btrfs.Statuses.{
  find_under, find_under_put, below_child, below_if, find-erase, find-put, find_below,
}

-- Neither name is the other one, or below it.
unfoldable pub is_apart : Text → List Text → Text → List Text → Bool
unfolding text_eq
is_apart a [] b ys = not (text_eq a b)
is_apart a (x ∷ xs) b [] = not (text_eq a b)
is_apart a (x ∷ xs) b (y ∷ ys) = not (text_eq a b) || is_apart x xs y ys

find_under_erase :
    (a b y : Text) (ys : List Text) (s s' : ℕ) (cs : Childs)
    → find_node b (y ∷ ys) (node s' (erase_child a cs))
      ≡ (if text_eq a b then none else find_node b (y ∷ ys) (node s cs))
find_under_erase a b y ys s s' cs =
    find_under b y ys s' (erase_child a cs)
    ∙ ap (below_child y ys) (find-erase a b cs)
    ∙ below_if y ys (text_eq a b) none (find_child b cs)
    ∙ ap (λ o. if text_eq a b then none else o) (sym (find_under b y ys s cs))

module _ (a b : Text) (s : ℕ) (cs : Childs) (other : text_eq a b ≡ false) where
  put_elsewhere :
      (t : TreeNode) (ys : List Text)
      → find_node b ys (node s (put_child a t cs)) ≡ find_node b ys (node s cs)
  unfolding find_node
  put_elsewhere t [] = rw (find-put a b t cs, other)
  put_elsewhere t (y ∷ ys) = rw (find_under_put a b y ys s s t cs, other)

  erase_elsewhere :
      (ys : List Text) → find_node b ys (node s (erase_child a cs)) ≡ find_node b ys (node s cs)
  unfolding find_node
  erase_elsewhere [] = rw (find-erase a b cs, other)
  erase_elsewhere (y ∷ ys) = rw (find_under_erase a b y ys s s cs, other)

  trim_elsewhere :
      (t : TreeNode) (ys : List Text)
      → find_node b ys (node s (trim a cs t)) ≡ find_node b ys (node s cs)
  trim_elsewhere (node s' ds) ys = elim (Bool-cases ((s' == 0) && no_childs ds)) [
    | inl empty ↦ rw empty (erase_elsewhere ys)
    | inr kept ↦ rw kept (put_elsewhere (node s' ds) ys)
  ]

  erase_found_elsewhere :
      (o : Option TreeNode) (ys : List Text)
      → find_node b ys (node s (erase_found a cs o)) ≡ find_node b ys (node s cs)
  erase_found_elsewhere none ys = refl
  erase_found_elsewhere (some (node s' nothing)) ys = erase_elsewhere ys
  erase_found_elsewhere (some (node s' (child c u ds))) ys =
      put_elsewhere (node 0 (child c u ds)) ys

-- Where the first part is the same, a child is written whose rest is found as before.
put_here :
    (a b y : Text) (ys : List Text) (s : ℕ) (t : TreeNode) (cs : Childs)
    → (text_eq a b ≡ true → find_node y ys t ≡ below_child y ys (find_child a cs))
    → find_node b (y ∷ ys) (node s (put_child a t cs)) ≡ find_node b (y ∷ ys) (node s cs)
put_here a b y ys s t cs here = elim (Bool-cases (text_eq a b)) [
  | inl hit ↦
      let same = (text_eq_iff a b).0 hit in
      rw (find_under_put a b y ys s s t cs, hit)
        (here hit
          ∙ ap (λ c. below_child y ys (find_child c cs)) same
          ∙ sym (find_under b y ys s cs))
  | inr miss ↦ put_elsewhere a b s cs miss t (y ∷ ys)
]

find-insert_apart :
    (write : TreeNode → TreeNode) (a : Text) (xs : List Text) (b : Text) (ys : List Text)
    (t : TreeNode)
    → is_apart a xs b ys ≡ true
    → find_node b ys (insert_node write a xs t) ≡ find_node b ys t
unfolding insert_node is_apart
find-insert_apart write a [] b ys (node s cs) apart = put_elsewhere a b s cs (ground arith) _ ys
find-insert_apart write a (x ∷ xs) b [] (node s cs) apart =
    put_elsewhere a b s cs (ground arith) _ []
find-insert_apart write a (x ∷ xs) b (y ∷ ys) (node s cs) apart =
    let ih = find-insert_apart write x xs y ys (or_new (find_child a cs)) in
    put_here a b y ys s (insert_node write x xs (or_new (find_child a cs))) cs
      (λ hit. ih (rw hit at apart) ∙ find_below y ys (find_child a cs))

find_bare :
    (y : Text) (ys : List Text) (s : ℕ) (ds : Childs)
    → no_childs ds ≡ true
    → find_node y ys (node s ds) ≡ none
find_bare y ys s nothing h = find_nothing y ys s
find_bare y ys s (child c u ds) h = absurd (false≢true h)

bare_of : (s : ℕ) (ds : Childs) → (s == 0) && no_childs ds ≡ true → no_childs ds ≡ true
bare_of s ds h = ground arith

-- `erase` on the way back keeps what is found below the name that is trimmed, if anything is.
trim_here :
    (a b y : Text) (ys : List Text) (s : ℕ) (t : TreeNode) (cs : Childs)
    → (text_eq a b ≡ true → find_node y ys t ≡ below_child y ys (find_child a cs))
    → find_node b (y ∷ ys) (node s (trim a cs t)) ≡ find_node b (y ∷ ys) (node s cs)
trim_here a b y ys s (node s' ds) cs here = elim (Bool-cases ((s' == 0) && no_childs ds)) [
  | inr kept ↦ rw kept (put_here a b y ys s (node s' ds) cs here)
  | inl empty ↦ rw empty (erased (bare_of s' ds empty) (Bool-cases (text_eq a b)))
]
  where
    erased :
        no_childs ds ≡ true
        → (text_eq a b ≡ true) ⊎ (text_eq a b ≡ false)
        → find_node b (y ∷ ys) (node s (erase_child a cs)) ≡ find_node b (y ∷ ys) (node s cs)
    erased bare (inr miss) = erase_elsewhere a b s cs miss (y ∷ ys)
    erased bare (inl hit) =
        let same = (text_eq_iff a b).0 hit in
        rw (find_under_erase a b y ys s s cs, hit)
          (sym (find_bare y ys s' ds bare)
            ∙ here hit
            ∙ ap (λ c. below_child y ys (find_child c cs)) same
            ∙ sym (find_under b y ys s cs))

find-erase_apart :
    (a : Text) (xs : List Text) (b : Text) (ys : List Text) (t : TreeNode)
    → is_apart a xs b ys ≡ true
    → find_node b ys (erase_node a xs t) ≡ find_node b ys t
unfolding erase_node is_apart
find-erase_apart a [] b ys (node s cs) apart =
    erase_found_elsewhere a b s cs (ground arith) (find_child a cs) ys
find-erase_apart a (x ∷ xs) b [] (node s cs) apart = elim (Option-cases (find_child a cs)) [
  | inl missing ↦ rw (missing, erase_node)
  | inr (t, there) ↦
      let e = trim_elsewhere a b s cs (ground arith) (erase_node x xs t) [] in
      rw (there, erase_node) e
]
find-erase_apart a (x ∷ xs) b (y ∷ ys) (node s cs) apart = elim (Option-cases (find_child a cs)) [
  | inl missing ↦ rw (missing, erase_node)
  | inr (t, there) ↦
      let ih = find-erase_apart x xs y ys t in
      let e =
        trim_here a b y ys s (erase_node x xs t) cs
          (λ hit. ih (rw hit at apart) ∙ ap (below_child y ys) (sym there)) in
      rw (there, erase_node) e
]

find-trim :
    (a y : Text) (ys : List Text) (s : ℕ) (t : TreeNode) (cs : Childs)
    → find_node y ys t ≡ none
    → find_node a (y ∷ ys) (node s (trim a cs t)) ≡ none
find-trim a y ys s (node s' ds) cs h = elim (Bool-cases ((s' == 0) && no_childs ds)) [
  | inl empty ↦ rw (empty, find_under_erase a a y ys s s cs, text_eq_refl a)
  | inr kept ↦ rw (kept, find_under_put a a y ys s s (node s' ds) cs, text_eq_refl a) h
]

-- A node without children is gone when it has been erased.
find-erase_leaf :
    (a : Text) (xs : List Text) (s' : ℕ) (t : TreeNode)
    → find_node a xs t ≡ some (node s' nothing)
    → find_node a xs (erase_node a xs t) ≡ none
unfolding find_node erase_node
find-erase_leaf a [] s' (node s cs) h = rw (h, find-erase a a cs, text_eq_refl a)
find-erase_leaf a (x ∷ xs) s' (node s cs) h = elim (Option-cases (find_child a cs)) [
  | inl missing ↦
      let gone = find_under a x xs s cs ∙ ap (below_child x xs) missing in
      rw (missing, erase_node) gone
  | inr (t, there) ↦
      let leaf = sym (find_under a x xs s cs ∙ ap (below_child x xs) there) ∙ h in
      let ih = find-erase_leaf x xs s' t leaf in
      let gone = find-trim a x xs s (erase_node x xs t) cs ih in rw (there, erase_node) gone
]

is_apart_sym :
    (a : Text) (xs : List Text) (b : Text) (ys : List Text)
    → is_apart a xs b ys ≡ true
    → is_apart b ys a xs ≡ true
unfolding is_apart
is_apart_sym a [] b [] h = ground (arith, text_eq_comm a b)
is_apart_sym a [] b (y ∷ ys) h = ground (arith, text_eq_comm a b)
is_apart_sym a (x ∷ xs) b [] h = ground (arith, text_eq_comm a b)
is_apart_sym a (x ∷ xs) b (y ∷ ys) h = ground (arith, text_eq_comm a b, is_apart_sym x xs y ys)

-- A rename of a name that the tree has to one that it does not have, neither of them below the
-- other: it returns true, the new name has the node that the old one had, with its status and all
-- that is below it, the old name has none any more, and names apart from both keep their nodes.
pub rename_node-Moved :
    (o : Text) (os : List Text) (n : Text) (ns : List Text) (b : Text) (ys : List Text)
    (oo t : TreeNode)
    → find_node o os t ≡ some oo
    → find_node n ns t ≡ none
    → is_apart o os n ns ≡ true
    → is_apart o os b ys ≡ true
    → is_apart n ns b ys ≡ true
    → ((rename_node o os n ns t).0 ≡ true)
      × (find_node n ns (rename_node o os n ns t).1 ≡ some oo)
      × (find_node o os (rename_node o os n ns t).1 ≡ none)
      × (find_node b ys (rename_node o os n ns t).1 ≡ find_node b ys t)
unfolding rename_node
rename_node-Moved o os n ns b ys oo t has_old no_new apart apart_o apart_n =
    let t1 = insert_node (λ nn. oo) n ns t in
    let strip : TreeNode → TreeNode = λ x. node (status_in x) nothing in
    let t2 = insert_node strip o os t1 in
    let moved =
      find-erase_apart o os n ns t2 apart
      ∙ find-insert_apart strip o os n ns t1 apart
      ∙ find-insert (λ nn. oo) n ns t in
    let gone = find-erase_leaf o os _ t2 (find-insert strip o os t1) in
    let kept =
      find-erase_apart o os b ys t2 apart_o
      ∙ find-insert_apart strip o os b ys t1 apart_o
      ∙ find-insert_apart (λ nn. oo) n ns b ys t apart_n in
    rw (has_old, rename_node, no_new) (refl, moved, gone, kept)
