-- ===== src/Btrfs/Statuses.antt =====
-- The tree as a map from names to statuses.
use ok_snap.Base.{
  ℕ, ◌≡◌, refl, sym, ap, ◌∙◌, inl, inr, Bool, true, false, ◌&&◌, Option, none, some, List, [], ◌∷◌,
  arith, if◌then◌else◌, Bool-cases, Option-cases, text_eq_same, text_eq_apart, Text, text_eq,
  text_lt,
}
use ok_snap.Btrfs.TreeNode.{
  TreeNode, Childs, nothing, child, find_child, put_child, erase_child, find_node, new_node, or_new,
  status_in, node,
}

pub find-put :
    (a b : Text) (t : TreeNode) (cs : Childs)
    → find_child b (put_child a t cs) ≡ (if text_eq a b then some t else find_child b cs)
unfolding find_child put_child
find-put a b t nothing = refl
find-put a b t (child c u cs) = elim (Bool-cases (text_eq c a)) [
  | inl hit ↦ let same = text_eq_same c a b hit in ground (arith, hit, same)
  | inr miss ↦ elim (Bool-cases (text_lt c a)) [
    | inr above ↦ rw (miss, above)
    | inl below ↦ elim (Bool-cases (text_eq c b)) [
      | inl this ↦ let apart = text_eq_apart c a b miss this in rw (miss, below, this, apart)
      | inr other ↦ let ih = find-put a b t cs in rw (miss, below, other) ih
    ]
  ]
]

pub find-erase :
    (a b : Text) (cs : Childs)
    → find_child b (erase_child a cs) ≡ (if text_eq a b then none else find_child b cs)
unfolding find_child erase_child
find-erase a b nothing = ground arith
find-erase a b (child c u cs) = elim (Bool-cases (text_eq c a)) [
  | inl hit ↦
      let same = text_eq_same c a b hit in
      let ih = find-erase a b cs in ground (arith, hit, same, ih)
  | inr miss ↦ elim (Bool-cases (text_eq c b)) [
    | inl this ↦ let apart = text_eq_apart c a b miss this in rw (miss, this, apart)
    | inr other ↦ let ih = find-erase a b cs in rw (miss, other) ih
  ]
]

-- Whether two names are the same.
unfoldable pub same_path : Text → List Text → Text → List Text → Bool
unfolding text_eq
same_path a [] b [] = text_eq a b
same_path a [] b (y ∷ ys) = false
same_path a (x ∷ xs) b [] = false
same_path a (x ∷ xs) b (y ∷ ys) = text_eq a b && same_path x xs y ys

-- The status of a name: 0 where the tree has no node.
abbrev pub status_or : Option TreeNode → ℕ
status_or none = 0
status_or (some t) = status_in t

abbrev pub status_at : Text → List Text → TreeNode → ℕ
status_at b ys t = status_or (find_node b ys t)

pub find_new : (b : Text) (ys : List Text) → find_node b ys new_node ≡ none
unfolding find_node find_child
find_new b [] = refl
find_new b (y ∷ ys) = refl

-- What stands below a child.
abbrev pub below_child : Text → List Text → Option TreeNode → Option TreeNode
below_child y ys none = none
below_child y ys (some t) = find_node y ys t

pub find_below :
    (y : Text) (ys : List Text) (o : Option TreeNode)
    → find_node y ys (or_new o) ≡ below_child y ys o
find_below y ys none = find_new y ys
find_below y ys (some t) = refl

-- What stands under a name is found under its first part.
pub find_under :
    (b y : Text) (ys : List Text) (s : ℕ) (cs : Childs)
    → find_node b (y ∷ ys) (node s cs) ≡ below_child y ys (find_child b cs)
unfolding find_node
find_under b y ys s cs = elim (Option-cases (find_child b cs)) [
  | inl nothing_there ↦ rw (find_node, nothing_there)
  | inr (t, there) ↦ rw (find_node, there)
]

pub below_if :
    (y : Text) (ys : List Text) (c : Bool) (o o' : Option TreeNode)
    → below_child y ys (if c then o else o')
      ≡ (if c then below_child y ys o else below_child y ys o')
below_if y ys true o o' = refl
below_if y ys false o o' = refl

-- A write of a child is seen under its name alone.
pub find_under_put :
    (a b y : Text) (ys : List Text) (s s' : ℕ) (t : TreeNode) (cs : Childs)
    → find_node b (y ∷ ys) (node s' (put_child a t cs))
      ≡ (if text_eq a b then find_node y ys t else find_node b (y ∷ ys) (node s cs))
find_under_put a b y ys s s' t cs =
    find_under b y ys s' (put_child a t cs)
    ∙ ap (below_child y ys) (find-put a b t cs)
    ∙ below_if y ys (text_eq a b) (some t) (find_child b cs)
    ∙ ap (λ o. if text_eq a b then find_node y ys t else o) (sym (find_under b y ys s cs))

-- The status of a node, or of a name under it.
abbrev pub at_rest : List Text → TreeNode → ℕ
at_rest [] t = status_in t
at_rest (y ∷ ys) t = status_at y ys t

pub status_or_new : (o : Option TreeNode) → status_in (or_new o) ≡ status_or o
status_or_new none = refl
status_or_new (some t) = refl

pub at_rest-or_new :
    (b : Text) (ys : List Text) (s : ℕ) (cs : Childs)
    → at_rest ys (or_new (find_child b cs)) ≡ status_at b ys (node s cs)
unfolding find_node
at_rest-or_new b [] s cs = status_or_new (find_child b cs)
at_rest-or_new b (y ∷ ys) s cs =
    ap status_or (find_below y ys (find_child b cs) ∙ sym (find_under b y ys s cs))

pub status_or_if :
    (c : Bool) (o o' : Option TreeNode)
    → status_or (if c then o else o') ≡ (if c then status_or o else status_or o')
status_or_if true o o' = refl
status_or_if false o o' = refl

pub status_at-put :
    (a b : Text) (ys : List Text) (s s' : ℕ) (t : TreeNode) (cs : Childs)
    → status_at b ys (node s' (put_child a t cs))
      ≡ (if text_eq a b then at_rest ys t else status_at b ys (node s cs))
unfolding find_node
status_at-put a b [] s s' t cs =
    ap status_or (find-put a b t cs) ∙ status_or_if (text_eq a b) (some t) (find_child b cs)
status_at-put a b (y ∷ ys) s s' t cs =
    ap status_or (find_under_put a b y ys s s' t cs) ∙ status_or_if (text_eq a b) _ _

pub status_at-erase_child :
    (a b : Text) (ys : List Text) (s s' : ℕ) (cs : Childs)
    → status_at b ys (node s' (erase_child a cs))
      ≡ (if text_eq a b then 0 else status_at b ys (node s cs))
unfolding find_node
status_at-erase_child a b [] s s' cs =
    ap status_or (find-erase a b cs) ∙ status_or_if (text_eq a b) none (find_child b cs)
status_at-erase_child a b (y ∷ ys) s s' cs =
    ap status_or (
      find_under b y ys s' (erase_child a cs)
      ∙ ap (below_child y ys) (find-erase a b cs)
      ∙ below_if y ys (text_eq a b) none (find_child b cs)
      ∙ ap (λ o. if text_eq a b then none else o) (sym (find_under b y ys s cs)))
    ∙ status_or_if (text_eq a b) _ _
