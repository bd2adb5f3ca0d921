-- ===== src/Btrfs/Result.antt =====
-- `tree_node::result` reports every name that has a status.
use ok_snap.Base.{
  ℕ, ◌≡◌, refl, sym, ap, ◌∙◌, subst, ◌≢◌, ◌⊎◌, inl, inr, true, false, List, [], ◌∷◌, ◌++◌,
  append_assoc, arith, ◌==◌, if◌then◌else◌, Bool-cases, In, In-append_left, In-append_right, Text,
  text_eq, text_eq_iff,
}
use ok_snap.Btrfs.Marked.{find_nothing}
use ok_snap.Btrfs.TreeNode.{TreeNode, Childs, node, nothing, child, find_child, status_in, or_new}
use ok_snap.Btrfs.Stream.{result_childs, result_node}
use ok_snap.Btrfs.Statuses.{status_at, at_rest, at_rest-or_new, status_or}

-- A call that is among those of the children of a node, or behind them, is among all.
from_rest :
    (prefix : List Text) (b : Text) (t : TreeNode) (cs : Childs) (call : List Text × ℕ)
    → In call (result_node (prefix ++ b ∷ []) t ++ result_childs prefix cs)
    → In call (result_childs prefix (child b t cs))
unfolding result_childs
from_rest prefix b t cs call h = elim (Bool-cases (status_in t == 0)) [
  | inl unset ↦ rw unset h
  | inr set ↦ rw set (inr h)
]

from_head :
    (prefix : List Text) (b : Text) (t : TreeNode) (cs : Childs)
    → status_in t ≢ 0
    → In (prefix ++ b ∷ [], status_in t) (result_childs prefix (child b t cs))
unfolding result_childs
from_head prefix b t cs h = elim (Bool-cases (status_in t == 0)) [
  | inl unset ↦ absurd (h (ground arith))
  | inr set ↦ rw set (inl refl)
]

status_at-child :
    (a : Text) (xs : List Text) (r : ℕ) (b : Text) (t : TreeNode) (cs : Childs)
    → status_at a xs (node r (child b t cs))
      ≡ (if text_eq b a then at_rest xs t else status_at a xs (node r cs))
unfolding find_child
status_at-child a xs r b t cs =
    sym (at_rest-or_new a xs r (child b t cs)) ∙ pick (Bool-cases (text_eq b a))
  where
    pick :
        (text_eq b a ≡ true) ⊎ (text_eq b a ≡ false)
        → at_rest xs (or_new (find_child a (child b t cs)))
          ≡ (if text_eq b a then at_rest xs t else status_at a xs (node r cs))
    pick (inl hit) = rw hit
    pick (inr miss) = rw miss (at_rest-or_new a xs r cs)

none_there : (a : Text) (xs : List Text) (r : ℕ) → status_at a xs (node r nothing) ≡ 0
none_there a xs r = ap status_or (find_nothing a xs r)

-- What is reported for a child, if it is the one that is asked for.
module _ (prefix : List Text) (a : Text) (xs : List Text) (r : ℕ) (b : Text) (t : TreeNode)
    (cs : Childs) where
  asked_for :
      text_eq b a ≡ true
      → In (prefix ++ b ∷ xs, at_rest xs t) (result_childs prefix (child b t cs))
      → In
          (prefix ++ a ∷ xs, status_at a xs (node r (child b t cs)))
          (result_childs prefix (child b t cs))
  asked_for hit found =
      let calls = result_childs prefix (child b t cs) in
      let same : status_at a xs (node r (child b t cs)) ≡ at_rest xs t =
        status_at-child a xs r b t cs
        ∙ ap (λ c. if c then at_rest xs t else status_at a xs (node r cs)) hit in
      subst (λ c. In (prefix ++ c ∷ xs, status_at a xs (node r (child b t cs))) calls)
        ((text_eq_iff b a).0 hit) (subst (λ v. In (prefix ++ b ∷ xs, v) calls) (sym same) found)

  not_asked_for :
      text_eq b a ≡ false → status_at a xs (node r (child b t cs)) ≡ status_at a xs (node r cs)
  not_asked_for miss =
      status_at-child a xs r b t cs
      ∙ ap (λ c. if c then at_rest xs t else status_at a xs (node r cs)) miss

  among_rest :
      text_eq b a ≡ false
      → In (prefix ++ a ∷ xs, status_at a xs (node r cs)) (result_childs prefix cs)
      → In
          (prefix ++ a ∷ xs, status_at a xs (node r (child b t cs)))
          (result_childs prefix (child b t cs))
  among_rest miss found =
      subst (λ v. In (prefix ++ a ∷ xs, v) (result_childs prefix (child b t cs)))
        (sym (not_asked_for miss))
        (from_rest prefix b t cs _
          (In-append_right _ (result_node (prefix ++ b ∷ []) t) (result_childs prefix cs) found))

-- The status of a child that is asked for.
status_here :
    (a : Text) (xs : List Text) (r : ℕ) (b : Text) (t : TreeNode) (cs : Childs)
    → text_eq b a ≡ true
    → status_at a xs (node r (child b t cs)) ≢ 0
    → at_rest xs t ≢ 0
status_here a xs r b t cs hit h z = h (
    status_at-child a xs r b t cs
    ∙ ap (λ c. if c then at_rest xs t else status_at a xs (node r cs)) hit
    ∙ z)

-- Every name that has a status is among the calls of the callback, with that status.
pub result_childs_complete :
    (prefix : List Text) (a : Text) (xs : List Text) (r : ℕ) (cs : Childs)
    → status_at a xs (node r cs) ≢ 0
    → In (prefix ++ a ∷ xs, status_at a xs (node r cs)) (result_childs prefix cs)
unfolding result_childs
result_childs_complete prefix a xs r nothing h = absurd (h (none_there a xs r))
result_childs_complete prefix a [] r (child b (node s ds) cs) h =
    let ih = result_childs_complete prefix a [] r cs in
    elim (Bool-cases (text_eq b a)) [
      | inl hit ↦
          asked_for prefix a [] r b (node s ds) cs hit
            (from_head prefix b (node s ds) cs (status_here a [] r b (node s ds) cs hit h))
      | inr miss ↦
          among_rest prefix a [] r b (node s ds) cs miss
            (ih (λ z. h (not_asked_for prefix a [] r b (node s ds) cs miss ∙ z)))
    ]
result_childs_complete prefix a (y ∷ ys) r (child b (node s ds) cs) h =
    let ih = result_childs_complete prefix a (y ∷ ys) r cs in
    let below = result_childs_complete (prefix ++ b ∷ []) y ys s ds in
    elim (Bool-cases (text_eq b a)) [
      | inl hit ↦
          let found = below (status_here a (y ∷ ys) r b (node s ds) cs hit h) in
          let renamed =
            subst (λ n. In (n, status_at y ys (node s ds)) (result_childs (prefix ++ b ∷ []) ds))
              (append_assoc prefix (b ∷ []) (y ∷ ys)) found in
          asked_for prefix a (y ∷ ys) r b (node s ds) cs hit (
            from_rest prefix b (node s ds) cs _ (
              In-append_left _ (result_childs (prefix ++ b ∷ []) ds) (result_childs prefix cs)
                renamed))
      | inr miss ↦
          among_rest prefix a (y ∷ ys) r b (node s ds) cs miss
            (ih (λ z. h (not_asked_for prefix a (y ∷ ys) r b (node s ds) cs miss ∙ z)))
    ]
