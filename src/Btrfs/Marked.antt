-- ===== src/Btrfs/Marked.antt =====
-- `created` and `deleted` change the status of one name.
use ok_snap.Base.{
  ℕ, ◌≡◌, refl, sym, ap, ◌∙◌, inl, inr, Bool, true, false, ◌&&◌, false≢true, Option, none, some,
  List, [], ◌∷◌, arith, ◌==◌, if◌then◌else◌, Bool-cases, Option-cases, text_eq_refl, Text, text_eq,
  text_eq_iff,
}
use ok_snap.Btrfs.TreeNode.{
  TreeNode, Childs, nothing, child, find_child, put_child, find_node, or_new, status_in, childs_in,
  insert_node, erase_node, no_childs, node, trim, erase_found,
}
use ok_snap.Btrfs.Statuses.{
  below_child, find_under, find_under_put, find_below, status_or, at_rest, same_path,
  at_rest-or_new, find-put, status_at, status_at-erase_child, status_at-put, find_new,
}

find_keep :
    (y : Text) (ys : List Text) (t u : TreeNode)
    → childs_in t ≡ childs_in u
    → find_node y ys t ≡ find_node y ys u
unfolding find_node
find_keep y [] (node s cs) (node s' cs') same = ap (find_child y) same
find_keep y (z ∷ ys) (node s cs) (node s' cs') same =
    find_under y z ys s cs
    ∙ ap (λ c. below_child z ys (find_child y c)) same
    ∙ sym (find_under y z ys s' cs')

status_insert :
    (write : TreeNode → TreeNode) (a : Text) (xs : List Text) (t : TreeNode)
    → status_in (insert_node write a xs t) ≡ status_in t
unfolding insert_node
status_insert write a [] (node s cs) = refl
status_insert write a (x ∷ xs) (node s cs) = refl

-- A child that is written with the statuses that it has under its name leaves all statuses.
same_after_put :
    (a b : Text) (ys : List Text) (s s' : ℕ) (t : TreeNode) (cs : Childs)
    → (text_eq a b ≡ true → at_rest ys t ≡ at_rest ys (or_new (find_child a cs)))
    → status_at b ys (node s' (put_child a t cs)) ≡ status_at b ys (node s cs)
same_after_put a b ys s s' t cs h = elim (Bool-cases (text_eq a b)) [
  | inl hit ↦
      let same = (text_eq_iff a b).0 hit in
      rw (status_at-put a b ys s s' t cs, hit)
        (h hit ∙ ap (λ c. at_rest ys (or_new (find_child c cs))) same ∙ at_rest-or_new b ys s cs)
  | inr miss ↦ rw (status_at-put a b ys s s' t cs, miss)
]

-- Inserting a name, and writing its status, changes the status of no other name.
pub status_at-insert :
    (write : TreeNode → TreeNode) (a : Text) (xs : List Text) (b : Text) (ys : List Text)
    (t : TreeNode)
    → ((x : TreeNode) → childs_in (write x) ≡ childs_in x)
    → same_path a xs b ys ≡ false
    → status_at b ys (insert_node write a xs t) ≡ status_at b ys t
unfolding insert_node same_path
status_at-insert write a [] b [] (node s cs) keep apart =
    same_after_put a b [] s s (write (or_new (find_child a cs))) cs
      (λ h. absurd (false≢true (sym apart ∙ h)))
status_at-insert write a [] b (y ∷ ys) (node s cs) keep apart =
    same_after_put a b (y ∷ ys) s s (write (or_new (find_child a cs))) cs
      (λ h. ap status_or (find_keep y ys _ _ (keep (or_new (find_child a cs)))))
status_at-insert write a (x ∷ xs) b [] (node s cs) keep apart =
    same_after_put a b [] s s (insert_node write x xs (or_new (find_child a cs))) cs
      (λ h. status_insert write x xs (or_new (find_child a cs)))
status_at-insert write a (x ∷ xs) b (y ∷ ys) (node s cs) keep apart =
    let ih = status_at-insert write x xs y ys (or_new (find_child a cs)) keep in
    same_after_put a b (y ∷ ys) s s (insert_node write x xs (or_new (find_child a cs))) cs
      (λ h. ih (rw h at apart))

pub find-insert :
    (write : TreeNode → TreeNode) (a : Text) (xs : List Text) (t : TreeNode)
    → find_node a xs (insert_node write a xs t) ≡ some (write (or_new (find_node a xs t)))
unfolding insert_node find_node
find-insert write a [] (node s cs) =
    rw (find-put a a (write (or_new (find_child a cs))) cs, text_eq_refl a)
find-insert write a (x ∷ xs) (node s cs) =
    find_under_put a a x xs s s (insert_node write x xs (or_new (find_child a cs))) cs
    ∙ rw (text_eq_refl a) (
        find-insert write x xs (or_new (find_child a cs))
        ∙ ap (λ o. some (write (or_new o)))
            (find_below x xs (find_child a cs) ∙ sym (find_under a x xs s cs)))

pub find_nothing : (y : Text) (ys : List Text) (s : ℕ) → find_node y ys (node s nothing) ≡ none
unfolding find_node
find_nothing y [] s = refl
find_nothing y (z ∷ ys) s = find_under y z ys s nothing

-- A node without a status and without children has no status under it.
at_rest-empty :
    (ys : List Text) (t : TreeNode)
    → (status_in t == 0) && no_childs (childs_in t) ≡ true
    → at_rest ys t ≡ 0
at_rest-empty [] (node s cs) h = ground arith
at_rest-empty (y ∷ ys) (node s nothing) h = ap status_or (find_nothing y ys s)
at_rest-empty (y ∷ ys) (node s (child c u cs)) h = ground arith

-- The way back of `erase` takes a child away only where that has no status.
status_at-trim :
    (a b : Text) (ys : List Text) (s : ℕ) (cs : Childs) (t : TreeNode)
    → status_at b ys (node s (trim a cs t))
      ≡ (if text_eq a b then at_rest ys t else status_at b ys (node s cs))
status_at-trim a b ys s cs (node s' ds) = elim (Bool-cases ((s' == 0) && no_childs ds)) [
  | inl empty ↦
      let gone = status_at-erase_child a b ys s s cs in
      let zero_below = at_rest-empty ys (node s' ds) empty in rw (empty, zero_below) gone
  | inr kept ↦ rw kept (status_at-put a b ys s s (node s' ds) cs)
]

-- The status of a name by the child that it starts with.
status_by_child :
    (a b : Text) (ys : List Text) (s : ℕ) (cs : Childs) (o : Option TreeNode)
    → text_eq a b ≡ true
    → find_child a cs ≡ o
    → status_at b ys (node s cs) ≡ at_rest ys (or_new o)
status_by_child a b ys s cs o hit e =
    sym (at_rest-or_new b ys s cs)
    ∙ ap (λ c. at_rest ys (or_new (find_child c cs))) (sym ((text_eq_iff a b).0 hit))
    ∙ ap (λ o. at_rest ys (or_new o)) e

-- The node that `erase` comes to.
status_at-erase_found :
    (a b : Text) (ys : List Text) (s : ℕ) (cs : Childs) (o : Option TreeNode)
    → find_child a cs ≡ o
    → status_at b ys (node s (erase_found a cs o))
      ≡ (if same_path a [] b ys then 0 else status_at b ys (node s cs))
unfolding same_path
status_at-erase_found a b [] s cs none e = elim (Bool-cases (text_eq a b)) [
  | inl hit ↦ let zero_there = status_by_child a b [] s cs none hit e in rw hit zero_there
  | inr miss ↦ rw miss
]
status_at-erase_found a b (y ∷ ys) s cs none e = refl
status_at-erase_found a b [] s cs (some (node s' nothing)) e = status_at-erase_child a b [] s s cs
status_at-erase_found a b (y ∷ ys) s cs (some (node s' nothing)) e =
    status_at-erase_child a b (y ∷ ys) s s cs ∙ gone (text_eq a b) refl
  where
    gone :
        (c : Bool)
        → text_eq a b ≡ c
        → (if c then 0 else status_at b (y ∷ ys) (node s cs)) ≡ status_at b (y ∷ ys) (node s cs)
    gone true hit =
        sym (status_by_child a b (y ∷ ys) s cs _ hit e ∙ ap status_or (find_nothing y ys s'))
    gone false miss = refl
status_at-erase_found a b [] s cs (some (node s' (child c u ds))) e =
    status_at-put a b [] s s (node 0 (child c u ds)) cs
status_at-erase_found a b (y ∷ ys) s cs (some (node s' (child c u ds))) e =
    same_after_put a b (y ∷ ys) s s (node 0 (child c u ds)) cs (λ hit.
      ap status_or (find_keep y ys _ _ refl) ∙ ap (λ o. at_rest (y ∷ ys) (or_new o)) (sym e))

status_trim : (a : Text) (cs : Childs) (t : TreeNode) (s : ℕ) → status_in (node s (trim a cs t)) ≡ s
status_trim a cs t s = refl

zero_or : (c : Bool) (n : ℕ) → (c ≡ true → n ≡ 0) → n ≡ (if c then 0 else n)
zero_or true n h = h refl
zero_or false n h = refl

status_at-trimmed :
    (a b : Text) (ys : List Text) (s : ℕ) (cs : Childs) (t : TreeNode) (v : ℕ)
    → (text_eq a b ≡ true → at_rest ys t ≡ v)
    → (text_eq a b ≡ false → status_at b ys (node s cs) ≡ v)
    → status_at b ys (node s (trim a cs t)) ≡ v
status_at-trimmed a b ys s cs t v here elsewhere = elim (Bool-cases (text_eq a b)) [
  | inl hit ↦ rw (status_at-trim a b ys s cs t, hit) (here hit)
  | inr miss ↦ rw (status_at-trim a b ys s cs t, miss) (elsewhere miss)
]

status_erase :
    (a : Text) (xs : List Text) (t : TreeNode) → status_in (erase_node a xs t) ≡ status_in t
unfolding erase_node
status_erase a [] (node s cs) = refl
status_erase a (x ∷ xs) (node s cs) = elim (Option-cases (find_child a cs)) [
  | inl missing ↦ rw (missing, erase_node)
  | inr (t, there) ↦
      let same = status_trim a cs (erase_node x xs t) s in rw (there, erase_node) same
]

-- Erasing a name takes its status away, and changes the status of no other name.
pub status_at-erase :
    (a : Text) (xs : List Text) (b : Text) (ys : List Text) (t : TreeNode)
    → status_at b ys (erase_node a xs t) ≡ (if same_path a xs b ys then 0 else status_at b ys t)
unfolding erase_node same_path
status_at-erase a [] b ys (node s cs) = status_at-erase_found a b ys s cs (find_child a cs) refl
status_at-erase a (x ∷ xs) b [] (node s cs) = elim (Option-cases (find_child a cs)) [
  | inl missing ↦ rw (missing, erase_node)
  | inr (t, there) ↦
      let trimmed =
        status_at-trimmed a b [] s cs (erase_node x xs t) (status_at b [] (node s cs))
          (λ hit. status_erase x xs t ∙ sym (status_by_child a b [] s cs (some t) hit there))
          (λ miss. refl) in
      rw (there, erase_node) trimmed
]
status_at-erase a (x ∷ xs) b (y ∷ ys) (node s cs) = elim (Option-cases (find_child a cs)) [
  | inl missing ↦
      let zero_there =
        zero_or (text_eq a b && same_path x xs y ys) (status_at b (y ∷ ys) (node s cs)) (λ same.
          status_by_child a b (y ∷ ys) s cs none (ground arith) missing
          ∙ ap status_or (find_new y ys)) in
      rw (missing, erase_node) zero_there
  | inr (t, there) ↦
      let ih = status_at-erase x xs y ys t in
      let trimmed =
        status_at-trimmed a b (y ∷ ys) s cs (erase_node x xs t)
          (if text_eq a b && same_path x xs y ys then 0 else status_at b (y ∷ ys) (node s cs))
          (λ hit. rw (hit, status_by_child a b (y ∷ ys) s cs (some t) hit there) ih)
          (λ miss. rw miss) in
      rw (there, erase_node) trimmed
]
