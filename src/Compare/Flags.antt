-- ===== src/Compare/Flags.antt =====
-- The status that `cmpFiles` gives is the same both ways round, and is one that inverting leaves.
use ok_snap.Base.{
  ℕ, zero, suc, ◌-◌, ◌≡◌, refl, Bool, true, false, not, ◌&&◌, Option, none, some, [], ◌∷◌, arith,
  ◌==◌, if◌then◌else◌, ==_iff, has, text_eq_comm, Text,
}
use ok_snap.Files.Status.{type, invert_status, is_clean}
use ok_snap.Compare.Tree.{Stat, Node, reg, lnk, dir, other, stat_of, same_type}
use ok_snap.Compare.Content.{
  take, drop, cmp_blocks, cmp_opened, min_size, block_size, cmp_files_content_reg, same_target,
  cmp_files_content_lnk, cmp_files_content, flags, cmp_files, rounds_for,
}

-- A test that holds for both values of a flag.
both : (Bool → Bool) → Bool
both p = p true && p false

both_sound : (p : Bool → Bool) (b : Bool) → both p ≡ true → p b ≡ true
unfolding both
both_sound p true h = ground arith
both_sound p false h = ground arith

every : (Bool → Bool → Bool → Bool → Bool → Bool) → Bool
unfolding both
every p = both (λ a. both (λ b. both (λ c. both (λ d. both (p a b c d)))))

every_sound :
    (p : Bool → Bool → Bool → Bool → Bool → Bool) (a b c d e : Bool)
    → every p ≡ true
    → p a b c d e ≡ true
unfolding every
every_sound p a b c d e h = both_sound (p a b c d) e (
    both_sound (λ d. both (p a b c d)) d
      (both_sound (λ c. both (λ d. both (p a b c d))) c
        (both_sound (λ b. both (λ c. both (λ d. both (p a b c d)))) b
          (both_sound (λ a. both (λ b. both (λ c. both (λ d. both (p a b c d))))) a h))))

-- For all answers of the tests, the status is a clean one without `CREATED` and `DELETED`, and has
-- `TYPE` exactly if the types differ.
flags_table :
    every (λ k c p u g.
      (invert_status (flags k c p u g) == flags k c p u g)
      && (is_clean (flags k c p u g)
          && (if k then not (has (flags k c p u g) type) else has (flags k c p u g) type)))
    ≡ true
unfolding every both flags invert_status is_clean
flags_table = refl

and_true : (a b : Bool) → a && b ≡ true → (a ≡ true) × (b ≡ true)
and_true true b h = (refl, h)
and_true false b h = cc

kind_of : (k b : Bool) → (if k then not b else b) ≡ true → b ≡ not k
kind_of true true h = cc
kind_of true false h = refl
kind_of false b h = h

pub flags_facts :
    (k c p u g : Bool)
    → (invert_status (flags k c p u g) ≡ flags k c p u g)
      × (is_clean (flags k c p u g) ≡ true)
      × (has (flags k c p u g) type ≡ not k)
flags_facts k c p u g =
    let row =
      every_sound
        (λ k c p u g.
          (invert_status (flags k c p u g) == flags k c p u g)
          && (is_clean (flags k c p u g)
              && (if k then not (has (flags k c p u g) type) else has (flags k c p u g) type)))
        k c p u g flags_table in
    let (same, more) = and_true _ _ row in
    let (clean, kind) = and_true _ _ more in
    ((==_iff _ _).0 same, clean, kind_of k (has (flags k c p u g) type) kind)

==_sym : (a b : ℕ) → (a == b) ≡ (b == a)
==_sym a b = ground arith

cmp_blocks_sym :
    (rounds left : ℕ) (c1 c2 : Text) → cmp_blocks rounds left c1 c2 ≡ cmp_blocks rounds left c2 c1
unfolding cmp_blocks
cmp_blocks_sym zero left c1 c2 = refl
cmp_blocks_sym (suc rounds) left c1 c2 =
    let t = min_size block_size left in
    ground (
      arith,
      text_eq_comm (take t c1) (take t c2),
      cmp_blocks_sym rounds (left - t) (drop t c1) (drop t c2),
    )

cmp_opened_sym : (size : ℕ) (f1 f2 : Option Text) → cmp_opened size f1 f2 ≡ cmp_opened size f2 f1
unfolding cmp_opened
cmp_opened_sym size none none = refl
cmp_opened_sym size none (some c2) = refl
cmp_opened_sym size (some c1) none = refl
cmp_opened_sym size (some c1) (some c2) = cmp_blocks_sym (rounds_for size) size c1 c2

cmp_files_content_reg_sym :
    (s1 : Stat) (f1 : Option Text) (s2 : Stat) (f2 : Option Text)
    → cmp_files_content_reg s1 f1 s2 f2 ≡ cmp_files_content_reg s2 f2 s1 f1
unfolding cmp_files_content_reg
cmp_files_content_reg_sym s1 f1 s2 f2 = ground (arith, cmp_opened_sym s1.size f1 f2)

same_target_sym : (t1 t2 : Option Text) → same_target t1 t2 ≡ same_target t2 t1
unfolding same_target
same_target_sym none none = refl
same_target_sym none (some []) = refl
same_target_sym none (some (b ∷ t2)) = refl
same_target_sym (some []) none = refl
same_target_sym (some []) (some []) = refl
same_target_sym (some []) (some (b ∷ t2)) = refl
same_target_sym (some (a ∷ t1)) none = refl
same_target_sym (some (a ∷ t1)) (some []) = refl
same_target_sym (some (a ∷ t1)) (some (b ∷ t2)) = text_eq_comm (a ∷ t1) (b ∷ t2)

cmp_files_content_lnk_sym :
    (s1 : Stat) (t1 : Option Text) (s2 : Stat) (t2 : Option Text)
    → cmp_files_content_lnk s1 t1 s2 t2 ≡ cmp_files_content_lnk s2 t2 s1 t1
unfolding cmp_files_content_lnk
cmp_files_content_lnk_sym s1 t1 s2 t2 = ground (arith, same_target_sym t1 t2)

cmp_files_content_sym : (x1 x2 : Node) → cmp_files_content x1 x2 ≡ cmp_files_content x2 x1
unfolding cmp_files_content
cmp_files_content_sym (reg s1 f1) (reg s2 f2) = cmp_files_content_reg_sym s1 f1 s2 f2
cmp_files_content_sym (lnk s1 t1) (lnk s2 t2) = cmp_files_content_lnk_sym s1 t1 s2 t2
cmp_files_content_sym (dir s1 o1 es1) (dir s2 o2 es2) = refl
cmp_files_content_sym (other f1 s1) (other f2 s2) = refl
cmp_files_content_sym _ _ = refl

same_type_sym : (x1 x2 : Node) → same_type x1 x2 ≡ same_type x2 x1
same_type_sym (other f1 s1) (other f2 s2) = ==_sym f1 f2
same_type_sym (reg s1 c1) (reg s2 c2) = refl
same_type_sym (lnk s1 t1) (lnk s2 t2) = refl
same_type_sym (dir s1 o1 es1) (dir s2 o2 es2) = refl
same_type_sym _ _ = refl

pub cmp_files_sym : (x1 x2 : Node) → cmp_files x1 x2 ≡ cmp_files x2 x1
unfolding cmp_files
cmp_files_sym x1 x2 =
    let s1 = stat_of x1 in
    let s2 = stat_of x2 in
    rw (
      same_type_sym x1 x2,
      cmp_files_content_sym x1 x2,
      ==_sym s1.perm s2.perm,
      ==_sym s1.uid s2.uid,
      ==_sym s1.gid s2.gid,
    )

-- The facts about the flags at the answers for two files.
pub cmp_files_facts :
    (x1 x2 : Node)
    → (invert_status (cmp_files x1 x2) ≡ cmp_files x1 x2)
      × (is_clean (cmp_files x1 x2) ≡ true)
      × (has (cmp_files x1 x2) type ≡ not (same_type x1 x2))
unfolding cmp_files
cmp_files_facts x1 x2 =
    let s1 = stat_of x1 in
    let s2 = stat_of x2 in
    flags_facts (same_type x1 x2) (cmp_files_content x1 x2) (s1.perm == s2.perm) (s1.uid == s2.uid)
      (s1.gid == s2.gid)
