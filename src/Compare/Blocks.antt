-- ===== src/Compare/Blocks.antt =====
-- The loop of `cmpFilesContentReg`: block by block, it compares the whole of two files.
use ok_snap.Base.{
  ℕ, zero, suc, ◌-◌, ◌*◌, ◌≤◌, ◌≡◌, refl, sym, ap, inl, inr, true, false, ◌&&◌, some, [], ◌∷◌,
  arith, ◌==◌, if◌then◌else◌, Bool-cases, length, Text, text_eq, text_eq_iff,
}
use ok_snap.Compare.Tree.{Stat}
use ok_snap.Compare.Content.{
  block_size, cmp_blocks, min_size, cmp_files_content_reg, cmp_opened, rounds_for, same_mtime, take,
  drop,
}

-- Both blocks of `t` bytes are read, and what they say of the files.
block_read :
    (t : ℕ) (c : Text) → t ≤ length c → (length (take t c) ≡ t) × (length (drop t c) ≡ length c - t)
unfolding take drop
block_read zero c h = (refl, omega arith)
block_read (suc t) [] h = absurd (omega arith)
block_read (suc t) (x ∷ c) h =
    let ih = block_read t c (omega arith) in (omega (arith, ih.0), omega (arith, ih.1))

text_eq-split :
    (t : ℕ) (c1 c2 : Text)
    → t ≤ length c1
    → t ≤ length c2
    → text_eq c1 c2
      ≡ (if text_eq (take t c1) (take t c2) then text_eq (drop t c1) (drop t c2) else false)
unfolding take drop text_eq
text_eq-split zero c1 c2 h k = refl
text_eq-split (suc t) [] c2 h k = absurd (omega arith)
text_eq-split (suc t) (x ∷ c1) [] h k = absurd (omega arith)
text_eq-split (suc t) (x ∷ c1) (y ∷ c2) h k = ground (arith, text_eq-split t c1 c2)

no_bytes : (c : Text) → length c ≡ 0 → c ≡ []
no_bytes [] h = refl
no_bytes (x ∷ c) h = absurd (omega arith)

text_eq-length : (c1 c2 : Text) → text_eq c1 c2 ≡ true → length c1 ≡ length c2
text_eq-length c1 c2 h = ap length ((text_eq_iff c1 c2).0 h)

-- A block is not longer than what is left, and what is left behind it needs one round less.
size_bounds :
    (rounds left : ℕ)
    → left ≤ suc rounds * block_size
    → (min_size block_size left ≤ left) × (left - min_size block_size left ≤ rounds * block_size)
size_bounds rounds left h = ground arith

cmp_blocks-text_eq :
    (rounds left : ℕ) (c1 c2 : Text)
    → length c1 ≡ left
    → length c2 ≡ left
    → left ≤ rounds * block_size
    → cmp_blocks rounds left c1 c2 ≡ text_eq c1 c2
unfolding cmp_blocks text_eq
cmp_blocks-text_eq zero left c1 c2 h k bound =
    let empty1 = no_bytes c1 (omega arith) in
    let empty2 = no_bytes c2 (omega arith) in rw (empty1, empty2)
cmp_blocks-text_eq (suc rounds) left c1 c2 h k bound =
    let (fits, fewer) = size_bounds rounds left bound in
    let t = min_size block_size left in
    let (read1, left1) = block_read t c1 (omega arith) in
    let (read2, left2) = block_read t c2 (omega arith) in
    let rest =
      cmp_blocks-text_eq rounds (left - t) (drop t c1) (drop t c2) (omega arith) (omega arith)
        fewer in
    let split = text_eq-split t c1 c2 (omega arith) (omega arith) in
    ground (arith, read1, read2, rest, split)

rounds_enough : (size : ℕ) → size ≤ rounds_for size * block_size
rounds_enough size = ground arith

-- For two regular files whose sizes are those of their contents, that can be read, and whose
-- modification times differ, `cmpFilesContentReg` says whether the contents are the same. Files with
-- the same device and inode number have the same content by hypothesis.
pub cmp_files_content_reg-text_eq :
    (s1 s2 : Stat) (c1 c2 : Text)
    → same_mtime s1 s2 ≡ false
    → s1.size ≡ length c1
    → s2.size ≡ length c2
    → ((s1.dev == s2.dev) && (s1.ino == s2.ino) ≡ true → c1 ≡ c2)
    → cmp_files_content_reg s1 (some c1) s2 (some c2) ≡ text_eq c1 c2
unfolding cmp_files_content_reg cmp_opened
cmp_files_content_reg-text_eq s1 s2 c1 c2 touched size1 size2 one_file =
    let exact = cmp_blocks-text_eq (rounds_for s1.size) s1.size c1 c2 (sym size1) in
    elim (Bool-cases (s1.size == s2.size)) [
      | inr differ ↦ let other_size = text_eq-length c1 c2 in ground (arith, other_size)
      | inl same ↦ elim (Bool-cases ((s1.size == 0) && (s2.size == 0))) [
        | inl empty ↦
            let empty1 = no_bytes c1 (ground arith) in
            let empty2 = no_bytes c2 (ground arith) in
            rw (touched, same, empty, empty1, empty2, text_eq)
        | inr filled ↦ elim (Bool-cases ((s1.dev == s2.dev) && (s1.ino == s2.ino))) [
          | inl hard_link ↦
              let equal = (text_eq_iff c1 c2).1 (one_file hard_link) in
              rw (touched, same, filled, hard_link) (sym equal)
          | inr two ↦
              let blocks = exact (ground arith) (rounds_enough s1.size) in
              rw (touched, same, filled, two) blocks
        ]
      ]
    ]
