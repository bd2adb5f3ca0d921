-- ===== src/Compare/Content.antt =====
-- `cmpFiles` and what it calls (snapper/Compare.cc).
use ok_snap.Base.{
  ℕ, zero, suc, ◌+◌, ◌-◌, ◌/◌, bit_or, Bool, true, false, not, ◌&&◌, Option, none, some, [], ◌∷◌,
  ltb, ◌==◌, if◌then◌else◌, length, Text, text_eq,
}
use ok_snap.Files.Status.{created, deleted, type, content, permissions, user, group}
use ok_snap.Compare.Tree.{Stat, Node, reg, lnk, stat_of, same_type}

unfoldable pub take : ℕ → Text → Text
take zero s = []
take (suc n) [] = []
take (suc n) (c ∷ s) = c ∷ take n s

unfoldable pub drop : ℕ → Text → Text
drop zero s = s
drop (suc n) [] = []
drop (suc n) (c ∷ s) = drop n s

abbrev pub block_size : ℕ
block_size = 4096

abbrev pub min_size : ℕ → ℕ → ℕ
min_size a b = if ltb b a then b else a

-- The loop of `cmpFilesContentReg`, with the rounds that are left: a read of `t` bytes gives fewer
-- where the file ends.
unfoldable pub cmp_blocks : ℕ → ℕ → Text → Text → Bool
unfolding take drop text_eq
cmp_blocks zero left c1 c2 = true
cmp_blocks (suc rounds) left c1 c2 =
    let t = min_size block_size left in
    let rest = cmp_blocks rounds (left - t) (drop t c1) (drop t c2) in
    if not (length (take t c1) == t)
    then false
    else if not (length (take t c2) == t)
    then false
    else if not (text_eq (take t c1) (take t c2))
    then false
    else rest

-- How often `while (length > 0)` goes round.
abbrev pub rounds_for : ℕ → ℕ
rounds_for size = (size + (block_size - 1)) / block_size

abbrev pub same_mtime : Stat → Stat → Bool
same_mtime s1 s2 = (s1.mtime_sec == s2.mtime_sec) && (s1.mtime_nsec == s2.mtime_nsec)

-- What comes behind the two `open`.
unfoldable pub cmp_opened : ℕ → Option Text → Option Text → Bool
unfolding cmp_blocks
cmp_opened size none f2 = false
cmp_opened size (some c1) none = false
cmp_opened size (some c1) (some c2) = cmp_blocks (rounds_for size) size c1 c2

unfoldable pub cmp_files_content_reg : Stat → Option Text → Stat → Option Text → Bool
unfolding cmp_opened
cmp_files_content_reg s1 f1 s2 f2 =
    if same_mtime s1 s2
    then true
    else if not (s1.size == s2.size)
    then false
    else if (s1.size == 0) && (s2.size == 0)
    then true
    else if (s1.dev == s2.dev) && (s1.ino == s2.ino)
    then true
    else cmp_opened s1.size f1 f2

-- `readlink` answers with the number of bytes or with -1, which the code takes for a Boolean: a link
-- that cannot be read counts as one with an empty text, and an answer of no bytes as a failure. The
-- text is what the buffer of 1024 bytes holds of the target.
unfoldable pub same_target : Option Text → Option Text → Bool
same_target (some []) t2 = false
same_target none none = true
same_target none (some t2) = false
same_target (some (c1 ∷ t1)) none = false
same_target (some (c1 ∷ t1)) (some []) = false
same_target (some (c1 ∷ t1)) (some (c2 ∷ t2)) = text_eq (c1 ∷ t1) (c2 ∷ t2)

unfoldable pub cmp_files_content_lnk : Stat → Option Text → Stat → Option Text → Bool
unfolding same_target
cmp_files_content_lnk s1 t1 s2 t2 = if same_mtime s1 s2 then true else same_target t1 t2

-- It is called for files of the same type alone.
unfoldable pub cmp_files_content : Node → Node → Bool
unfolding cmp_files_content_reg cmp_files_content_lnk
cmp_files_content (reg s1 c1) (reg s2 c2) = cmp_files_content_reg s1 c1 s2 c2
cmp_files_content (lnk s1 t1) (lnk s2 t2) = cmp_files_content_lnk s1 t1 s2 t2
cmp_files_content _ _ = true

-- `if (test) status |= flag;`
abbrev pub or_if : Bool → ℕ → ℕ → ℕ
or_if test flag status = if test then bit_or status flag else status

-- What `cmpFiles` adds for the answers of its tests.
unfoldable pub flags : Bool → Bool → Bool → Bool → Bool → ℕ
flags same_kind same_content same_perm same_uid same_gid = or_if (not same_gid) group (
    or_if (not same_uid) user (
      or_if (not same_perm) permissions
        (if same_kind then or_if (not same_content) content 0 else bit_or 0 type)))

unfoldable pub cmp_files : Node → Node → ℕ
unfolding cmp_files_content flags
cmp_files x1 x2 =
    let s1 = stat_of x1 in
    let s2 = stat_of x2 in
    flags (same_type x1 x2) (cmp_files_content x1 x2) (s1.perm == s2.perm) (s1.uid == s2.uid)
      (s1.gid == s2.gid)

-- `cmpFiles` on two names, of which one may be missing; `none` is the exception.
unfoldable pub cmp_files_at : Option Node → Option Node → Option ℕ
unfolding cmp_files
cmp_files_at none (some x2) = some created
cmp_files_at (some x1) none = some deleted
cmp_files_at none none = none
cmp_files_at (some x1) (some x2) = some (cmp_files x1 x2)
