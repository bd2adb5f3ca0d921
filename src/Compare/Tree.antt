-- ===== src/Compare/Tree.antt =====
-- A directory tree as snapper/Compare.cc sees it through `SDir` and `SFile`: what `stat`, `readlink`
-- and the reading of a file give.
use ok_snap.Base.{ℕ, Bool, true, false, Option, ◌==◌, if◌then◌else◌, Text, text_lt}

-- `struct stat`. `perm` are the bits of `st_mode` that are not its type.
pub record Stat : Type 0 where
  pub perm : ℕ
  pub uid : ℕ
  pub gid : ℕ
  pub dev : ℕ
  pub ino : ℕ
  pub size : ℕ
  pub mtime_sec : ℕ
  pub mtime_nsec : ℕ

-- A file that cannot be opened has no content, and a link that cannot be read no target; a directory
-- may be one that cannot be opened. `other` has the type of `st_mode`.
mutual
  pub data Node : Type 0 where
    reg : Stat → Option Text → Node
    lnk : Stat → Option Text → Node
    dir : Stat → Bool → Entries → Node
    other : ℕ → Stat → Node

  pub data Entries : Type 0 where
    end : Entries
    entry : Text → Node → Entries → Entries

abbrev pub stat_of : Node → Stat
stat_of (reg s c) = s
stat_of (lnk s t) = s
stat_of (dir s o es) = s
stat_of (other fmt s) = s

-- `st_mode & S_IFMT` of both is the same.
abbrev pub same_type : Node → Node → Bool
same_type (reg s c) (reg s' c') = true
same_type (lnk s t) (lnk s' t') = true
same_type (dir s o es) (dir s' o' es') = true
same_type (other fmt s) (other fmt' s') = fmt == fmt'
same_type _ _ = false

-- `std::sort` on the names of a directory, which are distinct.
unfoldable pub insert_entry : Text → Node → Entries → Entries
insert_entry name x end = entry name x end
insert_entry name x (entry name' y rest) =
    if text_lt name' name
    then entry name' y (insert_entry name x rest)
    else entry name x (entry name' y rest)

unfoldable mutual
  unfolding insert_entry

  pub sort_entries : Entries → Entries
  sort_entries end = end
  sort_entries (entry name x rest) = insert_entry name (sort_node x) (sort_entries rest)

  pub sort_node : Node → Node
  sort_node (reg s c) = reg s c
  sort_node (lnk s t) = lnk s t
  sort_node (dir s o es) = dir s o (sort_entries es)
  sort_node (other fmt s) = other fmt s
