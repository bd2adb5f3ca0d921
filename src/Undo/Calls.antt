-- ===== src/Undo/Calls.antt =====
-- The system calls of `File::doUndo` and `copyfile`, over an unknown state, and how one sees it. None of
-- them is code of the repository.
use ok_snap.Base.{ℕ, Bool, Option, Text}

-- `st_mode & S_IFMT`, with the types apart that the code tells apart.
pub data Format : Type 0 where
  s_ifdir s_ifreg s_iflnk s_other : Format

-- `struct stat`: `mode` are the bits of `st_mode` that are not its type.
pub record FileStat : Type 0 where
  pub format : Format
  pub mode : ℕ
  pub uid : ℕ
  pub gid : ℕ

-- `errno` after a call, as far as the code reads it.
pub data Errno : Type 0 where
  success eexist enoent other_errno : Errno

pub data Lstat : Type 0 where
  found : FileStat → Lstat
  failed : Errno → Lstat

-- What `sendfile` returns: a negative number is `send_failed`.
pub data Sent : Type 0 where
  sent : ℕ → Sent
  send_failed : Sent

-- A call that returns 0 or fails has a Bool; `open` has a descriptor.
pub record Calls : Type 1 where
  pub State : Type 0
  pub lstat : State → Text → Lstat
  pub stat : State → Text → Option Format
  pub readlink : State → Text → ℕ → Option Text
  pub mkdir : Text → ℕ → State → Errno × State
  pub rmdir : Text → State → Bool × State
  pub unlink : Text → State → Bool × State
  pub symlink : Text → Text → State → Bool × State
  pub chmod : Text → ℕ → State → Bool × State
  pub chown : Text → ℕ → ℕ → State → Bool × State
  pub lchown : Text → ℕ → ℕ → State → Bool × State
  pub open_read : Text → State → Option ℕ × State
  pub open_write : Text → ℕ → State → Option ℕ × State
  pub fchmod : ℕ → ℕ → State → Bool × State
  pub fchown : ℕ → ℕ → ℕ → State → Bool × State
  pub ioctl_clone : ℕ → ℕ → State → Bool × State
  pub sendfile : ℕ → ℕ → ℕ → State → Sent × State
  pub close : ℕ → State → State

-- What is under a name.
pub data Body : Type 0 where
  directory : Body
  regular : Text → Body
  link : Text → Body
  special : Body

pub record Inode : Type 0 where
  pub body : Body
  pub perm : ℕ
  pub owner : ℕ
  pub owner_group : ℕ

abbrev pub format_of : Body → Format
format_of directory = s_ifdir
format_of (regular content) = s_ifreg
format_of (link target) = s_iflnk
format_of special = s_other

-- The mode of a link is always 0777.
abbrev pub mode_of : Inode → ℕ
mode_of i = elim i.body [ link target ↦ 511 | _ ↦ i.perm ]

abbrev pub stat_of : Inode → FileStat
stat_of i = record {
  format = format_of i.body;
  mode = mode_of i;
  uid = i.owner;
  gid = i.owner_group;
}

-- The state as one sees it: what is under a path, which path a descriptor has open, and what is left
-- to read from it. Paths that are `Apart` name no common file, and the way to neither leads over the
-- other, so that neither is below the other. Paths that are `Other` name different entries of
-- directories; one may be below the other.
pub record View (sys : Calls) : Type 1 where
  pub node : sys.State → Text → Option Inode
  pub handle : sys.State → ℕ → Option Text
  pub unread : sys.State → ℕ → Text
  pub Apart : Text → Text → Type 0
  pub Other : Text → Text → Type 0
