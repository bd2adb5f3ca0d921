-- ===== src/Undo/Memory.antt =====
-- A file system in memory that does what the calls promise. It clones nothing, keeps chmod and chown
-- off links, and has no limit on the descriptors.
pub mod Lawful
mod Descriptors
pub mod Instance
use ok_snap.Undo.Calls.{
  Calls, View, Body, directory, regular, link, Inode, stat_of, format_of, success, eexist, enoent,
  found, failed, sent, send_failed, Format, Lstat, Errno, Sent,
}
use ok_snap.Undo.Posix.{with_body, with_perm, with_owner, is_link}
use ok_snap.Base.{
  ℕ, suc, ◌≡◌, Bool, true, false, Option, none, some, [], ◌∷◌, ◌++◌, ◌==◌, if◌then◌else◌, length,
  Text, text_eq,
}
use ok_snap.Compare.Content.{take, drop}

pub record Slot : Type 0 where
  pub path : Text
  pub rest : Text

pub record Memory : Type 0 where
  pub nodes : Text → Option Inode
  pub slots : ℕ → Option Slot
  -- The descriptor that `open` takes next, if it is free.
  pub next : ℕ

unfoldable pub put_node : Text → Option Inode → Memory → Memory
put_node p x m = record m { nodes = λ q. if text_eq p q then x else m.nodes q }

unfoldable pub put_slot : ℕ → Option Slot → Memory → Memory
put_slot fd x m = record m { slots = λ other. if fd == other then x else m.slots other }

unfoldable pub mem_lstat : Memory → Text → Lstat
mem_lstat m p = elim (m.nodes p) [ none ↦ failed enoent | some i ↦ found (stat_of i) ]

unfoldable pub mem_stat : Memory → Text → Option Format
mem_stat m [] = none
mem_stat m (c ∷ p) = elim (m.nodes (c ∷ p)) [ none ↦ none | some i ↦ some (format_of i.body) ]

unfoldable pub mem_readlink : Memory → Text → ℕ → Option Text
mem_readlink m p size = elim (m.nodes p) [
  | none ↦ none
  | some i ↦ elim i.body [ link target ↦ some (take size target) | _ ↦ none ]
]

unfoldable pub new_inode : Body → ℕ → Inode
new_inode body perm = record { body = body; perm = perm; owner = 0; owner_group = 0 }

unfoldable pub mem_mkdir : Text → ℕ → Memory → Errno × Memory
mem_mkdir [] mode m = (enoent, m)
mem_mkdir (c ∷ p) mode m = elim (m.nodes (c ∷ p)) [
  | none ↦ (success, put_node (c ∷ p) (some (new_inode directory mode)) m)
  | some i ↦ (eexist, m)
]

unfoldable pub mem_remove : Text → Memory → Bool × Memory
mem_remove p m = elim (m.nodes p) [ none ↦ (false, m) | some i ↦ (true, put_node p none m) ]

unfoldable pub mem_symlink : Text → Text → Memory → Bool × Memory
mem_symlink [] p m = (false, m)
mem_symlink (c ∷ t) p m = elim (m.nodes p) [
  | none ↦ (true, put_node p (some (new_inode (link (c ∷ t)) 511)) m)
  | some i ↦ (false, m)
]

-- A change of the inode under a path; it keeps away from links.
unfoldable pub on_node : Text → (Inode → Inode) → Memory → Bool × Memory
on_node p change m = elim (m.nodes p) [
  | none ↦ (false, m)
  | some i ↦ elim (is_link (some i)) [
    | true ↦ (false, m)
    | false ↦ (true, put_node p (some (change i)) m)
  ]
]

unfoldable pub mem_lchown : Text → ℕ → ℕ → Memory → Bool × Memory
mem_lchown p u g m = elim (m.nodes p) [
  | none ↦ (false, m)
  | some i ↦ (true, put_node p (some (with_owner u g i)) m)
]

unfoldable pub content_of : Inode → Text
content_of i = elim i.body [ regular content ↦ content | _ ↦ [] ]

unfoldable pub take_slot : Text → Text → Memory → Option ℕ × Memory
take_slot p rest m = elim (m.slots m.next) [
  | some slot ↦ (none, m)
  | none ↦ (
    some m.next,
    record (put_slot m.next (some (record { path = p; rest = rest })) m) { next = suc m.next },
  )
]

unfoldable pub mem_open_read : Text → Memory → Option ℕ × Memory
mem_open_read p m = elim (m.nodes p) [ none ↦ (none, m) | some i ↦ take_slot p (content_of i) m ]

-- `O_CREAT | O_TRUNC` on a path: what is there then, if it can be opened.
unfoldable pub truncated : ℕ → Option Inode → Option Inode
truncated mode none = some (new_inode (regular []) mode)
truncated mode (some i) = elim i.body [
  | regular content ↦ some (with_body (regular []) i)
  | _ ↦ none
]

unfoldable pub mem_open_write : Text → ℕ → Memory → Option ℕ × Memory
mem_open_write p mode m = elim (m.slots m.next) [
  | some slot ↦ (none, m)
  | none ↦ elim (truncated mode (m.nodes p)) [
    | none ↦ (none, m)
    | some i ↦ (
      some m.next,
      record (put_slot m.next (some (record { path = p; rest = [] })) (put_node p (some i) m)) {
        next = suc m.next;
      },
    )
  ]
]

unfoldable pub on_open : ℕ → (Inode → Inode) → Memory → Bool × Memory
on_open fd change m = elim (m.slots fd) [
  | none ↦ (false, m)
  | some slot ↦ elim (m.nodes slot.path) [
    | none ↦ (false, m)
    | some i ↦ (true, put_node slot.path (some (change i)) m)
  ]
]

-- A clone that the file system cannot do.
unfoldable pub mem_clone : ℕ → ℕ → Memory → Bool × Memory
mem_clone dest src m = (false, m)

unfoldable pub appended : Text → Inode → Inode
appended chunk i = with_body (regular (content_of i ++ chunk)) i

unfoldable pub mem_send : Text → ℕ → ℕ → Slot → Memory → Sent × Memory
mem_send p src n slot m = elim (m.nodes p) [
  | none ↦ (send_failed, m)
  | some i ↦ (
    sent (length (take n slot.rest)),
    put_slot src (some (record slot { rest = drop n slot.rest }))
        (put_node p (some (appended (take n slot.rest) i)) m),
  )
]

unfoldable pub mem_sendfile : ℕ → ℕ → ℕ → Memory → Sent × Memory
mem_sendfile dest src n m = elim (m.slots dest) [
  | none ↦ (send_failed, m)
  | some out ↦ elim (m.slots src) [
    | none ↦ (send_failed, m)
    | some slot ↦ mem_send out.path src n slot m
  ]
]

abbrev pub memory : Calls
memory = record {
  State = Memory;
  lstat = mem_lstat;
  stat = mem_stat;
  readlink = mem_readlink;
  mkdir = mem_mkdir;
  rmdir = mem_remove;
  unlink = mem_remove;
  symlink = mem_symlink;
  chmod = λ p mode. on_node p (with_perm mode);
  chown = λ p u g. on_node p (with_owner u g);
  lchown = mem_lchown;
  open_read = mem_open_read;
  open_write = mem_open_write;
  fchmod = λ fd mode. on_open fd (with_perm mode);
  fchown = λ fd u g. on_open fd (with_owner u g);
  ioctl_clone = mem_clone;
  sendfile = mem_sendfile;
  close = λ fd m. put_slot fd none m;
}

unfoldable pub path_in : Option Slot → Option Text
path_in none = none
path_in (some slot) = some slot.path

unfoldable pub rest_in : Option Slot → Text
rest_in none = []
rest_in (some slot) = slot.rest

abbrev pub memory_view : View memory
memory_view = record {
  node = λ m p. m.nodes p;
  handle = λ m fd. path_in (m.slots fd);
  unread = λ m fd. rest_in (m.slots fd);
  Apart = λ p q. text_eq p q ≡ false;
  Other = λ p q. text_eq p q ≡ false;
}
