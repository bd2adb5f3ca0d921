-- ===== src/Undo/Memory/Lawful.antt =====
-- The file system in memory does what the calls promise.
use ok_snap.Undo.Calls.{Inode, link, failed, enoent, found, stat_of, success, directory}
use ok_snap.Undo.Posix.{Call, is_link, SameUnread, with_owner}
use ok_snap.Undo.Memory.{
  memory_view, Memory, put_node, put_slot, mem_lstat, mem_mkdir, mem_remove, mem_symlink, on_node,
  mem_lchown, on_open, path_in, new_inode, Slot,
}
use ok_snap.Base.{
  ℕ, ◌≡◌, refl, ◌≢◌, inl, inr, true, false, false≢true, Option, none, some, [], ◌∷◌, arith,
  Bool-cases, Option-cases, text_eq_refl, Text,
}

pub put_node-Call :
    (p : Text) (x : Option Inode) (m : Memory) → Call memory_view p m (put_node p x m)
unfolding put_node
put_node-Call p x m = (λ q apart. ground arith, λ fd. refl)

pub nodes-put_node : (p : Text) (x : Option Inode) (m : Memory) → (put_node p x m).nodes p ≡ x
unfolding put_node
nodes-put_node p x m = ground (arith, text_eq_refl p)

pub put_slot-other :
    (fd other : ℕ) (x : Option Slot) (m : Memory)
    → other ≢ fd
    → (put_slot fd x m).slots other ≡ m.slots other
unfolding put_slot
put_slot-other fd other x m apart = ground arith

pub slots-put_slot : (fd : ℕ) (x : Option Slot) (m : Memory) → (put_slot fd x m).slots fd ≡ x
unfolding put_slot
slots-put_slot fd x m = ground arith

pub Call-same : (p : Text) (m : Memory) → Call memory_view p m m
Call-same p m = (λ q apart. refl, λ fd. refl)

pub lstat_found :
    (m : Memory) (p : Text) (a : _)
    → mem_lstat m p ≡ found a
    → (i : Inode) × (m.nodes p ≡ some i) × (stat_of i ≡ a)
unfolding mem_lstat
lstat_found m p a h = elim (Option-cases (m.nodes p)) [
  | inl e ↦ absurd (ground arith)
  | inr (i, e) ↦ (i, e, ground arith)
]

pub lstat_enoent : (m : Memory) (p : Text) → mem_lstat m p ≡ failed enoent → m.nodes p ≡ none
unfolding mem_lstat
lstat_enoent m p h = ground arith

pub mkdir-Call : (p : Text) (mode : ℕ) (m : Memory) → Call memory_view p m (mem_mkdir p mode m).1
unfolding mem_mkdir
mkdir-Call [] mode m = Call-same [] m
mkdir-Call (c ∷ p) mode m = elim (Option-cases (m.nodes (c ∷ p))) [
  | inl e ↦ rw (e, mem_mkdir) (put_node-Call (c ∷ p) _ m)
  | inr (i, e) ↦ rw (e, mem_mkdir) (Call-same (c ∷ p) m)
]

pub mkdir_made :
    (p : Text) (mode : ℕ) (m : Memory)
    → (mem_mkdir p mode m).0 ≡ success
    → (i : Inode) × ((mem_mkdir p mode m).1.nodes p ≡ some i) × (i.body ≡ directory)
unfolding mem_mkdir new_inode
mkdir_made [] mode m h = absurd cc
mkdir_made (c ∷ p) mode m h = elim (Option-cases (m.nodes (c ∷ p))) [
  | inr (i, e) ↦ absurd (ground arith)
  | inl e ↦ (new_inode directory mode, rw (e, mem_mkdir) (nodes-put_node (c ∷ p) _ m), refl)
]

pub mkdir_failed :
    (p : Text) (mode : ℕ) (m : Memory)
    → (mem_mkdir p mode m).0 ≢ success
    → (mem_mkdir p mode m).1.nodes p ≡ m.nodes p
unfolding mem_mkdir
mkdir_failed [] mode m h = refl
mkdir_failed (c ∷ p) mode m h = elim (Option-cases (m.nodes (c ∷ p))) [
  | inr (i, e) ↦ ground arith
  | inl e ↦ absurd (h (ground arith))
]

pub remove-Call : (p : Text) (m : Memory) → Call memory_view p m (mem_remove p m).1
unfolding mem_remove
remove-Call p m = elim (Option-cases (m.nodes p)) [
  | inl e ↦ rw (e, mem_remove) (Call-same p m)
  | inr (i, e) ↦ rw (e, mem_remove) (put_node-Call p _ m)
]

pub remove_gone :
    (p : Text) (m : Memory) → (mem_remove p m).0 ≡ true → (mem_remove p m).1.nodes p ≡ none
unfolding mem_remove
remove_gone p m h = elim (Option-cases (m.nodes p)) [
  | inl e ↦ absurd (ground arith)
  | inr (i, e) ↦ rw (e, mem_remove) (nodes-put_node p _ m)
]

pub symlink-Call : (t p : Text) (m : Memory) → Call memory_view p m (mem_symlink t p m).1
unfolding mem_symlink
symlink-Call [] p m = Call-same p m
symlink-Call (c ∷ t) p m = elim (Option-cases (m.nodes p)) [
  | inl e ↦ rw (e, mem_symlink) (put_node-Call p _ m)
  | inr (i, e) ↦ rw (e, mem_symlink) (Call-same p m)
]

pub symlink_made :
    (t p : Text) (m : Memory)
    → (mem_symlink t p m).0 ≡ true
    → (i : Inode) × ((mem_symlink t p m).1.nodes p ≡ some i) × (i.body ≡ link t)
unfolding mem_symlink new_inode
symlink_made [] p m h = absurd (false≢true h)
symlink_made (c ∷ t) p m h = elim (Option-cases (m.nodes p)) [
  | inr (i, e) ↦ absurd (ground arith)
  | inl e ↦ (new_inode (link (c ∷ t)) 511, rw (e, mem_symlink) (nodes-put_node p _ m), refl)
]

pub on_node-Call :
    (p : Text) (change : Inode → Inode) (m : Memory) → Call memory_view p m (on_node p change m).1
unfolding on_node
on_node-Call p change m = elim (Option-cases (m.nodes p)) [
  | inl e ↦ rw (e, on_node) (Call-same p m)
  | inr (i, e) ↦ elim (Bool-cases (is_link (some i))) [
    | inl l ↦ rw (e, l, on_node) (Call-same p m)
    | inr l ↦ rw (e, l, on_node) (put_node-Call p _ m)
  ]
]

pub on_node_done :
    (p : Text) (change : Inode → Inode) (m : Memory) (i : Inode)
    → m.nodes p ≡ some i
    → is_link (some i) ≡ false
    → (on_node p change m).1.nodes p ≡ some (change i)
unfolding on_node
on_node_done p change m i e l = rw (e, l, on_node) (nodes-put_node p _ m)

pub lchown-Call : (p : Text) (u g : ℕ) (m : Memory) → Call memory_view p m (mem_lchown p u g m).1
unfolding mem_lchown
lchown-Call p u g m = elim (Option-cases (m.nodes p)) [
  | inl e ↦ rw (e, mem_lchown) (Call-same p m)
  | inr (i, e) ↦ rw (e, mem_lchown) (put_node-Call p _ m)
]

pub lchown_done :
    (p : Text) (u g : ℕ) (m : Memory) (i : Inode)
    → m.nodes p ≡ some i
    → (mem_lchown p u g m).1.nodes p ≡ some (with_owner u g i)
unfolding mem_lchown
lchown_done p u g m i e = rw (e, mem_lchown) (nodes-put_node p _ m)

pub on_open-Call :
    (fd : ℕ) (change : Inode → Inode) (m : Memory) (p : Text)
    → path_in (m.slots fd) ≡ some p
    → Call memory_view p m (on_open fd change m).1
unfolding on_open path_in put_node
on_open-Call fd change m p h = (λ q apart. ground arith, λ other. ground arith)

pub on_open_unread :
    (fd : ℕ) (change : Inode → Inode) (m : Memory) (p : Text)
    → SameUnread memory_view p m (on_open fd change m).1
unfolding on_open path_in put_node
on_open_unread fd change m p other q h apart = ground arith

pub on_open_done :
    (fd : ℕ) (change : Inode → Inode) (m : Memory) (p : Text) (i : Inode)
    → path_in (m.slots fd) ≡ some p
    → m.nodes p ≡ some i
    → (on_open fd change m).1.nodes p ≡ some (change i)
unfolding on_open path_in
on_open_done fd change m p i h e = elim (Option-cases (m.slots fd)) [
  | inl k ↦ absurd (ground arith)
  | inr (slot, k) ↦ ground (arith, nodes-put_node p (some (change i)) m)
]

pub symlink_empty : (p : Text) (m : Memory) → (mem_symlink [] p m).0 ≡ false
unfolding mem_symlink
symlink_empty p m = refl

pub on_node-none :
    (p : Text) (change : Inode → Inode) (m : Memory)
    → m.nodes p ≡ none
    → (on_node p change m).0 ≡ false
unfolding on_node
on_node-none p change m e = rw (e, on_node) refl

pub mkdir_empty : (mode : ℕ) (m : Memory) → (mem_mkdir [] mode m).0 ≢ success
unfolding mem_mkdir
mkdir_empty mode m h = absurd cc
