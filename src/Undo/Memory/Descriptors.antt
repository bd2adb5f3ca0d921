-- ===== src/Undo/Memory/Descriptors.antt =====
-- The descriptors of the file system in memory: what `open`, `sendfile` and `close` do to them.
use ok_snap.Undo.Calls.{sent, regular, s_ifdir, directory, link, Inode}
use ok_snap.Undo.Posix.{Opened, SameHandles, SameNodes, Frame, SameUnread, Call, with_body}
use ok_snap.Undo.Memory.{
  memory_view, Memory, put_node, put_slot, take_slot, mem_open_read, truncated, mem_open_write,
  appended, mem_send, mem_sendfile, path_in, rest_in, new_inode, content_of, Slot, mem_stat,
  mem_readlink,
}
use ok_snap.Base.{
  ℕ, zero, suc, ◌<◌, ◌≡◌, refl, sym, ap, ◌∙◌, ◌≢◌, inl, inr, none, some, [], ◌∷◌, ◌++◌, append-nil,
  arith, Option-cases, length, text_eq_refl, Text,
}
use ok_snap.Compare.Content.{take, drop}

pub stat_dir :
    (m : Memory) (p : Text)
    → mem_stat m p ≡ some s_ifdir
    → (i : Inode) × (m.nodes p ≡ some i) × (i.body ≡ directory)
unfolding mem_stat
stat_dir m [] h = absurd cc
stat_dir m (c ∷ p) h = elim (Option-cases (m.nodes (c ∷ p))) [
  | inl e ↦ absurd (ground arith)
  | inr (i, e) ↦ (i, e, ground arith)
]

pub readlink_read :
    (m : Memory) (p : Text) (size : ℕ) (i : Inode) (target text : Text)
    → m.nodes p ≡ some i
    → i.body ≡ link target
    → mem_readlink m p size ≡ some text
    → text ≡ take size target
unfolding mem_readlink
readlink_read m p size i target text e b h = ground arith

take_slot-none :
    (p rest : Text) (m : Memory) → (take_slot p rest m).0 ≡ none → (take_slot p rest m).1 ≡ m
unfolding take_slot
take_slot-none p rest m h = ground arith

take_slot-nodes : (p rest : Text) (m : Memory) → SameNodes memory_view m (take_slot p rest m).1
unfolding take_slot put_slot
take_slot-nodes p rest m q = ground arith

take_slot-Opened :
    (p rest : Text) (m : Memory) (fd : ℕ)
    → (take_slot p rest m).0 ≡ some fd
    → Opened memory_view p fd m (take_slot p rest m).1
unfolding take_slot put_slot path_in
take_slot-Opened p rest m fd h = (ground arith, ground arith, λ other apart. ground arith)

take_slot-rest :
    (p rest : Text) (m : Memory) (fd : ℕ)
    → (take_slot p rest m).0 ≡ some fd
    → rest_in ((take_slot p rest m).1.slots fd) ≡ rest
unfolding take_slot put_slot rest_in
take_slot-rest p rest m fd h = ground arith

pub open_read_none :
    (p : Text) (m : Memory)
    → (mem_open_read p m).0 ≡ none
    → SameNodes memory_view m (mem_open_read p m).1
      × SameHandles memory_view m (mem_open_read p m).1
unfolding mem_open_read take_slot
open_read_none p m h = (λ q. ground arith, λ fd. ground arith)

pub open_read_some :
    (p : Text) (m : Memory) (fd : ℕ)
    → (mem_open_read p m).0 ≡ some fd
    → SameNodes memory_view m (mem_open_read p m).1
      × Opened memory_view p fd m (mem_open_read p m).1
unfolding mem_open_read
open_read_some p m fd h = elim (Option-cases (m.nodes p)) [
  | inl e ↦ absurd (ground arith)
  | inr (i, e) ↦
      rw (e, mem_open_read)
        (take_slot-nodes p (content_of i) m, take_slot-Opened p (content_of i) m fd (ground arith))
]

pub open_read_unread :
    (p : Text) (m : Memory) (fd : ℕ) (i : Inode) (content : Text)
    → (mem_open_read p m).0 ≡ some fd
    → m.nodes p ≡ some i
    → i.body ≡ regular content
    → rest_in ((mem_open_read p m).1.slots fd) ≡ content
unfolding mem_open_read content_of take_slot put_slot rest_in
open_read_unread p m fd i content h e b = ground arith

pub open_write-Frame :
    (p : Text) (mode : ℕ) (m : Memory)
    → Frame memory_view p m (mem_open_write p mode m).1
      × SameUnread memory_view p m (mem_open_write p mode m).1
unfolding mem_open_write put_slot put_node rest_in path_in
open_write-Frame p mode m = (λ q apart. ground arith, λ fd q h apart. ground arith)

pub open_write_none :
    (p : Text) (mode : ℕ) (m : Memory)
    → (mem_open_write p mode m).0 ≡ none
    → SameHandles memory_view m (mem_open_write p mode m).1
unfolding mem_open_write
open_write_none p mode m h fd = ground arith

pub open_write_some :
    (p : Text) (mode : ℕ) (m : Memory) (fd : ℕ)
    → (mem_open_write p mode m).0 ≡ some fd
    → Opened memory_view p fd m (mem_open_write p mode m).1
unfolding mem_open_write put_slot put_node path_in
open_write_some p mode m fd h = (ground arith, ground arith, λ other apart. ground arith)

pub open_write_made :
    (p : Text) (mode : ℕ) (m : Memory) (fd : ℕ)
    → (mem_open_write p mode m).0 ≡ some fd
    → (i : Inode) × ((mem_open_write p mode m).1.nodes p ≡ some i) × (i.body ≡ regular [])
unfolding mem_open_write truncated put_slot put_node new_inode
open_write_made p mode m fd h = elim (Option-cases (m.nodes p)) [
  | inl e ↦ (new_inode (regular []) mode, ground (arith, text_eq_refl p), refl)
  | inr (i, e) ↦ (with_body (regular []) i, ground (arith, text_eq_refl p), refl)
]

pub sendfile-Call :
    (dest src n : ℕ) (m : Memory) (p : Text)
    → path_in (m.slots dest) ≡ some p
    → Call memory_view p m (mem_sendfile dest src n m).1
unfolding mem_sendfile mem_send put_slot put_node path_in
sendfile-Call dest src n m p h = (λ q apart. ground arith, λ fd. ground arith)

pub close_call :
    (fd : ℕ) (m : Memory)
    → SameNodes memory_view m (put_slot fd none m)
      × (path_in ((put_slot fd none m).slots fd) ≡ none)
      × ((other : ℕ)
          → other ≢ fd
          → path_in ((put_slot fd none m).slots other) ≡ path_in (m.slots other))
unfolding put_slot path_in
close_call fd m = (λ q. refl, ground arith, λ other apart. ground arith)

send_at :
    (dest src n : ℕ) (m : Memory) (p : Text) (i : Inode) (slot : Slot)
    → path_in (m.slots dest) ≡ some p
    → m.slots src ≡ some slot
    → m.nodes p ≡ some i
    → mem_sendfile dest src n m ≡ mem_send p src n slot m
unfolding mem_sendfile path_in
send_at dest src n m p i slot h k e = ground arith

take-drop : (n : ℕ) (s : Text) → take n s ++ drop n s ≡ s
unfolding take drop
take-drop zero s = refl
take-drop (suc n) [] = refl
take-drop (suc n) (c ∷ s) = let ih = take-drop n s in ap (λ t. c ∷ t) ih

take_none : (n : ℕ) (s : Text) → 0 < n → length (take n s) ≡ 0 → (s ≡ []) × (take n s ≡ [])
unfolding take
take_none zero s h k = absurd (omega arith)
take_none (suc n) [] h k = (refl, refl)
take_none (suc n) (c ∷ s) h k = absurd (ground arith)

slot_of :
    (fd : ℕ) (m : Memory) (q : Text)
    → path_in (m.slots fd) ≡ some q
    → (slot : Slot) × (m.slots fd ≡ some slot)
unfolding path_in
slot_of fd m q h = elim (Option-cases (m.slots fd)) [
  | inl e ↦ absurd (ground arith)
  | inr (slot, e) ↦ (slot, e)
]

pub sendfile_sent :
    (dest src n : ℕ) (m : Memory) (p q : Text) (i : Inode) (content : Text) (k : ℕ)
    → path_in (m.slots dest) ≡ some p
    → path_in (m.slots src) ≡ some q
    → m.nodes p ≡ some i
    → i.body ≡ regular content
    → (mem_sendfile dest src n m).0 ≡ sent (suc k)
    → (chunk : Text) × (rest_in (m.slots src)
        ≡ chunk ++ rest_in ((mem_sendfile dest src n m).1.slots src))
      × (length chunk ≡ suc k)
      × ((mem_sendfile dest src n m).1.nodes p ≡ some (with_body (regular (content ++ chunk)) i))
unfolding mem_send put_slot put_node rest_in path_in appended content_of
sendfile_sent dest src n m p q i content k d s e b h =
    let (slot, here) = slot_of src m q s in
    let at = send_at dest src n m p i slot d here e in
    (
      take n slot.rest,
      rw at (ground (arith, take-drop n slot.rest)),
      ground (arith, at),
      rw at (ground (arith, text_eq_refl p)),
    )

appended_nothing : (i : Inode) (content : Text) → i.body ≡ regular content → appended [] i ≡ i
unfolding appended content_of
appended_nothing i content b =
    let text : content_of i ≡ content = rw b refl in
    ap (λ c. with_body (regular c) i) (append-nil (content_of i))
    ∙ ap (λ c. with_body (regular c) i) text
    ∙ ap (λ body. with_body body i) (sym b)

send_nothing :
    (src n : ℕ) (m : Memory) (p : Text) (i : Inode) (content : Text) (slot : Slot)
    → m.nodes p ≡ some i
    → i.body ≡ regular content
    → take n slot.rest ≡ []
    → (mem_send p src n slot m).1.nodes p ≡ m.nodes p
unfolding mem_send put_slot put_node
send_nothing src n m p i content slot e b nothing =
    ground (arith, text_eq_refl p, appended_nothing i content b)

pub sendfile_end :
    (dest src n : ℕ) (m : Memory) (p q : Text) (i : Inode) (content : Text)
    → path_in (m.slots dest) ≡ some p
    → path_in (m.slots src) ≡ some q
    → m.nodes p ≡ some i
    → i.body ≡ regular content
    → 0 < n
    → (mem_sendfile dest src n m).0 ≡ sent 0
    → (rest_in (m.slots src) ≡ []) × ((mem_sendfile dest src n m).1.nodes p ≡ m.nodes p)
unfolding mem_send put_slot put_node rest_in path_in
sendfile_end dest src n m p q i content d s e b some_n h =
    let (slot, here) = slot_of src m q s in
    let at = send_at dest src n m p i slot d here e in
    let (none_left, nothing) = take_none n slot.rest some_n (ground (arith, at)) in
    (ground arith, rw at (send_nothing src n m p i content slot e b nothing))
