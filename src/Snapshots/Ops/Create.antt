-- ===== src/Snapshots/Ops/Create.antt =====
-- Creating snapshots: what becomes of the list and of the disk, on success and on failure.
use ok_snap.Base.{
  ℕ, ◌<◌, ◌≡◌, refl, sym, ap, ◌∙◌, subst, ◌≢◌, inl, inr, true, false, Option, none, some, List, [],
  ◌∷◌, ◌++◌, arith, Bool-cases, In, All-In, Pairs, ℤ, Text,
}
use ok_snap.Snapshots.Ops.Consistent.{IsConsistent, append-IsConsistent, Below, In-le-last_num}
use ok_snap.Snapshots.Ops.Number.{HasRoom, IsFreeNumber, next_loop-IsFreeNumber}
use ok_snap.Exec.{◌>>=◌, Result, ok, err, io_error, create_snapshot_failed}
use ok_snap.Snapshots.Types.{Snapshot, pre, post}
use ok_snap.Snapshots.Disk.{Faults}
use ok_snap.Snapshots.Entry.{Entry}
use ok_snap.Snapshots.Entry
use ok_snap.Snapshots.Table.{Snapshots, last_num, can_have_post, is_pre, post_of}
use ok_snap.Snapshots.Ops.{
  undone, create_helper, begin, finish, create_pre_snapshot, create_single_snapshot, next_number,
  with_dir, create_post_snapshot,
}

-- What `createHelper` does to the list.
abbrev pub Created : Snapshot → List Snapshot → Result Snapshot × Snapshots → Type 0
Created snap entries (ok x, s') =
    (x ≡ record snap { info_modified = false }) × (s'.entries ≡ entries ++ x ∷ [])
Created snap entries (err e, s') = s'.entries ≡ entries

abbrev Flushed : Snapshot → Result (Unit {0}) × Entry → Type 0
Flushed snap (ok u, e) = e.snapshot ≡ record snap { info_modified = false }
Flushed snap (err x, e) = e.snapshot ≡ snap

flush_info-Flushed :
    (faults : Faults) (e : Entry)
    → e.snapshot.info_modified ≡ true
    → Flushed e.snapshot (Entry.flush_info faults e)
unfolding Entry.flush_info
flush_info-Flushed faults e m = ground arith

undone-Created :
    (faults : Faults) (snap : Snapshot) (s : Snapshots) (r : Result (Unit {0}) × Entry)
    → Created snap s.entries (undone faults r s)
undone-Created faults snap s (ok u, e) = refl
undone-Created faults snap s (err x, e) = refl

finish-Created :
    (faults : Faults) (snap : Snapshot) (s : Snapshots) (r : Result (Unit {0}) × Entry)
    → Flushed snap r
    → Created snap s.entries (finish faults r s)
finish-Created faults snap s (ok u, e) h = (h, refl)
finish-Created faults snap s (err io_error, e) h =
    undone-Created faults snap s (Entry.delete_filesystem_snapshot faults e)
finish-Created faults snap s (err x, e) h = refl

-- The calls on the filesystem leave the snapshot itself as it is.
create_filesystem_snapshot-snapshot :
    (faults : Faults) (e : Entry)
    → (Entry.create_filesystem_snapshot faults e).1.snapshot ≡ e.snapshot
unfolding Entry.create_filesystem_snapshot
create_filesystem_snapshot-snapshot faults e = ground arith

begin-Created :
    (faults : Faults) (snap : Snapshot) (s : Snapshots) (r : Result (Unit {0}) × Entry)
    → r.1.snapshot ≡ snap
    → snap.info_modified ≡ true
    → Created snap s.entries (begin faults r s)
begin-Created faults snap s (ok u, e) h m =
    finish-Created faults snap s (Entry.flush_info faults e) (
      subst (λ x. Flushed x (Entry.flush_info faults e)) h
        (flush_info-Flushed faults e (ap (λ (x : Snapshot). x.info_modified) h ∙ m)))
begin-Created faults snap s (err create_snapshot_failed, e) h m = refl
begin-Created faults snap s (err x, e) h m = refl

create_helper-Created :
    (faults : Faults) (snap : Snapshot) (s : Snapshots)
    → snap.info_modified ≡ true
    → Created snap s.entries (create_helper faults snap s)
unfolding create_helper
create_helper-Created faults snap s m =
    begin-Created faults snap s
      (Entry.create_filesystem_snapshot faults (record { snapshot = snap; disk = s.disk }))
      (create_filesystem_snapshot-snapshot faults (record { snapshot = snap; disk = s.disk })) m

-- What may be said of a new snapshot for the list to stay consistent.
abbrev Fits : List Snapshot → Snapshot → Type 0
Fits entries x =
    x.type ≡ post
    → (x.pre_num < x.num)
      × ((q : Snapshot) → In q entries → q.num ≡ x.pre_num → q.type ≡ pre)
      × ((q : Snapshot) → In q entries → q.type ≡ post → q.pre_num ≢ x.pre_num)

Created-IsConsistent :
    (snap : Snapshot) (entries : List Snapshot) (r : Result Snapshot × Snapshots)
    → IsConsistent entries
    → last_num entries < snap.num
    → Fits entries snap
    → Created snap entries r
    → IsConsistent r.1.entries
Created-IsConsistent snap entries (ok x, s') v above fits c =
    let fields : x ≡ record snap { info_modified = false } = c.0 in
    rw c.1
      (append-IsConsistent entries x v (rw fields above) (subst (Fits entries) (sym fields) fits))
Created-IsConsistent snap entries (err e, s') v above fits c = rw c v

-- `createSingleSnapshot` and its like: a number, then `createHelper` on a snapshot with it.
module _ (faults : Faults) (s : Snapshots) (room : HasRoom s) (v : IsConsistent s.entries)
    (snap : ℕ → Snapshot) (named : (n : ℕ) → (snap n).num ≡ n)
    (modified : (n : ℕ) → (snap n).info_modified ≡ true)
    (fits : (n : ℕ) → last_num s.entries < n → Fits s.entries (snap n)) where
  numbered :
      (r : Result ℕ)
      → IsFreeNumber s r
      → IsConsistent ((with_dir r >>= λ n. create_helper faults (snap n)) s).1.entries
  numbered (ok n) h =
      Created-IsConsistent (snap n) s.entries _ v (rw (named n) h.0) (fits n h.0)
        (create_helper-Created faults (snap n) _ (modified n))
  numbered (err e) h = v

  numbered_next :
      IsConsistent ((next_number faults >>= λ n. create_helper faults (snap n)) s).1.entries
  unfolding next_number
  numbered_next = numbered _ (next_loop-IsFreeNumber faults s room)

-- `createSingleSnapshot` keeps the list consistent, whatever fails on the way, while there are numbers left.
pub create_single_snapshot-IsConsistent :
    (faults : Faults) (now : ℤ) (description : Text) (s : Snapshots)
    → HasRoom s
    → IsConsistent s.entries
    → IsConsistent (create_single_snapshot faults now description s).1.entries
unfolding create_single_snapshot
create_single_snapshot-IsConsistent faults now description s room v =
    numbered_next faults s room v _ (λ n. refl) (λ n. refl) (λ n _ t. cc)

-- `createPreSnapshot` keeps the list consistent, whatever fails on the way, while there are numbers left.
pub create_pre_snapshot-IsConsistent :
    (faults : Faults) (now : ℤ) (description : Text) (s : Snapshots)
    → HasRoom s
    → IsConsistent s.entries
    → IsConsistent (create_pre_snapshot faults now description s).1.entries
unfolding create_pre_snapshot
create_pre_snapshot-IsConsistent faults now description s room v =
    numbered_next faults s room v _ (λ n. refl) (λ n. refl) (λ n _ t. cc)

post_of-none :
    (num : ℕ) (entries : List Snapshot)
    → post_of num entries ≡ none
    → (q : Snapshot) → In q entries
    → q.type ≡ post
    → q.pre_num ≢ num
unfolding post_of
post_of-none num [] h q m t same = absurd m
post_of-none num (s ∷ ss) h q (inl e) t same = ground arith
post_of-none num (s ∷ ss) h q (inr m) t same = post_of-none num ss (ground arith) q m t same

-- Two entries with one number are the same entry.
pub unique_num :
    (entries : List Snapshot) (p q : Snapshot)
    → Pairs Below entries
    → In p entries
    → In q entries
    → p.num ≡ q.num
    → p ≡ q
unique_num [] p q h mp mq e = absurd mp
unique_num (s ∷ ss) p q h (inl ep) (inl eq) e = ep ∙ sym eq
unique_num (s ∷ ss) p q h (inl ep) (inr mq) e =
    absurd (omega (arith, ap (λ (x : Snapshot). x.num) ep, All-In (Below s) ss q h.0 mq))
unique_num (s ∷ ss) p q h (inr mp) (inl eq) e =
    absurd (omega (arith, ap (λ (x : Snapshot). x.num) eq, All-In (Below s) ss p h.0 mp))
unique_num (s ∷ ss) p q h (inr mp) (inr mq) e = unique_num ss p q h.1 mp mq e

module _ (entries : List Snapshot) (v : IsConsistent entries) (p : Snapshot)
    (m : In p entries) where
  allowed-Fits :
      can_have_post (some p) entries ≡ true
      → (n : ℕ) → last_num entries < n
      → (p.num < n)
        × ((q : Snapshot) → In q entries → q.num ≡ p.num → q.type ≡ pre)
        × ((q : Snapshot) → In q entries → q.type ≡ post → q.pre_num ≢ p.num)
  unfolding can_have_post is_pre
  allowed-Fits allowed n above = (
    omega (arith, In-le-last_num entries p v.ascending m),
    (λ q mq e.
        ap (λ (y : Snapshot). y.type) (unique_num entries q p v.ascending mq m e) ∙ ground arith),
    (λ q mq tq. post_of-none p.num entries (ground arith) q mq tq),
  )

-- An iterator points into the list, or is `end()`.
abbrev pub IsIterator : List Snapshot → Option Snapshot → Type 0
IsIterator entries none = Unit
IsIterator entries (some p) = In p entries

-- `createPostSnapshot` keeps the list consistent for every iterator of the list, `end()` included,
-- and whatever fails on the way, while there are numbers left.
pub create_post_snapshot-IsConsistent :
    (faults : Faults) (now : ℤ) (description : Text) (p : Option Snapshot) (s : Snapshots)
    → HasRoom s
    → IsIterator s.entries p
    → IsConsistent s.entries
    → IsConsistent (create_post_snapshot faults now description p s).1.entries
unfolding create_post_snapshot
create_post_snapshot-IsConsistent faults now description none s room m v = v
create_post_snapshot-IsConsistent faults now description (some p) s room m v =
    elim (Bool-cases (can_have_post (some p) s.entries)) [
      | inl allowed ↦ rw allowed (
          numbered_next faults s room v _ (λ n. refl) (λ n. refl)
            (λ n above _. allowed-Fits s.entries v p m allowed n above))
      | inr refused ↦ rw refused v
    ]
