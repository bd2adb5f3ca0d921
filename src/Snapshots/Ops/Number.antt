-- ===== src/Snapshots/Ops/Number.antt =====
-- `nextNumber` ends, with a number that is free and above every snapshot.
use ok_snap.Base.{
  ℕ, zero, suc, ◌+◌, ◌%◌, ◌^◌, ◌≤◌, ◌<◌, ◌≡◌, refl, inl, inr, true, false, List, [], ◌∷◌, arith,
  ltb, if◌then◌else◌, Bool-cases, length,
}
use ok_snap.Exec.{Result, ok, err, io_error}
use ok_snap.Snapshots.Disk.{Disk, Faults, check_snapshot, member}
use ok_snap.Snapshots.Table.{Snapshots, last_num, next_fuel}
use ok_snap.Snapshots.Ops.{next_loop, next_number, with_dir}

-- How many entries of a list lie above a number.
above : ℕ → List ℕ → ℕ
above n [] = 0
above n (m ∷ ms) = (if ltb n m then 1 else 0) + above n ms

above-length : (n : ℕ) (ms : List ℕ) → above n ms ≤ length ms
unfolding above
above-length n [] = omega arith
above-length n (m ∷ ms) = ground (arith, above-length n ms)

above_mono : (n : ℕ) (ms : List ℕ) → above (n + 1) ms ≤ above n ms
unfolding above
above_mono n [] = omega arith
above_mono n (m ∷ ms) = ground (arith, above_mono n ms)

above-member : (n : ℕ) (ms : List ℕ) → member (n + 1) ms ≡ true → above (n + 1) ms < above n ms
unfolding above member
above-member n [] h = cc
above-member n (m ∷ ms) h = ground (arith, above-member n ms, above_mono n ms)

-- What the loop gives: a number that is free, or the exception of a `mkdir` that failed.
abbrev pub IsNext : Faults → ℕ → ℕ → Disk → Result ℕ → Type 0
IsNext faults num bound d (ok n) =
    (num < n) × (n ≤ bound) × (member n d.subvolumes ≡ false) × (member n d.info_dirs ≡ false)
IsNext faults num bound d (err e) = e ≡ io_error

IsNext-step :
    (faults : Faults) (fuel num : ℕ) (d : Disk) (r : Result ℕ)
    → IsNext faults (num + 1) (num + 1 + fuel) d r
    → IsNext faults num (num + suc fuel) d r
IsNext-step faults fuel num d (ok n) h = (omega arith, omega arith, h.2, h.3)
IsNext-step faults fuel num d (err e) h = h

next_loop-IsNext :
    (faults : Faults) (fuel num : ℕ) (d : Disk)
    → above num d.subvolumes + above num d.info_dirs < fuel
    → num + fuel < 2 ^ 32
    → IsNext faults num (num + fuel) d (next_loop faults fuel num d)
unfolding next_loop check_snapshot
next_loop-IsNext faults zero num d h b = absurd (omega arith)
next_loop-IsNext faults (suc fuel) num d h b =
    let small : (num + 1) % 2 ^ 32 ≡ num + 1 = omega arith in
    let mono1 = above_mono num d.subvolumes in
    let mono2 = above_mono num d.info_dirs in
    rw small (elim (Bool-cases (member (num + 1) d.subvolumes)) [
      | inl taken ↦ rw taken (
          IsNext-step faults fuel num d (next_loop faults fuel (num + 1) d) (
            next_loop-IsNext faults fuel (num + 1) d
              (omega (arith, above-member num d.subvolumes taken)) (omega arith)))
      | inr free ↦ elim (Bool-cases (member (num + 1) d.info_dirs)) [
        | inl taken ↦
            rw (free, taken)
              (IsNext-step faults fuel num d (next_loop faults fuel (num + 1) d) (
                next_loop-IsNext faults fuel (num + 1) d
                  (omega (arith, above-member num d.info_dirs taken)) (omega arith)))
        | inr free2 ↦ elim (Bool-cases (faults.mkdir_fails (num + 1))) [
          | inl bad ↦ rw (free, free2, bad) refl
          | inr good ↦ rw (free, free2, good) (omega arith, omega arith, free, free2)
        ]
      ]
    ])

-- No number wraps round while there are fewer snapshots and directories than numbers left.
abbrev pub HasRoom : Snapshots → Type 0
HasRoom s = last_num s.entries + next_fuel s.disk < 2 ^ 32

abbrev pub IsFreeNumber : Snapshots → Result ℕ → Type 0
IsFreeNumber s (ok n) =
    (last_num s.entries < n)
    × (n < 2 ^ 32)
    × (member n s.disk.subvolumes ≡ false)
    × (member n s.disk.info_dirs ≡ false)
IsFreeNumber s (err e) = e ≡ io_error

from_next :
    (faults : Faults) (s : Snapshots) (r : Result ℕ)
    → HasRoom s
    → IsNext faults (last_num s.entries) (last_num s.entries + next_fuel s.disk) s.disk r
    → IsFreeNumber s r
from_next faults s (ok n) room h = (h.0, omega arith, h.2, h.3)
from_next faults s (err e) room h = h

enough : (d : Disk) (n : ℕ) → above n d.subvolumes + above n d.info_dirs < next_fuel d
unfolding next_fuel
enough d n = omega (arith, above-length n d.subvolumes, above-length n d.info_dirs)

pub next_loop-IsFreeNumber :
    (faults : Faults) (s : Snapshots)
    → HasRoom s
    → IsFreeNumber s (next_loop faults (next_fuel s.disk) (last_num s.entries) s.disk)
next_loop-IsFreeNumber faults s room =
    from_next faults s (next_loop faults (next_fuel s.disk) (last_num s.entries) s.disk) room (
      next_loop-IsNext faults (next_fuel s.disk) (last_num s.entries) s.disk
        (enough s.disk (last_num s.entries)) room)

-- What `nextNumber` gives, and what it does: it makes the directory of a free number, or does
-- nothing because a `mkdir` failed.
abbrev pub Numbered : Snapshots → Result ℕ × Snapshots → Type 0
Numbered s (ok n, t) =
    (last_num s.entries < n)
    × (n < 2 ^ 32)
    × (member n s.disk.subvolumes ≡ false)
    × (member n s.disk.info_dirs ≡ false)
    × (t.entries ≡ s.entries)
    × (t.disk ≡ record s.disk { info_dirs = n ∷ s.disk.info_dirs })
Numbered s (err e, t) = (e ≡ io_error) × (t ≡ s)

with_dir-Numbered : (s : Snapshots) (r : Result ℕ) → IsFreeNumber s r → Numbered s (with_dir r s)
with_dir-Numbered s (ok n) (above, fits, no_snapshot, no_dir) =
    (above, fits, no_snapshot, no_dir, refl, refl)
with_dir-Numbered s (err e) h = (h, refl)

-- While there are fewer snapshots and directories than numbers left, `nextNumber` ends. Unless a
-- `mkdir` fails, and then nothing has changed, its number is above that of the last entry, fits
-- the 32 bits, and is neither a snapshot of the filesystem nor an info directory; it leaves the
-- list alone, and what it changes on disk is the directory that it made.
pub next_number-Numbered :
    (faults : Faults) (s : Snapshots) → HasRoom s → Numbered s (next_number faults s)
unfolding next_number
next_number-Numbered faults s room =
    with_dir-Numbered s (next_loop faults (next_fuel s.disk) (last_num s.entries) s.disk)
      (next_loop-IsFreeNumber faults s room)
