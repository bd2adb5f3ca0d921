-- ===== src/Snapshots/Ops/Dropped.antt =====
-- The file lists that the loop of `deleteSnapshot` over the entries drops, and the other files that
-- it removes.
use ok_snap.Base.{
  ℕ, ◌≡◌, refl, sym, subst, ◌≢◌, inl, inr, true, false, not, ◌&&◌, none, List, [], ◌∷◌, arith, ◌==◌,
  Bool-cases, All, In, All_of_In, All-map,
}
use ok_snap.Exec.{io_error, Result, ok, err}
use ok_snap.Snapshots.Types.{Snapshot, is_current}
use ok_snap.Snapshots.Disk
use ok_snap.Snapshots.Disk.{Disk, FileList, member, without, get_info, without_info, Faults}
use ok_snap.Snapshots.Table.{drop_lists_about, drop_list, drop_lists_in, unlink_list}

pub member-without : (n : ℕ) (ms : List ℕ) → member n (without n ms) ≡ false
unfolding member without
member-without n [] = refl
member-without n (m ∷ ms) = ground (arith, member-without n ms)

pub get_info-without : (n : ℕ) (is : List (ℕ × Disk.Info)) → get_info n (without_info n is) ≡ none
unfolding get_info without_info
get_info-without n [] = refl
get_info-without n ((m, i) ∷ is) = ground (arith, get_info-without n is)

pub drop_lists_in-gone :
    (faults : Faults) (n : ℕ) (ls : List FileList)
    → ((m : ℕ) → faults.list_stays n m ≡ false)
    → All (λ l. l.num2 ≢ n) (drop_lists_in faults n ls)
unfolding drop_lists_in
drop_lists_in-gone faults n [] goes = tt
drop_lists_in-gone faults n (l ∷ ls) goes =
    ground (arith, drop_lists_in-gone faults n ls goes, goes l.num1)

pub drop_lists_in-All {κ} :
    (P : FileList → Type κ) (faults : Faults) (n : ℕ) (ls : List FileList)
    → All P ls
    → All P (drop_lists_in faults n ls)
unfolding drop_lists_in
drop_lists_in-All P faults n [] h = tt
drop_lists_in-All P faults n (l ∷ ls) h =
    elim (Bool-cases ((l.num2 == n) && not (faults.list_stays n l.num1))) [
      | inl hit ↦ rw hit (drop_lists_in-All P faults n ls h.1)
      | inr miss ↦ rw miss (h.0, drop_lists_in-All P faults n ls h.1)
    ]

pub drop_list-All {κ} :
    (P : FileList → Type κ) (n2 n1 : ℕ) (ls : List FileList) → All P ls → All P (drop_list n2 n1 ls)
unfolding drop_list
drop_list-All P n2 n1 [] h = tt
drop_list-All P n2 n1 (l ∷ ls) h = elim (Bool-cases ((l.num2 == n2) && (l.num1 == n1))) [
  | inl hit ↦ rw hit (drop_list-All P n2 n1 ls h.1)
  | inr miss ↦ rw miss (h.0, drop_list-All P n2 n1 ls h.1)
]

pub drop_list-gone :
    (n2 n1 : ℕ) (ls : List FileList) → All (λ l. l.num2 ≡ n2 → l.num1 ≢ n1) (drop_list n2 n1 ls)
unfolding drop_list
drop_list-gone n2 n1 [] = tt
drop_list-gone n2 n1 (l ∷ ls) = ground (arith, drop_list-gone n2 n1 ls)

pub unlink_list-All {κ} :
    (P : FileList → Type κ) (faults : Faults) (n2 n1 : ℕ) (ls : List FileList)
    → All P ls
    → All P (unlink_list faults n2 n1 ls)
unfolding unlink_list
unlink_list-All P faults n2 n1 ls h = elim (Bool-cases (faults.list_stays n2 n1)) [
  | inl stays ↦ rw stays h
  | inr goes ↦ rw goes (drop_list-All P n2 n1 ls h)
]

pub unlink_list-gone :
    (faults : Faults) (n2 n1 : ℕ) (ls : List FileList)
    → faults.list_stays n2 n1 ≡ false
    → All (λ l. l.num2 ≡ n2 → l.num1 ≢ n1) (unlink_list faults n2 n1 ls)
unfolding unlink_list
unlink_list-gone faults n2 n1 ls goes = rw goes (drop_list-gone n2 n1 ls)

-- The rest of the disk is left alone.
unfoldable pub SameBut : Disk → Disk → Type 0
SameBut d d' =
    (d'.subvolumes ≡ d.subvolumes)
    × (d'.info_dirs ≡ d.info_dirs)
    × (d'.infos ≡ d.infos)
    × (d'.left_over ≡ d.left_over)

module _ (faults : Faults) where
  -- One round of the loop over the entries.
  pub about_round {κ} :
      (Q : Result (Unit {0}) × Disk → Type κ) (n : ℕ) (s : Snapshot) (ss : List Snapshot) (d : Disk)
      → (is_current s ≡ true → Q (drop_lists_about faults n ss d))
      → (is_current s ≡ false
          → Q (err io_error, d)
            × Q (
                drop_lists_about faults n ss
                  (record d { file_lists = unlink_list faults s.num n d.file_lists })))
      → Q (drop_lists_about faults n (s ∷ ss) d)
  unfolding drop_lists_about
  about_round Q n s ss d current other = elim (Bool-cases (is_current s)) [
    | inl c ↦ rw (c, drop_lists_about) (current c)
    | inr o ↦ elim (Bool-cases (member s.num d.info_dirs)) [
      | inl there ↦ rw (o, drop_lists_about, there, there) ((other o).1)
      | inr missing ↦ rw (o, drop_lists_about, missing, missing) ((other o).0)
    ]
  ]

  pub drop_lists_about-same :
      (n : ℕ) (es : List Snapshot) (d : Disk) → SameBut d (drop_lists_about faults n es d).1
  unfolding SameBut
  drop_lists_about-same n [] d = unfold drop_lists_about in (refl, refl, refl, refl)
  drop_lists_about-same n (s ∷ ss) d =
      about_round (λ r. SameBut d r.1) n s ss d (λ _. drop_lists_about-same n ss d)
        (λ _. (
          (refl, refl, refl, refl),
          drop_lists_about-same n ss
              (record d { file_lists = unlink_list faults s.num n d.file_lists }),
        ))

  pub drop_lists_about-All {κ} :
      (P : FileList → Type κ) (n : ℕ) (es : List Snapshot) (d : Disk)
      → All P d.file_lists
      → All P (drop_lists_about faults n es d).1.file_lists
  drop_lists_about-All P n [] d h = unfold drop_lists_about in h
  drop_lists_about-All P n (s ∷ ss) d h =
      about_round (λ r. All P r.1.file_lists) n s ss d (λ _. drop_lists_about-All P n ss d h)
        (λ _. (
          h,
          drop_lists_about-All P n ss
              (record d { file_lists = unlink_list faults s.num n d.file_lists })
              (unlink_list-All P faults s.num n d.file_lists h),
        ))

-- No list about `n` is left in the directory of an entry.
abbrev pub NotAbout : ℕ → Snapshot → FileList → Type 0
NotAbout n e l = is_current e ≡ false → l.num2 ≡ e.num → l.num1 ≢ n

abbrev pub Dropped : ℕ → List Snapshot → Result (Unit {0}) × Disk → Type 0
Dropped n es (ok u, d) = (e : Snapshot) → In e es → All (NotAbout n e) d.file_lists
Dropped n es (err x, d) = Unit

pub Dropped-cons :
    (n : ℕ) (s : Snapshot) (ss : List Snapshot) (r : Result (Unit {0}) × Disk)
    → All (NotAbout n s) r.1.file_lists
    → Dropped n ss r
    → Dropped n (s ∷ ss) r
Dropped-cons n s ss (ok u, d) h k = go
  where
    go : (e : Snapshot) → In e (s ∷ ss) → All (NotAbout n e) d.file_lists
    go e (inl i) = subst (λ x. All (NotAbout n x) d.file_lists) (sym i) h
    go e (inr m) = k e m
Dropped-cons n s ss (err x, d) h k = tt

pub drop_lists_about-Dropped :
    (faults : Faults) (n : ℕ) (es : List Snapshot) (d : Disk)
    → ((m : ℕ) → faults.list_stays m n ≡ false)
    → Dropped n es (drop_lists_about faults n es d)
drop_lists_about-Dropped faults n [] d goes = unfold drop_lists_about in λ e m. absurd m
drop_lists_about-Dropped faults n (s ∷ ss) d goes =
    about_round faults (Dropped n (s ∷ ss)) n s ss d
      (λ c.
        Dropped-cons n s ss (drop_lists_about faults n ss d)
          (All_of_In (NotAbout n s) (drop_lists_about faults n ss d).1.file_lists (λ l m o. cc))
          (drop_lists_about-Dropped faults n ss d goes))
      (λ o. (
        tt,
        let ls = unlink_list faults s.num n d.file_lists in
            let d' = record d { file_lists = ls } in
            Dropped-cons n s ss (drop_lists_about faults n ss d')
              (drop_lists_about-All faults (NotAbout n s) n ss d' (
                All-map ls (λ l g _ e. g e)
                  (unlink_list-gone faults s.num n d.file_lists (goes s.num))))
              (drop_lists_about-Dropped faults n ss d' goes),
      ))
