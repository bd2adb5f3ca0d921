-- ===== src/Helpers/Subpath.antt =====
-- `is_subpath` and `Snapper::detectFstype`: the mount point with the longest path above a subvolume.
use ok_snap.Base.{
  ◌≤◌, ◌≡◌, refl, sym, ap, ◌∙◌, subst, ◌↔◌, ◌⊎◌, inl, inr, Bool, true, false, not, ◌&&◌, false≢true,
  Option, none, some, List, [], ◌∷◌, ◌++◌, append-nil, arith, leb, ◌==◌, if◌then◌else◌, Bool-cases,
  Option-cases, length, All, In, Text, codes, text_eq, text_eq_iff,
}

-- `a.compare(0, b.length(), b) == 0`, and what is behind it in `a`; none if `a` is shorter.
unfoldable pub behind : Text → Text → Option Text
behind a [] = some a
behind [] (d ∷ b) = none
behind (c ∷ a) (d ∷ b) = if c == d then behind a b else none

-- `len == a.length() || a[len] == '/'`
unfoldable pub at_end : Text → Bool
at_end [] = true
at_end (c ∷ rest) = c == b'/'

unfoldable pub is_subpath : Text → Text → Bool
unfolding behind at_end text_eq
is_subpath a b =
    if text_eq b (codes "/")
    then true
    else elim (behind a b) [ none ↦ false | some rest ↦ at_end rest ]

-- A line of the mount table.
pub record Mntent : Type 0 where
  pub mnt_dir : Text
  pub mnt_type : Text

pub record Match : Type 0 where
  pub best_match : Text
  pub fstype : Text

unfoldable pub is_better : Text → Text → Mntent → Bool
unfolding is_subpath text_eq
is_better subvolume best m =
    not (text_eq m.mnt_type (codes "rootfs"))
    && (leb (length best) (length m.mnt_dir) && is_subpath subvolume m.mnt_dir)

unfoldable pub match_mount : Text → Match → Mntent → Match
unfolding is_better
match_mount subvolume so_far m =
    if is_better subvolume so_far.best_match m
    then record { best_match = m.mnt_dir; fstype = m.mnt_type }
    else so_far

-- The loop over the table.
unfoldable pub match_mounts : Text → Match → List Mntent → Match
unfolding match_mount
match_mounts subvolume so_far [] = so_far
match_mounts subvolume so_far (m ∷ ms) = match_mounts subvolume (match_mount subvolume so_far m) ms

-- What stands after `setmntent`: the result and `fstype`.
unfoldable pub detect_fstype : Text → List Mntent → Bool × Text
unfolding match_mounts text_eq
detect_fstype subvolume mounts =
    let found = match_mounts subvolume (record { best_match = []; fstype = [] }) mounts in
    (
      not (text_eq found.best_match []),
      if text_eq found.fstype (codes "ext4dev") then codes "ext4" else found.fstype,
    )

behind_iff : (a b rest : Text) → (behind a b ≡ some rest) ↔ (a ≡ b ++ rest)
unfolding behind
behind_iff a [] rest = ground arith
behind_iff [] (d ∷ b) rest = ground arith
behind_iff (c ∷ a) (d ∷ b) rest = ground (arith, behind_iff a b rest)

subpath_is :
    (a b : Text)
    → is_subpath a b ≡ true
    → (b ≡ codes "/") ⊎ ((a ≡ b) ⊎ ((rest : Text) × (a ≡ b ++ b'/' ∷ rest)))
unfolding is_subpath at_end
subpath_is a b h = elim (Bool-cases (text_eq b (codes "/"))) [
  | inl e ↦ inl ((text_eq_iff b (codes "/")).0 e)
  | inr e ↦ elim (Option-cases (behind a b)) [
    | inl k ↦ absurd (ground arith)
    | inr ([], k) ↦ inr (inl ((behind_iff a b []).0 k ∙ append-nil b))
    | inr (c ∷ rest, k) ↦
        let slash : c ≡ b'/' = ground arith in
        inr (inr (rest, (behind_iff a b (c ∷ rest)).0 k ∙ ap (λ d. b ++ d ∷ rest) slash))
  ]
]

is_subpath_of :
    (a b : Text)
    → ((b ≡ codes "/") ⊎ ((a ≡ b) ⊎ ((rest : Text) × (a ≡ b ++ b'/' ∷ rest))))
    → is_subpath a b ≡ true
unfolding is_subpath at_end
is_subpath_of a b (inl root) = rw ((text_eq_iff b (codes "/")).1 root, is_subpath) refl
is_subpath_of a b (inr (inl same)) =
    ground (arith, (behind_iff a b []).1 (same ∙ sym (append-nil b)))
is_subpath_of a b (inr (inr (rest, below))) = ground (arith, (behind_iff a b (b'/' ∷ rest)).1 below)

-- A path is below another if that is the root, or the path itself, or followed by a slash in it.
pub is_subpath_iff :
    (a b : Text)
    → (is_subpath a b ≡ true)
      ↔ ((b ≡ codes "/") ⊎ ((a ≡ b) ⊎ ((rest : Text) × (a ≡ b ++ b'/' ∷ rest))))
unfolding is_subpath
is_subpath_iff a b = (subpath_is a b, is_subpath_of a b)

-- A mount point of a filesystem above the subvolume.
abbrev pub Above : Text → Mntent → Type 0
Above subvolume m =
    (text_eq m.mnt_type (codes "rootfs") ≡ false) × (is_subpath subvolume m.mnt_dir ≡ true)

match_mount_longer :
    (subvolume : Text) (so_far : Match) (m : Mntent)
    → (length so_far.best_match ≤ length (match_mount subvolume so_far m).best_match)
      × (Above subvolume m → length m.mnt_dir ≤ length (match_mount subvolume so_far m).best_match)
unfolding match_mount is_better
match_mount_longer subvolume so_far m = (ground arith, λ above. ground arith)

-- No mount point above the subvolume is longer than the one that the loop ends with.
pub match_mounts_longest :
    (subvolume : Text) (so_far : Match) (ms : List Mntent)
    → (length so_far.best_match ≤ length (match_mounts subvolume so_far ms).best_match)
      × All
          (λ m.
            Above subvolume m
            → length m.mnt_dir ≤ length (match_mounts subvolume so_far ms).best_match)
          ms
unfolding match_mounts
match_mounts_longest subvolume so_far [] = (omega arith, tt)
match_mounts_longest subvolume so_far (m ∷ ms) =
    let step = match_mount_longer subvolume so_far m in
    let rest = match_mounts_longest subvolume (match_mount subvolume so_far m) ms in
    (omega (arith, step.0, rest.0), ((λ above. omega (arith, step.1 above, rest.0)), rest.1))

-- What was found is this mount point.
abbrev Found : Text → Match → Mntent → Type 0
Found subvolume so_far m =
    Above subvolume m × (so_far.best_match ≡ m.mnt_dir) × (so_far.fstype ≡ m.mnt_type)

match_mount_cases :
    (subvolume : Text) (so_far : Match) (m : Mntent)
    → (match_mount subvolume so_far m ≡ so_far) ⊎ Found subvolume (match_mount subvolume so_far m) m
unfolding match_mount is_better
match_mount_cases subvolume so_far m = elim (Bool-cases (is_better subvolume so_far.best_match m)) [
  | inr e ↦ inl (rw (e, match_mount) refl)
  | inl e ↦ inr ((ground arith, ground arith), ground arith, ground arith)
]

match_mounts-Found :
    (subvolume : Text) (so_far : Match) (ms : List Mntent)
    → (match_mounts subvolume so_far ms ≡ so_far)
      ⊎ ((m : Mntent) × In m ms × Found subvolume (match_mounts subvolume so_far ms) m)
unfolding match_mounts
match_mounts-Found subvolume so_far [] = inl refl
match_mounts-Found subvolume so_far (m ∷ ms) =
    elim (match_mounts-Found subvolume (match_mount subvolume so_far m) ms) [
      | inr (n, there, it) ↦ inr (n, inr there, it)
      | inl same ↦ elim (match_mount_cases subvolume so_far m) [
        | inl kept ↦ inl (same ∙ kept)
        | inr it ↦ inr (m, inl refl, (rw same it))
      ]
    ]

-- The name of the filesystem that `detectFstype` tells.
abbrev pub type_name : Text → Text
type_name fstype = if text_eq fstype (codes "ext4dev") then codes "ext4" else fstype

-- When `detectFstype` finds a filesystem, it is that of a mount point which is above the subvolume and
-- not the root filesystem of the boot, and no such mount point has a longer path.
pub detect_fstype_longest :
    (subvolume fstype : Text) (mounts : List Mntent)
    → detect_fstype subvolume mounts ≡ (true, fstype)
    → (m : Mntent) × In m mounts
      × Above subvolume m
      × (fstype ≡ type_name m.mnt_type)
      × All (λ n. Above subvolume n → length n.mnt_dir ≤ length m.mnt_dir) mounts
unfolding detect_fstype text_eq
detect_fstype_longest subvolume fstype mounts h =
    let start : Match = record { best_match = []; fstype = [] } in
    let last = match_mounts subvolume start mounts in
    let longest = match_mounts_longest subvolume start mounts in
    elim (match_mounts-Found subvolume start mounts) [
      | inl none_found ↦
          absurd (
            false≢true (sym (ap (λ r. not (text_eq r.best_match [])) none_found) ∙ ap (λ r. r.0) h))
      | inr (m, there, (above, dir, named)) ↦ (
        m,
        there,
        above,
        sym (ap (λ r. r.1) h) ∙ ap type_name named,
        subst (λ best. All (λ n. Above subvolume n → length n.mnt_dir ≤ length best) mounts) dir
            longest.1,
      )
    ]
