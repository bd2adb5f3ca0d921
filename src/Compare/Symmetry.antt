-- ===== src/Compare/Symmetry.antt =====
-- A comparison the other way round finds the same names with inverted statuses.
use ok_snap.Base.{
  ℕ, ◌≡◌, refl, sym, ap, ◌∙◌, ◌⊎◌, inl, inr, Bool, true, false, not, [], ◌∷◌, map, append-nil,
  arith, ◌==◌, if◌then◌else◌, Bool-cases, has, Text,
}
use mathlib.Core.List.{map-append}
use ok_snap.Exec.{ok, err}
use ok_snap.Files.Status.{created, deleted, type, invert_status}
use ok_snap.Compare.Tree.{Node, Entries, reg, lnk, dir, other, end, entry, stat_of, same_type}
use ok_snap.Compare.Content.{cmp_files}
use ok_snap.Compare.Dirs.{
  Change, Changes, below, then_all, call, list_subdirs, list_node, lonesome, on_devs, status_of,
  call_unless_same, type_changed, twosome,
}
use ok_snap.Compare.Flags.{cmp_files_sym, cmp_files_facts}

abbrev pub inverted : Change → Change
inverted (name, status) = (name, invert_status status)

-- The changes seen from the other side; an exception stays.
abbrev pub swapped : Changes → Changes
swapped (ok cs) = ok (map inverted cs)
swapped (err e) = err e

pub swapped-then_all : (a b : Changes) → swapped (then_all a b) ≡ then_all (swapped a) (swapped b)
swapped-then_all (err e) b = refl
swapped-then_all (ok xs) (err e) = refl
swapped-then_all (ok xs) (ok ys) = ap ok (map-append inverted xs ys)

pub swapped-if :
    (b : Bool) (x y : Changes) → swapped (if b then x else y) ≡ (if b then swapped x else swapped y)
swapped-if true x y = refl
swapped-if false x y = refl

mutual
  unfolding list_subdirs

  swapped-list_subdirs :
      (es : Entries) (path : Text) (status : ℕ)
      → swapped (list_subdirs es path status) ≡ list_subdirs es path (invert_status status)
  swapped-list_subdirs end path status = refl
  swapped-list_subdirs (entry name x rest) path status =
      swapped-then_all (ok ((below path name, status) ∷ []))
        (then_all (list_node x (below path name) status) (list_subdirs rest path status))
      ∙ ap (call (below path name) (invert_status status)) (
          swapped-then_all (list_node x (below path name) status) (list_subdirs rest path status)
          ∙ (λ i.
              then_all (swapped-list_node x (below path name) status i)
                (swapped-list_subdirs rest path status i)))

  swapped-list_node :
      (x : Node) (path : Text) (status : ℕ)
      → swapped (list_node x path status) ≡ list_node x path (invert_status status)
  swapped-list_node (reg s c) path status = refl
  swapped-list_node (lnk s t) path status = refl
  swapped-list_node (dir s false es) path status = refl
  swapped-list_node (dir s true es) path status = swapped-list_subdirs es path status
  swapped-list_node (other fmt s) path status = refl

pub swapped-lonesome :
    (dev : ℕ) (x : Node) (path : Text) (status : ℕ)
    → swapped (lonesome dev x path status) ≡ lonesome dev x path (invert_status status)
unfolding lonesome
swapped-lonesome dev x path status =
    swapped-if ((stat_of x).dev == dev) (call path status (list_node x path status)) (ok [])
    ∙ ap (λ c. if (stat_of x).dev == dev then c else ok [])
        (swapped-then_all (ok ((path, status) ∷ [])) (list_node x path status)
          ∙ ap (call path (invert_status status)) (swapped-list_node x path status))

invert_if :
    (b : Bool) (s : ℕ)
    → invert_status s ≡ s
    → invert_status (if b then s else 0) ≡ (if b then s else 0)
unfolding invert_status
invert_if true s h = h
invert_if false s h = refl

has_if : (b : Bool) (s : ℕ) → has (if b then s else 0) type ≡ true → has s type ≡ true
has_if true s h = h
has_if false s h = cc

negated : (b : Bool) → not b ≡ true → b ≡ false
negated true h = cc
negated false h = refl

module _ (dev1 dev2 : ℕ) (x1 x2 : Node) where
  on_devs_sym : on_devs dev2 dev1 x2 x1 ≡ on_devs dev1 dev2 x1 x2
  unfolding on_devs
  on_devs_sym = ground arith

  status_of_sym : status_of dev2 dev1 x2 x1 ≡ status_of dev1 dev2 x1 x2
  unfolding status_of
  status_of_sym = rw (on_devs_sym, cmp_files_sym x2 x1)

  invert_status_of : invert_status (status_of dev1 dev2 x1 x2) ≡ status_of dev1 dev2 x1 x2
  unfolding status_of
  invert_status_of = invert_if (on_devs dev1 dev2 x1 x2) (cmp_files x1 x2) (cmp_files_facts x1 x2).0

  -- The types differ where the status says so.
  has-status_of : has (status_of dev1 dev2 x1 x2) type ≡ true → same_type x1 x2 ≡ false
  unfolding status_of
  has-status_of h =
      negated (same_type x1 x2)
        (sym (cmp_files_facts x1 x2).2 ∙ has_if (on_devs dev1 dev2 x1 x2) (cmp_files x1 x2) h)

abbrev is_dir : Node → Bool
is_dir (dir s o es) = true
is_dir _ = false

list_node-plain :
    (x : Node) (path : Text) (status : ℕ) → is_dir x ≡ false → list_node x path status ≡ ok []
unfolding list_node
list_node-plain (dir s o es) path status h = cc
list_node-plain (reg s c) path status h = refl
list_node-plain _ path status h = refl

same_type-dirs :
    (x1 x2 : Node) → same_type x1 x2 ≡ false → (is_dir x1 ≡ false) ⊎ (is_dir x2 ≡ false)
same_type-dirs (dir s o es) (dir s' o' es') h = cc
same_type-dirs (dir s o es) _ h = inr refl
same_type-dirs (reg s c) x2 h = inl refl
same_type-dirs _ x2 h = inl refl

if_same : (b : Bool) (x : Changes) → (if b then x else x) ≡ x
if_same true x = refl
if_same false x = refl

then_all-nil : (a : Changes) → then_all a (ok []) ≡ a
then_all-nil (ok cs) = ap ok (append-nil cs)
then_all-nil (err e) = refl

nil-then_all : (a : Changes) → then_all (ok []) a ≡ a
nil-then_all (ok cs) = refl
nil-then_all (err e) = refl

part : ℕ → Node → Text → ℕ → Changes
part dev x path status = if (stat_of x).dev == dev then list_node x path status else ok []

swapped-part :
    (dev : ℕ) (x : Node) (path : Text) (status : ℕ)
    → swapped (part dev x path status) ≡ part dev x path (invert_status status)
unfolding part
swapped-part dev x path status =
    swapped-if ((stat_of x).dev == dev) (list_node x path status) (ok [])
    ∙ ap (λ c. if (stat_of x).dev == dev then c else ok []) (swapped-list_node x path status)

part-plain :
    (dev : ℕ) (x : Node) (path : Text) (status : ℕ)
    → is_dir x ≡ false
    → part dev x path status ≡ ok []
unfolding part
part-plain dev x path status h =
    ap (λ c. if (stat_of x).dev == dev then c else ok []) (list_node-plain x path status h)
    ∙ if_same ((stat_of x).dev == dev) (ok [])

then_all_comm : (a b : Changes) → (a ≡ ok []) ⊎ (b ≡ ok []) → then_all a b ≡ then_all b a
then_all_comm a b (inl e) = rw e (nil-then_all b ∙ sym (then_all-nil b))
then_all_comm a b (inr e) = rw e (then_all-nil a ∙ sym (nil-then_all a))

pub invert_deleted : invert_status deleted ≡ created
unfolding invert_status
invert_deleted = refl

pub invert_created : invert_status created ≡ deleted
unfolding invert_status
invert_created = refl

swapped-type_changed :
    (dev1 dev2 : ℕ) (x1 x2 : Node) (path : Text)
    → same_type x1 x2 ≡ false
    → type_changed dev2 dev1 x2 x1 path ≡ swapped (type_changed dev1 dev2 x1 x2 path)
unfolding type_changed part
swapped-type_changed dev1 dev2 x1 x2 path h =
    let one_plain : (part dev2 x2 path deleted ≡ ok []) ⊎ (part dev1 x1 path created ≡ ok []) =
      elim (same_type-dirs x1 x2 h) [
        | inl plain ↦ inr (part-plain dev1 x1 path created plain)
        | inr plain ↦ inl (part-plain dev2 x2 path deleted plain)
      ] in
    let first = swapped-part dev1 x1 path deleted ∙ ap (part dev1 x1 path) invert_deleted in
    let second = swapped-part dev2 x2 path created ∙ ap (part dev2 x2 path) invert_created in
    then_all_comm (part dev2 x2 path deleted) (part dev1 x1 path created) one_plain
    ∙ sym (
        swapped-then_all (part dev1 x1 path deleted) (part dev2 x2 path created)
        ∙ (λ i. then_all (first i) (second i)))

swapped-call_unless_same :
    (path : Text) (status : ℕ)
    → invert_status status ≡ status
    → swapped (call_unless_same path status) ≡ call_unless_same path status
swapped-call_unless_same path status h =
    swapped-if (status == 0) (ok []) (ok ((path, status) ∷ []))
    ∙ ap (λ s. if status == 0 then ok [] else ok ((path, s) ∷ [])) h

pub swapped-twosome :
    (dev1 dev2 : ℕ) (path : Text) (x1 x2 : Node) (inner inner' : Changes)
    → inner' ≡ swapped inner
    → twosome dev2 dev1 path x2 x1 inner' ≡ swapped (twosome dev1 dev2 path x1 x2 inner)
unfolding twosome
swapped-twosome dev1 dev2 path x1 x2 inner inner' h =
    let st = status_of dev1 dev2 x1 x2 in
    let calls = swapped-call_unless_same path st (invert_status_of dev1 dev2 x1 x2) in
    let rest : (if has st type then type_changed dev2 dev1 x2 x1 path else inner')
        ≡ swapped (if has st type then type_changed dev1 dev2 x1 x2 path else inner) =
      elim (Bool-cases (has st type)) [
        | inl differs ↦
            let e =
              swapped-type_changed dev1 dev2 x1 x2 path (has-status_of dev1 dev2 x1 x2 differs) in
            rw differs e
        | inr same ↦ rw same h
      ] in
    rw (status_of_sym dev1 dev2 x1 x2) (
      sym (
        swapped-then_all (call_unless_same path st)
          (if has st type then type_changed dev1 dev2 x1 x2 path else inner)
        ∙ (λ i. then_all (calls i) (sym rest i))))
