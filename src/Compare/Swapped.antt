-- ===== src/Compare/Swapped.antt =====
-- `cmpDirs` of two trees, and of the same trees in the other order.
use ok_snap.Base.{
  ℕ, ◌≡◌, refl, sym, ap, ◌∙◌, inl, inr, Bool, true, false, ◌&&◌, Option, none, some, [], ◌==◌,
  if◌then◌else◌, Bool-cases, text_lt-asymm, text_lt_total, Text, text_eq, text_eq_iff, text_lt,
}
use ok_snap.Exec.{ok}
use ok_snap.Files.Status.{created, deleted, invert_status}
use ok_snap.Compare.Tree.{Stat, Node, Entries, reg, lnk, dir, other, end, entry, sort_entries}
use ok_snap.Compare.Dirs.{
  Changes, below, then_all, is_filtered, lonesome, opened, twosome, subdirs, cmp_dirs_worker,
  cmp_dirs,
}
use ok_snap.Compare.Symmetry.{
  swapped, swapped-then_all, swapped-lonesome, swapped-twosome, invert_deleted, invert_created,
}

swapped-opened :
    (o1 o2 : Bool) (inner inner' : Changes)
    → inner' ≡ swapped inner
    → opened o2 o1 inner' ≡ swapped (opened o1 o2 inner)
swapped-opened false false inner inner' h = refl
swapped-opened false true inner inner' h = refl
swapped-opened true false inner inner' h = refl
swapped-opened true true inner inner' h = h

-- Passing over a name of the second directory does not depend on where the first one stands.
skip_second :
    (dev1 dev2 : ℕ) (path n : Text) (x : Node) (es rest : Entries)
    → is_filtered path n ≡ true
    → cmp_dirs_worker dev1 dev2 path es (entry n x rest) ≡ cmp_dirs_worker dev1 dev2 path es rest
unfolding cmp_dirs_worker
skip_second dev1 dev2 path n x end rest h = rw h
skip_second dev1 dev2 path n x (entry n1 x1 r1) end h = elim (Bool-cases (is_filtered path n1)) [
  | inl skipped ↦ let ih = skip_second dev1 dev2 path n x r1 end h in rw skipped ih
  | inr kept ↦ rw (kept, h)
]
skip_second dev1 dev2 path n x (entry n1 x1 r1) (entry n2 x2 r2) h =
    elim (Bool-cases (is_filtered path n1)) [
      | inl skipped ↦ let ih = skip_second dev1 dev2 path n x r1 (entry n2 x2 r2) h in rw skipped ih
      | inr kept ↦ rw (kept, h)
    ]

skip_first :
    (dev1 dev2 : ℕ) (path n : Text) (x : Node) (rest es : Entries)
    → is_filtered path n ≡ true
    → cmp_dirs_worker dev1 dev2 path (entry n x rest) es ≡ cmp_dirs_worker dev1 dev2 path rest es
unfolding cmp_dirs_worker
skip_first dev1 dev2 path n x rest end h = rw h
skip_first dev1 dev2 path n x rest (entry n2 x2 r2) h = rw h

swapped-both :
    (dev1 dev2 : ℕ) (path : Text) (x1 x2 : Node) (inner inner' rest rest' : Changes)
    → inner' ≡ swapped inner
    → rest' ≡ swapped rest
    → then_all (twosome dev2 dev1 path x2 x1 inner') rest'
      ≡ swapped (then_all (twosome dev1 dev2 path x1 x2 inner) rest)
swapped-both dev1 dev2 path x1 x2 inner inner' rest rest' hi hr =
    (λ i. then_all (swapped-twosome dev1 dev2 path x1 x2 inner inner' hi i) (hr i))
    ∙ sym (swapped-then_all (twosome dev1 dev2 path x1 x2 inner) rest)

-- The call for a name of one directory alone, the other way round.
swapped-lone :
    (dev : ℕ) (x : Node) (path : Text) (status status' : ℕ) (rest rest' : Changes)
    → invert_status status ≡ status'
    → rest' ≡ swapped rest
    → then_all (lonesome dev x path status') rest'
      ≡ swapped (then_all (lonesome dev x path status) rest)
swapped-lone dev x path status status' rest rest' hs hr = sym (
    swapped-then_all (lonesome dev x path status) rest ∙ (λ i.
      then_all ((swapped-lonesome dev x path status ∙ ap (lonesome dev x path) hs) i) (sym hr i)))

same_name : (n1 n2 : Text) → text_lt n2 n1 ≡ false → text_lt n1 n2 ≡ false → n2 ≡ n1
same_name n1 n2 h k = elim (Bool-cases (text_eq n2 n1)) [
  | inl same ↦ (text_eq_iff n2 n1).0 same
  | inr differ ↦ cc (text_lt_total n2 n1 h differ)
]

on_both_devs :
    (b1 b2 : Bool) (inner inner' : Changes)
    → inner' ≡ swapped inner
    → (if b2 && b1 then inner' else ok []) ≡ swapped (if b1 && b2 then inner else ok [])
on_both_devs true true inner inner' h = h
on_both_devs true false inner inner' h = refl
on_both_devs false true inner inner' h = refl
on_both_devs false false inner inner' h = refl

mutual
  unfolding cmp_dirs_worker

  swapped-subdirs :
      (dev1 dev2 : ℕ) (path : Text) (x1 x2 : Node)
      → subdirs dev2 dev1 path x2 x1 ≡ swapped (subdirs dev1 dev2 path x1 x2)
  swapped-subdirs dev1 dev2 path (dir s1 o1 es1) (dir s2 o2 es2) =
      let inner =
        swapped-opened o1 o2 (cmp_dirs_worker dev1 dev2 path es1 es2)
          (cmp_dirs_worker dev2 dev1 path es2 es1) (swapped-worker dev1 dev2 path es1 es2) in
      on_both_devs (s1.dev == dev1) (s2.dev == dev2) _ _ inner
  swapped-subdirs dev1 dev2 path (reg s1 c1) (reg s2 c2) = refl
  swapped-subdirs dev1 dev2 path (lnk s1 c1) (reg s2 c2) = refl
  swapped-subdirs dev1 dev2 path (other f1 s1) (reg s2 c2) = refl
  swapped-subdirs dev1 dev2 path _ _ = refl

  swapped-worker :
      (dev1 dev2 : ℕ) (path : Text) (es1 es2 : Entries)
      → cmp_dirs_worker dev2 dev1 path es2 es1 ≡ swapped (cmp_dirs_worker dev1 dev2 path es1 es2)
  swapped-worker dev1 dev2 path end end = refl
  swapped-worker dev1 dev2 path (entry n1 x1 r1) end =
      let ih = swapped-worker dev1 dev2 path r1 end in
      elim (Bool-cases (is_filtered path n1)) [
        | inl skipped ↦ rw skipped ih
        | inr kept ↦
            let lone = swapped-lone dev1 x1 (below path n1) deleted created _ _ invert_deleted ih in
            rw kept lone
      ]
  swapped-worker dev1 dev2 path end (entry n2 x2 r2) =
      let ih = swapped-worker dev1 dev2 path end r2 in
      elim (Bool-cases (is_filtered path n2)) [
        | inl skipped ↦ rw skipped ih
        | inr kept ↦
            let lone = swapped-lone dev2 x2 (below path n2) created deleted _ _ invert_created ih in
            rw kept lone
      ]
  swapped-worker dev1 dev2 path (entry n1 x1 r1) (entry n2 x2 r2) =
      let skip1 = swapped-worker dev1 dev2 path r1 (entry n2 x2 r2) in
      let skip2 = swapped-worker dev1 dev2 path (entry n1 x1 r1) r2 in
      let rest = swapped-worker dev1 dev2 path r1 r2 in
      let inner = swapped-subdirs dev1 dev2 (below path n1) x1 x2 in
      elim (Bool-cases (is_filtered path n1)) [
        | inl skipped ↦
            let skips = skip_first dev1 dev2 path n1 x1 r1 (entry n2 x2 r2) skipped in
            skip_second dev2 dev1 path n1 x1 (entry n2 x2 r2) r1 skipped
            ∙ skip1
            ∙ ap swapped (sym skips)
        | inr kept1 ↦ elim (Bool-cases (is_filtered path n2)) [
          | inl skipped ↦ rw (kept1, skipped) skip2
          | inr kept2 ↦ elim (Bool-cases (text_lt n2 n1)) [
            | inl less ↦
                let lone =
                  swapped-lone dev2 x2 (below path n2) created deleted _ _ invert_created skip2 in
                rw (kept1, kept2, text_lt-asymm n2 n1 less, less) lone
            | inr not_less ↦ elim (Bool-cases (text_lt n1 n2)) [
              | inl less ↦
                  let lone =
                    swapped-lone dev1 x1 (below path n1) deleted created _ _ invert_deleted skip1 in
                  rw (kept1, kept2, not_less, less) lone
              | inr same ↦
                  let both = swapped-both dev1 dev2 (below path n1) x1 x2 _ _ _ _ inner rest in
                  let equal_paths = same_name n1 n2 not_less same in
                  rw (kept1, kept2, not_less, same, equal_paths) both
            ]
          ]
        ]
      ]

-- A comparison of two directories in the other order makes the same calls of the callback in the
-- same order, each with the status inverted (created for deleted and the other way round), and it
-- ends with an exception exactly if the first comparison does.
pub cmp_dirs-swapped :
    (stat1 stat2 : Option Stat) (es1 es2 : Entries)
    → cmp_dirs stat2 stat1 es2 es1 ≡ swapped (cmp_dirs stat1 stat2 es1 es2)
unfolding cmp_dirs
cmp_dirs-swapped none none es1 es2 = refl
cmp_dirs-swapped none (some s2) es1 es2 = refl
cmp_dirs-swapped (some s1) none es1 es2 = refl
cmp_dirs-swapped (some s1) (some s2) es1 es2 =
    swapped-worker s1.dev s2.dev [] (sort_entries es1) (sort_entries es2)
