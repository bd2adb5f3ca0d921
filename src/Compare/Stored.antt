-- ===== src/Compare/Stored.antt =====
-- The statuses that `cmpDirs` gives can be stored in a file list.
use ok_snap.Base.{
  ℕ, ◌≡◌, refl, Bool, true, false, ◌&&◌, Option, none, some, [], ◌∷◌, ◌==◌, if◌then◌else◌, has, All,
  All-append, All-map, Text, text_lt,
}
use ok_snap.Exec.{ok, err}
use ok_snap.Files.Status.{created, deleted, type, is_clean, status_to_string, string_to_status}
use ok_snap.Files.Status.RoundTrip.{string_to_status-status_to_string}
use ok_snap.Compare.Tree.{
  Stat, Node, Entries, reg, lnk, dir, other, end, entry, stat_of, sort_entries,
}
use ok_snap.Compare.Content.{cmp_files}
use ok_snap.Compare.Dirs.{
  Changes, below, then_all, call, list_subdirs, list_node, is_filtered, lonesome, on_devs,
  status_of, call_unless_same, type_changed, opened, twosome, subdirs, cmp_dirs_worker, cmp_dirs,
}
use ok_snap.Compare.Flags.{cmp_files_facts}

-- Each status of a comparison that does not end with an exception.
abbrev pub Statuses : (ℕ → Type 0) → Changes → Type 0
Statuses P (ok cs) = All (λ c. P c.1) cs
Statuses P (err e) = Unit

abbrev Clean : Changes → Type 0
Clean = Statuses (λ s. is_clean s ≡ true)

then_all-Clean : (a b : Changes) → Clean a → Clean b → Clean (then_all a b)
then_all-Clean (err e) b ha hb = tt
then_all-Clean (ok xs) (err e) ha hb = tt
then_all-Clean (ok xs) (ok ys) ha hb = All-append (λ c. is_clean c.1 ≡ true) xs ys ha hb

call-Clean :
    (path : Text) (status : ℕ) (rest : Changes)
    → is_clean status ≡ true
    → Clean rest
    → Clean (call path status rest)
call-Clean path status rest h hr = then_all-Clean (ok ((path, status) ∷ [])) rest (h, tt) hr

if-Clean : (b : Bool) (x y : Changes) → Clean x → Clean y → Clean (if b then x else y)
if-Clean true x y hx hy = hx
if-Clean false x y hx hy = hy

mutual
  unfolding list_subdirs

  list_subdirs-Clean :
      (es : Entries) (path : Text) (status : ℕ)
      → is_clean status ≡ true
      → Clean (list_subdirs es path status)
  list_subdirs-Clean end path status h = tt
  list_subdirs-Clean (entry name x rest) path status h = call-Clean (below path name) status _ h (
      then_all-Clean _ _ (list_node-Clean x (below path name) status h)
        (list_subdirs-Clean rest path status h))

  list_node-Clean :
      (x : Node) (path : Text) (status : ℕ)
      → is_clean status ≡ true
      → Clean (list_node x path status)
  list_node-Clean (reg s c) path status h = tt
  list_node-Clean (lnk s t) path status h = tt
  list_node-Clean (dir s false es) path status h = tt
  list_node-Clean (dir s true es) path status h = list_subdirs-Clean es path status h
  list_node-Clean (other fmt s) path status h = tt

created_clean : is_clean created ≡ true
unfolding is_clean
created_clean = refl

deleted_clean : is_clean deleted ≡ true
unfolding is_clean
deleted_clean = refl

lonesome-Clean :
    (dev : ℕ) (x : Node) (path : Text) (status : ℕ)
    → is_clean status ≡ true
    → Clean (lonesome dev x path status)
unfolding lonesome
lonesome-Clean dev x path status h =
    if-Clean ((stat_of x).dev == dev) _ (ok [])
      (call-Clean path status _ h (list_node-Clean x path status h)) tt

clean_if : (b : Bool) (s : ℕ) → is_clean s ≡ true → is_clean (if b then s else 0) ≡ true
unfolding is_clean
clean_if true s h = h
clean_if false s h = refl

module _ (dev1 dev2 : ℕ) where
  twosome-Clean :
      (path : Text) (x1 x2 : Node) (inner : Changes)
      → Clean inner
      → Clean (twosome dev1 dev2 path x1 x2 inner)
  unfolding twosome status_of type_changed
  twosome-Clean path x1 x2 inner h =
      let status = status_of dev1 dev2 x1 x2 in
      let clean = clean_if (on_devs dev1 dev2 x1 x2) (cmp_files x1 x2) (cmp_files_facts x1 x2).1 in
      then_all-Clean (call_unless_same path status) _
        (if-Clean (status == 0) (ok []) (ok ((path, status) ∷ [])) tt (clean, tt))
        (if-Clean (has status type) _ inner
          (then_all-Clean _ _
            (if-Clean ((stat_of x1).dev == dev1) _ (ok [])
              (list_node-Clean x1 path deleted deleted_clean) tt)
            (if-Clean ((stat_of x2).dev == dev2) _ (ok [])
              (list_node-Clean x2 path created created_clean) tt))
          h)

  opened-Clean : (o1 o2 : Bool) (inner : Changes) → Clean inner → Clean (opened o1 o2 inner)
  opened-Clean false o2 inner h = tt
  opened-Clean true false inner h = tt
  opened-Clean true true inner h = h

  mutual
    unfolding cmp_dirs_worker

    subdirs-Clean : (path : Text) (x1 x2 : Node) → Clean (subdirs dev1 dev2 path x1 x2)
    subdirs-Clean path (dir s1 o1 es1) (dir s2 o2 es2) =
        if-Clean ((s1.dev == dev1) && (s2.dev == dev2)) _ (ok [])
          (opened-Clean o1 o2 _ (worker-Clean path es1 es2)) tt
    subdirs-Clean path (reg s1 c1) (reg s2 c2) = tt
    subdirs-Clean path _ _ = tt

    worker-Clean :
        (path : Text) (es1 es2 : Entries) → Clean (cmp_dirs_worker dev1 dev2 path es1 es2)
    worker-Clean path end end = tt
    worker-Clean path (entry n1 x1 r1) end =
        let ih = worker-Clean path r1 end in
        if-Clean (is_filtered path n1) _ _ ih
          (then_all-Clean _ _ (lonesome-Clean dev1 x1 (below path n1) deleted deleted_clean) ih)
    worker-Clean path end (entry n2 x2 r2) =
        let ih = worker-Clean path end r2 in
        if-Clean (is_filtered path n2) _ _ ih
          (then_all-Clean _ _ (lonesome-Clean dev2 x2 (below path n2) created created_clean) ih)
    worker-Clean path (entry n1 x1 r1) (entry n2 x2 r2) =
        let skip1 = worker-Clean path r1 (entry n2 x2 r2) in
        let skip2 = worker-Clean path (entry n1 x1 r1) r2 in
        let rest = worker-Clean path r1 r2 in
        let inner = subdirs-Clean (below path n1) x1 x2 in
        if-Clean (is_filtered path n1) _ _ skip1 (
          if-Clean (is_filtered path n2) _ _ skip2 (
            if-Clean (text_lt n2 n1) _ _
              (then_all-Clean _ _ (lonesome-Clean dev2 x2 (below path n2) created created_clean)
                skip2)
              (if-Clean (text_lt n1 n2) _ _
                (then_all-Clean _ _ (lonesome-Clean dev1 x1 (below path n1) deleted deleted_clean)
                  skip1)
                (then_all-Clean _ _ (twosome-Clean (below path n1) x1 x2 _ inner) rest))))

stored : (c : Changes) → Clean c → Statuses (λ s. string_to_status (status_to_string s) ≡ s) c
stored (err e) h = tt
stored (ok cs) h = All-map cs (λ c clean. string_to_status-status_to_string c.1 clean) h

-- Each status that a comparison of two directories gives is read back from the letters that a file
-- list stores for it.
pub cmp_dirs-Statuses :
    (stat1 stat2 : Option Stat) (es1 es2 : Entries)
    → Statuses (λ s. string_to_status (status_to_string s) ≡ s) (cmp_dirs stat1 stat2 es1 es2)
unfolding cmp_dirs
cmp_dirs-Statuses none stat2 es1 es2 = tt
cmp_dirs-Statuses (some s1) none es1 es2 = tt
cmp_dirs-Statuses (some s1) (some s2) es1 es2 =
    stored _ (worker-Clean s1.dev s2.dev [] (sort_entries es1) (sort_entries es2))
