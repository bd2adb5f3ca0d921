-- ===== src/Compare/Dirs.antt =====
-- `listSubdirs`, `cmpDirsWorker` and `cmpDirs` (snapper/Compare.cc): the calls of the callback, in
-- their order. An exception ends the comparison, and then nobody reads those before it.
use ok_snap.Base.{
  ℕ, Bool, true, false, ◌&&◌, Option, none, some, List, [], ◌∷◌, ◌++◌, ◌==◌, if◌then◌else◌, has,
  Text, codes, text_eq, text_lt,
}
use ok_snap.Exec.{Result, ok, err, io_error}
use ok_snap.Files.Status.{created, deleted, type}
use ok_snap.Compare.Tree.{
  Stat, Node, Entries, reg, lnk, dir, other, end, entry, stat_of, sort_entries,
}
use ok_snap.Compare.Content.{cmp_files}

-- The arguments of a call of `cb`.
abbrev pub Change : Type 0
Change = Text × ℕ

abbrev pub Changes : Type 0
Changes = Result (List Change)

abbrev pub below : Text → Text → Text
below path name = path ++ b'/' ∷ name

abbrev pub then_all : Changes → Changes → Changes
then_all (err e) second = err e
then_all (ok first) (err e) = err e
then_all (ok first) (ok second) = ok (first ++ second)

abbrev pub call : Text → ℕ → Changes → Changes
call name status rest = then_all (ok ((name, status) ∷ [])) rest

unfoldable mutual
  pub list_subdirs : Entries → Text → ℕ → Changes
  list_subdirs end path status = ok []
  list_subdirs (entry name x rest) path status =
      call (below path name) status
        (then_all (list_node x (below path name) status) (list_subdirs rest path status))

  -- `if (S_ISDIR(stat.st_mode)) listSubdirs(SDir(dir, name), …)`
  pub list_node : Node → Text → ℕ → Changes
  list_node (reg s c) path status = ok []
  list_node (lnk s t) path status = ok []
  list_node (dir s false es) path status = err io_error
  list_node (dir s true es) path status = list_subdirs es path status
  list_node (other fmt s) path status = ok []

-- `filter`
unfoldable pub is_filtered : Text → Text → Bool
unfolding text_eq
is_filtered path name = text_eq (below path name) (codes "/.snapshots")

-- A name of one directory alone: `lonesome`, under the test of the device.
unfoldable pub lonesome : ℕ → Node → Text → ℕ → Changes
unfolding list_node
lonesome dev x path status =
    if (stat_of x).dev == dev then call path status (list_node x path status) else ok []

unfoldable pub on_devs : ℕ → ℕ → Node → Node → Bool
on_devs dev1 dev2 x1 x2 = ((stat_of x1).dev == dev1) && ((stat_of x2).dev == dev2)

-- The status of a name of both directories.
unfoldable pub status_of : ℕ → ℕ → Node → Node → ℕ
unfolding cmp_files on_devs
status_of dev1 dev2 x1 x2 = if on_devs dev1 dev2 x1 x2 then cmp_files x1 x2 else 0

-- `if (status != 0) cb(name, status);`
abbrev pub call_unless_same : Text → ℕ → Changes
call_unless_same path status = if status == 0 then ok [] else ok ((path, status) ∷ [])

-- `listSubdirs` for what was and for what is now a directory, when the type has changed.
unfoldable pub type_changed : ℕ → ℕ → Node → Node → Text → Changes
unfolding list_node
type_changed dev1 dev2 x1 x2 path =
    then_all (if (stat_of x1).dev == dev1 then list_node x1 path deleted else ok [])
      (if (stat_of x2).dev == dev2 then list_node x2 path created else ok [])

-- Two directories, of which both have to be opened, and what their comparison gives.
abbrev pub opened : Bool → Bool → Changes → Changes
opened false o2 inner = err io_error
opened true false inner = err io_error
opened true true inner = inner

module _ (dev1 dev2 : ℕ) where
  -- `twosome`: `inner` is what its call of `cmpDirsWorker` does.
  unfoldable pub twosome : Text → Node → Node → Changes → Changes
  unfolding status_of type_changed
  twosome path x1 x2 inner =
      let status = status_of dev1 dev2 x1 x2 in
      then_all (call_unless_same path status)
        (if has status type then type_changed dev1 dev2 x1 x2 path else inner)

  unfoldable mutual
    unfolding twosome lonesome is_filtered

    -- That call of `cmpDirsWorker`, for two files of the same type, or of other devices.
    pub subdirs : Text → Node → Node → Changes
    subdirs path (dir s1 o1 es1) (dir s2 o2 es2) =
        let inner = cmp_dirs_worker path es1 es2 in
        if (s1.dev == dev1) && (s2.dev == dev2) then opened o1 o2 inner else ok []
    subdirs path x1 x2 = ok []

    -- `cmpDirsWorker`, on names that are sorted
    pub cmp_dirs_worker : Text → Entries → Entries → Changes
    cmp_dirs_worker path end end = ok []
    cmp_dirs_worker path (entry n1 x1 r1) end =
        let rest = cmp_dirs_worker path r1 end in
        if is_filtered path n1
        then rest
        else then_all (lonesome dev1 x1 (below path n1) deleted) rest
    cmp_dirs_worker path end (entry n2 x2 r2) =
        let rest = cmp_dirs_worker path end r2 in
        if is_filtered path n2
        then rest
        else then_all (lonesome dev2 x2 (below path n2) created) rest
    cmp_dirs_worker path (entry n1 x1 r1) (entry n2 x2 r2) =
        let skip1 = cmp_dirs_worker path r1 (entry n2 x2 r2) in
        let skip2 = cmp_dirs_worker path (entry n1 x1 r1) r2 in
        let both =
          then_all (twosome (below path n1) x1 x2 (subdirs (below path n1) x1 x2))
            (cmp_dirs_worker path r1 r2) in
        if is_filtered path n1
        then skip1
        else if is_filtered path n2
        then skip2
        else if text_lt n2 n1
        then then_all (lonesome dev2 x2 (below path n2) created) skip2
        else if text_lt n1 n2
        then then_all (lonesome dev1 x1 (below path n1) deleted) skip1
        else both

-- `stat1` and `stat2` are what `stat` gives for the two directories.
unfoldable pub cmp_dirs : Option Stat → Option Stat → Entries → Entries → Changes
unfolding cmp_dirs_worker sort_entries
cmp_dirs none stat2 es1 es2 = err io_error
cmp_dirs (some s1) none es1 es2 = err io_error
cmp_dirs (some s1) (some s2) es1 es2 =
    cmp_dirs_worker s1.dev s2.dev [] (sort_entries es1) (sort_entries es2)
