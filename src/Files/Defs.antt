-- ===== src/Files/Defs.antt =====
-- `File` and `Files` of snapper/File.h and snapper/File.cc: the entries, in the order of their
-- names, and how they are found, filtered and counted. `file_paths` is the same for all entries of
-- a `Files` and is an argument of what reads it.
pub mod Sorted
pub mod Find
pub mod Undo
pub mod Steps
pub mod Statistic
mod Tests
use ok_snap.Base.{
  ℕ, ◌+◌, ◌-◌, ◌%◌, ◌^◌, Bool, false, not, ◌&&◌, ◌||◌, Option, none, some, List, [], ◌∷◌, ◌++◌,
  ◌==◌, if◌then◌else◌, Text, codes, text_eq, text_lt,
}
use ok_snap.Files.Status.{created, deleted}

-- `(unsigned int)(-1)`, a status that is not known.
abbrev pub invalid : ℕ
invalid = 2 ^ 32 - 1

pub record File : Type 0 where
  pub name : Text
  pub pre_to_post_status : ℕ
  pub pre_to_system_status : ℕ
  pub post_to_system_status : ℕ
  pub undo : Bool

-- The constructor of `File`.
abbrev pub file : Text → ℕ → File
file name status = record {
  name = name;
  pre_to_post_status = status;
  pre_to_system_status = invalid;
  post_to_system_status = invalid;
  undo = false;
}

-- `std::sort` by name; the names of the entries are distinct.
unfoldable pub insert : File → List File → List File
insert f [] = f ∷ []
insert f (g ∷ gs) = if text_lt g.name f.name then g ∷ insert f gs else f ∷ g ∷ gs

unfoldable pub sort : List File → List File
unfolding insert
sort [] = []
sort (f ∷ fs) = insert f (sort fs)

-- `std::lower_bound` over entries that are sorted: what is left from the first entry on whose name
-- is not less.
pub lower_bound : List File → Text → List File
lower_bound [] name = []
lower_bound (f ∷ fs) name = if text_lt f.name name then lower_bound fs name else f ∷ fs

-- The test of `Files::find` on where `lower_bound` stopped.
found : List File → Text → Option File
found [] name = none
found (f ∷ fs) name = if text_eq f.name name then some f else none

pub find : List File → Text → Option File
unfolding lower_bound found
find entries name = found (lower_bound entries name) name

pub record FilePaths : Type 0 where
  pub system_path : Text
  pub pre_path : Text
  pub post_path : Text

pub data Location : Type 0 where
  pre post system : Location

unfoldable pub path_prefix : FilePaths → Location → Text
path_prefix paths pre = paths.pre_path
path_prefix paths post = paths.post_path
path_prefix paths system = paths.system_path

unfoldable pub get_absolute_path : FilePaths → Location → File → Text
unfolding path_prefix
get_absolute_path paths loc f =
    let prefix = path_prefix paths loc in
    if text_eq prefix (codes "/") then f.name else prefix ++ f.name

-- `boost::starts_with`, with what follows the prefix.
unfoldable pub strip_prefix : Text → Text → Option Text
strip_prefix [] s = some s
strip_prefix (c ∷ p) [] = none
strip_prefix (c ∷ p) (d ∷ s) = if c == d then strip_prefix p s else none

pub find_absolute_path : FilePaths → List File → Text → Option File
unfolding find strip_prefix
find_absolute_path paths entries filename = elim (strip_prefix paths.system_path filename) [
  | none ↦ none
  | some rest ↦
      if text_eq paths.system_path (codes "/") then find entries filename else find entries rest
]

-- `Files::filter`: `fnmatch` is the C library's, on a pattern and a name.
unfoldable pub ignored : (Text → Text → Bool) → List Text → File → Bool
ignored fnmatch [] f = false
ignored fnmatch (p ∷ ps) f = fnmatch p f.name || ignored fnmatch ps f

unfoldable pub filter : (Text → Text → Bool) → List Text → List File → List File
unfolding ignored
filter fnmatch patterns [] = []
filter fnmatch patterns (f ∷ fs) =
    let rest = filter fnmatch patterns fs in if ignored fnmatch patterns f then rest else f ∷ rest

pub data Action : Type 0 where
  create modify delete : Action

pub get_action : File → Action
get_action f =
    if f.pre_to_post_status == created
    then delete
    else if f.pre_to_post_status == deleted
    then create
    else modify

pub record UndoStep : Type 0 where
  pub name : Text
  pub action : Action

pub undo_step : File → UndoStep
unfolding get_action
undo_step f = record { name = f.name; action = get_action f }

-- What a round of the first loop of `Files::getUndoSteps` adds, and of the second.
pub created_step : File → List UndoStep
unfolding undo_step
created_step f = if f.undo && (f.pre_to_post_status == created) then undo_step f ∷ [] else []

pub other_step : File → List UndoStep
unfolding undo_step
other_step f = if f.undo && not (f.pre_to_post_status == created) then undo_step f ∷ [] else []

-- The first loop walks the entries backwards.
pub created_steps : List File → List UndoStep
unfolding created_step
created_steps [] = []
created_steps (f ∷ fs) = created_steps fs ++ created_step f

pub other_steps : List File → List UndoStep
unfolding other_step
other_steps [] = []
other_steps (f ∷ fs) = other_step f ++ other_steps fs

unfoldable pub get_undo_steps : List File → List UndoStep
unfolding created_steps other_steps
get_undo_steps entries = created_steps entries ++ other_steps entries

pub record UndoStatistic : Type 0 where
  pub num_create : ℕ
  pub num_modify : ℕ
  pub num_delete : ℕ

-- `++` on an `unsigned int`.
pub inc32 : ℕ → ℕ
inc32 n = (n + 1) % 2 ^ 32

count : Action → UndoStatistic → UndoStatistic
unfolding inc32
count create rs = record rs { num_create = inc32 rs.num_create }
count modify rs = record rs { num_modify = inc32 rs.num_modify }
count delete rs = record rs { num_delete = inc32 rs.num_delete }

pub statistic_from : UndoStatistic → List File → UndoStatistic
unfolding count get_action
statistic_from rs [] = rs
statistic_from rs (f ∷ fs) = statistic_from (if f.undo then count (get_action f) rs else rs) fs

unfoldable pub get_undo_statistic : List File → UndoStatistic
unfolding statistic_from
get_undo_statistic = statistic_from (record { num_create = 0; num_modify = 0; num_delete = 0 })
