-- ===== src/Server/Counted.antt =====
-- The use count of each configuration is the number of uses that are held: the methods.
pub mod Methods
pub mod Tasks
pub mod Clients
pub mod Zombies
use ok_snap.Base.{
  ℕ, ◌≡◌, refl, ◌∙◌, inl, inr, some, List, [], ◌∷◌, Bool-cases, Option-cases, Text, text_eq,
}
use ok_snap.Snapshots.Entry.{Entry}
use ok_snap.Snapshots.Entry
use ok_snap.Snapshots.Table.{on_entry, Snapshots}
use ok_snap.Server.Uses.{held_by, held}
use ok_snap.Server.Handlers.{change_client, on_snapshot}
use ok_snap.Exec.{Exec, ◌>>=◌, ◌>>◌}
use ok_snap.Exec.Keeps.{Keeps}
use ok_snap.Server.State.{
  found, Daemon, MetaSnapper, Client, find_config, meta_find, on_client, on_snapshots,
  put_snapshots, use_of, check_permission, is_permitted,
}

abbrev pub IsBalanced : Daemon → Type 0
IsBalanced d = (name : Text) → use_of name d.meta_snappers ≡ held name d

use_of-put_snapshots :
    (name cn : Text) (s : Snapshots) (ms : List MetaSnapper)
    → use_of name (put_snapshots cn s ms) ≡ use_of name ms
unfolding use_of put_snapshots
use_of-put_snapshots name cn s [] = refl
use_of-put_snapshots name cn s (m ∷ ms) = elim (Bool-cases (text_eq m.config_name cn)) [
  | inl hit ↦ rw hit
  | inr miss ↦ rw (miss, use_of-put_snapshots name cn s ms)
]

-- What works on snapshots counts nothing.
pub on_snapshots-IsBalanced :
    {A : Type 0} (cn : Text) (m : Exec Snapshots A) → Keeps IsBalanced (on_snapshots cn m)
unfolding on_snapshots
on_snapshots-IsBalanced cn m d h = elim (Option-cases (find_config cn d.meta_snappers)) [
  | inl nothing ↦ rw (nothing, on_snapshots) h
  | inr (meta, hit) ↦
      rw (hit, on_snapshots)
        (λ name. use_of-put_snapshots name cn (m meta.snapshots).1 d.meta_snappers ∙ h name)
]

pub on_snapshot-IsBalanced :
    {A : Type 0} (cn : Text) (num : ℕ) (m : Exec Entry.Entry A)
    → Keeps IsBalanced (on_snapshot cn num m)
unfolding on_snapshot
on_snapshot-IsBalanced cn num m = on_snapshots-IsBalanced cn (on_entry num m)

held_by-on_client :
    (name me : Text) (f : Client → Client) (cs : List Client)
    → ((c : Client) → (f c).comparisons ≡ c.comparisons)
    → held_by name (on_client me f cs) ≡ held_by name cs
unfolding held_by on_client
held_by-on_client name me f [] h = refl
held_by-on_client name me f (c ∷ cs) h = elim (Bool-cases (text_eq c.name me)) [
  | inl hit ↦ rw (hit, h c)
  | inr miss ↦ rw (miss, held_by-on_client name me f cs h)
]

pub change_client-IsBalanced :
    (me : Text) (f : Client → Client)
    → ((c : Client) → (f c).comparisons ≡ c.comparisons)
    → Keeps IsBalanced (change_client me f)
change_client-IsBalanced me f same d h name =
    rw (held_by-on_client name me f d.clients same) (h name)

-- A method that finds its configuration and checks the permission comes to the rest of it with the
-- daemon as it was.
pub guarded-IsBalanced :
    {A : Type 0} (uid : ℕ) (cn : Text) (rest : MetaSnapper → Exec Daemon A)
    → ((it : MetaSnapper) (d : Daemon)
        → find_config cn d.meta_snappers ≡ some it
        → IsBalanced d
        → IsBalanced (rest it d).1)
    → Keeps IsBalanced (meta_find cn >>= (λ it. check_permission uid it >> rest it))
unfolding meta_find check_permission
guarded-IsBalanced uid cn rest each d h = elim (Option-cases (find_config cn d.meta_snappers)) [
  | inl nothing ↦ rw (nothing, found) h
  | inr (it, hit) ↦ elim (Bool-cases (is_permitted uid it)) [
    | inl may ↦ let e = each it d hit h in rw (hit, found, may) e
    | inr denied ↦ rw (hit, found, denied) h
  ]
]
