-- ===== src/Server/Comparisons.antt =====
-- The comparisons of a client (server/Client.cc), which count as uses of their configuration:
-- `create_comparison`, which gives `big_mutex` back while it compares, and `delete_comparison`.
use ok_snap.Base.{
  ℕ, Bool, false, not, ◌&&◌, ◌||◌, Option, none, some, List, [], ◌∷◌, ◌++◌, ◌==◌, if◌then◌else◌,
  Text, text_eq,
}
use ok_snap.Exec.{Exec, Result, ok, err, illegal_snapshot, no_comparison, modify, ◌>>=◌, ◌>>◌}
use ok_snap.Snapshots.Table
use ok_snap.Snapshots.Table.{Snapshots}
use ok_snap.Server.State.{
  Daemon, Client, Comparison, Pending, meta_find, check_permission, on_client, inc_use_count,
  dec_use_count,
}
use ok_snap.Server.Handlers.{change_client}

-- The number that `Snapshots::find` finds, or the end of the list.
unfoldable pub find_num : ℕ → Snapshots → Option ℕ
unfolding Table.find
find_num num s = elim (Table.find num s.entries) [ none ↦ none | some snap ↦ some num ]

-- `create_comparison` up to `lock.unlock()`: the `RefHolder` counts a use.
unfoldable pub begin_comparison : Text → ℕ → Text → ℕ → ℕ → Exec Daemon (Unit {0})
unfolding meta_find check_permission find_num inc_use_count
begin_comparison me uid config_name num1 num2 = do
  it ← meta_find config_name
  check_permission uid it
  modify (λ d.
      let p : Pending = record {
        owner = me;
        config_name = config_name;
        snapshot1 = find_num num1 it.snapshots;
        snapshot2 = find_num num2 it.snapshots;
      } in
      inc_use_count config_name (record d { pending = p ∷ d.pending }))

-- The constructor of `Comparison`, of which `outcome` is what `initialize` gives.
abbrev pub compared : Option ℕ → Option ℕ → Text → Result (Unit {0}) → Result Comparison
compared (some n1) (some n2) config_name (ok u) =
    if n1 == n2
    then err illegal_snapshot
    else ok (record { config_name = config_name; snapshot1 = n1; snapshot2 = n2 })
compared (some n1) (some n2) config_name (err e) = if n1 == n2 then err illegal_snapshot else err e
compared none s2 config_name outcome = err illegal_snapshot
compared (some n1) none config_name outcome = err illegal_snapshot

-- `comparisons.push_back` and `inc_use_count`, if the constructor did not throw.
abbrev pub keep_comparison : Text → Result Comparison → Exec Daemon (Unit {0})
keep_comparison me (err e) d = (err e, d)
keep_comparison me (ok c) d = (
  ok tt,
  inc_use_count c.config_name (record d {
    clients = on_client me (λ x. record x { comparisons = x.comparisons ++ c ∷ [] }) d.clients;
  }),
)

abbrev pub outcome_after : Result (Unit {0}) → Result (Unit {0}) → Result (Unit {0})
outcome_after r (ok u) = r
outcome_after r (err e) = err e

-- The destructor of `RefHolder` runs on every way out.
abbrev pub release : Text → Result (Unit {0}) × Daemon → Result (Unit {0}) × Daemon
release config_name (r, d) =
    let (released, d') = dec_use_count config_name d in (outcome_after r released, d')

unfoldable pub pending_of : Text → List Pending → Option Pending
pending_of me [] = none
pending_of me (p ∷ ps) = if text_eq p.owner me then some p else pending_of me ps

unfoldable pub drop_pending : Text → List Pending → List Pending
drop_pending me [] = []
drop_pending me (p ∷ ps) = if text_eq p.owner me then ps else p ∷ drop_pending me ps

-- `create_comparison` of a client from there on.
unfoldable pub end_comparison : Text → Result (Unit {0}) → Exec Daemon (Unit {0})
unfolding inc_use_count dec_use_count on_client pending_of drop_pending
end_comparison me outcome d = elim (pending_of me d.pending) [
  | none ↦ (ok tt, d)
  | some p ↦ release p.config_name (
      keep_comparison me (compared p.snapshot1 p.snapshot2 p.config_name outcome)
        (record d { pending = drop_pending me d.pending }))
]

abbrev pub is_comparison : Text → Option ℕ → Option ℕ → Comparison → Bool
is_comparison config_name (some n1) (some n2) c =
    text_eq c.config_name config_name && (c.snapshot1 == n1) && (c.snapshot2 == n2)
is_comparison config_name none s2 c = false
is_comparison config_name (some n1) none c = false

-- `find_comparison` comes to its `return`.
unfoldable pub has_comparison : (Comparison → Bool) → List Comparison → Bool
has_comparison test [] = false
has_comparison test (c ∷ cs) = test c || has_comparison test cs

-- `comparisons.erase` of what `find_comparison` gave.
unfoldable pub erase_comparison : (Comparison → Bool) → List Comparison → List Comparison
erase_comparison test [] = []
erase_comparison test (c ∷ cs) = if test c then cs else c ∷ erase_comparison test cs

unfoldable pub comparisons_of : Text → List Client → List Comparison
comparisons_of me [] = []
comparisons_of me (c ∷ cs) = if text_eq c.name me then c.comparisons else comparisons_of me cs

-- `delete_comparison(it2); comparisons.erase(it2);`
unfoldable pub drop_comparison : Text → Text → (Comparison → Bool) → Exec Daemon (Unit {0})
unfolding has_comparison erase_comparison comparisons_of dec_use_count on_client
drop_comparison me config_name test d =
    if not (has_comparison test (comparisons_of me d.clients))
    then (err no_comparison, d)
    else (dec_use_count config_name
          >> change_client me (λ c. record c { comparisons = erase_comparison test c.comparisons }))
        d

unfoldable pub delete_comparison : Text → ℕ → Text → ℕ → ℕ → Exec Daemon (Unit {0})
unfolding meta_find check_permission find_num drop_comparison
delete_comparison me uid config_name num1 num2 = do
  it ← meta_find config_name
  check_permission uid it
  drop_comparison me config_name
      (is_comparison config_name (find_num num1 it.snapshots) (find_num num2 it.snapshots))

-- `~Client` on what it holds: each comparison is given back.
unfoldable pub delete_each_comparison : List Comparison → Exec Daemon (Unit {0})
unfolding dec_use_count
delete_each_comparison [] d = (ok tt, d)
delete_each_comparison (c ∷ cs) d = (dec_use_count c.config_name >> delete_each_comparison cs) d
