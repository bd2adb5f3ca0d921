-- ===== src/Server/Made.antt =====
-- A comparison that has been made is there until it is deleted.
use ok_snap.Base.{
  ◌≡◌, sym, ap, ◌∙◌, subst, inl, inr, Bool, true, some, List, [], ◌∷◌, ◌++◌, arith, ==_self,
  Bool-cases, text_eq_refl, Text, text_eq,
}
use ok_snap.Server.Counted.Zombies.{drop_comparison-ok}
use ok_snap.Server.Loop.{has_client}
use ok_snap.Server.Counted.Clients.{
  end_comparison-done, end_comparison-IsBalanced, is_comparison-config,
}
use ok_snap.Server.InUse.{Reach-IsBalanced}
use ok_snap.Snapshots.Disk.{Faults}
use ok_snap.Exec.{Result, ok}
use ok_snap.Server.Comparisons.{
  compared, comparisons_of, drop_comparison, end_comparison, has_comparison, is_comparison,
  pending_of, drop_pending, keep_comparison,
}
use ok_snap.Server.State.{Daemon, Client, Comparison, Pending, inc_use_count, on_client}
use ok_snap.Server.Reach.{Reach}
use ok_snap.Server.Counted.{IsBalanced}

-- What `find_comparison` looks for when it is asked for this comparison.
abbrev test_for : Comparison → Comparison → Bool
test_for c = is_comparison c.config_name (some c.snapshot1) (some c.snapshot2)

has_comparison-push :
    (c : Comparison) (cs : List Comparison) → has_comparison (test_for c) (cs ++ c ∷ []) ≡ true
unfolding has_comparison
has_comparison-push c [] = rw (text_eq_refl c.config_name, ==_self c.snapshot1, ==_self c.snapshot2)
has_comparison-push c (x ∷ xs) = ground (arith, has_comparison-push c xs)

has_comparison-kept :
    (me : Text) (c : Comparison) (cs : List Client)
    → has_client me cs ≡ true
    → has_comparison (test_for c) (
        comparisons_of me
          (on_client me (λ x. record x { comparisons = x.comparisons ++ c ∷ [] }) cs))
      ≡ true
unfolding on_client comparisons_of has_client
has_comparison-kept me c [] h = cc
has_comparison-kept me c (x ∷ xs) h = elim (Bool-cases (text_eq x.name me)) [
  | inl hit ↦ rw (hit, hit) (has_comparison-push c x.comparisons)
  | inr miss ↦ let ih = has_comparison-kept me c xs (rw miss at h) in rw (miss, miss) ih
]

-- In a state that the daemon can come to, where a client makes a comparison of which the constructor
-- succeeds: `create_comparison` returns, and after it the client can delete the comparison, so that
-- `find_comparison` finds it and the counting down of both calls meets no count of zero.
pub end_comparison-Deletable :
    (faults : Faults) (me : Text) (outcome : Result (Unit {0})) (d : Daemon) (p : Pending)
    (c : Comparison)
    → Reach faults d
    → has_client me d.clients ≡ true
    → pending_of me d.pending ≡ some p
    → compared p.snapshot1 p.snapshot2 p.config_name outcome ≡ ok c
    → ((end_comparison me outcome d).0 ≡ ok tt)
      × ((drop_comparison me c.config_name (test_for c) (end_comparison me outcome d).1).0 ≡ ok tt)
unfolding inc_use_count
end_comparison-Deletable faults me outcome d p c r here hit made =
    let balanced : IsBalanced d = λ name. Reach-IsBalanced faults d name r in
    let (e, back) = end_comparison-done me outcome d p here hit balanced in
    let d1 : Daemon = record d { pending = drop_pending me d.pending } in
    let clients =
      ap (λ (q : Result (Unit {0}) × Daemon). q.1.clients) e
      ∙ ap (λ x. (keep_comparison me x d1).1.clients) made in
    let kept =
      subst (λ cs. has_comparison (test_for c) (comparisons_of me cs) ≡ true) (sym clients)
        (has_comparison-kept me c d.clients here) in
    let of = is_comparison-config c.config_name (some c.snapshot1) (some c.snapshot2) in
    (
      ap (λ (q : Result (Unit {0}) × Daemon). q.0) e ∙ ap (λ x. (keep_comparison me x d1).0) made,
      (drop_comparison-ok me c.config_name (test_for c) (end_comparison me outcome d).1 of kept
          (end_comparison-IsBalanced me outcome d here balanced)).0,
    )
