-- ===== src/Server/Counted/Clients.antt =====
-- A comparison is a use while it is made and while a client keeps it; the counting down never meets
-- a count of zero.
use ok_snap.Base.{
  ℕ, ◌+◌, ◌≡◌, refl, sym, ap, subst, inl, inr, Bool, true, Option, none, some, List, [], ◌∷◌, ◌++◌,
  arith, ◌==◌, Bool-cases, Option-cases, Text, text_eq, text_eq_iff,
}
use ok_snap.Exec.{Result, ok, err, illegal_snapshot}
use ok_snap.Server.Loop.{has_client}
use ok_snap.Server.Comparisons.{
  begin_comparison, comparisons_of, drop_pending, erase_comparison, has_comparison, pending_of,
  is_comparison, end_comparison, keep_comparison, compared,
}
use ok_snap.Exec.Keeps.{Keeps}
use ok_snap.Server.Counted.{IsBalanced, guarded-IsBalanced}
use ok_snap.Server.Uses.{
  held_by, waiting, compares, one, count, count-append, use_of-inc, counted_down, dec_use_count-ok,
  find-used, one_self, held,
}
use ok_snap.Server.State.{
  Client, Comparison, Pending, inc_use_count, on_client, Daemon, dec_use_count, use_of, find_config,
}

pub begin_comparison-IsBalanced :
    (me : Text) (uid : ℕ) (cn : Text) (num1 num2 : ℕ)
    → Keeps IsBalanced (begin_comparison me uid cn num1 num2)
unfolding begin_comparison inc_use_count count
begin_comparison-IsBalanced me uid cn num1 num2 =
    guarded-IsBalanced uid cn _
      (λ it d hit h name. omega (arith, use_of-inc cn name d.meta_snappers it hit, h name))

-- A new comparison of a client is one use more.
held_by-push :
    (name me : Text) (c : Comparison) (cs : List Client)
    → has_client me cs ≡ true
    → held_by name (on_client me (λ x. record x { comparisons = x.comparisons ++ c ∷ [] }) cs)
      ≡ held_by name cs + one c.config_name name
unfolding held_by on_client has_client count
held_by-push name me c [] h = cc
held_by-push name me c (x ∷ xs) h = elim (Bool-cases (text_eq x.name me)) [
  | inl hit ↦
      let more = count-append (λ (c : Comparison). c.config_name) name x.comparisons (c ∷ []) in
      rw hit (omega (arith, more))
  | inr miss ↦ let ih = held_by-push name me c xs (rw miss at h) in rw miss (omega (arith, ih))
]

waiting-drop :
    (name me : Text) (p : Pending) (ps : List Pending)
    → pending_of me ps ≡ some p
    → waiting name ps ≡ waiting name (drop_pending me ps) + one p.config_name name
unfolding pending_of drop_pending count
waiting-drop name me p [] h = cc
waiting-drop name me p (x ∷ xs) h = elim (Bool-cases (text_eq x.owner me)) [
  | inl hit ↦
      let found_one : some x ≡ some p = rw hit at h in
      let first =
        ap {B = ℕ} (λ o. elim o [ none ↦ 0 | some q ↦ one (Pending.config_name q) name ])
          found_one in
      rw hit (omega (arith, first))
  | inr miss ↦ let ih = waiting-drop name me p xs (rw miss at h) in rw miss (omega (arith, ih))
]

-- Dropping a comparison that passes the test is one use less.
compares-erase :
    (name cn : Text) (test : Comparison → Bool) (cs : List Comparison)
    → ((c : Comparison) → test c ≡ true → c.config_name ≡ cn)
    → has_comparison test cs ≡ true
    → compares name cs ≡ compares name (erase_comparison test cs) + one cn name
unfolding has_comparison erase_comparison count
compares-erase name cn test [] of h = cc
compares-erase name cn test (c ∷ cs) of h = elim (Bool-cases (test c)) [
  | inl hit ↦ rw (hit, of c hit) (omega arith)
  | inr miss ↦
      let ih = compares-erase name cn test cs of (rw miss at h) in rw miss (omega (arith, ih))
]

pub held_by-erase :
    (name cn me : Text) (test : Comparison → Bool) (cs : List Client)
    → ((c : Comparison) → test c ≡ true → c.config_name ≡ cn)
    → has_comparison test (comparisons_of me cs) ≡ true
    → held_by name cs
      ≡ held_by name
          (on_client me (λ c. record c { comparisons = erase_comparison test c.comparisons }) cs)
        + one cn name
unfolding held_by on_client comparisons_of has_comparison
held_by-erase name cn me test [] of h = cc
held_by-erase name cn me test (x ∷ xs) of h = elim (Bool-cases (text_eq x.name me)) [
  | inl hit ↦
      let less = compares-erase name cn test x.comparisons of (rw hit at h) in
      rw hit (omega (arith, less))
  | inr miss ↦
      let ih = held_by-erase name cn me test xs of (rw miss at h) in rw miss (omega (arith, ih))
]

pub is_comparison-config :
    (cn : Text) (n1 n2 : Option ℕ) (c : Comparison)
    → is_comparison cn n1 n2 c ≡ true
    → c.config_name ≡ cn
is_comparison-config cn none n2 c h = cc
is_comparison-config cn (some n1) none c h = cc
is_comparison-config cn (some n1) (some n2) c h = (text_eq_iff c.config_name cn).0 (ground arith)

-- A use of a configuration is counted that is not held any more.
abbrev pub IsOwed : Text → Daemon → Type 0
IsOwed cn d = (name : Text) → use_of name d.meta_snappers ≡ held name d + one cn name

-- Giving it back.
pub give_back :
    (cn : Text) (d : Daemon)
    → IsOwed cn d
    → (dec_use_count cn d ≡ (ok tt, counted_down cn d)) × IsBalanced (counted_down cn d)
give_back cn d h = dec_use_count-ok cn (λ name. held name d) d h

same_config : (c c' : Comparison) → Result.ok c ≡ ok c' → c'.config_name ≡ c.config_name
same_config c c' h =
    ap (λ r. elim r [ ok x ↦ Comparison.config_name x | err e ↦ c.config_name ]) (sym h)

compared-config :
    (s1 s2 : Option ℕ) (cn : Text) (outcome : Result (Unit {0})) (c : Comparison)
    → compared s1 s2 cn outcome ≡ ok c
    → c.config_name ≡ cn
compared-config none s2 cn outcome c h = cc
compared-config (some n1) none cn outcome c h = cc
compared-config (some n1) (some n2) cn (err e) c h = elim (Bool-cases (n1 == n2)) [
  | inl equal ↦ absurd (let e : err illegal_snapshot ≡ ok c = rw equal at h in cc)
  | inr apart ↦ absurd (let e : err e ≡ ok c = rw apart at h in cc)
]
compared-config (some n1) (some n2) cn (ok u) c h = elim (Bool-cases (n1 == n2)) [
  | inl equal ↦ absurd (let e : err illegal_snapshot ≡ ok c = rw equal at h in cc)
  | inr apart ↦
      same_config (record { config_name = cn; snapshot1 = n1; snapshot2 = n2 }) c (rw apart at h)
]

-- `create_comparison` keeps what it has counted twice, and what it has counted once if it throws.
keep_comparison-IsOwed :
    (me cn : Text) (r : Result Comparison) (d : Daemon)
    → ((c : Comparison) → r ≡ ok c → c.config_name ≡ cn)
    → has_client me d.clients ≡ true
    → IsOwed cn d
    → IsOwed cn (keep_comparison me r d).1
unfolding inc_use_count
keep_comparison-IsOwed me cn (err e) d of here h name = h name
keep_comparison-IsOwed me cn (ok c) d of here h name =
    let same = of c refl in
    let (it, hit) = find-used cn d.meta_snappers (omega (arith, h cn, one_self cn)) in
    let found_c : find_config c.config_name d.meta_snappers ≡ some it = rw same hit in
    let up = use_of-inc c.config_name name d.meta_snappers it found_c in
    let kept = held_by-push name me c d.clients here in omega (arith, up, kept, h name)

-- The end of a `create_comparison`: it counts down for its `RefHolder`, so that what it returns or
-- throws is what the constructor did.
pub end_comparison-done :
    (me : Text) (outcome : Result (Unit {0})) (d : Daemon) (p : Pending)
    → has_client me d.clients ≡ true
    → pending_of me d.pending ≡ some p
    → IsBalanced d
    → let r = compared p.snapshot1 p.snapshot2 p.config_name outcome in
      let d1 : Daemon = record d { pending = drop_pending me d.pending } in
      (end_comparison me outcome d
        ≡ ((keep_comparison me r d1).0, counted_down p.config_name (keep_comparison me r d1).1))
      × IsBalanced (counted_down p.config_name (keep_comparison me r d1).1)
unfolding end_comparison
end_comparison-done me outcome d p here hit h =
    let d1 : Daemon = record d { pending = drop_pending me d.pending } in
    let r = compared p.snapshot1 p.snapshot2 p.config_name outcome in
    let owed : IsOwed p.config_name d1 =
      λ name. omega (arith, h name, waiting-drop name me p d.pending hit) in
    let of = compared-config p.snapshot1 p.snapshot2 p.config_name outcome in
    let kept = keep_comparison-IsOwed me p.config_name r d1 of here owed in
    let (done, back) = give_back p.config_name (keep_comparison me r d1).1 kept in
    (rw (hit, end_comparison, done), back)

pub end_comparison-IsBalanced :
    (me : Text) (outcome : Result (Unit {0})) (d : Daemon)
    → has_client me d.clients ≡ true
    → IsBalanced d
    → IsBalanced (end_comparison me outcome d).1
unfolding end_comparison
end_comparison-IsBalanced me outcome d here h = elim (Option-cases (pending_of me d.pending)) [
  | inl nothing ↦ rw (nothing, end_comparison) h
  | inr (p, hit) ↦
      let (e, back) = end_comparison-done me outcome d p here hit h in
      subst (λ (q : Result (Unit {0}) × Daemon). IsBalanced q.1) (sym e) back
]
