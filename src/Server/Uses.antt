-- ===== src/Server/Uses.antt =====
-- The uses of a configuration that are held, and what counting up and down does to the count.
use ok_snap.Base.{
  ℕ, ◌+◌, ◌-◌, ◌<◌, ◌≡◌, refl, inl, inr, true, false, some, List, [], ◌∷◌, ◌++◌, arith,
  if◌then◌else◌, Bool-cases, text_eq_refl, text_eq_same, text_eq_apart, Text, text_eq,
}
use ok_snap.Exec.{ok}
use ok_snap.Server.State.{
  Daemon, MetaSnapper, Client, Comparison, Pending, Task, find_config, on_meta, use_of,
  dec_use_count,
}

abbrev pub one : Text → Text → ℕ
one a b = if text_eq a b then 1 else 0

-- How many of a list are of a configuration.
unfoldable pub count : {A : Type 0} → (A → Text) → Text → List A → ℕ
count of name [] = 0
count of name (x ∷ xs) = one (of x) name + count of name xs

pub count-append :
    {A : Type 0} (of : A → Text) (name : Text) (xs ys : List A)
    → count of name (xs ++ ys) ≡ count of name xs + count of name ys
unfolding count
count-append of name [] ys = omega arith
count-append of name (x ∷ xs) ys = let ih = count-append of name xs ys in omega (arith, ih)

abbrev pub compares : Text → List Comparison → ℕ
compares name cs = count (λ (c : Comparison). c.config_name) name cs

unfoldable pub held_by : Text → List Client → ℕ
unfolding count
held_by name [] = 0
held_by name (c ∷ cs) = compares name c.comparisons + held_by name cs

pub held_by-append :
    (name : Text) (xs ys : List Client)
    → held_by name (xs ++ ys) ≡ held_by name xs + held_by name ys
unfolding held_by
held_by-append name [] ys = omega arith
held_by-append name (x ∷ xs) ys = let ih = held_by-append name xs ys in omega (arith, ih)

abbrev pub waiting : Text → List Pending → ℕ
waiting name ps = count (λ (p : Pending). p.config_name) name ps

-- The tasks that the worker has not counted down for.
abbrev pub queued : Text → List Task → ℕ
queued name ts = count (λ (t : Task). t.config_name) name ts

-- What holds a use of a configuration: a comparison that a client keeps or that is being made, and a
-- task of the background comparison.
abbrev pub held : Text → Daemon → ℕ
held name d = held_by name d.clients + waiting name d.pending + queued name d.backgrounds

pub one_self : (cn : Text) → one cn cn ≡ 1
one_self cn = rw (text_eq_refl cn)

-- Where a configuration stands first, the counts of its name and of the others.
use_of-head :
    (cn name : Text) (m m' : MetaSnapper) (ms : List MetaSnapper) (k : ℕ)
    → text_eq m.config_name cn ≡ true
    → m'.config_name ≡ m.config_name
    → m'.use_count ≡ m.use_count + k
    → use_of name (m' ∷ ms) ≡ use_of name (m ∷ ms) + (if text_eq cn name then k else 0)
unfolding use_of
use_of-head cn name m m' ms k hit same more =
    rw (same, text_eq_same m.config_name cn name hit) (ground arith)

-- Where it does not stand first, the head is left out of the sum.
use_of-tail :
    (cn name : Text) (m : MetaSnapper) (ms ms' : List MetaSnapper) (k : ℕ)
    → text_eq m.config_name cn ≡ false
    → use_of name ms' ≡ use_of name ms + (if text_eq cn name then k else 0)
    → use_of name (m ∷ ms') ≡ use_of name (m ∷ ms) + (if text_eq cn name then k else 0)
unfolding use_of
use_of-tail cn name m ms ms' k miss h = elim (Bool-cases (text_eq m.config_name name)) [
  | inl this ↦
      let apart = text_eq_apart m.config_name cn name miss this in rw (this, apart) (omega arith)
  | inr other ↦ rw other h
]

pub use_of-inc :
    (cn name : Text) (ms : List MetaSnapper) (it : MetaSnapper)
    → find_config cn ms ≡ some it
    → use_of name (on_meta cn (λ m. record m { use_count = m.use_count + 1 }) ms)
      ≡ use_of name ms + one cn name
unfolding on_meta find_config
use_of-inc cn name [] it h = cc
use_of-inc cn name (m ∷ ms) it h = elim (Bool-cases (text_eq m.config_name cn)) [
  | inl hit ↦
      let e = use_of-head cn name m (record m { use_count = m.use_count + 1 }) ms 1 hit refl refl in
      rw hit e
  | inr miss ↦
      let ih = use_of-inc cn name ms it (rw miss at h) in
      let e = use_of-tail cn name m ms _ 1 miss ih in rw miss e
]

-- Counting down is undone by what counting up would add.
use_of-dec :
    (cn name : Text) (ms : List MetaSnapper)
    → 0 < use_of cn ms
    → use_of name ms
      ≡ use_of name (on_meta cn (λ m. record m { use_count = m.use_count - 1 }) ms) + one cn name
unfolding on_meta use_of
use_of-dec cn name [] h = absurd (omega arith)
use_of-dec cn name (m ∷ ms) h = elim (Bool-cases (text_eq m.config_name cn)) [
  | inl hit ↦
      let some_use : 0 < m.use_count = rw hit at h in
      let e =
        use_of-head cn name (record m { use_count = m.use_count - 1 }) m ms 1 hit refl
          (omega arith) in
      rw hit e
  | inr miss ↦
      let ih = use_of-dec cn name ms (rw miss at h) in
      let e =
        use_of-tail cn name m (on_meta cn (λ m. record m { use_count = m.use_count - 1 }) ms) ms 1
          miss ih in
      rw miss e
]

pub find-used :
    (cn : Text) (ms : List MetaSnapper)
    → 0 < use_of cn ms
    → (it : MetaSnapper) × (find_config cn ms ≡ some it)
unfolding use_of find_config
find-used cn [] h = absurd (omega arith)
find-used cn (m ∷ ms) h = elim (Bool-cases (text_eq m.config_name cn)) [
  | inl hit ↦ (m, rw hit)
  | inr miss ↦ let (it, e) = find-used cn ms (rw miss at h) in (it, rw miss e)
]

abbrev pub counted_down : Text → Daemon → Daemon
counted_down cn d = record d {
  meta_snappers = on_meta cn (λ m. record m { use_count = m.use_count - 1 }) d.meta_snappers;
}

-- While the count has one use more than `rest`, counting down finds a use, and leaves `rest`.
pub dec_use_count-ok :
    (cn : Text) (rest : Text → ℕ) (d : Daemon)
    → ((name : Text) → use_of name d.meta_snappers ≡ rest name + one cn name)
    → (dec_use_count cn d ≡ (ok tt, counted_down cn d))
      × ((name : Text) → use_of name (counted_down cn d).meta_snappers ≡ rest name)
unfolding dec_use_count
dec_use_count-ok cn rest d h =
    let here = h cn in
    let used : 0 < use_of cn d.meta_snappers = omega (arith, one_self cn, here) in
    (ground arith, λ name. omega (arith, h name, use_of-dec cn name d.meta_snappers used))
