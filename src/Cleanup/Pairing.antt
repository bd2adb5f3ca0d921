-- ===== src/Cleanup/Pairing.antt =====
-- `filter2` never splits a pair: of a pre snapshot and its post snapshot it lets both through or
-- neither.
use ok_snap.Base.{
  ◌≡◌, refl, sym, ap, ◌∙◌, subst, ◌≢◌, ◌↔◌, ◌⊎◌, inl, inr, Bool, true, false, not, ◌||◌, Option,
  none, some, List, [], ◌∷◌, arith, ◌==◌, if◌then◌else◌, ==_iff, Bool-cases, All, In, All-In, Pairs,
}
use ok_snap.Snapshots.Types.{SnapshotType, single, pre, post, type_eq}
use ok_snap.Cleanup.Types.{XSnapshot, first_with, is_pre_of, is_post_of, find_pre, find_post}
use ok_snap.Cleanup.Filter.{is_in, with_partner, keeps, push, filter2_loop, filter2}

-- Each snapshot has a number of its own.
abbrev pub AreDistinct : List XSnapshot → Type 0
AreDistinct = Pairs (λ s t. s.num ≢ t.num)

abbrev pub Within : List XSnapshot → List XSnapshot → Type 0
Within tmp snapshots = All (λ s. In s snapshots) tmp

first_with_sound :
    (p : XSnapshot → Bool) (ss : List XSnapshot) (q : XSnapshot)
    → first_with p ss ≡ some q
    → In q ss × (p q ≡ true)
unfolding first_with
first_with_sound p [] q h = cc
first_with_sound p (s ∷ ss) q h = elim (Bool-cases (p s)) [
  | inl hit ↦ let e : s ≡ q = ground arith in (inl (sym e), subst (λ x. p x ≡ true) e hit)
  | inr miss ↦ let (m, k) = first_with_sound p ss q (ground arith) in (inr m, k)
]

same_num :
    (ss : List XSnapshot) (s t : XSnapshot)
    → AreDistinct ss
    → In s ss
    → In t ss
    → s.num ≡ t.num
    → s ≡ t
same_num [] s t d ms mt e = absurd ms
same_num (x ∷ xs) s t d (inl es) (inl et) e = es ∙ sym et
same_num (x ∷ xs) s t d (inl es) (inr mt) e =
    absurd (All-In (λ y. x.num ≢ y.num) xs t d.0 mt (ap (λ (y : XSnapshot). y.num) (sym es) ∙ e))
same_num (x ∷ xs) s t d (inr ms) (inl et) e =
    absurd
      (All-In (λ y. x.num ≢ y.num) xs s d.0 ms (ap (λ (y : XSnapshot). y.num) (sym et) ∙ sym e))
same_num (x ∷ xs) s t d (inr ms) (inr mt) e = same_num xs s t d.1 ms mt e

-- Where numbers are distinct, they stand for the snapshots themselves.
is_in-In :
    (snapshots tmp : List XSnapshot) (s : XSnapshot)
    → AreDistinct snapshots
    → Within tmp snapshots
    → In s snapshots
    → is_in s tmp ≡ true
    → In s tmp
unfolding is_in
is_in-In snapshots [] s d w m h = cc
is_in-In snapshots (t ∷ ts) s d w m h = elim (Bool-cases (t.num == s.num)) [
  | inl hit ↦ inl (same_num snapshots s t d m w.0 (sym ((==_iff _ _).0 hit)))
  | inr miss ↦ inr (is_in-In snapshots ts s d w.1 m (rw miss at h))
]

In-is_in : (tmp : List XSnapshot) (s : XSnapshot) → In s tmp → is_in s tmp ≡ true
unfolding is_in
In-is_in [] s m = absurd m
In-is_in (t ∷ ts) s (inl e) = let same = ap (λ (x : XSnapshot). x.num) e in ground arith
In-is_in (t ∷ ts) s (inr m) = ground (arith, In-is_in ts s m)

push-In :
    (s : XSnapshot) (k : Option Bool) (rest : Option (List XSnapshot)) (out : List XSnapshot)
    → push s k rest ≡ some out
    → (ret : List XSnapshot) × (rest ≡ some ret)
      × (((k ≡ some true) × (out ≡ s ∷ ret)) ⊎ ((k ≡ some false) × (out ≡ ret)))
unfolding push
push-In s (some true) (some ret) out h = (ret, refl, inl (refl, ground arith))
push-In s (some false) (some ret) out h = (ret, refl, inr (refl, ground arith))
push-In s (some true) none out h = cc
push-In s (some false) none out h = cc
push-In s none rest out h = cc

-- `filter2` lets through what it keeps, and nothing else.
pub filter2_loop_sound :
    (snapshots tmp ss out : List XSnapshot) (s : XSnapshot)
    → filter2_loop snapshots tmp ss ≡ some out
    → In s out
    → In s ss × (keeps snapshots tmp s ≡ some true)
unfolding filter2_loop
filter2_loop_sound snapshots tmp [] out s h m =
    let e : out ≡ [] = ground arith in absurd (subst (In s) e m)
filter2_loop_sound snapshots tmp (x ∷ xs) out s h m =
    let (ret, er, c) = push-In x (keeps snapshots tmp x) (filter2_loop snapshots tmp xs) out h in
    elim c [
      | inl (kt, e) ↦ elim (subst (In s) e m) [
        | inl same ↦ (inl same, subst (λ y. keeps snapshots tmp y ≡ some true) (sym same) kt)
        | inr tail ↦ let (a, b) = filter2_loop_sound snapshots tmp xs ret s er tail in (inr a, b)
      ]
      | inr (kf, e) ↦
          let (a, b) = filter2_loop_sound snapshots tmp xs ret s er (subst (In s) e m) in (inr a, b)
    ]

filter2_loop_complete :
    (snapshots tmp ss out : List XSnapshot) (s : XSnapshot)
    → filter2_loop snapshots tmp ss ≡ some out
    → In s ss
    → keeps snapshots tmp s ≡ some true
    → In s out
unfolding filter2_loop
filter2_loop_complete snapshots tmp [] out s h m k = absurd m
filter2_loop_complete snapshots tmp (x ∷ xs) out s h m k =
    let (ret, er, c) = push-In x (keeps snapshots tmp x) (filter2_loop snapshots tmp xs) out h in
    elim c [
      | inl (kt, e) ↦ elim m [
        | inl same ↦ subst (In s) (sym e) (inl same)
        | inr tail ↦
            subst (In s) (sym e) (inr (filter2_loop_complete snapshots tmp xs ret s er tail k))
      ]
      | inr (kf, e) ↦ elim m [
        | inl same ↦ let kx = subst (λ y. keeps snapshots tmp y ≡ some true) same k in cc
        | inr tail ↦ subst (In s) (sym e) (filter2_loop_complete snapshots tmp xs ret s er tail k)
      ]
    ]

guard-passed :
    {A : Type 0} (c : Bool) (x y : A)
    → (if c then none else some x) ≡ some y
    → (c ≡ false) × (x ≡ y)
guard-passed true x y h = cc
guard-passed false x y h = ground arith

neither : (a b : Bool) → a || not b ≡ false → b ≡ true
neither false true h = refl
neither false false h = cc
neither true b h = cc

post-not_pre : (t : SnapshotType) → type_eq t post ≡ true → type_eq t pre ≡ false
post-not_pre single h = refl
post-not_pre pre h = cc
post-not_pre post h = refl

find_post_sound :
    (snapshots : List XSnapshot) (p q : XSnapshot)
    → find_post snapshots p ≡ some (some q)
    → (type_eq p.type pre ≡ true) × In q snapshots
unfolding find_post
find_post_sound snapshots p q h =
    let (passed, hit) = guard-passed _ _ (some q) h in
    (neither (p.num == 0) _ passed, (first_with_sound (is_post_of p) snapshots q hit).0)

find_pre_sound :
    (snapshots : List XSnapshot) (p q : XSnapshot)
    → find_pre snapshots q ≡ some (some p)
    → (type_eq q.type post ≡ true) × In p snapshots
unfolding find_pre
find_pre_sound snapshots p q h =
    let (passed, hit) = guard-passed _ _ (some p) h in
    (neither (q.num == 0) _ passed, (first_with_sound (is_pre_of q) snapshots p hit).0)

keeps-pre :
    (snapshots tmp : List XSnapshot) (p q : XSnapshot)
    → find_post snapshots p ≡ some (some q)
    → keeps snapshots tmp p ≡ some (is_in q tmp)
unfolding keeps with_partner
keeps-pre snapshots tmp p q h = rw (h, (find_post_sound snapshots p q h).0)

keeps-post :
    (snapshots tmp : List XSnapshot) (p q : XSnapshot)
    → find_pre snapshots q ≡ some (some p)
    → keeps snapshots tmp q ≡ some (is_in p tmp)
unfolding keeps with_partner
keeps-post snapshots tmp p q h =
    let (b, m) = find_pre_sound snapshots p q h in rw (h, post-not_pre q.type b, b)

-- Of a pre snapshot and a post snapshot that belong together, each being what `findPost` and
-- `findPre` give for the other, `filter2` lets through both or neither. The snapshots have
-- different numbers, the list to filter is taken from them, and the run does not end by a `throw;`.
pub filter2-KeepsPairs :
    (snapshots tmp out : List XSnapshot) (p q : XSnapshot)
    → AreDistinct snapshots
    → Within tmp snapshots
    → find_post snapshots p ≡ some (some q)
    → find_pre snapshots q ≡ some (some p)
    → filter2 snapshots tmp ≡ some out
    → In p out ↔ In q out
unfolding filter2
filter2-KeepsPairs snapshots tmp out p q d w hp hq h =
    let kp = keeps-pre snapshots tmp p q hp in
    let kq = keeps-post snapshots tmp p q hq in
    let mq = (find_post_sound snapshots p q hp).1 in
    let mp = (find_pre_sound snapshots p q hq).1 in
    let to : In p out → In q out = λ m.
      let (mt, k) = filter2_loop_sound snapshots tmp tmp out p h m in
      let isq : is_in q tmp ≡ true = cc in
      let isp = In-is_in tmp p mt in
      filter2_loop_complete snapshots tmp tmp out q h (is_in-In snapshots tmp q d w mq isq)
        (kq ∙ ap some isp) in
    let from : In q out → In p out = λ m.
      let (mt, k) = filter2_loop_sound snapshots tmp tmp out q h m in
      let isp : is_in p tmp ≡ true = cc in
      let isq = In-is_in tmp q mt in
      filter2_loop_complete snapshots tmp tmp out p h (is_in-In snapshots tmp p d w mp isp)
        (kp ∙ ap some isq) in
    (to, from)
