-- ===== src/Files/Defs/Find.antt =====
-- `Files::find` finds exactly the entries, by their names.
use ok_snap.Base.{
  ◌≡◌, refl, sym, ap, subst, ◌↔◌, inl, inr, true, some, List, [], ◌∷◌, ◌++◌, arith, ==_self,
  Bool-cases, In, All-In, text_eq_refl, text_lt_irrefl, Text, codes, text_eq, text_eq_iff, text_lt,
}
use ok_snap.Files.Defs.{
  File, lower_bound, find, found, strip_prefix, find_absolute_path, FilePaths, get_absolute_path,
  system,
}
use ok_snap.Files.Defs.Sorted.{IsSorted}

found-In :
    (fs : List File) (name : Text) (f : File) → found fs name ≡ some f → In f fs × (f.name ≡ name)
unfolding found
found-In [] name f h = cc
found-In (g ∷ gs) name f h = ground (arith, text_eq_iff g.name name)

lower_bound-In : (fs : List File) (name : Text) (f : File) → In f (lower_bound fs name) → In f fs
unfolding lower_bound
lower_bound-In [] name f h = h
lower_bound-In (g ∷ gs) name f h = elim (Bool-cases (text_lt g.name name)) [
  | inl lt ↦ inr (lower_bound-In gs name f (rw lt at h))
  | inr ge ↦ rw ge at h
]

find_sound :
    (fs : List File) (name : Text) (f : File) → find fs name ≡ some f → In f fs × (f.name ≡ name)
unfolding find
find_sound fs name f h =
    let (m, e) = found-In (lower_bound fs name) name f h in (lower_bound-In fs name f m, e)

find_first : (g : File) (gs : List File) → find (g ∷ gs) g.name ≡ some g
unfolding find lower_bound found
find_first g gs = rw (text_lt_irrefl g.name, text_eq_refl g.name)

find_complete : (fs : List File) (f : File) → IsSorted fs → In f fs → find fs f.name ≡ some f
unfolding find lower_bound found
find_complete [] f s m = absurd m
find_complete (g ∷ gs) f s (inl e) =
    subst (λ (x : File). find (g ∷ gs) x.name ≡ some x) (sym e) (find_first g gs)
find_complete (g ∷ gs) f s (inr m) =
    rw (All-In (λ (x : File). text_lt g.name x.name ≡ true) gs f s.0 m) (find_complete gs f s.1 m)

-- In sorted entries `find` returns an entry exactly if it is one of them and has the name.
pub find_iff :
    (fs : List File) (name : Text) (f : File)
    → IsSorted fs
    → (find fs name ≡ some f) ↔ (In f fs × (f.name ≡ name))
find_iff fs name f s =
    (find_sound fs name f, λ h. subst (λ n. find fs n ≡ some f) h.1 (find_complete fs f s h.0))

strip_prefix_append : (p s : Text) → strip_prefix p (p ++ s) ≡ some s
unfolding strip_prefix
strip_prefix_append [] s = refl
strip_prefix_append (c ∷ p) s = rw (==_self c) (strip_prefix_append p s)

-- The absolute path of an entry on the system leads back to the entry.
pub find_absolute_path-get_absolute_path :
    (paths : FilePaths) (fs : List File) (f : File) (rest : Text)
    → IsSorted fs
    → In f fs
    → f.name ≡ b'/' ∷ rest
    → find_absolute_path paths fs (get_absolute_path paths system f) ≡ some f
unfolding find_absolute_path get_absolute_path
find_absolute_path-get_absolute_path paths fs f rest s m e =
    elim (Bool-cases (text_eq paths.system_path (codes "/"))) [
      | inl root ↦
          let same = (text_eq_iff paths.system_path (codes "/")).0 root in
          let starts = ap (strip_prefix (codes "/")) e in
          let hit = find_complete fs f s m in
          rw (root, same) (ground (arith, starts, hit, strip_prefix_append (codes "/") rest))
      | inr sub ↦
          rw (sub, strip_prefix_append paths.system_path f.name, find_absolute_path, sub)
            (find_complete fs f s m)
    ]
