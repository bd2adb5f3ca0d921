-- ===== src/Undo/Copy.antt =====
-- `copyfile` copies what is left of the source, and `fillfile`: what `createFile` does to the new file
-- while both are open.
use ok_snap.Undo.Calls.{Calls, View, Inode, regular, sent, send_failed, Sent}
use ok_snap.Undo.Posix.{IsPosix, with_body}
use ok_snap.Undo.Defs.{copyfile, chunk_size}
use ok_snap.Undo.Spec.{Spec, Call-trans, Call-refl}
use ok_snap.Base.{
  ℕ, zero, suc, ◌≤◌, ◌<◌, ◌≡◌, refl, sym, ap, ◌∙◌, ◌⊎◌, inl, inr, false≢true, some, [], ◌++◌,
  append-nil, append_assoc, arith, length, length-append, Text,
}

Sent-cases : (r : Sent) → (r ≡ sent 0) ⊎ ((r ≡ send_failed) ⊎ ((k : ℕ) × (r ≡ sent (suc k))))
Sent-cases (sent zero) = inl refl
Sent-cases (sent (suc k)) = inr (inr (k, refl))
Sent-cases send_failed = inr (inl refl)

with_same_body :
    (i : Inode) (content : Text)
    → i.body ≡ regular content
    → with_body (regular (content ++ [])) i ≡ i
with_same_body i content b =
    ap (λ c. with_body (regular c) i) (append-nil content) ∙ ap (λ body. with_body body i) (sym b)

module _ {sys : Calls} {view : View sys} (posix : IsPosix sys view) (p q : Text)
    (src dest : ℕ) where
  -- The new file is open for writing, its source for reading.
  abbrev pub BothOpen : sys.State → Type 0
  BothOpen s = (view.handle s dest ≡ some p) × (view.handle s src ≡ some q) × view.Apart p q

  pub copyfile-Copied :
      (fuel : ℕ) (s : sys.State) (i : Inode) (content : Text)
      → BothOpen s
      → view.node s p ≡ some i
      → i.body ≡ regular content
      → Spec view p s
          (copyfile sys fuel src dest)
          (λ t. view.node t p ≡ some (with_body (regular (content ++ view.unread s src)) i))
  unfolding copyfile
  copyfile-Copied zero s i content (d, h, apart) e b =
      (Call-refl view p s, λ no. absurd (false≢true no))
  copyfile-Copied (suc fuel) s i content (d, h, apart) e b =
      let call = posix.sendfile_call dest src chunk_size s p d in
      elim (Sent-cases (sys.sendfile dest src chunk_size s).0) [
        | inl r ↦
            let (over, kept) =
              posix.sendfile_end dest src chunk_size s p q i content d h apart e b (omega arith)
                r in
            rw (r, copyfile)
              (call, λ yes. kept ∙ e ∙ rw over (ap some (sym (with_same_body i content b))))
        | inr (inl r) ↦ rw (r, copyfile) (call, λ no. absurd (false≢true no))
        | inr (inr (k, r)) ↦
            let (chunk, cut, some_sent, grown) =
              posix.sendfile_sent dest src chunk_size s p q i content k d h apart e b r in
            let t = (sys.sendfile dest src chunk_size s).1 in
            let rest =
              copyfile-Copied fuel t (with_body (regular (content ++ chunk)) i) (content ++ chunk)
                (call.1 dest ∙ d, call.1 src ∙ h, apart) grown refl in
            rw (r, copyfile)
              (
                Call-trans view p call rest.0,
                λ yes.
                    rest.1 yes
                    ∙ ap (λ c. some (with_body (regular c) i))
                        (append_assoc content chunk (view.unread t src)
                          ∙ ap (λ c. content ++ c) (sym cut)),
              )
      ]

  -- With more rounds than bytes left to read, more rounds change nothing.
  pub copyfile_enough :
      (more fuel : ℕ) (s : sys.State) (i : Inode) (content : Text)
      → BothOpen s
      → view.node s p ≡ some i
      → i.body ≡ regular content
      → length (view.unread s src) < fuel
      → fuel ≤ more
      → copyfile sys more src dest s ≡ copyfile sys fuel src dest s
  unfolding copyfile
  copyfile_enough more zero s i content both e b short below = absurd (omega arith)
  copyfile_enough zero (suc fuel) s i content both e b short below = absurd (omega arith)
  copyfile_enough (suc more) (suc fuel) s i content (d, h, apart) e b short below =
      let call = posix.sendfile_call dest src chunk_size s p d in
      elim (Sent-cases (sys.sendfile dest src chunk_size s).0) [
        | inl r ↦ rw (r, copyfile) refl
        | inr (inl r) ↦ rw (r, copyfile) refl
        | inr (inr (k, r)) ↦
            let (chunk, cut, some_sent, grown) =
              posix.sendfile_sent dest src chunk_size s p q i content k d h apart e b r in
            let t = (sys.sendfile dest src chunk_size s).1 in
            let fewer : length (view.unread t src) < fuel =
              omega
                (arith, ap length cut, length-append chunk (view.unread t src), some_sent, short) in
            let rest =
              copyfile_enough more fuel t (with_body (regular (content ++ chunk)) i)
                (content ++ chunk) (call.1 dest ∙ d, call.1 src ∙ h, apart) grown refl fewer
                (omega (arith, below)) in
            rw (r, copyfile) rest
      ]
