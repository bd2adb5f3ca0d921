-- ===== src/Undo/Status.antt =====
-- Which parts of `File::doUndo` a status asks for, for the statuses that a comparison yields.
use ok_snap.Files.Status.{created, deleted, type, content, permissions, user, group, is_clean}
use ok_snap.Base.{
  ℕ, ◌<◌, bit_or, ◌≡◌, refl, Bool, true, false, not, ◌&&◌, ◌||◌, arith, has, tested, tested_below,
}

-- The file itself differs, not only its mode or its owner.
abbrev pub is_remade : ℕ → Bool
is_remade status = has status deleted || has status type || has status content

abbrev pub asks_create : ℕ → Bool
asks_create status = has status deleted || has status type

abbrev pub asks_delete : ℕ → Bool
asks_delete status = has status created || has status type

abbrev pub asks_modify : ℕ → Bool
asks_modify status = has status (bit_or (bit_or (bit_or content permissions) user) group)

below_128 : (status : ℕ) → is_clean status ≡ true → status < 128
unfolding is_clean
below_128 status h = ground arith

-- A content that is asked for is alone, and what is not asked for is not flagged.
parts : ℕ → Bool
parts status =
    not (is_clean status)
    || ((not (has status content) || (asks_modify status && not (asks_create status)))
        && (asks_modify status
            || (not (has status permissions) && not (has status (bit_or user group)))))

parts-true : (status : ℕ) → is_clean status ≡ true → parts status ≡ true
unfolding parts tested is_clean
parts-true status clean = tested_below parts 128 status (below_128 status clean) refl

pub content_alone :
    (status : ℕ)
    → is_clean status ≡ true
    → has status content ≡ true
    → (asks_modify status ≡ true) × (asks_create status ≡ false)
unfolding parts
content_alone status clean asked =
    let table = parts-true status clean in (ground arith, ground arith)

pub unasked_flags :
    (status : ℕ)
    → is_clean status ≡ true
    → asks_modify status ≡ false
    → (has status permissions ≡ false) × (has status (bit_or user group) ≡ false)
unfolding parts
unasked_flags status clean skipped =
    let table = parts-true status clean in (ground arith, ground arith)

pub content_asked : (status : ℕ) → is_remade status ≡ false → has status content ≡ false
content_asked status same = ground arith
