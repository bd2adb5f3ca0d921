-- ===== src/Files/Status/RoundTrip.antt =====
-- The letters of a status stand for it, and inverting a status is its own inverse.
use ok_snap.Base.{
  ℕ, ◌<◌, ◌≡◌, refl, ◌≢◌, Bool, true, not, ◌||◌, arith, ◌==◌, ==_iff, tested, tested_below, All,
}
use ok_snap.Files.Status.{status_to_string, string_to_status, invert_status, is_clean}

clean_below : (s : ℕ) → is_clean s ≡ true → s < 128
unfolding is_clean
clean_below s h = ground arith

implies : Bool → Bool → Bool
implies a b = not a || b

from_implies : (a b : Bool) → implies a b ≡ true → a ≡ true → b ≡ true
unfolding implies
from_implies a b h e = ground arith

-- A test that holds on every clean status below 128 holds on every clean status.
clean_table :
    (p : ℕ → Bool)
    → tested (λ s. implies (is_clean s) (p s)) 128 ≡ true
    → (s : ℕ) → is_clean s ≡ true
    → p s ≡ true
clean_table p table s h = from_implies _ _ (tested_below _ 128 s (clean_below s h) table) h

letters_table :
    tested (λ s. implies (is_clean s) (string_to_status (status_to_string s) == s)) 128 ≡ true
unfolding tested implies is_clean string_to_status status_to_string
letters_table = refl

-- What is written in a file list for a status is read back as that status, whatever set of flags
-- the comparison of two files can give.
pub string_to_status-status_to_string :
    (s : ℕ) → is_clean s ≡ true → string_to_status (status_to_string s) ≡ s
string_to_status-status_to_string s h =
    (==_iff _ s).0 (clean_table (λ t. string_to_status (status_to_string t) == t) letters_table s h)

invert_table : tested (λ s. implies (is_clean s) (invert_status (invert_status s) == s)) 128 ≡ true
unfolding tested implies is_clean invert_status
invert_table = refl

-- Inverting a status twice gives the status back, whatever set of flags the comparison of two files
-- can give.
pub invert_status_twice : (s : ℕ) → is_clean s ≡ true → invert_status (invert_status s) ≡ s
invert_status_twice s h =
    (==_iff _ s).0 (clean_table (λ t. invert_status (invert_status t) == t) invert_table s h)

clean_invert_table : tested (λ s. implies (is_clean s) (is_clean (invert_status s))) 128 ≡ true
unfolding tested implies is_clean invert_status
clean_invert_table = refl

pub is_clean-invert_status : (s : ℕ) → is_clean s ≡ true → is_clean (invert_status s) ≡ true
is_clean-invert_status = clean_table (λ t. is_clean (invert_status t)) clean_invert_table

-- The letters of a status hold no null byte, no newline and no space.
pub status_letters : (s : ℕ) → All (λ c. (c ≢ 0) × (c ≢ b'\n') × (c ≢ b' ')) (status_to_string s)
unfolding status_to_string
status_letters s = ground arith
