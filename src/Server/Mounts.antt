-- ===== src/Server/Mounts.antt =====
-- `Client::add_mount` and `Client::remove_mount`: the map counts the uses of each snapshot, and has
-- an entry only while there is a use.
use ok_snap.Base.{
  ℕ, ◌+◌, ◌-◌, ◌%◌, ◌^◌, ◌<◌, ◌≡◌, inl, inr, true, ◌&&◌, List, [], ◌∷◌, arith, ltb, ◌==◌,
  if◌then◌else◌, ==_self, Bool-cases, All, text_eq_refl, Text, text_eq,
}
use ok_snap.Server.State.{Mount, is_mount_of}

unfoldable pub add_mount : Text → ℕ → List Mount → List Mount
add_mount config_name number [] =
    record { config_name = config_name; number = number; use_count = 1 } ∷ []
add_mount config_name number (m ∷ ms) =
    if is_mount_of config_name number m
    then record m { use_count = (m.use_count + 1) % 2 ^ 32 } ∷ ms
    else m ∷ add_mount config_name number ms

unfoldable pub remove_mount : Text → ℕ → List Mount → List Mount
remove_mount config_name number [] = []
remove_mount config_name number (m ∷ ms) =
    if is_mount_of config_name number m
    then (if ltb 1 m.use_count then record m { use_count = m.use_count - 1 } ∷ ms else ms)
    else m ∷ remove_mount config_name number ms

-- Each entry stands for at least one use, and one more can be counted.
abbrev pub IsCounted : Mount → Type 0
IsCounted m = (0 < m.use_count) × (m.use_count + 1 < 2 ^ 32)

is_mount_of_self :
    (config_name : Text) (number : ℕ) → text_eq config_name config_name && (number == number) ≡ true
is_mount_of_self config_name number = rw (text_eq_refl config_name, ==_self number)

counted_back :
    (n : ℕ)
    → 0 < n
    → n + 1 < 2 ^ 32
    → (ltb 1 ((n + 1) % 2 ^ 32) ≡ true) × ((n + 1) % 2 ^ 32 - 1 ≡ n)
counted_back n pos_n room = ground arith

-- Giving a mount back takes back what adding it did, whatever other mounts the client has: while no
-- count is at the end of its range, the map is as before.
pub remove_mount-add_mount :
    (config_name : Text) (number : ℕ) (ms : List Mount)
    → All IsCounted ms
    → remove_mount config_name number (add_mount config_name number ms) ≡ ms
unfolding remove_mount add_mount
remove_mount-add_mount config_name number [] h = rw (is_mount_of_self config_name number)
remove_mount-add_mount config_name number (m ∷ ms) h =
    elim (Bool-cases (is_mount_of config_name number m)) [
      | inl hit ↦
          let (more, back) = counted_back m.use_count h.0.0 h.0.1 in rw (hit, hit, more, back)
      | inr miss ↦ rw (miss, miss, remove_mount-add_mount config_name number ms h.1)
    ]
