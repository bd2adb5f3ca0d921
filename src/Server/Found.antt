-- ===== src/Server/Found.antt =====
-- The search for a configuration changes nothing.
use ok_snap.Base.{inl, inr, Option-cases, Text}
use ok_snap.Exec.Keeps.{Keeps}
use ok_snap.Server.State.{Daemon, find_config, found, meta_find}

pub meta_find-Keeps : (config_name : Text) (P : Daemon → Type 0) → Keeps P (meta_find config_name)
unfolding meta_find
meta_find-Keeps config_name P d h = elim (Option-cases (find_config config_name d.meta_snappers)) [
  | inl nothing ↦ rw (nothing, found) h
  | inr (meta, hit) ↦ rw (hit, found) h
]
