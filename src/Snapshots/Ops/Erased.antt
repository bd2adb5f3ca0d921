-- ===== src/Snapshots/Ops/Erased.antt =====
-- What is found after a deletion.
use ok_snap.Snapshots.Table.{Snapshots}
