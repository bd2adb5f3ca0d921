-- ===== src/Snapshots.antt =====
-- snapper/Snapshot.h and snapper/Snapshot.cc: the snapshots of one configuration.
pub mod Types
pub mod Disk
pub mod Entry
pub mod Table
pub mod Ops
pub mod Reading
