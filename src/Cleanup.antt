-- ===== src/Cleanup.antt =====
-- client/cleanup.cc: the three cleanup algorithms of the client, over the snapshots that the daemon
-- lists (client/types.h, client/types.cc).
pub mod Types
pub mod Filter
pub mod Algorithms
pub mod Pairing
pub mod Chosen
pub mod Kept
pub mod Empty
mod Tests
