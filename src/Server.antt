-- ===== src/Server.antt =====
-- server/Client.cc: the clients of the daemon, their locks, mounts and comparisons, the methods that they
-- call on the snapshots of a configuration, and the daemon as steps of its threads.
pub mod State
pub mod Mounts
pub mod Handlers
pub mod Comparisons
pub mod Loop
pub mod Uses
pub mod Counted
pub mod Reach
pub mod InUse
pub mod Made
pub mod Deletion
pub mod Denied
pub mod Found
mod Tests
mod ReachTests
