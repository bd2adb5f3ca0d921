-- ===== src/Btrfs.antt =====
-- snapper/Btrfs.cc: the tree of changed files that the send stream of btrfs is read into.
pub mod TreeNode
pub mod Stream
pub mod Statuses
pub mod Marked
pub mod Refinement
pub mod Renamed
pub mod Result
mod Tests
