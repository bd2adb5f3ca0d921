-- ===== src/Compare.antt =====
-- snapper/Compare.cc: the comparison of two directory trees.
pub mod Tree
pub mod Content
pub mod Dirs
pub mod Flags
pub mod Symmetry
pub mod Swapped
mod Blocks
mod Stored
mod Tests
