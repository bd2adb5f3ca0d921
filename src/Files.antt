-- ===== src/Files.antt =====
-- snapper/File.cc and snapper/Comparison.cc: the files that differ between two snapshots.
pub mod Status
pub mod Defs
pub mod Listing
