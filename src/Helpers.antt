-- ===== src/Helpers.antt =====
-- Helpers of the library: `SystemCmd::quote` (snapper/SystemCmd.cc), and `is_subpath` and
-- `Snapper::detectFstype` (snapper/Snapper.cc).
pub mod Quote
pub mod Subpath
mod Tests
