-- ===== src/Undo.antt =====
-- Undoing a change of a file: `File::doUndo` and what it calls (snapper/File.cc), on a file system
-- that is known by its system calls alone.
pub mod Calls
pub mod Posix
pub mod Memory
pub mod Defs
pub mod Spec
pub mod Delete
pub mod Copy
pub mod Fill
pub mod CreateFile
pub mod Parents
pub mod Create
pub mod Modify
pub mod Whole
pub mod Status
pub mod DoUndo
pub mod Results
pub mod Root
pub mod System
mod Tests
