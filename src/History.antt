-- ===== src/History.antt =====
-- What earlier calls leave behind, in `cwd` and in the volume, and the answers of later calls with
-- absolute paths.
pub mod Chdir
pub mod Files
pub mod Dentry
pub mod Entries
pub mod Closing
pub mod Rename
pub mod Handlers
pub mod Session
