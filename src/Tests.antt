-- ===== src/Tests.antt =====
-- A small volume and a C library that meet the assumptions, and the theorems at concrete inputs.
pub mod Toy
pub mod Host
pub mod Split
pub mod Store
pub mod Content
pub mod Options
pub mod CommandLine
pub mod Names
pub mod Transfers
pub mod Server
pub mod Rooms
pub mod Mover
pub mod Moves
pub mod Variant
pub mod Accessor
pub mod Links
pub mod Strings
pub mod Sessions
pub mod Renames
pub mod Arguments
