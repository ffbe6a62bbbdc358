-- ===== src/Directory.antt =====
-- A directory as the list of the entries in its block: what the writing functions of homework.c do to
-- it, and what lookup finds in it afterwards.
pub mod Entries
pub mod State
pub mod Steps
pub mod Made
pub mod Kept
pub mod Create
pub mod Changed
pub mod Loop
pub mod Remove
pub mod Rename
pub mod Fresh
pub mod Rmdir
