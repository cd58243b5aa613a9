-- ===== src/Index.antt =====
-- The index of the files, src/proc/index: the names of its files and directories.
pub mod Names
