-- ===== src/Directory/Rename.antt =====
-- What fs_rename does to the directory.
use file_system_implementati.Fs.{Fs}
use file_system_implementati.Directory.Kept.{Kept}
