-- ===== src/ReadImg/Tree.antt =====
-- The directory tree of an image, as a relation.
use mathlib.Core.List.{Memᴰ}
use file_system_implementati.Base.{◌+◌, ◌*◌, ◌%◌, ◌^◌, ◌<◌, ◌≡◌, true}
use file_system_implementati.Outcome.{ok}
use file_system_implementati.Layout.{Bytes, Dirent, fs_block_size, decode_dir, decode_inode}
use file_system_implementati.Fs.{s_isdir, direct_0}
use file_system_implementati.ReadImg.{Image, Entry, slice, max_inodes, inodes_at}

-- The entry `p` of inode_list is named by a valid entry of the directory `e`, with the number of an
-- inode.
pub data Child (img : Image) (e : Entry) : Entry → Type 0 where
  child :
      {b buf : Bytes} (de : Dirent)
      → e.dir ≡ true
      → slice img.disk (inodes_at img.sb + e.inum * 64) 64 ≡ ok b
      → s_isdir (decode_inode b).mode ≡ true
      → slice img.disk (direct_0 (decode_inode b) * fs_block_size % 2 ^ 32) fs_block_size ≡ ok buf
      → Memᴰ de (decode_dir buf)
      → de.valid ≡ true
      → de.inode < max_inodes img.sb
      → Child img e (record { dir = de.is_dir; inum = de.inode })

abbrev pub root_entry : Entry
root_entry = record { dir = true; inum = 1 }

-- What can be reached from the root directory, which is inode 1.
pub data Reachable (img : Image) : Entry → Type 0 where
  root : Reachable img root_entry
  below : {e p : Entry} → Reachable img e → Child img e p → Reachable img p
