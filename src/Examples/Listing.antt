-- ===== src/Examples/Listing.antt =====
-- hw3_readdir at a concrete input: the root directory of the disk of six blocks, with no entries.
use file_system_implementati.Base.{
  ◌≡◌, refl, [], ◌∷◌, ◌++◌, min, map, take, drop, length, replicate, true, false, List, All, arith,
}
use file_system_implementati.Base.Int.{pos}
use file_system_implementati.Outcome.{ok}
use file_system_implementati.Layout.{Bytes, encode_dir, decode_dir, Dirent}
use file_system_implementati.Memory.{memory, memory_read}
use file_system_implementati.FilePath.{parse}
use file_system_implementati.Fs.{Fs, inode_at, read_dir, c_string}
use file_system_implementati.Lookup.{translate, walk, skip_dot}
use file_system_implementati.Attr.{Stat, fs_readdir, fill_entries, fill_stat, stat_of}
use file_system_implementati.Hw3.{DirEntry, hw3_readdir}
use file_system_implementati.Hw3.Listing.{Ended, stored, hw3_readdir_lem}
use file_system_implementati.Examples.{sb, zeros, inode_map, block_map, blocks, no_inode, root}

abbrev file_entry : Dirent
file_entry = record { valid = true; is_dir = false; inode = 2; name = b'a' ∷ replicate 27 0 }

abbrev one_file : Fs memory
one_file = record {
  sb = sb;
  inode_map = inode_map;
  block_map = block_map;
  inodes = no_inode ∷ root ∷ replicate 14 no_inode;
  disk = take 4 blocks ++ ((encode_dir (file_entry ∷ []) ++ replicate 992 0) ∷ zeros ∷ []);
}

abbrev listed : List (Bytes × Stat)
listed = (b'a' ∷ replicate 27 0, stat_of 2 no_inode) ∷ []

one_file_lists : fs_readdir one_file (b'/' ∷ []) ≡ ok listed
unfolding fs_readdir fill_entries fill_stat translate walk skip_dot parse inode_at read_dir
    memory_read encode_dir decode_dir
one_file_lists = refl

abbrev buffer : List DirEntry
buffer = replicate 2 (record { name = replicate 64 0; sb = stat_of 0 no_inode })

listed-Ended : All Ended (take 2 listed)
unfolding c_string
listed-Ended = (omega arith, tt)

hw3_readdir_example :
    hw3_readdir one_file (b'/' ∷ []) (pos 2) buffer
    ≡ ok (min 2 (length listed), map stored (take 2 listed) ++ drop (min 2 (length listed)) buffer)
hw3_readdir_example =
    hw3_readdir_lem one_file (b'/' ∷ []) 2 buffer one_file_lists (omega arith) listed-Ended
