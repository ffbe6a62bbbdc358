-- ===== src/Examples/Removing.antt =====
-- An empty directory "a", inode 2 in block 5, in the root directory, which rmdir removes.
use file_system_implementati.Base.{
  ◌≡◌, ◌≢◌, refl, true, false, List, [], ◌∷◌, ◌++◌, map, replicate, set, take, All, All-replicate,
  All-set, arith,
}
use file_system_implementati.Base.Int.{pos}
use file_system_implementati.Outcome.{ok, err, enoent}
use file_system_implementati.Layout.{Bytes, Inode, Dirent, encode_dir, decode_dir}
use file_system_implementati.Layout.Codec.{IsInode}
use file_system_implementati.Memory.{memory, memory_read}
use file_system_implementati.Memory.Laws.{memory-IsDevice, AreBytes-zeros}
use file_system_implementati.FilePath.{parse, split_path, slash}
use file_system_implementati.Fs.{Fs, inode_at, read_dir}
use file_system_implementati.Fs.Sync.{IsWf}
use file_system_implementati.Lookup.{lookup, matches, find_entry, skip_dot, walk, translate}
use file_system_implementati.Remove.{any_valid, fs_rmdir}
use file_system_implementati.Tables.Inodes.{first-IsInode}
use file_system_implementati.Directory.State.{InDir}
use file_system_implementati.Directory.Changed.{cleared}
use file_system_implementati.Directory.Kept.{InRange}
use file_system_implementati.Directory.Rmdir.{fs_rmdir_removes}
use file_system_implementati.Examples.{
  sb, zeros, blocks, root, small, small-IsWf, env, a_name, no_entry,
}

abbrev a_path : Bytes
a_path = b'/' ∷ a_name

abbrev dir_entry : Dirent
dir_entry = record { valid = true; is_dir = true; inode = 2; name = a_name ++ replicate 27 0 }

abbrev listed : List Dirent
listed = dir_entry ∷ replicate 31 no_entry

abbrev child : Inode
child = record root { direct = 5 ∷ replicate 5 0; size = pos 1024 }

abbrev with_dir : Fs memory
with_dir = record small {
  inode_map = 7 ∷ replicate 1023 0;
  block_map = 63 ∷ replicate 1023 0;
  inodes = set small.inodes 2 child;
  disk = take 4 blocks ++ (encode_dir listed ∷ zeros ∷ []);
}

with_dir-IsWf : IsWf with_dir
with_dir-IsWf = record {
  inode_map_length = refl;
  inode_map_bytes = (omega arith, AreBytes-zeros 1023);
  block_map_length = refl;
  block_map_bytes = (omega arith, AreBytes-zeros 1023);
  inodes_length = refl;
  inodes_ok =
      All-set IsInode small.inodes 2 child small-IsWf.inodes_ok
        (first-IsInode root small-IsWf.inodes_ok.1.0 5 (omega arith));
  inode_map_small = omega arith;
  block_map_small = omega arith;
  inodes_small = omega arith;
  num_blocks_32 = omega arith;
  fits = omega arith;
}

root-InDir : InDir 1 4 listed with_dir
unfolding inode_at read_dir memory_read encode_dir decode_dir
root-InDir = record {
  wf = with_dir-IsWf;
  dir = root;
  inode = refl;
  is_dir = refl;
  block = refl;
  past = omega arith;
  inside = omega arith;
  reads = refl;
}

child-InDir : InDir 2 5 (decode_dir zeros) with_dir
unfolding inode_at read_dir memory_read
child-InDir = record {
  wf = with_dir-IsWf;
  dir = child;
  inode = refl;
  is_dir = refl;
  block = refl;
  past = omega arith;
  inside = omega arith;
  reads = refl;
}

listed-InRange : All (InRange sb) listed
listed-InRange = (
  record { node = omega arith; bit = omega arith },
  All-replicate (InRange sb) 31 no_entry (record { node = omega arith; bit = omega arith }),
)

a_found : translate with_dir a_path ≡ ok 2
unfolding translate walk skip_dot parse lookup inode_at read_dir memory_read find_entry decode_dir
    encode_dir matches
a_found = refl

empty : any_valid (decode_dir zeros) ≡ false
unfolding any_valid decode_dir
empty = refl

a_split : split_path a_path ≡ ok (slash ∷ [], a_name)
unfolding split_path
a_split = refl

fs_rmdir_removes_example :
    (fs' : Fs memory) × (fs_rmdir env.round a_path with_dir ≡ (ok tt, fs'))
    × InDir 1 4 (map (cleared a_name) listed) fs'
    × (lookup fs' 1 a_name ≡ err enoent)
    × ((name : Bytes) → name ≢ a_name → lookup fs' 1 name ≡ lookup with_dir 1 name)
fs_rmdir_removes_example =
    fs_rmdir_removes memory-IsDevice with_dir env.round a_path root-InDir listed-InRange a_found
      child-InDir empty (omega arith) (omega arith) (omega arith) (omega arith) a_split
