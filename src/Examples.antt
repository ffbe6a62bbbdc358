-- ===== src/Examples.antt =====
-- The theorems at concrete inputs: a disk of six blocks, with the superblock, the two bitmaps, 16
-- inodes, the root directory (block 4) and a free block.
pub mod Reading
pub mod Restart
pub mod Image
pub mod Listing
pub mod Making
pub mod Leaking
pub mod Walking
pub mod Naming
pub mod Removing
use file_system_implementati.Base.{
  ◌+◌, ◌-◌, ◌^◌, ◌≤◌, ◌<◌, ◌≡◌, refl, true, false, List, [], ◌∷◌, ◌++◌, replicate, ◌==◌, arith,
  All-replicate,
}
use file_system_implementati.Base.Int.{pos}
use file_system_implementati.Outcome.{ok, err, fault, enoent}
use file_system_implementati.Exec.{◌>>=◌}
use file_system_implementati.Layout.{
  Bytes, Super, Inode, Dirent, encode_dir, decode_dir, encode_addrs, decode_addrs, decode_super,
}
use file_system_implementati.Layout.Codec.{IsInode, IsDirent}
use file_system_implementati.Device.{AreBytes}
use file_system_implementati.Memory.{memory, memory_read}
use file_system_implementati.Memory.Laws.{memory-IsDevice, AreBytes-zeros}
use file_system_implementati.Mkfs.{encode_super}
use file_system_implementati.Bitmap.{bit_set, bit_clear, bit_test, first_clear, count_clear}
use file_system_implementati.Bitmap.Laws.{bit_test-bit_set, bit_test-bit_clear}
use file_system_implementati.Bitmap.Search.{Found, first_clear_lem, count_clear-bit_set}
use file_system_implementati.FilePath.{parse, split_path}
use file_system_implementati.FilePath.Laws.{join, parse-join, split_path-join, split_path_overflow}
use file_system_implementati.Fs.{Fs, fs_init, update_disk, inode_at, read_dir}
use file_system_implementati.Lookup.{translate, walk, skip_dot, lookup, find_entry, matches}
use file_system_implementati.Fs.Sync.{IsWf, HasSuper, fs_init-update_disk}
use file_system_implementati.Ops.{Env, mkdir, perform}
use file_system_implementati.Errors.{error_keeps_state}

abbrev pub sb : Super
sb = record {
  magic = 0x37363030;
  inode_map_sz = 1;
  inode_region_sz = 1;
  block_map_sz = 1;
  num_blocks = 6;
  root_inode = 1;
}

abbrev pub zeros : Bytes
zeros = replicate 1024 0

abbrev pub no_inode : Inode
no_inode = record {
  uid = 0;
  gid = 0;
  mode = 0;
  ctime = 0;
  mtime = 0;
  size = pos 0;
  direct = replicate 6 0;
  indir_1 = 0;
  indir_2 = 0;
  pad = replicate 3 0;
}

abbrev pub root : Inode
root = record no_inode { mode = 0o40777; size = pos 1024; direct = 4 ∷ replicate 5 0 }

abbrev pub inode_map : Bytes
inode_map = 3 ∷ replicate 1023 0

abbrev pub block_map : Bytes
block_map = 31 ∷ replicate 1023 0

abbrev pub blocks : List Bytes
blocks = encode_super sb ∷ zeros ∷ zeros ∷ zeros ∷ zeros ∷ zeros ∷ []

abbrev pub small : Fs memory
small = record {
  sb = sb;
  inode_map = inode_map;
  block_map = block_map;
  inodes = no_inode ∷ root ∷ replicate 14 no_inode;
  disk = blocks;
}

pub inode_map-bytes : AreBytes inode_map
inode_map-bytes = (omega arith, AreBytes-zeros 1023)

pub no_inode-IsInode : IsInode no_inode
no_inode-IsInode = record {
  uid = omega arith;
  gid = omega arith;
  mode = omega arith;
  ctime = omega arith;
  mtime = omega arith;
  size_pattern = omega arith;
  size = refl;
  direct_length = refl;
  direct = omega arith;
  indir_1 = omega arith;
  indir_2 = omega arith;
  pad_length = refl;
  pad = omega arith;
}

pub root-IsInode : IsInode root
root-IsInode = record {
  uid = omega arith;
  gid = omega arith;
  mode = omega arith;
  ctime = omega arith;
  mtime = omega arith;
  size_pattern = omega arith;
  size = refl;
  direct_length = refl;
  direct = omega arith;
  indir_1 = omega arith;
  indir_2 = omega arith;
  pad_length = refl;
  pad = omega arith;
}

pub small-IsWf : IsWf small
small-IsWf = record {
  inode_map_length = refl;
  inode_map_bytes = inode_map-bytes;
  block_map_length = refl;
  block_map_bytes = (omega arith, AreBytes-zeros 1023);
  inodes_length = refl;
  inodes_ok =
      (no_inode-IsInode, (root-IsInode, All-replicate IsInode 14 no_inode no_inode-IsInode));
  inode_map_small = omega arith;
  block_map_small = omega arith;
  inodes_small = omega arith;
  num_blocks_32 = omega arith;
  fits = omega arith;
}

small-HasSuper : HasSuper memory blocks sb
unfolding memory_read encode_super decode_super
small-HasSuper = record { block = encode_super sb; stored = refl; super = refl }

fs_init-update_disk_example :
    (d : List Bytes) × (update_disk small ≡ (ok tt, record small { disk = d }))
    × (fs_init memory d ≡ ok (record small { disk = d }))
fs_init-update_disk_example = fs_init-update_disk memory-IsDevice small small-IsWf small-HasSuper

abbrev pub a_name : Bytes
a_name = b'a' ∷ []

abbrev pub f_name : Bytes
f_name = b'f' ∷ b'.' ∷ b'c' ∷ []

abbrev pub env : Env
env = record { user = record { uid = 1000; gid = 1000; time = 5 }; now = 5; round = λ i. 5 + i }

-- mkdir("/a/f.c"), where there is no "/a"
mkdir_fails : (perform env (mkdir (join (a_name ∷ f_name ∷ [])) 0o755) small).0 ≡ err enoent
unfolding perform split_path parse memory_read ◌>>=◌ translate walk skip_dot lookup inode_at
    read_dir find_entry decode_dir matches
mkdir_fails = refl

error_keeps_state_example :
    (perform env (mkdir (join (a_name ∷ f_name ∷ [])) 0o755) small).1 ≡ small
error_keeps_state_example =
    error_keeps_state env (mkdir (join (a_name ∷ f_name ∷ [])) 0o755) small enoent (λ h. h)
      mkdir_fails

parse-join_example : parse (join (a_name ∷ f_name ∷ [])) ≡ a_name ∷ f_name ∷ []
parse-join_example =
    parse-join (a_name ∷ f_name ∷ []) ((refl, tt), ((refl, (refl, (refl, tt))), tt))

split_path-join_example : split_path (join (a_name ∷ f_name ∷ [])) ≡ ok (join (a_name ∷ []), f_name)
split_path-join_example =
    split_path-join (a_name ∷ []) f_name ((refl, tt), tt) (refl, (refl, (refl, tt))) (omega arith)
      (omega arith)

abbrev long_name : Bytes
long_name = replicate 28 b'x'

split_path_overflow_example : split_path (join (a_name ∷ long_name ∷ [])) ≡ fault
split_path_overflow_example =
    split_path_overflow (a_name ∷ []) long_name
      (All-replicate (λ b. (b == 47) ≡ false) 28 b'x' refl) (omega arith)

first_clear_lem_example : Found block_map 2 10 (first_clear block_map 10 2)
first_clear_lem_example = first_clear_lem block_map 10 2 (omega arith)

set_two : bit_set inode_map 2 ≡ ok (7 ∷ replicate 1023 0)
unfolding bit_set
set_two = refl

bit_test-bit_set_example : bit_test (7 ∷ replicate 1023 0) 2 ≡ ok true
bit_test-bit_set_example = bit_test-bit_set inode_map 2 2 inode_map-bytes set_two

clear_one : bit_clear inode_map 1 ≡ ok (1 ∷ replicate 1023 0)
unfolding bit_clear
clear_one = refl

bit_test-bit_clear_example : bit_test (1 ∷ replicate 1023 0) 1 ≡ ok false
bit_test-bit_clear_example = bit_test-bit_clear inode_map 1 1 inode_map-bytes clear_one

two_is_clear : bit_test inode_map 2 ≡ ok false
unfolding bit_test
two_is_clear = refl

two_clear_of_four : count_clear inode_map 4 0 ≡ ok 2
unfolding count_clear
two_clear_of_four = refl

count_clear-bit_set_example : (1 ≤ 2) × (count_clear (7 ∷ replicate 1023 0) 4 0 ≡ ok (2 - 1))
count_clear-bit_set_example =
    count_clear-bit_set inode_map 4 0 2 inode_map-bytes set_two two_is_clear (omega arith)
      (omega arith) two_clear_of_four

abbrev pub no_entry : Dirent
no_entry = record { valid = false; is_dir = false; inode = 0; name = replicate 28 0 }
