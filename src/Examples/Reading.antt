-- ===== src/Examples/Reading.antt =====
-- translate, fs_read and the write of a block at concrete inputs: the file "/a" of five bytes in
-- block 5. Its other addresses are those of blocks 0, 1 and 2.
use file_system_implementati.Base.{
  ℕ, zero, suc, ◌≡◌, ◌↔◌, refl, [], ◌∷◌, true, false, length-replicate, replicate, length, arith,
}
use file_system_implementati.Base.Int.{pos}
use file_system_implementati.Outcome.{ok, err, enoent}
use file_system_implementati.Layout.{
  Bytes, Dirent, Inode, encode_dir, decode_dir, decode_addrs, encode_addrs, concat,
}
use file_system_implementati.Memory.{memory, memory_read}
use file_system_implementati.Mkfs.{encode_super}
use file_system_implementati.FilePath.{parse}
use file_system_implementati.Fs.{Fs, root_inode, inode_at, read_block, read_dir}
use file_system_implementati.Lookup.{translate, walk, skip_dot, lookup, find_entry, matches}
use file_system_implementati.Lookup.Missing.{Stuck, translate-err_iff}
use file_system_implementati.Lookup.Tree.{Leads, translate_iff}
use file_system_implementati.FileRead.{fs_read}
use file_system_implementati.FileRead.Loops.{HoldBlocks, HoldTables}
use file_system_implementati.FileRead.Slice.{Opens, fs_read_direct, fs_read_single, fs_read_double}
use file_system_implementati.FileWrite.{write_bytes}
use file_system_implementati.FileWrite.Block.{write_bytes_lem}
use file_system_implementati.Examples.{sb, zeros, no_inode, root, inode_map, block_map, no_entry}

abbrev a_path : Bytes
a_path = b'/' ∷ b'a' ∷ []

abbrev a_entry : Dirent
a_entry = record { valid = true; is_dir = false; inode = 2; name = b'a' ∷ replicate 27 0 }

abbrev a_inode : Inode
a_inode = record no_inode {
  mode = 0o100644;
  size = pos 5;
  direct = 5 ∷ replicate 5 0;
  indir_1 = 1;
  indir_2 = 2;
}

abbrev a_block : Bytes
a_block = 10 ∷ 20 ∷ 30 ∷ 40 ∷ 50 ∷ replicate 1019 0

abbrev super_block : Bytes
super_block = encode_super sb

-- A table whose 256 addresses are 1.
abbrev ones : Bytes
ones = encode_addrs (replicate 256 1)

abbrev with_file : Fs memory
with_file = record {
  sb = sb;
  inode_map = inode_map;
  block_map = block_map;
  inodes = no_inode ∷ root ∷ a_inode ∷ replicate 13 no_inode;
  disk =
      super_block
      ∷ zeros
      ∷ ones
      ∷ zeros
      ∷ encode_dir (a_entry ∷ replicate 31 no_entry)
      ∷ a_block
      ∷ [];
}

a_found : translate with_file a_path ≡ ok 2
unfolding inode_at translate walk skip_dot parse lookup read_dir find_entry decode_dir matches
    memory_read encode_dir
a_found = refl

a-Opens : Opens with_file a_path 2 a_inode 5
unfolding inode_at
a-Opens = record { found = a_found; inode = refl; is_file = refl; has_size = refl }

reads_0 : read_block with_file 0 ≡ ok super_block
unfolding read_block memory_read encode_super
reads_0 = refl

reads_1 : read_block with_file 1 ≡ ok zeros
unfolding read_block memory_read
reads_1 = refl

reads_2 : read_block with_file 2 ≡ ok ones
unfolding read_block memory_read encode_addrs
reads_2 = refl

reads_5 : read_block with_file 5 ≡ ok a_block
unfolding read_block memory_read
reads_5 = refl

length-super_block : length super_block ≡ 1024
unfolding encode_super
length-super_block = refl

HoldBlocks-replicate : (n : ℕ) → HoldBlocks with_file (replicate n 0) (replicate n super_block)
HoldBlocks-replicate zero = tt
HoldBlocks-replicate (suc n) = (reads_0, length-super_block, HoldBlocks-replicate n)

a_blocks : HoldBlocks with_file a_inode.direct (a_block ∷ replicate 5 super_block)
a_blocks = (reads_5, refl, HoldBlocks-replicate 5)

zeros_blocks : HoldBlocks with_file (decode_addrs zeros) (replicate 256 super_block)
unfolding decode_addrs
zeros_blocks = HoldBlocks-replicate 256

HoldTables-replicate :
    (n : ℕ) → HoldTables with_file (replicate n 1) (replicate n (replicate 256 super_block))
HoldTables-replicate zero = tt
HoldTables-replicate (suc n) =
    (zeros, reads_1, length-replicate 256 super_block, zeros_blocks, HoldTables-replicate n)

ones_tables : HoldTables with_file (decode_addrs ones) (replicate 256 (replicate 256 super_block))
unfolding decode_addrs encode_addrs
ones_tables = HoldTables-replicate 256

fs_read_direct_example : fs_read with_file a_path 3 1 ≡ ok (3, 20 ∷ 30 ∷ 40 ∷ [])
unfolding concat
fs_read_direct_example =
    fs_read_direct with_file a_path 2 1 5 3 a_inode a-Opens (a_block ∷ replicate 5 super_block)
      (omega arith) (omega arith) refl (omega arith) a_blocks

fs_read_single_example : fs_read with_file a_path 9 1 ≡ ok (4, 20 ∷ 30 ∷ 40 ∷ 50 ∷ [])
unfolding concat
fs_read_single_example =
    fs_read_single with_file a_path 2 1 5 9 a_inode a-Opens (a_block ∷ replicate 5 super_block)
      (replicate 256 super_block) zeros (omega arith) (omega arith) refl
      (length-replicate 256 super_block) (omega arith) a_blocks reads_1 zeros_blocks

fs_read_double_example : fs_read with_file a_path 1 4 ≡ ok (1, 50 ∷ [])
unfolding concat
fs_read_double_example =
    fs_read_double with_file a_path 2 4 5 1 a_inode a-Opens (a_block ∷ replicate 5 super_block)
      (replicate 256 super_block) (replicate 256 (replicate 256 super_block)) zeros ones
      (omega arith) (omega arith) refl (length-replicate 256 super_block)
      (length-replicate 256 (replicate 256 super_block)) (omega arith) a_blocks reads_1 zeros_blocks
      reads_2 ones_tables

translate_iff_example :
    (translate with_file a_path ≡ ok 2) ↔ Leads with_file root_inode (skip_dot (parse a_path)) 2
translate_iff_example = translate_iff with_file a_path 2 (omega arith)

translate-err_iff_example :
    (translate with_file a_path ≡ err enoent)
    ↔ Stuck with_file root_inode (skip_dot (parse a_path)) enoent
translate-err_iff_example = translate-err_iff with_file a_path enoent

-- Two bytes at offset 1025, of which 1024 are already counted.
write_bytes_lem_example :
    write_bytes 1025
      (10 ∷ 20 ∷ 30 ∷ 40 ∷ [])
      (record { buf = 1 ∷ 2 ∷ []; offset_cnt = 1024; cnt = 0 })
    ≡ (10 ∷ 1 ∷ 2 ∷ 40 ∷ [], record { buf = []; offset_cnt = 1025; cnt = 2 })
write_bytes_lem_example =
    write_bytes_lem 1 1025 0 1024 (10 ∷ 20 ∷ 30 ∷ 40 ∷ []) (1 ∷ 2 ∷ []) (omega arith) (omega arith)
      (omega arith)
