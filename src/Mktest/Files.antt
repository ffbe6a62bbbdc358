-- ===== src/Mktest/Files.antt =====
-- The files and directories of mktest.c, one function for each, and main.
use file_system_implementati.Base.{
  ℕ, zero, suc, ◌+◌, ◌*◌, ◌/◌, Bool, true, false, List, [], ◌∷◌, ◌++◌, map, take, drop, replicate,
  list_eq, if◌then◌else◌,
}
use file_system_implementati.Outcome.{Outcome, ok, exit}
use file_system_implementati.Outcome
use file_system_implementati.Exec.{Exec, pure, query, ◌>>=◌, ◌>>◌}
use file_system_implementati.Layout.{Bytes, Super, fs_block_size, fs_magic, le_bytes}
use file_system_implementati.Mkfs.{encode_super}
use file_system_implementati.Mktest.{
  Maker, alloc, next_inum, put, mark, block_of, put_entry, put_inode, fill, count_up, put_blocks,
  copy_blocks, mark_from,
}

-- `int t = 0x50000000;`
abbrev pub t_0 : ℕ
t_0 = 0x50000000

abbrev pub n_blks : ℕ
n_blks = 1024

abbrev pub test_super : Super
test_super = record {
  magic = fs_magic;
  inode_map_sz = 1;
  inode_region_sz = 64 * 64 / fs_block_size;
  block_map_sz = 1;
  num_blocks = n_blks;
  root_inode = 1;
}

-- "file."
abbrev pub file_dot : Bytes
file_dot = b'f' ∷ b'i' ∷ b'l' ∷ b'e' ∷ b'.' ∷ []

abbrev pub dir1 : Bytes
dir1 = b'd' ∷ b'i' ∷ b'r' ∷ b'1' ∷ []

-- The superblock.
unfoldable pub make_super : ℕ → Exec Maker (Unit {0})
make_super inode_map = do put 0 (encode_super test_super); mark inode_map 0

-- The root directory; its block is returned.
unfoldable pub make_root : ℕ → ℕ → Exec Maker ℕ
make_root inode_map inodes = do
  root_inum ← next_inum
  mark inode_map root_inum
  root_de ← alloc 1
  put_inode inodes root_inum 0o40777 t_0 1024 (block_of root_de ∷ replicate 5 0) 0
  pure root_de

-- "/file.A"; the number of its inode is returned.
unfoldable pub make_file_a : ℕ → ℕ → Exec Maker ℕ
make_file_a inodes root_de = do
  f1_inode ← next_inum
  put_entry root_de 0 false false 1717 (file_dot ++ (b'A' ∷ []))
  put_entry root_de 1 true false f1_inode (file_dot ++ (b'A' ∷ []))
  f1_ptr ← alloc 1
  fill f1_ptr b'A' 1000
  put_inode inodes f1_inode 0o100777 (t_0 + 200) 1000 (block_of f1_ptr ∷ replicate 5 0) 0
  pure f1_inode

-- "/dir1"; its block is returned.
unfoldable pub make_dir1 : ℕ → ℕ → ℕ → Exec Maker ℕ
make_dir1 inodes root_de f1_inode = do
  d1_inode ← next_inum
  put_entry root_de 3 false true f1_inode dir1
  put_entry root_de 5 true true d1_inode dir1
  d1_de ← alloc 1
  put_inode inodes d1_inode 0o40755 (t_0 + 400) 1024 (block_of d1_de ∷ replicate 5 0) 0
  pure d1_de

-- "/dir1/file.2"
unfoldable pub make_file_2 : ℕ → ℕ → Exec Maker (Unit {0})
make_file_2 inodes d1_de = do
  f2_inode ← next_inum
  f2_ptr ← alloc 1
  f2_ptr2 ← alloc 1
  put_entry d1_de 3 true false f2_inode (file_dot ++ (b'2' ∷ []))
  fill f2_ptr b'2' (2 * fs_block_size)
  put_inode inodes f2_inode 0o100777 (t_0 + 200) 2012
      (block_of f2_ptr2 ∷ block_of f2_ptr ∷ replicate 4 0) 0

-- "/dir1/file.0"
unfoldable pub make_file_0 : ℕ → ℕ → Exec Maker (Unit {0})
make_file_0 inodes d1_de = do
  f3_inode ← next_inum
  put_entry d1_de 4 true false f3_inode (file_dot ++ (b'0' ∷ []))
  put_inode inodes f3_inode 0o100777 (t_0 + 200) 0 (replicate 6 0) 0

-- "/file.7". An element of `direct` is 20 bytes behind the start of its inode.
unfoldable pub make_file_7 : ℕ → ℕ → Exec Maker (Unit {0})
make_file_7 inodes root_de = do
  f4_inode ← next_inum
  f4_indir ← alloc 1
  f4_data ← alloc 7
  put_entry root_de 6 true false f4_inode (file_dot ++ (b'7' ∷ []))
  put_inode inodes f4_inode 0o100777 (t_0 + 300) (6 * 1024 + 500) (replicate 6 0)
      (block_of f4_indir)
  count_up 6 (inodes + f4_inode * 64 + 20) (block_of f4_data)
  put f4_indir (le_bytes 4 (block_of f4_data + 6))
  fill f4_data b'4' (6 * 1024 + 500)

-- `n` copies of "1234567"
unfoldable pub sevens : ℕ → Bytes
sevens zero = []
sevens (suc n) = b'1' ∷ b'2' ∷ b'3' ∷ b'4' ∷ b'5' ∷ b'6' ∷ b'7' ∷ sevens n

-- Where the ten blocks of "/file.10" are, behind `ptr`.
abbrev pub scattered : ℕ → List ℕ
scattered ptr = map (λ k. ptr + k * fs_block_size) (5 ∷ 0 ∷ 7 ∷ 1 ∷ 9 ∷ 4 ∷ 3 ∷ 2 ∷ 8 ∷ 6 ∷ [])

-- "/file.10". `rest` is what malloc left in the last six bytes of f10_data.
unfoldable pub make_file_10 : Bytes → ℕ → ℕ → Exec Maker (Unit {0})
make_file_10 rest inodes root_de = do
  f10_inum ← next_inum
  f10_indir ← alloc 1
  ptr ← alloc 10
  copy_blocks (scattered ptr) (sevens 1462 ++ rest)
  put_blocks f10_indir (drop 6 (scattered ptr))
  put_inode inodes f10_inum 0o100777 (t_0 + 300) (1462 * 7) (map block_of (take 6 (scattered ptr)))
      (block_of f10_indir)
  put_entry root_de 12 true false f10_inum (file_dot ++ (b'1' ∷ b'0' ∷ []))

-- The blocks of "/dir1/file.270" and the tables of their numbers. `indir_1` and `indir_2` are 44 and
-- 48 bytes behind the start of the inode.
unfoldable pub fill_270 : ℕ → ℕ → ℕ → ℕ → ℕ → ℕ → Exec Maker (Unit {0})
fill_270 inodes f5_inode f5_indir1 f5_indir2 f5_indir2_0 f5_data = do
  count_up 6 (inodes + f5_inode * 64 + 20) (block_of f5_data)
  put (inodes + f5_inode * 64 + 44) (le_bytes 4 (block_of f5_indir1))
  count_up 256 f5_indir1 (block_of f5_data + 6)
  put (inodes + f5_inode * 64 + 48) (le_bytes 4 (block_of f5_indir2))
  put f5_indir2 (le_bytes 4 (block_of f5_indir2_0))
  count_up 8 f5_indir2_0 (block_of f5_data + 262)
  fill f5_data b'K' (269 * 1024 + 721)

-- "/dir1/file.270"
unfoldable pub make_file_270 : ℕ → ℕ → Exec Maker (Unit {0})
make_file_270 inodes d1_de = do
  f5_inode ← next_inum
  f5_indir1 ← alloc 1
  f5_indir2 ← alloc 1
  f5_indir2_0 ← alloc 1
  f5_data ← alloc 270
  put_entry d1_de 6 true false f5_inode (file_dot ++ (b'2' ∷ b'7' ∷ b'0' ∷ []))
  put_inode inodes f5_inode 0o100777 (t_0 + 300) (269 * 1024 + 721) (replicate 6 0) 0
  fill_270 inodes f5_inode f5_indir1 f5_indir2 f5_indir2_0 f5_data

-- The files in the order of main; the extra one only with "-extra".
unfoldable pub make_files : Bool → Bytes → ℕ → ℕ → Exec Maker (Unit {0})
make_files extra rest inodes root_de = do
  f1_inode ← make_file_a inodes root_de
  d1_de ← make_dir1 inodes root_de f1_inode
  make_file_2 inodes d1_de
  make_file_0 inodes d1_de
  make_file_7 inodes root_de
  if extra then make_file_10 rest inodes root_de else pure tt
  make_file_270 inodes d1_de

unfoldable pub make_all : Bool → Bytes → Exec Maker (Unit {0})
make_all extra rest = do
  inode_map ← alloc 1
  block_map ← alloc 1
  make_super inode_map
  inodes ← alloc 4
  root_de ← make_root inode_map inodes
  make_files extra rest inodes root_de
  m ← query ok
  mark_from inode_map 0 m.inum
  mark_from block_map 0 (block_of m.ptr)

abbrev pub empty_disk : Maker
empty_disk = record { disk = replicate (n_blks * fs_block_size) 0; ptr = fs_block_size; inum = 1 }

-- The image.
unfoldable pub mktest : Bool → Bytes → Outcome Bytes
mktest extra rest = let (r, m) = make_all extra rest empty_disk in Outcome.◌>>=◌ r λ _. ok m.disk

abbrev extra_option : Bytes
extra_option = b'-' ∷ b'e' ∷ b'x' ∷ b't' ∷ b'r' ∷ b'a' ∷ []

-- `if (argc != 2) complain();`
abbrev one_file : List Bytes → Outcome Bytes
one_file (file ∷ []) = ok file
one_file _ = exit

-- main: from its arguments to the name of the file and the image that it writes there.
unfoldable pub mktest_main : Bytes → List Bytes → Outcome (Bytes × Bytes)
mktest_main rest [] = exit
mktest_main rest (arg ∷ args) =
    let extra = list_eq arg extra_option in
    Outcome.◌>>=◌ (one_file (if extra then args else arg ∷ args))
      λ file. Outcome.◌>>=◌ (mktest extra rest) λ image. ok (file, image)
