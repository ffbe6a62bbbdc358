-- ===== src/Layout.antt =====
-- fsx600.h: the constants, the on-disk structures and the bytes that they are stored as. The
-- compiler's layout is little-endian, with the first bit-field in the lowest bits.
pub mod Words
pub mod Codec
pub mod Bounds
use file_system_implementati.Base.{
  ℕ, zero, suc, ◌+◌, ◌*◌, ◌/◌, ◌%◌, Bool, List, [], ◌∷◌, ◌++◌, map, ◌==◌, if◌then◌else◌, take, drop,
}
use file_system_implementati.Base.Int.{ℤ, signed32, pattern32}

abbrev pub Bytes : Type 0
Bytes = List ℕ

abbrev pub fs_block_size : ℕ
fs_block_size = 1024

abbrev pub fs_magic : ℕ
fs_magic = 0x37363030

abbrev pub n_direct : ℕ
n_direct = 6

abbrev pub inodes_per_blk : ℕ
inodes_per_blk = fs_block_size / 64

-- `struct fs_dirent`; `name` is the whole array of 28 bytes.
pub record Dirent : Type 0 where
  pub valid : Bool
  pub is_dir : Bool
  pub inode : ℕ
  pub name : Bytes

-- `struct fs_super`, without its padding, which nothing reads or writes.
pub record Super : Type 0 where
  pub magic : ℕ
  pub inode_map_sz : ℕ
  pub inode_region_sz : ℕ
  pub block_map_sz : ℕ
  pub num_blocks : ℕ
  pub root_inode : ℕ

-- `struct fs_inode`
pub record Inode : Type 0 where
  pub uid : ℕ
  pub gid : ℕ
  pub mode : ℕ
  pub ctime : ℕ
  pub mtime : ℕ
  pub size : ℤ
  pub direct : List ℕ
  pub indir_1 : ℕ
  pub indir_2 : ℕ
  pub pad : List ℕ

-- `n` bytes of a number, lowest first, and the number that bytes stand for.
unfoldable pub le_bytes : ℕ → ℕ → Bytes
le_bytes zero w = []
le_bytes (suc n) w = (w % 256) ∷ le_bytes n (w / 256)

unfoldable pub le_value : Bytes → ℕ
le_value [] = 0
le_value (b ∷ bs) = b + 256 * le_value bs

-- The `n` elements of `k` bytes each that an array starts with.
unfoldable pub chunks : ℕ → ℕ → Bytes → List Bytes
chunks zero k b = []
chunks (suc n) k b = take k b ∷ chunks n k (drop k b)

unfoldable pub concat : List Bytes → Bytes
concat [] = []
concat (b ∷ bs) = b ++ concat bs

abbrev pub bit_of : Bool → ℕ
bit_of b = if b then 1 else 0

unfoldable pub encode_dirent : Dirent → Bytes
unfolding le_bytes
encode_dirent d = le_bytes 4 (bit_of d.valid + 2 * bit_of d.is_dir + 4 * d.inode) ++ d.name

-- The three bit-fields of the first word, and the name.
abbrev pub dirent_of : ℕ → Bytes → Dirent
dirent_of w name = record {
  valid = w % 2 == 1;
  is_dir = w / 2 % 2 == 1;
  inode = w / 4;
  name = name;
}

unfoldable pub decode_dirent : Bytes → Dirent
unfolding le_value
decode_dirent b = dirent_of (le_value (take 4 b)) (take 28 (drop 4 b))

-- A directory block is an array of 32 entries.
unfoldable pub decode_dir : Bytes → List Dirent
unfolding chunks decode_dirent
decode_dir b = map decode_dirent (chunks 32 32 b)

unfoldable pub encode_dir : List Dirent → Bytes
unfolding concat encode_dirent
encode_dir ds = concat (map encode_dirent ds)

-- An indirect block is an array of 256 block numbers.
unfoldable pub decode_addrs : Bytes → List ℕ
unfolding chunks le_value
decode_addrs b = map le_value (chunks 256 4 b)

unfoldable pub encode_addrs : List ℕ → Bytes
unfolding concat le_bytes
encode_addrs addrs = concat (map (le_bytes 4) addrs)

unfoldable pub decode_super : Bytes → Super
unfolding le_value
decode_super b = record {
  magic = le_value (take 4 b);
  inode_map_sz = le_value (take 4 (drop 4 b));
  inode_region_sz = le_value (take 4 (drop 8 b));
  block_map_sz = le_value (take 4 (drop 12 b));
  num_blocks = le_value (take 4 (drop 16 b));
  root_inode = le_value (take 4 (drop 20 b));
}

-- The fields in order.
unfoldable pub inode_parts : Inode → List Bytes
unfolding le_bytes concat
inode_parts i =
    le_bytes 2 i.uid
    ∷ le_bytes 2 i.gid
    ∷ le_bytes 4 i.mode
    ∷ le_bytes 4 i.ctime
    ∷ le_bytes 4 i.mtime
    ∷ le_bytes 4 (pattern32 i.size)
    ∷ concat (map (le_bytes 4) i.direct)
    ∷ le_bytes 4 i.indir_1
    ∷ le_bytes 4 i.indir_2
    ∷ concat (map (le_bytes 4) i.pad)
    ∷ []

unfoldable pub encode_inode : Inode → Bytes
unfolding inode_parts
encode_inode i = concat (inode_parts i)

unfoldable pub decode_inode : Bytes → Inode
unfolding le_value chunks
decode_inode b = record {
  uid = le_value (take 2 b);
  gid = le_value (take 2 (drop 2 b));
  mode = le_value (take 4 (drop 4 b));
  ctime = le_value (take 4 (drop 8 b));
  mtime = le_value (take 4 (drop 12 b));
  size = signed32 (le_value (take 4 (drop 16 b)));
  direct = map le_value (chunks n_direct 4 (drop 20 b));
  indir_1 = le_value (take 4 (drop 44 b));
  indir_2 = le_value (take 4 (drop 48 b));
  pad = map le_value (chunks 3 4 (drop 52 b));
}

unfoldable pub decode_inodes : ℕ → Bytes → List Inode
unfolding chunks decode_inode
decode_inodes n b = map decode_inode (chunks n 64 b)

unfoldable pub encode_inodes : List Inode → Bytes
unfolding concat encode_inode
encode_inodes nodes = concat (map encode_inode nodes)
