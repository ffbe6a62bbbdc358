-- ===== src/Mkfs.antt =====
-- main of mkfs-hw3.c from the size of the disk on: the image that it writes. `disk` is one array
-- of bytes, and the pointers into it are offsets.
pub mod Stores
pub mod Maps
pub mod Arguments
pub mod Bytewise
pub mod Blocks
pub mod Mounts
use file_system_implementati.Base.{
  ℕ, zero, suc, ◌+◌, ◌-◌, ◌*◌, ◌/◌, ◌%◌, ◌^◌, [], ◌∷◌, ◌++◌, leb, ◌==◌, length, take, drop,
  replicate, if◌then◌else◌,
}
use file_system_implementati.Base.Int.{pos}
use file_system_implementati.Outcome.{Outcome, ok, exit, fault, ◌>>=◌}
use file_system_implementati.Layout.{
  Bytes, Super, Inode, fs_block_size, fs_magic, le_bytes, concat, encode_inode,
}
use file_system_implementati.Bitmap.{bit_set}

abbrev pub div_round_up : ℕ → ℕ → ℕ
div_round_up n m = (n + m - 1) / m

-- Where everything goes on a disk of `size` bytes.
pub record Geometry : Type 0 where
  pub n_blks : ℕ
  pub n_map_blks : ℕ
  pub n_ino_map_blks : ℕ
  pub n_ino_blks : ℕ
  pub inode_map_base : ℕ
  pub block_map_base : ℕ
  pub inode_base : ℕ
  pub rootdir_base : ℕ

unfoldable pub geometry : ℕ → Geometry
geometry size =
    let n_blks = size / fs_block_size in
    let n_map_blks = div_round_up n_blks (8 * fs_block_size) in
    let n_inos = n_blks / 4 in
    let n_ino_map_blks = div_round_up n_inos (8 * fs_block_size) in
    let n_ino_blks = div_round_up (n_inos * 64) fs_block_size in
    record {
      n_blks = n_blks;
      n_map_blks = n_map_blks;
      n_ino_map_blks = n_ino_map_blks;
      n_ino_blks = n_ino_blks;
      inode_map_base = 1;
      block_map_base = 1 + n_ino_map_blks;
      inode_base = 1 + n_ino_map_blks + n_map_blks;
      rootdir_base = 1 + n_ino_map_blks + n_map_blks + n_ino_blks;
    }

-- A structure stored at an offset.
unfoldable pub store : Bytes → ℕ → Bytes → Outcome Bytes
store disk off b =
    if leb (off + length b) (length disk)
    then ok (take off disk ++ (b ++ drop (off + length b) disk))
    else fault

unfoldable pub encode_super : Super → Bytes
unfolding le_bytes concat
encode_super sb = concat (
    le_bytes 4 sb.magic
    ∷ le_bytes 4 sb.inode_map_sz
    ∷ le_bytes 4 sb.inode_region_sz
    ∷ le_bytes 4 sb.block_map_sz
    ∷ le_bytes 4 sb.num_blocks
    ∷ le_bytes 4 sb.root_inode
    ∷ replicate (fs_block_size - 24) 0
    ∷ [])

-- bit_set(disk + base * FS_BLOCK_SIZE, i)
unfoldable pub bit_set_at : Bytes → ℕ → ℕ → Outcome Bytes
unfolding bit_set
bit_set_at disk base i = bit_set disk (base * fs_block_size * 8 + i)

-- `n` rounds of the loop that marks the blocks in use, from block `i` on.
unfoldable pub mark_blocks : ℕ → ℕ → ℕ → Bytes → Outcome Bytes
unfolding bit_set_at
mark_blocks zero i base disk = ok disk
mark_blocks (suc n) i base disk =
    bit_set_at disk base i >>= λ disk'. mark_blocks n (i + 1) base disk'

abbrev pub super_of : Geometry → Super
super_of g = record {
  magic = fs_magic;
  inode_map_sz = g.n_ino_map_blks;
  inode_region_sz = g.n_ino_blks;
  block_map_sz = g.n_map_blks;
  num_blocks = g.n_blks;
  root_inode = 1;
}

abbrev pub root_of : Geometry → ℕ → Inode
root_of g t = record {
  uid = 1001;
  gid = 125;
  mode = 0o40777;
  ctime = t % 2 ^ 32;
  mtime = t % 2 ^ 32;
  size = pos 1024;
  direct = g.rootdir_base ∷ replicate 5 0;
  indir_1 = 0;
  indir_2 = 0;
  pad = replicate 3 0;
}

-- The image for a disk of `size` bytes made at time `t`. A size of 0 and a failed `assert` end the
-- process before anything is written.
unfoldable pub mkfs : ℕ → ℕ → Outcome Bytes
unfolding geometry store encode_super bit_set_at mark_blocks encode_inode
mkfs t size =
    let g = geometry size in
    if size == 0
    then exit
    else (store (replicate (g.n_blks * fs_block_size) 0) 0 (encode_super (super_of g)) >>= λ d.
        bit_set_at d g.inode_map_base 0 >>= λ d'. bit_set_at d' g.inode_map_base 1 >>= λ d''.
        mark_blocks (g.rootdir_base + 1) 0 g.block_map_base d'' >>= λ e.
        store e (g.inode_base * fs_block_size + 64) (encode_inode (root_of g t)) >>= λ image.
        if size == g.n_blks * fs_block_size then ok image else exit)
