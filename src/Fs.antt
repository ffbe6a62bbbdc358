-- ===== src/Fs.antt =====
-- The state of homework.c, its start-up, and the accesses that its functions share.
pub mod Sync
use file_system_implementati.Base.{
  ℕ, ◌+◌, ◌*◌, ◌/◌, ◌%◌, ◌^◌, Bool, true, false, List, [], ◌∷◌, ◌++◌, get_elem?, get_or, set, drop,
  length, ltb, ◌==◌, if◌then◌else◌,
}
use file_system_implementati.Outcome
use file_system_implementati.Outcome.{Outcome, ok, err, exit, fault, hang, in_bounds, or_exit}
use file_system_implementati.Exec.{Exec, continue, query, ◌>>=◌, ◌>>◌}
use file_system_implementati.Layout.{
  Bytes, Super, Inode, Dirent, fs_block_size, inodes_per_blk, decode_dir, decode_super,
  decode_inodes, encode_inodes,
}
use file_system_implementati.Device.{BlockDevice}
use file_system_implementati.Bitmap.{bit_set, bit_clear, first_clear}

-- The global variables, and the disk behind the device. `inodes` has the elements that
-- `inode_region_sz` blocks hold.
pub record Fs (dev : BlockDevice) : Type 0 where
  pub sb : Super
  pub inode_map : Bytes
  pub block_map : Bytes
  pub inodes : List Inode
  pub disk : dev.Disk

abbrev pub root_inode : ℕ
root_inode = 1

-- S_ISDIR: the four bits of S_IFMT are those of S_IFDIR.
abbrev pub s_isdir : ℕ → Bool
s_isdir mode = mode / 4096 % 16 == 4

abbrev pub s_ifdir : ℕ
s_ifdir = 0o40000

abbrev pub s_ifreg : ℕ
s_ifreg = 0o100000

abbrev pub direct_0 : Inode → ℕ
direct_0 i = get_or i.direct 0 0

-- The C string in a char array: the bytes before the first NUL.
unfoldable pub c_string : Bytes → Bytes
c_string [] = []
c_string (c ∷ cs) = elim (c == 0) [ true ↦ [] | false ↦ c ∷ c_string cs ]

-- strcpy into an array: the string, a NUL, and what stood behind them before.
unfoldable pub strcpy : Bytes → Bytes → Bytes
strcpy dst src = src ++ (0 ∷ drop (length src + 1) dst)

-- Where the disk regions start.
abbrev pub block_map_base : Super → ℕ
block_map_base sb = 1 + sb.inode_map_sz

abbrev pub inode_base : Super → ℕ
inode_base sb = 1 + sb.inode_map_sz + sb.block_map_sz

-- malloc(sz * FS_BLOCK_SIZE), whose `uint32_t` product wraps, then block_read of `sz` blocks.
unfoldable pub load_region : (dev : BlockDevice) → dev.Disk → ℕ → ℕ → Outcome Bytes
load_region dev disk lba sz =
    if ltb ((sz * fs_block_size) % 2 ^ 32) (sz * fs_block_size)
    then fault
    else or_exit (dev.block_read disk lba sz)

unfoldable pub fs_init : (dev : BlockDevice) → dev.Disk → Outcome (Fs dev)
fs_init dev disk = Outcome.◌>>=◌ (or_exit (dev.block_read disk 0 1)) λ b.
    let sb = decode_super b in
    Outcome.◌>>=◌ (load_region dev disk 1 sb.inode_map_sz) λ inode_map.
      Outcome.◌>>=◌ (load_region dev disk (block_map_base sb) sb.block_map_sz) λ block_map.
        Outcome.◌>>=◌ (load_region dev disk (inode_base sb) sb.inode_region_sz) λ inodes.
          ok (record {
            sb = sb;
            inode_map = inode_map;
            block_map = block_map;
            inodes = decode_inodes (sb.inode_region_sz * inodes_per_blk) inodes;
            disk = disk;
          })

abbrev pub written : Bool → Outcome (Unit {0})
written done = if done then ok tt else exit

-- The `unsigned` product wraps before the division.
abbrev pub num_inodes : Super → ℕ
num_inodes sb = (sb.inode_region_sz * fs_block_size) % 2 ^ 32 / 64

module _ {dev : BlockDevice} where
  -- `inodes[i]`
  unfoldable pub inode_at : Fs dev → ℕ → Outcome Inode
  inode_at fs i = in_bounds (get_elem? fs.inodes i)

  unfoldable pub update_inode : ℕ → (Inode → Inode) → Exec (Fs dev) (Unit {0})
  update_inode i f fs =
      continue (in_bounds (get_elem? fs.inodes i))
        (λ x s. (ok tt, record s { inodes = set s.inodes i (f x) })) fs

  -- `if (block_read(…, b, 1) < 0) exit(1);`
  unfoldable pub read_block : Fs dev → ℕ → Outcome Bytes
  read_block fs b = or_exit (dev.block_read fs.disk b 1)

  unfoldable pub read_dir : Fs dev → ℕ → Outcome (List Dirent)
  unfolding read_block
  read_dir fs b = Outcome.◌>>=◌ (read_block fs b) λ b'. ok (decode_dir b')

  unfoldable pub write_region : Bytes → ℕ → ℕ → Exec (Fs dev) (Unit {0})
  write_region bytes lba n fs =
      let (done, disk) = dev.block_write fs.disk bytes lba n in
      (written done, record fs { disk = disk })

  -- `if (block_write(…, b, 1) < 0) exit(1);`
  unfoldable pub write_block : Bytes → ℕ → Exec (Fs dev) (Unit {0})
  unfolding write_region
  write_block bytes b = write_region bytes b 1

  -- `block_write(…, b, 1);`
  unfoldable pub write_block_unchecked : Bytes → ℕ → Exec (Fs dev) (Unit {0})
  write_block_unchecked bytes b fs =
      (ok tt, record fs { disk = (dev.block_write fs.disk bytes b 1).1 })

  unfoldable pub set_inode_bit : ℕ → Exec (Fs dev) (Unit {0})
  set_inode_bit i fs =
      continue (bit_set fs.inode_map i) (λ m s. (ok tt, record s { inode_map = m })) fs

  unfoldable pub clear_inode_bit : ℕ → Exec (Fs dev) (Unit {0})
  clear_inode_bit i fs =
      continue (bit_clear fs.inode_map i) (λ m s. (ok tt, record s { inode_map = m })) fs

  unfoldable pub set_block_bit : ℕ → Exec (Fs dev) (Unit {0})
  set_block_bit i fs =
      continue (bit_set fs.block_map i) (λ m s. (ok tt, record s { block_map = m })) fs

  unfoldable pub clear_block_bit : ℕ → Exec (Fs dev) (Unit {0})
  clear_block_bit i fs =
      continue (bit_clear fs.block_map i) (λ m s. (ok tt, record s { block_map = m })) fs

  unfoldable pub get_next_inode : Fs dev → Outcome ℕ
  get_next_inode fs = first_clear fs.inode_map (num_inodes fs.sb) 0

  unfoldable pub get_next_block : Fs dev → Outcome ℕ
  get_next_block fs = first_clear fs.block_map fs.sb.num_blocks 0

  unfoldable pub update_disk : Exec (Fs dev) (Unit {0})
  unfolding write_region
  update_disk = do
    fs ← query ok
    write_region fs.inode_map 1 fs.sb.inode_map_sz
    write_region fs.block_map (block_map_base fs.sb) fs.sb.block_map_sz
    write_region (encode_inodes fs.inodes) (inode_base fs.sb) fs.sb.inode_region_sz
