-- ===== src/Fs/Sync.antt =====
-- fs_init and update_disk against one another: what the tables in memory and on the disk have to do
-- with each other.
use file_system_implementati.Base.{
  ℕ, ◌+◌, ◌*◌, ◌^◌, ◌≤◌, ◌<◌, ◌≡◌, ap, sym, ◌∙◌, inl, inr, some, length, All, arith,
}
use file_system_implementati.Outcome.{ok}
use file_system_implementati.Exec.{◌>>=◌}
use file_system_implementati.Layout.{Bytes, Super, decode_super, decode_inodes, encode_inodes}
use file_system_implementati.Layout.Codec.{
  IsInode, decode_inodes-encode_inodes, length-encode_inodes, AreBytes-encode_inodes,
}
use file_system_implementati.Device.{AreBytes, BlockDevice, IsDevice}
use file_system_implementati.Fs.{
  Fs, block_map_base, inode_base, load_region, fs_init, write_region, update_disk,
}

-- The tables in memory have the sizes that the superblock gives, hold values of their C types, and
-- have room on the disk.
pub record IsWf {dev : BlockDevice} (fs : Fs dev) : Type 0 where
  pub inode_map_length : length fs.inode_map ≡ fs.sb.inode_map_sz * 1024
  pub inode_map_bytes : AreBytes fs.inode_map
  pub block_map_length : length fs.block_map ≡ fs.sb.block_map_sz * 1024
  pub block_map_bytes : AreBytes fs.block_map
  pub inodes_length : length fs.inodes ≡ fs.sb.inode_region_sz * 16
  pub inodes_ok : All IsInode fs.inodes
  pub inode_map_small : fs.sb.inode_map_sz < 2 ^ 22
  pub block_map_small : fs.sb.block_map_sz < 2 ^ 22
  pub inodes_small : fs.sb.inode_region_sz < 2 ^ 22
  pub num_blocks_32 : fs.sb.num_blocks < 2 ^ 32
  pub fits : inode_base fs.sb + fs.sb.inode_region_sz ≤ dev.blocks fs.disk

-- Block 0 holds the superblock.
pub record HasSuper (dev : BlockDevice) (d : dev.Disk) (sb : Super) : Type 0 where
  pub block : Bytes
  pub stored : dev.block_read d 0 1 ≡ some block
  pub super : decode_super block ≡ sb

-- The disk after the three writes of update_disk.
module _ {dev : BlockDevice} (io : IsDevice dev) (fs : Fs dev) (wf : IsWf fs) where
  abbrev disk_1 : dev.Disk
  disk_1 = (dev.block_write fs.disk fs.inode_map 1 fs.sb.inode_map_sz).1

  abbrev disk_2 : dev.Disk
  disk_2 = (dev.block_write disk_1 fs.block_map (block_map_base fs.sb) fs.sb.block_map_sz).1

  abbrev table : Bytes
  table = encode_inodes fs.inodes

  abbrev disk_3 : dev.Disk
  disk_3 = (dev.block_write disk_2 table (inode_base fs.sb) fs.sb.inode_region_sz).1

  table-length : length table ≡ fs.sb.inode_region_sz * 1024
  table-length = omega (arith, length-encode_inodes fs.inodes wf.inodes_ok, wf.inodes_length)

  blocks_1 : dev.blocks disk_1 ≡ dev.blocks fs.disk
  blocks_1 = io.blocks-write fs.disk fs.inode_map 1 _ (omega (arith, wf.fits)) wf.inode_map_length

  blocks_2 : dev.blocks disk_2 ≡ dev.blocks fs.disk
  blocks_2 =
      io.blocks-write disk_1 fs.block_map (block_map_base fs.sb) _
        (omega (arith, wf.fits, blocks_1)) wf.block_map_length
      ∙ blocks_1

  update_disk_runs : update_disk fs ≡ (ok tt, record fs { disk = disk_3 })
  unfolding update_disk write_region ◌>>=◌
  update_disk_runs = ground (
    arith,
    io.writes fs.disk fs.inode_map 1 fs.sb.inode_map_sz (omega (arith, wf.fits))
        wf.inode_map_length,
    io.writes disk_1 fs.block_map (block_map_base fs.sb) fs.sb.block_map_sz
        (omega (arith, wf.fits, blocks_1)) wf.block_map_length,
    io.writes disk_2 table (inode_base fs.sb) fs.sb.inode_region_sz
        (omega (arith, wf.fits, blocks_2)) table-length,
  )

  -- What is read back, region by region.
  unread_3 :
      (i k : ℕ) → i + k ≤ inode_base fs.sb → dev.block_read disk_3 i k ≡ dev.block_read disk_2 i k
  unread_3 i k h =
      io.read-write_apart disk_2 table (inode_base fs.sb) fs.sb.inode_region_sz i k
        (omega (arith, wf.fits, blocks_2)) table-length (omega (arith, wf.fits, blocks_2, h))
        (inl h)

  unread_2 :
      (i k : ℕ)
      → i + k ≤ block_map_base fs.sb
      → dev.block_read disk_2 i k ≡ dev.block_read disk_1 i k
  unread_2 i k h =
      io.read-write_apart disk_1 fs.block_map (block_map_base fs.sb) fs.sb.block_map_sz i k
        (omega (arith, wf.fits, blocks_1)) wf.block_map_length (omega (arith, wf.fits, blocks_1, h))
        (inl h)

  unread_1 : dev.block_read disk_1 0 1 ≡ dev.block_read fs.disk 0 1
  unread_1 =
      io.read-write_apart fs.disk fs.inode_map 1 fs.sb.inode_map_sz 0 1 (omega (arith, wf.fits))
        wf.inode_map_length (omega (arith, wf.fits)) (inl (omega arith))

  read_super : dev.block_read disk_3 0 1 ≡ dev.block_read fs.disk 0 1
  read_super = unread_3 0 1 (omega arith) ∙ unread_2 0 1 (omega arith) ∙ unread_1

  read_inode_map : dev.block_read disk_3 1 fs.sb.inode_map_sz ≡ some fs.inode_map
  read_inode_map =
      unread_3 1 fs.sb.inode_map_sz (omega arith)
      ∙ unread_2 1 fs.sb.inode_map_sz (omega arith)
      ∙ io.read-write_self fs.disk fs.inode_map 1 fs.sb.inode_map_sz (omega (arith, wf.fits))
          wf.inode_map_length wf.inode_map_bytes

  read_block_map :
      dev.block_read disk_3 (block_map_base fs.sb) fs.sb.block_map_sz ≡ some fs.block_map
  read_block_map =
      unread_3 (block_map_base fs.sb) fs.sb.block_map_sz (omega arith)
      ∙ io.read-write_self disk_1 fs.block_map (block_map_base fs.sb) fs.sb.block_map_sz
          (omega (arith, wf.fits, blocks_1)) wf.block_map_length wf.block_map_bytes

  read_inodes : dev.block_read disk_3 (inode_base fs.sb) fs.sb.inode_region_sz ≡ some table
  read_inodes =
      io.read-write_self disk_2 table (inode_base fs.sb) fs.sb.inode_region_sz
        (omega (arith, wf.fits, blocks_2)) table-length (AreBytes-encode_inodes fs.inodes)

pub load_region_ok :
    (dev : BlockDevice) (d : dev.Disk) (lba sz : ℕ) {b : Bytes}
    → sz < 2 ^ 22
    → dev.block_read d lba sz ≡ some b
    → load_region dev d lba sz ≡ ok b
unfolding load_region
load_region_ok dev d lba sz h e = ground arith

pub fs_init-eq-ok :
    (dev : BlockDevice) (d : dev.Disk) (sb : Super) {b inode_map block_map table : Bytes}
    → dev.block_read d 0 1 ≡ some b
    → decode_super b ≡ sb
    → load_region dev d 1 sb.inode_map_sz ≡ ok inode_map
    → load_region dev d (block_map_base sb) sb.block_map_sz ≡ ok block_map
    → load_region dev d (inode_base sb) sb.inode_region_sz ≡ ok table
    → fs_init dev d
      ≡ ok (record {
        sb = sb;
        inode_map = inode_map;
        block_map = block_map;
        inodes = decode_inodes (sb.inode_region_sz * 16) table;
        disk = d;
      })
unfolding fs_init
fs_init-eq-ok dev d sb e0 es e1 e2 e3 = rw (e0, es, e1, e2, e3)

fs_init-disk_3 :
    {dev : BlockDevice} (io : IsDevice dev) (fs : Fs dev) (wf : IsWf fs)
    → HasSuper dev fs.disk fs.sb
    → fs_init dev (disk_3 io fs wf) ≡ ok (record fs { disk = disk_3 io fs wf })
fs_init-disk_3 {dev} io fs wf has =
    fs_init-eq-ok dev (disk_3 io fs wf) fs.sb (read_super io fs wf ∙ has.stored) has.super
      (load_region_ok dev _ _ _ wf.inode_map_small (read_inode_map io fs wf))
      (load_region_ok dev _ _ _ wf.block_map_small (read_block_map io fs wf))
      (load_region_ok dev _ _ _ wf.inodes_small (read_inodes io fs wf))
    ∙ ap (λ nodes. ok (record fs { inodes = nodes; disk = disk_3 io fs wf }))
        (decode_inodes-encode_inodes _ fs.inodes wf.inodes_length wf.inodes_ok)

-- On a working device, from tables that are well formed and a disk that holds their superblock,
-- update_disk succeeds, changes nothing in memory, and leaves a disk from which fs_init builds the
-- same state: a restart loses nothing.
pub fs_init-update_disk :
    {dev : BlockDevice} (io : IsDevice dev) (fs : Fs dev)
    → IsWf fs
    → HasSuper dev fs.disk fs.sb
    → (d : dev.Disk) × (update_disk fs ≡ (ok tt, record fs { disk = d }))
      × (fs_init dev d ≡ ok (record fs { disk = d }))
fs_init-update_disk io fs wf has =
    (disk_3 io fs wf, update_disk_runs io fs wf, fs_init-disk_3 io fs wf has)

-- The same, with the superblock looked for afterwards.
pub update_disk_saves :
    {dev : BlockDevice} (io : IsDevice dev) (fs : Fs dev)
    → IsWf fs
    → (d : dev.Disk) × (update_disk fs ≡ (ok tt, record fs { disk = d }))
      × (dev.blocks fs.disk ≤ dev.blocks d)
      × (HasSuper dev d fs.sb → fs_init dev d ≡ ok (record fs { disk = d }))
update_disk_saves io fs wf = (
  disk_3 io fs wf,
  update_disk_runs io fs wf,
  omega (arith, blocks_2 io fs wf, io.blocks-write_any (disk_2 io fs wf) (table io fs wf) _ _),
  λ has. fs_init-disk_3 io fs wf (record {
    block = has.block;
    stored = sym (read_super io fs wf) ∙ has.stored;
    super = has.super;
  }),
)

-- What stands behind the tables is as before.
pub update_disk_apart :
    {dev : BlockDevice} (io : IsDevice dev) (fs : Fs dev)
    → IsWf fs
    → (d : dev.Disk) × (update_disk fs ≡ (ok tt, record fs { disk = d }))
      × (dev.blocks d ≡ dev.blocks fs.disk)
      × ((b : ℕ)
          → inode_base fs.sb + fs.sb.inode_region_sz ≤ b
          → b < dev.blocks fs.disk
          → dev.block_read d b 1 ≡ dev.block_read fs.disk b 1)
update_disk_apart {dev} io fs wf = (
  disk_3 io fs wf,
  update_disk_runs io fs wf,
  io.blocks-write (disk_2 io fs wf) (table io fs wf) _ _ (omega (arith, wf.fits, blocks_2 io fs wf))
        (table-length io fs wf)
      ∙ blocks_2 io fs wf,
  unread,
)
  where
    unread :
        (b : ℕ)
        → inode_base fs.sb + fs.sb.inode_region_sz ≤ b
        → b < dev.blocks fs.disk
        → dev.block_read (disk_3 io fs wf) b 1 ≡ dev.block_read fs.disk b 1
    unread b past inside =
        io.read-write_apart (disk_2 io fs wf) (table io fs wf) (inode_base fs.sb)
          fs.sb.inode_region_sz b 1 (omega (arith, wf.fits, blocks_2 io fs wf))
          (table-length io fs wf) (omega (arith, blocks_2 io fs wf)) (inr past)
        ∙ io.read-write_apart (disk_1 io fs wf) fs.block_map (block_map_base fs.sb)
            fs.sb.block_map_sz b 1 (omega (arith, wf.fits, blocks_1 io fs wf)) wf.block_map_length
            (omega (arith, blocks_1 io fs wf)) (inr (omega arith))
        ∙ io.read-write_apart fs.disk fs.inode_map 1 fs.sb.inode_map_sz b 1 (omega (arith, wf.fits))
            wf.inode_map_length (omega arith) (inr (omega arith))
