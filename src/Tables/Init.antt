-- ===== src/Tables/Init.antt =====
-- The tables that fs_init builds are well formed.
use file_system_implementati.Base.{
  ℕ, ◌+◌, ◌≤◌, ◌*◌, ◌^◌, ◌<◌, ◌≡◌, refl, subst, Option, none, some, arith,
}
use file_system_implementati.Outcome.{Outcome, ok, or_exit, >>=-eq-ok}
use file_system_implementati.Layout.{Bytes, Super, decode_super, decode_inodes}
use file_system_implementati.Layout.Bounds.{decode_super-num_blocks, decode_inodes-IsInode}
use file_system_implementati.Device.{BlockDevice, IsDevice, max_blocks}
use file_system_implementati.Fs.{Fs, fs_init, load_region, inode_base, block_map_base}
use file_system_implementati.Fs.Sync.{IsWf}

load_region-eq-ok :
    (dev : BlockDevice) (d : dev.Disk) (lba sz : ℕ) {b : Bytes}
    → load_region dev d lba sz ≡ ok b
    → (sz < 2 ^ 22) × (dev.block_read d lba sz ≡ some b)
unfolding load_region
load_region-eq-ok dev d lba sz h = (ground arith, ground arith)

or_exit-eq-ok : {A : Type 0} (o : Option A) {a : A} → or_exit o ≡ ok a → o ≡ some a
or_exit-eq-ok none e = cc
or_exit-eq-ok (some x) e = cc

-- There is a block of inodes, and the tables end below the blocks that the device can address.
pub record IsImage (sb : Super) : Type 0 where
  pub some_inodes : 0 < sb.inode_region_sz
  pub short : inode_base sb + sb.inode_region_sz ≤ max_blocks

ok-injective : {A : Type 0} {x y : A} → ◌≡◌ {A = Outcome A} (ok x) (ok y) → x ≡ y
ok-injective h = cc

module _ {dev : BlockDevice} (io : IsDevice dev) (d : dev.Disk) where
  -- The state that the four regions make.
  abbrev loaded : Super → (inode_map block_map table : Bytes) → Fs dev
  loaded sb inode_map block_map table = record {
    sb = sb;
    inode_map = inode_map;
    block_map = block_map;
    inodes = decode_inodes (sb.inode_region_sz * 16) table;
    disk = d;
  }

  loaded-IsWf :
      (b im bm table : Bytes)
      → dev.block_read d 0 1 ≡ some b
      → load_region dev d 1 (decode_super b).inode_map_sz ≡ ok im
      → load_region dev d (block_map_base (decode_super b)) (decode_super b).block_map_sz ≡ ok bm
      → load_region dev d (inode_base (decode_super b)) (decode_super b).inode_region_sz ≡ ok table
      → IsImage (decode_super b)
      → IsWf (loaded (decode_super b) im bm table)
  loaded-IsWf b im bm table e0 e1 e2 e3 image =
      let (small_1, read_1) = load_region-eq-ok dev d _ _ e1 in
      let (small_2, read_2) = load_region-eq-ok dev d _ _ e2 in
      let (small_3, read_3) = load_region-eq-ok dev d _ _ e3 in
      let (ok_nodes, length_nodes) = decode_inodes-IsInode _ table (io.bytes-read d _ _ read_3) in
      record {
        inode_map_length = io.length-read d _ _ (omega (arith, image.short)) read_1;
        inode_map_bytes = io.bytes-read d _ _ read_1;
        block_map_length = io.length-read d _ _ (omega (arith, image.short)) read_2;
        block_map_bytes = io.bytes-read d _ _ read_2;
        inodes_length = length_nodes;
        inodes_ok = ok_nodes;
        inode_map_small = small_1;
        block_map_small = small_2;
        inodes_small = small_3;
        num_blocks_32 = decode_super-num_blocks b (io.bytes-read d _ _ e0);
        fits = io.read-inside d _ _ image.some_inodes (omega (arith, image.short)) read_3;
      }

  -- On a working device, fs_init of such an image builds well-formed tables, over that disk.
  pub fs_init-IsWf : (fs : Fs dev) → fs_init dev d ≡ ok fs → IsImage fs.sb → IsWf fs × (fs.disk ≡ d)
  unfolding fs_init
  fs_init-IsWf fs h =
      let (b, e0, h1) = >>=-eq-ok (or_exit (dev.block_read d 0 1)) _ h in
      let (im, e1, h2) = >>=-eq-ok (load_region dev d 1 (decode_super b).inode_map_sz) _ h1 in
      let (bm, e2, h3) =
        >>=-eq-ok
          (load_region dev d (block_map_base (decode_super b)) (decode_super b).block_map_sz) _
          h2 in
      let (table, e3, h4) =
        >>=-eq-ok (load_region dev d (inode_base (decode_super b)) (decode_super b).inode_region_sz)
          _ h3 in
      subst (λ s. IsImage s.sb → IsWf s × (s.disk ≡ d)) (ok-injective h4)
        (λ image. (loaded-IsWf b im bm table (or_exit-eq-ok _ e0) e1 e2 e3 image, refl))
