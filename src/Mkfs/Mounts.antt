-- ===== src/Mkfs/Mounts.antt =====
-- fs_init on an image that mkfs-hw3.c writes: an empty file system.
use file_system_implementati.Base.{
  ℕ, ◌+◌, ◌*◌, ◌/◌, ◌%◌, ◌^◌, ◌≤◌, ◌<◌, ◌≡◌, refl, ap, ap₂, ◌∙◌, false, not, some, take, drop,
  get_elem?, replicate, ltb, leb, ◌==◌, arith, bit_and,
}
use file_system_implementati.Outcome
use file_system_implementati.Outcome.{Outcome, ok, in_bounds, or_exit}
use file_system_implementati.Layout.{Bytes, Dirent, decode_inodes, decode_super, decode_dir}
use file_system_implementati.Memory.{memory, memory_read, disk_of}
use file_system_implementati.Memory.Laws.{memory-IsDevice}
use file_system_implementati.Memory.Slices.{memory_read-disk_of, get_elem?-slice, length-chunks}
use file_system_implementati.Bitmap.{bit_test}
use file_system_implementati.Fs.{Fs, root_inode, fs_init, inode_at, read_dir, read_block}
use file_system_implementati.Fs.Sync.{load_region_ok, fs_init-eq-ok}
use file_system_implementati.Tables.Init.{fs_init-IsWf}
use file_system_implementati.Mkfs.{geometry, super_of, root_of, mkfs}
use file_system_implementati.Mkfs.Maps.{mkfs_maps}
use file_system_implementati.Mkfs.Bytewise.{Made, mkfs-eq-ok}
use file_system_implementati.Mkfs.Blocks.{
  Fits, fits, decode-encode_super, bytes_and_length, super_block, root_block, table, root_in_table,
}
use file_system_implementati.Directory.State.{InDir}

-- An entry of a block of zeros.
abbrev pub empty_entry : Dirent
empty_entry = record { valid = false; is_dir = false; inode = 0; name = replicate 28 0 }

decode_dir-zeros : decode_dir (replicate 1024 0) ≡ replicate 32 empty_entry
unfolding decode_dir
decode_dir-zeros = refl

-- A bit of a slice of an image.
bit_test-slice :
    (off m k : ℕ) (image : Bytes)
    → k < m * 8
    → bit_test (take m (drop off image)) k ≡ bit_test image (off * 8 + k)
unfolding bit_test
bit_test-slice off m k image h =
    ap₂ (λ o j. Outcome.◌>>=◌ (in_bounds o) λ b. ok (not (bit_and b (2 ^ j) == 0)))
      (get_elem?-slice off m (k / 8) image (omega arith)
        ∙ ap (get_elem? image) (let e : off + k / 8 ≡ (off * 8 + k) / 8 = omega arith in e))
      (let e : k % 8 ≡ (off * 8 + k) % 8 = omega arith in e)

module _ (t size : ℕ) {image : Bytes} (made : Made t size image) (f : Fits size) where
  abbrev disk : memory.Disk
  disk = disk_of (geometry size).n_blks image

  -- The blocks of the disk that holds the image.
  reads :
      (lba k : ℕ)
      → lba + k ≤ (geometry size).n_blks
      → memory_read disk lba k ≡ some (take (k * 1024) (drop (lba * 1024) image))
  reads =
      let (bytes, length_image) = bytes_and_length t size made f in
      memory_read-disk_of (geometry size).n_blks image length_image bytes

  abbrev fresh : Fs memory
  fresh = record {
    sb = super_of (geometry size);
    inode_map =
        take ((geometry size).n_ino_map_blks * 1024)
          (drop ((geometry size).inode_map_base * 1024) image);
    block_map =
        take ((geometry size).n_map_blks * 1024)
          (drop ((geometry size).block_map_base * 1024) image);
    inodes = decode_inodes ((geometry size).n_ino_blks * 16) (table t size made f);
    disk = disk;
  }

  mounts : fs_init memory disk ≡ ok fresh
  unfolding geometry
  mounts =
      let g = geometry size in
      fs_init-eq-ok memory disk (super_of g) (reads 0 1 (omega (arith, f.root_dir)))
        (ap decode_super (super_block t size made f)
          ∙ decode-encode_super (super_of g) (omega arith) (omega (arith, f.short))
              (omega (arith, f.short)) (omega (arith, f.short)) (omega (arith, f.blocks))
              (omega arith))
        (load_region_ok memory disk _ _ (omega (arith, f.short))
          (reads _ _ (omega (arith, f.root_dir))))
        (load_region_ok memory disk _ _ (omega (arith, f.short))
          (reads _ _ (omega (arith, f.root_dir))))
        (load_region_ok memory disk _ _ (omega (arith, f.short))
          (reads _ _ (omega (arith, f.root_dir))))

  root_InDir : InDir root_inode (geometry size).rootdir_base (replicate 32 empty_entry) fresh
  unfolding inode_at read_dir read_block
  root_InDir =
      let g = geometry size in
      let (r0, r1, r2, r3) = f.regions in
      record {
        wf =
            (fs_init-IsWf memory-IsDevice disk fresh mounts (record {
              some_inodes = f.some_inodes;
              short = omega (arith, f.short, f.regions);
            })).0;
        dir = root_of g t;
        inode = ap in_bounds (root_in_table t size made f);
        is_dir = refl;
        block = refl;
        past = omega (arith, r1, r2, r3);
        inside = omega (arith, f.root_dir, length-chunks g.n_blks 1024 image);
        reads =
            ap (λ o. Outcome.◌>>=◌ (or_exit o) λ b. ok (decode_dir b))
              (reads g.rootdir_base 1 (omega (arith, f.root_dir)))
            ∙ ap (λ b. ok (decode_dir b)) (root_block t size made f)
            ∙ ap ok decode_dir-zeros;
      }

-- A successful run of mkfs-hw3.c for a disk of at least five blocks and less than 2^31 bytes makes an
-- image from which, on a disk in memory, fs_init starts homework.c with an empty file system: the
-- tables are well formed, inode 1 is a directory in the block behind the inodes, whose 32 entries are
-- all free, the superblock is that of the disk's geometry, and the maps have exactly inodes 0 and 1,
-- and the blocks up to that of the root directory, marked as used.
pub mkfs_mounts :
    (t size : ℕ) {image : Bytes}
    → mkfs t size ≡ ok image
    → 5120 ≤ size
    → size < 2 ^ 31
    → (fs : Fs memory) × (fs_init memory (disk_of (geometry size).n_blks image) ≡ ok fs)
      × InDir root_inode (geometry size).rootdir_base (replicate 32 empty_entry) fs
      × (fs.sb ≡ super_of (geometry size))
      × ((i : ℕ)
          → i < (geometry size).n_ino_map_blks * 8192
          → bit_test fs.inode_map i ≡ ok (ltb i 2))
      × ((b : ℕ)
          → b < (geometry size).n_map_blks * 8192
          → bit_test fs.block_map b ≡ ok (leb b (geometry size).rootdir_base))
mkfs_mounts t size {image} h lo hi =
    let g = geometry size in
    let made = mkfs-eq-ok t size h in
    let f = fits size lo hi in
    (
      fresh t size made f,
      mounts t size made f,
      root_InDir t size made f,
      refl,
      λ i small.
          bit_test-slice (g.inode_map_base * 1024) (g.n_ino_map_blks * 1024) i image (omega arith)
          ∙ ap (bit_test image) (
              let e : g.inode_map_base * 1024 * 8 + i ≡ g.inode_map_base * 8192 + i = omega arith in
              e)
          ∙ (mkfs_maps t size image i 0 h small (omega (arith, f.marks))).0,
      λ b small.
          bit_test-slice (g.block_map_base * 1024) (g.n_map_blks * 1024) b image (omega arith)
          ∙ ap (bit_test image) (
              let e : g.block_map_base * 1024 * 8 + b ≡ g.block_map_base * 8192 + b = omega arith in
              e)
          ∙ (mkfs_maps t size image 0 b h (omega (arith, f.some_map)) small).1,
    )
