-- ===== src/Mkfs/Blocks.antt =====
-- The superblock, the root inode and the block of the root directory in an image of mkfs-hw3.c.
use file_system_implementati.Base.{
  ℕ, zero, suc, ◌+◌, ◌-◌, ◌*◌, ◌^◌, ◌≤◌, ◌<◌, ◌≡◌, ◌⊎◌, inl, inr, refl, ap, sym, ◌∙◌, some, ◌∷◌,
  length, take, drop, get_elem?, replicate, arith, length-replicate,
}
use file_system_implementati.Layout.{
  Bytes, Super, encode_inode, decode_inode, decode_inodes, decode_super, concat,
}
use file_system_implementati.Layout.Words.{le_value-le_bytes_4}
use file_system_implementati.Layout.Codec.{
  IsInode, decode-encode_inode, length-encode_inode, AreBytes-encode_inode,
}
use file_system_implementati.Device.{AreBytes}
use file_system_implementati.Memory.Laws.{AreBytes-zeros}
use file_system_implementati.Memory.Slices.{slice_same, slice-within, get_elem?-chunks, drop-drop}
use file_system_implementati.Bitmap.Laws.{bit_set-AreBytes}
use file_system_implementati.Mkfs.{geometry, bit_set_at, encode_super, super_of, root_of}
use file_system_implementati.Mkfs.Stores.{store_apart, store-AreBytes, mark_blocks_lem}
use file_system_implementati.Mkfs.Maps.{
  length-encode_super, encode_super-AreBytes, geometry_regions,
}
use file_system_implementati.Mkfs.Bytewise.{Made, store_self, bit_set_at_apart, mark_blocks_apart}

-- What the geometry of a disk of five blocks or more leaves room for.
pub record Fits (size : ℕ) : Type 0 where
  pub regions :
      ((geometry size).inode_map_base ≡ 1)
      × ((geometry size).block_map_base ≡ 1 + (geometry size).n_ino_map_blks)
      × ((geometry size).inode_base ≡ (geometry size).block_map_base + (geometry size).n_map_blks)
      × ((geometry size).rootdir_base ≡ (geometry size).inode_base + (geometry size).n_ino_blks)
  pub blocks : (geometry size).n_blks < 2 ^ 21
  pub root_dir : (geometry size).rootdir_base < (geometry size).n_blks
  pub marks : (geometry size).rootdir_base + 1 ≤ (geometry size).n_map_blks * 8192
  pub some_inodes : 0 < (geometry size).n_ino_blks
  pub short : (geometry size).rootdir_base < 2 ^ 20
  pub some_map : 0 < (geometry size).n_ino_map_blks

pub fits : (size : ℕ) → 5120 ≤ size → size < 2 ^ 31 → Fits size
unfolding geometry
fits size lo hi = record {
  regions = geometry_regions size;
  blocks = omega arith;
  root_dir = omega arith;
  marks = omega arith;
  some_inodes = omega arith;
  short = omega arith;
  some_map = omega arith;
}

drop-zeros : (o n : ℕ) → drop o (replicate {A = ℕ} (o + n) 0) ≡ replicate n 0
drop-zeros zero n = let e : 0 + n ≡ n = omega arith in rw e refl
drop-zeros (suc o) n = let e : suc o + n ≡ suc (o + n) = omega arith in rw e (drop-zeros o n)

take-zeros : (m n : ℕ) → take m (replicate {A = ℕ} (m + n) 0) ≡ replicate m 0
take-zeros zero n = refl
take-zeros (suc m) n =
    let e : suc m + n ≡ suc (m + n) = omega arith in rw e (ap (λ t. 0 ∷ t) (take-zeros m n))

zeros_within : (o m n : ℕ) → o + m ≤ n → take m (drop o (replicate {A = ℕ} n 0)) ≡ replicate m 0
zeros_within o m n h =
    let e : n ≡ o + (m + (n - (o + m))) = omega arith in
    ap (λ k. take m (drop o (replicate {A = ℕ} k 0))) e
    ∙ ap (take m) (drop-zeros o (m + (n - (o + m))))
    ∙ take-zeros m (n - (o + m))

pub decode-encode_super :
    (sb : Super)
    → sb.magic < 2 ^ 32
    → sb.inode_map_sz < 2 ^ 32
    → sb.inode_region_sz < 2 ^ 32
    → sb.block_map_sz < 2 ^ 32
    → sb.num_blocks < 2 ^ 32
    → sb.root_inode < 2 ^ 32
    → decode_super (encode_super sb) ≡ sb
unfolding decode_super encode_super concat
decode-encode_super sb h0 h1 h2 h3 h4 h5 = λ k. record {
  magic = le_value-le_bytes_4 sb.magic h0 k;
  inode_map_sz = le_value-le_bytes_4 sb.inode_map_sz h1 k;
  inode_region_sz = le_value-le_bytes_4 sb.inode_region_sz h2 k;
  block_map_sz = le_value-le_bytes_4 sb.block_map_sz h3 k;
  num_blocks = le_value-le_bytes_4 sb.num_blocks h4 k;
  root_inode = le_value-le_bytes_4 sb.root_inode h5 k;
}

module _ (t size : ℕ) {image : Bytes} (made : Made t size image) (f : Fits size) where
  pub bytes_and_length : AreBytes image × (length image ≡ (geometry size).n_blks * 1024)
  unfolding bit_set_at
  bytes_and_length =
      let g = geometry size in
      let sb = super_of g in
      let (b0, n0) =
        store-AreBytes (replicate (g.n_blks * 1024) 0) 0 (encode_super sb) made.stored
          (AreBytes-zeros (g.n_blks * 1024)) (encode_super-AreBytes sb) in
      let (b1, n1) = bit_set-AreBytes made.with_super _ b0 made.first in
      let (b2, n2) = bit_set-AreBytes made.one_bit _ b1 made.second in
      let (b3, n3, _) =
        mark_blocks_lem (g.rootdir_base + 1) 0 g.block_map_base made.two_bits 0 b2 made.marked in
      let (b4, n4) =
        store-AreBytes made.with_maps (g.inode_base * 1024 + 64) (encode_inode (root_of g t))
          made.rooted b3 (AreBytes-encode_inode (root_of g t)) in
      (b4, n4 ∙ n3 ∙ n2 ∙ n1 ∙ n0 ∙ length-replicate {A = ℕ} (g.n_blks * 1024) 0)

  root_of-IsInode : IsInode (root_of (geometry size) t)
  root_of-IsInode = record {
    uid = omega arith;
    gid = omega arith;
    mode = omega arith;
    ctime = omega arith;
    mtime = omega arith;
    size_pattern = omega arith;
    size = refl;
    direct_length = refl;
    direct = (omega (arith, f.root_dir, f.blocks), omega arith);
    indir_1 = omega arith;
    indir_2 = omega arith;
    pad_length = refl;
    pad = omega arith;
  }

  -- The superblock and the root directory are as the first store left them.
  untouched :
      (i : ℕ)
      → (i < 1024) ⊎ ((geometry size).rootdir_base * 1024 ≤ i)
      → get_elem? image i ≡ get_elem? made.with_super i
  untouched i apart =
      let g = geometry size in
      let (r0, r1, r2, r3) = f.regions in
      let n = length-encode_inode (root_of g t) root_of-IsInode in
      store_apart made.with_maps (g.inode_base * 1024 + 64) (encode_inode (root_of g t)) i
        made.rooted (omega (arith, f.some_inodes, n, r3, r2, r1))
      ∙ mark_blocks_apart (g.rootdir_base + 1) 0 g.block_map_base made.two_bits i made.marked
          (omega (arith, f.marks, f.some_map, r1, r2, r3))
      ∙ bit_set_at_apart made.one_bit g.inode_map_base 1 i made.second
          (omega (arith, r0, r1, r2, r3))
      ∙ bit_set_at_apart made.with_super g.inode_map_base 0 i made.first
          (omega (arith, r0, r1, r2, r3))

  pub super_block : take 1024 image ≡ encode_super (super_of (geometry size))
  super_block =
      let sb = super_of (geometry size) in
      slice_same 0 1024 image made.with_super (λ i lo hi. untouched i (inl (omega arith)))
      ∙ ap (λ n. take n made.with_super) (sym (length-encode_super sb))
      ∙ store_self (replicate ((geometry size).n_blks * 1024) 0) 0 (encode_super sb) made.stored

  pub root_block : take 1024 (drop ((geometry size).rootdir_base * 1024) image) ≡ replicate 1024 0
  root_block =
      let g = geometry size in
      let sb = super_of g in
      slice_same (g.rootdir_base * 1024) 1024 image (replicate (g.n_blks * 1024) 0) (λ i lo hi.
        untouched i (inr lo)
        ∙ store_apart (replicate (g.n_blks * 1024) 0) 0 (encode_super sb) i made.stored
            (inr (omega (arith, lo, length-encode_super sb, f.regions))))
      ∙ zeros_within (g.rootdir_base * 1024) 1024 (g.n_blks * 1024) (omega (arith, f.root_dir))

  root_node :
      take 64 (drop ((geometry size).inode_base * 1024 + 64) image)
      ≡ encode_inode (root_of (geometry size) t)
  root_node =
      let root = root_of (geometry size) t in
      ap (λ n. take n (drop ((geometry size).inode_base * 1024 + 64) image))
        (sym (length-encode_inode root root_of-IsInode))
      ∙ store_self made.with_maps ((geometry size).inode_base * 1024 + 64) (encode_inode root)
          made.rooted

  abbrev pub table : Bytes
  table = take ((geometry size).n_ino_blks * 1024) (drop ((geometry size).inode_base * 1024) image)

  pub root_in_table :
      get_elem? (decode_inodes ((geometry size).n_ino_blks * 16) table) 1
      ≡ some (root_of (geometry size) t)
  unfolding decode_inodes
  root_in_table =
      let g = geometry size in
      get_elem?-chunks decode_inode (g.n_ino_blks * 16) 64 1 table (omega (arith, f.some_inodes))
      ∙ ap (λ b. some (decode_inode b))
          (slice-within 64 64 (g.n_ino_blks * 1024) (drop (g.inode_base * 1024) image)
              (omega (arith, f.some_inodes))
            ∙ ap (take 64) (drop-drop 64 (g.inode_base * 1024) image)
            ∙ root_node)
      ∙ ap some (decode-encode_inode (root_of g t) root_of-IsInode)
