-- ===== src/Mkfs/Maps.antt =====
-- The bitmaps of an image that mkfs-hw3.c writes.
use Prim.Native.Nat.{bit_and-bitwise}
use file_system_implementati.Base.{
  ℕ, zero, suc, ◌+◌, ◌*◌, ◌/◌, ◌≤◌, ◌<◌, ◌≡◌, inl, inr, refl, ap, ◌∙◌, true, false, [], ◌∷◌, length,
  get_elem?, replicate, leb, ltb, ◌&&◌, ◌||◌, ◌==◌, if◌then◌else◌, arith, Bool-cases, ==_iff, some,
  bit_and, length-replicate, not,
}
use file_system_implementati.Outcome.{Outcome, ok, exit, in_bounds, ◌>>=◌, >>=-eq-ok}
use file_system_implementati.Layout.{Bytes, Super, fs_block_size, le_bytes, concat, encode_inode}
use file_system_implementati.Layout.Words.{le_bytes-AreBytes}
use file_system_implementati.Layout.Codec.{AreBytes-concat}
use file_system_implementati.Device.{AreBytes}
use file_system_implementati.Memory.Laws.{AreBytes-zeros}
use file_system_implementati.Bitmap.{bit_test, mask}
use file_system_implementati.Bitmap.Laws.{bit_test-bit_set, bit_set-AreBytes}
use file_system_implementati.ReadImg.Ends.{ok-injective}
use file_system_implementati.Mkfs.{
  Geometry, geometry, store, bit_set_at, mark_blocks, encode_super, super_of, root_of, mkfs,
}
use file_system_implementati.Mkfs.Stores.{store-eq-ok, store_apart, store-AreBytes, mark_blocks_lem}

pub length-encode_super : (sb : Super) → length (encode_super sb) ≡ 1024
unfolding encode_super concat le_bytes
length-encode_super sb = refl

pub encode_super-AreBytes : (sb : Super) → AreBytes (encode_super sb)
unfolding encode_super
encode_super-AreBytes sb =
    let w = le_bytes 4 in
    let b = le_bytes-AreBytes 4 in
    AreBytes-concat
      (w sb.magic
        ∷ w sb.inode_map_sz
        ∷ w sb.inode_region_sz
        ∷ w sb.block_map_sz
        ∷ w sb.num_blocks
        ∷ w sb.root_inode
        ∷ replicate 1000 0
        ∷ [])
      (
        b sb.magic,
        (
          b sb.inode_map_sz,
          (
            b sb.inode_region_sz,
            (b sb.block_map_sz, (b sb.num_blocks, (b sb.root_inode, (AreBytes-zeros 1000, tt)))),
          ),
        ),
      )

pub get_elem?-zeros : (n i : ℕ) → i < n → get_elem? (replicate {A = ℕ} n 0) i ≡ some 0
get_elem?-zeros zero i h = absurd (omega arith)
get_elem?-zeros (suc n) zero h = refl
get_elem?-zeros (suc n) (suc i) h = get_elem?-zeros n i (omega arith)

pub bit_test-zeros : (n k : ℕ) → k < 8 * n → bit_test (replicate n 0) k ≡ ok false
unfolding bit_test
bit_test-zeros n k h = rw (get_elem?-zeros n (k / 8) (omega arith), bit_and-bitwise 0 (mask k)) refl

pub bit_test_same :
    (a b : Bytes) (k : ℕ) → get_elem? a (k / 8) ≡ get_elem? b (k / 8) → bit_test a k ≡ bit_test b k
unfolding bit_test
bit_test_same a b k e = ap (λ o. in_bounds o >>= λ b. ok (not (bit_and b (mask k) == 0))) e

-- What the stores make of one bit of the maps, on an image of `n` bytes whose block map is at block
-- `base` and whose inodes are at block `inodes`.
module _ (n base inodes last : ℕ) (sb root : Bytes) {d d1 d2 e image : Bytes}
    (made : store (replicate n 0) 0 sb ≡ ok d) (first : bit_set_at d 1 0 ≡ ok d1)
    (second : bit_set_at d1 1 1 ≡ ok d2) (marks : mark_blocks (last + 1) 0 base d2 ≡ ok e)
    (rooted : store e (inodes * 1024 + 64) root ≡ ok image) (k : ℕ) where
  stored_bit :
      length sb ≡ 1024
      → AreBytes sb
      → 8192 ≤ k
      → k < inodes * 8192
      → bit_test image k ≡ (
          if leb (base * 8192 + 0) k && ltb k (base * 8192 + (0 + (last + 1)))
          then ok true
          else ok ((8193 == k) || (8192 == k)))
  unfolding bit_set_at
  stored_bit size bytes lo hi =
      let (bytes_d, length_d) = store-AreBytes (replicate n 0) 0 sb made (AreBytes-zeros n) bytes in
      let (bytes_1, length_1) = bit_set-AreBytes d (1 * fs_block_size * 8 + 0) bytes_d first in
      let (bytes_2, length_2) = bit_set-AreBytes d1 (1 * fs_block_size * 8 + 1) bytes_1 second in
      let (_, length_e, marked) = mark_blocks_lem (last + 1) 0 base d2 k bytes_2 marks in
      let same_image =
        bit_test_same image e k
          (store_apart e (inodes * 1024 + 64) root (k / 8) rooted (inl (omega arith))) in
      let same_d =
        bit_test_same d (replicate n 0) k
          (store_apart (replicate n 0) 0 sb (k / 8) made (inr (omega arith))) in
      let (fits, _) = store-eq-ok e (inodes * 1024 + 64) root rooted in
      let clear = bit_test-zeros n k (omega (arith, length-replicate {A = ℕ} n 0)) in
      let one = bit_test-bit_set d (1 * fs_block_size * 8 + 0) k bytes_d first in
      let two = bit_test-bit_set d1 (1 * fs_block_size * 8 + 1) k bytes_1 second in ground arith

-- The regions follow one another.
pub geometry_regions :
    (size : ℕ)
    → ((geometry size).inode_map_base ≡ 1)
      × ((geometry size).block_map_base ≡ 1 + (geometry size).n_ino_map_blks)
      × ((geometry size).inode_base ≡ (geometry size).block_map_base + (geometry size).n_map_blks)
      × ((geometry size).rootdir_base ≡ (geometry size).inode_base + (geometry size).n_ino_blks)
unfolding geometry
geometry_regions size = (refl, refl, refl, refl)

pub last_test :
    (size : ℕ) (g : Geometry) (i image : Bytes)
    → (if size == g.n_blks * fs_block_size then ok i else exit) ≡ ok image
    → (size ≡ g.n_blks * fs_block_size) × (i ≡ image)
last_test size g i image h = elim (Bool-cases (size == g.n_blks * fs_block_size)) [
  | inl e ↦ ((==_iff size (g.n_blks * fs_block_size)).0 e, ok-injective (rw e at h))
  | inr e ↦ absurd (let h' : ◌≡◌ {A = Outcome Bytes} exit (ok image) = rw e at h in cc)
]

mkfs_bit :
    (t size : ℕ) {image : Bytes} (k : ℕ)
    → mkfs t size ≡ ok image
    → 8192 ≤ k
    → k < (geometry size).inode_base * 8192
    → bit_test image k ≡ (
        if leb ((geometry size).block_map_base * 8192 + 0) k
          && ltb k
              ((geometry size).block_map_base * 8192 + (0 + ((geometry size).rootdir_base + 1)))
        then ok true
        else ok ((8193 == k) || (8192 == k)))
unfolding mkfs
mkfs_bit t size {image} k h lo hi = elim (Bool-cases (size == 0)) [
  | inl e ↦ absurd (let h' : ◌≡◌ {A = Outcome Bytes} exit (ok image) = rw e at h in cc)
  | inr e ↦
      let g = geometry size in
      let (d, made, h1) =
        >>=-eq-ok (store (replicate (g.n_blks * fs_block_size) 0) 0 (encode_super (super_of g))) _
          (rw e at h) in
      let (d1, first, h2) = >>=-eq-ok (bit_set_at d g.inode_map_base 0) _ h1 in
      let (d2, second, h3) = >>=-eq-ok (bit_set_at d1 g.inode_map_base 1) _ h2 in
      let (m, marks, h4) =
        >>=-eq-ok (mark_blocks (g.rootdir_base + 1) 0 g.block_map_base d2) _ h3 in
      let (i, rooted, h5) =
        >>=-eq-ok (store m (g.inode_base * fs_block_size + 64) (encode_inode (root_of g t))) _ h4 in
      let (_, same) = last_test size g i image h5 in
      stored_bit (g.n_blks * fs_block_size) g.block_map_base g.inode_base g.rootdir_base
        (encode_super (super_of g)) (encode_inode (root_of g t)) made first second marks
        (rooted ∙ ap ok same) k (length-encode_super (super_of g))
        (encode_super-AreBytes (super_of g)) lo hi
]

-- An image that mkfs-hw3.c writes has, in its map of the inodes, the bits of inode 0 and of the root
-- inode 1 set and all others clear, and in its map of the blocks the bits up to the block of the root
-- directory set and all others clear.
pub mkfs_maps :
    (t size : ℕ) (image : Bytes) (i b : ℕ)
    → mkfs t size ≡ ok image
    → i < (geometry size).n_ino_map_blks * 8192
    → b < (geometry size).n_map_blks * 8192
    → (bit_test image ((geometry size).inode_map_base * 8192 + i) ≡ ok (ltb i 2))
      × (bit_test image ((geometry size).block_map_base * 8192 + b)
          ≡ ok (leb b (geometry size).rootdir_base))
mkfs_maps t size image i b h inode block =
    let (e0, e1, e2, e3) = geometry_regions size in
    (
      mkfs_bit t size ((geometry size).inode_map_base * 8192 + i) h (omega arith) (omega arith)
          ∙ ground arith,
      mkfs_bit t size ((geometry size).block_map_base * 8192 + b) h (omega arith) (omega arith)
          ∙ ground arith,
    )
