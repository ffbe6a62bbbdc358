-- ===== src/Mktest/Maps.antt =====
-- The bitmaps of the image that mktest.c writes.
use file_system_implementati.Base.{
  ℕ, ◌+◌, ◌*◌, ◌≤◌, ◌<◌, ◌≡◌, inl, refl, ap, ap₂, ◌∙◌, Bool, true, false, ◌∷◌, length, replicate,
  ltb, ◌==◌, if◌then◌else◌, arith, length-replicate,
}
use file_system_implementati.Outcome
use file_system_implementati.Outcome.{Outcome, ok}
use file_system_implementati.Exec.{pure, ◌>>◌}
use file_system_implementati.Exec.Ends.{
  Gives, EndsIn, EndsIn-bind, Gives-bind, EndsIn-query, Gives-pure,
}
use file_system_implementati.Layout.{Bytes}
use file_system_implementati.Device.{AreBytes}
use file_system_implementati.Memory.Laws.{AreBytes-zeros}
use file_system_implementati.Bitmap.{bit_test}
use file_system_implementati.Mkfs.{encode_super}
use file_system_implementati.Mkfs.Maps.{length-encode_super, encode_super-AreBytes, bit_test-zeros}
use file_system_implementati.Mktest.{Maker, block_of, mark_from}
use file_system_implementati.Mktest.Files.{
  test_super, make_super, make_root, make_file_10, make_file_270, make_files, make_all, empty_disk,
  mktest,
}
use file_system_implementati.Mktest.Steps.{Inv, put-Inv, mark-Inv, alloc-Inv, next_inum-Inv}
use file_system_implementati.Mktest.Writes.{put_inode-Inv, marked, mark_from-Inv, Inv-same}
use file_system_implementati.Mktest.Fits.{
  inodes, make_file_a-Inv, make_dir1-Inv, make_file_2-Inv, make_file_0-Inv, make_file_7-Inv,
  make_file_10-Inv, make_file_270-Inv,
}

-- How many inodes and blocks are in use.
abbrev pub inodes_used : Bool → ℕ
inodes_used extra = if extra then 9 else 8

abbrev pub blocks_used : Bool → ℕ
blocks_used extra = if extra then 304 else 293

make_super-Inv :
    {f : ℕ → Bool} {p i : ℕ} (m : Maker)
    → Inv f p i m
    → EndsIn (make_super 1024) (Inv (λ k. if 8192 == k then true else f k) p i) m
unfolding make_super
make_super-Inv m h =
    let n = length-encode_super test_super in
    EndsIn-bind _ _ m
      (put-Inv m h 0 (encode_super test_super) (encode_super-AreBytes test_super)
        (inl (omega (arith, n)), omega (arith, n)))
      λ m1 h1. mark-Inv m1 h1 1024 0 (omega arith)

make_root-Inv :
    {f : ℕ → Bool} (m : Maker)
    → Inv f 7168 1 m
    → Gives (make_root 1024 inodes) 7168 (Inv (λ k. if 8193 == k then true else f k) 8192 2) m
unfolding make_root
make_root-Inv m h = Gives-bind _ _ 1 7168 m (next_inum-Inv m h) λ m1 h1.
    Gives-bind _ _ tt 7168 m1 (mark-Inv m1 h1 1024 1 (omega arith)) λ m2 h2.
      Gives-bind _ _ 7168 7168 m2 (alloc-Inv m2 h2 1) λ m3 h3.
        Gives-bind _ _ tt 7168 m3
          (put_inode-Inv inodes 1 _ _ _ (block_of 7168 ∷ replicate 5 0) 0 m3 refl
            (omega arith, omega arith) h3)
          λ m4 h4. Gives-pure 7168 m4 h4

-- The extra file, and the last one.
last_files :
    {f : ℕ → Bool} (extra : Bool) (rest : Bytes) (m : Maker)
    → AreBytes rest
    → Inv f 20480 7 m
    → EndsIn
        ((if extra then make_file_10 rest inodes 7168 else pure tt) >> make_file_270 inodes 9216)
        (Inv f (blocks_used extra * 1024) (inodes_used extra))
        m
last_files true rest m b h =
    EndsIn-bind _ _ m
      (make_file_10-Inv m h (omega arith) (omega arith) rest 7168 b (omega arith, omega arith)
        (omega arith))
      λ t g.
        make_file_270-Inv t g (omega arith) (omega arith) 9216 (omega arith, omega arith)
          (omega arith)
last_files {f} false rest m b h = EndsIn-bind _ _ m (Gives-pure tt m h) λ t (g : Inv f 20480 7 t).
    make_file_270-Inv t g (omega arith) (omega arith) 9216 (omega arith, omega arith) (omega arith)

make_files-Inv :
    {f : ℕ → Bool} (extra : Bool) (rest : Bytes) (m : Maker)
    → AreBytes rest
    → Inv f 8192 2 m
    → EndsIn
        (make_files extra rest inodes 7168)
        (Inv f (blocks_used extra * 1024) (inodes_used extra))
        m
unfolding make_files
make_files-Inv extra rest m b h =
    Gives-bind _ _ 2 tt m
      (make_file_a-Inv m h (omega arith) (omega arith) 7168 (omega arith, omega arith)
        (omega arith))
      λ m1 h1.
        Gives-bind _ _ 9216 tt m1
          (make_dir1-Inv m1 h1 (omega arith) (omega arith) 7168 2 (omega arith, omega arith)
            (omega arith))
          λ m2 h2.
            EndsIn-bind _ _ m2
              (make_file_2-Inv m2 h2 (omega arith) (omega arith) 9216 (omega arith, omega arith)
                (omega arith))
              λ m3 h3.
                EndsIn-bind _ _ m3
                  (make_file_0-Inv m3 h3 (omega arith) (omega arith) 9216
                    (omega arith, omega arith))
                  λ m4 h4.
                    EndsIn-bind _ _ m4
                      (make_file_7-Inv m4 h4 (omega arith) (omega arith) 7168
                        (omega arith, omega arith) (omega arith))
                      λ m5 h5. last_files extra rest m5 b h5

-- The bits of both maps.
abbrev map_bits : Bool → ℕ → Bool
map_bits extra = marked 16384 (blocks_used extra) (
    marked 8192 (inodes_used extra)
      (λ k. if 8193 == k then true else if 8192 == k then true else false))

used_small : (extra : Bool) → (inodes_used extra ≤ 9) × (blocks_used extra ≤ 304)
used_small true = (omega arith, omega arith)
used_small false = (omega arith, omega arith)

empty_disk-Inv : Inv (λ k. false) 1024 1 empty_disk
empty_disk-Inv = record {
  bytes = AreBytes-zeros 1048576;
  size = length-replicate {A = ℕ} 1048576 0;
  bits = λ k lo hi. bit_test-zeros 1048576 k (omega (arith, lo, hi));
  ptr = refl;
  inum = refl;
}

-- The loops over the numbers that are in use.
mark_used :
    {f : ℕ → Bool} (extra : Bool) (m : Maker)
    → Inv f (blocks_used extra * 1024) (inodes_used extra) m
    → EndsIn
        (mark_from 1024 0 m.inum >> mark_from 2048 0 (block_of m.ptr))
        (Inv
          (marked 16384 (blocks_used extra) (marked 8192 (inodes_used extra) f))
          (blocks_used extra * 1024)
          (inodes_used extra))
        m
mark_used {f} extra m h =
    let (few, small) = used_small extra in
    let blocks : block_of m.ptr ≡ blocks_used extra = omega (arith, h.ptr) in
    let (t, run, k) =
      EndsIn-bind (mark_from 1024 0 m.inum) _ m
        (mark_from-Inv 1024 0 m.inum f m (omega (arith, few, h.inum)) h)
        λ t g. mark_from-Inv 2048 0 (block_of m.ptr) _ t (omega (arith, small, blocks)) g in
    (t, run, Inv-same t (λ j. ap₂ (λ n b. marked 16384 b (marked 8192 n f) j) h.inum blocks) k)

make_all-Inv :
    (extra : Bool) (rest : Bytes)
    → AreBytes rest
    → EndsIn
        (make_all extra rest)
        (Inv (map_bits extra) (blocks_used extra * 1024) (inodes_used extra))
        empty_disk
unfolding make_all
make_all-Inv extra rest b =
    Gives-bind _ _ 1024 tt empty_disk (alloc-Inv empty_disk empty_disk-Inv 1) λ m1 h1.
      Gives-bind _ _ 2048 tt m1 (alloc-Inv m1 h1 1) λ m2 h2.
        EndsIn-bind _ _ m2 (make_super-Inv m2 h2) λ m3 h3.
          Gives-bind _ _ 3072 tt m3 (alloc-Inv m3 h3 4) λ m4 h4.
            Gives-bind _ _ 7168 tt m4 (make_root-Inv m4 h4) λ m5 h5.
              EndsIn-bind _ _ m5 (make_files-Inv extra rest m5 b h5)
                λ m6 h6. EndsIn-query ok m6 _ m6 refl (mark_used extra m6 h6)

inode_bit :
    (extra : Bool) (i : ℕ)
    → i < 8192
    → ok (map_bits extra (8192 + i)) ≡ ok (ltb i (inodes_used extra))
inode_bit true i h = ground arith
inode_bit false i h = ground arith

block_bit :
    (extra : Bool) (b : ℕ)
    → b < 8192
    → ok (map_bits extra (16384 + b)) ≡ ok (ltb b (blocks_used extra))
block_bit true b h = ground arith
block_bit false b h = ground arith

-- For both images of mktest.c, whatever malloc left behind the data of the extra file, main stays
-- inside its disk of 1024 blocks and writes an image in whose map of the inodes exactly the bits
-- below 8, or 9 with the extra file, are set, and in whose map of the blocks exactly those below
-- 293, or 304.
pub mktest_maps :
    (extra : Bool) (rest : Bytes)
    → AreBytes rest
    → (image : Bytes) × (mktest extra rest ≡ ok image)
      × (length image ≡ 1048576)
      × ((i : ℕ) → i < 8192 → bit_test image (8192 + i) ≡ ok (ltb i (inodes_used extra)))
      × ((b : ℕ) → b < 8192 → bit_test image (16384 + b) ≡ ok (ltb b (blocks_used extra)))
unfolding mktest
mktest_maps extra rest b =
    let (m, run, h) = make_all-Inv extra rest b in
    (
      m.disk,
      ap (λ o. Outcome.◌>>=◌ o.0 λ _. ok o.1.disk) run,
      h.size,
      λ i small. h.bits (8192 + i) (omega arith) (omega arith) ∙ inode_bit extra i small,
      λ b small. h.bits (16384 + b) (omega arith) (omega arith) ∙ block_bit extra b small,
    )
