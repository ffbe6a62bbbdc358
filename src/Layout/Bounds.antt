-- ===== src/Layout/Bounds.antt =====
-- What is decoded from bytes has the values of its C types.
use file_system_implementati.Base.{
  ℕ, zero, suc, ◌*◌, ◌^◌, ◌<◌, ◌≡◌, refl, [], ◌∷◌, map, All, length, take, drop, arith,
}
use file_system_implementati.Base.Int.{signed32, pattern32}
use file_system_implementati.Layout.{
  Bytes, n_direct, le_value, chunks, decode_addrs, decode_super, decode_inode, decode_inodes,
}
use file_system_implementati.Layout.Codec.{IsInode}
use file_system_implementati.Device.{AreBytes}

abbrev bound : ℕ → ℕ
bound zero = 1
bound (suc n) = 256 * bound n

le_value-take : (n : ℕ) (b : Bytes) → AreBytes b → le_value (take n b) < bound n
unfolding le_value
le_value-take zero b h = omega arith
le_value-take (suc n) [] h = omega (arith, le_value-take n [] h)
le_value-take (suc n) (x ∷ b) h = omega (arith, h.0, le_value-take n b h.1)

AreBytes-drop : (n : ℕ) (b : Bytes) → AreBytes b → AreBytes (drop n b)
AreBytes-drop zero b h = h
AreBytes-drop (suc n) [] h = tt
AreBytes-drop (suc n) (x ∷ b) h = AreBytes-drop n b h.1

AreBytes-take : (n : ℕ) (b : Bytes) → AreBytes b → AreBytes (take n b)
AreBytes-take zero b h = tt
AreBytes-take (suc n) [] h = tt
AreBytes-take (suc n) (x ∷ b) h = (h.0, AreBytes-take n b h.1)

-- A field of an array of bytes.
word : (k n : ℕ) (b : Bytes) → AreBytes b → le_value (take n (drop k b)) < bound n
word k n b h = le_value-take n (drop k b) (AreBytes-drop k b h)

words : (n : ℕ) (b : Bytes) → AreBytes b → All (λ a. a < 2 ^ 32) (map le_value (chunks n 4 b))
unfolding chunks
words zero b h = tt
words (suc n) b h = (le_value-take 4 b h, words n (drop 4 b) (AreBytes-drop 4 b h))

length-chunks : (n k : ℕ) (b : Bytes) → length (map le_value (chunks n k b)) ≡ n
unfolding chunks
length-chunks zero k b = refl
length-chunks (suc n) k b = omega (arith, length-chunks n k (drop k b))

pub decode_addrs-fit : (b : Bytes) → AreBytes b → All (λ a. a < 2 ^ 32) (decode_addrs b)
unfolding decode_addrs
decode_addrs-fit b h = words 256 b h

pub decode_super-num_blocks : (b : Bytes) → AreBytes b → (decode_super b).num_blocks < 2 ^ 32
unfolding decode_super
decode_super-num_blocks b h = word 16 4 b h

signed32-fits :
    (w : ℕ)
    → w < 2 ^ 32
    → (pattern32 (signed32 w) < 2 ^ 32) × (signed32 (pattern32 (signed32 w)) ≡ signed32 w)
signed32-fits w m = ground arith

decode_inode-IsInode : (b : Bytes) → AreBytes b → IsInode (decode_inode b)
unfolding decode_inode
decode_inode-IsInode b h =
    let (small, back) = signed32-fits (le_value (take 4 (drop 16 b))) (word 16 4 b h) in
    record {
      uid = word 0 2 b h;
      gid = word 2 2 b h;
      mode = word 4 4 b h;
      ctime = word 8 4 b h;
      mtime = word 12 4 b h;
      size_pattern = small;
      size = back;
      direct_length = length-chunks n_direct 4 (drop 20 b);
      direct = words n_direct (drop 20 b) (AreBytes-drop 20 b h);
      indir_1 = word 44 4 b h;
      indir_2 = word 48 4 b h;
      pad_length = length-chunks 3 4 (drop 52 b);
      pad = words 3 (drop 52 b) (AreBytes-drop 52 b h);
    }

-- The inodes that fs_init loads.
pub decode_inodes-IsInode :
    (n : ℕ) (b : Bytes)
    → AreBytes b
    → All IsInode (decode_inodes n b) × (length (decode_inodes n b) ≡ n)
unfolding decode_inodes chunks
decode_inodes-IsInode zero b h = (tt, refl)
decode_inodes-IsInode (suc n) b h =
    let (rest, e) = decode_inodes-IsInode n (drop 64 b) (AreBytes-drop 64 b h) in
    ((decode_inode-IsInode (take 64 b) (AreBytes-take 64 b h), rest), omega (arith, e))
