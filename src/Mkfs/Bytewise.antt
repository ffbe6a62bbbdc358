-- ===== src/Mkfs/Bytewise.antt =====
-- The bytes of an image that mkfs-hw3.c writes.
use file_system_implementati.Base.{
  ℕ, zero, suc, ◌+◌, ◌*◌, ◌/◌, ◌≤◌, ◌≡◌, ◌≢◌, ◌⊎◌, inl, inr, refl, ap, sym, ◌∙◌, ◌++◌, length, take,
  drop, get_elem?, replicate, ◌==◌, arith, Bool-cases, get_elem?-set_ne, length-take,
}
use file_system_implementati.Outcome.{Outcome, ok, exit, >>=-eq-ok}
use file_system_implementati.Layout.{Bytes, fs_block_size, encode_inode}
use file_system_implementati.Layout.Words.{take-append, drop-append}
use file_system_implementati.Bitmap.Laws.{bit_set-eq-ok}
use file_system_implementati.ReadImg.Ends.{ok-injective}
use file_system_implementati.Mkfs.{
  geometry, store, bit_set_at, mark_blocks, encode_super, super_of, root_of, mkfs,
}
use file_system_implementati.Mkfs.Stores.{store-eq-ok}
use file_system_implementati.Mkfs.Maps.{last_test}

-- What has been stored is there.
pub store_self :
    (disk : Bytes) (off : ℕ) (b : Bytes) {d : Bytes}
    → store disk off b ≡ ok d
    → take (length b) (drop off d) ≡ b
store_self disk off b h =
    let (fits, e) = store-eq-ok disk off b h in
    rw (← e) (
      ap (take (length b)) (
        drop-append (take off disk) (b ++ drop (off + length b) disk) off
          (omega (arith, length-take {0} off disk)))
      ∙ take-append b (drop (off + length b) disk) (length b) refl)

pub bit_set_at_apart :
    (disk : Bytes) (base j i : ℕ) {d : Bytes}
    → bit_set_at disk base j ≡ ok d
    → i ≢ (base * 8192 + j) / 8
    → get_elem? d i ≡ get_elem? disk i
unfolding bit_set_at
bit_set_at_apart disk base j i h ne =
    let (b, at, e) = bit_set-eq-ok disk (base * fs_block_size * 8 + j) h in
    ap (λ d. get_elem? d i) e
    ∙ get_elem?-set_ne disk ((base * fs_block_size * 8 + j) / 8) i _ (λ p. ne (omega (arith, p)))

pub mark_blocks_apart :
    (n j base : ℕ) (disk : Bytes) (i : ℕ) {d : Bytes}
    → mark_blocks n j base disk ≡ ok d
    → (i * 8 + 8 ≤ base * 8192 + j) ⊎ (base * 8192 + j + n ≤ i * 8)
    → get_elem? d i ≡ get_elem? disk i
unfolding mark_blocks
mark_blocks_apart zero j base disk i h apart = ap (λ o. get_elem? o i) (sym (ok-injective h))
mark_blocks_apart (suc n) j base disk i h apart =
    let (m, e, h') = >>=-eq-ok (bit_set_at disk base j) _ h in
    mark_blocks_apart n (j + 1) base m i h' (omega arith)
    ∙ bit_set_at_apart disk base j i e (omega arith)

-- The steps of main.
pub record Made (t size : ℕ) (image : Bytes) : Type 0 where
  pub whole : size ≡ (geometry size).n_blks * 1024
  pub with_super : Bytes
  pub stored :
      store
        (replicate ((geometry size).n_blks * 1024) 0)
        0
        (encode_super (super_of (geometry size)))
      ≡ ok with_super
  pub one_bit : Bytes
  pub first : bit_set_at with_super (geometry size).inode_map_base 0 ≡ ok one_bit
  pub two_bits : Bytes
  pub second : bit_set_at one_bit (geometry size).inode_map_base 1 ≡ ok two_bits
  pub with_maps : Bytes
  pub marked :
      mark_blocks ((geometry size).rootdir_base + 1) 0 (geometry size).block_map_base two_bits
      ≡ ok with_maps
  pub rooted :
      store with_maps
        ((geometry size).inode_base * 1024 + 64)
        (encode_inode (root_of (geometry size) t))
      ≡ ok image

pub mkfs-eq-ok : (t size : ℕ) {image : Bytes} → mkfs t size ≡ ok image → Made t size image
unfolding mkfs
mkfs-eq-ok t size {image} h = elim (Bool-cases (size == 0)) [
  | inl e ↦ absurd (let h' : ◌≡◌ {A = Outcome Bytes} exit (ok image) = rw e at h in cc)
  | inr e ↦
      let g = geometry size in
      let (d, made, h1) =
        >>=-eq-ok (store (replicate (g.n_blks * fs_block_size) 0) 0 (encode_super (super_of g))) _
          (rw e at h) in
      let (d1, first, h2) = >>=-eq-ok (bit_set_at d g.inode_map_base 0) _ h1 in
      let (d2, second, h3) = >>=-eq-ok (bit_set_at d1 g.inode_map_base 1) _ h2 in
      let (m, marks, h4) =
        >>=-eq-ok (mark_blocks (g.rootdir_base + 1) 0 g.block_map_base d2) _ h3 in
      let (i, rooted, h5) =
        >>=-eq-ok (store m (g.inode_base * fs_block_size + 64) (encode_inode (root_of g t))) _ h4 in
      let (whole, same) = last_test size g i image h5 in
      record {
        whole = whole;
        with_super = d;
        stored = made;
        one_bit = d1;
        first = first;
        two_bits = d2;
        second = second;
        with_maps = m;
        marked = marks;
        rooted = rooted ∙ ap ok same;
      }
]
