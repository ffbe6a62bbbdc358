-- ===== src/Directory/Fresh.antt =====
-- The first file on a disk that mkfs-hw3.c has made.
use file_system_implementati.Base.{
  ℕ, zero, suc, ◌+◌, ◌*◌, ◌/◌, ◌%◌, ◌^◌, ◌≤◌, ◌<◌, ◌≡◌, ◌≢◌, refl, ap, sym, ◌∙◌, inl, inr, true,
  false, [], ◌∷◌, replicate, ltb, leb, arith, bit_or-lt_32, bit_or, take_all, Bool-cases, list_eq,
  list_eq_sound,
}
use file_system_implementati.Outcome.{Outcome, ok, err, enoent}
use file_system_implementati.Layout.{Bytes}
use file_system_implementati.Device.{BlockDevice}
use file_system_implementati.Memory.{memory, disk_of}
use file_system_implementati.Memory.Laws.{memory-IsDevice}
use file_system_implementati.Bitmap.{bit_test}
use file_system_implementati.Bitmap.Search.{Found, found, full, first_clear_lem}
use file_system_implementati.FilePath.{parse, dot, slash}
use file_system_implementati.FilePath.Laws.{IsComponent, join, parse-join, split_path-join}
use file_system_implementati.Fs.{Fs, root_inode, s_ifreg, fs_init, get_next_inode, get_next_block}
use file_system_implementati.Lookup.{find_entry, lookup, skip_dot, walk, translate}
use file_system_implementati.Create.{Caller, fs_create, free_entry, must_not_exist}
use file_system_implementati.Mkfs.{geometry, super_of, mkfs}
use file_system_implementati.Mkfs.Blocks.{fits}
use file_system_implementati.Mkfs.Mounts.{empty_entry, mkfs_mounts}
use file_system_implementati.Directory.Entries.{IsName, matches-free}
use file_system_implementati.Directory.State.{InDir, lookup-InDir}
use file_system_implementati.Directory.Create.{create_makes}

-- When exactly the bits below `c` are set, the search finds `c`.
found_is :
    (map : Bytes) (n c : ℕ) {r : Outcome ℕ}
    → Found map 0 n r
    → ((k : ℕ) → k < n → bit_test map k ≡ ok (ltb k c))
    → c < n
    → r ≡ ok c
found_is map n c (found {r = r} lo hi clear set) bits small =
    let at_r : ok false ≡ ok (ltb r c) = sym clear ∙ bits r (omega (arith, hi)) in
    elim (Bool-cases (ltb c r)) [
      | inl lt ↦
          let at_c : ok true ≡ ok (ltb c c) =
            sym (set c (omega arith) (ground (arith, lt))) ∙ bits c small in
          absurd (ground (arith, at_c))
      | inr ge ↦ ap ok (ground (arith, ge, at_r))
    ]
found_is map n c (full set) bits small =
    let at_c : ok true ≡ ok (ltb c c) =
      sym (set c (omega arith) (omega (arith, small))) ∙ bits c small in
    absurd (ground (arith, at_c))

leb-ltb : (k c : ℕ) → leb k c ≡ ltb k (c + 1)
leb-ltb k c = ground arith

find_entry-empty : (name : Bytes) (n : ℕ) → find_entry name (replicate n empty_entry) ≡ err enoent
unfolding find_entry
find_entry-empty name zero = refl
find_entry-empty name (suc n) = rw (matches-free name empty_entry refl) (find_entry-empty name n)

first_free : free_entry (replicate 32 empty_entry) 0 ≡ ok 0
unfolding free_entry
first_free = refl

-- The path of a name in the root directory.
module _ (leaf : Bytes) (component : IsComponent leaf) (is_name : IsName leaf)
    (not_dot : leaf ≢ dot) where
  names : skip_dot (parse (join (leaf ∷ []))) ≡ leaf ∷ []
  unfolding skip_dot
  names =
      ap skip_dot
        (parse-join (leaf ∷ []) (component, tt) ∙ ap (λ l. l ∷ []) (take_all 27 leaf is_name.fits))
      ∙ elim (Bool-cases (list_eq leaf dot)) [
        | inl hit ↦ absurd (not_dot (list_eq_sound leaf dot hit))
        | inr miss ↦ rw miss refl
      ]

  translate-name :
      {dev : BlockDevice} (fs : Fs dev)
      → translate fs (join (leaf ∷ [])) ≡ walk fs root_inode (leaf ∷ [])
  unfolding translate
  translate-name fs = ap (walk fs root_inode) names

  walk-name :
      {dev : BlockDevice} (fs : Fs dev) (m : ℕ)
      → lookup fs root_inode leaf ≡ ok m
      → m ≢ 0
      → walk fs root_inode (leaf ∷ []) ≡ ok m
  unfolding walk
  walk-name fs m h ne = ground (arith, h, ne)

  walk-none :
      {dev : BlockDevice} (fs : Fs dev)
      → lookup fs root_inode leaf ≡ err enoent
      → must_not_exist (walk fs root_inode (leaf ∷ [])) ≡ ok tt
  unfolding walk must_not_exist
  walk-none fs h = ground (arith, h)

pub root_found : {dev : BlockDevice} (fs : Fs dev) → translate fs (slash ∷ []) ≡ ok root_inode
unfolding translate walk skip_dot parse
root_found fs = refl

-- The regions of the maps have a bit for each inode of the table and each block of the disk.
bits_enough :
    (size : ℕ)
    → 6144 ≤ size
    → size < 2 ^ 31
    → ((geometry size).n_ino_blks * 16 ≤ (geometry size).n_ino_map_blks * 8192)
      × ((geometry size).n_blks ≤ (geometry size).n_map_blks * 8192)
      × ((geometry size).rootdir_base + 1 < (geometry size).n_blks)
      × ((geometry size).n_ino_blks < 2 ^ 20)
unfolding geometry
bits_enough size lo hi = (omega arith, omega arith, omega arith, omega arith)

module _ (size : ℕ) (lo : 6144 ≤ size) (hi : size < 2 ^ 31) (fs : Fs memory)
    (sb : fs.sb ≡ super_of (geometry size))
    (h : InDir root_inode (geometry size).rootdir_base (replicate 32 empty_entry) fs) where
  next_inode :
      ((i : ℕ) → i < (geometry size).n_ino_map_blks * 8192 → bit_test fs.inode_map i ≡ ok (ltb i 2))
      → get_next_inode fs ≡ ok 2
  unfolding get_next_inode
  next_inode bits =
      let (enough, _, _, small) = bits_enough size lo hi in
      let f = fits size (omega arith) hi in
      let region : fs.sb.inode_region_sz ≡ (geometry size).n_ino_blks =
        ap (λ t. t.inode_region_sz) sb in
      let map_sz : fs.sb.inode_map_sz ≡ (geometry size).n_ino_map_blks =
        ap (λ t. t.inode_map_sz) sb in
      let n = (fs.sb.inode_region_sz * 1024) % 2 ^ 32 / 64 in
      found_is fs.inode_map n 2
        (first_clear_lem fs.inode_map n 0
          (omega (arith, region, map_sz, enough, small, h.wf.inode_map_length)))
        (λ k below. bits k (omega (arith, below, region, enough, small)))
        (omega (arith, region, small, f.some_inodes))

  next_block :
      ((b : ℕ)
        → b < (geometry size).n_map_blks * 8192
        → bit_test fs.block_map b ≡ ok (leb b (geometry size).rootdir_base))
      → get_next_block fs ≡ ok ((geometry size).rootdir_base + 1)
  unfolding get_next_block
  next_block bits =
      let (_, enough, room, _) = bits_enough size lo hi in
      let blocks : fs.sb.num_blocks ≡ (geometry size).n_blks = ap (λ t. t.num_blocks) sb in
      let map_sz : fs.sb.block_map_sz ≡ (geometry size).n_map_blks = ap (λ t. t.block_map_sz) sb in
      found_is fs.block_map fs.sb.num_blocks ((geometry size).rootdir_base + 1)
        (first_clear_lem fs.block_map fs.sb.num_blocks 0
          (omega (arith, blocks, map_sz, enough, h.wf.block_map_length)))
        (λ k below.
          bits k (omega (arith, below, blocks, enough))
          ∙ ap ok (leb-ltb k (geometry size).rootdir_base))
        (omega (arith, blocks, room))

-- From mkfs-hw3.c to the first file: on the image for a disk of at least six blocks and less than 2^31
-- bytes, fs_init succeeds, and fs_create of a path with one component, which is a name of at most 27
-- characters other than ".", returns 0; then translate finds the path, at inode 2.
pub fs_create_first :
    (t size : ℕ) {image : Bytes} (ctx : Caller) (leaf : Bytes) (mode : ℕ)
    → mkfs t size ≡ ok image
    → 6144 ≤ size
    → size < 2 ^ 31
    → IsComponent leaf
    → IsName leaf
    → leaf ≢ dot
    → mode < 2 ^ 32
    → (fs : Fs memory) × (fs' : Fs memory) × (fs_init memory (disk_of (geometry size).n_blks image)
        ≡ ok fs)
      × (fs_create ctx (join (leaf ∷ [])) mode fs ≡ (ok tt, fs'))
      × (translate fs' (join (leaf ∷ [])) ≡ ok 2)
unfolding fs_create
fs_create_first t size ctx leaf mode h lo hi component is_name not_dot small =
    let (fs, init, dir, sb, inode_bits, block_bits) = mkfs_mounts t size h (omega arith) hi in
    let f = fits size (omega arith) hi in
    let none : lookup fs root_inode leaf ≡ err enoent =
      lookup-InDir fs leaf dir ∙ find_entry-empty leaf 32 in
    let (fs', run, created) =
      create_makes memory-IsDevice fs ctx (join (leaf ∷ [])) (bit_or mode s_ifreg) false dir
        (inode_bits 1 (omega (arith, f.some_map)))
        (split_path-join [] leaf tt component is_name.fits (omega arith)) is_name
        (bit_or-lt_32 mode s_ifreg small (omega arith)) (root_found fs)
        (ap must_not_exist (translate-name leaf component is_name not_dot fs)
          ∙ walk-none leaf component is_name not_dot fs none)
        none first_free (next_inode size lo hi fs sb dir inode_bits)
        (next_block size lo hi fs sb dir block_bits) in
    (
      fs,
      fs',
      init,
      run,
      translate-name leaf component is_name not_dot fs'
          ∙ walk-name leaf component is_name not_dot fs' 2 created.new (omega arith),
    )
