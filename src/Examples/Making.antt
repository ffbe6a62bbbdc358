-- ===== src/Examples/Making.antt =====
-- The image of mkfs-hw3.c for a disk of eight blocks, and that of mktest.c.
use file_system_implementati.Base.{
  ℕ, ◌+◌, ◌*◌, ◌<◌, ◌≡◌, refl, true, some, [], ◌∷◌, length, replicate, leb, ltb, list_eq, arith,
}
use file_system_implementati.Outcome.{Outcome, ok}
use file_system_implementati.Layout.{Bytes, le_bytes, concat, encode_inode}
use file_system_implementati.Bitmap.{bit_set, bit_test}
use file_system_implementati.Mkfs.{
  geometry, super_of, store, encode_super, bit_set_at, mark_blocks, mkfs,
}
use file_system_implementati.Memory.Laws.{AreBytes-zeros}
use file_system_implementati.Mkfs.Maps.{mkfs_maps}
use file_system_implementati.Fs.{Fs, root_inode, fs_init}
use file_system_implementati.Directory.State.{InDir}
use file_system_implementati.Directory.Entries.{IsName}
use file_system_implementati.Directory.Fresh.{fs_create_first}
use file_system_implementati.Create.{Caller, fs_create}
use file_system_implementati.FilePath.Laws.{join}
use file_system_implementati.Lookup.{translate}
use file_system_implementati.Memory.{memory, disk_of}
use file_system_implementati.Mkfs.Mounts.{empty_entry, mkfs_mounts}
use file_system_implementati.Mkfs.Arguments.{Host, parseint, arguments}
use file_system_implementati.Mktest.Files.{mktest}
use file_system_implementati.Mktest.Maps.{inodes_used, blocks_used, mktest_maps}

image_of : Outcome Bytes → Bytes
image_of (ok b) = b
image_of _ = []

abbrev image : Bytes
image = image_of (mkfs 7 8192)

image_made : mkfs 7 8192 ≡ ok image
unfolding mkfs geometry store encode_super bit_set_at mark_blocks bit_set encode_inode le_bytes
    concat image_of
image_made = refl

mkfs_maps_example :
    (bit_test image ((geometry 8192).inode_map_base * 8192 + 5) ≡ ok (ltb 5 2))
    × (bit_test image ((geometry 8192).block_map_base * 8192 + 3)
        ≡ ok (leb 3 (geometry 8192).rootdir_base))
unfolding geometry
mkfs_maps_example = mkfs_maps 7 8192 image 5 3 image_made (omega arith) (omega arith)

mkfs_mounts_example :
    (fs : Fs memory) × (fs_init memory (disk_of (geometry 8192).n_blks image) ≡ ok fs)
    × InDir root_inode (geometry 8192).rootdir_base (replicate 32 empty_entry) fs
    × (fs.sb ≡ super_of (geometry 8192))
    × ((i : ℕ) → i < (geometry 8192).n_ino_map_blks * 8192 → bit_test fs.inode_map i ≡ ok (ltb i 2))
    × ((b : ℕ)
        → b < (geometry 8192).n_map_blks * 8192
        → bit_test fs.block_map b ≡ ok (leb b (geometry 8192).rootdir_base))
mkfs_mounts_example = mkfs_mounts 7 8192 image_made (omega arith) (omega arith)

-- The first file on that image.
abbrev first_name : Bytes
first_name = b'a' ∷ []

abbrev caller : Caller
caller = record { uid = 500; gid = 500; time = 1390000000 }

first_name-IsName : IsName first_name
first_name-IsName = record { chars = (((omega arith), omega arith), tt); fits = omega arith }

fs_create_first_example :
    (fs : Fs memory) × (fs' : Fs memory) × (fs_init memory (disk_of (geometry 8192).n_blks image)
      ≡ ok fs)
    × (fs_create caller (join (first_name ∷ [])) 0o644 fs ≡ (ok tt, fs'))
    × (translate fs' (join (first_name ∷ [])) ≡ ok 2)
fs_create_first_example =
    fs_create_first 7 8192 caller first_name 0o644 image_made (omega arith) (omega arith) (refl, tt)
      first_name-IsName (λ e. cc e) (omega arith)

-- The images of mktest.c, where malloc left zeros.
mktest_maps_example :
    (image : Bytes) × (mktest true (replicate 6 0) ≡ ok image)
    × (length image ≡ 1048576)
    × ((i : ℕ) → i < 8192 → bit_test image (8192 + i) ≡ ok (ltb i (inodes_used true)))
    × ((b : ℕ) → b < 8192 → bit_test image (16384 + b) ≡ ok (ltb b (blocks_used true)))
mktest_maps_example = mktest_maps true (replicate 6 0) (AreBytes-zeros 6)

-- The host for "-size 8k disk", where the file does not exist yet.
abbrev host : Host
host = record { strtol = λ s. (8, b'k' ∷ []); open_size = λ f. some 0 }

abbrev disk_name : Bytes
disk_name = b'd' ∷ b'i' ∷ b's' ∷ b'k' ∷ []

size_parsed :
    arguments host ((b'-' ∷ b's' ∷ b'i' ∷ b'z' ∷ b'e' ∷ []) ∷ (b'8' ∷ b'k' ∷ []) ∷ disk_name ∷ [])
    ≡ ok (disk_name, 8192)
unfolding arguments parseint list_eq
size_parsed = refl
