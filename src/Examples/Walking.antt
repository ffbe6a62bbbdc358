-- ===== src/Examples/Walking.antt =====
-- read-img.c at concrete inputs: an image of nine blocks without allocated inodes or blocks, whose
-- root directory stands in block 4.
use file_system_implementati.Base.{
  ◌≡◌, ◌≢◌, ◌↔◌, ◌-◌, ◌≤◌, ◌<◌, Bool, refl, true, false, [], ◌∷◌, ◌++◌, replicate,
}
use file_system_implementati.Outcome.{Outcome, ok, hang}
use file_system_implementati.Layout.{Bytes, encode_inode, decode_super, decode_inode, decode_dir}
use file_system_implementati.Mkfs.{encode_super}
use file_system_implementati.ReadImg.{
  read_img, Image, State, Flow, next, explore, image_of, start, walk_tree, visit, reach_dir,
  reach_file, reach_entries, reach_entry, push, reach_blocks, reach_block, slice,
  unreachable_inodes, unreachable_inode, unreachable_block, unreachable_blocks, block_map_at,
  first_block, marked_free, test_at, max_inodes, inode_map_at,
}
use file_system_implementati.ReadImg.Tree.{Reachable}
use file_system_implementati.ReadImg.Complete.{explore_iff}
use file_system_implementati.ReadImg.Lost.{unreachable_inodes_lem}
use file_system_implementati.Bitmap.{bit_set, bit_test}
use mathlib.Core.List.{Memᴰ}
use mathlib.Core.List.Memᴰ
use file_system_implementati.ReadImg.Blocks.{unreachable_blocks_lem}
use file_system_implementati.ReadImg.Walk.{read_img-ne-hang}
use file_system_implementati.Examples.{sb, zeros, root}

-- The root directory, with an entry that names the root again.
abbrev looped : Bytes
looped =
    encode_super sb
    ++ (zeros
        ++ (zeros
            ++ ((replicate 64 0 ++ (encode_inode root ++ replicate 896 0))
                ++ ((7 ∷ replicate 1023 0) ++ replicate 4096 0))))

read_img-ne-hang_example : read_img looped ≢ hang
read_img-ne-hang_example = read_img-ne-hang looped

-- An image of 16 blocks: the root directory with a file that is inode 2, and inode 3, which no
-- directory names.
abbrev one_file : Bytes
one_file =
    encode_super sb
    ++ ((11 ∷ replicate 1023 0)
        ++ (zeros
            ++ ((replicate 64 0 ++ (encode_inode root ++ replicate 896 0))
                ++ ((9 ∷ replicate 1023 0) ++ replicate 11264 0))))

abbrev image : Image
image = image_of one_file

last_state : Outcome Flow → State
last_state (ok (next t)) = t
last_state _ = start image [] []

abbrev reached : State
reached = last_state (explore image [])

one_file_ends : explore image [] ≡ ok (next reached)
unfolding explore walk_tree visit reach_dir reach_file reach_entries reach_entry push reach_blocks
    reach_block slice bit_set bit_test last_state encode_super encode_inode decode_super
    decode_inode decode_dir
one_file_ends = refl

explore_iff_example :
    (bit_test reached.imap 2 ≡ ok true)
    ↔ ((d : Bool) × Reachable image (record { dir = d; inum = 2 }))
explore_iff_example = explore_iff image [] reached 2 one_file_ends

lost_lines :
    unreachable_inodes image reached.imap (max_inodes image.sb - 1) 1
    ≡ ok (unreachable_inode 3 ∷ [])
unfolding unreachable_inodes explore walk_tree visit reach_dir reach_file reach_entries reach_entry
    push reach_blocks reach_block slice bit_set bit_test last_state encode_super encode_inode
    decode_super decode_inode decode_dir
lost_lines = refl

unreachable_inodes_lem_example : Memᴰ (unreachable_inode 3) (unreachable_inode 3 ∷ []) ↔ (
    (1 ≤ 3)
    × (3 < max_inodes image.sb)
    × (test_at image.disk inode_map_at 3 ≡ ok true)
    × ((d : Bool) → ¬ Reachable image (record { dir = d; inum = 3 })))
unreachable_inodes_lem_example =
    unreachable_inodes_lem image [] reached (unreachable_inode 3 ∷ []) 3 one_file_ends lost_lines

-- The root directory is in block 4, which the map of the image has as free.
block_lines :
    unreachable_blocks image reached.blkmap
      (image.sb.num_blocks - first_block image.sb)
      (first_block image.sb)
    ≡ ok (unreachable_block 4 ∷ [])
unfolding unreachable_blocks explore walk_tree visit reach_dir reach_file reach_entries reach_entry
    push reach_blocks reach_block slice bit_set bit_test last_state encode_super encode_inode
    decode_super decode_inode decode_dir
block_lines = refl

unreachable_blocks_lem_example :
    (Memᴰ (unreachable_block 4) (unreachable_block 4 ∷ [])
      ↔ ((first_block image.sb ≤ 4) × (4 < image.sb.num_blocks) × Memᴰ (marked_free 4) reached.out))
    × (Memᴰ (unreachable_block 4) (unreachable_block 4 ∷ [])
        → test_at image.disk (block_map_at image.sb) 4 ≡ ok false)
unreachable_blocks_lem_example =
    unreachable_blocks_lem image [] reached (unreachable_block 4 ∷ []) 4 (λ m. Memᴰ.not-nil m)
      one_file_ends block_lines
