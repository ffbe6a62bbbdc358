-- ===== src/Examples/Leaking.antt =====
-- The loop of fs_truncate over a double indirect block at a concrete input: block 5 holds 256 numbers,
-- and the double indirect block names block 4 behind it.
use file_system_implementati.Base.{
  ◌≡◌, ◌≢◌, refl, subst, sym, [], ◌∷◌, ◌++◌, All, take, replicate, arith, All-replicate,
}
use file_system_implementati.Outcome.{ok}
use file_system_implementati.Exec.{◌>>=◌}
use file_system_implementati.Layout.{Bytes, decode_addrs}
use file_system_implementati.Memory.{memory, memory_read}
use file_system_implementati.Fs.{Fs, read_block}
use file_system_implementati.Truncate.{release, free_addrs, free_indir_2}
use file_system_implementati.Truncate.Leak.{free_indir_2_leaks}
use file_system_implementati.Examples.{sb, inode_map, block_map, blocks, no_inode, root}

abbrev full : Bytes
full = replicate 1024 1

abbrev small : Fs memory
small = record {
  sb = sb;
  inode_map = inode_map;
  block_map = block_map;
  inodes = no_inode ∷ root ∷ replicate 14 no_inode;
  disk = take 5 blocks ++ (full ∷ []);
}

full_read : read_block small 5 ≡ ok full
unfolding read_block memory_read
full_read = refl

full_addrs : decode_addrs full ≡ replicate 256 0x01010101
unfolding decode_addrs
full_addrs = refl

full-nonzero : All (λ b. b ≢ 0) (decode_addrs full)
full-nonzero =
    subst (All (λ b. b ≢ 0)) (sym full_addrs)
      (All-replicate {0, 0} (λ b. b ≢ 0) 256 0x01010101 (omega arith))

free_indir_2_leaks_example :
    free_indir_2 600 0 (5 ∷ 4 ∷ []) small
    ≡ (free_addrs 0 (decode_addrs full) >>= λ _. release 5) small
free_indir_2_leaks_example =
    free_indir_2_leaks small 598 5 (4 ∷ []) full (omega arith) full_read full-nonzero
