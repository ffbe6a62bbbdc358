-- ===== src/Truncate.antt =====
-- fs_truncate of homework.c.
pub mod Leak
use file_system_implementati.Base.{
  ℕ, zero, suc, ◌+◌, ◌%◌, ◌^◌, not, List, [], ◌∷◌, ltb, ◌==◌, get_elem?, if◌then◌else◌, replicate,
}
use file_system_implementati.Base.Int.{pos}
use file_system_implementati.Outcome.{hang, in_bounds, eisdir, einval}
use file_system_implementati.Exec.{Exec, query, lift, pure, raise, ◌>>=◌, ◌>>◌}
use file_system_implementati.Layout.{Bytes, fs_block_size, decode_addrs}
use file_system_implementati.Device.{BlockDevice}
use file_system_implementati.Fs.{
  Fs, s_isdir, inode_at, update_inode, read_block, write_block_unchecked, clear_block_bit,
  update_disk,
}
use file_system_implementati.Lookup.{translate}

-- `block`, cleared by memset
abbrev pub zero_block : Bytes
zero_block = replicate fs_block_size 0

-- The rounds given to the double indirect loop. A round clears the table that it read, so a second
-- visit of an index goes on at index 1, and a second visit of index 1 is followed by no end.
abbrev pub rounds : ℕ
rounds = 600

module _ {dev : BlockDevice} where
  -- bit_clear, then a write whose result is ignored.
  unfoldable pub release : ℕ → Exec (Fs dev) (Unit {0})
  release b = do clear_block_bit b; write_block_unchecked zero_block b

  -- The loop over the direct blocks: the new array.
  unfoldable pub free_direct : List ℕ → Exec (Fs dev) (List ℕ)
  unfolding release
  free_direct [] = pure []
  free_direct (a ∷ addr) =
      if a == 0 then pure (a ∷ addr) else (do release a; rest ← free_direct addr; pure (0 ∷ rest))

  -- The loop over an indirect block, with the value of `i` behind it.
  unfoldable pub free_addrs : ℕ → List ℕ → Exec (Fs dev) ℕ
  unfolding release
  free_addrs i [] = pure i
  free_addrs i (a ∷ addr) = if a == 0 then pure i else (do release a; free_addrs (i + 1) addr)

  unfoldable pub free_single : ℕ → Exec (Fs dev) (Unit {0})
  unfolding free_addrs
  free_single inum = do
    i ← query (λ fs. inode_at fs inum)
    if i.indir_1 == 0 then pure tt else do
      block ← query (λ fs. read_block fs i.indir_1)
      free_addrs 0 (decode_addrs block)
      release i.indir_1
      update_inode inum (λ i. record i { indir_1 = 0 })

  -- The loop over the double indirect block. The loop inside it counts with the same `i`.
  unfoldable pub free_indir_2 : ℕ → ℕ → List ℕ → Exec (Fs dev) (Unit {0})
  unfolding free_addrs
  free_indir_2 zero i indir_2 = lift hang
  free_indir_2 (suc n) i indir_2 = if not (ltb i 256) then pure tt else do
    a ← lift (in_bounds (get_elem? indir_2 i))
    if a == 0 then pure tt else do
      block ← query (λ fs. read_block fs a)
      i' ← free_addrs 0 (decode_addrs block)
      release a
      free_indir_2 n (i' + 1) indir_2

  unfoldable pub free_double : ℕ → Exec (Fs dev) (Unit {0})
  unfolding free_indir_2
  free_double inum = do
    i ← query (λ fs. inode_at fs inum)
    if i.indir_2 == 0 then pure tt else do
      block ← query (λ fs. read_block fs i.indir_2)
      free_indir_2 rounds 0 (decode_addrs block)
      release i.indir_2
      update_inode inum (λ i. record i { indir_2 = 0 })

  unfoldable pub free_file : ℕ → ℕ → Exec (Fs dev) (Unit {0})
  unfolding free_direct free_single free_double
  free_file now inum = do
    i ← query (λ fs. inode_at fs inum)
    direct' ← free_direct i.direct
    update_inode inum (λ i. record i { direct = direct' })
    free_single inum
    free_double inum
    update_inode inum (λ i. record i { size = pos 0; mtime = now % 2 ^ 32 })
    update_disk

  unfoldable pub fs_truncate : ℕ → Bytes → ℕ → Exec (Fs dev) (Unit {0})
  unfolding free_file
  fs_truncate now path len = if ltb 0 len then raise einval else do
    inum ← query (λ fs. translate fs path)
    i ← query (λ fs. inode_at fs inum)
    if s_isdir i.mode then raise eisdir else free_file now inum
