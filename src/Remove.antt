-- ===== src/Remove.antt =====
-- fs_unlink and fs_rmdir of homework.c.
use file_system_implementati.Base.{
  ℕ, zero, suc, ◌+◌, ◌%◌, ◌^◌, Bool, false, not, ◌||◌, List, [], ◌∷◌, get_elem?, set, if◌then◌else◌,
}
use file_system_implementati.Outcome.{
  Outcome, ok, err, exit, fault, hang, in_bounds, enotdir, enotempty,
}
use file_system_implementati.Exec.{Exec, query, lift, pure, raise, ◌>>=◌, ◌>>◌}
use file_system_implementati.Layout.{Bytes, Dirent, encode_dir}
use file_system_implementati.Device.{BlockDevice}
use file_system_implementati.FilePath.{split_path}
use file_system_implementati.Fs.{
  Fs, s_isdir, direct_0, inode_at, update_inode, read_dir, write_block, write_block_unchecked,
  clear_inode_bit, clear_block_bit, update_disk,
}
use file_system_implementati.Lookup.{matches, translate}
use file_system_implementati.Truncate.{zero_block, fs_truncate}

-- `inodes[inum]` at a negative number that was not tested.
unfoldable pub unchecked : Outcome ℕ → Outcome ℕ
unchecked (ok i) = ok i
unchecked (err e) = fault
unchecked exit = exit
unchecked fault = fault
unchecked hang = hang

unfoldable pub any_valid : List Dirent → Bool
any_valid [] = false
any_valid (e ∷ es) = e.valid || any_valid es

module _ {dev : BlockDevice} where
  -- The body of the loops for an entry that matches.
  unfoldable pub remove_entry : ℕ → ℕ → ℕ → List Dirent → Exec (Fs dev) (Unit {0})
  remove_entry now inum removed fd = do
    dir ← query (λ fs. inode_at fs inum)
    write_block (encode_dir fd) (direct_0 dir)
    clear_inode_bit removed
    update_inode inum (λ i. record i { mtime = now % 2 ^ 32 })

  -- The loop of both functions, which goes on behind a match: `n` rounds from entry `i` on. The
  -- time of round `i` is `time i`; fs_unlink ends the body by update_disk, its `after`.
  unfoldable pub remove_entries :
      Exec (Fs dev) (Unit {0})
      → (ℕ → ℕ)
      → ℕ
      → Bytes
      → ℕ
      → ℕ
      → List Dirent
      → Exec (Fs dev) (Unit {0})
  unfolding remove_entry
  remove_entries after time inum leaf zero i fd = pure tt
  remove_entries after time inum leaf (suc n) i fd = do
    e ← lift (in_bounds (get_elem? fd i))
    if not (matches leaf e) then remove_entries after time inum leaf n (i + 1) fd else do
      let fd' = set fd i (record e { valid = false })
      remove_entry (time i) inum e.inode fd'
      after
      remove_entries after time inum leaf n (i + 1) fd'

  -- Both functions from split_path on, up to the end of the loop.
  unfoldable pub remove_name : Exec (Fs dev) (Unit {0}) → (ℕ → ℕ) → Bytes → Exec (Fs dev) (Unit {0})
  unfolding remove_entries unchecked
  remove_name after time path = do
    (parent, leaf) ← lift (split_path path)
    inum ← query (λ fs. unchecked (translate fs parent))
    dir ← query (λ fs. inode_at fs inum)
    fd ← query (λ fs. read_dir fs (direct_0 dir))
    remove_entries after time inum leaf 32 0 fd

  -- `now` is the time that fs_truncate reads.
  unfoldable pub fs_unlink : ℕ → (ℕ → ℕ) → Bytes → Exec (Fs dev) (Unit {0})
  unfolding remove_name
  fs_unlink now time path = do fs_truncate now path 0; remove_name update_disk time path

  -- The directory's block and inode.
  unfoldable pub free_dir : ℕ → ℕ → Exec (Fs dev) (Unit {0})
  free_dir inum block = do
    write_block_unchecked zero_block block
    clear_block_bit block
    update_inode inum (λ i. record i { direct = set i.direct 0 0 })
    clear_inode_bit inum

  unfoldable pub fs_rmdir : (ℕ → ℕ) → Bytes → Exec (Fs dev) (Unit {0})
  unfolding remove_name free_dir any_valid
  fs_rmdir time path = do
    inum ← query (λ fs. translate fs path)
    dir ← query (λ fs. inode_at fs inum)
    if not (s_isdir dir.mode) then raise enotdir else do
      fd ← query (λ fs. read_dir fs (direct_0 dir))
      if any_valid fd
          then raise enotempty
          else do free_dir inum (direct_0 dir); remove_name (pure tt) time path; update_disk
