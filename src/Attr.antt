-- ===== src/Attr.antt =====
-- fill_stat, fs_getattr, fs_readdir, fs_chmod, fs_utime and fs_statfs of homework.c.
use file_system_implementati.Base.{ℕ, ◌%◌, ◌^◌, not, List, [], ◌∷◌, bit_or, if◌then◌else◌}
use file_system_implementati.Base.Int.{ℤ}
use file_system_implementati.Outcome
use file_system_implementati.Outcome.{Outcome, ok, err, enotdir}
use file_system_implementati.Exec.{Exec, query, ◌>>=◌, ◌>>◌}
use file_system_implementati.Layout.{Bytes, Dirent, Inode, fs_block_size}
use file_system_implementati.Device.{BlockDevice}
use file_system_implementati.Bitmap.{count_clear}
use file_system_implementati.Fs.{
  Fs, s_isdir, s_ifdir, s_ifreg, direct_0, inode_at, update_inode, read_dir, update_disk,
}
use file_system_implementati.Lookup.{translate}

-- `struct stat`, the fields that fill_stat sets; memset clears the others.
pub record Stat : Type 0 where
  pub st_ino : ℕ
  pub st_mode : ℕ
  pub st_uid : ℕ
  pub st_gid : ℕ
  pub st_size : ℤ
  pub st_ctime : ℕ
  pub st_mtime : ℕ
  pub st_atime : ℕ
  pub st_nlink : ℕ

-- `struct statvfs`, the fields that fs_statfs sets.
pub record StatVfs : Type 0 where
  pub f_bsize : ℕ
  pub f_blocks : ℕ
  pub f_bfree : ℕ
  pub f_bavail : ℕ
  pub f_namemax : ℕ

abbrev pub stat_of : ℕ → Inode → Stat
stat_of inum i = record {
  st_ino = inum;
  st_mode = i.mode;
  st_uid = i.uid;
  st_gid = i.gid;
  st_size = i.size;
  st_ctime = i.ctime;
  st_mtime = i.mtime;
  st_atime = i.mtime;
  st_nlink = 1;
}

abbrev pub changed_mode : ℕ → Inode → Inode
changed_mode mode i = record i {
  mode = if s_isdir i.mode then bit_or mode s_ifdir else bit_or mode s_ifreg;
}

module _ {dev : BlockDevice} where
  unfoldable pub fill_stat : Fs dev → ℕ → Outcome Stat
  unfolding inode_at
  fill_stat fs inum = Outcome.◌>>=◌ (inode_at fs inum) λ i. ok (stat_of inum i)

  unfoldable pub fs_getattr : Fs dev → Bytes → Outcome Stat
  fs_getattr fs path = Outcome.◌>>=◌ (translate fs path) λ inum. fill_stat fs inum

  -- The calls of `filler` that the loop of fs_readdir makes, in order. What is passed on is the array of
  -- the name, of 28 bytes; `filler` looks for its end.
  unfoldable pub fill_entries : Fs dev → List Dirent → Outcome (List (Bytes × Stat))
  fill_entries fs [] = ok []
  fill_entries fs (e ∷ es) =
      if e.valid
      then (Outcome.◌>>=◌ (fill_stat fs e.inode)
          λ st. Outcome.◌>>=◌ (fill_entries fs es) λ rest. ok ((e.name, st) ∷ rest))
      else fill_entries fs es

  unfoldable pub fs_readdir : Fs dev → Bytes → Outcome (List (Bytes × Stat))
  fs_readdir fs path = Outcome.◌>>=◌ (translate fs path) λ inum.
      Outcome.◌>>=◌ (inode_at fs inum) λ dir.
        if not (s_isdir dir.mode)
        then err enotdir
        else (Outcome.◌>>=◌ (read_dir fs (direct_0 dir)) λ fd. fill_entries fs fd)

  unfoldable pub fs_chmod : Bytes → ℕ → Exec (Fs dev) (Unit {0})
  fs_chmod path mode = do
    inum ← query (λ fs. translate fs path)
    update_inode inum (changed_mode mode)
    update_disk

  -- `modtime` is a `time_t`; the field has 32 bits.
  unfoldable pub fs_utime : Bytes → ℕ → Exec (Fs dev) (Unit {0})
  fs_utime path modtime = do
    inum ← query (λ fs. translate fs path)
    update_inode inum (λ i. record i { mtime = modtime % 2 ^ 32 })
    update_disk

  unfoldable pub fs_statfs : Fs dev → Outcome StatVfs
  fs_statfs fs = Outcome.◌>>=◌ (count_clear fs.block_map fs.sb.num_blocks 0) λ res. ok (record {
    f_bsize = fs_block_size;
    f_blocks = fs.sb.num_blocks;
    f_bfree = res;
    f_bavail = res;
    f_namemax = 27;
  })
