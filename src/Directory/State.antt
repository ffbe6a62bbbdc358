-- ===== src/Directory/State.antt =====
-- A directory in the state of homework.c.
use file_system_implementati.Base.{
  ℕ, ◌+◌, ◌≤◌, ◌<◌, ◌≡◌, refl, ap, ◌∙◌, true, Option, none, some, List, length, get_elem?, All,
  arith,
}
use file_system_implementati.Outcome
use file_system_implementati.Outcome.{Outcome, ok, in_bounds, or_exit, >>=-eq-ok}
use file_system_implementati.ReadImg.Ends.{ok-injective}
use file_system_implementati.Layout.{Bytes, Dirent, Inode, encode_dir, decode_dir}
use file_system_implementati.Layout.Codec.{IsInode, decode_dir-encode_dir, length-encode_dir}
use file_system_implementati.Device.{BlockDevice, IsDevice, AreBytes}
use file_system_implementati.Fs.{Fs, s_isdir, direct_0, inode_at, read_block, read_dir, inode_base}
use file_system_implementati.Fs.Sync.{IsWf}
use file_system_implementati.Lookup.{lookup, find_entry}
use file_system_implementati.Directory.Entries.{
  IsEntry, IsEntry-decode_dir, AreBytes-encode_dir, all_dirents,
}
use file_system_implementati.Tables.Access.{IsWf-changed}

-- The tables are well formed, inode `inum` is a directory in block `b`, which lies behind the tables
-- and on the disk, and the block holds the entries `fd`.
pub record InDir {dev : BlockDevice} (inum b : ℕ) (fd : List Dirent) (s : Fs dev) : Type 0 where
  pub wf : IsWf s
  pub dir : Inode
  pub inode : inode_at s inum ≡ ok dir
  pub is_dir : s_isdir dir.mode ≡ true
  pub block : direct_0 dir ≡ b
  pub past : inode_base s.sb + s.sb.inode_region_sz ≤ b
  pub inside : b < dev.blocks s.disk
  pub reads : read_dir s b ≡ ok fd

or_exit-eq-ok : {A : Type 0} (o : Option A) {a : A} → or_exit o ≡ ok a → o ≡ some a
or_exit-eq-ok none e = cc
or_exit-eq-ok (some x) e = cc

module _ {dev : BlockDevice} where
  -- What lookup finds is what its loop finds in the entries.
  pub lookup-InDir :
      {inum b : ℕ} {fd : List Dirent} (s : Fs dev) (name : Bytes)
      → InDir inum b fd s
      → lookup s inum name ≡ find_entry name fd
  unfolding lookup
  lookup-InDir {fd = fd} s name h =
      let read : read_dir s (direct_0 h.dir) ≡ ok fd = rw h.block h.reads in
      rw (h.inode, h.is_dir, read) refl

  read_dir-disk :
      (s : Fs dev) (inode_map block_map : Bytes) (nodes : List Inode) (d : dev.Disk) (b : ℕ)
      → dev.block_read d b 1 ≡ dev.block_read s.disk b 1
      → read_dir
          (record s { inode_map = inode_map; block_map = block_map; inodes = nodes; disk = d })
          b
        ≡ read_dir s b
  unfolding read_dir read_block
  read_dir-disk s inode_map block_map nodes d b e =
      ap (λ o. Outcome.◌>>=◌ (or_exit o) λ b'. ok (decode_dir b')) e

  -- The state changes around the directory.
  pub InDir-changed :
      {inum b : ℕ} {fd : List Dirent} (s : Fs dev) (inode_map block_map : Bytes)
      (nodes : List Inode) (d : dev.Disk) (dir : Inode)
      → InDir inum b fd s
      → AreBytes inode_map × (length inode_map ≡ length s.inode_map)
      → AreBytes block_map × (length block_map ≡ length s.block_map)
      → All IsInode nodes × (length nodes ≡ length s.inodes)
      → (get_elem? nodes inum ≡ some dir) × (s_isdir dir.mode ≡ true) × (direct_0 dir ≡ b)
      → dev.blocks s.disk ≤ dev.blocks d
      → dev.block_read d b 1 ≡ dev.block_read s.disk b 1
      → InDir inum b fd
          (record s { inode_map = inode_map; block_map = block_map; inodes = nodes; disk = d })
  unfolding inode_at
  InDir-changed s inode_map block_map nodes d dir h im bm ns at more same = record {
    wf = IsWf-changed s inode_map block_map nodes d h.wf im bm ns more;
    dir = dir;
    inode = ap in_bounds at.0;
    is_dir = at.1;
    block = at.2;
    past = h.past;
    inside = omega (arith, h.inside, more);
    reads = read_dir-disk s inode_map block_map nodes d _ same ∙ h.reads;
  }

module _ {dev : BlockDevice} (io : IsDevice dev) where
  pub InDir-entries :
      {inum b : ℕ} {fd : List Dirent} (s : Fs dev)
      → InDir inum b fd s
      → All IsEntry fd × (length fd ≡ 32)
  unfolding read_dir read_block
  InDir-entries {b = b} s h =
      let (raw, read, decoded) = >>=-eq-ok (or_exit (dev.block_read s.disk b 1)) _ h.reads in
      let at = or_exit-eq-ok _ read in
      let same : decode_dir raw ≡ _ = ok-injective decoded in
      rw (← same) (
        IsEntry-decode_dir raw (omega (arith, io.length-read s.disk b 1 (omega arith) at))
          (io.bytes-read s.disk b 1 at))

  read_dir-written :
      (s : Fs dev) (b : ℕ) (fd : List Dirent)
      → b < dev.blocks s.disk
      → All IsEntry fd
      → length fd ≡ 32
      → read_dir (record s { disk = (dev.block_write s.disk (encode_dir fd) b 1).1 }) b ≡ ok fd
  unfolding read_dir read_block
  read_dir-written s b fd inside es n =
      let len = length-encode_dir fd n (all_dirents fd es) in
      ap (λ o. Outcome.◌>>=◌ (or_exit o) λ b'. ok (decode_dir b'))
        (io.read-write_self s.disk (encode_dir fd) b 1 (omega (arith, inside)) (omega (arith, len))
          (AreBytes-encode_dir fd es))
      ∙ ap ok (decode_dir-encode_dir fd n (all_dirents fd es))

  -- The directory's block is written.
  pub InDir-written :
      {inum b : ℕ} {fd : List Dirent} (s : Fs dev) (fd' : List Dirent)
      → InDir inum b fd s
      → All IsEntry fd'
      → length fd' ≡ 32
      → InDir inum b fd' (record s { disk = (dev.block_write s.disk (encode_dir fd') b 1).1 })
  unfolding inode_at
  InDir-written {b = b} s fd' h es size =
      let w = h.wf in
      let more = io.blocks-write_any s.disk (encode_dir fd') b 1 in
      record {
        wf =
            IsWf-changed s s.inode_map s.block_map s.inodes _ w (w.inode_map_bytes, refl)
              (w.block_map_bytes, refl) (w.inodes_ok, refl) more;
        dir = h.dir;
        inode = h.inode;
        is_dir = h.is_dir;
        block = h.block;
        past = h.past;
        inside = omega (arith, h.inside, more);
        reads = read_dir-written s b fd' h.inside es size;
      }
