-- ===== src/Create.antt =====
-- create, fs_create and fs_mkdir of homework.c.
use file_system_implementati.Base.{
  ℕ, ◌+◌, ◌%◌, ◌^◌, Bool, true, false, not, List, [], ◌∷◌, bit_or, ltb, get_elem?, set,
  if◌then◌else◌,
}
use file_system_implementati.Base.Int.{pos}
use file_system_implementati.Outcome.{
  Outcome, ok, err, exit, fault, hang, enotdir, eexist, enospc, in_bounds,
}
use file_system_implementati.Exec.{Exec, query, lift, pure, raise, ◌>>=◌, ◌>>◌}
use file_system_implementati.Layout.{Bytes, Dirent, Inode, fs_block_size, encode_dir}
use file_system_implementati.Device.{BlockDevice}
use file_system_implementati.FilePath.{split_path}
use file_system_implementati.Fs.{
  Fs, s_isdir, s_ifdir, s_ifreg, direct_0, strcpy, inode_at, update_inode, read_dir, write_block,
  set_inode_bit, set_block_bit, get_next_inode, get_next_block, update_disk,
}
use file_system_implementati.Lookup.{translate}

-- The user of the call (fuse_get_context) and the time of the call, time(NULL).
pub record Caller : Type 0 where
  pub uid : ℕ
  pub gid : ℕ
  pub time : ℕ

-- The search for a free entry: its index, or -ENOSPC when all are taken.
unfoldable pub free_entry : List Dirent → ℕ → Outcome ℕ
free_entry [] i = err enospc
free_entry (e ∷ es) i = if not e.valid then ok i else free_entry es (i + 1)

-- `if (translate(_path) > 0) return -EEXIST;`
unfoldable pub must_not_exist : Outcome ℕ → Outcome (Unit {0})
must_not_exist (ok m) = if ltb 0 m then err eexist else ok tt
must_not_exist (err e) = ok tt
must_not_exist exit = exit
must_not_exist fault = fault
must_not_exist hang = hang

abbrev pub new_inode : Caller → ℕ → Inode → Inode
new_inode ctx mode i = record i {
  uid = ctx.uid % 2 ^ 16;
  gid = ctx.gid % 2 ^ 16;
  mode = mode;
  ctime = ctx.time % 2 ^ 32;
  mtime = ctx.time % 2 ^ 32;
  size = pos 0;
}

abbrev pub new_entry : Bool → ℕ → Bytes → Dirent → Dirent
new_entry is_dir inode leaf e = record {
  valid = true;
  is_dir = is_dir;
  inode = inode;
  name = strcpy e.name leaf;
}

module _ {dev : BlockDevice} where
  -- The block of a new directory.
  unfoldable pub add_block : Bool → ℕ → ℕ → Exec (Fs dev) (Unit {0})
  add_block false next_inode next_block = pure tt
  add_block true next_inode next_block = do
    set_block_bit next_block
    update_inode next_inode
        (λ i. record i { direct = set i.direct 0 next_block; size = pos fs_block_size })

  -- The part of create that writes, once every check has passed.
  unfoldable pub create_at :
      Caller → ℕ → Bool → ℕ → Bytes → List Dirent → ℕ → ℕ → ℕ → Exec (Fs dev) (Unit {0})
  unfolding add_block
  create_at ctx mode is_dir inum leaf fd i next_inode next_block = do
    set_inode_bit next_inode
    update_inode next_inode (new_inode ctx mode)
    e ← lift (in_bounds (get_elem? fd i))
    dir ← query (λ fs. inode_at fs inum)
    write_block (encode_dir (set fd i (new_entry is_dir next_inode leaf e))) (direct_0 dir)
    add_block is_dir next_inode next_block
    update_disk

  unfoldable pub create : Caller → Bytes → ℕ → Bool → Exec (Fs dev) (Unit {0})
  unfolding create_at must_not_exist
  create ctx path mode is_dir = do
    (parent, leaf) ← lift (split_path path)
    inum ← query (λ fs. translate fs parent)
    dir ← query (λ fs. inode_at fs inum)
    if not (s_isdir dir.mode) then raise enotdir else do
      query (λ fs. must_not_exist (translate fs path))
      fd ← query (λ fs. read_dir fs (direct_0 dir))
      i ← lift (free_entry fd 0)
      next_inode ← query get_next_inode
      next_block ← query get_next_block
      create_at ctx mode is_dir inum leaf fd i next_inode next_block

  unfoldable pub fs_create : Caller → Bytes → ℕ → Exec (Fs dev) (Unit {0})
  unfolding create
  fs_create ctx path mode = create ctx path (bit_or mode s_ifreg) false

  unfoldable pub fs_mkdir : Caller → Bytes → ℕ → Exec (Fs dev) (Unit {0})
  unfolding create
  fs_mkdir ctx path mode = create ctx path (bit_or mode s_ifdir) true
