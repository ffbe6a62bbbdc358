-- ===== src/Tables/Create.antt =====
-- create, fs_chmod and fs_utime, on well-formed tables and a working device.
use file_system_implementati.Base.{ℕ, ◌^◌, ◌<◌, Bool, true, false, not, List, bit_or-lt_32, arith}
use file_system_implementati.Exec.Triple.{Triple-raise, Triple-if}
use file_system_implementati.Layout.{Bytes, Dirent}
use file_system_implementati.Device.{BlockDevice, IsDevice}
use file_system_implementati.Fs.{get_next_block, s_isdir, s_ifdir, s_ifreg}
use file_system_implementati.Fs.Sync.{IsWf}
use file_system_implementati.Attr.{fs_chmod, fs_utime}
use file_system_implementati.Create.{Caller, add_block, create_at, create, fs_create, fs_mkdir}
use file_system_implementati.Tables.{Keeps, Saves, Keeps-bind}
use file_system_implementati.Tables.Access.{
  Any, update_inode-Keeps, set_inode_bit-Keeps, set_block_bit-Keeps,
}
use file_system_implementati.Tables.Disk.{
  query-Keeps, lift-Keeps, read-Keeps, pure-Keeps, get_next_block-below, write_block-Keeps,
  update_disk-Saves,
}
use file_system_implementati.Tables.Inodes.{
  changed_mode-IsInode, mtime-IsInode, new_inode-IsInode, first-IsInode,
}

module _ {dev : BlockDevice} (io : IsDevice dev) where
  add_block-Keeps :
      (is_dir : Bool) (i b : ℕ) → b < 2 ^ 32 → Keeps (add_block {dev = dev} is_dir i b) Any
  unfolding add_block
  add_block-Keeps false i b m = pure-Keeps tt
  add_block-Keeps true i b m =
      Keeps-bind _ _ (set_block_bit-Keeps b)
        λ _ _. update_inode-Keeps i _ λ x h. first-IsInode x h b m

  create_at-Saves :
      (ctx : Caller) (mode : ℕ) (is_dir : Bool) (inum : ℕ) (leaf : Bytes) (fd : List Dirent)
      (i next_inode next_block : ℕ)
      → mode < 2 ^ 32
      → next_block < 2 ^ 32
      → Saves IsWf (create_at {dev = dev} ctx mode is_dir inum leaf fd i next_inode next_block)
  unfolding create_at
  create_at-Saves ctx mode is_dir inum leaf fd i next_inode next_block m mb =
      Keeps-bind _ _ (set_inode_bit-Keeps next_inode) λ _ _.
        Keeps-bind _ _ (update_inode-Keeps next_inode _ λ x h. new_inode-IsInode x h ctx mode m)
          λ _ _. Keeps-bind _ _ (lift-Keeps _) λ e _. Keeps-bind _ _ (read-Keeps _) λ dir _.
            Keeps-bind _ _ (write_block-Keeps io _ _) λ _ _.
              Keeps-bind _ _ (add_block-Keeps is_dir next_inode next_block mb)
                λ _ _. update_disk-Saves io

  pub create-Saves :
      (ctx : Caller) (path : Bytes) (mode : ℕ) (is_dir : Bool)
      → mode < 2 ^ 32
      → Saves IsWf (create {dev = dev} ctx path mode is_dir)
  unfolding create
  create-Saves ctx path mode is_dir m = Keeps-bind _ _ (lift-Keeps _) λ p _.
      Keeps-bind _ _ (read-Keeps _) λ inum _. Keeps-bind _ _ (read-Keeps _) λ dir _.
        Triple-if (not (s_isdir dir.mode)) _ _ (λ _. Triple-raise _ λ s w. w)
          λ _. Keeps-bind _ _ (read-Keeps _) λ _ _. Keeps-bind _ _ (read-Keeps _) λ fd _.
            Keeps-bind _ _ (lift-Keeps _) λ i _. Keeps-bind _ _ (read-Keeps _) λ next_inode _.
              Keeps-bind _ _
                (query-Keeps get_next_block (λ b. b < 2 ^ 32)
                  λ s w b e. get_next_block-below s b w e)
                λ next_block mb.
                  create_at-Saves ctx mode is_dir inum p.1 fd i next_inode next_block m mb

  pub fs_chmod-Saves :
      (path : Bytes) (mode : ℕ) → mode < 2 ^ 32 → Saves IsWf (fs_chmod {dev = dev} path mode)
  unfolding fs_chmod
  fs_chmod-Saves path mode m = Keeps-bind _ _ (read-Keeps _) λ inum _.
      Keeps-bind _ _ (update_inode-Keeps inum _ λ x h. changed_mode-IsInode x h mode m)
        λ _ _. update_disk-Saves io

  pub fs_utime-Saves : (path : Bytes) (t : ℕ) → Saves IsWf (fs_utime {dev = dev} path t)
  unfolding fs_utime
  fs_utime-Saves path t = Keeps-bind _ _ (read-Keeps _) λ inum _.
      Keeps-bind _ _ (update_inode-Keeps inum _ λ x h. mtime-IsInode x h t)
        λ _ _. update_disk-Saves io

  pub fs_create-Saves :
      (ctx : Caller) (path : Bytes) (mode : ℕ)
      → mode < 2 ^ 32
      → Saves IsWf (fs_create {dev = dev} ctx path mode)
  unfolding fs_create
  fs_create-Saves ctx path mode m =
      create-Saves ctx path _ false (bit_or-lt_32 mode s_ifreg m (omega arith))

  pub fs_mkdir-Saves :
      (ctx : Caller) (path : Bytes) (mode : ℕ)
      → mode < 2 ^ 32
      → Saves IsWf (fs_mkdir {dev = dev} ctx path mode)
  unfolding fs_mkdir
  fs_mkdir-Saves ctx path mode m =
      create-Saves ctx path _ true (bit_or-lt_32 mode s_ifdir m (omega arith))
