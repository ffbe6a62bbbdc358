-- ===== src/Tables/Truncate.antt =====
-- fs_truncate, on well-formed tables and a working device.
use file_system_implementati.Base.{
  ℕ, zero, suc, ◌+◌, ◌^◌, ◌<◌, ◌≡◌, refl, not, List, [], ◌∷◌, All, length, arith, ltb, ◌==◌,
}
use file_system_implementati.Exec.Triple.{Triple-pure, Triple-raise, Triple-if}
use file_system_implementati.Layout.{Bytes, decode_addrs}
use file_system_implementati.Device.{BlockDevice, IsDevice}
use file_system_implementati.Fs.{s_isdir}
use file_system_implementati.Fs.Sync.{IsWf}
use file_system_implementati.Truncate.{
  release, rounds, free_direct, free_addrs, free_single, free_indir_2, free_double, free_file,
  fs_truncate,
}
use file_system_implementati.Tables.{Keeps, Saves, Keeps-bind}
use file_system_implementati.Tables.Access.{Any, update_inode-Keeps, clear_block_bit-Keeps}
use file_system_implementati.Tables.Disk.{
  inode_at-Keeps, lift-Keeps, read-Keeps, pure-Keeps, write_block_unchecked-Keeps,
  update_disk-Saves,
}
use file_system_implementati.Tables.Inodes.{
  direct-IsInode, indir_1-IsInode, indir_2-IsInode, truncated-IsInode,
}

module _ {dev : BlockDevice} (io : IsDevice dev) where
  pub release-Keeps : (b : ℕ) → Keeps (release {dev = dev} b) Any
  unfolding release
  release-Keeps b =
      Keeps-bind _ _ (clear_block_bit-Keeps b) λ _ _. write_block_unchecked-Keeps io _ b

  free_direct-Keeps :
      (addr : List ℕ)
      → All (λ a. a < 2 ^ 32) addr
      → Keeps
          (free_direct {dev = dev} addr)
          (λ l. All (λ a. a < 2 ^ 32) l × (length l ≡ length addr))
  unfolding free_direct
  free_direct-Keeps [] h = Triple-pure _ λ s w. (w, (w, (tt, refl)))
  free_direct-Keeps (a ∷ addr) h =
      Triple-if (a == 0) _ _ (λ _. Triple-pure _ λ s w. (w, (w, (h, refl))))
        λ _. Keeps-bind _ _ (release-Keeps a) λ _ _.
          Keeps-bind _ _ (free_direct-Keeps addr h.1)
            λ rest (hr, e). Triple-pure _ λ s w. (w, (w, ((omega arith, hr), omega (arith, e))))

  free_addrs-Keeps : (i : ℕ) (addr : List ℕ) → Keeps (free_addrs {dev = dev} i addr) Any
  unfolding free_addrs
  free_addrs-Keeps i [] = pure-Keeps i
  free_addrs-Keeps i (a ∷ addr) =
      Triple-if (a == 0) _ _ (λ _. pure-Keeps i)
        λ _. Keeps-bind _ _ (release-Keeps a) λ _ _. free_addrs-Keeps (i + 1) addr

  free_single-Keeps : (inum : ℕ) → Keeps (free_single {dev = dev} inum) Any
  unfolding free_single
  free_single-Keeps inum = Keeps-bind _ _ (read-Keeps _) λ i _.
      Triple-if (i.indir_1 == 0) _ _ (λ _. pure-Keeps tt)
        λ _. Keeps-bind _ _ (read-Keeps _) λ block _.
          Keeps-bind _ _ (free_addrs-Keeps 0 (decode_addrs block)) λ _ _.
            Keeps-bind _ _ (release-Keeps i.indir_1)
              λ _ _. update_inode-Keeps inum _ λ x h. indir_1-IsInode x h 0 (omega arith)

  free_indir_2-Keeps : (n i : ℕ) (l : List ℕ) → Keeps (free_indir_2 {dev = dev} n i l) Any
  unfolding free_indir_2
  free_indir_2-Keeps zero i l = lift-Keeps _
  free_indir_2-Keeps (suc n) i l =
      Triple-if (not (ltb i 256)) _ _ (λ _. pure-Keeps tt)
        λ _. Keeps-bind _ _ (lift-Keeps _) λ a _.
          Triple-if (a == 0) _ _ (λ _. pure-Keeps tt)
            λ _. Keeps-bind _ _ (read-Keeps _) λ block _.
              Keeps-bind _ _ (free_addrs-Keeps 0 (decode_addrs block))
                λ i' _. Keeps-bind _ _ (release-Keeps a) λ _ _. free_indir_2-Keeps n (i' + 1) l

  free_double-Keeps : (inum : ℕ) → Keeps (free_double {dev = dev} inum) Any
  unfolding free_double
  free_double-Keeps inum = Keeps-bind _ _ (read-Keeps _) λ i _.
      Triple-if (i.indir_2 == 0) _ _ (λ _. pure-Keeps tt)
        λ _. Keeps-bind _ _ (read-Keeps _) λ block _.
          Keeps-bind _ _ (free_indir_2-Keeps rounds 0 (decode_addrs block)) λ _ _.
            Keeps-bind _ _ (release-Keeps i.indir_2)
              λ _ _. update_inode-Keeps inum _ λ x h. indir_2-IsInode x h 0 (omega arith)

  free_file-Saves : (now inum : ℕ) → Saves IsWf (free_file {dev = dev} now inum)
  unfolding free_file
  free_file-Saves now inum = Keeps-bind _ _ (inode_at-Keeps inum) λ i hi.
      Keeps-bind _ _ (free_direct-Keeps i.direct hi.direct) λ direct (hd, e).
        Keeps-bind _ _
          (update_inode-Keeps inum _
            λ x h. direct-IsInode x h direct hd (omega (arith, e, hi.direct_length)))
          λ _ _. Keeps-bind _ _ (free_single-Keeps inum) λ _ _.
            Keeps-bind _ _ (free_double-Keeps inum) λ _ _.
              Keeps-bind _ _ (update_inode-Keeps inum _ λ x h. truncated-IsInode x h now)
                λ _ _. update_disk-Saves io

  pub fs_truncate-Saves :
      (now : ℕ) (path : Bytes) (len : ℕ) → Saves IsWf (fs_truncate {dev = dev} now path len)
  unfolding fs_truncate
  fs_truncate-Saves now path len =
      Triple-if (ltb 0 len) _ _ (λ _. Triple-raise _ λ s w. w)
        λ _. Keeps-bind _ _ (read-Keeps _) λ inum _. Keeps-bind _ _ (read-Keeps _) λ i _.
          Triple-if (s_isdir i.mode) _ _ (λ _. Triple-raise _ λ s w. w)
            λ _. free_file-Saves now inum
