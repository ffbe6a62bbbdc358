-- ===== src/Directory/Kept.antt =====
-- A directory that stays where it is, and what the accesses of the loops over its entries leave of it.
use file_system_implementati.Base.{
  ℕ, ◌*◌, ◌%◌, ◌^◌, ◌<◌, ◌≡◌, refl, ap, sym, ◌∙◌, inl, inr, true, some, List, length, get_elem?,
  set, All, All-set, All-get_elem?, length-set, get_elem?-set_self, get_elem?-set_ne,
  get_elem?-get_or, get_or, length_of_get_elem?, Bool-cases, ◌==◌, arith,
}
use file_system_implementati.Layout.{Super, Dirent, Inode, encode_dir}
use file_system_implementati.Layout.Codec.{IsInode, length-encode_dir}
use file_system_implementati.Device.{BlockDevice, IsDevice}
use file_system_implementati.Fs.{
  Fs, s_isdir, direct_0, inode_at, update_inode, write_block, clear_inode_bit, update_disk,
}
use file_system_implementati.Fs.Sync.{IsWf, update_disk_apart}
use file_system_implementati.Tables.Access.{in_bounds-eq-ok}
use file_system_implementati.Tables.Inodes.{mtime-IsInode}
use file_system_implementati.Directory.Entries.{IsEntry, all_dirents}
use file_system_implementati.Directory.State.{InDir, InDir-changed, InDir-written}
use file_system_implementati.Directory.Steps.{
  clear_inode_bit_runs, update_inode_runs, write_block_runs,
}
use file_system_implementati.Exec.Ends.{EndsIn}

-- The directory with the entries `fd`, under the superblock `sb`.
pub record Kept {dev : BlockDevice} (sb : Super) (inum b : ℕ) (fd : List Dirent) (s : Fs dev)
    : Type 0 where
  pub in_dir : InDir inum b fd s
  pub super : s.sb ≡ sb

-- The numbers of an entry that is in use have an inode and a bit in the inode map.
pub record InRange (sb : Super) (e : Dirent) : Type 0 where
  pub node : e.inode < sb.inode_region_sz * 16
  pub bit : e.inode < sb.inode_map_sz * 8192

module _ {dev : BlockDevice} (io : IsDevice dev) {sb : Super} {inum b : ℕ} {fd : List Dirent}
    (s : Fs dev) (h : Kept sb inum b fd s) where
  abbrev w : IsWf s
  w = h.in_dir.wf

  abbrev dir : Inode
  dir = h.in_dir.dir

  at_inum : (get_elem? s.inodes inum ≡ some dir) × (s_isdir dir.mode ≡ true) × (direct_0 dir ≡ b)
  unfolding inode_at
  at_inum = (in_bounds-eq-ok _ h.in_dir.inode, h.in_dir.is_dir, h.in_dir.block)

  pub clear_inode_bit-Kept :
      (i : ℕ) → i < sb.inode_map_sz * 8192 → EndsIn (clear_inode_bit i) (Kept sb inum b fd) s
  clear_inode_bit-Kept i small =
      let p : s.sb.inode_map_sz ≡ sb.inode_map_sz = ap (λ t. t.inode_map_sz) h.super in
      let (m, run, marks) =
        clear_inode_bit_runs s i (omega (arith, w.inode_map_length, p)) w.inode_map_bytes in
      (
        record s { inode_map = m },
        run,
        record {
          in_dir =
              InDir-changed s m s.block_map s.inodes s.disk dir h.in_dir marks.bytes
                (w.block_map_bytes, refl) (w.inodes_ok, refl) at_inum (omega arith) refl;
          super = h.super;
        },
      )

  -- The time of an inode, the directory's own included.
  at_touched :
      (i t : ℕ) (x : Inode)
      → get_elem? s.inodes i ≡ some x
      → (dir' : Inode) × (get_elem? (set s.inodes i (record x { mtime = t })) inum ≡ some dir')
        × (s_isdir dir'.mode ≡ true)
        × (direct_0 dir' ≡ b)
  at_touched i t x at = elim (Bool-cases (i == inum)) [
    | inl same ↦
        let p : i ≡ inum = ground arith in
        let both : some x ≡ some dir = sym at ∙ ap (get_elem? s.inodes) p ∙ at_inum.0 in
        let q : x ≡ dir = cc in
        (
          record dir { mtime = t },
          rw (← p, ← q)
              (get_elem?-set_self s.inodes i (record x { mtime = t })
                (length_of_get_elem? s.inodes i at)),
          at_inum.1,
          at_inum.2,
        )
    | inr other ↦
        (dir, get_elem?-set_ne s.inodes i inum _ (ground arith) ∙ at_inum.0, at_inum.1, at_inum.2)
  ]

  pub touch-Kept :
      (i t : ℕ)
      → i < sb.inode_region_sz * 16
      → EndsIn (update_inode i (λ x. record x { mtime = t % 2 ^ 32 })) (Kept sb inum b fd) s
  touch-Kept i t small =
      let p : s.sb.inode_region_sz ≡ sb.inode_region_sz = ap (λ t. t.inode_region_sz) h.super in
      let x = get_or s.inodes i dir in
      let at = get_elem?-get_or s.inodes i dir (omega (arith, w.inodes_length, p)) in
      let y = record x { mtime = t % 2 ^ 32 } in
      let (dir', found, is_dir, block) = at_touched i (t % 2 ^ 32) x at in
      (
        record s { inodes = set s.inodes i y },
        update_inode_runs s i _ at,
        record {
          in_dir =
              InDir-changed s s.inode_map s.block_map (set s.inodes i y) s.disk dir' h.in_dir
                (w.inode_map_bytes, refl) (w.block_map_bytes, refl)
                (
                  All-set IsInode s.inodes i y w.inodes_ok
                      (mtime-IsInode x (All-get_elem? IsInode s.inodes i w.inodes_ok at) t),
                  length-set s.inodes i y,
                )
                (found, is_dir, block) (omega arith) refl;
          super = h.super;
        },
      )

  -- The directory's own number.
  pub inum_small : inum < sb.inode_region_sz * 16
  inum_small =
      let p : s.sb.inode_region_sz ≡ sb.inode_region_sz = ap (λ t. t.inode_region_sz) h.super in
      omega (arith, w.inodes_length, length_of_get_elem? s.inodes inum at_inum.0, p)

  pub write_block-Kept :
      (fd' : List Dirent)
      → All IsEntry fd'
      → length fd' ≡ 32
      → EndsIn (write_block (encode_dir fd') b) (Kept sb inum b fd') s
  write_block-Kept fd' es size =
      let len = length-encode_dir fd' size (all_dirents fd' es) in
      (
        record s { disk = (dev.block_write s.disk (encode_dir fd') b 1).1 },
        write_block_runs s io (encode_dir fd') b h.in_dir.inside len,
        record { in_dir = InDir-written io s fd' h.in_dir es size; super = h.super },
      )

  pub update_disk-Kept : EndsIn update_disk (Kept sb inum b fd) s
  update_disk-Kept =
      let (d, run, blocks, reads) = update_disk_apart io s w in
      (
        record s { disk = d },
        run,
        record {
          in_dir =
              InDir-changed s s.inode_map s.block_map s.inodes d dir h.in_dir
                (w.inode_map_bytes, refl) (w.block_map_bytes, refl) (w.inodes_ok, refl) at_inum
                (omega (arith, blocks)) (reads b h.in_dir.past h.in_dir.inside);
          super = h.super;
        },
      )
