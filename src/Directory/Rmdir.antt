-- ===== src/Directory/Rmdir.antt =====
-- What fs_rmdir does to an empty directory in the root directory.
use file_system_implementati.Base.{
  ℕ, ◌+◌, ◌*◌, ◌<◌, ◌≤◌, ◌≡◌, ◌≢◌, ◌⊎◌, refl, subst, ap, sym, ◌∙◌, inl, inr, true, false, some,
  List, [], ◌∷◌, map, get_elem?, set, All, All-set, All-get_elem?, length-set, get_elem?-set_ne,
  ltb, Bool-cases, arith,
}
use file_system_implementati.Outcome.{ok, err, enoent}
use file_system_implementati.Exec.{pure}
use file_system_implementati.Exec.Bind.{run-bind}
use file_system_implementati.Layout.{Bytes, Super, Dirent}
use file_system_implementati.Layout.Codec.{IsInode}
use file_system_implementati.Device.{BlockDevice, IsDevice}
use file_system_implementati.FilePath.{split_path, slash}
use file_system_implementati.Fs.{
  Fs, root_inode, read_dir, s_isdir, direct_0, inode_at, write_block_unchecked,
}
use file_system_implementati.Fs.Sync.{IsWf}
use file_system_implementati.Tables.Access.{in_bounds-eq-ok}
use file_system_implementati.Tables.Inodes.{cleared-IsInode}
use file_system_implementati.Lookup.{lookup, translate}
use file_system_implementati.Truncate.{zero_block}
use file_system_implementati.Remove.{any_valid, free_dir, fs_rmdir, remove_name, unchecked}
use file_system_implementati.Directory.State.{InDir, InDir-changed, lookup-InDir}
use file_system_implementati.Directory.Steps.{
  clear_inode_bit_runs, clear_block_bit_runs, update_inode_runs,
}
use file_system_implementati.Directory.Kept.{Kept, InRange, update_disk-Kept}
use file_system_implementati.Directory.Changed.{
  cleared, find_entry-cleared, find_entry-cleared_other,
}
use file_system_implementati.Directory.Remove.{remove_entries_all}
use file_system_implementati.Directory.Fresh.{root_found}
use file_system_implementati.Exec.Ends.{
  EndsIn, EndsIn-if, EndsIn-else, Gives-pure, EndsIn-bind, EndsIn-lift, EndsIn-query,
}

module _ {dev : BlockDevice} (io : IsDevice dev) {b k n : ℕ} {fd inner : List Dirent} (s : Fs dev)
    (h : InDir root_inode b fd s) (child : InDir k n inner s) (other : k ≢ root_inode)
    (apart : n ≢ b) (node_bit : k < s.sb.inode_map_sz * 8192)
    (block_bit : n < s.sb.block_map_sz * 8192) where
  abbrev w : IsWf s
  w = h.wf

  -- The root directory is read as before.
  reads_same :
      dev.block_read (dev.block_write s.disk zero_block n 1).1 b 1 ≡ dev.block_read s.disk b 1
  reads_same =
      io.read-write_apart s.disk zero_block n 1 b 1 (omega (arith, child.inside)) refl
        (omega (arith, h.inside)) (sides (Bool-cases (ltb b n)))
    where
      sides : (ltb b n ≡ true) ⊎ (ltb b n ≡ false) → (b + 1 ≤ n) ⊎ (n + 1 ≤ b)
      sides (inl lt) = inl (ground (arith, lt))
      sides (inr ge) = inr (ground (arith, ge, apart))

  free_dir-Kept : EndsIn (free_dir k n) (Kept s.sb root_inode b fd) s
  unfolding free_dir write_block_unchecked inode_at
  free_dir-Kept =
      let d = (dev.block_write s.disk zero_block n 1).1 in
      let s1 = record s { disk = d } in
      let (bm, run2, block_marks) =
        clear_block_bit_runs s1 n (omega (arith, w.block_map_length, block_bit))
          w.block_map_bytes in
      let s2 = record s1 { block_map = bm } in
      let at_k : get_elem? s.inodes k ≡ some child.dir = in_bounds-eq-ok _ child.inode in
      let y = record child.dir { direct = set child.dir.direct 0 0 } in
      let nodes = set s.inodes k y in
      let s3 = record s2 { inodes = nodes } in
      let (im, run4, marks) =
        clear_inode_bit_runs s3 k (omega (arith, w.inode_map_length, node_bit)) w.inode_map_bytes in
      (
        record s3 { inode_map = im },
        run-bind _ _ s {s' = s1} refl
            ∙ run-bind _ _ s1 run2
            ∙ run-bind _ _ s2 (update_inode_runs s2 k _ at_k)
            ∙ run4,
        record {
          in_dir =
              InDir-changed s im bm nodes d h.dir h marks.bytes block_marks.bytes
                (
                  All-set IsInode s.inodes k y w.inodes_ok (
                      cleared-IsInode child.dir
                        (All-get_elem? IsInode s.inodes k w.inodes_ok at_k)),
                  length-set s.inodes k y,
                )
                (
                  get_elem?-set_ne s.inodes k root_inode y other ∙ in_bounds-eq-ok _ h.inode,
                  h.is_dir,
                  h.block,
                )
                (io.blocks-write_any s.disk zero_block n 1) reads_same;
          super = refl;
        },
      )

module _ {dev : BlockDevice} (io : IsDevice dev) where
  -- The name is removed from the root directory.
  remove_root :
      {sb : Super} {b : ℕ} {fd : List Dirent} {leaf : Bytes} (s : Fs dev) (time : ℕ → ℕ)
      (path : Bytes)
      → split_path path ≡ ok (slash ∷ [], leaf)
      → All (InRange sb) fd
      → Kept sb root_inode b fd s
      → EndsIn (remove_name (pure tt) time path) (Kept sb root_inode b (map (cleared leaf) fd)) s
  unfolding remove_name unchecked
  remove_root {fd = fd} {leaf = leaf} s time path split rs h = EndsIn-lift _ _ _ s split (
      EndsIn-query _ root_inode _ s (ap unchecked (root_found s)) (
        EndsIn-query _ h.in_dir.dir _ s h.in_dir.inode (
          EndsIn-query _ fd _ s (rw h.in_dir.block h.in_dir.reads)
            (remove_entries_all io (pure tt) time leaf (λ fd t q. Gives-pure tt t q) fd s rs h))))

  -- On a working device and well-formed tables, when the path leads to a directory without valid
  -- entries, other than the root directory and in another block, both blocks on the disk behind the
  -- tables, whose inode has a bit in the inode map and whose block has a bit in the block map, and its
  -- last component stands in the root directory, all of whose entries have inode numbers inside the
  -- table and the inode map, fs_rmdir returns 0; afterwards lookup returns -ENOENT for the name in the
  -- root directory, and finds every other name as before.
  pub fs_rmdir_removes :
      (fs : Fs dev) (time : ℕ → ℕ) (path : Bytes) {leaf : Bytes} {b k n : ℕ}
      {fd inner : List Dirent}
      → InDir root_inode b fd fs
      → All (InRange fs.sb) fd
      → translate fs path ≡ ok k
      → InDir k n inner fs
      → any_valid inner ≡ false
      → k ≢ root_inode
      → n ≢ b
      → k < fs.sb.inode_map_sz * 8192
      → n < fs.sb.block_map_sz * 8192
      → split_path path ≡ ok (slash ∷ [], leaf)
      → (fs' : Fs dev) × (fs_rmdir time path fs ≡ (ok tt, fs'))
        × InDir root_inode b (map (cleared leaf) fd) fs'
        × (lookup fs' root_inode leaf ≡ err enoent)
        × ((name : Bytes) → name ≢ leaf → lookup fs' root_inode name ≡ lookup fs root_inode name)
  unfolding fs_rmdir
  fs_rmdir_removes fs time path {leaf = leaf} {b = b} {k = k} {n = n} {fd = fd} {inner = inner} h rs
        to_child child empty other apart node_bit block_bit split =
      let ends : EndsIn (fs_rmdir time path) (Kept fs.sb root_inode b (map (cleared leaf) fd)) fs =
        EndsIn-query (λ s. translate s path) k _ fs to_child
          (EndsIn-query (λ s. inode_at s k) child.dir _ fs child.inode
            (EndsIn-if (s_isdir child.dir.mode) _ _ fs
              (λ no. absurd (ground (arith, no, child.is_dir)))
              λ _.
                EndsIn-query (λ s. read_dir s (direct_0 child.dir)) inner _ fs
                  (rw child.block child.reads)
                  (EndsIn-else (any_valid inner) _ _ fs empty (
                    EndsIn-bind _ _ fs
                      (subst (λ j. EndsIn (free_dir k j) (Kept fs.sb root_inode b fd) fs)
                        (sym child.block)
                        (free_dir-Kept io fs h child other apart node_bit block_bit))
                      λ s1 k1.
                        EndsIn-bind _ _ s1 (remove_root s1 time path split rs k1)
                          λ s2 k2. update_disk-Kept io s2 k2)))) in
      let (fs', run, kept) = ends in
      (
        fs',
        run,
        kept.in_dir,
        lookup-InDir fs' leaf kept.in_dir ∙ find_entry-cleared leaf fd,
        λ name ne.
            lookup-InDir fs' name kept.in_dir
            ∙ find_entry-cleared_other leaf name fd ne
            ∙ sym (lookup-InDir fs name h),
      )
