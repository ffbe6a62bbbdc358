-- ===== src/Directory/Remove.antt =====
-- What the loop of fs_unlink and fs_rmdir does to the directory.
use file_system_implementati.Base.{
  ℕ, ◌*◌, ◌<◌, ◌≡◌, refl, ap, subst, false, List, [], ◌∷◌, ◌++◌, map, length, get_elem?, set, All,
}
use file_system_implementati.Outcome.{ok, in_bounds}
use file_system_implementati.Exec.{Exec, pure}
use file_system_implementati.Layout.{Bytes, Super, Dirent}
use file_system_implementati.Device.{BlockDevice, IsDevice}
use file_system_implementati.Fs.{Fs, inode_at, update_disk}
use file_system_implementati.Lookup.{matches}
use file_system_implementati.Remove.{remove_entry, remove_entries}
use file_system_implementati.Directory.Entries.{IsEntry}
use file_system_implementati.Directory.State.{InDir-entries}
use file_system_implementati.Exec.Ends.{EndsIn, EndsIn-if, EndsIn-bind, EndsIn-lift, EndsIn-query}
use file_system_implementati.Directory.Kept.{
  Kept, InRange, clear_inode_bit-Kept, touch-Kept, inum_small, write_block-Kept, update_disk-Kept,
}
use file_system_implementati.Directory.Loop.{Round, loop_ends, entries-replaced}
use file_system_implementati.Directory.Changed.{cleared, get_elem?-append, set-append}

module _ {dev : BlockDevice} (io : IsDevice dev) {sb : Super} {inum b : ℕ} where
  remove_entry-Kept :
      {fd : List Dirent} (now removed : ℕ) (fd' : List Dirent) (s : Fs dev)
      → removed < sb.inode_map_sz * 8192
      → All IsEntry fd'
      → length fd' ≡ 32
      → Kept sb inum b fd s
      → EndsIn (remove_entry now inum removed fd') (Kept sb inum b fd') s
  unfolding remove_entry
  remove_entry-Kept now removed fd' s small es size h =
      EndsIn-query (λ fs. inode_at fs inum) h.in_dir.dir _ s h.in_dir.inode
        (rw h.in_dir.block (
          EndsIn-bind _ _ s (write_block-Kept io s h fd' es size) λ s1 h1.
            EndsIn-bind _ _ s1 (clear_inode_bit-Kept io s1 h1 removed small)
              λ s2 h2. touch-Kept io s2 h2 inum now (inum_small io s2 h2)))

  module _ (after : Exec (Fs dev) (Unit {0})) (time : ℕ → ℕ) (leaf : Bytes)
      (keeps : (fd : List Dirent) (s : Fs dev)
        → Kept sb inum b fd s
        → EndsIn after (Kept sb inum b fd) s) where
    remove_round :
        Round (Kept sb inum b) (InRange sb) (remove_entries after time inum leaf) (cleared leaf)
    unfolding remove_entries
    remove_round e done rest i s at r h next =
        let gone = record e { valid = false } in
        let (es, size) = entries-replaced done rest e gone (InDir-entries io s h.in_dir) λ was.
          record {
            dirent = record { inode = was.dirent.inode; name = was.dirent.name };
            bytes = was.bytes;
          } in
        EndsIn-lift (in_bounds (get_elem? (done ++ (e ∷ rest)) i)) e _ s
          (rw at (ap in_bounds (get_elem?-append done e rest)))
          (EndsIn-if (matches leaf e) _ _ s (λ miss. rw miss (next e s h))
            λ hit.
              rw (hit, ap (λ j. set (done ++ (e ∷ rest)) j gone) at, set-append done e gone rest)
                (EndsIn-bind _ _ s (remove_entry-Kept (time i) e.inode _ s r.bit es size h)
                  λ s1 h1. EndsIn-bind _ _ s1 (keeps _ s1 h1) λ s2 h2. next gone s2 h2))

    stop :
        (i : ℕ) (fd : List Dirent) (s : Fs dev)
        → remove_entries after time inum leaf 0 i fd s ≡ (ok tt, s)
    unfolding remove_entries pure
    stop i fd s = refl

    -- The whole loop.
    pub remove_entries_all :
        (fd : List Dirent) (s : Fs dev)
        → All (InRange sb) fd
        → Kept sb inum b fd s
        → EndsIn
            (remove_entries after time inum leaf 32 0 fd)
            (Kept sb inum b (map (cleared leaf) fd))
            s
    remove_entries_all fd s rs h =
        subst
          (λ n.
            EndsIn (remove_entries after time inum leaf n 0 fd)
              (Kept sb inum b (map (cleared leaf) fd)) s)
          (InDir-entries io s h.in_dir).1
          (loop_ends (Kept sb inum b) (InRange sb) (remove_entries after time inum leaf)
            (cleared leaf) stop remove_round fd [] 0 s refl rs h)

  -- What is asked of the action behind each match.
  pub update_disk_keeps :
      (fd : List Dirent) (s : Fs dev)
      → Kept sb inum b fd s
      → EndsIn update_disk (Kept sb inum b fd) s
  update_disk_keeps fd s h = update_disk-Kept io s h
