-- ===== src/Tables/Names.antt =====
-- fs_unlink, fs_rmdir and fs_rename, on well-formed tables and a working device.
use file_system_implementati.Base.{ℕ, zero, suc, ◌+◌, ◌≡◌, refl, false, not, List, set}
use file_system_implementati.Outcome.{Outcome}
use file_system_implementati.Exec.{Exec, pure, lift, query, ◌>>=◌, ◌>>◌}
use file_system_implementati.Exec.Triple.{
  Triple, Triple-bind, Triple-pure, Triple-raise, Triple-if, Triple-query, Triple-lift, Triple-pre,
  Triple-post,
}
use file_system_implementati.Layout.{Bytes, Dirent}
use file_system_implementati.Device.{BlockDevice, IsDevice}
use file_system_implementati.FilePath.{split_path}
use file_system_implementati.Fs.{Fs, s_isdir, direct_0, strcpy, inode_at, read_dir, update_disk}
use file_system_implementati.Fs.Sync.{IsWf}
use file_system_implementati.Lookup.{matches, translate}
use file_system_implementati.Remove.{
  unchecked, any_valid, remove_entry, remove_entries, remove_name, fs_unlink, free_dir, fs_rmdir,
}
use file_system_implementati.Rename.{
  must_exist, same_parent, rename_entry, rename_entries, fs_rename,
}
use file_system_implementati.Create.{must_not_exist}
use file_system_implementati.Tables.{Keeps, Saves, Saved, Keeps-bind}
use file_system_implementati.Tables.Access.{
  Any, update_inode-Keeps, clear_block_bit-Keeps, clear_inode_bit-Keeps,
}
use file_system_implementati.Tables.Disk.{
  Post-eq-ok, read-Keeps, write_block-Keeps, write_block_unchecked-Keeps, update_disk-Saves,
}
use file_system_implementati.Tables.Inodes.{mtime-IsInode, cleared-IsInode}
use file_system_implementati.Tables.Truncate.{fs_truncate-Saves}

module _ {dev : BlockDevice} (io : IsDevice dev) where
  remove_entry-Keeps :
      (now i r : ℕ) (fd : List Dirent) → Keeps (remove_entry {dev = dev} now i r fd) Any
  unfolding remove_entry
  remove_entry-Keeps now i r fd = Keeps-bind _ _ (read-Keeps _) λ dir _.
      Keeps-bind _ _ (write_block-Keeps io _ _) λ _ _.
        Keeps-bind _ _ (clear_inode_bit-Keeps r)
          λ _ _. update_inode-Keeps i _ λ x h. mtime-IsInode x h now

module _ {dev : BlockDevice} where
  abbrev pub WfSaved : Fs dev → Type 0
  WfSaved s = IsWf s × Saved s

  wf_of : (s : Fs dev) → WfSaved s → IsWf s
  wf_of s j = j.0

  -- What the functions come down to, with their loops shut.
  remove_name_steps :
      (after : Exec (Fs dev) (Unit {0})) (time : ℕ → ℕ) (path : Bytes)
      → remove_name after time path ≡ (do
        (parent, leaf) ← lift (split_path path)
        inum ← query (λ fs. unchecked (translate fs parent))
        dir ← query (λ fs. inode_at fs inum)
        fd ← query (λ fs. read_dir fs (direct_0 dir))
        remove_entries after time inum leaf 32 0 fd)
  unfolding remove_name
  remove_name_steps after time path = refl

  fs_rename_steps :
      (time : ℕ → ℕ) (src_path dst_path : Bytes)
      → fs_rename {dev = dev} time src_path dst_path ≡ (do
        query (λ fs. must_exist (translate fs src_path))
        query (λ fs. must_not_exist (translate fs dst_path))
        (src_parent, src_leaf) ← lift (split_path src_path)
        (dst_parent, dst_leaf) ← lift (split_path dst_path)
        inum ← query (λ fs. same_parent (translate fs src_parent) (translate fs dst_parent))
        dir ← query (λ fs. inode_at fs inum)
        fd ← query (λ fs. read_dir fs (direct_0 dir))
        rename_entries time inum src_leaf dst_leaf 32 0 fd)
  unfolding fs_rename
  fs_rename_steps time src_path dst_path = refl

-- A loop over the entries keeps `J`, which the end of its body restores.
module _ {dev : BlockDevice} (io : IsDevice dev) (J : Fs dev → Type 0)
    (wf : (s : Fs dev) → J s → IsWf s) where
  lift-pass :
      {A B : Type 0} {Q : B → Fs dev → Type 0} (r : Outcome A) (k : A → Exec (Fs dev) B)
      → ((a : A) → Triple IsWf J (k a) Q)
      → Triple IsWf J (lift r >>= k) Q
  lift-pass r k h =
      Triple-bind (lift r) k (Triple-lift r λ s j. (wf s j, Post-eq-ok (λ _. J s) r λ a e. j)) h

  pub query-pass :
      {A B : Type 0} {Q : B → Fs dev → Type 0} (f : Fs dev → Outcome A) (k : A → Exec (Fs dev) B)
      → ((a : A) → Triple IsWf J (k a) Q)
      → Triple IsWf J (query f >>= k) Q
  query-pass f k h =
      Triple-bind (query f) k (Triple-query f λ s j. (wf s j, Post-eq-ok (λ _. J s) (f s) λ a e. j))
        h

  pure-pass : Triple IsWf J (pure tt) (λ (a : Unit {0}) s. J s)
  pure-pass = Triple-pure tt λ s j. (wf s j, j)

  remove_entries-Triple :
      (after : Exec (Fs dev) (Unit {0})) (time : ℕ → ℕ) (inum : ℕ) (leaf : Bytes) (n i : ℕ)
      (fd : List Dirent)
      → Triple IsWf IsWf after (λ _ s. J s)
      → Triple IsWf J (remove_entries after time inum leaf n i fd) (λ _ s. J s)
  unfolding remove_entries
  remove_entries-Triple after time inum leaf zero i fd h = pure-pass
  remove_entries-Triple after time inum leaf (suc n) i fd h = lift-pass _ _ λ e.
      Triple-if (not (matches leaf e)) _ _
        (λ _. remove_entries-Triple after time inum leaf n (i + 1) fd h)
        λ _.
          let fd' = set fd i (record e { valid = false }) in
          Triple-pre IsWf _ wf (
            Keeps-bind _ _ (remove_entry-Keeps io (time i) inum e.inode fd') λ _ _.
              Triple-bind _ _ h λ _. remove_entries-Triple after time inum leaf n (i + 1) fd' h)

  remove_name-Triple :
      (after : Exec (Fs dev) (Unit {0})) (time : ℕ → ℕ) (path : Bytes)
      → Triple IsWf IsWf after (λ _ s. J s)
      → Triple IsWf J (remove_name after time path) (λ _ s. J s)
  remove_name-Triple after time path h = rw (remove_name_steps after time path) (
      lift-pass _ _ λ p. query-pass _ _ λ inum.
        query-pass _ _
          λ dir. query-pass _ _ λ fd. remove_entries-Triple after time inum p.1 32 0 fd h)

module _ {dev : BlockDevice} (io : IsDevice dev) where
  pub fs_unlink-Saves :
      (now : ℕ) (time : ℕ → ℕ) (path : Bytes) → Saves IsWf (fs_unlink {dev = dev} now time path)
  unfolding fs_unlink
  fs_unlink-Saves now time path =
      Triple-bind _ _ (fs_truncate-Saves io now path 0)
        λ _. remove_name-Triple io WfSaved wf_of update_disk time path (update_disk-Saves io)

  free_dir-Keeps : (i b : ℕ) → Keeps (free_dir {dev = dev} i b) Any
  unfolding free_dir
  free_dir-Keeps i b = Keeps-bind _ _ (write_block_unchecked-Keeps io _ _) λ _ _.
      Keeps-bind _ _ (clear_block_bit-Keeps b) λ _ _.
        Keeps-bind _ _ (update_inode-Keeps i _ λ x h. cleared-IsInode x h)
          λ _ _. clear_inode_bit-Keeps i

  pub fs_rmdir-Saves : (time : ℕ → ℕ) (path : Bytes) → Saves IsWf (fs_rmdir {dev = dev} time path)
  unfolding fs_rmdir
  fs_rmdir-Saves time path = Keeps-bind _ _ (read-Keeps _) λ inum _.
      Keeps-bind _ _ (read-Keeps _) λ dir _.
        Triple-if (not (s_isdir dir.mode)) _ _ (λ _. Triple-raise _ λ s w. w)
          λ _. Keeps-bind _ _ (read-Keeps _) λ fd _.
            Triple-if (any_valid fd) _ _ (λ _. Triple-raise _ λ s w. w)
              λ _. Keeps-bind _ _ (free_dir-Keeps inum (direct_0 dir)) λ _ _.
                Triple-bind _ _
                  (remove_name-Triple io IsWf (λ s w. w) (pure tt) time path
                    (pure-pass io IsWf (λ s w. w)))
                  λ _. update_disk-Saves io

  pub rename_entry-Saves :
      (now i r : ℕ) (fd : List Dirent) → Saves IsWf (rename_entry {dev = dev} now i r fd)
  unfolding rename_entry
  rename_entry-Saves now i r fd = Keeps-bind _ _ (read-Keeps _) λ dir _.
      Keeps-bind _ _ (write_block-Keeps io _ _) λ _ _.
        Keeps-bind _ _ (update_inode-Keeps r _ λ x h. mtime-IsInode x h now) λ _ _.
          Keeps-bind _ _ (update_inode-Keeps i _ λ x h. mtime-IsInode x h now)
            λ _ _. update_disk-Saves io

module _ {dev : BlockDevice} (io : IsDevice dev) (J : Fs dev → Type 0)
    (wf : (s : Fs dev) → J s → IsWf s) (close : (s : Fs dev) → WfSaved s → J s) where
  rename_entries-Triple :
      (time : ℕ → ℕ) (inum : ℕ) (src dst : Bytes) (n i : ℕ) (fd : List Dirent)
      → Triple IsWf J (rename_entries {dev = dev} time inum src dst n i fd) (λ _ s. J s)
  unfolding rename_entries
  rename_entries-Triple time inum src dst zero i fd = pure-pass io J wf
  rename_entries-Triple time inum src dst (suc n) i fd = lift-pass io J wf _ _ λ e.
      Triple-if (not (matches src e)) _ _
        (λ _. rename_entries-Triple time inum src dst n (i + 1) fd)
        λ _.
          let fd' = set fd i (record e { name = strcpy e.name dst }) in
          Triple-pre IsWf _ wf (
            Triple-bind _ _
              (Triple-post _ _ (λ _. close) (rename_entry-Saves io (time i) inum e.inode fd'))
              λ _. rename_entries-Triple time inum src dst n (i + 1) fd')

  pub fs_rename-Triple :
      (time : ℕ → ℕ) (src dst : Bytes)
      → Triple IsWf J (fs_rename {dev = dev} time src dst) (λ _ s. J s)
  fs_rename-Triple time src dst = rw (fs_rename_steps time src dst) (
      query-pass io J wf _ _ λ _. query-pass io J wf _ _ λ _. lift-pass io J wf _ _ λ a.
        lift-pass io J wf _ _ λ b. query-pass io J wf _ _ λ inum.
          query-pass io J wf _ _
            λ dir. query-pass io J wf _ _ λ fd. rename_entries-Triple time inum a.1 b.1 32 0 fd)
