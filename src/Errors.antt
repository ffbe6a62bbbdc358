-- ===== src/Errors.antt =====
-- Which operations leave the file system as it was when they return an error.
use file_system_implementati.Base.{
  ℕ, zero, suc, ◌+◌, ◌≡◌, Bool, true, false, Option, List, [], ◌∷◌, arith, ◌==◌,
}
use file_system_implementati.Outcome.{Errno, Outcome, ok, err, hang, in_bounds}
use file_system_implementati.Exec.{Exec, pure, query, ◌>>=◌}
use file_system_implementati.Exec.Returns.{
  NeverErrs, NeverErrs-pure, NeverErrs-if, NeverErrs-bind, ErrKeeps, ErrKeeps-bind_query,
  ErrKeeps-bind_lift, ErrKeeps-of_NeverErrs, ErrKeeps-bind_never, never_rules, errkeeps_rules,
}
use file_system_implementati.Layout.{Bytes, Inode, Dirent}
use file_system_implementati.Device.{BlockDevice}
use file_system_implementati.Bitmap.{bit_set, bit_clear}
use file_system_implementati.Fs.{
  Fs, inode_at, update_inode, read_block, read_dir, write_region, write_block,
  write_block_unchecked, set_inode_bit, clear_inode_bit, set_block_bit, clear_block_bit,
  update_disk,
}
use file_system_implementati.Attr.{fs_chmod, fs_utime}
use file_system_implementati.Truncate.{
  release, rounds, free_direct, free_addrs, free_single, free_indir_2, free_double, free_file,
  fs_truncate,
}
use file_system_implementati.FilePath.{split_path}
use file_system_implementati.Lookup.{translate}
use file_system_implementati.Remove.{
  unchecked, remove_entry, remove_entries, remove_name, free_dir, fs_unlink, fs_rmdir,
}
use file_system_implementati.Rename.{rename_entry, rename_entries, fs_rename}
use file_system_implementati.Ops.{
  done, create, Call, Reply, Env, getattr, readdir, unlink, rmdir, mkdir, chmod, utime, truncate,
  rename, read, write, statfs, perform,
}
use file_system_implementati.Create.{Caller, add_block, create_at}
use file_system_implementati.Create

module _ {dev : BlockDevice} where
  inode_at-ne-err : (i : ℕ) (fs : Fs dev) (e : Errno) → inode_at fs i ≡ err e → ⊥
  unfolding inode_at
  inode_at-ne-err i fs e h = ground arith

  read_block-ne-err : (b : ℕ) (fs : Fs dev) (e : Errno) → read_block fs b ≡ err e → ⊥
  unfolding read_block
  read_block-ne-err b fs e h = ground arith

  update_inode-NeverErrs : (i : ℕ) (f : Inode → Inode) → NeverErrs (update_inode {dev = dev} i f)
  unfolding update_inode
  update_inode-NeverErrs i f = record { at = λ fs e h. ground arith }

  write_region-NeverErrs : (b : Bytes) (lba n : ℕ) → NeverErrs (write_region {dev = dev} b lba n)
  unfolding write_region
  write_region-NeverErrs b lba n = record { at = λ fs e h. ground arith }

  write_block-NeverErrs : (b : Bytes) (n : ℕ) → NeverErrs (write_block {dev = dev} b n)
  unfolding write_block
  write_block-NeverErrs b n = write_region-NeverErrs b n 1

  write_block_unchecked-NeverErrs :
      (b : Bytes) (n : ℕ) → NeverErrs (write_block_unchecked {dev = dev} b n)
  unfolding write_block_unchecked
  write_block_unchecked-NeverErrs b n = record { at = λ fs e h. cc }

  set_inode_bit-NeverErrs : (i : ℕ) → NeverErrs (set_inode_bit {dev = dev} i)
  unfolding set_inode_bit bit_set
  set_inode_bit-NeverErrs i = record { at = λ fs e h. ground arith }

  clear_inode_bit-NeverErrs : (i : ℕ) → NeverErrs (clear_inode_bit {dev = dev} i)
  unfolding clear_inode_bit bit_clear
  clear_inode_bit-NeverErrs i = record { at = λ fs e h. ground arith }

  set_block_bit-NeverErrs : (i : ℕ) → NeverErrs (set_block_bit {dev = dev} i)
  unfolding set_block_bit bit_set
  set_block_bit-NeverErrs i = record { at = λ fs e h. ground arith }

  clear_block_bit-NeverErrs : (i : ℕ) → NeverErrs (clear_block_bit {dev = dev} i)
  unfolding clear_block_bit bit_clear
  clear_block_bit-NeverErrs i = record { at = λ fs e h. ground arith }

  query_ok-ne-err : (fs : Fs dev) (e : Errno) → ok fs ≡ err e → ⊥
  query_ok-ne-err fs e h = cc

  update_disk-NeverErrs : NeverErrs (update_disk {dev = dev})
  unfolding update_disk
  update_disk-NeverErrs = search (never_rules, write_region-NeverErrs, query_ok-ne-err)

ruleset write_rules = (
  never_rules, inode_at-ne-err, read_block-ne-err, update_inode-NeverErrs, write_block-NeverErrs,
  write_block_unchecked-NeverErrs, set_inode_bit-NeverErrs, clear_inode_bit-NeverErrs,
  set_block_bit-NeverErrs, clear_block_bit-NeverErrs, update_disk-NeverErrs,
)

in_bounds-ne-err {ℓ} : {A : Type ℓ} (o : Option A) (e : Errno) → in_bounds o ≡ err e → ⊥
in_bounds-ne-err o e h = ground arith

hang-ne-err : (e : Errno) → ◌≡◌ {A = Outcome (Unit {0})} hang (err e) → ⊥
hang-ne-err e h = cc

unchecked-ne-err : (r : Outcome ℕ) (e : Errno) → unchecked r ≡ err e → ⊥
unfolding unchecked
unchecked-ne-err r e h = ground arith

split_path-ne-err : (path : Bytes) (e : Errno) → split_path path ≡ err e → ⊥
unfolding split_path
split_path-ne-err path e h = ground arith

module _ {dev : BlockDevice} where
  add_block-NeverErrs : (d : Bool) (i b : ℕ) → NeverErrs (add_block {dev = dev} d i b)
  unfolding add_block
  add_block-NeverErrs false i b = search write_rules
  add_block-NeverErrs true i b = search write_rules

  create_at-NeverErrs :
      (ctx : Caller) (mode : ℕ) (d : Bool) (inum : ℕ) (leaf : Bytes) (fd : List Dirent)
      (i next b : ℕ)
      → NeverErrs (create_at {dev = dev} ctx mode d inum leaf fd i next b)
  unfolding create_at
  create_at-NeverErrs ctx mode d inum leaf fd i next b =
      search (write_rules, add_block-NeverErrs, in_bounds-ne-err) depth 12

  pub create-ErrKeeps :
      (ctx : Caller) (path : Bytes) (mode : ℕ) (d : Bool)
      → ErrKeeps (Create.create {dev = dev} ctx path mode d)
  unfolding Create.create
  create-ErrKeeps ctx path mode d =
      search (errkeeps_rules, ErrKeeps-of_NeverErrs, create_at-NeverErrs) depth 14

  chmod-ErrKeeps : (path : Bytes) (mode : ℕ) → ErrKeeps (fs_chmod {dev = dev} path mode)
  unfolding fs_chmod
  chmod-ErrKeeps path mode = search (errkeeps_rules, ErrKeeps-of_NeverErrs, write_rules) depth 8

  utime-ErrKeeps : (path : Bytes) (t : ℕ) → ErrKeeps (fs_utime {dev = dev} path t)
  unfolding fs_utime
  utime-ErrKeeps path t = search (errkeeps_rules, ErrKeeps-of_NeverErrs, write_rules) depth 8

  release-NeverErrs : (b : ℕ) → NeverErrs (release {dev = dev} b)
  unfolding release
  release-NeverErrs b = search write_rules

  free_direct-NeverErrs : (addr : List ℕ) → NeverErrs (free_direct {dev = dev} addr)
  unfolding free_direct
  free_direct-NeverErrs [] = search write_rules
  free_direct-NeverErrs (a ∷ addr) = NeverErrs-if (a == 0) _ _ (search write_rules) (
      NeverErrs-bind _ _ (release-NeverErrs a)
        (λ _. NeverErrs-bind _ _ (free_direct-NeverErrs addr) (λ rest. NeverErrs-pure _)))

  free_addrs-NeverErrs : (i : ℕ) (addr : List ℕ) → NeverErrs (free_addrs {dev = dev} i addr)
  unfolding free_addrs
  free_addrs-NeverErrs i [] = search write_rules
  free_addrs-NeverErrs i (a ∷ addr) =
      NeverErrs-if (a == 0) _ _ (search write_rules)
        (NeverErrs-bind _ _ (release-NeverErrs a) (λ _. free_addrs-NeverErrs (i + 1) addr))

  free_indir_2-NeverErrs : (n i : ℕ) (l : List ℕ) → NeverErrs (free_indir_2 {dev = dev} n i l)
  unfolding free_indir_2
  free_indir_2-NeverErrs zero i l = search (write_rules, hang-ne-err)
  free_indir_2-NeverErrs (suc n) i l =
      search
        (
          write_rules,
          in_bounds-ne-err,
          free_addrs-NeverErrs,
          release-NeverErrs,
          λ (j : ℕ). free_indir_2-NeverErrs n j l,
        )
        depth 12

  free_single-NeverErrs : (i : ℕ) → NeverErrs (free_single {dev = dev} i)
  unfolding free_single
  free_single-NeverErrs i = search (write_rules, free_addrs-NeverErrs, release-NeverErrs) depth 9

  free_double-NeverErrs : (i : ℕ) → NeverErrs (free_double {dev = dev} i)
  unfolding free_double
  free_double-NeverErrs i =
      search (write_rules, free_indir_2-NeverErrs rounds, release-NeverErrs) depth 9

  free_file-NeverErrs : (now i : ℕ) → NeverErrs (free_file {dev = dev} now i)
  unfolding free_file
  free_file-NeverErrs now i =
      search (write_rules, free_direct-NeverErrs, free_single-NeverErrs, free_double-NeverErrs)
        depth 10

  truncate-ErrKeeps :
      (now : ℕ) (path : Bytes) (len : ℕ) → ErrKeeps (fs_truncate {dev = dev} now path len)
  unfolding fs_truncate
  truncate-ErrKeeps now path len =
      search (errkeeps_rules, ErrKeeps-of_NeverErrs, free_file-NeverErrs) depth 8

  remove_entry-NeverErrs :
      (now i r : ℕ) (fd : List Dirent) → NeverErrs (remove_entry {dev = dev} now i r fd)
  unfolding remove_entry
  remove_entry-NeverErrs now i r fd = search write_rules depth 8

  remove_entries-NeverErrs :
      (after : Exec (Fs dev) (Unit {0})) (time : ℕ → ℕ) (inum : ℕ) (leaf : Bytes) (n i : ℕ)
      (fd : List Dirent)
      → NeverErrs after
      → NeverErrs (remove_entries after time inum leaf n i fd)
  unfolding remove_entries
  remove_entries-NeverErrs after time inum leaf zero i fd h = search write_rules
  remove_entries-NeverErrs after time inum leaf (suc n) i fd h =
      search
        (
          write_rules,
          in_bounds-ne-err,
          remove_entry-NeverErrs,
          λ (fd' : List Dirent). remove_entries-NeverErrs after time inum leaf n (i + 1) fd' h,
        )
        depth 9

  read_dir-ne-err : (b : ℕ) (fs : Fs dev) (e : Errno) → read_dir fs b ≡ err e → ⊥
  unfolding read_dir
  read_dir-ne-err b fs e h = ground arith

  unchecked-translate-ne-err :
      (path : Bytes) (fs : Fs dev) (e : Errno) → unchecked (translate fs path) ≡ err e → ⊥
  unchecked-translate-ne-err path fs e h = unchecked-ne-err (translate fs path) e h

  remove_name-NeverErrs :
      (after : Exec (Fs dev) (Unit {0})) (time : ℕ → ℕ) (path : Bytes)
      → NeverErrs after
      → NeverErrs (remove_name after time path)
  unfolding remove_name
  remove_name-NeverErrs after time path h =
      search
        (
          write_rules, split_path-ne-err, unchecked-translate-ne-err, read_dir-ne-err,
          remove_entries-NeverErrs,
        )
        depth 9

  unlink-ErrKeeps :
      (now : ℕ) (time : ℕ → ℕ) (path : Bytes) → ErrKeeps (fs_unlink {dev = dev} now time path)
  unfolding fs_unlink
  unlink-ErrKeeps now time path =
      ErrKeeps-bind_never _ _ (truncate-ErrKeeps now path 0)
        (λ _. remove_name-NeverErrs update_disk time path update_disk-NeverErrs)

  free_dir-NeverErrs : (i b : ℕ) → NeverErrs (free_dir {dev = dev} i b)
  unfolding free_dir
  free_dir-NeverErrs i b = search write_rules depth 9

  rmdir-ErrKeeps : (time : ℕ → ℕ) (path : Bytes) → ErrKeeps (fs_rmdir {dev = dev} time path)
  unfolding fs_rmdir
  rmdir-ErrKeeps time path =
      search
        (
          errkeeps_rules, ErrKeeps-of_NeverErrs, write_rules, free_dir-NeverErrs,
          remove_name-NeverErrs,
        )
        depth 14

  rename_entry-NeverErrs :
      (now i r : ℕ) (fd : List Dirent) → NeverErrs (rename_entry {dev = dev} now i r fd)
  unfolding rename_entry
  rename_entry-NeverErrs now i r fd = search write_rules depth 9

  rename_entries-NeverErrs :
      (time : ℕ → ℕ) (inum : ℕ) (src dst : Bytes) (n i : ℕ) (fd : List Dirent)
      → NeverErrs (rename_entries {dev = dev} time inum src dst n i fd)
  unfolding rename_entries
  rename_entries-NeverErrs time inum src dst zero i fd = search write_rules
  rename_entries-NeverErrs time inum src dst (suc n) i fd =
      search
        (
          write_rules,
          in_bounds-ne-err,
          rename_entry-NeverErrs,
          λ (fd' : List Dirent). rename_entries-NeverErrs time inum src dst n (i + 1) fd',
        )
        depth 9

  rename-ErrKeeps : (time : ℕ → ℕ) (src dst : Bytes) → ErrKeeps (fs_rename {dev = dev} time src dst)
  unfolding fs_rename
  rename-ErrKeeps time src dst = ErrKeeps-bind_query _ _ λ _. ErrKeeps-bind_query _ _ λ _.
      ErrKeeps-bind_lift (split_path src) _ λ a. ErrKeeps-bind_lift (split_path dst) _ λ b.
        ErrKeeps-bind_query _ _ λ inum. ErrKeeps-bind_query _ _ λ dir.
          ErrKeeps-bind_query _ _
            λ fd. ErrKeeps-of_NeverErrs _ (rename_entries-NeverErrs time inum a.1 b.1 32 0 fd)

-- The calls that change the file system, but for write.
abbrev pub IsWrite : Call → Type 0
IsWrite (write path buf offset) = Unit
IsWrite _ = ⊥

module _ {dev : BlockDevice} where
  returns_0-ErrKeeps : (m : Exec (Fs dev) (Unit {0})) → ErrKeeps m → ErrKeeps (m >>= λ _. pure done)
  returns_0-ErrKeeps m h = ErrKeeps-bind_never m _ h λ _. NeverErrs-pure done

  reads-ErrKeeps :
      {A : Type 0} (f : Fs dev → Outcome A) (g : A → Reply) → ErrKeeps (query f >>= λ a. pure (g a))
  reads-ErrKeeps f g = ErrKeeps-bind_query f _ λ a. ErrKeeps-of_NeverErrs _ (NeverErrs-pure (g a))

  perform-ErrKeeps : (env : Env) (c : Call) → ¬ IsWrite c → ErrKeeps (perform {dev = dev} env c)
  unfolding perform
  perform-ErrKeeps env (getattr path) h = reads-ErrKeeps _ _
  perform-ErrKeeps env (readdir path) h = reads-ErrKeeps _ _
  perform-ErrKeeps env (create path mode) h =
      returns_0-ErrKeeps _ (create-ErrKeeps env.user path _ false)
  perform-ErrKeeps env (mkdir path mode) h =
      returns_0-ErrKeeps _ (create-ErrKeeps env.user path _ true)
  perform-ErrKeeps env (unlink path) h =
      returns_0-ErrKeeps _ (unlink-ErrKeeps env.now env.round path)
  perform-ErrKeeps env (rmdir path) h = returns_0-ErrKeeps _ (rmdir-ErrKeeps env.round path)
  perform-ErrKeeps env (rename src dst) h = returns_0-ErrKeeps _ (rename-ErrKeeps env.round src dst)
  perform-ErrKeeps env (chmod path mode) h = returns_0-ErrKeeps _ (chmod-ErrKeeps path mode)
  perform-ErrKeeps env (utime path t) h = returns_0-ErrKeeps _ (utime-ErrKeeps path t)
  perform-ErrKeeps env (truncate path len) h =
      returns_0-ErrKeeps _ (truncate-ErrKeeps env.now path len)
  perform-ErrKeeps env (read path len offset) h = reads-ErrKeeps _ _
  perform-ErrKeeps env (write path buf offset) h = absurd (h tt)
  perform-ErrKeeps env statfs h = reads-ErrKeeps _ _

  -- A call other than write that returns an error leaves the file system as it was, in memory and on
  -- the disk.
  pub error_keeps_state :
      (env : Env) (c : Call) (fs : Fs dev) (e : Errno)
      → ¬ IsWrite c
      → (perform env c fs).0 ≡ err e
      → (perform env c fs).1 ≡ fs
  error_keeps_state env c fs e h r = (perform-ErrKeeps env c h).at fs e r
