-- ===== src/Rename.antt =====
-- fs_rename of homework.c.
use file_system_implementati.Base.{
  ℕ, zero, suc, ◌+◌, ◌%◌, ◌^◌, not, List, get_elem?, set, ◌==◌, if◌then◌else◌,
}
use file_system_implementati.Outcome.{
  Errno, Outcome, ok, err, exit, fault, hang, in_bounds, enoent, enotdir, eexist, eisdir, einval,
  enospc, enotempty,
}
use file_system_implementati.Exec.{Exec, query, lift, pure, ◌>>=◌, ◌>>◌}
use file_system_implementati.Layout.{Bytes, Dirent, encode_dir}
use file_system_implementati.Device.{BlockDevice}
use file_system_implementati.FilePath.{split_path}
use file_system_implementati.Fs.{
  Fs, direct_0, strcpy, inode_at, update_inode, read_dir, write_block, update_disk,
}
use file_system_implementati.Lookup.{matches, translate}
use file_system_implementati.Create.{must_not_exist}

-- `if (inum < 0) return -ENOENT;`
unfoldable pub must_exist : Outcome ℕ → Outcome ℕ
must_exist (ok m) = ok m
must_exist (err e) = err enoent
must_exist exit = exit
must_exist fault = fault
must_exist hang = hang

-- The values of <errno.h>.
abbrev pub errno : Errno → ℕ
errno enoent = 2
errno enotdir = 20
errno eexist = 17
errno eisdir = 21
errno einval = 22
errno enospc = 28
errno enotempty = 39

-- `if (inum != translate(parent)) return -EINVAL;`, on what translate returned for both parents.
-- Two equal errors pass the test, and `inodes[inum]` is then read at a negative number.
unfoldable pub same_parent : Outcome ℕ → Outcome ℕ → Outcome ℕ
same_parent (ok a) (ok b) = if a == b then ok a else err einval
same_parent (ok a) (err e) = err einval
same_parent (err e) (ok b) = err einval
same_parent (err e) (err e') = if errno e == errno e' then fault else err einval
same_parent (ok a) exit = exit
same_parent (ok a) fault = fault
same_parent (ok a) hang = hang
same_parent (err e) exit = exit
same_parent (err e) fault = fault
same_parent (err e) hang = hang
same_parent exit b = exit
same_parent fault b = fault
same_parent hang b = hang

module _ {dev : BlockDevice} where
  -- The body of the loop for an entry that matches.
  unfoldable pub rename_entry : ℕ → ℕ → ℕ → List Dirent → Exec (Fs dev) (Unit {0})
  rename_entry now inum renamed fd = do
    dir ← query (λ fs. inode_at fs inum)
    write_block (encode_dir fd) (direct_0 dir)
    update_inode renamed (λ i. record i { mtime = now % 2 ^ 32 })
    update_inode inum (λ i. record i { mtime = now % 2 ^ 32 })
    update_disk

  -- `n` rounds of the loop from entry `i` on; the time of round `i` is `time i`.
  unfoldable pub rename_entries :
      (ℕ → ℕ) → ℕ → Bytes → Bytes → ℕ → ℕ → List Dirent → Exec (Fs dev) (Unit {0})
  unfolding rename_entry
  rename_entries time inum src_leaf dst_leaf zero i fd = pure tt
  rename_entries time inum src_leaf dst_leaf (suc n) i fd = do
    e ← lift (in_bounds (get_elem? fd i))
    if not (matches src_leaf e) then rename_entries time inum src_leaf dst_leaf n (i + 1) fd else do
      let fd' = set fd i (record e { name = strcpy e.name dst_leaf })
      rename_entry (time i) inum e.inode fd'
      rename_entries time inum src_leaf dst_leaf n (i + 1) fd'

  unfoldable pub fs_rename : (ℕ → ℕ) → Bytes → Bytes → Exec (Fs dev) (Unit {0})
  unfolding rename_entries must_exist must_not_exist same_parent
  fs_rename time src_path dst_path = do
    query (λ fs. must_exist (translate fs src_path))
    query (λ fs. must_not_exist (translate fs dst_path))
    (src_parent, src_leaf) ← lift (split_path src_path)
    (dst_parent, dst_leaf) ← lift (split_path dst_path)
    inum ← query (λ fs. same_parent (translate fs src_parent) (translate fs dst_parent))
    dir ← query (λ fs. inode_at fs inum)
    fd ← query (λ fs. read_dir fs (direct_0 dir))
    rename_entries time inum src_leaf dst_leaf 32 0 fd
