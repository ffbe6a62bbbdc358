-- ===== src/Lookup.antt =====
-- lookup and translate of homework.c: from a path to an inode number.
pub mod Tree
pub mod Missing
use file_system_implementati.Base.{
  ℕ, Bool, true, false, List, [], ◌∷◌, ◌&&◌, not, list_eq, ◌==◌, if◌then◌else◌,
}
use file_system_implementati.Outcome.{Outcome, ok, err, enoent, enotdir, ◌>>=◌}
use file_system_implementati.Layout.{Bytes, Dirent}
use file_system_implementati.Device.{BlockDevice}
use file_system_implementati.FilePath.{parse, dot}
use file_system_implementati.Fs.{Fs, root_inode, s_isdir, direct_0, c_string, inode_at, read_dir}

-- `fd[i].valid && strcmp(fd[i].name, name) == 0`
unfoldable pub matches : Bytes → Dirent → Bool
unfolding c_string list_eq
matches name e = e.valid && list_eq (c_string e.name) name

-- The loop of lookup over the 32 entries.
unfoldable pub find_entry : Bytes → List Dirent → Outcome ℕ
find_entry name [] = err enoent
find_entry name (e ∷ es) = if matches name e then ok e.inode else find_entry name es

-- A first component "." is skipped.
unfoldable pub skip_dot : List Bytes → List Bytes
unfolding list_eq
skip_dot [] = []
skip_dot (name ∷ names) = if list_eq name dot then names else name ∷ names

module _ {dev : BlockDevice} (fs : Fs dev) where
  unfoldable pub lookup : ℕ → Bytes → Outcome ℕ
  lookup inum name = inode_at fs inum >>= λ dir.
      if not (s_isdir dir.mode)
      then err enotdir
      else (read_dir fs (direct_0 dir) >>= λ fd. find_entry name fd)

  -- The loop of translate stops at an error and at inode 0.
  unfoldable pub walk : ℕ → List Bytes → Outcome ℕ
  walk inum [] = ok inum
  walk inum (name ∷ names) =
      lookup inum name >>= λ m. elim (m == 0) [ true ↦ ok 0 | false ↦ walk m names ]

  unfoldable pub translate : Bytes → Outcome ℕ
  translate path = walk root_inode (skip_dot (parse path))
