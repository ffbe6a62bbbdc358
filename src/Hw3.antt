-- ===== src/Hw3.antt =====
-- libhw3.c: what the library that the tests load exports, over fs_ops and the image file.
pub mod Listing
use file_system_implementati.Base.{
  ℕ, ◌+◌, true, Bool, List, [], ◌∷◌, ◌++◌, leb, ltb, ◌||◌, length, take, replicate, get_elem?, set,
  if◌then◌else◌,
}
use file_system_implementati.Base.Int.{ℤ, pos, negsuc}
use file_system_implementati.Outcome.{Outcome, ok, fault, in_bounds, ◌>>=◌}
use file_system_implementati.Exec.{Exec}
use file_system_implementati.Layout.{Bytes}
use file_system_implementati.Device.{BlockDevice}
use file_system_implementati.Fs.{Fs, fs_init, c_string}
use file_system_implementati.DiskFile.{Posix, block_init}
use file_system_implementati.Attr.{Stat, fs_readdir}
use file_system_implementati.Create.{Caller}
use file_system_implementati.Ops.{
  Call, Reply, Env, getattr, create, mkdir, truncate, unlink, rmdir, rename, chmod, utime, read,
  write, statfs, perform,
}

-- `struct dirent` of libhw3.c; `name` is the whole array of 64 bytes.
pub record DirEntry : Type 0 where
  pub name : Bytes
  pub sb : Stat

-- `struct dir_state`; `de` is the array that the caller passes.
pub record DirState : Type 0 where
  pub max : ℤ
  pub i : ℕ
  pub de : List DirEntry

-- strncpy from an array that holds `src`: what stands behind the string is cleared. A string of less
-- than `n` bytes that has no end in the array is read on behind it, which is a `fault`.
unfoldable pub strncpy : ℕ → Bytes → Outcome Bytes
unfolding c_string
strncpy n src =
    if ltb (length (c_string src)) (length src) || leb n (length src)
    then ok (take n (c_string src ++ replicate n 0))
    else fault

-- `d->i >= d->max`
abbrev pub is_full : ℕ → ℤ → Bool
is_full i (pos m) = leb m i
is_full i (negsuc m) = true

-- One call of `filler`. Its result, -ENOMEM when the state is full, is ignored by fs_readdir.
unfoldable pub filler : DirState → Bytes × Stat → Outcome DirState
unfolding strncpy
filler d (name, sb) =
    if is_full d.i d.max
    then ok d
    else (in_bounds (get_elem? d.de d.i) >>= λ _. strncpy 64 name >>= λ copied.
        ok (record d { i = d.i + 1; de = set d.de d.i (record { name = copied; sb = sb }) }))

-- The calls that the loop of fs_readdir makes.
unfoldable pub fill : DirState → List (Bytes × Stat) → Outcome DirState
fill d [] = ok d
fill d (e ∷ es) = filler d e >>= λ d'. fill d' es

-- The number of entries, and the array with them.
unfoldable pub hw3_readdir :
    {dev : BlockDevice} → Fs dev → Bytes → ℤ → List DirEntry → Outcome (ℕ × List DirEntry)
unfolding fill
hw3_readdir fs path n de = fs_readdir fs path >>= λ es.
    fill (record { max = n; i = 0; de = de }) es >>= λ d. ok (d.i, d.de)

-- `struct fuse_context`, the fields that the file system reads.
pub record Context : Type 0 where
  pub uid : ℕ
  pub gid : ℕ

abbrev pub fuse_get_context : Context → (now : ℕ) → Caller
fuse_get_context ctx now = record { uid = ctx.uid; gid = ctx.gid; time = now }

-- block_init, a cleared context, and fs_init over the device that the open file makes.
unfoldable pub hw3_init :
    (os : Posix) (dev : BlockDevice) → (os.File → dev.Disk) → Bytes → Outcome (Context × Fs dev)
hw3_init os dev disk_of image = block_init os image >>= λ f.
    fs_init dev (disk_of f) >>= λ fs. ok (record { uid = 0; gid = 0 }, fs)

module _ {dev : BlockDevice} (env : Env) where
  abbrev pub hw3_getattr : Bytes → Exec (Fs dev) Reply
  hw3_getattr path = perform env (getattr path)

  abbrev pub hw3_create : Bytes → ℕ → Exec (Fs dev) Reply
  hw3_create path mode = perform env (create path mode)

  abbrev pub hw3_mkdir : Bytes → ℕ → Exec (Fs dev) Reply
  hw3_mkdir path mode = perform env (mkdir path mode)

  abbrev pub hw3_truncate : Bytes → ℕ → Exec (Fs dev) Reply
  hw3_truncate path len = perform env (truncate path len)

  abbrev pub hw3_unlink : Bytes → Exec (Fs dev) Reply
  hw3_unlink path = perform env (unlink path)

  abbrev pub hw3_rmdir : Bytes → Exec (Fs dev) Reply
  hw3_rmdir path = perform env (rmdir path)

  abbrev pub hw3_rename : Bytes → Bytes → Exec (Fs dev) Reply
  hw3_rename path1 path2 = perform env (rename path1 path2)

  abbrev pub hw3_chmod : Bytes → ℕ → Exec (Fs dev) Reply
  hw3_chmod path mode = perform env (chmod path mode)

  abbrev pub hw3_utime : Bytes → (actime modtime : ℕ) → Exec (Fs dev) Reply
  hw3_utime path actime modtime = perform env (utime path modtime)

  abbrev pub hw3_read : Bytes → (len offset : ℕ) → Exec (Fs dev) Reply
  hw3_read path len offset = perform env (read path len offset)

  abbrev pub hw3_write : Bytes → Bytes → (offset : ℕ) → Exec (Fs dev) Reply
  hw3_write path buf offset = perform env (write path buf offset)

  abbrev pub hw3_statfs : Exec (Fs dev) Reply
  hw3_statfs = perform env statfs
