-- ===== src/Ops.antt =====
-- fs_ops of homework.c: the vector of operations that FUSE calls once fs_init has run.
use file_system_implementati.Base.{ℕ, List}
use file_system_implementati.Exec.{Exec, query, pure, ◌>>=◌, ◌>>◌}
use file_system_implementati.Layout.{Bytes}
use file_system_implementati.Device.{BlockDevice}
use file_system_implementati.Fs.{Fs}
use file_system_implementati.Attr.{
  Stat, StatVfs, fs_getattr, fs_readdir, fs_chmod, fs_utime, fs_statfs,
}
use file_system_implementati.Create.{Caller, fs_create, fs_mkdir}
use file_system_implementati.FileRead.{fs_read}
use file_system_implementati.FileWrite.{fs_write}
use file_system_implementati.Truncate.{fs_truncate}
use file_system_implementati.Remove.{fs_unlink, fs_rmdir}
use file_system_implementati.Rename.{fs_rename}

pub data Call : Type 0 where
  getattr readdir unlink rmdir : Bytes → Call
  create mkdir chmod utime truncate : Bytes → ℕ → Call
  rename : Bytes → Bytes → Call
  read : Bytes → (len offset : ℕ) → Call
  write : Bytes → Bytes → (offset : ℕ) → Call
  statfs : Call

pub data Reply : Type 0 where
  done : Reply
  attributes : Stat → Reply
  entries : List (Bytes × Stat) → Reply
  bytes : ℕ → Bytes → Reply
  count : ℕ → Reply
  statistics : StatVfs → Reply

-- What a call reads from outside: the user, and time(NULL) at its start and in the rounds of a loop.
pub record Env : Type 0 where
  pub user : Caller
  pub now : ℕ
  pub round : ℕ → ℕ

module _ {dev : BlockDevice} where
  abbrev returns_0 : Exec (Fs dev) (Unit {0}) → Exec (Fs dev) Reply
  returns_0 m = m >> pure done

  unfoldable pub perform : Env → Call → Exec (Fs dev) Reply
  unfolding fs_create fs_mkdir
  perform env (getattr path) = do st ← query (λ fs. fs_getattr fs path); pure (attributes st)
  perform env (readdir path) = do l ← query (λ fs. fs_readdir fs path); pure (entries l)
  perform env (create path mode) = returns_0 (fs_create env.user path mode)
  perform env (mkdir path mode) = returns_0 (fs_mkdir env.user path mode)
  perform env (unlink path) = returns_0 (fs_unlink env.now env.round path)
  perform env (rmdir path) = returns_0 (fs_rmdir env.round path)
  perform env (rename src dst) = returns_0 (fs_rename env.round src dst)
  perform env (chmod path mode) = returns_0 (fs_chmod path mode)
  perform env (utime path modtime) = returns_0 (fs_utime path modtime)
  perform env (truncate path len) = returns_0 (fs_truncate env.now path len)
  perform env (read path len offset) = do
    r ← query (λ fs. fs_read fs path len offset)
    pure (bytes r.0 r.1)
  perform env (write path buf offset) = do n ← fs_write env.now path buf offset; pure (count n)
  perform env statfs = do st ← query fs_statfs; pure (statistics st)
