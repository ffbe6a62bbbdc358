-- ===== src/Sessions.antt =====
-- Sequences of calls through fs_ops, from fs_init on.
use file_system_implementati.Base.{◌^◌, ◌<◌, ◌≡◌, sym, ap, ◌∙◌, subst}
use file_system_implementati.Outcome.{Errno, Outcome, ok, err}
use file_system_implementati.Exec.{Exec, pure, query, ◌>>=◌}
use file_system_implementati.Exec.Triple.{
  Triple, Post, Triple-bind, Triple-pure, Triple-pre, Triple-post,
}
use file_system_implementati.Device.{BlockDevice, IsDevice}
use file_system_implementati.Fs.{Fs, fs_init}
use file_system_implementati.Fs.Sync.{IsWf, HasSuper}
use file_system_implementati.Ops.{
  Call, Reply, Env, done, getattr, readdir, create, unlink, rmdir, mkdir, chmod, utime, truncate,
  rename, read, write, statfs, perform,
}
use file_system_implementati.Errors.{IsWrite, error_keeps_state}
use file_system_implementati.Tables.{Saves}
use file_system_implementati.Tables.Names.{
  WfSaved, query-pass, fs_unlink-Saves, fs_rmdir-Saves, fs_rename-Triple,
}
use file_system_implementati.Tables.Create.{
  fs_create-Saves, fs_mkdir-Saves, fs_chmod-Saves, fs_utime-Saves,
}
use file_system_implementati.Tables.Truncate.{fs_truncate-Saves}
use file_system_implementati.Tables.Write.{fs_write-Saves}
use file_system_implementati.Tables.Init.{IsImage, fs_init-IsWf}

-- A mode is a `mode_t`, of 32 bits.
abbrev pub IsCall : Call → Type 0
IsCall (create path mode) = mode < 2 ^ 32
IsCall (mkdir path mode) = mode < 2 ^ 32
IsCall (chmod path mode) = mode < 2 ^ 32
IsCall _ = Unit

module _ {dev : BlockDevice} (io : IsDevice dev) (J : Fs dev → Type 0)
    (wf : (s : Fs dev) → J s → IsWf s) (close : (s : Fs dev) → WfSaved s → J s) where
  saves : {A : Type 0} (m : Exec (Fs dev) A) → Saves IsWf m → Triple IsWf J m (λ _ s. J s)
  saves m h = Triple-pre IsWf m wf (Triple-post (λ _ s. WfSaved s) m (λ _. close) h)

  returns_0 :
      (m : Exec (Fs dev) (Unit {0}))
      → Triple IsWf J m (λ _ s. J s)
      → Triple IsWf J (m >>= λ _. pure done) (λ _ s. J s)
  returns_0 m h = Triple-bind m _ h λ _. Triple-pure done λ s j. (wf s j, j)

  reads :
      {A : Type 0} (f : Fs dev → Outcome A) (g : A → Reply)
      → Triple IsWf J (query f >>= λ a. pure (g a)) (λ _ s. J s)
  reads f g = query-pass io J wf f _ λ a. Triple-pure (g a) λ s j. (wf s j, j)

  perform-Triple :
      (env : Env) (c : Call) → IsCall c → Triple IsWf J (perform {dev = dev} env c) (λ _ s. J s)
  unfolding perform
  perform-Triple env (getattr path) h = reads _ _
  perform-Triple env (readdir path) h = reads _ _
  perform-Triple env (create path mode) h =
      returns_0 _ (saves _ (fs_create-Saves io env.user path mode h))
  perform-Triple env (mkdir path mode) h =
      returns_0 _ (saves _ (fs_mkdir-Saves io env.user path mode h))
  perform-Triple env (unlink path) h =
      returns_0 _ (saves _ (fs_unlink-Saves io env.now env.round path))
  perform-Triple env (rmdir path) h = returns_0 _ (saves _ (fs_rmdir-Saves io env.round path))
  perform-Triple env (rename src dst) h =
      returns_0 _ (fs_rename-Triple io J wf close env.round src dst)
  perform-Triple env (chmod path mode) h = returns_0 _ (saves _ (fs_chmod-Saves io path mode h))
  perform-Triple env (utime path t) h = returns_0 _ (saves _ (fs_utime-Saves io path t))
  perform-Triple env (truncate path len) h =
      returns_0 _ (saves _ (fs_truncate-Saves io env.now path len))
  perform-Triple env (read path len offset) h = reads _ _
  perform-Triple env (write path buf offset) h =
      Triple-bind _ _ (saves _ (fs_write-Saves io env.now path buf offset))
        λ n. Triple-pure _ λ s j. (wf s j, j)
  perform-Triple env statfs h = reads _ _

-- The states that any calls lead to from the state `fs0`, whatever they return.
pub data Reaches {dev : BlockDevice} (fs0 : Fs dev) : Fs dev → Type 0 where
  start : Reaches fs0 fs0
  call :
      {fs : Fs dev} (env : Env) (c : Call)
      → IsCall c
      → Reaches fs0 fs
      → Reaches fs0 (perform env c fs).1

-- The same by calls that return: a result, or an error of a call other than write.
pub data Returns {dev : BlockDevice} (fs0 : Fs dev) : Fs dev → Type 0 where
  start : Returns fs0 fs0
  result :
      {fs : Fs dev} (env : Env) (c : Call) (r : Reply)
      → IsCall c
      → (perform env c fs).0 ≡ ok r
      → Returns fs0 fs
      → Returns fs0 (perform env c fs).1
  error :
      {fs : Fs dev} (env : Env) (c : Call) (e : Errno)
      → ¬ IsWrite c
      → (perform env c fs).0 ≡ err e
      → Returns fs0 fs
      → Returns fs0 (perform env c fs).1

module _ {dev : BlockDevice} (io : IsDevice dev) where
  perform-IsWf :
      (env : Env) (c : Call) (fs : Fs dev) → IsCall c → IsWf fs → IsWf (perform env c fs).1
  perform-IsWf env c fs h w = ((perform-Triple io IsWf (λ s w. w) (λ s j. j.0) env c h).at fs w).0

  -- On a working device, whatever calls follow fs_init on a disk with at least one block of inodes and
  -- tables that end below the highest block that the device can address, in any order and with any
  -- outcomes, write errors included, the tables in memory stay well formed: of the sizes that the
  -- superblock gives, with values of their C types, and within the disk.
  pub Reaches-IsWf :
      (d : dev.Disk) (fs0 fs : Fs dev)
      → fs_init dev d ≡ ok fs0
      → IsImage fs0.sb
      → Reaches fs0 fs
      → IsWf fs
  Reaches-IsWf d fs0 _ h p start = (fs_init-IsWf io d fs0 h p).0
  Reaches-IsWf d fs0 _ h p (call {fs = fs} env c hc r) =
      perform-IsWf env c fs hc (Reaches-IsWf d fs0 fs h p r)

  perform-WfSaved :
      (env : Env) (c : Call) (fs : Fs dev) (r : Reply)
      → IsCall c
      → WfSaved fs
      → (perform env c fs).0 ≡ ok r
      → WfSaved (perform env c fs).1
  perform-WfSaved env c fs r h w e =
      subst (λ (x : Outcome Reply). Post (λ _. WfSaved (perform env c fs).1) x) e
        ((perform-Triple io WfSaved (λ s j. j.0) (λ s j. j) env c h).at fs w).1

  Returns-WfSaved :
      (d : dev.Disk) (fs0 fs : Fs dev)
      → fs_init dev d ≡ ok fs0
      → IsImage fs0.sb
      → Returns fs0 fs
      → WfSaved fs
  Returns-WfSaved d fs0 _ h p start =
      let (w, e) = fs_init-IsWf io d fs0 h p in (w, λ _. ap (fs_init dev) e ∙ h)
  Returns-WfSaved d fs0 _ h p (result {fs = fs} env c r hc e before) =
      perform-WfSaved env c fs r hc (Returns-WfSaved d fs0 fs h p before) e
  Returns-WfSaved d fs0 _ h p (error {fs = fs} env c e nw r before) =
      subst WfSaved (sym (error_keeps_state env c fs e nw r)) (Returns-WfSaved d fs0 fs h p before)

  -- On a working device, after fs_init on a disk with at least one block of inodes and tables that end
  -- below the highest block that the device can address, and after any calls that have returned, each
  -- with a result or, if it is no write, with an error, the disk holds all of the state: as long as
  -- the superblock stands in block 0, fs_init builds from it the very state that is in memory.
  pub restart_restores :
      (d : dev.Disk) (fs0 fs : Fs dev)
      → fs_init dev d ≡ ok fs0
      → IsImage fs0.sb
      → Returns fs0 fs
      → HasSuper dev fs.disk fs.sb
      → fs_init dev fs.disk ≡ ok fs
  restart_restores d fs0 fs h p r has = (Returns-WfSaved d fs0 fs h p r).1 has
