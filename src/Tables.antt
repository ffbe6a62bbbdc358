-- ===== src/Tables.antt =====
-- The tables in memory stay well formed, and a call that returns a result leaves them saved on the
-- disk: what every function of homework.c keeps, from the accesses up to fs_ops.
pub mod Access
pub mod Disk
pub mod Inodes
pub mod Create
pub mod Truncate
pub mod Names
pub mod Write
pub mod Init
use file_system_implementati.Base.{◌≡◌}
use file_system_implementati.Outcome.{ok}
use file_system_implementati.Exec.{Exec, ◌>>=◌}
use file_system_implementati.Exec.Triple.{Triple, Triple-bind, Triple-query}
use file_system_implementati.Device.{BlockDevice}
use file_system_implementati.Fs.{Fs, fs_init}
use file_system_implementati.Fs.Sync.{IsWf, HasSuper}

module _ {dev : BlockDevice} where
  -- As long as the superblock stands on the disk, a restart builds the state again.
  abbrev pub Saved : Fs dev → Type 0
  Saved s = HasSuper dev s.disk s.sb → fs_init dev s.disk ≡ ok s

  -- Well formed behind every outcome, with a fact on a result.
  abbrev pub Keeps : {A : Type 0} → Exec (Fs dev) A → (A → Type 0) → Type 0
  Keeps m F = Triple IsWf IsWf m (λ a s. IsWf s × F a)

  -- The same, and saved with a result.
  abbrev pub Saves : {A : Type 0} → (Fs dev → Type 0) → Exec (Fs dev) A → Type 0
  Saves P m = Triple IsWf P m (λ a s. IsWf s × Saved s)

  pub Keeps-bind :
      {A B : Type 0} {F : A → Type 0} {Q : B → Fs dev → Type 0} (m : Exec (Fs dev) A)
      (k : A → Exec (Fs dev) B)
      → Keeps m F
      → ((a : A) → F a → Triple IsWf IsWf (k a) Q)
      → Triple IsWf IsWf (m >>= k) Q
  Keeps-bind m k hm hk = Triple-bind m k hm λ a. record { at = λ s w. (hk a w.1).at s w.0 }
