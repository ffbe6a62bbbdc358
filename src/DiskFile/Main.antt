-- ===== src/DiskFile/Main.antt =====
-- main of misc.c, with the functions of the FUSE library as parameters.
use file_system_implementati.Base.{ℕ, Option, none, some, List}
use file_system_implementati.Outcome.{Outcome, exit, fault, ◌>>=◌}
use file_system_implementati.Layout.{Bytes}
use file_system_implementati.DiskFile.{Posix, block_init}

-- fuse_opt_parse gives the value of -image, NULL when there is none, and the arguments that are left;
-- fuse_main runs the file system on the image file and returns its exit status.
pub record Fuse (os : Posix) : Type 0 where
  pub fuse_opt_parse : List Bytes → Option (Option Bytes × List Bytes)
  pub fuse_main : os.File → List Bytes → Outcome ℕ

unfoldable pub misc_main : (os : Posix) → Fuse os → List Bytes → Outcome ℕ
misc_main os fuse args = elim (fuse.fuse_opt_parse args) [
  | none ↦ exit
  | some (none, rest) ↦ fault
  | some (some image_name, rest) ↦ block_init os image_name >>= λ f. fuse.fuse_main f rest
]
