-- ===== src/Examples/Restart.antt =====
-- Sequences of calls at concrete inputs: the root inode of a disk of six blocks is changed, and the
-- directory is then read.
use file_system_implementati.Base.{◌≡◌, refl, [], ◌∷◌, arith}
use file_system_implementati.Outcome.{ok}
use file_system_implementati.Exec.{◌>>=◌}
use file_system_implementati.Layout.{decode_super, decode_inodes}
use file_system_implementati.Memory.{memory, memory_read, memory_write}
use file_system_implementati.Memory.Laws.{memory-IsDevice}
use file_system_implementati.Mkfs.{encode_super}
use file_system_implementati.FilePath.{parse}
use file_system_implementati.Fs.{
  Fs, fs_init, load_region, inode_at, update_inode, update_disk, write_region,
}
use file_system_implementati.Fs.Sync.{IsWf, HasSuper}
use file_system_implementati.Lookup.{translate, walk, skip_dot}
use file_system_implementati.Attr.{fs_chmod}
use file_system_implementati.Ops.{Call, done, chmod, readdir, perform}
use file_system_implementati.Tables.Init.{IsImage}
use file_system_implementati.Sessions.{start, call, result, Reaches-IsWf, restart_restores}
use file_system_implementati.Examples.{sb, zeros, blocks, env}

abbrev loaded : Fs memory
loaded = record {
  sb = sb;
  inode_map = zeros;
  block_map = zeros;
  inodes = decode_inodes 16 zeros;
  disk = blocks;
}

blocks_load : fs_init memory blocks ≡ ok loaded
unfolding fs_init load_region memory_read encode_super decode_super
blocks_load = refl

loaded-IsImage : IsImage loaded.sb
loaded-IsImage = record { some_inodes = omega arith; short = omega arith }

-- chmod("/", 0755)
abbrev first : Call
first = chmod (b'/' ∷ []) 0o755

abbrev after_first : Fs memory
after_first = (perform env first loaded).1

first_returns : (perform env first loaded).0 ≡ ok done
unfolding perform fs_chmod translate walk skip_dot parse inode_at update_inode update_disk
    write_region memory_write ◌>>=◌ decode_inodes
first_returns = refl

after_first-HasSuper : HasSuper memory after_first.disk after_first.sb
unfolding perform fs_chmod translate walk skip_dot parse inode_at update_inode update_disk
    write_region memory_write memory_read ◌>>=◌ decode_inodes encode_super decode_super
after_first-HasSuper = record { block = encode_super sb; stored = refl; super = refl }

Reaches-IsWf_example : IsWf (perform env (readdir (b'/' ∷ [])) after_first).1
Reaches-IsWf_example =
    Reaches-IsWf memory-IsDevice blocks loaded _ blocks_load loaded-IsImage
      (call env (readdir (b'/' ∷ [])) tt (call env first (omega arith) start))

restart_restores_example : fs_init memory after_first.disk ≡ ok after_first
restart_restores_example =
    restart_restores memory-IsDevice blocks loaded after_first blocks_load loaded-IsImage
      (result env first done (omega arith) first_returns start) after_first-HasSuper
