-- ===== src/Tables/Inodes.antt =====
-- The changes that the functions make to an inode keep its fields in their C types.
use file_system_implementati.Base.{
  ℕ, ◌%◌, ◌^◌, ◌<◌, ◌≡◌, bit_or-lt_32, List, All, All-set, length, set, length-set, arith,
}
use file_system_implementati.Base.Int.{pos, signed32, pattern32}
use file_system_implementati.Layout.{Inode, fs_block_size, n_direct}
use file_system_implementati.Layout.Codec.{IsInode}
use file_system_implementati.Fs.{s_ifdir, s_ifreg}
use file_system_implementati.Attr.{changed_mode}
use file_system_implementati.Create.{Caller, new_inode}

module _ (x : Inode) (h : IsInode x) where
  pub changed_mode-IsInode : (mode : ℕ) → mode < 2 ^ 32 → IsInode (changed_mode mode x)
  changed_mode-IsInode mode m =
      ground (
        arith,
        bit_or-lt_32 mode s_ifdir m (omega arith),
        bit_or-lt_32 mode s_ifreg m (omega arith),
      )

  pub mtime-IsInode : (t : ℕ) → IsInode (record x { mtime = t % 2 ^ 32 })
  mtime-IsInode t = ground arith

  pub new_inode-IsInode : (ctx : Caller) (mode : ℕ) → mode < 2 ^ 32 → IsInode (new_inode ctx mode x)
  new_inode-IsInode ctx mode m = ground arith

  signed32-fits :
      (w : ℕ)
      → w < 2 ^ 32
      → (pattern32 (signed32 w) < 2 ^ 32) × (signed32 (pattern32 (signed32 w)) ≡ signed32 w)
  signed32-fits w m = ground arith

  pub size-IsInode :
      (w t : ℕ) → IsInode (record x { size = signed32 (w % 2 ^ 32); mtime = t % 2 ^ 32 })
  size-IsInode w t = ground (arith, signed32-fits (w % 2 ^ 32) (omega arith))

  pub truncated-IsInode : (t : ℕ) → IsInode (record x { size = pos 0; mtime = t % 2 ^ 32 })
  truncated-IsInode t = ground arith

  pub first-IsInode :
      (b : ℕ)
      → b < 2 ^ 32
      → IsInode (record x { direct = set x.direct 0 b; size = pos fs_block_size })
  first-IsInode b m =
      ground (arith, length-set x.direct 0 b, All-set (λ a. a < 2 ^ 32) x.direct 0 b h.direct m)

  pub cleared-IsInode : IsInode (record x { direct = set x.direct 0 0 })
  cleared-IsInode = ground (
    arith,
    length-set x.direct 0 0,
    All-set (λ a. a < 2 ^ 32) x.direct 0 0 h.direct (omega arith),
  )

  pub direct-IsInode :
      (addrs : List ℕ)
      → All (λ a. a < 2 ^ 32) addrs
      → length addrs ≡ n_direct
      → IsInode (record x { direct = addrs })
  direct-IsInode addrs m e = ground arith

  pub indir_1-IsInode : (b : ℕ) → b < 2 ^ 32 → IsInode (record x { indir_1 = b })
  indir_1-IsInode b m = ground arith

  pub indir_2-IsInode : (b : ℕ) → b < 2 ^ 32 → IsInode (record x { indir_2 = b })
  indir_2-IsInode b m = ground arith
