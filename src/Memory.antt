-- ===== src/Memory.antt =====
-- A block device held in memory, a list of blocks: an instance of the interface.
pub mod Laws
pub mod Slices
use file_system_implementati.Base.{
  ℕ, zero, suc, ◌+◌, ◌%◌, Bool, true, false, Option, none, some, List, [], ◌∷◌, ◌++◌, map, leb,
  length, get_or, set, take, drop, replicate, if◌then◌else◌,
}
use file_system_implementati.Layout.{Bytes, fs_block_size, chunks}
use file_system_implementati.Device.{BlockDevice}

-- Any list read as a block of bytes.
unfoldable pub fit : Bytes → Bytes
fit b = take fs_block_size (map (λ x. x % 256) b ++ replicate fs_block_size 0)

unfoldable pub gather : ℕ → ℕ → List Bytes → Bytes
unfolding fit
gather zero lba d = []
gather (suc n) lba d = fit (get_or d lba []) ++ gather n (lba + 1) d

unfoldable pub scatter : ℕ → ℕ → Bytes → List Bytes → List Bytes
scatter zero lba b d = d
scatter (suc n) lba b d =
    scatter n (lba + 1) (drop fs_block_size b) (set d lba (take fs_block_size b))

unfoldable pub memory_read : List Bytes → ℕ → ℕ → Option Bytes
unfolding gather
memory_read d lba n = if leb (lba + n) (length d) then some (gather n lba d) else none

unfoldable pub memory_write : List Bytes → Bytes → ℕ → ℕ → Bool × List Bytes
unfolding scatter
memory_write d b lba n = if leb (lba + n) (length d) then (true, scatter n lba b d) else (false, d)

abbrev pub memory : BlockDevice
memory = record {
  Disk = List Bytes;
  blocks = length;
  block_read = memory_read;
  block_write = memory_write;
}

-- The disk that holds an image of `n` blocks.
abbrev pub disk_of : ℕ → Bytes → List Bytes
disk_of n image = chunks n fs_block_size image
