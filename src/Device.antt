-- ===== src/Device.antt =====
-- The block device that homework.c sees: the two functions that it declares `extern`, with what it
-- relies on. A block has 1024 bytes; `none` and `false` are -EIO.
use file_system_implementati.Base.{
  ℕ, ◌+◌, ◌-◌, ◌*◌, ◌^◌, ◌≤◌, ◌<◌, ◌≡◌, ◌⊎◌, Bool, true, Option, some, length, All,
}
use file_system_implementati.Layout.{Bytes, fs_block_size}

abbrev pub AreBytes : Bytes → Type 0
AreBytes = All (λ b. b < 256)

-- Byte offsets and lengths are `int`, and a read or a write moves at most 2^31 - 4096 bytes.
abbrev pub max_blocks : ℕ
max_blocks = 2 ^ 21 - 4

pub record BlockDevice : Type 1 where
  pub Disk : Type 0
  -- the size of the image, in blocks
  pub blocks : Disk → ℕ
  pub block_read : Disk → (lba nblks : ℕ) → Option Bytes
  pub block_write : Disk → Bytes → (lba nblks : ℕ) → Bool × Disk

-- What a working device guarantees: inside its image, that reads of other blocks below `max_blocks`
-- fail, and that no write makes it smaller.
pub record IsDevice (dev : BlockDevice) : Type 0 where
  pub reads :
      (d : dev.Disk) (lba n : ℕ)
      → lba + n ≤ dev.blocks d
      → (b : Bytes) × (dev.block_read d lba n ≡ some b)
  pub read-inside :
      (d : dev.Disk) (lba n : ℕ) {b : Bytes}
      → 0 < n
      → lba + n ≤ max_blocks
      → dev.block_read d lba n ≡ some b
      → lba + n ≤ dev.blocks d
  pub length-read :
      (d : dev.Disk) (lba n : ℕ) {b : Bytes}
      → n ≤ max_blocks
      → dev.block_read d lba n ≡ some b
      → length b ≡ n * fs_block_size
  pub bytes-read :
      (d : dev.Disk) (lba n : ℕ) {b : Bytes} → dev.block_read d lba n ≡ some b → AreBytes b
  pub writes :
      (d : dev.Disk) (b : Bytes) (lba n : ℕ)
      → lba + n ≤ dev.blocks d
      → length b ≡ n * fs_block_size
      → (dev.block_write d b lba n).0 ≡ true
  pub blocks-write_any :
      (d : dev.Disk) (b : Bytes) (lba n : ℕ)
      → dev.blocks d ≤ dev.blocks (dev.block_write d b lba n).1
  pub blocks-write :
      (d : dev.Disk) (b : Bytes) (lba n : ℕ)
      → lba + n ≤ dev.blocks d
      → length b ≡ n * fs_block_size
      → dev.blocks (dev.block_write d b lba n).1 ≡ dev.blocks d
  pub read-write_self :
      (d : dev.Disk) (b : Bytes) (lba n : ℕ)
      → lba + n ≤ dev.blocks d
      → length b ≡ n * fs_block_size
      → AreBytes b
      → dev.block_read (dev.block_write d b lba n).1 lba n ≡ some b
  pub read-write_apart :
      (d : dev.Disk) (b : Bytes) (lba n i k : ℕ)
      → lba + n ≤ dev.blocks d
      → length b ≡ n * fs_block_size
      → i + k ≤ dev.blocks d
      → (i + k ≤ lba) ⊎ (lba + n ≤ i)
      → dev.block_read (dev.block_write d b lba n).1 i k ≡ dev.block_read d i k
