-- ===== src/DiskFile.antt =====
-- block_read, block_write and block_init of misc.c, over the system calls on the image file. `int`
-- products wrap.
pub mod Laws
pub mod Device
pub mod Main
use file_system_implementati.Base.{
  ℕ, ◌+◌, ◌-◌, ◌*◌, ◌/◌, ◌%◌, ◌^◌, ◌<◌, ◌≤◌, ◌≡◌, Bool, true, false, not, ◌||◌, Option, none, some,
  List, [], ◌∷◌, ◌++◌, take, drop, length, replicate, map, ltb, min, list_eq, ◌==◌, if◌then◌else◌,
}
use file_system_implementati.Base.Int.{ℤ, pos, negsuc, signed32}
use file_system_implementati.Outcome.{Outcome, ok, exit}
use file_system_implementati.Layout.{Bytes, fs_block_size}
use file_system_implementati.Device.{BlockDevice, AreBytes, max_blocks}

-- The system calls on an open file. lseek is SEEK_SET, and `false` is a negative result; `none` is -1
-- of read and write, which return the bytes read and the number of bytes written.
pub record Posix : Type 1 where
  pub File : Type 0
  pub open_file : Bytes → Option File
  pub lseek : File → ℤ → Bool × File
  pub read : File → ℕ → Option Bytes × File
  pub write : File → Bytes → ℕ → Option ℕ × File

-- An `int` as the `size_t` argument of a system call, and against its `ssize_t` result.
abbrev pub size_of : ℤ → ℕ
size_of (pos n) = n
size_of (negsuc n) = 2 ^ 64 - (n + 1)

abbrev pub count_is : ℕ → ℤ → Bool
count_is c (pos n) = c == n
count_is c (negsuc n) = false

-- `nblks * FS_BLOCK_SIZE`
abbrev pub bytes_of : ℕ → ℤ
bytes_of n = signed32 ((n * fs_block_size) % 2 ^ 32)

-- `start + len`
abbrev pub end_of : ℕ → ℕ → ℤ
end_of lba n = signed32 ((lba * fs_block_size + n * fs_block_size) % 2 ^ 32)

-- `read(disk_fd, buf, len) != len`, on what read returns
abbrev pub all_read : Option Bytes → ℤ → Option Bytes
all_read none len = none
all_read (some b) len = if count_is (length b) len then some b else none

abbrev pub all_written : Option ℕ → ℤ → Bool
all_written none len = false
all_written (some c) len = count_is c len

-- The last four characters are ".img".
abbrev pub image_name : Bytes → Bool
image_name file = not (
    ltb (length file) 4
    || not (list_eq (drop (length file - 4) file) (b'.' ∷ b'i' ∷ b'm' ∷ b'g' ∷ [])))

module _ (os : Posix) where
  unfoldable pub file_read : os.File → (lba nblks : ℕ) → Option Bytes × os.File
  file_read f lba nblks =
      let (sought, f') = os.lseek f (bytes_of lba) in
      if not sought
      then (none, f')
      else (let (r, f'') = os.read f' (size_of (bytes_of nblks)) in
          (all_read r (bytes_of nblks), f''))

  unfoldable pub file_write : os.File → Bytes → (lba nblks : ℕ) → Bool × os.File
  file_write f buf lba nblks =
      let (fits, f') = os.lseek f (end_of lba nblks) in
      if not fits
      then (false, f')
      else (let (sought, f'') = os.lseek f' (bytes_of lba) in
          if not sought
          then (false, f'')
          else (let (r, f''') = os.write f'' buf (size_of (bytes_of nblks)) in
              (all_written r (bytes_of nblks), f''')))

  abbrev pub or_exit_open : Option os.File → Outcome os.File
  or_exit_open none = exit
  or_exit_open (some f) = ok f

  unfoldable pub block_init : Bytes → Outcome os.File
  block_init file = if image_name file then or_exit_open (os.open_file file) else exit
