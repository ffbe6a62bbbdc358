-- ===== src/Mktest.antt =====
-- mktest.c: the test image that it writes, with and without the extra file. `disk` is one array of
-- bytes, and the pointers into it are offsets.
pub mod Files
pub mod Steps
pub mod Writes
pub mod Fits
pub mod Maps
use file_system_implementati.Base.{
  ℕ, zero, suc, ◌+◌, ◌-◌, ◌*◌, ◌/◌, Bool, List, [], ◌∷◌, ◌++◌, length, take, drop, replicate,
}
use file_system_implementati.Base.Int.{pos}
use file_system_implementati.Outcome.{Outcome, ok}
use file_system_implementati.Exec.{Exec, pure, continue, ◌>>=◌, ◌>>◌}
use file_system_implementati.Layout.{
  Bytes, Super, fs_block_size, fs_magic, le_bytes, encode_dirent, encode_inode,
}
use file_system_implementati.Bitmap.{bit_set}
use file_system_implementati.Mkfs.{store, encode_super}

-- The array `disk`, the pointer behind what is in use, and the next inode number.
pub record Maker : Type 0 where
  pub disk : Bytes
  pub ptr : ℕ
  pub inum : ℕ

-- `ptr`, and `ptr += n * FS_BLOCK_SIZE`
unfoldable pub alloc : ℕ → Exec Maker ℕ
alloc n m = (ok m.ptr, record m { ptr = m.ptr + n * fs_block_size })

-- `inum++`
unfoldable pub next_inum : Exec Maker ℕ
next_inum m = (ok m.inum, record m { inum = m.inum + 1 })

-- What is stored behind a pointer.
unfoldable pub put : ℕ → Bytes → Exec Maker (Unit {0})
put off b m = continue (store m.disk off b) (λ d s. (ok tt, record s { disk = d })) m

-- bit_set(map, i), for a map at the offset `map`.
unfoldable pub mark : ℕ → ℕ → Exec Maker (Unit {0})
mark map i m = continue (bit_set m.disk (map * 8 + i)) (λ d s. (ok tt, record s { disk = d })) m

-- `(ptr - (void*)disk) / FS_BLOCK_SIZE`
abbrev pub block_of : ℕ → ℕ
block_of p = p / fs_block_size

-- A name in an array of 28 bytes.
abbrev padded : Bytes → Bytes
padded name = name ++ replicate (28 - length name) 0

-- `de[i] = (struct fs_dirent){…};`
unfoldable pub put_entry : ℕ → ℕ → Bool → Bool → ℕ → Bytes → Exec Maker (Unit {0})
put_entry de i valid is_dir inode name =
    put (de + i * 32)
      (encode_dirent (record { valid = valid; is_dir = is_dir; inode = inode; name = padded name }))

-- `inodes[i] = (struct fs_inode){…};`
unfoldable pub put_inode : ℕ → ℕ → ℕ → ℕ → ℕ → List ℕ → ℕ → Exec Maker (Unit {0})
put_inode inodes i mode t size direct indir_1 = put (inodes + i * 64) (
    encode_inode (record {
      uid = 1000;
      gid = 1000;
      mode = mode;
      ctime = t;
      mtime = t;
      size = pos size;
      direct = direct;
      indir_1 = indir_1;
      indir_2 = 0;
      pad = replicate 3 0;
    }))

-- `memset(p, c, n)`
unfoldable pub fill : ℕ → ℕ → ℕ → Exec Maker (Unit {0})
fill p c n = put p (replicate n c)

-- `for (i = 0; i < n; i++) a[i] = blk++;`, an array of `int` at the offset `a`.
unfoldable pub count_up : ℕ → ℕ → ℕ → Exec Maker (Unit {0})
count_up zero a blk = pure tt
count_up (suc n) a blk = do put a (le_bytes 4 blk); count_up n (a + 4) (blk + 1)

-- `for (…) a[i] = blocks[i];`
unfoldable pub put_blocks : ℕ → List ℕ → Exec Maker (Unit {0})
put_blocks a [] = pure tt
put_blocks a (p ∷ ps) = do put a (le_bytes 4 (block_of p)); put_blocks (a + 4) ps

-- `for (…) memcpy(blocks[i], source + i*1024, 1024);`
unfoldable pub copy_blocks : List ℕ → Bytes → Exec Maker (Unit {0})
copy_blocks [] source = pure tt
copy_blocks (p ∷ ps) source = do put p (take 1024 source); copy_blocks ps (drop 1024 source)

-- `for (i = 0; i < n; i++) bit_set(map, i);`, from `i` on.
unfoldable pub mark_from : ℕ → ℕ → ℕ → Exec Maker (Unit {0})
mark_from map i zero = pure tt
mark_from map i (suc n) = do mark map i; mark_from map (i + 1) n
