-- ===== src/Examples/Image.antt =====
-- A file in memory as POSIX describes it, and the image functions on it.
use file_system_implementati.Base.{
  ℕ, zero, suc, ◌+◌, ◌%◌, ◌≤◌, ◌≡◌, refl, subst, ap, ◌∙◌, Bool, true, false, Option, none, some, [],
  ◌∷◌, take, drop, length, replicate, arith, take_all, length-replicate,
}
use file_system_implementati.Base.Int.{ℤ, pos, negsuc}
use file_system_implementati.Layout.{Bytes}
use file_system_implementati.Device.{IsDevice, AreBytes}
use file_system_implementati.DiskFile.{Posix, file_write}
use file_system_implementati.DiskFile.Laws.{IsPosix, put, cut, length-cut}
use file_system_implementati.DiskFile.Device.{file_device, file_device-IsDevice, file_write_extends}

record ByteFile : Type 0 where
  bytes : Bytes
  offset : ℕ

byte_seek : ByteFile → ℤ → Bool × ByteFile
byte_seek f (pos n) = (true, record f { offset = n })
byte_seek f (negsuc n) = (false, f)

byte_read : ByteFile → ℕ → Option Bytes × ByteFile
byte_read f n =
    let b = take n (drop f.offset (cut f.bytes)) in
    (some b, record f { offset = f.offset + length b })

byte_write : ByteFile → Bytes → ℕ → Option ℕ × ByteFile
byte_write f b n =
    (some n, record { bytes = put f.offset (cut (take n b)) f.bytes; offset = f.offset + n })

abbrev byte_files : Posix
byte_files = record {
  File = ByteFile;
  open_file = λ name. none;
  lseek = byte_seek;
  read = byte_read;
  write = byte_write;
}

mod_self : (x : ℕ) → x % 256 % 256 ≡ x % 256
mod_self x = omega arith

cut-put : (n : ℕ) (b c : Bytes) → cut (put n (cut b) c) ≡ put n (cut b) (cut c)
cut-put zero [] c = refl
cut-put zero (x ∷ b) [] = λ i. mod_self x i ∷ cut-put zero b [] i
cut-put zero (x ∷ b) (y ∷ c) = λ i. mod_self x i ∷ cut-put zero b c i
cut-put (suc n) b [] = ap (λ t. 0 ∷ t) (cut-put n b [])
cut-put (suc n) b (y ∷ c) = ap (λ t. y % 256 ∷ t) (cut-put n b c)

length-put_grows : (n : ℕ) (b c : Bytes) → length c ≤ length (put n b c)
length-put_grows zero [] c = omega arith
length-put_grows zero (x ∷ b) [] = omega arith
length-put_grows zero (x ∷ b) (y ∷ c) = omega (arith, length-put_grows zero b c)
length-put_grows (suc n) b [] = omega arith
length-put_grows (suc n) b (y ∷ c) = omega (arith, length-put_grows n b c)

AreBytes-cut : (b : Bytes) → AreBytes (cut b)
AreBytes-cut [] = tt
AreBytes-cut (x ∷ b) = (omega arith, AreBytes-cut b)

AreBytes-slice : (n k : ℕ) (b : Bytes) → AreBytes b → AreBytes (take n (drop k b))
AreBytes-slice zero k b h = tt
AreBytes-slice (suc n) zero [] h = tt
AreBytes-slice (suc n) (suc k) [] h = tt
AreBytes-slice (suc n) zero (x ∷ b) h = (h.0, AreBytes-slice n zero b h.1)
AreBytes-slice (suc n) (suc k) (x ∷ b) h = AreBytes-slice (suc n) k b h.1

seek-bytes : (f : ByteFile) (z : ℤ) → cut (byte_seek f z).1.bytes ≡ cut f.bytes
unfolding byte_seek
seek-bytes f (pos n) = refl
seek-bytes f (negsuc n) = refl

some-injective : {b c : Bytes} → some b ≡ some c → b ≡ c
some-injective h = cc

byte_files-IsPosix : IsPosix byte_files
unfolding byte_seek byte_read byte_write
byte_files-IsPosix = record {
  content = λ f. cut f.bytes;
  position = λ f. f.offset;
  lseek-pos = λ f n h. (refl, refl);
  lseek-content = λ f z. seek-bytes f z;
  read-bytes = λ f n h.
      subst AreBytes (some-injective h)
        (AreBytes-slice n f.offset (cut f.bytes) (AreBytes-cut f.bytes));
  read-all = λ f n h. refl;
  write-all = λ f b n h e. (
    refl,
    cut-put f.offset (take n b) f.bytes
        ∙ ap (λ x. put f.offset (cut x) (cut f.bytes)) (take_all n b (omega (arith, e))),
  );
  write-grows = λ f b n. omega (
    arith,
    length-cut f.bytes,
    length-cut (put f.offset (cut (take n b)) f.bytes),
    length-put_grows f.offset (cut (take n b)) f.bytes,
  );
}

file_device-IsDevice_example : IsDevice (file_device byte_files byte_files-IsPosix)
file_device-IsDevice_example = file_device-IsDevice byte_files byte_files-IsPosix

-- An image of two blocks, and a write of block 4.
abbrev two_blocks : ByteFile
two_blocks = record { bytes = replicate 2048 0; offset = 0 }

abbrev one_block : Bytes
one_block = replicate 1024 7

file_write_extends_example :
    ((file_write byte_files two_blocks one_block 4 1).0 ≡ true)
    × (length (cut (file_write byte_files two_blocks one_block 4 1).1.bytes) ≡ 5120)
unfolding byte_files-IsPosix
file_write_extends_example =
    file_write_extends byte_files byte_files-IsPosix two_blocks one_block 4 1 (omega arith)
      (omega arith) (length-replicate {A = ℕ} 1024 7)
      (omega (arith, length-cut two_blocks.bytes, length-replicate {A = ℕ} 2048 0))
