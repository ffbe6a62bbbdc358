-- ===== src/Mktest/Steps.antt =====
-- What the steps of mktest.c do to the disk: they stay inside it, and only bit_set changes the two
-- maps.
use file_system_implementati.Base.{
  ℕ, ◌+◌, ◌*◌, ◌/◌, ◌≤◌, ◌<◌, ◌≡◌, ◌⊎◌, ap, ◌∙◌, Bool, true, ◌++◌, map, length, take, drop, ◌==◌,
  if◌then◌else◌, arith,
}
use file_system_implementati.Outcome.{ok}
use file_system_implementati.Exec.{continue}
use file_system_implementati.Exec.Ends.{Gives, EndsIn}
use file_system_implementati.Layout.{Bytes}
use file_system_implementati.Device.{AreBytes}
use file_system_implementati.Bitmap.{bit_test}
use file_system_implementati.Bitmap.Laws.{bit_set_in_bounds, bit_set-AreBytes, bit_test-bit_set}
use file_system_implementati.Mkfs.{store}
use file_system_implementati.Mkfs.Stores.{store_apart, store-AreBytes}
use file_system_implementati.Mkfs.Maps.{bit_test_same}
use file_system_implementati.Mktest.{Maker, alloc, next_inum, put, mark}

abbrev pub disk_size : ℕ
disk_size = 1048576

-- A disk of bytes whose maps, in blocks 1 and 2, have the bits `f`; a pointer and an inode number.
pub record Inv (f : ℕ → Bool) (p i : ℕ) (m : Maker) : Type 0 where
  pub bytes : AreBytes m.disk
  pub size : length m.disk ≡ disk_size
  pub bits : (k : ℕ) → 8192 ≤ k → k < 24576 → bit_test m.disk k ≡ ok (f k)
  pub ptr : m.ptr ≡ p
  pub inum : m.inum ≡ i

-- A range of offsets outside the maps and on the disk.
abbrev pub IsFree : ℕ → ℕ → Type 0
IsFree off n = ((off + n ≤ 1024) ⊎ (3072 ≤ off)) × (off + n ≤ disk_size)

store-ok :
    (d : Bytes) (off : ℕ) (b : Bytes)
    → off + length b ≤ length d
    → (e : Bytes) × (store d off b ≡ ok e)
unfolding store
store-ok d off b h = (take off d ++ (b ++ drop (off + length b) d), ground arith)

module _ {f : ℕ → Bool} {p i : ℕ} (m : Maker) (h : Inv f p i m) where
  pub alloc-Inv : (n : ℕ) → Gives (alloc n) p (Inv f (p + n * 1024) i) m
  unfolding alloc
  alloc-Inv n = (
    record m { ptr = m.ptr + n * 1024 },
    ap (λ q. (ok q, record m { ptr = m.ptr + n * 1024 })) h.ptr,
    record {
      bytes = h.bytes;
      size = h.size;
      bits = h.bits;
      ptr = ap (λ q. q + n * 1024) h.ptr;
      inum = h.inum;
    },
  )

  pub next_inum-Inv : Gives next_inum i (Inv f p (i + 1)) m
  unfolding next_inum
  next_inum-Inv = (
    record m { inum = m.inum + 1 },
    ap (λ q. (ok q, record m { inum = m.inum + 1 })) h.inum,
    record {
      bytes = h.bytes;
      size = h.size;
      bits = h.bits;
      ptr = h.ptr;
      inum = ap (λ q. q + 1) h.inum;
    },
  )

  pub put-Inv :
      (off : ℕ) (b : Bytes) → AreBytes b → IsFree off (length b) → EndsIn (put off b) (Inv f p i) m
  unfolding put
  put-Inv off b new (apart, fits) =
      let (d, e) = store-ok m.disk off b (omega (arith, h.size)) in
      let (bytes, same) = store-AreBytes m.disk off b e h.bytes new in
      (
        record m { disk = d },
        ap (λ r. continue r (λ d s. (ok tt, record s { disk = d })) m) e,
        record {
          bytes = bytes;
          size = same ∙ h.size;
          bits = λ k lo hi.
              bit_test_same d m.disk k
                (store_apart m.disk off b (k / 8) e (omega (arith, lo, hi, apart)))
              ∙ h.bits k lo hi;
          ptr = h.ptr;
          inum = h.inum;
        },
      )

  pub mark-Inv :
      (map j : ℕ)
      → map * 8 + j < 8 * disk_size
      → EndsIn (mark map j) (Inv (λ k. if (map * 8 + j) == k then true else f k) p i) m
  unfolding mark
  mark-Inv map j small =
      let (d, e) = bit_set_in_bounds m.disk (map * 8 + j) (omega (arith, small, h.size)) in
      let (bytes, same) = bit_set-AreBytes m.disk (map * 8 + j) h.bytes e in
      (
        record m { disk = d },
        ap (λ r. continue r (λ d s. (ok tt, record s { disk = d })) m) e,
        record {
          bytes = bytes;
          size = same ∙ h.size;
          bits = λ k lo hi.
              ground (arith, bit_test-bit_set m.disk (map * 8 + j) k h.bytes e, h.bits k lo hi);
          ptr = h.ptr;
          inum = h.inum;
        },
      )
