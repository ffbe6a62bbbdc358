-- ===== src/FileWrite/Block.antt =====
-- The loop of write_helper over the bytes of one block.
use file_system_implementati.Base.{
  ℕ, zero, suc, ◌+◌, ◌-◌, ◌≤◌, ◌<◌, ◌≡◌, ◌⊎◌, [], ◌∷◌, ◌++◌, take, drop, length, min, arith,
}
use file_system_implementati.Layout.{Bytes}
use file_system_implementati.FileWrite.{Writing, write_bytes}

-- How many bytes go into a block behind its first `s` bytes.
abbrev pub room : ℕ → Bytes → Bytes → ℕ
room s block buf = min (length buf) (length block - s)

-- The block with `k` bytes of the buffer in place of its own from index `s` on.
abbrev pub patched : (s k : ℕ) → Bytes → Bytes → Bytes
patched s k block buf = take s block ++ (take k buf ++ drop k (drop s block))

abbrev counters : Bytes → ℕ → ℕ → Writing
counters buf offset_cnt cnt = record { buf = buf; offset_cnt = offset_cnt; cnt = cnt }

write_bytes-store :
    (k offset cnt : ℕ) (block buf : Bytes)
    → k ≤ length block
    → k ≤ length buf
    → (k ≡ length block) ⊎ (k ≡ length buf)
    → write_bytes offset block (counters buf offset cnt)
      ≡ (take k buf ++ drop k block, counters (drop k buf) offset (cnt + k))
unfolding write_bytes
write_bytes-store zero offset cnt [] buf h h' full = ground arith
write_bytes-store zero offset cnt (d ∷ ds) [] h h' full = ground arith
write_bytes-store zero offset cnt (d ∷ ds) (x ∷ xs) h h' full = absurd (ground arith)
write_bytes-store (suc k) offset cnt [] buf h h' full = absurd (omega arith)
write_bytes-store (suc k) offset cnt (d ∷ ds) [] h h' full = absurd (omega arith)
write_bytes-store (suc k) offset cnt (d ∷ ds) (x ∷ xs) h h' full =
    ground
      (arith, write_bytes-store k offset (cnt + 1) ds xs (omega arith) (omega arith) (ground arith))

write_bytes-skip :
    (s k offset cnt o : ℕ) (block buf : Bytes)
    → 0 < length buf
    → s + o ≡ offset
    → s + k ≤ length block
    → k ≤ length buf
    → (s + k ≡ length block) ⊎ (k ≡ length buf)
    → write_bytes offset block (counters buf o cnt)
      ≡ (patched s k block buf, counters (drop k buf) offset (cnt + k))
unfolding write_bytes
write_bytes-skip zero k offset cnt o block buf some e h h' full =
    ground (arith, e, write_bytes-store k offset cnt block buf (omega arith) h' (ground arith))
write_bytes-skip (suc s) k offset cnt o [] buf some e h h' full = absurd (omega arith)
write_bytes-skip (suc s) k offset cnt o (d ∷ ds) [] some e h h' full = absurd (omega arith)
write_bytes-skip (suc s) k offset cnt o (d ∷ ds) (x ∷ xs) some e h h' full = ground (
  arith,
  write_bytes-skip s k offset cnt (o + 1) ds (x ∷ xs) some (omega arith) (omega arith) h'
      (ground arith),
)

-- The loop of write_helper over a block, with bytes left to write and `s` bytes of the block before
-- the offset: as many bytes of the buffer as it has and as fit go into the block from index `s` on,
-- all else in the block stays, and the counters and the rest of the buffer say so.
pub write_bytes_lem :
    (s offset cnt o : ℕ) (block buf : Bytes)
    → 0 < length buf
    → s + o ≡ offset
    → s ≤ length block
    → write_bytes offset block (record { buf = buf; offset_cnt = o; cnt = cnt }) ≡ (
      patched s (room s block buf) block buf,
      record {
        buf = drop (room s block buf) buf;
        offset_cnt = offset;
        cnt = cnt + room s block buf;
      },
    )
write_bytes_lem s offset cnt o block buf some e h =
    write_bytes-skip s (room s block buf) offset cnt o block buf some e (omega arith) (omega arith)
      (ground arith)
