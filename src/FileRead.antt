-- ===== src/FileRead.antt =====
-- read_helper and fs_read of homework.c. The `int` counters stay below the file's size, which is
-- an `int32_t`, so they do not wrap.
pub mod Loops
pub mod Slice
use file_system_implementati.Base.{
  ℕ, zero, suc, ◌+◌, ◌-◌, ◌*◌, Bool, true, false, ◌||◌, List, [], ◌∷◌, ◌++◌, ltb, leb, ◌==◌,
  if◌then◌else◌,
}
use file_system_implementati.Base.Int.{pos, negsuc}
use file_system_implementati.Outcome.{Outcome, ok, err, fault, eisdir, ◌>>=◌}
use file_system_implementati.Layout.{Bytes, Inode, fs_block_size, n_direct, decode_addrs}
use file_system_implementati.Device.{BlockDevice}
use file_system_implementati.Fs.{Fs, s_isdir, inode_at, read_block}
use file_system_implementati.Lookup.{translate}

-- The variables that the read functions share: `*len`, `*offset_cnt`, `*cnt`, and the bytes that
-- have been stored in the caller's buffer.
pub record Reading : Type 0 where
  pub len : ℕ
  pub offset_cnt : ℕ
  pub cnt : ℕ
  pub buf : Bytes

module _ (offset size : ℕ) where
  -- `offset + *cnt >= size || *len <= 0`
  abbrev pub read_done : Reading → Bool
  read_done r = leb size (offset + r.cnt) || (r.len == 0)

  -- The loop over the bytes of a block.
  unfoldable pub read_bytes : Bytes → Reading → Reading
  read_bytes [] r = r
  read_bytes (b ∷ bs) r = elim (ltb r.offset_cnt offset) [
    | true ↦ read_bytes bs (record r { offset_cnt = r.offset_cnt + 1 })
    | false ↦ elim (read_done r) [
      | true ↦ r
      | false ↦
          read_bytes bs (record r { len = r.len - 1; cnt = r.cnt + 1; buf = r.buf ++ (b ∷ []) })
    ]
  ]

module _ {dev : BlockDevice} (fs : Fs dev) (offset size : ℕ) where
  -- The loop over `times` blocks, `addr` moving on by one each round.
  unfoldable pub read_addrs : ℕ → List ℕ → Reading → Outcome Reading
  unfolding read_bytes
  read_addrs zero addr r = ok r
  read_addrs (suc n) [] r = fault
  read_addrs (suc n) (a ∷ addr) r = elim (ltb (r.offset_cnt + fs_block_size) offset) [
    | true ↦ read_addrs n addr (record r { offset_cnt = r.offset_cnt + fs_block_size })
    | false ↦ read_block fs a >>= λ block.
        let r' = read_bytes offset size block r in
        elim (read_done offset size r') [ true ↦ ok r' | false ↦ read_addrs n addr r' ]
  ]

  unfoldable pub read_helper : ℕ → List ℕ → Reading → Outcome Reading
  unfolding read_addrs
  read_helper times addr r =
      if ltb (r.offset_cnt + fs_block_size * times) offset
      then ok (record r { offset_cnt = r.offset_cnt + fs_block_size * times })
      else read_addrs times addr r

  -- The loop over the double indirect block.
  unfoldable pub read_indir_2 : ℕ → List ℕ → Reading → Outcome Reading
  unfolding read_helper
  read_indir_2 zero indir_2 r = ok r
  read_indir_2 (suc n) [] r = fault
  read_indir_2 (suc n) (a ∷ indir_2) r = elim (ltb (r.offset_cnt + 256 * fs_block_size) offset) [
    | true ↦ read_indir_2 n indir_2 (record r { offset_cnt = r.offset_cnt + 256 * fs_block_size })
    | false ↦ read_block fs a >>= λ indir_1. read_helper 256 (decode_addrs indir_1) r >>= λ r'.
        elim (read_done offset size r') [ true ↦ ok r' | false ↦ read_indir_2 n indir_2 r' ]
  ]

  -- fs_read below its checks: the three kinds of blocks in turn.
  unfoldable pub read_file : ℕ → Inode → Outcome Reading
  unfolding read_indir_2
  read_file len i =
      read_helper n_direct i.direct (record { len = len; offset_cnt = 0; cnt = 0; buf = [] })
      >>= λ r.
          if read_done offset size r
          then ok r
          else (read_block fs i.indir_1 >>= λ indir_1.
              read_helper 256 (decode_addrs indir_1) r >>= λ r'.
              if read_done offset size r'
              then ok r'
              else (read_block fs i.indir_2 >>= λ indir_2.
                  read_indir_2 256 (decode_addrs indir_2) r'))

module _ {dev : BlockDevice} where
  -- The result with the bytes in the buffer.
  unfoldable pub fs_read : Fs dev → Bytes → (len offset : ℕ) → Outcome (ℕ × Bytes)
  unfolding read_file
  fs_read fs path len offset = translate fs path >>= λ inum. inode_at fs inum >>= λ i.
      if s_isdir i.mode then err eisdir else elim i.size [
        | negsuc _ ↦ ok (0, [])
        | pos size ↦
            if leb size offset
            then ok (0, [])
            else (read_file fs offset size len i >>= λ r. ok (r.cnt, r.buf))
      ]
