-- ===== src/FileRead/Slice.antt =====
-- What fs_read returns: the bytes that the file's blocks hold.
use file_system_implementati.Base.{
  ℕ, ◌+◌, ◌-◌, ◌*◌, ◌≤◌, ◌<◌, ◌≡◌, sym, ap, ◌∙◌, inl, inr, true, false, List, [], ◌++◌, take, drop,
  length, arith, length-append, min, Bool-cases,
}
use file_system_implementati.Outcome.{ok}
use file_system_implementati.Layout.{Bytes, Inode, fs_block_size, n_direct, concat, decode_addrs}
use file_system_implementati.Device.{BlockDevice}
use file_system_implementati.Fs.{Fs, read_block, inode_at, s_isdir}
use file_system_implementati.Base.Int.{pos}
use file_system_implementati.Lookup.{translate}
use file_system_implementati.FileRead.{
  Reading, read_done, read_bytes, read_helper, read_indir_2, read_file, fs_read,
}
use file_system_implementati.FileRead.Loops.{
  Ready, read_bytes-Ready, read_bytes-at_end, read_bytes-append, read_bytes-slice, HoldBlocks,
  length-concat_blocks, read_helper-blocks, HoldTables, concat_all, length-concat_all,
  read_indir_2-tables,
}

-- The bytes that a read of `len` bytes at `offset` returns from a file of `size` bytes.
abbrev pub slice : (offset size len : ℕ) → Bytes → Bytes
slice offset size len content = take (min len (size - offset)) (drop offset content)

module _ {dev : BlockDevice} (fs : Fs dev) (offset size len : ℕ) (i : Inode) where
  abbrev start : Reading
  start = record { len = len; offset_cnt = 0; cnt = 0; buf = [] }

  abbrev end : Bytes → Reading
  end content = record {
    len = len - min len (size - offset);
    offset_cnt = offset;
    cnt = min len (size - offset);
    buf = slice offset size len content;
  }

  read_bytes-start :
      (content : Bytes)
      → offset < size
      → size ≤ length content
      → read_bytes offset size content start ≡ end content
  read_bytes-start content within all = ground (
    arith,
    read_bytes-slice offset size offset (min len (size - offset)) content start (omega arith)
        (omega arith) (omega arith) (omega arith) (ground arith),
  )

  end-done : (content : Bytes) → offset < size → read_done offset size (end content) ≡ true
  end-done content within = ground arith

  start-Ready : 0 < len → offset < size → Ready offset size start
  start-Ready some_len within = ground arith

  -- A file that ends in its direct blocks.
  read_file-direct :
      (ds : List Bytes)
      → 0 < len
      → offset < size
      → length ds ≡ n_direct
      → size ≤ n_direct * fs_block_size
      → HoldBlocks fs i.direct ds
      → read_file fs offset size len i ≡ ok (end (concat ds))
  unfolding read_file
  read_file-direct ds some_len within six small h = ground (
    arith,
    six,
    read_helper-blocks fs offset size i.direct ds start (start-Ready some_len within) h,
    read_bytes-start (concat ds) within (omega (arith, six, length-concat_blocks fs i.direct ds h)),
  )

  -- The run through the direct blocks, to `r`, and the single indirect block, to `r'`.
  read_file-two :
      (r r' : Reading) (table : Bytes)
      → read_helper fs offset size n_direct i.direct start ≡ ok r
      → read_block fs i.indir_1 ≡ ok table
      → read_helper fs offset size 256 (decode_addrs table) r ≡ ok r'
      → (read_done offset size r ≡ true → r' ≡ r)
      → read_done offset size r' ≡ true
      → read_file fs offset size len i ≡ ok r'
  unfolding read_file
  read_file-two r r' table run e run' same at_end = elim (Bool-cases (read_done offset size r)) [
    | inl early ↦ ground (arith, run, early, same early)
    | inr late ↦ ground (arith, run, late, e, run', at_end)
  ]

  -- A file that ends in its direct blocks or behind its single indirect block.
  read_file-single :
      (ds ss : List Bytes) (table : Bytes)
      → 0 < len
      → offset < size
      → length ds ≡ n_direct
      → length ss ≡ 256
      → size ≤ (n_direct + 256) * fs_block_size
      → HoldBlocks fs i.direct ds
      → read_block fs i.indir_1 ≡ ok table
      → HoldBlocks fs (decode_addrs table) ss
      → read_file fs offset size len i ≡ ok (end (concat ds ++ concat ss))
  read_file-single ds ss table some_len within six full small hd e hs =
      let r = read_bytes offset size (concat ds) start in
      let ready = read_bytes-Ready offset size (concat ds) start (start-Ready some_len within) in
      let all : size ≤ length (concat ds ++ concat ss) = omega (
        arith,
        six,
        full,
        length-append (concat ds) (concat ss),
        length-concat_blocks fs i.direct ds hd,
        length-concat_blocks fs (decode_addrs table) ss hs,
      ) in
      let last = read_bytes-start (concat ds ++ concat ss) within all in
      let join = read_bytes-append offset size (concat ds) (concat ss) start in
      let run =
        read_helper-blocks fs offset size i.direct ds start (start-Ready some_len within) hd in
      let run' = read_helper-blocks fs offset size (decode_addrs table) ss r ready hs in
      read_file-two r (end (concat ds ++ concat ss)) table (rw six at run) e
        (rw full at (run' ∙ ap ok (sym join ∙ last)))
        (λ early. sym last ∙ join ∙ read_bytes-at_end offset size (concat ss) r (ready early) early)
        (end-done (concat ds ++ concat ss) within)

module _ {dev : BlockDevice} (fs : Fs dev) (offset size len : ℕ) (i : Inode) where
  -- The run through all three kinds of blocks, to `r`, `r'` and `out`.
  read_file-three :
      (r r' out : Reading) (table table' : Bytes)
      → read_helper fs offset size n_direct i.direct (start fs offset size len i) ≡ ok r
      → read_block fs i.indir_1 ≡ ok table
      → read_helper fs offset size 256 (decode_addrs table) r ≡ ok r'
      → read_block fs i.indir_2 ≡ ok table'
      → read_indir_2 fs offset size 256 (decode_addrs table') r' ≡ ok out
      → (read_done offset size r ≡ true → out ≡ r)
      → (read_done offset size r' ≡ true → out ≡ r')
      → read_file fs offset size len i ≡ ok out
  unfolding read_file
  read_file-three r r' out table table' run e run' e' run'' same same' =
      elim (Bool-cases (read_done offset size r)) [
        | inl over ↦ ground (arith, run, over, same over)
        | inr more ↦ elim (Bool-cases (read_done offset size r')) [
          | inl over' ↦ ground (arith, run, more, e, run', over', same' over')
          | inr more' ↦ ground (arith, run, more, e, run', more', e', run'')
        ]
      ]

  -- A file of any size.
  read_file-double :
      (ds ss : List Bytes) (tss : List (List Bytes)) (table table' : Bytes)
      → 0 < len
      → offset < size
      → length ds ≡ n_direct
      → length ss ≡ 256
      → length tss ≡ 256
      → size ≤ (n_direct + 256 + 256 * 256) * fs_block_size
      → HoldBlocks fs i.direct ds
      → read_block fs i.indir_1 ≡ ok table
      → HoldBlocks fs (decode_addrs table) ss
      → read_block fs i.indir_2 ≡ ok table'
      → HoldTables fs (decode_addrs table') tss
      → read_file fs offset size len i
        ≡ ok (end fs offset size len i (concat ds ++ (concat ss ++ concat_all tss)))
  read_file-double ds ss tss table table' some_len within six full full' small hd e hs e' ht =
      let s = start fs offset size len i in
      let ready_s = start-Ready fs offset size len i some_len within in
      let r = read_bytes offset size (concat ds) s in
      let ready = read_bytes-Ready offset size (concat ds) s ready_s in
      let r' = read_bytes offset size (concat ss) r in
      let ready' = read_bytes-Ready offset size (concat ss) r ready in
      let content = concat ds ++ (concat ss ++ concat_all tss) in
      let all : size ≤ length content = omega (
        arith,
        six,
        full,
        full',
        length-append (concat ds) (concat ss ++ concat_all tss),
        length-append (concat ss) (concat_all tss),
        length-concat_blocks fs i.direct ds hd,
        length-concat_blocks fs (decode_addrs table) ss hs,
        length-concat_all fs (decode_addrs table') tss ht,
      ) in
      let last = read_bytes-start fs offset size len i content within all in
      let join = read_bytes-append offset size (concat ds) (concat ss ++ concat_all tss) s in
      let join' = read_bytes-append offset size (concat ss) (concat_all tss) r in
      read_file-three r r' (end fs offset size len i content) table table'
        (rw six at (read_helper-blocks fs offset size i.direct ds s ready_s hd)) e
        (rw full at (read_helper-blocks fs offset size (decode_addrs table) ss r ready hs)) e'
        (rw full' at (
          read_indir_2-tables fs offset size (decode_addrs table') tss r' ready' ht
          ∙ ap ok (sym (join ∙ join') ∙ last)))
        (λ over.
          sym last
          ∙ join
          ∙ read_bytes-at_end offset size (concat ss ++ concat_all tss) r (ready over) over)
        (λ over.
          sym last
          ∙ join
          ∙ join'
          ∙ read_bytes-at_end offset size (concat_all tss) r' (ready' over) over)

-- A successful translation to a file that is not a directory and has `size` bytes.
pub record Opens {dev : BlockDevice} (fs : Fs dev) (path : Bytes) (inum : ℕ) (i : Inode) (size : ℕ)
    : Type 0 where
  pub found : translate fs path ≡ ok inum
  pub inode : inode_at fs inum ≡ ok i
  pub is_file : s_isdir i.mode ≡ false
  pub has_size : i.size ≡ pos size

module _ {dev : BlockDevice} (fs : Fs dev) (path : Bytes) (inum offset size len : ℕ) (i : Inode)
    (opens : Opens fs path inum i size) where
  fs_read-eq-ok :
      (r : Reading)
      → offset < size
      → read_file fs offset size len i ≡ ok r
      → fs_read fs path len offset ≡ ok (r.cnt, r.buf)
  unfolding fs_read
  fs_read-eq-ok r within e =
      ground (arith, opens.found, opens.inode, opens.is_file, opens.has_size, e)

  -- fs_read of at least one byte, of a path that translates to a file and not a directory, from an
  -- offset inside the file, which ends in its six direct blocks, all of which can be read. It
  -- returns the number of bytes from the offset on, up to the end of the file and the length asked
  -- for, and exactly those bytes of the blocks' contents.
  pub fs_read_direct :
      (ds : List Bytes)
      → 0 < len
      → offset < size
      → length ds ≡ n_direct
      → size ≤ n_direct * fs_block_size
      → HoldBlocks fs i.direct ds
      → fs_read fs path len offset ≡ ok (min len (size - offset), slice offset size len (concat ds))
  fs_read_direct ds some_len within six small h =
      fs_read-eq-ok _ within (read_file-direct fs offset size len i ds some_len within six small h)

  -- fs_read of at least one byte, of a path that translates to a file and not a directory, from an
  -- offset inside the file, which ends in its six direct blocks or the 256 blocks behind its
  -- indirect block, all of which can be read. It returns the number of bytes from the offset on, up
  -- to the end of the file and the length asked for, and exactly those bytes of the blocks'
  -- contents.
  pub fs_read_single :
      (ds ss : List Bytes) (table : Bytes)
      → 0 < len
      → offset < size
      → length ds ≡ n_direct
      → length ss ≡ 256
      → size ≤ (n_direct + 256) * fs_block_size
      → HoldBlocks fs i.direct ds
      → read_block fs i.indir_1 ≡ ok table
      → HoldBlocks fs (decode_addrs table) ss
      → fs_read fs path len offset
        ≡ ok (min len (size - offset), slice offset size len (concat ds ++ concat ss))
  fs_read_single ds ss table some_len within six full small hd e hs =
      fs_read-eq-ok _ within
        (read_file-single fs offset size len i ds ss table some_len within six full small hd e hs)

  -- fs_read of at least one byte, of a path that translates to a file and not a directory, from an
  -- offset inside the file, whose size is any that the double indirect block allows, and whose 6 +
  -- 256 + 256 * 256 blocks and their tables can all be read. It returns the number of bytes from
  -- the offset on, up to the end of the file and the length asked for, and exactly those bytes of
  -- the blocks' contents.
  pub fs_read_double :
      (ds ss : List Bytes) (tss : List (List Bytes)) (table table' : Bytes)
      → 0 < len
      → offset < size
      → length ds ≡ n_direct
      → length ss ≡ 256
      → length tss ≡ 256
      → size ≤ (n_direct + 256 + 256 * 256) * fs_block_size
      → HoldBlocks fs i.direct ds
      → read_block fs i.indir_1 ≡ ok table
      → HoldBlocks fs (decode_addrs table) ss
      → read_block fs i.indir_2 ≡ ok table'
      → HoldTables fs (decode_addrs table') tss
      → fs_read fs path len offset
        ≡ ok (
          min len (size - offset),
          slice offset size len (concat ds ++ (concat ss ++ concat_all tss)),
        )
  fs_read_double ds ss tss table table' some_len within six full full' small hd e hs e' ht =
      fs_read-eq-ok _ within (
        read_file-double fs offset size len i ds ss tss table table' some_len within six full full'
          small hd e hs e' ht)
