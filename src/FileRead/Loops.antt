-- ===== src/FileRead/Loops.antt =====
-- The loops of read_helper and fs_read against one run over the bytes that the blocks hold together.
use file_system_implementati.Base.{
  ℕ, zero, suc, ◌+◌, ◌-◌, ◌*◌, ◌≤◌, ◌<◌, ◌≡◌, refl, sym, ap, ◌∙◌, inl, inr, ◌⊎◌, true, List, [],
  ◌∷◌, ◌++◌, ltb, take, drop, length, arith, length-append, Bool-cases,
}
use mathlib.Core.List.{append-nil, append_assoc}
use file_system_implementati.Outcome.{ok}
use file_system_implementati.Layout.{Bytes, fs_block_size, concat, decode_addrs}
use file_system_implementati.Device.{BlockDevice}
use file_system_implementati.Fs.{Fs, read_block}
use file_system_implementati.FileRead.{
  Reading, read_done, read_bytes, read_addrs, read_helper, read_indir_2,
}

module _ (offset size : ℕ) where
  abbrev passed : Reading → Reading
  passed r = record r { offset_cnt = r.offset_cnt + 1 }

  abbrev stored : ℕ → Reading → Reading
  stored b r = record r { len = r.len - 1; cnt = r.cnt + 1; buf = r.buf ++ (b ∷ []) }

  -- A reading that is at its end is past the offset.
  abbrev pub Ready : Reading → Type 0
  Ready r = read_done offset size r ≡ true → offset ≤ r.offset_cnt

  pub read_bytes-Ready : (bs : Bytes) (r : Reading) → Ready r → Ready (read_bytes offset size bs r)
  unfolding read_bytes
  read_bytes-Ready [] r h = h
  read_bytes-Ready (b ∷ bs) r h =
      ground (arith, read_bytes-Ready bs (passed r), read_bytes-Ready bs (stored b r))

  pub read_bytes-at_end :
      (bs : Bytes) (r : Reading)
      → offset ≤ r.offset_cnt
      → read_done offset size r ≡ true
      → read_bytes offset size bs r ≡ r
  unfolding read_bytes
  read_bytes-at_end [] r h d = refl
  read_bytes-at_end (b ∷ bs) r h d = ground arith

  pub read_bytes-append :
      (bs cs : Bytes) (r : Reading)
      → read_bytes offset size (bs ++ cs) r
        ≡ read_bytes offset size cs (read_bytes offset size bs r)
  unfolding read_bytes
  read_bytes-append [] cs r = refl
  read_bytes-append (b ∷ bs) cs r = ground (
    arith,
    read_bytes-append bs cs (passed r),
    read_bytes-append bs cs (stored b r),
    read_bytes-at_end cs r,
  )

  -- Bytes before the offset are counted and left out.
  read_bytes-skip :
      (bs : Bytes) (r : Reading)
      → r.offset_cnt + length bs ≤ offset
      → read_bytes offset size bs r ≡ record r { offset_cnt = r.offset_cnt + length bs }
  unfolding read_bytes
  read_bytes-skip [] r h = ground arith
  read_bytes-skip (b ∷ bs) r h = ground (arith, read_bytes-skip bs (passed r))

  -- From the offset on `k` bytes are stored, up to the end of the file or of the buffer.
  read_bytes-take :
      (k : ℕ) (bs : Bytes) (r : Reading)
      → offset ≤ r.offset_cnt
      → k ≤ length bs
      → k ≤ r.len
      → offset + (r.cnt + k) ≤ size
      → (k ≡ r.len) ⊎ (size ≡ offset + (r.cnt + k))
      → read_bytes offset size bs r
        ≡ record r { len = r.len - k; cnt = r.cnt + k; buf = r.buf ++ take k bs }
  unfolding read_bytes
  read_bytes-take zero bs r h1 h2 h3 h4 h5 =
      ground (arith, append-nil r.buf, read_bytes-at_end bs r)
  read_bytes-take (suc k) [] r h1 h2 h3 h4 h5 = absurd (omega arith)
  read_bytes-take (suc k) (b ∷ bs) r h1 h2 h3 h4 h5 =
      ground (arith, append_assoc r.buf (b ∷ []) (take k bs), read_bytes-take k bs (stored b r))

  -- From a counter at or before the offset: `s` bytes are left out, `k` bytes are stored.
  pub read_bytes-slice :
      (s k : ℕ) (bs : Bytes) (r : Reading)
      → s + r.offset_cnt ≡ offset
      → s + k ≤ length bs
      → k ≤ r.len
      → offset + (r.cnt + k) ≤ size
      → (k ≡ r.len) ⊎ (size ≡ offset + (r.cnt + k))
      → read_bytes offset size bs r ≡ record r {
        offset_cnt = offset;
        len = r.len - k;
        cnt = r.cnt + k;
        buf = r.buf ++ take k (drop s bs);
      }
  unfolding read_bytes
  read_bytes-slice zero k bs r h1 h2 h3 h4 h5 =
      ground (arith, h1, read_bytes-take k bs r (omega arith) (omega arith) h3 h4 h5)
  read_bytes-slice (suc s) k [] r h1 h2 h3 h4 h5 = absurd (omega arith)
  read_bytes-slice (suc s) k (b ∷ bs) r h1 h2 h3 h4 h5 =
      ground (arith, read_bytes-slice s k bs (passed r) (omega arith) (omega arith) h3 h4 h5)

-- The first addresses are those of blocks on the disk that hold `bs`.
abbrev pub HoldBlocks : {dev : BlockDevice} → Fs dev → List ℕ → List Bytes → Type 0
HoldBlocks fs addr [] = Unit
HoldBlocks fs [] (b ∷ bs) = ⊥
HoldBlocks fs (a ∷ addr) (b ∷ bs) =
    (read_block fs a ≡ ok b) × (length b ≡ fs_block_size) × HoldBlocks fs addr bs

module _ {dev : BlockDevice} (fs : Fs dev) where
  pub length-concat_blocks :
      (addr : List ℕ) (bs : List Bytes)
      → HoldBlocks fs addr bs
      → length (concat bs) ≡ fs_block_size * length bs
  unfolding concat
  length-concat_blocks addr [] h = refl
  length-concat_blocks [] (b ∷ bs) h = absurd h
  length-concat_blocks (a ∷ addr) (b ∷ bs) (e, l, h) =
      omega (arith, length-append b (concat bs), length-concat_blocks addr bs h)

module _ {dev : BlockDevice} (fs : Fs dev) (offset size : ℕ) where
  read_addrs-blocks :
      (addr : List ℕ) (bs : List Bytes) (r : Reading)
      → Ready offset size r
      → HoldBlocks fs addr bs
      → read_addrs fs offset size (length bs) addr r ≡ ok (read_bytes offset size (concat bs) r)
  unfolding read_addrs read_bytes concat
  read_addrs-blocks addr [] r ready h = refl
  read_addrs-blocks [] (b ∷ bs) r ready h = absurd h
  read_addrs-blocks (a ∷ addr) (b ∷ bs) r ready (e, l, h) = ground (
    arith,
    e,
    read_bytes-append offset size b (concat bs) r,
    read_bytes-skip offset size b r,
    read_bytes-Ready offset size b r ready,
    read_bytes-at_end offset size (concat bs) (read_bytes offset size b r),
    read_addrs-blocks addr bs (read_bytes offset size b r) (read_bytes-Ready offset size b r ready)
        h,
    read_addrs-blocks addr bs (record r { offset_cnt = r.offset_cnt + fs_block_size }),
  )

  pub read_helper-blocks :
      (addr : List ℕ) (bs : List Bytes) (r : Reading)
      → Ready offset size r
      → HoldBlocks fs addr bs
      → read_helper fs offset size (length bs) addr r ≡ ok (read_bytes offset size (concat bs) r)
  unfolding read_helper
  read_helper-blocks addr bs r ready h = ground (
    arith,
    read_addrs-blocks addr bs r ready h,
    length-concat_blocks fs addr bs h,
    read_bytes-skip offset size (concat bs) r,
  )

-- The first addresses are those of tables on the disk, each of 256 addresses of blocks that hold one
-- list of `tss`.
abbrev pub HoldTables : {dev : BlockDevice} → Fs dev → List ℕ → List (List Bytes) → Type 0
HoldTables fs addr [] = Unit
HoldTables fs [] (bs ∷ tss) = ⊥
HoldTables fs (a ∷ addr) (bs ∷ tss) =
    (table : Bytes) × (read_block fs a ≡ ok table)
    × (length bs ≡ 256)
    × HoldBlocks fs (decode_addrs table) bs
    × HoldTables fs addr tss

abbrev pub concat_all : List (List Bytes) → Bytes
concat_all [] = []
concat_all (bs ∷ tss) = concat bs ++ concat_all tss

module _ {dev : BlockDevice} (fs : Fs dev) where
  pub length-concat_all :
      (addr : List ℕ) (tss : List (List Bytes))
      → HoldTables fs addr tss
      → length (concat_all tss) ≡ 256 * fs_block_size * length tss
  length-concat_all addr [] h = refl
  length-concat_all [] (bs ∷ tss) h = absurd h
  length-concat_all (a ∷ addr) (bs ∷ tss) (table, e, l, hb, h) = omega (
    arith,
    l,
    length-append (concat bs) (concat_all tss),
    length-concat_blocks fs (decode_addrs table) bs hb,
    length-concat_all addr tss h,
  )

module _ {dev : BlockDevice} (fs : Fs dev) (offset size : ℕ) where
  -- One round, from what the rest of the loop does.
  read_indir_2-suc :
      (n a : ℕ) (addr : List ℕ) (r r' out : Reading) (table : Bytes)
      → read_block fs a ≡ ok table
      → read_helper fs offset size 256 (decode_addrs table) r ≡ ok r'
      → (r.offset_cnt + 256 * fs_block_size < offset
          → read_indir_2 fs offset size n addr
              (record r { offset_cnt = r.offset_cnt + 256 * fs_block_size })
            ≡ ok out)
      → (read_done offset size r' ≡ true → r' ≡ out)
      → read_indir_2 fs offset size n addr r' ≡ ok out
      → read_indir_2 fs offset size (suc n) (a ∷ addr) r ≡ ok out
  unfolding read_indir_2
  read_indir_2-suc n a addr r r' out table e run skip stop next =
      elim (Bool-cases (ltb (r.offset_cnt + 256 * fs_block_size) offset)) [
        | inl early ↦ ground (arith, early, skip (ground arith))
        | inr late ↦ elim (Bool-cases (read_done offset size r')) [
          | inl over ↦ ground (arith, late, e, run, over, stop over)
          | inr more ↦ ground (arith, late, e, run, more, next)
        ]
      ]

  pub read_indir_2-tables :
      (addr : List ℕ) (tss : List (List Bytes)) (r : Reading)
      → Ready offset size r
      → HoldTables fs addr tss
      → read_indir_2 fs offset size (length tss) addr r
        ≡ ok (read_bytes offset size (concat_all tss) r)
  unfolding read_indir_2 read_bytes
  read_indir_2-tables addr [] r ready h = refl
  read_indir_2-tables [] (bs ∷ tss) r ready h = absurd h
  read_indir_2-tables (a ∷ addr) (bs ∷ tss) r ready (table, e, l, hb, h) =
      let r' = read_bytes offset size (concat bs) r in
      let ready' = read_bytes-Ready offset size (concat bs) r ready in
      let next = read_indir_2-tables addr tss r' ready' h in
      let skipped = record r { offset_cnt = r.offset_cnt + 256 * fs_block_size } in
      let long : length (concat bs) ≡ 256 * fs_block_size =
        omega (arith, l, length-concat_blocks fs (decode_addrs table) bs hb) in
      rw (read_bytes-append offset size (concat bs) (concat_all tss) r) (
        read_indir_2-suc (length tss) a addr r r' _ table e
          (rw l at (read_helper-blocks fs offset size (decode_addrs table) bs r ready hb))
          (λ far.
            read_indir_2-tables addr tss skipped (λ over. omega (arith, ready over)) h
            ∙ ap (λ x. ok (read_bytes offset size (concat_all tss) x))
                (ap (λ x. record r { offset_cnt = r.offset_cnt + x }) (sym long)
                  ∙ sym (read_bytes-skip offset size (concat bs) r (omega (arith, long)))))
          (λ over. sym (read_bytes-at_end offset size (concat_all tss) r' (ready' over) over)) next)
