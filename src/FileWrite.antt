-- ===== src/FileWrite.antt =====
-- write_helper and fs_write of homework.c. The buffer holds exactly `len` bytes, so the bytes that
-- are left stand for both `buf` and `*len`.
pub mod Block
use file_system_implementati.Base.{
  ℕ, zero, suc, ◌+◌, ◌*◌, ◌%◌, ◌^◌, Bool, true, false, Option, none, some, List, [], ◌∷◌, ltb, ◌==◌,
  if◌then◌else◌,
}
use file_system_implementati.Base.Int.{ℤ, pos, negsuc, signed32}
use file_system_implementati.Outcome.{Outcome, ok, err, exit, fault, hang, eisdir, einval, enospc}
use file_system_implementati.Exec.{Exec, query, lift, pure, raise, ◌>>=◌, ◌>>◌}
use file_system_implementati.Layout.{Bytes, fs_block_size, n_direct, decode_addrs, encode_addrs}
use file_system_implementati.Device.{BlockDevice}
use file_system_implementati.Fs.{
  Fs, s_isdir, inode_at, update_inode, read_block, write_block, set_block_bit, get_next_block,
  update_disk,
}
use file_system_implementati.Lookup.{translate}

-- `buf` from the next byte on, `*offset_cnt` and `*cnt`
pub record Writing : Type 0 where
  pub buf : Bytes
  pub offset_cnt : ℕ
  pub cnt : ℕ

-- What write_helper leaves: whether it returned 0, the address array, and the counters.
pub record Written : Type 0 where
  pub enough : Bool
  pub addrs : List ℕ
  pub rest : Writing

abbrev pub cons_addr : ℕ → Written → Written
cons_addr a w = record w { addrs = a ∷ w.addrs }

-- `*len <= 0`
abbrev pub is_empty : Bytes → Bool
is_empty [] = true
is_empty (x ∷ xs) = false

-- A result that is tested for an error.
unfoldable pub if_any : Outcome ℕ → Outcome (Option ℕ)
if_any (ok b) = ok (some b)
if_any (err e) = ok none
if_any exit = exit
if_any fault = fault
if_any hang = hang

-- The loop over the bytes of a block: the new block and the counters.
unfoldable pub write_bytes : ℕ → Bytes → Writing → Bytes × Writing
write_bytes offset [] w = ([], w)
write_bytes offset (d ∷ ds) w = elim w.buf [
  | [] ↦ (d ∷ ds, w)
  | x ∷ xs ↦ elim (ltb w.offset_cnt offset) [
    | true ↦
        let (out, w') = write_bytes offset ds (record w { offset_cnt = w.offset_cnt + 1 }) in
        (d ∷ out, w')
    | false ↦
        let (out, w') = write_bytes offset ds (record w { buf = xs; cnt = w.cnt + 1 }) in
        (x ∷ out, w')
  ]
]

module _ {dev : BlockDevice} where
  unfoldable pub reserve : Option ℕ → Exec (Fs dev) (Option ℕ)
  reserve none = pure none
  reserve (some b) = do set_block_bit b; pure (some b)

  -- get_next_block and bit_set; `none` when no block is free.
  unfoldable pub allocate : Exec (Fs dev) (Option ℕ)
  unfolding reserve if_any
  allocate = do found ← query (λ fs. if_any (get_next_block fs)); reserve found

  -- The block behind an address: a new one if the address is 0.
  unfoldable pub block_for : ℕ → Exec (Fs dev) (Option ℕ)
  unfolding allocate
  block_for a = if a == 0 then allocate else pure (some a)

  unfoldable pub write_one : ℕ → ℕ → Writing → Exec (Fs dev) Writing
  unfolding write_bytes
  write_one offset b w = do
    block ← query (λ fs. read_block fs b)
    let (block', w') = write_bytes offset block w
    write_block block' b
    pure w'

  -- The rest of a round, once the block is known; `next` is the rest of the loop.
  unfoldable pub write_found :
      (Writing → Exec (Fs dev) Written) → ℕ → List ℕ → Writing → Option ℕ → Exec (Fs dev) Written
  unfolding write_one
  write_found next offset addr w none = pure (record { enough = false; addrs = addr; rest = w })
  write_found next offset addr w (some b) = do
    w' ← write_one offset b w
    r ← next w'
    pure (cons_addr b r)

  -- The loop over `times` blocks, while bytes are left.
  unfoldable pub write_addrs : ℕ → ℕ → List ℕ → Writing → Exec (Fs dev) Written
  unfolding write_found block_for
  write_addrs offset zero addr w = pure (record { enough = true; addrs = addr; rest = w })
  write_addrs offset (suc n) [] w =
      if is_empty w.buf then pure (record { enough = true; addrs = []; rest = w }) else lift fault
  write_addrs offset (suc n) (a ∷ addr) w =
      let skip =
        write_addrs offset n addr (record w { offset_cnt = w.offset_cnt + fs_block_size }) in
      if is_empty w.buf
      then pure (record { enough = true; addrs = a ∷ addr; rest = w })
      else if ltb (w.offset_cnt + fs_block_size) offset
      then (do r ← skip; pure (cons_addr a r))
      else (do
        found ← block_for a
        write_found (write_addrs offset n addr) offset (a ∷ addr) w found)

  unfoldable pub write_helper : ℕ → ℕ → List ℕ → Writing → Exec (Fs dev) Written
  unfolding write_addrs
  write_helper offset times addr w =
      if ltb (w.offset_cnt + fs_block_size * times) offset
      then pure (record {
        enough = true;
        addrs = addr;
        rest = record w { offset_cnt = w.offset_cnt + fs_block_size * times };
      })
      else write_addrs offset times addr w

  -- `return -ENOSPC` when no block was free.
  abbrev pub require : {A : Type 0} → Option A → Exec (Fs dev) A
  require none = raise enospc
  require (some a) = pure a

  abbrev pub check : Bool → Exec (Fs dev) (Unit {0})
  check enough = if enough then pure tt else raise enospc

  -- `offset_cnt + cnt > size && block_write(…) < 0`
  abbrev pub write_back : ℕ → Writing → List ℕ → ℕ → Exec (Fs dev) (Unit {0})
  write_back size w addr b =
      if ltb size (w.offset_cnt + w.cnt) then write_block (encode_addrs addr) b else pure tt

  -- One single indirect block, at the disk block `b`.
  unfoldable pub write_indirect : ℕ → ℕ → ℕ → Writing → Exec (Fs dev) Writing
  unfolding write_helper
  write_indirect offset size b w = do
    block ← query (λ fs. read_block fs b)
    r ← write_helper offset 256 (decode_addrs block) w
    check r.enough
    write_back size r.rest r.addrs b
    pure r.rest

  -- The loop over the double indirect block.
  unfoldable pub write_indir_2 : ℕ → ℕ → ℕ → List ℕ → Writing → Exec (Fs dev) (List ℕ × Writing)
  unfolding write_indirect block_for
  write_indir_2 offset size zero indir_2 w = pure (indir_2, w)
  write_indir_2 offset size (suc n) [] w = if is_empty w.buf then pure ([], w) else lift fault
  write_indir_2 offset size (suc n) (a ∷ indir_2) w =
      let skip =
        write_indir_2 offset size n indir_2
          (record w { offset_cnt = w.offset_cnt + 256 * fs_block_size }) in
      if is_empty w.buf
      then pure (a ∷ indir_2, w)
      else if ltb (w.offset_cnt + 256 * fs_block_size) offset
      then (do r ← skip; pure (a ∷ r.0, r.1))
      else (do
        found ← block_for a
        b ← require found
        w' ← write_indirect offset size b w
        r ← write_indir_2 offset size n indir_2 w'
        pure (b ∷ r.0, r.1))

  unfoldable pub write_double : ℕ → ℕ → ℕ → Writing → Exec (Fs dev) Writing
  unfolding write_indir_2
  write_double offset size inum w = do
    i ← query (λ fs. inode_at fs inum)
    found ← block_for i.indir_2
    b ← require found
    update_inode inum (λ i. record i { indir_2 = b })
    block ← query (λ fs. read_block fs b)
    (indir_2, w') ← write_indir_2 offset size 256 (decode_addrs block) w
    write_back size w' indir_2 b
    pure w'

  unfoldable pub write_single : ℕ → ℕ → ℕ → Writing → Exec (Fs dev) Writing
  unfolding write_indirect
  write_single offset size inum w = do
    i ← query (λ fs. inode_at fs inum)
    found ← block_for i.indir_1
    b ← require found
    update_inode inum (λ i. record i { indir_1 = b })
    write_indirect offset size b w

  unfoldable pub write_direct : ℕ → ℕ → Writing → Exec (Fs dev) Writing
  unfolding write_helper
  write_direct offset inum w = do
    i ← query (λ fs. inode_at fs inum)
    r ← write_helper offset n_direct i.direct w
    update_inode inum (λ i. record i { direct = r.addrs })
    check r.enough
    pure r.rest

  -- `then` when bytes are left
  abbrev pub while_left : (Writing → Exec (Fs dev) Writing) → Writing → Exec (Fs dev) Writing
  while_left f w = if is_empty w.buf then pure w else f w

  -- fs_write below its checks. The new size is stored in an `int32_t`.
  unfoldable pub write_file : ℕ → ℕ → ℕ → ℕ → Bytes → Exec (Fs dev) ℕ
  unfolding write_direct write_single write_double
  write_file now offset size inum buf = do
    w ← write_direct offset inum (record { buf = buf; offset_cnt = 0; cnt = 0 })
    w' ← while_left (write_single offset size inum) w
    w'' ← while_left (write_double offset size inum) w'
    update_inode inum (λ i. record i {
      size = signed32 ((if ltb size (offset + w''.cnt) then offset + w''.cnt else size) % 2 ^ 32);
      mtime = now % 2 ^ 32;
    })
    update_disk
    pure w''.cnt

  -- The test of the offset against the size, an `int32_t`.
  unfoldable pub write_sized : ℕ → Bytes → ℕ → ℕ → ℤ → Exec (Fs dev) ℕ
  unfolding write_file
  write_sized now buf offset inum (negsuc _) = raise einval
  write_sized now buf offset inum (pos size) =
      if ltb size offset then raise einval else write_file now offset size inum buf

  unfoldable pub fs_write : ℕ → Bytes → Bytes → ℕ → Exec (Fs dev) ℕ
  unfolding write_sized
  fs_write now path buf offset = do
    inum ← query (λ fs. translate fs path)
    i ← query (λ fs. inode_at fs inum)
    if s_isdir i.mode then raise eisdir else write_sized now buf offset inum i.size
