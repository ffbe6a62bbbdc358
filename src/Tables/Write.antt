-- ===== src/Tables/Write.antt =====
-- fs_write, on well-formed tables and a working device.
use file_system_implementati.Base.{
  ℕ, zero, suc, ◌+◌, ◌*◌, ◌%◌, ◌^◌, ◌<◌, ◌≡◌, refl, Bool, true, false, Option, none, some, List, [],
  ◌∷◌, All, length, arith, ltb, ◌==◌, if◌then◌else◌,
}
use file_system_implementati.Base.Int.{ℤ, pos, negsuc, signed32}
use file_system_implementati.Outcome.{Outcome, ok, fault}
use file_system_implementati.Exec.{Exec, pure, query, ◌>>=◌, ◌>>◌}
use file_system_implementati.Exec.Triple.{
  Triple-bind, Triple-pure, Triple-raise, Triple-lift, Triple-if,
}
use file_system_implementati.Layout.{Bytes, decode_addrs, n_direct, fs_block_size}
use file_system_implementati.Layout.Bounds.{decode_addrs-fit}
use file_system_implementati.Device.{BlockDevice, IsDevice}
use file_system_implementati.Fs.{
  Fs, s_isdir, get_next_block, read_block, inode_at, update_inode, update_disk,
}
use file_system_implementati.Fs.Sync.{IsWf}
use file_system_implementati.FileWrite.{
  Writing, Written, is_empty, if_any, reserve, allocate, block_for, write_one, write_found,
  write_addrs, write_helper, require, check, write_back, write_indirect, write_indir_2,
  write_double, write_single, write_direct, while_left, write_file, write_sized, fs_write,
}
use file_system_implementati.Tables.{Keeps, Saves, Keeps-bind}
use file_system_implementati.Tables.Access.{Any, update_inode-Keeps, set_block_bit-Keeps}
use file_system_implementati.Tables.Disk.{
  query-Keeps, get_next_block-below, inode_at-Keeps, lift-Keeps, read-Keeps, read_block-Keeps,
  pure-Keeps, write_block-Keeps, update_disk-Saves,
}
use file_system_implementati.Tables.Inodes.{
  direct-IsInode, indir_1-IsInode, indir_2-IsInode, size-IsInode,
}

-- A block number that was found, if any, is a `uint32_t`.
abbrev IsBlock : Option ℕ → Type 0
IsBlock none = Unit
IsBlock (some b) = b < 2 ^ 32

-- `n` block numbers
abbrev AreBlocks : ℕ → List ℕ → Type 0
AreBlocks n l = All (λ a. a < 2 ^ 32) l × (length l ≡ n)

if_any-IsBlock :
    (r : Outcome ℕ) (found : Option ℕ)
    → ((b : ℕ) → r ≡ ok b → b < 2 ^ 32)
    → if_any r ≡ ok found
    → IsBlock found
unfolding if_any
if_any-IsBlock r none h e = tt
if_any-IsBlock r (some b) h e = h b (ground arith)

module _ {dev : BlockDevice} (io : IsDevice dev) where
  reserve-Keeps : (found : Option ℕ) → IsBlock found → Keeps (reserve {dev = dev} found) IsBlock
  unfolding reserve
  reserve-Keeps none h = Triple-pure _ λ s w. (w, (w, tt))
  reserve-Keeps (some b) h =
      Keeps-bind _ _ (set_block_bit-Keeps b) λ _ _. Triple-pure _ λ s w. (w, (w, h))

  allocate-Keeps : Keeps (allocate {dev = dev}) IsBlock
  unfolding allocate
  allocate-Keeps =
      Keeps-bind _ _
        (query-Keeps (λ fs. if_any (get_next_block fs)) IsBlock
          λ s w found e.
            if_any-IsBlock (get_next_block s) found (λ b. get_next_block-below s b w) e)
        reserve-Keeps

  block_for-Keeps : (a : ℕ) → a < 2 ^ 32 → Keeps (block_for {dev = dev} a) IsBlock
  unfolding block_for
  block_for-Keeps a h =
      Triple-if (a == 0) _ _ (λ _. allocate-Keeps) λ _. Triple-pure _ λ s w. (w, (w, h))

  write_one-Keeps : (offset b : ℕ) (w : Writing) → Keeps (write_one {dev = dev} offset b w) Any
  unfolding write_one
  write_one-Keeps offset b w =
      Keeps-bind _ _ (read-Keeps _)
        λ block _. Keeps-bind _ _ (write_block-Keeps io _ _) λ _ _. pure-Keeps _

  write_found-Keeps :
      (next : Writing → Exec (Fs dev) Written) (offset a : ℕ) (addr : List ℕ) (n : ℕ) (w : Writing)
      (found : Option ℕ)
      → AreBlocks (suc n) (a ∷ addr)
      → IsBlock found
      → ((w' : Writing) → Keeps (next w') (λ r. AreBlocks n r.addrs))
      → Keeps (write_found next offset (a ∷ addr) w found) (λ r. AreBlocks (suc n) r.addrs)
  unfolding write_found
  write_found-Keeps next offset a addr n w none h hb hn = Triple-pure _ λ s v. (v, (v, h))
  write_found-Keeps next offset a addr n w (some b) h hb hn =
      Keeps-bind _ _ (write_one-Keeps offset b w) λ w' _.
        Keeps-bind _ _ (hn w')
          λ r (hr, e). Triple-pure _ λ s v. (v, (v, ((hb, hr), omega (arith, e))))

  write_addrs-Keeps :
      (offset n : ℕ) (addr : List ℕ) (w : Writing)
      → All (λ a. a < 2 ^ 32) addr
      → Keeps (write_addrs {dev = dev} offset n addr w) (λ r. AreBlocks (length addr) r.addrs)
  unfolding write_addrs
  write_addrs-Keeps offset zero addr w h = Triple-pure _ λ s v. (v, (v, (h, refl)))
  write_addrs-Keeps offset (suc n) [] w h =
      Triple-if (is_empty w.buf) _ _ (λ _. Triple-pure _ λ s v. (v, (v, (tt, refl))))
        λ _. Triple-lift fault λ s v. (v, tt)
  write_addrs-Keeps offset (suc n) (a ∷ addr) w h =
      Triple-if (is_empty w.buf) _ _ (λ _. Triple-pure _ λ s v. (v, (v, (h, refl))))
        λ _.
          Triple-if (ltb (w.offset_cnt + fs_block_size) offset) _ _
            (λ _.
              Keeps-bind _ _ (write_addrs-Keeps offset n addr _ h.1)
                λ r (hr, e). Triple-pure _ λ s v. (v, (v, ((h.0, hr), omega (arith, e)))))
            λ _. Keeps-bind _ _ (block_for-Keeps a h.0) λ found hb.
              write_found-Keeps (write_addrs offset n addr) offset a addr (length addr) w found
                (h, refl) hb λ w'. write_addrs-Keeps offset n addr w' h.1

  write_helper-Keeps :
      (offset n : ℕ) (addr : List ℕ) (w : Writing)
      → All (λ a. a < 2 ^ 32) addr
      → Keeps (write_helper {dev = dev} offset n addr w) (λ r. AreBlocks (length addr) r.addrs)
  unfolding write_helper
  write_helper-Keeps offset n addr w h =
      Triple-if (ltb (w.offset_cnt + fs_block_size * n) offset) _ _
        (λ _. Triple-pure _ λ s v. (v, (v, (h, refl)))) λ _. write_addrs-Keeps offset n addr w h

  require-Keeps :
      (found : Option ℕ) → IsBlock found → Keeps (require {dev = dev} found) (λ b. b < 2 ^ 32)
  require-Keeps none h = Triple-raise _ λ s w. w
  require-Keeps (some b) h = Triple-pure _ λ s w. (w, (w, h))

  check-Keeps : (b : Bool) → Keeps (check {dev = dev} b) Any
  check-Keeps true = pure-Keeps tt
  check-Keeps false = Triple-raise _ λ s w. w

  write_back-Keeps :
      (size : ℕ) (w : Writing) (addr : List ℕ) (b : ℕ)
      → Keeps (write_back {dev = dev} size w addr b) Any
  write_back-Keeps size w addr b =
      Triple-if (ltb size (w.offset_cnt + w.cnt)) _ _ (λ _. write_block-Keeps io _ b)
        λ _. pure-Keeps tt

  write_indirect_steps :
      (offset size b : ℕ) (w : Writing)
      → write_indirect {dev = dev} offset size b w ≡ (do
        block ← query (λ fs. read_block fs b)
        r ← write_helper offset 256 (decode_addrs block) w
        check r.enough
        write_back size r.rest r.addrs b
        pure r.rest)
  unfolding write_indirect
  write_indirect_steps offset size b w = refl

  write_indirect-Keeps :
      (offset size b : ℕ) (w : Writing) → Keeps (write_indirect {dev = dev} offset size b w) Any
  write_indirect-Keeps offset size b w = rw (write_indirect_steps offset size b w) (
      Keeps-bind _ _ (read_block-Keeps io b) λ block hb.
        Keeps-bind _ _
          (write_helper-Keeps offset 256 (decode_addrs block) w (decode_addrs-fit block hb))
          λ r _.
            Keeps-bind _ _ (check-Keeps r.enough)
              λ _ _. Keeps-bind _ _ (write_back-Keeps size r.rest r.addrs b) λ _ _. pure-Keeps _)

  write_indir_2-Keeps :
      (offset size n : ℕ) (l : List ℕ) (w : Writing)
      → All (λ a. a < 2 ^ 32) l
      → Keeps (write_indir_2 {dev = dev} offset size n l w) Any
  unfolding write_indir_2
  write_indir_2-Keeps offset size zero l w h = pure-Keeps _
  write_indir_2-Keeps offset size (suc n) [] w h =
      Triple-if (is_empty w.buf) _ _ (λ _. pure-Keeps _) λ _. lift-Keeps fault
  write_indir_2-Keeps offset size (suc n) (a ∷ l) w h =
      Triple-if (is_empty w.buf) _ _ (λ _. pure-Keeps _)
        λ _.
          Triple-if (ltb (w.offset_cnt + 256 * fs_block_size) offset) _ _
            (λ _. Keeps-bind _ _ (write_indir_2-Keeps offset size n l _ h.1) λ r _. pure-Keeps _)
            λ _. Keeps-bind _ _ (block_for-Keeps a h.0) λ found hb.
              Keeps-bind _ _ (require-Keeps found hb) λ b _.
                Keeps-bind _ _ (write_indirect-Keeps offset size b w) λ w' _.
                  Keeps-bind _ _ (write_indir_2-Keeps offset size n l w' h.1) λ r _. pure-Keeps _

  write_double_steps :
      (offset size inum : ℕ) (w : Writing)
      → write_double {dev = dev} offset size inum w ≡ (do
        i ← query (λ fs. inode_at fs inum)
        found ← block_for i.indir_2
        b ← require found
        update_inode inum (λ i. record i { indir_2 = b })
        block ← query (λ fs. read_block fs b)
        (indir_2, w') ← write_indir_2 offset size 256 (decode_addrs block) w
        write_back size w' indir_2 b
        pure w')
  unfolding write_double
  write_double_steps offset size inum w = refl

  write_double-Keeps :
      (offset size inum : ℕ) (w : Writing) → Keeps (write_double {dev = dev} offset size inum w) Any
  write_double-Keeps offset size inum w = rw (write_double_steps offset size inum w) (
      Keeps-bind _ _ (inode_at-Keeps inum) λ i hi.
        Keeps-bind _ _ (block_for-Keeps i.indir_2 hi.indir_2) λ found hb.
          Keeps-bind _ _ (require-Keeps found hb) λ b m.
            Keeps-bind _ _ (update_inode-Keeps inum _ λ x h. indir_2-IsInode x h b m) λ _ _.
              Keeps-bind _ _ (read_block-Keeps io b) λ block hk.
                Keeps-bind _ _
                  (write_indir_2-Keeps offset size 256 (decode_addrs block) w
                    (decode_addrs-fit block hk))
                  λ r _. Keeps-bind _ _ (write_back-Keeps size r.1 r.0 b) λ _ _. pure-Keeps _)

  write_single-Keeps :
      (offset size inum : ℕ) (w : Writing) → Keeps (write_single {dev = dev} offset size inum w) Any
  unfolding write_single
  write_single-Keeps offset size inum w = Keeps-bind _ _ (inode_at-Keeps inum) λ i hi.
      Keeps-bind _ _ (block_for-Keeps i.indir_1 hi.indir_1) λ found hb.
        Keeps-bind _ _ (require-Keeps found hb) λ b m.
          Keeps-bind _ _ (update_inode-Keeps inum _ λ x h. indir_1-IsInode x h b m)
            λ _ _. write_indirect-Keeps offset size b w

  write_direct_steps :
      (offset inum : ℕ) (w : Writing)
      → write_direct {dev = dev} offset inum w ≡ (do
        i ← query (λ fs. inode_at fs inum)
        r ← write_helper offset n_direct i.direct w
        update_inode inum (λ i. record i { direct = r.addrs })
        check r.enough
        pure r.rest)
  unfolding write_direct
  write_direct_steps offset inum w = refl

  write_direct-Keeps :
      (offset inum : ℕ) (w : Writing) → Keeps (write_direct {dev = dev} offset inum w) Any
  write_direct-Keeps offset inum w = rw (write_direct_steps offset inum w) (
      Keeps-bind _ _ (inode_at-Keeps inum) λ i hi.
        Keeps-bind _ _ (write_helper-Keeps offset n_direct i.direct w hi.direct) λ r (hr, e).
          Keeps-bind _ _
            (update_inode-Keeps inum _
              λ x h. direct-IsInode x h r.addrs hr (omega (arith, e, hi.direct_length)))
            λ _ _. Keeps-bind _ _ (check-Keeps r.enough) λ _ _. pure-Keeps _)

  while_left-Keeps :
      (f : Writing → Exec (Fs dev) Writing) (w : Writing)
      → Keeps (f w) Any
      → Keeps (while_left f w) Any
  while_left-Keeps f w h = Triple-if (is_empty w.buf) _ _ (λ _. pure-Keeps w) λ _. h

  write_file_steps :
      (now offset size inum : ℕ) (buf : Bytes)
      → write_file {dev = dev} now offset size inum buf ≡ (do
        w ← write_direct offset inum (record { buf = buf; offset_cnt = 0; cnt = 0 })
        w' ← while_left (write_single offset size inum) w
        w'' ← while_left (write_double offset size inum) w'
        update_inode inum (λ i. record i {
          size =
              signed32 ((if ltb size (offset + w''.cnt) then offset + w''.cnt else size) % 2 ^ 32);
          mtime = now % 2 ^ 32;
        })
        update_disk
        pure w''.cnt)
  unfolding write_file
  write_file_steps now offset size inum buf = refl

  write_file-Saves :
      (now offset size inum : ℕ) (buf : Bytes)
      → Saves IsWf (write_file {dev = dev} now offset size inum buf)
  write_file-Saves now offset size inum buf = rw (write_file_steps now offset size inum buf) (
      Keeps-bind _ _ (write_direct-Keeps offset inum _) λ w _.
        Keeps-bind _ _
          (while_left-Keeps (write_single offset size inum) w
            (write_single-Keeps offset size inum w))
          λ w' _.
            Keeps-bind _ _
              (while_left-Keeps (write_double offset size inum) w'
                (write_double-Keeps offset size inum w'))
              λ w'' _.
                Keeps-bind _ _ (update_inode-Keeps inum _ λ x h. size-IsInode x h _ now)
                  λ _ _. Triple-bind _ _ (update_disk-Saves io) λ _. Triple-pure _ λ s j. (j.0, j))

  write_sized-Saves :
      (now : ℕ) (buf : Bytes) (offset inum : ℕ) (size : ℤ)
      → Saves IsWf (write_sized {dev = dev} now buf offset inum size)
  unfolding write_sized
  write_sized-Saves now buf offset inum (negsuc n) = Triple-raise _ λ s w. w
  write_sized-Saves now buf offset inum (pos size) =
      Triple-if (ltb size offset) _ _ (λ _. Triple-raise _ λ s w. w)
        λ _. write_file-Saves now offset size inum buf

  pub fs_write-Saves :
      (now : ℕ) (path buf : Bytes) (offset : ℕ)
      → Saves IsWf (fs_write {dev = dev} now path buf offset)
  unfolding fs_write
  fs_write-Saves now path buf offset = Keeps-bind _ _ (read-Keeps _) λ inum _.
      Keeps-bind _ _ (read-Keeps _) λ i _.
        Triple-if (s_isdir i.mode) _ _ (λ _. Triple-raise _ λ s w. w)
          λ _. write_sized-Saves now buf offset inum i.size
