-- ===== src/ReadImg.antt =====
-- main of read-img.c from the image in memory on: a walk over the directory tree that prints what it
-- finds. `disk` is one array of bytes, shorter than 2^31, and pointers into it are offsets; an offset
-- that is a product of `uint32_t` wraps. A structure that is not wholly on the disk is a `fault`.
pub mod Ends
pub mod Queue
pub mod Walk
pub mod Tree
pub mod Adds
pub mod Round
pub mod Complete
pub mod Lost
pub mod Reported
pub mod Blocks
use file_system_implementati.Base.{
  ℕ, zero, suc, ◌+◌, ◌-◌, ◌*◌, ◌/◌, ◌%◌, ◌^◌, Bool, true, false, not, List, [], ◌∷◌, ◌++◌, leb, ltb,
  ◌==◌, length, take, drop, replicate, if◌then◌else◌,
}
use file_system_implementati.Outcome.{Outcome, ok, fault, hang, ◌>>=◌}
use file_system_implementati.Layout.{
  Bytes, Super, Inode, Dirent, fs_block_size, inodes_per_blk, decode_super, decode_inode,
  decode_addrs, decode_dir,
}
use file_system_implementati.Bitmap.{bit_set, bit_test}
use file_system_implementati.Fs.{s_isdir, direct_0}

pub record Image : Type 0 where
  pub disk : Bytes
  pub sb : Super

-- `struct entry`, an element of inode_list.
pub record Entry : Type 0 where
  pub dir : Bool
  pub inum : ℕ

-- What one call of printf tells.
pub data Line : Type 0 where
  summary : Super → Line
  allocated_inode allocated_block : ℕ → Line
  file : ℕ → Inode → Line
  block marked_free : ℕ → Line
  not_a_directory : ℕ → Line
  directory : ℕ → ℕ → Line
  entry : Dirent → Line
  invalid_inode loop_found inode_free : ℕ → Line
  unreachable_inode unreachable_block : ℕ → Line

-- `queue` is inode_list from `tail` up to `head`, and `out` is what has been printed.
pub record State : Type 0 where
  pub blkmap : Bytes
  pub imap : Bytes
  pub queue : List Entry
  pub head : ℕ
  pub out : List Line

-- Whether the walk goes on, or has left by `goto fail`.
pub data Flow : Type 0 where
  next fail : State → Flow

-- The rest of a loop, which `goto fail` skips.
abbrev pub onward : (State → Outcome Flow) → Flow → Outcome Flow
onward rest (next s) = rest s
onward rest (fail s) = ok (fail s)

abbrev pub print : Line → State → State
print line s = record s { out = s.out ++ (line ∷ []) }

abbrev pub inode_map_at : ℕ
inode_map_at = fs_block_size

abbrev pub block_map_at : Super → ℕ
block_map_at sb = inode_map_at + sb.inode_map_sz * fs_block_size % 2 ^ 32

abbrev pub inodes_at : Super → ℕ
inodes_at sb = block_map_at sb + sb.block_map_sz * fs_block_size % 2 ^ 32

abbrev pub max_inodes : Super → ℕ
max_inodes sb = sb.inode_region_sz * inodes_per_blk % 2 ^ 32

-- `n` bytes of the disk.
unfoldable pub slice : Bytes → (off n : ℕ) → Outcome Bytes
slice disk off n = if leb (off + n) (length disk) then ok (take n (drop off disk)) else fault

-- bit_test(disk + base, i)
abbrev pub test_at : Bytes → (base i : ℕ) → Outcome Bool
test_at disk base i = bit_test disk (base * 8 + i)

-- `n` rounds of the loop over a map on the disk, from bit `i` on.
unfoldable pub set_bits : (ℕ → Line) → Bytes → (base n i : ℕ) → Outcome (List Line)
unfolding bit_test
set_bits line disk base zero i = ok []
set_bits line disk base (suc n) i = test_at disk base i >>= λ used.
    set_bits line disk base n (i + 1) >>= λ rest. ok (if used then line i ∷ rest else rest)

-- The counter of the loop is an `int`.
abbrev pub list_map : (ℕ → Line) → Bytes → (base n : ℕ) → Outcome (List Line)
list_map line disk base n = if leb (2 ^ 31) n then fault else set_bits line disk base n 0

-- Block `b` is reached: an error is printed if the map of the disk has it as free.
unfoldable pub reach_block : Image → ℕ → State → Outcome State
unfolding bit_set bit_test
reach_block img b s = bit_set s.blkmap b >>= λ m.
    test_at img.disk (block_map_at img.sb) b >>= λ used.
    let s' : State = record s { blkmap = m } in ok (if used then s' else print (marked_free b) s')

unfoldable pub reach_blocks : Image → List ℕ → State → Outcome State
unfolding reach_block
reach_blocks img [] s = ok s
reach_blocks img (b ∷ bs) s =
    if b == 0
    then reach_blocks img bs s
    else (reach_block img b (print (block b) s) >>= λ s'. reach_blocks img bs s')

-- `disk + b * FS_BLOCK_SIZE` for an `int` of a block; an overflow is no offset on the disk either.
unfoldable pub reach_indir_2 : Image → List ℕ → State → Outcome State
unfolding slice reach_blocks
reach_indir_2 img [] s = ok s
reach_indir_2 img (b ∷ bs) s =
    if b == 0
    then reach_indir_2 img bs s
    else (slice img.disk (b * fs_block_size) fs_block_size >>= λ buf.
        reach_blocks img (decode_addrs buf) s >>= λ s'. reach_indir_2 img bs s')

unfoldable pub reach_file : Image → Inode → State → Outcome State
unfolding slice reach_blocks reach_indir_2
reach_file img i s = reach_blocks img i.direct s >>= λ s_1.
    (if i.indir_1 == 0
      then ok s_1
      else (slice img.disk (i.indir_1 * fs_block_size % 2 ^ 32) fs_block_size >>= λ buf.
          reach_blocks img (decode_addrs buf) s_1))
    >>= λ s_2.
        if i.indir_2 == 0
        then ok s_2
        else (slice img.disk (i.indir_2 * fs_block_size % 2 ^ 32) fs_block_size >>= λ buf.
            reach_indir_2 img (decode_addrs buf) s_2)

-- A write to inode_list; it has `max_inodes + 100` elements.
unfoldable pub push : Image → Entry → State → Outcome State
push img e s =
    if leb (max_inodes img.sb + 100) s.head
    then fault
    else ok (record s { queue = s.queue ++ (e ∷ []); head = s.head + 1 })

-- A valid entry of the directory `inum`.
unfoldable pub reach_entry : Image → ℕ → Dirent → State → Outcome Flow
unfolding bit_set bit_test push
reach_entry img inum de s =
    let s_1 = print (entry de) s in
    if leb (max_inodes img.sb) de.inode
    then ok (next (print (invalid_inode de.inode) s_1))
    else (bit_test s.imap de.inode >>= λ seen.
        if seen
        then ok (fail (print (loop_found inum) s_1))
        else (bit_set s.imap de.inode >>= λ m. test_at img.disk inode_map_at de.inode >>= λ used.
            let s_2 : State = record s_1 { imap = m } in
            push img (record { dir = de.is_dir; inum = de.inode })
              (if used then s_2 else print (inode_free de.inode) s_2)
            >>= λ s_3. ok (next s_3)))

unfoldable pub reach_entries : Image → ℕ → List Dirent → State → Outcome Flow
unfolding reach_entry
reach_entries img inum [] s = ok (next s)
reach_entries img inum (de ∷ des) s =
    if de.valid
    then (reach_entry img inum de s >>= λ flow. onward (λ s'. reach_entries img inum des s') flow)
    else reach_entries img inum des s

unfoldable pub reach_dir : Image → ℕ → Inode → State → Outcome Flow
unfolding slice reach_block reach_entries
reach_dir img inum i s =
    if not (s_isdir i.mode)
    then ok (next (print (not_a_directory inum) s))
    else (reach_block img (direct_0 i) (print (directory inum (direct_0 i)) s) >>= λ s'.
        slice img.disk (direct_0 i * fs_block_size % 2 ^ 32) fs_block_size >>= λ buf.
        reach_entries img inum (decode_dir buf) s')

-- One round of the loop, after `e` has left the queue.
unfoldable pub visit : Image → Entry → State → Outcome Flow
unfolding slice reach_file reach_dir
visit img e s = slice img.disk (inodes_at img.sb + e.inum * 64) 64 >>= λ b.
    if e.dir
    then reach_dir img e.inum (decode_inode b) s
    else (reach_file img (decode_inode b) (print (file e.inum (decode_inode b)) s) >>= λ s'.
        ok (next s'))

-- `while (head != tail)`
unfoldable pub walk_tree : Image → ℕ → State → Outcome Flow
unfolding visit
walk_tree img zero s = elim s.queue [ [] ↦ ok (next s) | _ ∷ _ ↦ hang ]
walk_tree img (suc n) s = elim s.queue [
  | [] ↦ ok (next s)
  | e ∷ rest ↦
      visit img e (record s { queue = rest }) >>= λ flow. onward (λ s'. walk_tree img n s') flow
]

-- The loops at the end: `n` rounds from number `i` on.
unfoldable pub unreachable_inodes : Image → Bytes → (n i : ℕ) → Outcome (List Line)
unfolding bit_test
unreachable_inodes img imap zero i = ok []
unreachable_inodes img imap (suc n) i = bit_test imap i >>= λ seen.
    (if seen then ok false else test_at img.disk inode_map_at i) >>= λ lost.
    unreachable_inodes img imap n (i + 1) >>= λ rest.
    ok (if lost then unreachable_inode i ∷ rest else rest)

unfoldable pub unreachable_blocks : Image → Bytes → (n i : ℕ) → Outcome (List Line)
unfolding bit_test
unreachable_blocks img blkmap zero i = ok []
unreachable_blocks img blkmap (suc n) i = bit_test blkmap i >>= λ seen.
    (if seen then test_at img.disk (block_map_at img.sb) i else ok true) >>= λ used.
    unreachable_blocks img blkmap n (i + 1) >>= λ rest.
    ok (if used then rest else unreachable_block i ∷ rest)

abbrev pub first_block : Super → ℕ
first_block sb = (1 + sb.inode_map_sz + sb.block_map_sz + sb.inode_region_sz) % 2 ^ 32

-- What is printed after the walk.
unfoldable pub finish : Image → Flow → Outcome (List Line)
unfolding unreachable_inodes unreachable_blocks
finish img (fail s) = ok s.out
finish img (next s) = unreachable_inodes img s.imap (max_inodes img.sb - 1) 1 >>= λ lost.
    unreachable_blocks img s.blkmap (img.sb.num_blocks - first_block img.sb) (first_block img.sb)
    >>= λ blocks. ok (s.out ++ (lost ++ blocks))

-- `calloc(size/8192, 1)`
abbrev pub empty_map : Bytes → Bytes
empty_map disk = replicate (length disk / 8192) 0

-- The state before the loop: the root directory is queued and marked.
abbrev pub start : Image → Bytes → List Line → State
start img imap out = record {
  blkmap = empty_map img.disk;
  imap = imap;
  queue = record { dir = true; inum = 1 } ∷ [];
  head = 1;
  out = out;
}

unfoldable pub explore : Image → List Line → Outcome Flow
unfolding bit_set walk_tree
explore img out =
    if leb (2 ^ 31) (max_inodes img.sb + 100)
    then fault
    else (bit_set (empty_map img.disk) 1 >>= λ imap.
        walk_tree img (max_inodes img.sb + 1) (start img imap out))

abbrev pub image_of : Bytes → Image
image_of disk = record { disk = disk; sb = decode_super disk }

unfoldable pub read_img : Bytes → Outcome (List Line)
unfolding set_bits explore finish
read_img disk =
    let img = image_of disk in
    let bits = 8 * fs_block_size in
    if ltb (length disk) 24
    then fault
    else (list_map allocated_inode disk inode_map_at (img.sb.inode_map_sz * bits % 2 ^ 32)
        >>= λ inos.
            list_map allocated_block disk (block_map_at img.sb)
              (img.sb.block_map_sz * bits % 2 ^ 32)
            >>= λ blks. explore img (summary img.sb ∷ (inos ++ blks)) >>= λ flow. finish img flow)
