-- ===== src/Directory/Create.antt =====
-- What create of homework.c does to the directory in which it makes an entry.
use file_system_implementati.Base.{
  ℕ, zero, suc, ◌+◌, ◌*◌, ◌%◌, ◌^◌, ◌<◌, ◌≡◌, ◌≢◌, refl, ap, sym, ◌∙◌, inl, inr, Bool, true, false,
  some, List, length, get_elem?, set, All, All-set, All-get_elem?, length-set, get_elem?-get_or,
  get_or, Bool-cases, arith, if◌then◌else◌,
}
use file_system_implementati.Base.Int.{pos}
use file_system_implementati.Outcome.{ok, err, enoent, in_bounds, >>=-eq-ok}
use file_system_implementati.Exec.{pure}
use file_system_implementati.Exec.Bind.{lift-bind_ok, query-bind, passed}
use file_system_implementati.Layout.{Bytes, Dirent, Inode}
use file_system_implementati.Device.{BlockDevice, IsDevice}
use file_system_implementati.Bitmap.{bit_test, first_clear}
use file_system_implementati.FilePath.{split_path}
use file_system_implementati.Fs.{Fs, inode_at, get_next_inode, get_next_block, num_inodes}
use file_system_implementati.Fs.Sync.{IsWf}
use file_system_implementati.Attr.{fill_stat}
use file_system_implementati.Lookup.{translate, lookup}
use file_system_implementati.Lookup.Tree.{matches-named}
use file_system_implementati.Create.{
  Caller, new_inode, new_entry, add_block, create_at, create, free_entry, must_not_exist,
}
use file_system_implementati.Tables.Disk.{first_clear-below}
use file_system_implementati.Tables.Inodes.{new_inode-IsInode, first-IsInode}
use file_system_implementati.Directory.Entries.{
  IsEntry, IsName, IsEntry-strcpy, c_string-strcpy, find_entry-set_apart, find_entry-set_self,
  free_entry_lem, matches-free, matches-named_other,
}
use file_system_implementati.Directory.State.{InDir, InDir-entries, lookup-InDir}
use file_system_implementati.Directory.Steps.{bit_test-eq-ok}
use file_system_implementati.Exec.Ends.{EndsIn, EndsIn-bind, EndsIn-lift, EndsIn-query}
use file_system_implementati.Directory.Made.{
  Made, set_inode_bit-Made, set_block_bit-Made, update_inode-Made, write_block-Made,
  update_disk-Made,
}

-- The inode of the new file or directory, in block `n`.
abbrev pub made : Caller → ℕ → Bool → ℕ → Inode → Inode
made ctx mode is_dir n x =
    let y = new_inode ctx mode x in
    if is_dir then record y { direct = set y.direct 0 n; size = pos 1024 } else y

module _ {dev : BlockDevice} (io : IsDevice dev) {inum b k n : ℕ} (apart : k ≢ inum) where
  add_block-Made :
      {fd : List Dirent} {v u : Bool} {x : Inode} (is_dir : Bool) (s : Fs dev)
      → n < 2 ^ 32
      → Made inum b k n fd v u x s
      → EndsIn
          (add_block is_dir k n)
          (Made inum b k n fd v
            (if is_dir then true else u)
            (if is_dir then record x { direct = set x.direct 0 n; size = pos 1024 } else x))
          s
  unfolding add_block pure
  add_block-Made false s small h = (s, refl, h)
  add_block-Made true s small h =
      EndsIn-bind _ _ s (set_block_bit-Made io apart s h)
        λ t g. update_inode-Made io apart t g _ λ y hy. first-IsInode y hy n small

  create_at-Made :
      {fd : List Dirent} {v u : Bool} {x : Inode} (ctx : Caller) (mode : ℕ) (is_dir : Bool)
      (leaf : Bytes) (i : ℕ) (e : Dirent) (s : Fs dev)
      → mode < 2 ^ 32
      → n < 2 ^ 32
      → k < 2 ^ 30
      → IsName leaf
      → get_elem? fd i ≡ some e
      → Made inum b k n fd v u x s
      → EndsIn
          (create_at ctx mode is_dir inum leaf fd i k n)
          (Made inum b k n
            (set fd i (new_entry is_dir k leaf e))
            true
            (if is_dir then true else u)
            (made ctx mode is_dir n x))
          s
  unfolding create_at
  create_at-Made {fd} {v} {u} {x} ctx mode is_dir leaf i e s m small small' name at h =
      EndsIn-bind _ _ s (set_inode_bit-Made io apart s h) λ s1 h1.
        EndsIn-bind _ _ s1
          (update_inode-Made io apart s1 h1 _ λ y hy. new_inode-IsInode y hy ctx mode m)
          λ s2 h2. EndsIn-lift (in_bounds (get_elem? fd i)) e _ s2 (ap in_bounds at) (
            EndsIn-query (λ fs. inode_at fs inum) h2.in_dir.dir _ s2 h2.in_dir.inode
              (rw h2.in_dir.block (
                EndsIn-bind _ _ s2 (write_block-Made io apart s2 h2 _ es size) λ s3 h3.
                  EndsIn-bind _ _ s3 (add_block-Made is_dir s3 small h3)
                    λ s4 h4. update_disk-Made io apart s4 h4)))
    where
      old : All IsEntry fd × (length fd ≡ 32)
      old = InDir-entries io s h.in_dir

      es : All IsEntry (set fd i (new_entry is_dir k leaf e))
      es =
          let was = All-get_elem? IsEntry fd i old.0 at in
          All-set IsEntry fd i _ old.0
            (IsEntry-strcpy true is_dir k e.name leaf small' was.dirent.name was.bytes name)

      size : length (set fd i (new_entry is_dir k leaf e)) ≡ 32
      size = length-set fd i _ ∙ old.1

-- What create leaves: the directory `inum` in block `b` has the new name with inode `k`, which was free
-- and is now used, and finds every other name as before. The inode has the mode, the low 16 bits of
-- the caller's uid and gid, the low 32 bits of the time as its ctime and mtime, and the size 0, a
-- directory 1024 bytes in its first block `n`, and the block pointers that it had otherwise; fill_stat,
-- the end of fs_getattr, reports it so. Block `n` was free and is now used if it is a directory.
pub record Created {dev : BlockDevice} (ctx : Caller) (mode : ℕ) (is_dir : Bool) (inum b : ℕ)
    (leaf : Bytes) (k n : ℕ) (fs fs' : Fs dev) : Type 0 where
  pub entries : List Dirent
  pub in_dir : InDir inum b entries fs'
  pub new : lookup fs' inum leaf ≡ ok k
  pub others : (name : Bytes) → name ≢ leaf → lookup fs' inum name ≡ lookup fs inum name
  pub was_free : bit_test fs.inode_map k ≡ ok false
  pub now_used : bit_test fs'.inode_map k ≡ ok true
  pub block_was_free : bit_test fs.block_map n ≡ ok false
  pub block_used : bit_test fs'.block_map n ≡ ok is_dir
  pub old : Inode
  pub was : inode_at fs k ≡ ok old
  pub node :
      inode_at fs' k
      ≡ ok (record {
        uid = ctx.uid % 2 ^ 16;
        gid = ctx.gid % 2 ^ 16;
        mode = mode;
        ctime = ctx.time % 2 ^ 32;
        mtime = ctx.time % 2 ^ 32;
        size = if is_dir then pos 1024 else pos 0;
        direct = if is_dir then set old.direct 0 n else old.direct;
        indir_1 = old.indir_1;
        indir_2 = old.indir_2;
        pad = old.pad;
      })
  pub stat :
      fill_stat fs' k
      ≡ ok (record {
        st_ino = k;
        st_mode = mode;
        st_uid = ctx.uid % 2 ^ 16;
        st_gid = ctx.gid % 2 ^ 16;
        st_size = if is_dir then pos 1024 else pos 0;
        st_ctime = ctx.time % 2 ^ 32;
        st_mtime = ctx.time % 2 ^ 32;
        st_atime = ctx.time % 2 ^ 32;
        st_nlink = 1;
      })

is_dir_used : (v : Bool) → (if v then true else false) ≡ v
is_dir_used true = refl
is_dir_used false = refl

-- The inode and what fill_stat says of it, field by field.
created-node :
    {dev : BlockDevice} (fs : Fs dev) (ctx : Caller) (mode : ℕ) (is_dir : Bool) (k n : ℕ)
    (old : Inode)
    → inode_at fs k ≡ ok (made ctx mode is_dir n old)
    → (inode_at fs k
        ≡ ok (record {
          uid = ctx.uid % 2 ^ 16;
          gid = ctx.gid % 2 ^ 16;
          mode = mode;
          ctime = ctx.time % 2 ^ 32;
          mtime = ctx.time % 2 ^ 32;
          size = if is_dir then pos 1024 else pos 0;
          direct = if is_dir then set old.direct 0 n else old.direct;
          indir_1 = old.indir_1;
          indir_2 = old.indir_2;
          pad = old.pad;
        }))
      × (fill_stat fs k
          ≡ ok (record {
            st_ino = k;
            st_mode = mode;
            st_uid = ctx.uid % 2 ^ 16;
            st_gid = ctx.gid % 2 ^ 16;
            st_size = if is_dir then pos 1024 else pos 0;
            st_ctime = ctx.time % 2 ^ 32;
            st_mtime = ctx.time % 2 ^ 32;
            st_atime = ctx.time % 2 ^ 32;
            st_nlink = 1;
          }))
unfolding fill_stat
created-node fs ctx mode true k n old e = (e, rw e refl)
created-node fs ctx mode false k n old e = (e, rw e refl)

first_clear-clear :
    (map : Bytes) (n i k : ℕ) → first_clear map n i ≡ ok k → bit_test map k ≡ ok false
unfolding first_clear
first_clear-clear map zero i k h = absurd (ground arith)
first_clear-clear map (suc n) i k h =
    let (used, tested, next) = >>=-eq-ok (bit_test map i) _ h in
    elim (Bool-cases used) [
      | inl set ↦ ground (arith, set, next, first_clear-clear map n (i + 1) k)
      | inr clear ↦ let e : i ≡ k = ground (arith, clear, next) in rw (← e, tested, clear) refl
    ]

module _ {dev : BlockDevice} (io : IsDevice dev) where
  -- The allocator's inode stands in the table.
  next_inode :
      (fs : Fs dev) (k : ℕ)
      → IsWf fs
      → get_next_inode fs ≡ ok k
      → (k < length fs.inodes) × (k < 2 ^ 30) × (bit_test fs.inode_map k ≡ ok false)
  unfolding get_next_inode
  next_inode fs k w h =
      let below = first_clear-below fs.inode_map (num_inodes fs.sb) 0 k h in
      (
        omega (arith, w.inodes_length, w.inodes_small, below),
        omega (arith, w.inodes_small, below),
        first_clear-clear _ _ 0 k h,
      )

  next_block :
      (fs : Fs dev) (n : ℕ)
      → IsWf fs
      → get_next_block fs ≡ ok n
      → (n < 2 ^ 32) × (n < 8 * length fs.block_map) × (bit_test fs.block_map n ≡ ok false)
  unfolding get_next_block
  next_block fs n w h = (
    omega (arith, w.num_blocks_32, first_clear-below fs.block_map fs.sb.num_blocks 0 n h),
    bit_test-eq-ok _ n (first_clear-clear _ _ 0 n h),
    first_clear-clear _ _ 0 n h,
  )

  named-new :
      (fs fs' : Fs dev) {inum b k : ℕ} {fd : List Dirent} {leaf : Bytes} (i : ℕ) (is_dir : Bool)
      (e : Dirent)
      → InDir inum b fd fs
      → InDir inum b (set fd i (new_entry is_dir k leaf e)) fs'
      → IsName leaf
      → get_elem? fd i ≡ some e
      → e.valid ≡ false
      → lookup fs inum leaf ≡ err enoent
      → (lookup fs' inum leaf ≡ ok k)
        × ((name : Bytes) → name ≢ leaf → lookup fs' inum name ≡ lookup fs inum name)
  named-new fs fs' {fd = fd} {leaf = leaf} i is_dir e h h' is_name at free none =
      let is_leaf = c_string-strcpy e.name leaf is_name in
      (
        lookup-InDir fs' leaf h'
            ∙ find_entry-set_self leaf fd i e _ at (sym (lookup-InDir fs leaf h) ∙ none)
                (matches-named leaf _ refl is_leaf),
        λ name other.
            lookup-InDir fs' name h'
            ∙ find_entry-set_apart name fd i e _ at (matches-free name e free)
                (matches-named_other name _ λ q. other (sym q ∙ is_leaf))
            ∙ sym (lookup-InDir fs name h),
      )

  -- When the tables are well formed and every check of create passes, because the parent is the
  -- directory `inum`, in a block of the disk behind the tables with the entries `fd`, its inode is
  -- marked as used, the path and the name in the directory are free, and an entry, an inode and a
  -- block are left, and the name has at most 27 characters and the mode 32 bits,
  -- then on a working device create returns 0, and afterwards lookup finds in the directory the new
  -- name with the inode that get_next_inode gave, which was free and is now used, and it finds every
  -- other name as before. The inode has the mode, the low 16 bits of the caller's uid and gid, the low
  -- 32 bits of the time as ctime and mtime, and the size 0, or for a directory 1024 and the block of
  -- get_next_block as its first; its other pointers are what they were, and fill_stat reports it so.
  -- That block was free and is now used for a directory, and still free for a file.
  pub create_makes :
      (fs : Fs dev) (ctx : Caller) (path : Bytes) (mode : ℕ) (is_dir : Bool) {parent leaf : Bytes}
      {inum b i k n : ℕ} {fd : List Dirent}
      → InDir inum b fd fs
      → bit_test fs.inode_map inum ≡ ok true
      → split_path path ≡ ok (parent, leaf)
      → IsName leaf
      → mode < 2 ^ 32
      → translate fs parent ≡ ok inum
      → must_not_exist (translate fs path) ≡ ok tt
      → lookup fs inum leaf ≡ err enoent
      → free_entry fd 0 ≡ ok i
      → get_next_inode fs ≡ ok k
      → get_next_block fs ≡ ok n
      → (fs' : Fs dev) × (create ctx path mode is_dir fs ≡ (ok tt, fs'))
        × Created ctx mode is_dir inum b leaf k n fs fs'
  unfolding create inode_at
  create_makes fs ctx path mode is_dir {parent} {leaf} {inum} {b} {i} {k} {n} {fd} h used split name
        m to_parent free_path none free_at ek en =
      let (in_table, small, clear) = next_inode fs k h.wf ek in
      let (small', room, free_block) = next_block fs n h.wf en in
      let (e, at, free) = free_entry_lem fd free_at in
      let apart : k ≢ inum = λ p. cc in
      let start : Made inum b k n fd false false (get_or fs.inodes k h.dir) fs = record {
        in_dir = h;
        node = get_elem?-get_or fs.inodes k h.dir in_table;
        bit = clear;
        inode_room = bit_test-eq-ok _ k clear;
        block_bit = free_block;
        block_room = room;
      } in
      let (fs', run, end) =
        create_at-Made io apart ctx mode is_dir leaf i e fs m small' small name at start in
      let (new, others) = named-new fs fs' i is_dir e h end.in_dir name at free none in
      let filled =
        created-node fs' ctx mode is_dir k n (get_or fs.inodes k h.dir) (ap in_bounds end.node) in
      (
        fs',
        lift-bind_ok _ _ fs split
            ∙ query-bind _ _ fs to_parent
            ∙ query-bind _ _ fs h.inode
            ∙ passed _ _ _ fs h.is_dir
            ∙ query-bind _ _ fs free_path
            ∙ query-bind _ _ fs (rw h.block h.reads)
            ∙ lift-bind_ok _ _ fs free_at
            ∙ query-bind _ _ fs ek
            ∙ query-bind _ _ fs en
            ∙ run,
        record {
          entries = _;
          in_dir = end.in_dir;
          new = new;
          others = others;
          was_free = clear;
          now_used = end.bit;
          block_was_free = free_block;
          block_used = end.block_bit ∙ ap ok (is_dir_used is_dir);
          old = get_or fs.inodes k h.dir;
          was = ap in_bounds start.node;
          node = filled.0;
          stat = filled.1;
        },
      )
