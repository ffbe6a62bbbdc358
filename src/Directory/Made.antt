-- ===== src/Directory/Made.antt =====
-- A directory and another inode, and what the accesses of homework.c leave of both.
use file_system_implementati.Base.{
  ℕ, ◌*◌, ◌<◌, ◌≡◌, ◌≢◌, refl, ◌∙◌, Bool, true, some, List, length, get_elem?, set, All, All-set,
  All-get_elem?, length-set, get_elem?-set_self, get_elem?-set_ne, length_of_get_elem?, arith,
}
use file_system_implementati.Outcome.{ok}
use file_system_implementati.Exec.Ends.{EndsIn}
use file_system_implementati.Layout.{Dirent, Inode, encode_dir}
use file_system_implementati.Layout.Codec.{IsInode, length-encode_dir}
use file_system_implementati.Device.{BlockDevice, IsDevice}
use file_system_implementati.Bitmap.{bit_test}
use file_system_implementati.Fs.{
  Fs, s_isdir, direct_0, inode_at, update_inode, write_block, set_inode_bit, set_block_bit,
  update_disk,
}
use file_system_implementati.Fs.Sync.{IsWf, update_disk_apart}
use file_system_implementati.Tables.Access.{in_bounds-eq-ok}
use file_system_implementati.Directory.Entries.{IsEntry, all_dirents}
use file_system_implementati.Directory.State.{InDir, InDir-changed, InDir-written}
use file_system_implementati.Directory.Steps.{
  set_inode_bit_runs, set_block_bit_runs, update_inode_runs, write_block_runs,
}

-- The directory, another inode `k` with its bit in the inode map, and block `n` with its bit in the
-- block map.
pub record Made {dev : BlockDevice} (inum b k n : ℕ) (fd : List Dirent) (v u : Bool) (x : Inode)
    (s : Fs dev) : Type 0 where
  pub in_dir : InDir inum b fd s
  pub node : get_elem? s.inodes k ≡ some x
  pub bit : bit_test s.inode_map k ≡ ok v
  pub inode_room : k < 8 * length s.inode_map
  pub block_bit : bit_test s.block_map n ≡ ok u
  pub block_room : n < 8 * length s.block_map

module _ {dev : BlockDevice} (io : IsDevice dev) {inum b k n : ℕ} {fd : List Dirent} {v u : Bool}
    {x : Inode} (apart : k ≢ inum) (s : Fs dev) (h : Made inum b k n fd v u x s) where
  abbrev w : IsWf s
  w = h.in_dir.wf

  at_inum :
      (get_elem? s.inodes inum ≡ some h.in_dir.dir)
      × (s_isdir h.in_dir.dir.mode ≡ true)
      × (direct_0 h.in_dir.dir ≡ b)
  unfolding inode_at
  at_inum = (in_bounds-eq-ok _ h.in_dir.inode, h.in_dir.is_dir, h.in_dir.block)

  -- The directory's inode, when another one changes.
  at_set :
      (y : Inode)
      → (get_elem? (set s.inodes k y) inum ≡ some h.in_dir.dir)
        × (s_isdir h.in_dir.dir.mode ≡ true)
        × (direct_0 h.in_dir.dir ≡ b)
  at_set y = (get_elem?-set_ne s.inodes k inum y apart ∙ at_inum.0, at_inum.1, at_inum.2)

  pub set_inode_bit-Made : EndsIn (set_inode_bit k) (Made inum b k n fd true u x) s
  set_inode_bit-Made =
      let (m, run, marks) = set_inode_bit_runs s k h.inode_room w.inode_map_bytes in
      (
        record s { inode_map = m },
        run,
        record {
          in_dir =
              InDir-changed s m s.block_map s.inodes s.disk h.in_dir.dir h.in_dir marks.bytes
                (w.block_map_bytes, refl) (w.inodes_ok, refl) at_inum (omega arith) refl;
          node = h.node;
          bit = marks.bit;
          inode_room = omega (arith, h.inode_room, marks.bytes.1);
          block_bit = h.block_bit;
          block_room = h.block_room;
        },
      )

  pub set_block_bit-Made : EndsIn (set_block_bit n) (Made inum b k n fd v true x) s
  set_block_bit-Made =
      let (m, run, marks) = set_block_bit_runs s n h.block_room w.block_map_bytes in
      (
        record s { block_map = m },
        run,
        record {
          in_dir =
              InDir-changed s s.inode_map m s.inodes s.disk h.in_dir.dir h.in_dir
                (w.inode_map_bytes, refl) marks.bytes (w.inodes_ok, refl) at_inum (omega arith)
                refl;
          node = h.node;
          bit = h.bit;
          inode_room = h.inode_room;
          block_bit = marks.bit;
          block_room = omega (arith, h.block_room, marks.bytes.1);
        },
      )

  pub update_inode-Made :
      (f : Inode → Inode)
      → ((y : Inode) → IsInode y → IsInode (f y))
      → EndsIn (update_inode k f) (Made inum b k n fd v u (f x)) s
  update_inode-Made f hf = (
    record s { inodes = set s.inodes k (f x) },
    update_inode_runs s k f h.node,
    record {
      in_dir =
          InDir-changed s s.inode_map s.block_map (set s.inodes k (f x)) s.disk h.in_dir.dir
            h.in_dir (w.inode_map_bytes, refl) (w.block_map_bytes, refl)
            (
              All-set IsInode s.inodes k (f x) w.inodes_ok
                  (hf x (All-get_elem? IsInode s.inodes k w.inodes_ok h.node)),
              length-set s.inodes k (f x),
            )
            (at_set (f x)) (omega arith) refl;
      node = get_elem?-set_self s.inodes k (f x) (length_of_get_elem? s.inodes k h.node);
      bit = h.bit;
      inode_room = h.inode_room;
      block_bit = h.block_bit;
      block_room = h.block_room;
    },
  )

  -- The directory's block is written.
  pub write_block-Made :
      (fd' : List Dirent)
      → All IsEntry fd'
      → length fd' ≡ 32
      → EndsIn (write_block (encode_dir fd') b) (Made inum b k n fd' v u x) s
  write_block-Made fd' es size =
      let len = length-encode_dir fd' size (all_dirents fd' es) in
      (
        record s { disk = (dev.block_write s.disk (encode_dir fd') b 1).1 },
        write_block_runs s io (encode_dir fd') b h.in_dir.inside len,
        record {
          in_dir = InDir-written io s fd' h.in_dir es size;
          node = h.node;
          bit = h.bit;
          inode_room = h.inode_room;
          block_bit = h.block_bit;
          block_room = h.block_room;
        },
      )

  pub update_disk-Made : EndsIn update_disk (Made inum b k n fd v u x) s
  update_disk-Made =
      let (d, run, blocks, reads) = update_disk_apart io s w in
      (
        record s { disk = d },
        run,
        record {
          in_dir =
              InDir-changed s s.inode_map s.block_map s.inodes d h.in_dir.dir h.in_dir
                (w.inode_map_bytes, refl) (w.block_map_bytes, refl) (w.inodes_ok, refl) at_inum
                (omega (arith, blocks)) (reads b h.in_dir.past h.in_dir.inside);
          node = h.node;
          bit = h.bit;
          inode_room = h.inode_room;
          block_bit = h.block_bit;
          block_room = h.block_room;
        },
      )
