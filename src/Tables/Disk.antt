-- ===== src/Tables/Disk.antt =====
-- Reads, writes, the searches for a free bit, and update_disk, on well-formed tables and a working
-- device.
use file_system_implementati.Base.{
  ℕ, zero, suc, ◌+◌, ◌^◌, ◌≤◌, ◌<◌, ◌≡◌, refl, Bool-cases, inl, inr, Option, none, some,
  All-get_elem?, arith,
}
use file_system_implementati.Outcome.{Outcome, ok, err, exit, fault, hang, or_exit, >>=-eq-ok}
use file_system_implementati.Exec.{query, lift, pure}
use file_system_implementati.Exec.Triple.{Triple-query, Triple-lift, Triple-pure, Post}
use file_system_implementati.Layout.{Bytes}
use file_system_implementati.Layout.Codec.{IsInode}
use file_system_implementati.Device.{BlockDevice, IsDevice, AreBytes}
use file_system_implementati.Bitmap.{first_clear, bit_test}
use file_system_implementati.Fs.{
  Fs, fs_init, written, inode_at, read_block, write_region, write_block, write_block_unchecked,
  get_next_block, update_disk,
}
use file_system_implementati.Fs.Sync.{IsWf, HasSuper, update_disk_saves}
use file_system_implementati.Tables.{Keeps, Saves, Saved}
use file_system_implementati.Tables.Access.{Any, IsWf-changed, in_bounds-eq-ok}

-- What a result gives.
pub Post-eq-ok :
    {A : Type 0} (Q : A → Type 0) (r : Outcome A) → ((a : A) → r ≡ ok a → Q a) → Post Q r
Post-eq-ok Q (ok a) h = h a refl
Post-eq-ok Q (err e) h = tt
Post-eq-ok Q exit h = tt
Post-eq-ok Q fault h = tt
Post-eq-ok Q hang h = tt

pub first_clear-below : (map : Bytes) (n i k : ℕ) → first_clear map n i ≡ ok k → k < i + n
unfolding first_clear
first_clear-below map zero i k h = absurd (ground arith)
first_clear-below map (suc n) i k h =
    let (used, tested, next) = >>=-eq-ok (bit_test map i) _ h in
    elim (Bool-cases used) [
      | inl set ↦ ground (arith, set, next, first_clear-below map n (i + 1) k)
      | inr clear ↦ ground (arith, clear, next)
    ]

module _ {dev : BlockDevice} where
  -- A call that only reads, with what its result gives.
  pub query-Keeps :
      {A : Type 0} (f : Fs dev → Outcome A) (F : A → Type 0)
      → ((s : Fs dev) → IsWf s → (a : A) → f s ≡ ok a → F a)
      → Keeps (query f) F
  query-Keeps f F h = Triple-query f λ s w. (w, Post-eq-ok _ (f s) λ a e. (w, h s w a e))

  pub read-Keeps : {A : Type 0} (f : Fs dev → Outcome A) → Keeps (query f) Any
  read-Keeps f = query-Keeps f Any λ s w a e. tt

  pub lift-Keeps : {A : Type 0} (r : Outcome A) → Keeps (lift {S = Fs dev} r) Any
  lift-Keeps r = Triple-lift r λ s w. (w, Post-eq-ok _ r λ a e. (w, tt))

  pub pure-Keeps : {A : Type 0} (a : A) → Keeps (pure {S = Fs dev} a) Any
  pure-Keeps a = Triple-pure a λ s w. (w, (w, tt))

  pub inode_at-Keeps : (i : ℕ) → Keeps (query (λ (fs : Fs dev). inode_at fs i)) IsInode
  unfolding inode_at
  inode_at-Keeps i =
      query-Keeps _ IsInode
        λ s w x e. All-get_elem? IsInode s.inodes i w.inodes_ok (in_bounds-eq-ok _ e)

  pub get_next_block-below : (s : Fs dev) (b : ℕ) → IsWf s → get_next_block s ≡ ok b → b < 2 ^ 32
  unfolding get_next_block
  get_next_block-below s b w h =
      omega (arith, w.num_blocks_32, first_clear-below s.block_map s.sb.num_blocks 0 b h)

module _ {dev : BlockDevice} (io : IsDevice dev) where
  pub read_block-Keeps : (b : ℕ) → Keeps (query (λ (fs : Fs dev). read_block fs b)) AreBytes
  unfolding read_block
  read_block-Keeps b =
      query-Keeps _ AreBytes λ s w x e. io.bytes-read s.disk b 1 (or_exit-eq-ok _ e)
    where
      or_exit-eq-ok : {A : Type 0} (o : Option A) {a : A} → or_exit o ≡ ok a → o ≡ some a
      or_exit-eq-ok none e = cc
      or_exit-eq-ok (some x) e = cc

  IsWf-disk :
      (s : Fs dev) (b : Bytes) (lba n : ℕ)
      → IsWf s
      → IsWf (record s { disk = (dev.block_write s.disk b lba n).1 })
  IsWf-disk s b lba n w =
      IsWf-changed s s.inode_map s.block_map s.inodes _ w (w.inode_map_bytes, refl)
        (w.block_map_bytes, refl) (w.inodes_ok, refl) (io.blocks-write_any s.disk b lba n)

  write_region-Keeps : (b : Bytes) (lba n : ℕ) → Keeps (write_region {dev = dev} b lba n) Any
  unfolding write_region
  write_region-Keeps b lba n = record {
    at = λ s w.
        let w' = IsWf-disk s b lba n w in
        (w', Post-eq-ok _ (written (dev.block_write s.disk b lba n).0) λ a e. (w', tt));
  }

  pub write_block-Keeps : (b : Bytes) (n : ℕ) → Keeps (write_block {dev = dev} b n) Any
  unfolding write_block
  write_block-Keeps b n = write_region-Keeps b n 1

  pub write_block_unchecked-Keeps :
      (b : Bytes) (n : ℕ) → Keeps (write_block_unchecked {dev = dev} b n) Any
  unfolding write_block_unchecked
  write_block_unchecked-Keeps b n = record {
    at = λ s w. let w' = IsWf-disk s b n 1 w in (w', (w', tt));
  }

  -- update_disk leaves the state saved.
  pub update_disk-Saves : Saves IsWf (update_disk {dev = dev})
  update_disk-Saves = record { at = λ s w. saved s w (update_disk_saves io s w) }
    where
      saved :
          (s : Fs dev)
          → IsWf s
          → (d : dev.Disk) × (update_disk s ≡ (ok tt, record s { disk = d }))
            × (dev.blocks s.disk ≤ dev.blocks d)
            × (HasSuper dev d s.sb → fs_init dev d ≡ ok (record s { disk = d }))
          → IsWf (update_disk s).1
            × Post
                (λ (a : Unit {0}). IsWf (update_disk s).1 × Saved (update_disk s).1)
                (update_disk s).0
      saved s w (d, run, more, restart) =
          let w' =
            IsWf-changed s s.inode_map s.block_map s.inodes d w (w.inode_map_bytes, refl)
              (w.block_map_bytes, refl) (w.inodes_ok, refl) more in
          rw run (w', (w', restart))
