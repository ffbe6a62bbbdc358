-- ===== src/Tables/Access.antt =====
-- The accesses that the functions share, on well-formed tables.
use file_system_implementati.Base.{
  ℕ, ◌≤◌, ◌≡◌, refl, ◌∙◌, Option, none, some, List, All, All-set, All-get_elem?, length, set,
  get_elem?, length-set, arith,
}
use file_system_implementati.Outcome.{Outcome, ok, err, exit, fault, hang, in_bounds}
use file_system_implementati.Exec.{continue}
use file_system_implementati.Exec.Triple.{Post}
use file_system_implementati.Layout.{Bytes, Inode}
use file_system_implementati.Layout.Codec.{IsInode}
use file_system_implementati.Device.{BlockDevice, AreBytes}
use file_system_implementati.Bitmap.{bit_set, bit_clear}
use file_system_implementati.Bitmap.Laws.{bit_set-AreBytes, bit_clear-AreBytes}
use file_system_implementati.Fs.{
  Fs, update_inode, set_inode_bit, clear_inode_bit, set_block_bit, clear_block_bit,
}
use file_system_implementati.Fs.Sync.{IsWf}
use file_system_implementati.Tables.{Keeps}

-- A fact that says nothing.
abbrev pub Any : {A : Type 0} → A → Type 0
Any a = Unit

pub in_bounds-eq-ok : {A : Type 0} (o : Option A) {a : A} → in_bounds o ≡ ok a → o ≡ some a
in_bounds-eq-ok none e = cc
in_bounds-eq-ok (some x) e = cc

module _ {dev : BlockDevice} where
  -- Maps, inodes and a disk in place of those of a well-formed state.
  pub IsWf-changed :
      (s : Fs dev) (inode_map block_map : Bytes) (nodes : List Inode) (d : dev.Disk)
      → IsWf s
      → AreBytes inode_map × (length inode_map ≡ length s.inode_map)
      → AreBytes block_map × (length block_map ≡ length s.block_map)
      → All IsInode nodes × (length nodes ≡ length s.inodes)
      → dev.blocks s.disk ≤ dev.blocks d
      → IsWf (record s { inode_map = inode_map; block_map = block_map; inodes = nodes; disk = d })
  IsWf-changed s inode_map block_map nodes d w im bm ns more = record {
    inode_map_length = im.1 ∙ w.inode_map_length;
    inode_map_bytes = im.0;
    block_map_length = bm.1 ∙ w.block_map_length;
    block_map_bytes = bm.0;
    inodes_length = ns.1 ∙ w.inodes_length;
    inodes_ok = ns.0;
    inode_map_small = w.inode_map_small;
    block_map_small = w.block_map_small;
    inodes_small = w.inodes_small;
    num_blocks_32 = w.num_blocks_32;
    fits = omega (arith, w.fits, more);
  }

  -- An access that changes the state by `g` where it is in bounds.
  continue-IsWf :
      {A : Type 0} (r : Outcome A) (g : A → Fs dev → Fs dev) (s : Fs dev)
      → IsWf s
      → ((a : A) → r ≡ ok a → IsWf (g a s))
      → let m = continue r (λ a s. (ok tt, g a s)) s in
        IsWf m.1 × Post (λ (u : Unit {0}). IsWf m.1 × Any u) m.0
  continue-IsWf (ok a) g s w h = (h a refl, (h a refl, tt))
  continue-IsWf (err e) g s w h = (w, tt)
  continue-IsWf exit g s w h = (w, tt)
  continue-IsWf fault g s w h = (w, tt)
  continue-IsWf hang g s w h = (w, tt)

  pub update_inode-Keeps :
      (i : ℕ) (f : Inode → Inode)
      → ((x : Inode) → IsInode x → IsInode (f x))
      → Keeps (update_inode {dev = dev} i f) Any
  unfolding update_inode
  update_inode-Keeps i f hf = record {
    at = λ s w.
        continue-IsWf (in_bounds (get_elem? s.inodes i))
          (λ x s. record s { inodes = set s.inodes i (f x) }) s w
          λ x e.
            IsWf-changed s s.inode_map s.block_map (set s.inodes i (f x)) s.disk w
              (w.inode_map_bytes, refl) (w.block_map_bytes, refl)
              (
                All-set IsInode s.inodes i (f x) w.inodes_ok
                    (hf x (All-get_elem? IsInode s.inodes i w.inodes_ok (in_bounds-eq-ok _ e))),
                length-set s.inodes i (f x),
              )
              (omega arith);
  }

  -- The maps with one bit changed.
  pub set_inode_bit-Keeps : (i : ℕ) → Keeps (set_inode_bit {dev = dev} i) Any
  unfolding set_inode_bit
  set_inode_bit-Keeps i = record {
    at = λ s w.
        continue-IsWf (bit_set s.inode_map i) (λ m s. record s { inode_map = m }) s w
          λ m e.
            IsWf-changed s m s.block_map s.inodes s.disk w
              (bit_set-AreBytes s.inode_map i w.inode_map_bytes e) (w.block_map_bytes, refl)
              (w.inodes_ok, refl) (omega arith);
  }

  pub clear_inode_bit-Keeps : (i : ℕ) → Keeps (clear_inode_bit {dev = dev} i) Any
  unfolding clear_inode_bit
  clear_inode_bit-Keeps i = record {
    at = λ s w.
        continue-IsWf (bit_clear s.inode_map i) (λ m s. record s { inode_map = m }) s w
          λ m e.
            IsWf-changed s m s.block_map s.inodes s.disk w
              (bit_clear-AreBytes s.inode_map i w.inode_map_bytes e) (w.block_map_bytes, refl)
              (w.inodes_ok, refl) (omega arith);
  }

  pub set_block_bit-Keeps : (i : ℕ) → Keeps (set_block_bit {dev = dev} i) Any
  unfolding set_block_bit
  set_block_bit-Keeps i = record {
    at = λ s w.
        continue-IsWf (bit_set s.block_map i) (λ m s. record s { block_map = m }) s w
          λ m e.
            IsWf-changed s s.inode_map m s.inodes s.disk w (w.inode_map_bytes, refl)
              (bit_set-AreBytes s.block_map i w.block_map_bytes e) (w.inodes_ok, refl)
              (omega arith);
  }

  pub clear_block_bit-Keeps : (i : ℕ) → Keeps (clear_block_bit {dev = dev} i) Any
  unfolding clear_block_bit
  clear_block_bit-Keeps i = record {
    at = λ s w.
        continue-IsWf (bit_clear s.block_map i) (λ m s. record s { block_map = m }) s w
          λ m e.
            IsWf-changed s s.inode_map m s.inodes s.disk w (w.inode_map_bytes, refl)
              (bit_clear-AreBytes s.block_map i w.block_map_bytes e) (w.inodes_ok, refl)
              (omega arith);
  }
