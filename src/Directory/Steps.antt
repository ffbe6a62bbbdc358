-- ===== src/Directory/Steps.antt =====
-- The accesses of homework.c where they succeed, with the state that they leave.
use file_system_implementati.Base.{
  ℕ, ◌*◌, ◌/◌, ◌<◌, ◌≡◌, ap, inl, inr, Bool, true, false, some, length, get_elem?, set,
  Option-cases, arith, length_of_get_elem?, ◌==◌,
}
use file_system_implementati.Outcome.{ok, in_bounds}
use file_system_implementati.Exec.{continue}
use file_system_implementati.Layout.{Bytes, Inode}
use file_system_implementati.Device.{BlockDevice, IsDevice, AreBytes}
use file_system_implementati.Bitmap.{bit_test}
use file_system_implementati.Bitmap.Laws.{
  bit_set_in_bounds, bit_clear_in_bounds, bit_set-AreBytes, bit_clear-AreBytes, bit_test-bit_set,
  bit_test-bit_clear,
}
use file_system_implementati.Fs.{
  Fs, written, update_inode, write_region, write_block, set_inode_bit, clear_inode_bit,
  set_block_bit, clear_block_bit,
}

pub bit_test-eq-ok : (map : Bytes) (i : ℕ) {v : Bool} → bit_test map i ≡ ok v → i < 8 * length map
unfolding bit_test
bit_test-eq-ok map i h = elim (Option-cases (get_elem? map (i / 8))) [
  | inl out ↦ absurd (ground arith)
  | inr (x, at) ↦ omega (arith, length_of_get_elem? map (i / 8) at)
]

==_refl : (i : ℕ) → (i == i) ≡ true
==_refl i = ground arith

-- A map after bit_set or bit_clear of bit `i`, with `v` the new value.
pub record Marks (map : Bytes) (i : ℕ) (v : Bool) (m : Bytes) : Type 0 where
  pub bytes : AreBytes m × (length m ≡ length map)
  pub bit : bit_test m i ≡ ok v

module _ {dev : BlockDevice} (s : Fs dev) where
  pub set_inode_bit_runs :
      (i : ℕ)
      → i < 8 * length s.inode_map
      → AreBytes s.inode_map
      → (m : Bytes) × (set_inode_bit i s ≡ (ok tt, record s { inode_map = m }))
        × Marks s.inode_map i true m
  unfolding set_inode_bit
  set_inode_bit_runs i h b =
      let (m, e) = bit_set_in_bounds s.inode_map i h in
      (
        m,
        ap (λ r. continue r (λ m s. (ok tt, record s { inode_map = m })) s) e,
        record {
          bytes = bit_set-AreBytes s.inode_map i b e;
          bit = ground (arith, bit_test-bit_set s.inode_map i i b e);
        },
      )

  pub clear_inode_bit_runs :
      (i : ℕ)
      → i < 8 * length s.inode_map
      → AreBytes s.inode_map
      → (m : Bytes) × (clear_inode_bit i s ≡ (ok tt, record s { inode_map = m }))
        × Marks s.inode_map i false m
  unfolding clear_inode_bit
  clear_inode_bit_runs i h b =
      let (m, e) = bit_clear_in_bounds s.inode_map i h in
      (
        m,
        ap (λ r. continue r (λ m s. (ok tt, record s { inode_map = m })) s) e,
        record {
          bytes = bit_clear-AreBytes s.inode_map i b e;
          bit = ground (arith, bit_test-bit_clear s.inode_map i i b e);
        },
      )

  pub set_block_bit_runs :
      (i : ℕ)
      → i < 8 * length s.block_map
      → AreBytes s.block_map
      → (m : Bytes) × (set_block_bit i s ≡ (ok tt, record s { block_map = m }))
        × Marks s.block_map i true m
  unfolding set_block_bit
  set_block_bit_runs i h b =
      let (m, e) = bit_set_in_bounds s.block_map i h in
      (
        m,
        ap (λ r. continue r (λ m s. (ok tt, record s { block_map = m })) s) e,
        record {
          bytes = bit_set-AreBytes s.block_map i b e;
          bit = ground (arith, bit_test-bit_set s.block_map i i b e);
        },
      )

  pub clear_block_bit_runs :
      (i : ℕ)
      → i < 8 * length s.block_map
      → AreBytes s.block_map
      → (m : Bytes) × (clear_block_bit i s ≡ (ok tt, record s { block_map = m }))
        × Marks s.block_map i false m
  unfolding clear_block_bit
  clear_block_bit_runs i h b =
      let (m, e) = bit_clear_in_bounds s.block_map i h in
      (
        m,
        ap (λ r. continue r (λ m s. (ok tt, record s { block_map = m })) s) e,
        record {
          bytes = bit_clear-AreBytes s.block_map i b e;
          bit = ground (arith, bit_test-bit_clear s.block_map i i b e);
        },
      )

  pub update_inode_runs :
      (i : ℕ) (f : Inode → Inode) {x : Inode}
      → get_elem? s.inodes i ≡ some x
      → update_inode i f s ≡ (ok tt, record s { inodes = set s.inodes i (f x) })
  unfolding update_inode
  update_inode_runs i f e =
      ap
        (λ o. continue (in_bounds o) (λ x s. (ok tt, record s { inodes = set s.inodes i (f x) })) s)
        e

  pub write_block_runs :
      (io : IsDevice dev) (bytes : Bytes) (b : ℕ)
      → b < dev.blocks s.disk
      → length bytes ≡ 1024
      → write_block bytes b s ≡ (ok tt, record s { disk = (dev.block_write s.disk bytes b 1).1 })
  unfolding write_block write_region
  write_block_runs io bytes b h n =
      ap (λ d. (written d, record s { disk = (dev.block_write s.disk bytes b 1).1 }))
        (io.writes s.disk bytes b 1 (omega (arith, h)) (omega (arith, n)))
