-- ===== src/ReadImg/Walk.antt =====
-- The whole program of read-img.c ends on every image.
use file_system_implementati.Base.{
  ℕ, zero, suc, ◌+◌, ◌-◌, ◌*◌, ◌%◌, ◌^◌, ◌≤◌, ◌<◌, ◌≢◌, true, false, List, [], ◌∷◌, ◌++◌, length,
  leb, ltb, if◌then◌else◌, arith, All-replicate,
}
use file_system_implementati.Outcome.{Outcome, ok, hang, ◌>>=◌}
use file_system_implementati.Layout.{Bytes, fs_block_size}
use file_system_implementati.Device.{AreBytes}
use file_system_implementati.Bitmap.{bit_set, bit_test}
use file_system_implementati.Bitmap.Laws.{bit_set-AreBytes}
use file_system_implementati.ReadImg.{
  Image, Entry, Line, State, Flow, onward, next, fail, test_at, list_map, set_bits, visit,
  walk_tree, max_inodes, inode_map_at, block_map_at, unreachable_inodes, unreachable_blocks,
  first_block, finish, explore, empty_map, start, image_of, read_img, allocated_inode,
  allocated_block, summary,
}
use file_system_implementati.ReadImg.Ends.{
  Ends, ends, errs, exits, faults, Ends-onward, Ends-bind, Any, Ends-bit_test, Ends-bit_set,
  Ends-test,
}
use file_system_implementati.ReadImg.Queue.{unseen, unseen-le, FlowMoves, state_of, visit-Moves}

module _ (img : Image) where
  walk_tree-Ends :
      (n : ℕ) (s : State)
      → AreBytes s.imap
      → length s.queue + unseen s.imap (max_inodes img.sb) ≤ n
      → Ends Any (walk_tree img n s)
  unfolding walk_tree state_of
  walk_tree-Ends zero s bytes h =
      elim s.queue
          as (λ (q : List Entry).
            length q ≤ 0 → Ends Any (elim q [ [] ↦ ok (next s) | _ ∷ _ ↦ hang ])) [
              | [] ↦ λ h. ends tt
              | e ∷ rest ↦ λ h. absurd (omega arith)
            ]
        (omega arith)
  walk_tree-Ends (suc n) s bytes h =
      elim s.queue
          as (λ (q : List Entry).
            length q + unseen s.imap (max_inodes img.sb) ≤ suc n
            → Ends Any (elim q [
              | [] ↦ ok (next s)
              | e ∷ rest ↦ visit img e (record s { queue = rest }) >>= λ flow.
                  onward (λ s'. walk_tree img n s') flow
            ])) [
              | [] ↦ λ h. ends tt
              | e ∷ rest ↦ λ h.
                  let s' : State = record s { queue = rest } in
                  Ends-bind (visit img e s') _ (visit-Moves img e s' bytes) λ flow _ moved.
                    Ends-onward (FlowMoves (max_inodes img.sb) s') (λ t. walk_tree img n t) flow
                      moved (λ t (bytes', _, work). walk_tree-Ends n t bytes' (omega arith))
                      (λ t _. tt)
            ]
        h

  explore-Ends : (out : List Line) → Ends Any (explore img out)
  unfolding explore
  explore-Ends out =
      Ends-test (leb (2 ^ 31) (max_inodes img.sb + 100)) _ _ (λ _. faults)
        (λ _.
          Ends-bind (bit_set (empty_map img.disk) 1) _ (Ends-bit_set (empty_map img.disk) 1)
            λ m e _.
              walk_tree-Ends (max_inodes img.sb + 1) (start img m out)
                (bit_set-AreBytes (empty_map img.disk) 1
                  (All-replicate {0, 0} (λ b. b < 256) _ 0 (omega arith)) e).0
                (omega (arith, unseen-le m (max_inodes img.sb))))

  unreachable_inodes-Ends : (m : Bytes) (n i : ℕ) → Ends Any (unreachable_inodes img m n i)
  unfolding unreachable_inodes
  unreachable_inodes-Ends m zero i = ends tt
  unreachable_inodes-Ends m (suc n) i = Ends-bind (bit_test m i) _ (Ends-bit_test m i) λ seen _ _.
      Ends-bind {P = Any} (if seen then ok false else test_at img.disk inode_map_at i) _
        (Ends-test seen _ _ (λ _. ends tt) (λ _. Ends-bit_test img.disk _))
        λ lost _ _.
          Ends-bind (unreachable_inodes img m n (i + 1)) _ (unreachable_inodes-Ends m n (i + 1))
            λ rest _ _. ends tt

  unreachable_blocks-Ends : (m : Bytes) (n i : ℕ) → Ends Any (unreachable_blocks img m n i)
  unfolding unreachable_blocks
  unreachable_blocks-Ends m zero i = ends tt
  unreachable_blocks-Ends m (suc n) i = Ends-bind (bit_test m i) _ (Ends-bit_test m i) λ seen _ _.
      Ends-bind {P = Any} (if seen then test_at img.disk (block_map_at img.sb) i else ok true) _
        (Ends-test seen _ _ (λ _. Ends-bit_test img.disk _) (λ _. ends tt))
        λ used _ _.
          Ends-bind (unreachable_blocks img m n (i + 1)) _ (unreachable_blocks-Ends m n (i + 1))
            λ rest _ _. ends tt

  finish-Ends : (f : Flow) → Ends Any (finish img f)
  unfolding finish
  finish-Ends (fail s) = ends tt
  finish-Ends (next s) =
      Ends-bind (unreachable_inodes img s.imap (max_inodes img.sb - 1) 1) _
        (unreachable_inodes-Ends s.imap _ 1)
        λ lost _ _.
          Ends-bind
            (unreachable_blocks img s.blkmap (img.sb.num_blocks - first_block img.sb)
              (first_block img.sb))
            _ (unreachable_blocks-Ends s.blkmap _ _) λ blocks _ _. ends tt

set_bits-Ends :
    (line : ℕ → Line) (disk : Bytes) (base n i : ℕ) → Ends Any (set_bits line disk base n i)
unfolding set_bits
set_bits-Ends line disk base zero i = ends tt
set_bits-Ends line disk base (suc n) i =
    Ends-bind (test_at disk base i) _ (Ends-bit_test disk _) λ used _ _.
      Ends-bind (set_bits line disk base n (i + 1)) _ (set_bits-Ends line disk base n (i + 1))
        λ rest _ _. ends tt

list_map-Ends : (line : ℕ → Line) (disk : Bytes) (base n : ℕ) → Ends Any (list_map line disk base n)
list_map-Ends line disk base n =
    Ends-test (leb (2 ^ 31) n) _ _ (λ _. faults) (λ _. set_bits-Ends line disk base n 0)

read_img-Ends : (disk : Bytes) → Ends Any (read_img disk)
unfolding read_img
read_img-Ends disk =
    let img = image_of disk in
    Ends-test (ltb (length disk) 24) _ _ (λ _. faults)
      (λ _.
        let n = img.sb.inode_map_sz * (8 * fs_block_size) % 2 ^ 32 in
        let m = img.sb.block_map_sz * (8 * fs_block_size) % 2 ^ 32 in
        Ends-bind (list_map allocated_inode disk inode_map_at n) _
          (list_map-Ends allocated_inode disk inode_map_at n)
          λ inos _ _.
            Ends-bind (list_map allocated_block disk (block_map_at img.sb) m) _
              (list_map-Ends allocated_block disk (block_map_at img.sb) m)
              λ blks _ _.
                Ends-bind (explore img (summary img.sb ∷ (inos ++ blks))) _
                  (explore-Ends img (summary img.sb ∷ (inos ++ blks)))
                  λ flow _ _. finish-Ends img flow)

Ends-ne-hang : {A : Type 0} {P : A → Type 0} {o : Outcome A} → Ends P o → o ≢ hang
Ends-ne-hang (ends h) = cc
Ends-ne-hang errs = cc
Ends-ne-hang exits = cc
Ends-ne-hang faults = cc

-- On every image, also one whose directories form a loop or whose inode numbers are wrong, the walk
-- of read-img.c ends within one round more than there are inodes, and with it the program: it prints
-- its report or runs into undefined behaviour.
pub read_img-ne-hang : (disk : Bytes) → read_img disk ≢ hang
read_img-ne-hang disk = Ends-ne-hang (read_img-Ends disk)
