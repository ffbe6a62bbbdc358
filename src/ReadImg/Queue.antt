-- ===== src/ReadImg/Queue.antt =====
-- The loop of read-img.c ends, and inode_list has room for what is written to it.
use file_system_implementati.Base.{
  ℕ, zero, suc, ◌+◌, ◌≤◌, ◌<◌, ◌≡◌, refl, ap, sym, subst, ◌∙◌, Bool, true, false, not, List, [],
  ◌∷◌, ◌++◌, length, leb, if◌then◌else◌, arith, inl, inr, Bool-cases, length-append, ◌*◌, ◌%◌, ◌^◌,
}
use file_system_implementati.Outcome.{Outcome, ok}
use file_system_implementati.Layout.{Bytes, Inode, Dirent, fs_block_size, decode_dir, decode_inode}
use file_system_implementati.Fs.{s_isdir, direct_0}
use file_system_implementati.Device.{AreBytes}
use file_system_implementati.Bitmap.{bit_set, bit_test}
use file_system_implementati.Bitmap.Laws.{bit_test-bit_set, bit_set-AreBytes}
use file_system_implementati.ReadImg.{
  Image, Entry, Line, State, Flow, next, fail, slice, test_at, reach_block, reach_file, push,
  reach_entry, reach_entries, reach_dir, visit, max_inodes, print, inode_free, entry, directory,
  file, inodes_at, inode_map_at,
}
use file_system_implementati.ReadImg.Ends.{
  Ends, ends, faults, Ends-bind, Ends-weaken, Ends-bit_test, Ends-bit_set, Ends-slice, Ends-test,
  Ends-onward, Kept, reach_block-Kept, reach_file-Kept,
}

-- How many of the first `n` inodes are not marked.
pub is_clear : Outcome Bool → ℕ
is_clear (ok true) = 0
is_clear _ = 1

pub unseen : Bytes → ℕ → ℕ
unseen m zero = 0
unseen m (suc n) = unseen m n + is_clear (bit_test m n)

pub unseen-le : (m : Bytes) (n : ℕ) → unseen m n ≤ n
unfolding unseen is_clear
unseen-le m zero = omega arith
unseen-le m (suc n) = ground (arith, unseen-le m n)

module _ (map : Bytes) (j : ℕ) {m : Bytes} (bytes : AreBytes map) (e : bit_set map j ≡ ok m) where
  unseen-bit_set_below : (n : ℕ) → n ≤ j → unseen m n ≡ unseen map n
  unfolding unseen
  unseen-bit_set_below zero h = refl
  unseen-bit_set_below (suc n) h =
      ground (arith, unseen-bit_set_below n, bit_test-bit_set map j n bytes e)

  unseen-bit_set : (n : ℕ) → bit_test map j ≡ ok false → j < n → unseen m n + 1 ≡ unseen map n
  unfolding unseen is_clear
  unseen-bit_set zero free h = absurd (omega arith)
  unseen-bit_set (suc n) free h =
      ground (arith, unseen-bit_set n, unseen-bit_set_below n, bit_test-bit_set map j n bytes e)

unfoldable pub state_of : Flow → State
state_of (next s) = s
state_of (fail s) = s

-- What a part of the walk does to the marks and the queue: each inode that it marks is written to
-- inode_list.
abbrev pub Moves : ℕ → State → State → Type 0
Moves n s t =
    AreBytes t.imap
    × (t.head + unseen t.imap n ≡ s.head + unseen s.imap n)
    × (length t.queue + unseen t.imap n ≡ length s.queue + unseen s.imap n)

Kept-Moves : (n : ℕ) (s t : State) → AreBytes s.imap → Kept s t → Moves n s t
Kept-Moves n s t h (same_map, same_queue, same_head) =
    let same = ap (λ m. unseen m n) same_map in
    (
      subst AreBytes (sym same_map) h,
      omega (arith, same, same_head),
      omega (arith, same, ap length same_queue),
    )

-- A write to inode_list, after a mark.
push-Moves :
    (n : ℕ) (img : Image) (e : Entry) (m : Bytes) (s t : State)
    → AreBytes m
    → unseen m n + 1 ≡ unseen s.imap n
    → Kept (record s { imap = m }) t
    → Ends (λ u. Moves n s u) (push img e t)
unfolding push
push-Moves n img e m s t bytes one (same_map, same_queue, same_head) =
    let same = ap (λ m. unseen m n) same_map in
    elim (Bool-cases (leb (max_inodes img.sb + 100) t.head)) [
      | inl full ↦ rw full faults
      | inr room ↦ rw room (
          ends (
            subst AreBytes (sym same_map) bytes,
            omega (arith, same, same_head, one),
            omega (arith, same, one, ap length same_queue, length-append {0} t.queue (e ∷ [])),
          ))
    ]

pub printed-Kept : (b : Bool) (line : Line) (s : State) → Kept s (if b then s else print line s)
printed-Kept true line s = (refl, refl, refl)
printed-Kept false line s = (refl, refl, refl)

reach_entry-Moves :
    (img : Image) (inum : ℕ) (de : Dirent) (s : State)
    → AreBytes s.imap
    → Ends (λ f. Moves (max_inodes img.sb) s (state_of f)) (reach_entry img inum de s)
unfolding reach_entry state_of
reach_entry-Moves img inum de s bytes = elim (Bool-cases (leb (max_inodes img.sb) de.inode)) [
  | inl e ↦ rw e (ends (bytes, refl, refl))
  | inr e ↦ rw e (
      Ends-bind (bit_test s.imap de.inode) _ (Ends-bit_test s.imap de.inode) λ seen tested _.
        elim (Bool-cases seen) [
          | inl e' ↦ rw e' (ends (bytes, refl, refl))
          | inr e' ↦ rw e' (
              Ends-bind (bit_set s.imap de.inode) _ (Ends-bit_set s.imap de.inode) λ m marked _.
                Ends-bind (test_at img.disk inode_map_at de.inode) _ (Ends-bit_test img.disk _)
                  λ used _ _.
                    let free =
                      unseen-bit_set s.imap de.inode bytes marked (max_inodes img.sb)
                        (tested ∙ ap ok e') (ground arith) in
                    Ends-bind (push img _ _) _
                      (push-Moves (max_inodes img.sb) img _ m s _
                        (bit_set-AreBytes s.imap de.inode bytes marked).0 free
                        (printed-Kept used (inode_free de.inode)
                          (record s { imap = m; out = s.out ++ (entry de ∷ []) })))
                      λ t _ h. ends h)
        ])
]

Moves-trans : (n : ℕ) (s t u : State) → Moves n s t → Moves n t u → Moves n s u
Moves-trans n s t u (_, h, k) (bytes, h', k') = (bytes, h' ∙ h, k' ∙ k)

-- The same for a step that the walk may leave.
abbrev pub FlowMoves : ℕ → State → Flow → Type 0
FlowMoves n s f = Moves n s (state_of f)

reach_entries-Moves :
    (img : Image) (inum : ℕ) (des : List Dirent) (s : State)
    → AreBytes s.imap
    → Ends (FlowMoves (max_inodes img.sb) s) (reach_entries img inum des s)
unfolding reach_entries state_of
reach_entries-Moves img inum [] s bytes = ends (bytes, refl, refl)
reach_entries-Moves img inum (de ∷ des) s bytes =
    let n = max_inodes img.sb in
    Ends-test de.valid _ _
      (λ _.
        Ends-bind (reach_entry img inum de s) _ (reach_entry-Moves img inum de s bytes) λ flow _ h.
          Ends-onward (FlowMoves n s) (λ t. reach_entries img inum des t) flow h
            (λ t k.
              Ends-weaken (λ f. Moves-trans n s t (state_of f) k)
                (reach_entries-Moves img inum des t k.0))
            (λ t k. k))
      (λ _. reach_entries-Moves img inum des s bytes)

reach_dir-Moves :
    (img : Image) (inum : ℕ) (i : Inode) (s : State)
    → AreBytes s.imap
    → Ends (FlowMoves (max_inodes img.sb) s) (reach_dir img inum i s)
unfolding reach_dir state_of
reach_dir-Moves img inum i s bytes =
    let n = max_inodes img.sb in
    Ends-test (not (s_isdir i.mode)) _ _ (λ _. ends (bytes, refl, refl))
      (λ _.
        let s' = print (directory inum (direct_0 i)) s in
        Ends-bind (reach_block img (direct_0 i) s') _ (reach_block-Kept img (direct_0 i) s')
          λ t _ h.
            let moved = Kept-Moves n s t bytes h in
            Ends-bind (slice img.disk (direct_0 i * fs_block_size % 2 ^ 32) fs_block_size) _
              (Ends-slice _ _ _)
              λ buf _ _.
                Ends-weaken (λ f. Moves-trans n s t (state_of f) moved)
                  (reach_entries-Moves img inum (decode_dir buf) t moved.0))

-- What one round does to the marks and the queue.
pub visit-Moves :
    (img : Image) (e : Entry) (s : State)
    → AreBytes s.imap
    → Ends (FlowMoves (max_inodes img.sb) s) (visit img e s)
unfolding visit state_of
visit-Moves img e s bytes =
    Ends-bind (slice img.disk (inodes_at img.sb + e.inum * 64) 64) _ (Ends-slice _ _ _) λ b _ _.
      Ends-test e.dir _ _ (λ _. reach_dir-Moves img e.inum (decode_inode b) s bytes)
        (λ _.
          let s' = print (file e.inum (decode_inode b)) s in
          Ends-bind (reach_file img (decode_inode b) s') _ (reach_file-Kept img (decode_inode b) s')
            λ t _ h. ends (Kept-Moves (max_inodes img.sb) s t bytes h))
