-- ===== src/ReadImg/Reported.antt =====
-- What the walk of read-img.c has reported of a block, against its mark of the block.
use mathlib.Core.List.{Memᴰ}
use mathlib.Core.List.Memᴰ
use file_system_implementati.Base.{
  ℕ, zero, suc, ◌+◌, ◌*◌, ◌%◌, ◌^◌, ◌<◌, ◌≡◌, ◌↔◌, inl, inr, refl, ap, sym, subst, ◌∙◌, Bool, true,
  false, not, List, [], ◌∷◌, leb, ◌==◌, ◌/◌, length, if◌then◌else◌, All-replicate, Bool-cases,
  arith,
}
use file_system_implementati.Outcome.{Outcome, ok, hang, ◌>>=◌, >>=-eq-ok}
use file_system_implementati.Layout.{
  Bytes, Inode, Dirent, fs_block_size, decode_addrs, decode_dir, decode_inode,
}
use file_system_implementati.Device.{AreBytes}
use file_system_implementati.Bitmap.{bit_test, bit_set}
use file_system_implementati.Bitmap.Laws.{bit_test-bit_set, bit_set-AreBytes}
use file_system_implementati.Fs.{s_isdir, direct_0}
use file_system_implementati.ReadImg.{
  Image, Entry, Line, State, Flow, next, fail, onward, slice, test_at, reach_block, reach_blocks,
  reach_indir_2, reach_file, reach_entry, reach_entries, reach_dir, push, visit, walk_tree, explore,
  start, empty_map, print, block_map_at, inode_map_at, inodes_at, max_inodes, marked_free, block,
  file, directory, entry, not_a_directory, invalid_inode, loop_found, inode_free,
}
use file_system_implementati.ReadImg.Ends.{ok-injective}
use file_system_implementati.ReadImg.Complete.{bit_test-zeros}

-- Every value that is returned has the property.
abbrev Returns : {A : Type 0} → (A → Type 0) → Outcome A → Type 0
Returns {A} P o = (a : A) → o ≡ ok a → P a

Returns-ok : {A : Type 0} (P : A → Type 0) (a : A) → P a → Returns P (ok a)
Returns-ok P a p b e = subst P (ok-injective e) p

Returns-bind :
    {A B : Type 0} (Q : B → Type 0) (m : Outcome A) (f : A → Outcome B)
    → ((a : A) → m ≡ ok a → Returns Q (f a))
    → Returns Q (m >>= f)
Returns-bind Q m f h b e = let (a, ea, eb) = >>=-eq-ok m f e in h a ea b eb

Returns-if :
    {A : Type 0} (P : A → Type 0) (b : Bool) (m n : Outcome A)
    → Returns P m
    → Returns P n
    → Returns P (if b then m else n)
Returns-if P true m n h k = h
Returns-if P false m n h k = k

abbrev OfFlow : (State → Type 0) → Flow → Type 0
OfFlow P (next s) = P s
OfFlow P (fail s) = P s

Returns-onward :
    (P : State → Type 0) (rest : State → Outcome Flow) (flow : Flow)
    → OfFlow P flow
    → ((s : State) → P s → Returns (OfFlow P) (rest s))
    → Returns (OfFlow P) (onward rest flow)
Returns-onward P rest (next s) p h = h s p
Returns-onward P rest (fail s) p h = Returns-ok (OfFlow P) (fail s) p

abbrev is_report : Line → Bool
is_report (marked_free i) = true
is_report _ = false

block_of : Line → ℕ
block_of (marked_free i) = i
block_of _ = 0

module _ (img : Image) (j : ℕ) where
  abbrev pub IsFree : Type 0
  IsFree = test_at img.disk (block_map_at img.sb) j ≡ ok false

  -- The error has been printed for the block if it is marked and free on the disk, and for no other reason.
  pub record Told (s : State) : Type 0 where
    pub bytes : AreBytes s.blkmap
    pub iff : ((bit_test s.blkmap j ≡ ok true) × IsFree) ↔ Memᴰ (marked_free j) s.out

  Told-print : (line : Line) (s : State) → is_report line ≡ false → Told s → Told (print line s)
  Told-print line s quiet h = record {
    bytes = h.bytes;
    iff = (
      λ m. Memᴰ.append_left (line ∷ []) (h.iff.0 m),
      λ m. elim (Memᴰ.append_cases s.out m) [
        | inl l ↦ h.iff.1 l
        | inr r ↦
            let e : true ≡ false = ap is_report (Memᴰ.eq_of_singleton r) ∙ quiet in absurd (cc)
      ],
    );
  }

  -- A block is marked and the map of the disk has it as used, or it is reported.
  Told-used :
      (b : ℕ) (s : State) {m : Bytes}
      → bit_set s.blkmap b ≡ ok m
      → test_at img.disk (block_map_at img.sb) b ≡ ok true
      → Told s
      → Told (record s { blkmap = m })
  Told-used b s {m} set used h =
      let now = bit_test-bit_set s.blkmap b j h.bytes set in
      record {
        bytes = (bit_set-AreBytes s.blkmap b h.bytes set).0;
        iff = elim (Bool-cases (b == j)) [
          | inl same ↦
              let p : b ≡ j = ground (arith, same) in
              let in_use = subst (λ k. test_at img.disk (block_map_at img.sb) k ≡ ok true) p used in
              (λ (_, free). absurd (cc), λ r. let (_, free) = h.iff.1 r in absurd (cc))
          | inr other ↦
              let as_before : bit_test m j ≡ bit_test s.blkmap j = rw other at now in
              (
                λ (marked, free). h.iff.0 (sym as_before ∙ marked, free),
                λ r. let (marked, free) = h.iff.1 r in (as_before ∙ marked, free),
              )
        ];
      }

  Told-free :
      (b : ℕ) (s : State) {m : Bytes}
      → bit_set s.blkmap b ≡ ok m
      → test_at img.disk (block_map_at img.sb) b ≡ ok false
      → Told s
      → Told (print (marked_free b) (record s { blkmap = m }))
  unfolding block_of
  Told-free b s {m} set free h =
      let now = bit_test-bit_set s.blkmap b j h.bytes set in
      record {
        bytes = (bit_set-AreBytes s.blkmap b h.bytes set).0;
        iff = elim (Bool-cases (b == j)) [
          | inl same ↦
              let p : b ≡ j = ground (arith, same) in
              (
                λ _. Memᴰ.append_right s.out (Memᴰ.head (ap marked_free (sym p))),
                λ _. (
                  rw same at now,
                  subst (λ k. test_at img.disk (block_map_at img.sb) k ≡ ok false) p free,
                ),
              )
          | inr other ↦
              let as_before : bit_test m j ≡ bit_test s.blkmap j = rw other at now in
              (
                λ (marked, free').
                    Memᴰ.append_left (marked_free b ∷ []) (h.iff.0 (sym as_before ∙ marked, free')),
                λ r. elim (Memᴰ.append_cases s.out r) [
                  | inl l ↦ let (marked, free') = h.iff.1 l in (as_before ∙ marked, free')
                  | inr l ↦
                      let q : j ≡ b = ap block_of (Memᴰ.eq_of_singleton l) in
                      absurd (ground (arith, other, q))
                ],
              )
        ];
      }

  Told-if :
      (b : ℕ) (s : State) {m : Bytes} (used : Bool)
      → bit_set s.blkmap b ≡ ok m
      → test_at img.disk (block_map_at img.sb) b ≡ ok used
      → Told s
      → Told (
          if used then record s { blkmap = m } else print (marked_free b) (record s { blkmap = m }))
  Told-if b s true set e h = Told-used b s set e h
  Told-if b s false set e h = Told-free b s set e h

  reach_block-Told : (b : ℕ) (s : State) → Told s → Returns Told (reach_block img b s)
  unfolding reach_block
  reach_block-Told b s h = Returns-bind Told (bit_set s.blkmap b) _ λ m set.
      Returns-bind Told (test_at img.disk (block_map_at img.sb) b) _
        λ used e. Returns-ok Told _ (Told-if b s used set e h)

  reach_blocks-Told : (bs : List ℕ) (s : State) → Told s → Returns Told (reach_blocks img bs s)
  unfolding reach_blocks
  reach_blocks-Told [] s h = Returns-ok Told s h
  reach_blocks-Told (b ∷ bs) s h = Returns-if Told (b == 0) _ _ (reach_blocks-Told bs s h) (
      Returns-bind Told (reach_block img b (print (block b) s)) _
        λ t e. reach_blocks-Told bs t (reach_block-Told b _ (Told-print (block b) s refl h) t e))

  reach_indir_2-Told : (bs : List ℕ) (s : State) → Told s → Returns Told (reach_indir_2 img bs s)
  unfolding reach_indir_2
  reach_indir_2-Told [] s h = Returns-ok Told s h
  reach_indir_2-Told (b ∷ bs) s h = Returns-if Told (b == 0) _ _ (reach_indir_2-Told bs s h) (
      Returns-bind Told (slice img.disk (b * fs_block_size) fs_block_size) _ λ buf e.
        Returns-bind Told (reach_blocks img (decode_addrs buf) s) _
          λ t e. reach_indir_2-Told bs t (reach_blocks-Told (decode_addrs buf) s h t e))

  reach_file-Told : (i : Inode) (s : State) → Told s → Returns Told (reach_file img i s)
  unfolding reach_file
  reach_file-Told i s h = Returns-bind Told (reach_blocks img i.direct s) _ λ t e.
      let ht = reach_blocks-Told i.direct s h t e in
      Returns-bind Told
        (if i.indir_1 == 0
          then ok t
          else (slice img.disk (i.indir_1 * fs_block_size % 2 ^ 32) fs_block_size >>= λ buf.
              reach_blocks img (decode_addrs buf) t))
        _
        λ u e.
          let hu =
            Returns-if Told (i.indir_1 == 0) (ok t) _ (Returns-ok Told t ht)
              (Returns-bind Told (slice img.disk _ fs_block_size) _
                λ buf e. reach_blocks-Told (decode_addrs buf) t ht)
              u e in
          Returns-if Told (i.indir_2 == 0) _ _ (Returns-ok Told u hu) (
            Returns-bind Told (slice img.disk _ fs_block_size) _
              λ buf e. reach_indir_2-Told (decode_addrs buf) u hu)

  -- An entry changes neither the marks of the blocks nor what has been reported of them.
  Told-same : (s t : State) → t.blkmap ≡ s.blkmap → t.out ≡ s.out → Told s → Told t
  Told-same s t marks lines h = record { bytes = rw marks h.bytes; iff = rw (marks, lines) h.iff }

  reach_entry-Told :
      (inum : ℕ) (de : Dirent) (s : State)
      → Told s
      → Returns (OfFlow Told) (reach_entry img inum de s)
  unfolding reach_entry push
  reach_entry-Told inum de s h =
      let s1 = print (entry de) s in
      let h1 = Told-print (entry de) s refl h in
      Returns-if (OfFlow Told) (leb (max_inodes img.sb) de.inode) _ _
        (Returns-ok (OfFlow Told) _ (Told-print (invalid_inode de.inode) s1 refl h1))
        (Returns-bind (OfFlow Told) (bit_test s.imap de.inode) _ λ seen e.
          Returns-if (OfFlow Told) seen _ _
            (Returns-ok (OfFlow Told) _ (Told-print (loop_found inum) s1 refl h1))
            (Returns-bind (OfFlow Told) (bit_set s.imap de.inode) _ λ m e.
              Returns-bind (OfFlow Told) (test_at img.disk inode_map_at de.inode) _ λ used e.
                let s2 : State = record s1 { imap = m } in
                let h2 = Told-same s1 s2 refl refl h1 in
                Returns-bind (OfFlow Told) (push img _ _) _ λ s3 e.
                  Returns-ok (OfFlow Told) (next s3)
                    (push-Told _ _ (one_of used s2 (inode_free de.inode) refl h2) s3 e)))
    where
      one_of :
          (used : Bool) (s : State) (line : Line)
          → is_report line ≡ false
          → Told s
          → Told (if used then s else print line s)
      one_of true s line quiet h = h
      one_of false s line quiet h = Told-print line s quiet h

      push-Told : (e : Entry) (s : State) → Told s → Returns Told (push img e s)
      push-Told e s h =
          Returns-if Told (leb (max_inodes img.sb + 100) s.head) _ _ (λ t e. absurd (cc))
            (Returns-ok Told _ (Told-same s _ refl refl h))

  reach_entries-Told :
      (inum : ℕ) (des : List Dirent) (s : State)
      → Told s
      → Returns (OfFlow Told) (reach_entries img inum des s)
  unfolding reach_entries
  reach_entries-Told inum [] s h = Returns-ok (OfFlow Told) (next s) h
  reach_entries-Told inum (de ∷ des) s h =
      Returns-if (OfFlow Told) de.valid _ _
        (Returns-bind (OfFlow Told) (reach_entry img inum de s) _ λ flow e.
          Returns-onward Told _ flow (reach_entry-Told inum de s h flow e)
            λ t ht. reach_entries-Told inum des t ht)
        (reach_entries-Told inum des s h)

  visit-Told : (e : Entry) (s : State) → Told s → Returns (OfFlow Told) (visit img e s)
  unfolding visit reach_dir
  visit-Told e s h =
      Returns-bind (OfFlow Told) (slice img.disk (inodes_at img.sb + e.inum * 64) 64) _ λ b _.
        let i = decode_inode b in
        Returns-if (OfFlow Told) e.dir _ _
          (Returns-if (OfFlow Told) (not (s_isdir i.mode)) _ _
            (Returns-ok (OfFlow Told) _ (Told-print (not_a_directory e.inum) s refl h))
            (Returns-bind (OfFlow Told) (reach_block img (direct_0 i) _) _ λ t et.
              Returns-bind (OfFlow Told) (slice img.disk _ fs_block_size) _ λ buf _.
                reach_entries-Told e.inum (decode_dir buf) t (
                  reach_block-Told (direct_0 i) _
                    (Told-print (directory e.inum (direct_0 i)) s refl h) t et)))
          (Returns-bind (OfFlow Told) (reach_file img i _) _ λ t et.
            Returns-ok (OfFlow Told) (next t)
              (reach_file-Told i _ (Told-print (file e.inum i) s refl h) t et))

  walk_tree-Told : (n : ℕ) (s : State) → Told s → Returns (OfFlow Told) (walk_tree img n s)
  unfolding walk_tree
  walk_tree-Told zero s h =
      elim s.queue as (λ q. Returns (OfFlow Told) (elim q [ [] ↦ ok (next s) | _ ∷ _ ↦ hang ])) [
        | [] ↦ Returns-ok (OfFlow Told) (next s) h
        | e ∷ rest ↦ λ t e. absurd (cc)
      ]
  walk_tree-Told (suc n) s h =
      elim s.queue
        as (λ q. Returns (OfFlow Told) (elim q [
          | [] ↦ ok (next s)
          | e ∷ rest ↦ visit img e (record s { queue = rest }) >>= λ flow.
              onward (λ s'. walk_tree img n s') flow
        ])) [
          | [] ↦ Returns-ok (OfFlow Told) (next s) h
          | e ∷ rest ↦
              Returns-bind (OfFlow Told) (visit img e (record s { queue = rest })) _ λ flow ef.
                Returns-onward Told _ flow
                  (visit-Told e (record s { queue = rest }) (Told-same s _ refl refl h) flow ef)
                  λ t ht. walk_tree-Told n t ht
        ]

  start-Told : (out : List Line) (m : Bytes) → ¬ Memᴰ (marked_free j) out → Told (start img m out)
  start-Told out m none = record {
    bytes = All-replicate {0, 0} (λ b. b < 256) (length img.disk / 8192) 0 (omega arith);
    iff = (
      λ (marked, _). absurd (bit_test-zeros (length img.disk / 8192) j marked),
      λ r. absurd (none r),
    );
  }

  -- When the walk of read-img.c ends, it has printed that a block is marked free, if it had not been
  -- printed before, exactly when it has marked the block and the map of the image has it as free.
  pub explore-Told :
      (out : List Line) {t : State}
      → ¬ Memᴰ (marked_free j) out
      → explore img out ≡ ok (next t)
      → Told t
  unfolding explore
  explore-Told out {t} none over =
      Returns-if (OfFlow Told) (leb (2 ^ 31) (max_inodes img.sb + 100)) _ _ (λ t e. absurd (cc))
        (Returns-bind (OfFlow Told) (bit_set (empty_map img.disk) 1) _
          λ m _. walk_tree-Told (max_inodes img.sb + 1) _ (start-Told out m none))
        (next t) over
