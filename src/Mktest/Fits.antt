-- ===== src/Mktest/Fits.antt =====
-- Each file of mktest.c stays behind the maps and inside the disk.
use file_system_implementati.Base.{
  ℕ, zero, suc, ◌+◌, ◌*◌, ◌≤◌, ◌<◌, refl, Bool, true, false, [], ◌∷◌, ◌++◌, map, take, drop,
  replicate, arith,
}
use file_system_implementati.Exec.Ends.{Gives, EndsIn, EndsIn-bind, Gives-bind, Gives-pure}
use file_system_implementati.Layout.{Bytes}
use file_system_implementati.Device.{AreBytes}
use file_system_implementati.Memory.Laws.{AreBytes-append}
use file_system_implementati.Mktest.{Maker, block_of}
use file_system_implementati.Mktest.Files.{
  file_dot, dir1, make_file_a, make_dir1, make_file_2, make_file_0, make_file_7, sevens, scattered,
  make_file_10, fill_270, make_file_270,
}
use file_system_implementati.Mktest.Steps.{disk_size, Inv, alloc-Inv, next_inum-Inv}
use file_system_implementati.Mktest.Writes.{
  IsData, IsShort, put_entry-Inv, put_inode-Inv, put_word-Inv, fill-Inv, count_up-Inv,
  put_blocks-Inv, copy_blocks-Inv,
}

abbrev pub inodes : ℕ
inodes = 3072

file_name : (c : ℕ) → c < 256 → IsShort (file_dot ++ (c ∷ []))
file_name c h = (omega (arith, h), omega arith)

AreBytes-sevens : (n : ℕ) → AreBytes (sevens n)
unfolding sevens
AreBytes-sevens zero = tt
AreBytes-sevens (suc n) =
    AreBytes-append (b'1' ∷ b'2' ∷ b'3' ∷ b'4' ∷ b'5' ∷ b'6' ∷ b'7' ∷ []) (sevens n) (omega arith)
      (AreBytes-sevens n)

-- Each file, from a pointer `p` behind the maps and inode number `i` on, when its blocks fit.
module _ {f : ℕ → Bool} {p i : ℕ} (m : Maker) (h : Inv f p i m) (past : 3072 ≤ p)
    (few : i < 64) where
  pub make_file_a-Inv :
      (de : ℕ)
      → IsData de 1024
      → p + 1024 ≤ disk_size
      → Gives (make_file_a inodes de) i (Inv f (p + 1024) (i + 1)) m
  unfolding make_file_a
  make_file_a-Inv de d room = Gives-bind _ _ i i m (next_inum-Inv m h) λ m1 h1.
      Gives-bind _ _ tt i m1
        (put_entry-Inv de 0 false false 1717 _ m1 (file_name b'A' (omega arith))
          (omega arith, omega arith) h1)
        λ m2 h2.
          Gives-bind _ _ tt i m2
            (put_entry-Inv de 1 true false i _ m2 (file_name b'A' (omega arith))
              (omega arith, omega arith) h2)
            λ m3 h3. Gives-bind _ _ p i m3 (alloc-Inv m3 h3 1) λ m4 h4.
              Gives-bind _ _ tt i m4
                (fill-Inv p b'A' 1000 m4 (omega arith) (omega arith, omega arith) h4)
                λ m5 h5.
                  Gives-bind _ _ tt i m5
                    (put_inode-Inv inodes i _ _ 1000 (block_of p ∷ replicate 5 0) 0 m5 refl
                      (omega arith, omega arith) h5)
                    λ m6 h6. Gives-pure i m6 h6

  pub make_dir1-Inv :
      (de f1_inode : ℕ)
      → IsData de 1024
      → p + 1024 ≤ disk_size
      → Gives (make_dir1 inodes de f1_inode) p (Inv f (p + 1024) (i + 1)) m
  unfolding make_dir1
  make_dir1-Inv de f1_inode d room = Gives-bind _ _ i p m (next_inum-Inv m h) λ m1 h1.
      Gives-bind _ _ tt p m1
        (put_entry-Inv de 3 false true f1_inode dir1 m1 (omega arith, omega arith)
          (omega arith, omega arith) h1)
        λ m2 h2.
          Gives-bind _ _ tt p m2
            (put_entry-Inv de 5 true true i dir1 m2 (omega arith, omega arith)
              (omega arith, omega arith) h2)
            λ m3 h3. Gives-bind _ _ p p m3 (alloc-Inv m3 h3 1) λ m4 h4.
              Gives-bind _ _ tt p m4
                (put_inode-Inv inodes i _ _ 1024 (block_of p ∷ replicate 5 0) 0 m4 refl
                  (omega arith, omega arith) h4)
                λ m5 h5. Gives-pure p m5 h5

  pub make_file_2-Inv :
      (de : ℕ)
      → IsData de 1024
      → p + 2048 ≤ disk_size
      → EndsIn (make_file_2 inodes de) (Inv f (p + 1024 + 1024) (i + 1)) m
  unfolding make_file_2
  make_file_2-Inv de d room = Gives-bind _ _ i tt m (next_inum-Inv m h) λ m1 h1.
      Gives-bind _ _ p tt m1 (alloc-Inv m1 h1 1) λ m2 h2.
        Gives-bind _ _ (p + 1024) tt m2 (alloc-Inv m2 h2 1) λ m3 h3.
          EndsIn-bind _ _ m3
            (put_entry-Inv de 3 true false i _ m3 (file_name b'2' (omega arith))
              (omega arith, omega arith) h3)
            λ m4 h4.
              EndsIn-bind _ _ m4
                (fill-Inv p b'2' 2048 m4 (omega arith) (omega arith, omega arith) h4)
                λ m5 h5.
                  put_inode-Inv inodes i _ _ 2012 (block_of (p + 1024) ∷ block_of p ∷ replicate 4 0)
                    0 m5 refl (omega arith, omega arith) h5

  pub make_file_0-Inv :
      (de : ℕ) → IsData de 1024 → EndsIn (make_file_0 inodes de) (Inv f p (i + 1)) m
  unfolding make_file_0
  make_file_0-Inv de d = Gives-bind _ _ i tt m (next_inum-Inv m h) λ m1 h1.
      EndsIn-bind _ _ m1
        (put_entry-Inv de 4 true false i _ m1 (file_name b'0' (omega arith))
          (omega arith, omega arith) h1)
        λ m2 h2.
          put_inode-Inv inodes i _ _ 0 (replicate 6 0) 0 m2 refl (omega arith, omega arith) h2

  pub make_file_7-Inv :
      (de : ℕ)
      → IsData de 1024
      → p + 8192 ≤ disk_size
      → EndsIn (make_file_7 inodes de) (Inv f (p + 1024 + 7 * 1024) (i + 1)) m
  unfolding make_file_7
  make_file_7-Inv de d room = Gives-bind _ _ i tt m (next_inum-Inv m h) λ m1 h1.
      Gives-bind _ _ p tt m1 (alloc-Inv m1 h1 1) λ m2 h2.
        Gives-bind _ _ (p + 1024) tt m2 (alloc-Inv m2 h2 7) λ m3 h3.
          EndsIn-bind _ _ m3
            (put_entry-Inv de 6 true false i _ m3 (file_name b'7' (omega arith))
              (omega arith, omega arith) h3)
            λ m4 h4.
              EndsIn-bind _ _ m4
                (put_inode-Inv inodes i _ _ _ (replicate 6 0) (block_of p) m4 refl
                  (omega arith, omega arith) h4)
                λ m5 h5.
                  EndsIn-bind _ _ m5 (count_up-Inv 6 _ _ m5 (omega arith, omega arith) h5) λ m6 h6.
                    EndsIn-bind _ _ m6 (put_word-Inv p _ m6 (omega arith, omega arith) h6) λ m7 h7.
                      fill-Inv (p + 1024) b'4' (6 * 1024 + 500) m7 (omega arith)
                        (omega arith, omega arith) h7

  pub make_file_10-Inv :
      (rest : Bytes) (de : ℕ)
      → AreBytes rest
      → IsData de 1024
      → p + 11264 ≤ disk_size
      → EndsIn (make_file_10 rest inodes de) (Inv f (p + 1024 + 10 * 1024) (i + 1)) m
  unfolding make_file_10
  make_file_10-Inv rest de b d room = Gives-bind _ _ i tt m (next_inum-Inv m h) λ m1 h1.
      Gives-bind _ _ p tt m1 (alloc-Inv m1 h1 1) λ m2 h2.
        Gives-bind _ _ (p + 1024) tt m2 (alloc-Inv m2 h2 10) λ m3 h3.
          EndsIn-bind _ _ m3
            (copy_blocks-Inv (scattered (p + 1024)) (sevens 1462 ++ rest) m3 (omega arith)
              (AreBytes-append (sevens 1462) rest (AreBytes-sevens 1462) b) h3)
            λ m4 h4.
              EndsIn-bind _ _ m4
                (put_blocks-Inv p (drop 6 (scattered (p + 1024))) m4 (omega arith, omega arith) h4)
                λ m5 h5.
                  EndsIn-bind _ _ m5
                    (put_inode-Inv inodes i _ _ _ (map block_of (take 6 (scattered (p + 1024))))
                      (block_of p) m5 refl (omega arith, omega arith) h5)
                    λ m6 h6.
                      put_entry-Inv de 12 true false i (file_dot ++ (b'1' ∷ b'0' ∷ [])) m6
                        (omega arith, omega arith) (omega arith, omega arith) h6

  -- The three tables of "/file.270" and its blocks.
  tables :
      (de : ℕ)
      → p + 279552 ≤ disk_size
      → (t : Maker) → Inv f (p + 1024 + 1024 + 1024 + 270 * 1024) (i + 1) t
      → EndsIn
          (fill_270 inodes i p (p + 1024) (p + 1024 + 1024) (p + 1024 + 1024 + 1024))
          (Inv f (p + 1024 + 1024 + 1024 + 270 * 1024) (i + 1))
          t
  unfolding fill_270
  tables de room t k =
      EndsIn-bind _ _ t (count_up-Inv 6 _ _ t (omega arith, omega arith) k) λ m1 h1.
        EndsIn-bind _ _ m1 (put_word-Inv _ (block_of p) m1 (omega arith, omega arith) h1) λ m2 h2.
          EndsIn-bind _ _ m2 (count_up-Inv 256 p _ m2 (omega arith, omega arith) h2) λ m3 h3.
            EndsIn-bind _ _ m3 (put_word-Inv _ _ m3 (omega arith, omega arith) h3) λ m4 h4.
              EndsIn-bind _ _ m4 (put_word-Inv (p + 1024) _ m4 (omega arith, omega arith) h4)
                λ m5 h5.
                  EndsIn-bind _ _ m5
                    (count_up-Inv 8 (p + 1024 + 1024) _ m5 (omega arith, omega arith) h5)
                    λ m6 h6.
                      fill-Inv (p + 1024 + 1024 + 1024) b'K' (269 * 1024 + 721) m6 (omega arith)
                        (omega arith, omega arith) h6

  pub make_file_270-Inv :
      (de : ℕ)
      → IsData de 1024
      → p + 279552 ≤ disk_size
      → EndsIn (make_file_270 inodes de) (Inv f (p + 1024 + 1024 + 1024 + 270 * 1024) (i + 1)) m
  unfolding make_file_270
  make_file_270-Inv de d room = Gives-bind _ _ i tt m (next_inum-Inv m h) λ m1 h1.
      Gives-bind _ _ p tt m1 (alloc-Inv m1 h1 1) λ m2 h2.
        Gives-bind _ _ (p + 1024) tt m2 (alloc-Inv m2 h2 1) λ m3 h3.
          Gives-bind _ _ (p + 1024 + 1024) tt m3 (alloc-Inv m3 h3 1) λ m4 h4.
            Gives-bind _ _ (p + 1024 + 1024 + 1024) tt m4 (alloc-Inv m4 h4 270) λ m5 h5.
              EndsIn-bind _ _ m5
                (put_entry-Inv de 6 true false i (file_dot ++ (b'2' ∷ b'7' ∷ b'0' ∷ [])) m5
                  (omega arith, omega arith) (omega arith, omega arith) h5)
                λ m6 h6.
                  EndsIn-bind _ _ m6
                    (put_inode-Inv inodes i _ _ _ (replicate 6 0) 0 m6 refl
                      (omega arith, omega arith) h6)
                    λ m7 h7. tables de room m7 h7
