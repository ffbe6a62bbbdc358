-- ===== src/Mktest/Writes.antt =====
-- The structures and the loops of mktest.c, by the steps that they consist of.
use file_system_implementati.Base.{
  ℕ, zero, suc, ◌+◌, ◌-◌, ◌*◌, ◌≤◌, ◌<◌, ◌≡◌, inr, refl, ap, ◌∙◌, Bool, true, List, [], ◌∷◌, ◌++◌,
  map, length, take, drop, replicate, All, All-replicate, leb, ltb, ◌==◌, ◌&&◌, if◌then◌else◌,
  arith, length-append, length-take, length-replicate,
}
use file_system_implementati.Base.Int.{pos}
use file_system_implementati.Outcome.{ok}
use file_system_implementati.Exec.Ends.{EndsIn, EndsIn-bind, Gives-pure}
use file_system_implementati.Layout.{
  Bytes, bit_of, Inode, concat, le_bytes, encode_dirent, encode_inode, inode_parts,
}
use file_system_implementati.Layout.Words.{length-le_bytes, le_bytes-AreBytes}
use file_system_implementati.Layout.Codec.{AreBytes-encode_inode}
use file_system_implementati.Device.{AreBytes}
use file_system_implementati.Memory.Laws.{
  AreBytes-append, AreBytes-take, AreBytes-drop, AreBytes-zeros,
}
use file_system_implementati.Mktest.{
  Maker, put, put_entry, put_inode, fill, count_up, put_blocks, copy_blocks, mark_from,
}
use file_system_implementati.Mktest.Steps.{disk_size, Inv, put-Inv, mark-Inv}

length-words : (l : List ℕ) → length (concat (map (le_bytes 4) l)) ≡ 4 * length l
unfolding concat
length-words [] = omega arith
length-words (x ∷ l) = omega (
  arith,
  length-append (le_bytes 4 x) (concat (map (le_bytes 4) l)),
  length-le_bytes 4 x,
  length-words l,
)

length-encoded : (x : Inode) → length x.direct ≡ 6 → length x.pad ≡ 3 → length (encode_inode x) ≡ 64
unfolding encode_inode inode_parts concat
length-encoded x d p =
    let after =
      le_bytes 4 x.indir_1 ++ (le_bytes 4 x.indir_2 ++ (concat (map (le_bytes 4) x.pad) ++ [])) in
    omega (
      arith,
      length-append (concat (map (le_bytes 4) x.direct)) after,
      length-append (concat (map (le_bytes 4) x.pad)) [],
      length-words x.direct,
      length-words x.pad,
      d,
      p,
    )

-- A name that fits into an entry.
abbrev pub IsShort : Bytes → Type 0
IsShort name = AreBytes name × (length name ≤ 28)

-- A range of offsets behind the maps and on the disk.
abbrev pub IsData : ℕ → ℕ → Type 0
IsData off n = (3072 ≤ off) × (off + n ≤ disk_size)

module _ {f : ℕ → Bool} {p i : ℕ} where
  put_data :
      (off : ℕ) (b : Bytes) (m : Maker)
      → AreBytes b
      → IsData off (length b)
      → Inv f p i m
      → EndsIn (put off b) (Inv f p i) m
  put_data off b m new (past, fits) h = put-Inv m h off b new (inr past, fits)

  pub put_entry-Inv :
      (de j : ℕ) (valid is_dir : Bool) (inode : ℕ) (name : Bytes) (m : Maker)
      → IsShort name
      → IsData (de + j * 32) 32
      → Inv f p i m
      → EndsIn (put_entry de j valid is_dir inode name) (Inv f p i) m
  unfolding put_entry encode_dirent
  put_entry-Inv de j valid is_dir inode name m (new, short) (past, fits) h =
      let w = bit_of valid + 2 * bit_of is_dir + 4 * inode in
      put_data (de + j * 32) (le_bytes 4 w ++ (name ++ replicate (28 - length name) 0)) m
        (AreBytes-append (le_bytes 4 w) _ (le_bytes-AreBytes 4 w)
          (AreBytes-append name _ new (AreBytes-zeros (28 - length name))))
        (
          past,
          omega (
            arith,
            fits,
            short,
            length-append name (replicate (28 - length name) 0),
            length-replicate {A = ℕ} (28 - length name) 0,
          ),
        )
        h

  pub put_inode-Inv :
      (inodes j mode t size : ℕ) (direct : List ℕ) (indir_1 : ℕ) (m : Maker)
      → length direct ≡ 6
      → IsData (inodes + j * 64) 64
      → Inv f p i m
      → EndsIn (put_inode inodes j mode t size direct indir_1) (Inv f p i) m
  unfolding put_inode
  put_inode-Inv inodes j mode t size direct indir_1 m six (past, fits) h =
      put_data (inodes + j * 64) (encode_inode x) m (AreBytes-encode_inode x)
        (past, omega (arith, fits, length-encoded x six refl)) h
    where
      x : Inode
      x = record {
        uid = 1000;
        gid = 1000;
        mode = mode;
        ctime = t;
        mtime = t;
        size = pos size;
        direct = direct;
        indir_1 = indir_1;
        indir_2 = 0;
        pad = replicate 3 0;
      }

  pub put_word-Inv :
      (off w : ℕ) (m : Maker)
      → IsData off 4
      → Inv f p i m
      → EndsIn (put off (le_bytes 4 w)) (Inv f p i) m
  put_word-Inv off w m (past, fits) h =
      put_data off (le_bytes 4 w) m (le_bytes-AreBytes 4 w)
        (past, omega (arith, fits, length-le_bytes 4 w)) h

  pub fill-Inv :
      (off c n : ℕ) (m : Maker)
      → c < 256
      → IsData off n
      → Inv f p i m
      → EndsIn (fill off c n) (Inv f p i) m
  unfolding fill
  fill-Inv off c n m byte (past, fits) h =
      put_data off (replicate n c) m (All-replicate (λ x. x < 256) n c byte)
        (past, omega (arith, fits, length-replicate n c)) h

  pub count_up-Inv :
      (n a blk : ℕ) (m : Maker)
      → IsData a (n * 4)
      → Inv f p i m
      → EndsIn (count_up n a blk) (Inv f p i) m
  unfolding count_up
  count_up-Inv zero a blk m d h = Gives-pure tt m h
  count_up-Inv (suc n) a blk m (past, fits) h =
      EndsIn-bind _ _ m (put_word-Inv a blk m (past, omega arith) h)
        λ t g. count_up-Inv n (a + 4) (blk + 1) t (omega arith, omega arith) g

  pub put_blocks-Inv :
      (a : ℕ) (ps : List ℕ) (m : Maker)
      → IsData a (length ps * 4)
      → Inv f p i m
      → EndsIn (put_blocks a ps) (Inv f p i) m
  unfolding put_blocks
  put_blocks-Inv a [] m d h = Gives-pure tt m h
  put_blocks-Inv a (q ∷ ps) m (past, fits) h =
      EndsIn-bind _ _ m (put_word-Inv a _ m (past, omega arith) h)
        λ t g. put_blocks-Inv (a + 4) ps t (omega arith, omega arith) g

  pub copy_blocks-Inv :
      (ps : List ℕ) (source : Bytes) (m : Maker)
      → All (λ q. IsData q 1024) ps
      → AreBytes source
      → Inv f p i m
      → EndsIn (copy_blocks ps source) (Inv f p i) m
  unfolding copy_blocks
  copy_blocks-Inv [] source m d b h = Gives-pure tt m h
  copy_blocks-Inv (q ∷ ps) source m ((past, fits), ds) b h =
      EndsIn-bind _ _ m
        (put_data q (take 1024 source) m (AreBytes-take 1024 source b)
          (past, omega (arith, fits, length-take 1024 source)) h)
        λ t g. copy_blocks-Inv ps (drop 1024 source) t ds (AreBytes-drop 1024 source b) g

-- The bits from `a` on are set.
abbrev pub marked : ℕ → ℕ → (ℕ → Bool) → ℕ → Bool
marked a n f k = if leb a k && ltb k (a + n) then true else f k

pub Inv-same :
    {f g : ℕ → Bool} {p i : ℕ} (m : Maker) → ((k : ℕ) → f k ≡ g k) → Inv f p i m → Inv g p i m
Inv-same m e h = record {
  bytes = h.bytes;
  size = h.size;
  bits = λ k lo hi. h.bits k lo hi ∙ ap ok (e k);
  ptr = h.ptr;
  inum = h.inum;
}

pub mark_from-Inv :
    {p i : ℕ} (base j n : ℕ) (f : ℕ → Bool) (m : Maker)
    → base * 8 + j + n ≤ 8 * disk_size
    → Inv f p i m
    → EndsIn (mark_from base j n) (Inv (marked (base * 8 + j) n f) p i) m
unfolding mark_from
mark_from-Inv base j zero f m small h = Gives-pure tt m (Inv-same m (λ k. ground arith) h)
mark_from-Inv base j (suc n) f m small h =
    EndsIn-bind _ _ m (mark-Inv m h base j (omega arith)) λ t g.
      let (u, run, k) =
        mark_from-Inv base (j + 1) n (λ k. if (base * 8 + j) == k then true else f k) t
          (omega arith) g in
      (u, run, Inv-same u (λ k. ground arith) k)
