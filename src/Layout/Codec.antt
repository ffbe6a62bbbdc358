-- ===== src/Layout/Codec.antt =====
-- The structures survive being stored and loaded.
use file_system_implementati.Base.{
  ℕ, ◌+◌, ◌*◌, ◌^◌, ◌<◌, ◌≡◌, refl, ap, ap₂, ◌∙◌, List, [], ◌∷◌, ◌++◌, map, length, take, All,
  arith, length-append, take_all,
}
use file_system_implementati.Base.Int.{signed32, pattern32}
use file_system_implementati.Layout.{
  Bytes, Dirent, Inode, n_direct, le_bytes, le_value, chunks, concat, bit_of, dirent_of,
  encode_dirent, decode_dirent, encode_dir, decode_dir, inode_parts, encode_inode, decode_inode,
  encode_inodes, decode_inodes,
}
use file_system_implementati.Layout.Words.{
  length-le_bytes, le_value-le_bytes_2, le_value-le_bytes_4, le_bytes-AreBytes, decode-encode_at,
  decode-encode_append, drop_past, length-encode,
}

-- An entry that its bit-fields and its array can hold.
pub record IsDirent (d : Dirent) : Type 0 where
  pub inode : d.inode < 2 ^ 30
  pub name : length d.name ≡ 28

abbrev word : Dirent → ℕ
word d = bit_of d.valid + 2 * bit_of d.is_dir + 4 * d.inode

length-encode_dirent : (d : Dirent) → IsDirent d → length (encode_dirent d) ≡ 32
unfolding encode_dirent
length-encode_dirent d h = omega (arith, h.name)

bit_fields : (w : ℕ) (d : Dirent) → w ≡ word d → dirent_of w d.name ≡ d
bit_fields w d h = ground arith

pub decode-encode_dirent : (d : Dirent) → IsDirent d → decode_dirent (encode_dirent d) ≡ d
unfolding decode_dirent encode_dirent
decode-encode_dirent d h =
    ap₂ dirent_of (le_value-le_bytes_4 (word d) (ground arith))
      (take_all 28 d.name (omega (arith, h.name)))
    ∙ bit_fields (word d) d refl

-- A directory of entries that fit, when it has 32, survives being stored in a block and loaded.
pub decode_dir-encode_dir :
    (fd : List Dirent) → length fd ≡ 32 → All IsDirent fd → decode_dir (encode_dir fd) ≡ fd
unfolding decode_dir encode_dir
decode_dir-encode_dir fd n h =
    decode-encode_at encode_dirent decode_dirent 32 IsDirent length-encode_dirent
      decode-encode_dirent 32 fd n h

pub length-encode_dir :
    (fd : List Dirent) → length fd ≡ 32 → All IsDirent fd → length (encode_dir fd) ≡ 1024
unfolding encode_dir
length-encode_dir fd n h = omega (
  arith,
  length-encode encode_dirent decode_dirent 32 IsDirent length-encode_dirent decode-encode_dirent fd
      h,
  n,
)

-- The values that the fields of `struct fs_inode` hold.
pub record IsInode (i : Inode) : Type 0 where
  pub uid : i.uid < 2 ^ 16
  pub gid : i.gid < 2 ^ 16
  pub mode : i.mode < 2 ^ 32
  pub ctime : i.ctime < 2 ^ 32
  pub mtime : i.mtime < 2 ^ 32
  pub size_pattern : pattern32 i.size < 2 ^ 32
  pub size : signed32 (pattern32 i.size) ≡ i.size
  pub direct_length : length i.direct ≡ n_direct
  pub direct : All (λ a. a < 2 ^ 32) i.direct
  pub indir_1 : i.indir_1 < 2 ^ 32
  pub indir_2 : i.indir_2 < 2 ^ 32
  pub pad_length : length i.pad ≡ 3
  pub pad : All (λ a. a < 2 ^ 32) i.pad

words : List ℕ → Bytes
words l = concat (map (le_bytes 4) l)

length-words :
    (l : List ℕ) (n : ℕ) → length l ≡ n → All (λ a. a < 2 ^ 32) l → length (words l) ≡ n * 4
unfolding words
length-words l n e h = omega (
  arith,
  length-encode (le_bytes 4) le_value 4 (λ a. a < 2 ^ 32) (λ a _. length-le_bytes 4 a)
      le_value-le_bytes_4 l h,
  e,
)

module _ (l : List ℕ) (n : ℕ) (e : length l ≡ n) (h : All (λ a. a < 2 ^ 32) l) where
  decode-words : (rest : Bytes) → map le_value (chunks n 4 (words l ++ rest)) ≡ l
  unfolding words
  decode-words rest =
      decode-encode_append (le_bytes 4) le_value 4 (λ a. a < 2 ^ 32) (λ a _. length-le_bytes 4 a)
        le_value-le_bytes_4 n l rest e h

-- What follows the direct blocks in an inode.
abbrev after_direct : Inode → Bytes
after_direct i =
    le_bytes 4 i.indir_1 ++ (le_bytes 4 i.indir_2 ++ (concat (map (le_bytes 4) i.pad) ++ []))

pub length-encode_inode : (i : Inode) → IsInode i → length (encode_inode i) ≡ 64
unfolding encode_inode words
length-encode_inode i h = omega (
  arith,
  length-append (words i.direct) (after_direct i),
  length-append (words i.pad) [],
  length-words i.direct n_direct h.direct_length h.direct,
  length-words i.pad 3 h.pad_length h.pad,
)

-- Every inode whose fields fit survives being stored and loaded.
pub decode-encode_inode : (i : Inode) → IsInode i → decode_inode (encode_inode i) ≡ i
unfolding encode_inode decode_inode words
decode-encode_inode i h = λ k. record {
  uid = le_value-le_bytes_2 i.uid h.uid k;
  gid = le_value-le_bytes_2 i.gid h.gid k;
  mode = le_value-le_bytes_4 i.mode h.mode k;
  ctime = le_value-le_bytes_4 i.ctime h.ctime k;
  mtime = le_value-le_bytes_4 i.mtime h.mtime k;
  size = (ap signed32 (le_value-le_bytes_4 (pattern32 i.size) h.size_pattern) ∙ h.size) k;
  direct = decode-words i.direct n_direct h.direct_length h.direct (after_direct i) k;
  indir_1 =
      (ap (λ b. le_value (take 4 b)) (drop_past (words i.direct) (after_direct i) 24 0 direct_size)
          ∙ le_value-le_bytes_4 i.indir_1 h.indir_1)
        k;
  indir_2 =
      (ap (λ b. le_value (take 4 b)) (drop_past (words i.direct) (after_direct i) 24 4 direct_size)
          ∙ le_value-le_bytes_4 i.indir_2 h.indir_2)
        k;
  pad =
      (ap (λ b. map le_value (chunks 3 4 b))
            (drop_past (words i.direct) (after_direct i) 24 8 direct_size)
          ∙ decode-words i.pad 3 h.pad_length h.pad [])
        k;
}
  where
    direct_size : length (words i.direct) ≡ 24
    direct_size = length-words i.direct n_direct h.direct_length h.direct

-- A whole table of inodes.
pub decode_inodes-encode_inodes :
    (n : ℕ) (nodes : List Inode)
    → length nodes ≡ n
    → All IsInode nodes
    → decode_inodes n (encode_inodes nodes) ≡ nodes
unfolding decode_inodes encode_inodes
decode_inodes-encode_inodes n nodes e h =
    decode-encode_at encode_inode decode_inode 64 IsInode length-encode_inode decode-encode_inode n
      nodes e h

pub length-encode_inodes :
    (nodes : List Inode) → All IsInode nodes → length (encode_inodes nodes) ≡ length nodes * 64
unfolding encode_inodes
length-encode_inodes nodes h =
    length-encode encode_inode decode_inode 64 IsInode length-encode_inode decode-encode_inode nodes
      h

AreBytes-append :
    (b c : Bytes) → All (λ x. x < 256) b → All (λ x. x < 256) c → All (λ x. x < 256) (b ++ c)
AreBytes-append [] c h k = k
AreBytes-append (x ∷ b) c h k = (h.0, AreBytes-append b c h.1 k)

pub AreBytes-concat :
    (bs : List Bytes) → All (All (λ x. x < 256)) bs → All (λ x. x < 256) (concat bs)
unfolding concat
AreBytes-concat [] h = tt
AreBytes-concat (b ∷ bs) h = AreBytes-append b (concat bs) h.0 (AreBytes-concat bs h.1)

AreBytes-words : (l : List ℕ) → All (λ x. x < 256) (words l)
unfolding words
AreBytes-words l = AreBytes-concat (map (le_bytes 4) l) (all_words l)
  where
    all_words : (l : List ℕ) → All (All (λ x. x < 256)) (map (le_bytes 4) l)
    all_words [] = tt
    all_words (x ∷ l) = (le_bytes-AreBytes 4 x, all_words l)

AreBytes-parts : (i : Inode) → All (All (λ x. x < 256)) (inode_parts i)
unfolding inode_parts words
AreBytes-parts i =
    let b = le_bytes-AreBytes in
    let w = AreBytes-words in
    (
      b 2 i.uid,
      (
        b 2 i.gid,
        (
          b 4 i.mode,
          (
            b 4 i.ctime,
            (
              b 4 i.mtime,
              (
                b 4 (pattern32 i.size),
                (w i.direct, (b 4 i.indir_1, (b 4 i.indir_2, (w i.pad, tt)))),
              ),
            ),
          ),
        ),
      ),
    )

pub AreBytes-encode_inode : (i : Inode) → All (λ x. x < 256) (encode_inode i)
unfolding encode_inode
AreBytes-encode_inode i = AreBytes-concat (inode_parts i) (AreBytes-parts i)

pub AreBytes-encode_inodes : (nodes : List Inode) → All (λ x. x < 256) (encode_inodes nodes)
unfolding encode_inodes
AreBytes-encode_inodes [] = tt
AreBytes-encode_inodes (i ∷ nodes) =
    AreBytes-append (encode_inode i) (encode_inodes nodes) (AreBytes-encode_inode i)
      (AreBytes-encode_inodes nodes)
