-- ===== src/Memory/Laws.antt =====
-- The memory device works as the interface asks.
use file_system_implementati.Base.{
  ℕ, zero, suc, ◌+◌, ◌*◌, ◌%◌, ◌≤◌, ◌<◌, ◌≡◌, refl, sym, ap, ◌∙◌, ◌⊎◌, inl, some, List, [], ◌∷◌,
  ◌++◌, map, length, get_or, set, take, drop, replicate, arith, length-append, length-take,
  length-drop, length-replicate, length-set, get_or-set_self, get_or-set_ne, take-length_append,
}
use file_system_implementati.Layout.{Bytes, fs_block_size}
use file_system_implementati.Device.{AreBytes, IsDevice}
use file_system_implementati.Memory.{fit, gather, scatter, memory_read, memory_write, memory}

length-map_mod : (b : Bytes) → length (map (λ x. x % 256) b) ≡ length b
length-map_mod [] = refl
length-map_mod (x ∷ b) = ap suc (length-map_mod b)

length-fit : (b : Bytes) → length (fit b) ≡ fs_block_size
unfolding fit
length-fit b = omega (
  arith,
  length-take fs_block_size (map (λ x. x % 256) b ++ replicate fs_block_size 0),
  length-append (map (λ x. x % 256) b) (replicate fs_block_size 0),
  length-replicate {A = ℕ} fs_block_size 0,
)

pub AreBytes-take : (n : ℕ) (b : Bytes) → AreBytes b → AreBytes (take n b)
AreBytes-take zero b h = tt
AreBytes-take (suc n) [] h = tt
AreBytes-take (suc n) (x ∷ b) h = (h.0, AreBytes-take n b h.1)

pub AreBytes-drop : (n : ℕ) (b : Bytes) → AreBytes b → AreBytes (drop n b)
AreBytes-drop zero b h = h
AreBytes-drop (suc n) [] h = tt
AreBytes-drop (suc n) (x ∷ b) h = AreBytes-drop n b h.1

pub AreBytes-append : (b c : Bytes) → AreBytes b → AreBytes c → AreBytes (b ++ c)
AreBytes-append [] c h k = k
AreBytes-append (x ∷ b) c h k = (h.0, AreBytes-append b c h.1 k)

AreBytes-map_mod : (b : Bytes) → AreBytes (map (λ x. x % 256) b)
AreBytes-map_mod [] = tt
AreBytes-map_mod (x ∷ b) = (omega arith, AreBytes-map_mod b)

pub AreBytes-zeros : (n : ℕ) → AreBytes (replicate n 0)
AreBytes-zeros zero = tt
AreBytes-zeros (suc n) = (omega arith, AreBytes-zeros n)

AreBytes-fit : (b : Bytes) → AreBytes (fit b)
unfolding fit
AreBytes-fit b = AreBytes-take fs_block_size _ (
    AreBytes-append (map (λ x. x % 256) b) (replicate fs_block_size 0) (AreBytes-map_mod b)
      (AreBytes-zeros fs_block_size))

map_mod_self : (b : Bytes) → AreBytes b → map (λ x. x % 256) b ≡ b
map_mod_self [] h = refl
map_mod_self (x ∷ b) h = let e : x % 256 ≡ x = omega arith in rw (e, map_mod_self b h.1)

pub fit_self : (b : Bytes) → length b ≡ fs_block_size → AreBytes b → fit b ≡ b
unfolding fit
fit_self b e h = rw (map_mod_self b h) (
    ap (λ n. take n (b ++ replicate fs_block_size 0)) (sym e)
    ∙ take-length_append b (replicate fs_block_size 0))

length-gather : (n lba : ℕ) (d : List Bytes) → length (gather n lba d) ≡ n * fs_block_size
unfolding gather
length-gather zero lba d = omega arith
length-gather (suc n) lba d = omega (
  arith,
  length-append (fit (get_or d lba [])) (gather n (lba + 1) d),
  length-fit (get_or d lba []),
  length-gather n (lba + 1) d,
)

AreBytes-gather : (n lba : ℕ) (d : List Bytes) → AreBytes (gather n lba d)
unfolding gather
AreBytes-gather zero lba d = tt
AreBytes-gather (suc n) lba d =
    AreBytes-append _ _ (AreBytes-fit (get_or d lba [])) (AreBytes-gather n (lba + 1) d)

length-scatter : (n lba : ℕ) (b : Bytes) (d : List Bytes) → length (scatter n lba b d) ≡ length d
unfolding scatter
length-scatter zero lba b d = refl
length-scatter (suc n) lba b d =
    length-scatter n (lba + 1) (drop fs_block_size b) (set d lba (take fs_block_size b))
    ∙ length-set d lba (take fs_block_size b)

get_or-scatter_apart :
    (n lba i : ℕ) (b : Bytes) (d : List Bytes)
    → (i < lba) ⊎ (lba + n ≤ i)
    → get_or (scatter n lba b d) i [] ≡ get_or d i []
unfolding scatter
get_or-scatter_apart zero lba i b d h = refl
get_or-scatter_apart (suc n) lba i b d h =
    get_or-scatter_apart n (lba + 1) i (drop fs_block_size b) (set d lba (take fs_block_size b))
      (omega arith)
    ∙ get_or-set_ne d lba i (take fs_block_size b) [] (omega arith)

gather-scatter_apart :
    (n lba i k : ℕ) (b : Bytes) (d : List Bytes)
    → (i + k ≤ lba) ⊎ (lba + n ≤ i)
    → gather k i (scatter n lba b d) ≡ gather k i d
unfolding gather
gather-scatter_apart n lba i zero b d h = refl
gather-scatter_apart n lba i (suc k) b d h = rw (
  get_or-scatter_apart n lba i b d (omega arith),
  gather-scatter_apart n lba (i + 1) k b d (omega arith),
)

take-append-drop : (n : ℕ) (b : Bytes) → take n b ++ drop n b ≡ b
take-append-drop zero b = refl
take-append-drop (suc n) [] = refl
take-append-drop (suc n) (x ∷ b) = ap (λ t. x ∷ t) (take-append-drop n b)

gather-scatter_self :
    (n lba : ℕ) (b : Bytes) (d : List Bytes)
    → lba + n ≤ length d
    → length b ≡ n * fs_block_size
    → AreBytes b
    → gather n lba (scatter n lba b d) ≡ b
unfolding gather scatter
gather-scatter_self zero lba [] d h e k = refl
gather-scatter_self zero lba (x ∷ b) d h e k = absurd (omega arith)
gather-scatter_self (suc n) lba b d h e k =
    let first = take fs_block_size b in
    let rest = drop fs_block_size b in
    rw
      (
        get_or-scatter_apart n (lba + 1) lba rest (set d lba first) (inl (omega arith)),
        get_or-set_self d lba first [] (omega arith),
        fit_self first (omega (arith, length-take fs_block_size b))
            (AreBytes-take fs_block_size b k),
        gather-scatter_self n (lba + 1) rest (set d lba first)
            (omega (arith, length-set d lba first)) (omega (arith, length-drop fs_block_size b))
            (AreBytes-drop fs_block_size b k),
      )
      (take-append-drop fs_block_size b)

gather-read :
    (d : List Bytes) (lba n : ℕ) {b : Bytes} → memory_read d lba n ≡ some b → gather n lba d ≡ b
unfolding memory_read
gather-read d lba n h = ground arith

read_bound :
    (d : List Bytes) (lba n : ℕ) {b : Bytes} → memory_read d lba n ≡ some b → lba + n ≤ length d
unfolding memory_read
read_bound d lba n h = ground arith

-- The memory device meets the laws that homework.c relies on.
pub memory-IsDevice : IsDevice memory
unfolding memory_read memory_write
memory-IsDevice = record {
  reads = λ d lba n h. (gather n lba d, ground arith);
  read-inside = λ d lba n pos small h. read_bound d lba n h;
  length-read = λ d lba n small h. ground (arith, length-gather n lba d);
  bytes-read = λ d lba n h. rw (gather-read d lba n h) at (AreBytes-gather n lba d);
  writes = λ d b lba n h e. ground arith;
  blocks-write_any = λ d b lba n. ground (arith, length-scatter n lba b d);
  blocks-write = λ d b lba n h e. ground (arith, length-scatter n lba b d);
  read-write_self = λ d b lba n h e k.
      ground (arith, length-scatter n lba b d, gather-scatter_self n lba b d h e k);
  read-write_apart = λ d b lba n i k h e within a.
      ground (arith, length-scatter n lba b d, gather-scatter_apart n lba i k b d a);
}
