-- ===== src/Memory/Slices.antt =====
-- What is read from a disk in memory that holds an image.
use file_system_implementati.Base.{
  ℕ, zero, suc, ◌+◌, ◌*◌, ◌≤◌, ◌<◌, ◌≡◌, refl, sym, ap, ap₂, ◌∙◌, some, none, [], ◌∷◌, ◌++◌, map,
  length, get_or, get_elem?, take, drop, arith, length-take, length-drop,
}
use file_system_implementati.Layout.{Bytes, fs_block_size, chunks}
use file_system_implementati.Device.{AreBytes}
use file_system_implementati.Mkfs.Stores.{get_elem?-drop}
use file_system_implementati.Memory.{fit, gather, memory_read, disk_of}
use file_system_implementati.Memory.Laws.{fit_self, AreBytes-take, AreBytes-drop}

drop-empty : (n : ℕ) → drop {A = ℕ} n [] ≡ []
drop-empty zero = refl
drop-empty (suc n) = refl

take-empty : (n : ℕ) → take {A = ℕ} n [] ≡ []
take-empty zero = refl
take-empty (suc n) = refl

pub drop-drop : (n m : ℕ) (b : Bytes) → drop n (drop m b) ≡ drop (m + n) b
drop-drop n zero b = let e : 0 + n ≡ n = omega arith in rw e refl
drop-drop n (suc m) [] = drop-empty n ∙ sym (drop-empty (suc m + n))
drop-drop n (suc m) (x ∷ b) =
    let e : suc m + n ≡ suc (m + n) = omega arith in rw e (drop-drop n m b)

pub take-plus : (n m : ℕ) (b : Bytes) → take (n + m) b ≡ take n b ++ take m (drop n b)
take-plus zero m b = let e : 0 + m ≡ m = omega arith in rw e refl
take-plus (suc n) m [] = take-empty (suc n + m) ∙ sym (take-empty m)
take-plus (suc n) m (x ∷ b) =
    let e : suc n + m ≡ suc (n + m) = omega arith in rw e (ap (λ t. x ∷ t) (take-plus n m b))

-- The elements of an array of chunks.
pub get_or-chunks :
    (n k j : ℕ) (b : Bytes) → j < n → get_or (chunks n k b) j [] ≡ take k (drop (j * k) b)
unfolding chunks
get_or-chunks zero k j b h = absurd (omega arith)
get_or-chunks (suc n) k zero b h = let e : 0 * k ≡ 0 = omega arith in rw e refl
get_or-chunks (suc n) k (suc j) b h =
    get_or-chunks n k j (drop k b) (omega arith)
    ∙ ap (take k) (drop-drop (j * k) k b)
    ∙ ap (λ m. take k (drop m b)) (let e : k + j * k ≡ suc j * k = omega arith in e)

pub length-chunks : (n k : ℕ) (b : Bytes) → length (chunks n k b) ≡ n
unfolding chunks
length-chunks zero k b = refl
length-chunks (suc n) k b = ap suc (length-chunks n k (drop k b))

module _ (n : ℕ) (image : Bytes) (size : length image ≡ n * fs_block_size)
    (bytes : AreBytes image) where
  gather-chunks :
      (k lba : ℕ)
      → lba + k ≤ n
      → gather k lba (chunks n fs_block_size image)
        ≡ take (k * fs_block_size) (drop (lba * fs_block_size) image)
  unfolding gather
  gather-chunks zero lba h = refl
  gather-chunks (suc k) lba h =
      let x = drop (lba * fs_block_size) image in
      ap₂ (λ a b. a ++ b)
        (ap fit (get_or-chunks n fs_block_size lba image (omega arith))
          ∙ fit_self (take fs_block_size x)
              (omega
                (arith, length-take fs_block_size x, length-drop (lba * fs_block_size) image, size))
              (AreBytes-take fs_block_size x (AreBytes-drop (lba * fs_block_size) image bytes)))
        (gather-chunks k (lba + 1) (omega arith)
          ∙ ap (take (k * fs_block_size)) (
              ap (λ m. drop m image)
                (let e : (lba + 1) * fs_block_size ≡ lba * fs_block_size + fs_block_size =
                    omega arith in
                  e)
              ∙ sym (drop-drop fs_block_size (lba * fs_block_size) image)))
      ∙ sym (take-plus fs_block_size (k * fs_block_size) x)
      ∙ ap (λ m. take m x)
          (let e : fs_block_size + k * fs_block_size ≡ suc k * fs_block_size = omega arith in e)

  pub memory_read-disk_of :
      (lba k : ℕ)
      → lba + k ≤ n
      → memory_read (disk_of n image) lba k
        ≡ some (take (k * fs_block_size) (drop (lba * fs_block_size) image))
  unfolding memory_read
  memory_read-disk_of lba k h =
      ground (arith, length-chunks n fs_block_size image, gather-chunks k lba h)

-- The same bytes in a range.
take_same :
    (m : ℕ) (d e : Bytes) → ((i : ℕ) → i < m → get_elem? d i ≡ get_elem? e i) → take m d ≡ take m e
take_same zero d e h = refl
take_same (suc m) [] [] h = refl
take_same (suc m) [] (y ∷ e) h = absurd (let p : none ≡ some y = h 0 (omega arith) in cc)
take_same (suc m) (x ∷ d) [] h = absurd (let p : some x ≡ none = h 0 (omega arith) in cc)
take_same (suc m) (x ∷ d) (y ∷ e) h =
    let p : some x ≡ some y = h 0 (omega arith) in
    let q : x ≡ y = cc in ap₂ (λ a b. a ∷ b) q (take_same m d e λ i small. h (suc i) (omega arith))

get_elem?-take : (n i : ℕ) (b : Bytes) → i < n → get_elem? (take n b) i ≡ get_elem? b i
get_elem?-take zero i b h = absurd (omega arith)
get_elem?-take (suc n) i [] h = refl
get_elem?-take (suc n) zero (x ∷ b) h = refl
get_elem?-take (suc n) (suc i) (x ∷ b) h = get_elem?-take n i b (omega arith)

pub slice_same :
    (off m : ℕ) (d e : Bytes)
    → ((i : ℕ) → off ≤ i → i < off + m → get_elem? d i ≡ get_elem? e i)
    → take m (drop off d) ≡ take m (drop off e)
slice_same off m d e h = take_same m (drop off d) (drop off e) λ i small.
    get_elem?-drop off d i (off + i) (omega arith)
    ∙ h (off + i) (omega arith) (omega arith)
    ∙ sym (get_elem?-drop off e i (off + i) (omega arith))

-- A slice of a slice.
pub slice-within :
    (off m n : ℕ) (b : Bytes) → off + m ≤ n → take m (drop off (take n b)) ≡ take m (drop off b)
slice-within off m n b h =
    slice_same off m (take n b) b λ i lo hi. get_elem?-take n i b (omega arith)

pub get_elem?-chunks :
    {A : Type 0} (f : Bytes → A) (n k j : ℕ) (b : Bytes)
    → j < n
    → get_elem? (map f (chunks n k b)) j ≡ some (f (take k (drop (j * k) b)))
unfolding chunks
get_elem?-chunks f zero k j b h = absurd (omega arith)
get_elem?-chunks f (suc n) k zero b h = let e : 0 * k ≡ 0 = omega arith in rw e refl
get_elem?-chunks f (suc n) k (suc j) b h =
    get_elem?-chunks f n k j (drop k b) (omega arith)
    ∙ ap (λ x. some (f (take k x))) (drop-drop (j * k) k b)
    ∙ ap (λ m. some (f (take k (drop m b)))) (let e : k + j * k ≡ suc j * k = omega arith in e)

pub get_elem?-slice :
    (off m i : ℕ) (b : Bytes) → i < m → get_elem? (take m (drop off b)) i ≡ get_elem? b (off + i)
get_elem?-slice off m i b h =
    get_elem?-take m i (drop off b) h ∙ get_elem?-drop off b i (off + i) (omega arith)
