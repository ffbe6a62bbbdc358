-- ===== src/DiskFile/Laws.antt =====
-- The image file as the block device that homework.c relies on.
use file_system_implementati.Base.{
  ℕ, zero, suc, ◌+◌, ◌-◌, ◌%◌, ◌^◌, ◌<◌, ◌≤◌, ◌≡◌, refl, ap, ◌∙◌, ◌⊎◌, inl, inr, true, some, [],
  ◌∷◌, take, drop, length, map, arith,
}
use file_system_implementati.Base.Int.{ℤ, pos}
use file_system_implementati.Layout.{Bytes}
use file_system_implementati.Device.{AreBytes}
use file_system_implementati.DiskFile.{Posix}

-- `b` stored in `c` at an offset, with zeros in a hole before it.
abbrev pub put : ℕ → Bytes → Bytes → Bytes
put zero [] c = c
put zero (x ∷ b) [] = x ∷ put zero b []
put zero (x ∷ b) (y ∷ c) = x ∷ put zero b c
put (suc n) b [] = 0 ∷ put n b []
put (suc n) b (y ∷ c) = y ∷ put n b c

abbrev pub cut : Bytes → Bytes
cut = map (λ x. x % 256)

-- What POSIX says of a regular file that is open for reading and writing, on a disk that does not
-- fail: where the position is, what is read from there and what a write leaves. A read or a write
-- moves at most 2^31 - 4096 bytes.
pub record IsPosix (os : Posix) : Type 0 where
  pub content : os.File → Bytes
  pub position : os.File → ℕ
  pub lseek-pos :
      (f : os.File) (n : ℕ)
      → n < 2 ^ 31
      → ((os.lseek f (pos n)).0 ≡ true) × (position (os.lseek f (pos n)).1 ≡ n)
  pub lseek-content : (f : os.File) (z : ℤ) → content (os.lseek f z).1 ≡ content f
  pub read-bytes : (f : os.File) (n : ℕ) {b : Bytes} → (os.read f n).0 ≡ some b → AreBytes b
  pub read-all :
      (f : os.File) (n : ℕ)
      → n ≤ 2 ^ 31 - 4096
      → (os.read f n).0 ≡ some (take n (drop (position f) (content f)))
  pub write-all :
      (f : os.File) (b : Bytes) (n : ℕ)
      → n ≤ 2 ^ 31 - 4096
      → length b ≡ n
      → ((os.write f b n).0 ≡ some n)
        × (content (os.write f b n).1 ≡ put (position f) (cut b) (content f))
  pub write-grows :
      (f : os.File) (b : Bytes) (n : ℕ) → length (content f) ≤ length (content (os.write f b n).1)

pub length-put : (n : ℕ) (b c : Bytes) → n + length b ≤ length c → length (put n b c) ≡ length c
length-put zero [] c h = refl
length-put zero (x ∷ b) [] h = absurd (omega arith)
length-put zero (x ∷ b) (y ∷ c) h = omega (arith, length-put zero b c (omega arith))
length-put (suc n) b [] h = absurd (omega arith)
length-put (suc n) b (y ∷ c) h = omega (arith, length-put n b c (omega arith))

pub length-put_behind :
    (n : ℕ) (b c : Bytes) → length c ≤ n + length b → length (put n b c) ≡ n + length b
length-put_behind zero [] [] h = refl
length-put_behind zero [] (y ∷ c) h = absurd (omega arith)
length-put_behind zero (x ∷ b) [] h = omega (arith, length-put_behind zero b [] (omega arith))
length-put_behind zero (x ∷ b) (y ∷ c) h = omega (arith, length-put_behind zero b c (omega arith))
length-put_behind (suc n) b [] h = omega (arith, length-put_behind n b [] (omega arith))
length-put_behind (suc n) b (y ∷ c) h = omega (arith, length-put_behind n b c (omega arith))

pub take-drop-put_self :
    (n : ℕ) (b c : Bytes) → n + length b ≤ length c → take (length b) (drop n (put n b c)) ≡ b
take-drop-put_self zero [] c h = refl
take-drop-put_self zero (x ∷ b) [] h = absurd (omega arith)
take-drop-put_self zero (x ∷ b) (y ∷ c) h =
    ap (λ t. x ∷ t) (take-drop-put_self zero b c (omega arith))
take-drop-put_self (suc n) b [] h = absurd (omega arith)
take-drop-put_self (suc n) b (y ∷ c) h = take-drop-put_self n b c (omega arith)

take-put : (k n : ℕ) (b c : Bytes) → k ≤ n → n ≤ length c → take k (put n b c) ≡ take k c
take-put zero n b c h h' = refl
take-put (suc k) zero b c h h' = absurd (omega arith)
take-put (suc k) (suc n) b [] h h' = absurd (omega arith)
take-put (suc k) (suc n) b (y ∷ c) h h' =
    ap (λ t. y ∷ t) (take-put k n b c (omega arith) (omega arith))

drop-put :
    (k n : ℕ) (b c : Bytes)
    → n + length b ≤ k
    → n + length b ≤ length c
    → drop k (put n b c) ≡ drop k c
drop-put k zero [] c h h' = refl
drop-put k zero (x ∷ b) [] h h' = absurd (omega arith)
drop-put zero zero (x ∷ b) (y ∷ c) h h' = absurd (omega arith)
drop-put (suc k) zero (x ∷ b) (y ∷ c) h h' = drop-put k zero b c (omega arith) (omega arith)
drop-put k (suc n) b [] h h' = absurd (omega arith)
drop-put zero (suc n) b (y ∷ c) h h' = absurd (omega arith)
drop-put (suc k) (suc n) b (y ∷ c) h h' = drop-put k n b c (omega arith) (omega arith)

-- A part of the content that a write does not touch.
pub slice-put :
    (i k n : ℕ) (b c : Bytes)
    → n + length b ≤ length c
    → (i + k ≤ n) ⊎ (n + length b ≤ i)
    → take k (drop i (put n b c)) ≡ take k (drop i c)
slice-put zero k n b c h (inl before) = take-put k n b c (omega arith) (omega arith)
slice-put (suc i) k zero b c h (inl before) = absurd (omega arith)
slice-put (suc i) k (suc n) b [] h (inl before) = absurd (omega arith)
slice-put (suc i) k (suc n) b (y ∷ c) h (inl before) =
    slice-put i k n b c (omega arith) (inl (omega arith))
slice-put i k n b c h (inr after) = ap (take k) (drop-put i n b c after h)

pub length-cut : (b : Bytes) → length (cut b) ≡ length b
length-cut [] = refl
length-cut (x ∷ b) = ap suc (length-cut b)

pub cut_self : (b : Bytes) → AreBytes b → cut b ≡ b
cut_self [] h = refl
cut_self (x ∷ b) h =
    let e : x % 256 ≡ x = omega arith in ap (λ t. x % 256 ∷ t) (cut_self b h.1) ∙ ap (λ y. y ∷ b) e

AreBytes-cut : (b : Bytes) → AreBytes (cut b)
AreBytes-cut [] = tt
AreBytes-cut (x ∷ b) = (omega arith, AreBytes-cut b)
