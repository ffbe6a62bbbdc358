-- ===== src/Layout/Words.antt =====
-- Little-endian words, and arrays of equal chunks.
use mathlib.Core.List.{append_assoc}
use file_system_implementati.Base.{
  ℕ, zero, suc, ◌+◌, ◌*◌, ◌/◌, ◌^◌, ◌<◌, ◌≡◌, refl, sym, ap, ◌∙◌, List, [], ◌∷◌, ◌++◌, map, length,
  take, drop, All, arith, length-append, take-length_append, drop-length_append,
}
use file_system_implementati.Layout.{Bytes, le_bytes, le_value, chunks, concat}

pub length-le_bytes : (n w : ℕ) → length (le_bytes n w) ≡ n
unfolding le_bytes
length-le_bytes zero w = refl
length-le_bytes (suc n) w = ap suc (length-le_bytes n (w / 256))

pub le_value-le_bytes_2 : (w : ℕ) → w < 2 ^ 16 → le_value (le_bytes 2 w) ≡ w
unfolding le_value le_bytes
le_value-le_bytes_2 w h = omega arith

pub le_value-le_bytes_4 : (w : ℕ) → w < 2 ^ 32 → le_value (le_bytes 4 w) ≡ w
unfolding le_value le_bytes
le_value-le_bytes_4 w h = omega arith

pub le_bytes-AreBytes : (n w : ℕ) → All (λ b. b < 256) (le_bytes n w)
unfolding le_bytes
le_bytes-AreBytes zero w = tt
le_bytes-AreBytes (suc n) w = (omega arith, le_bytes-AreBytes n (w / 256))

-- A chunk in front of the rest.
pub take-append : (a b : Bytes) (n : ℕ) → length a ≡ n → take n (a ++ b) ≡ a
take-append a b n h = rw (← h) (take-length_append a b)

pub drop-append : (a b : Bytes) (n : ℕ) → length a ≡ n → drop n (a ++ b) ≡ b
drop-append a b n h = rw (← h) (drop-length_append a b)

pub drop_past : (a b : Bytes) (n m : ℕ) → length a ≡ n → drop (n + m) (a ++ b) ≡ drop m b
drop_past [] b n m h = let e : n + m ≡ m = omega arith in rw e
drop_past (x ∷ a) b zero m h = absurd (omega arith)
drop_past (x ∷ a) b (suc n) m h =
    let e : suc n + m ≡ suc (n + m) = omega arith in rw e (drop_past a b n m (omega arith))

-- An array of elements that are encoded to `k` bytes each and decoded one by one.
module _ {A : Type 0} (enc : A → Bytes) (dec : Bytes → A) (k : ℕ) (P : A → Type 0)
    (size : (a : A) → P a → length (enc a) ≡ k) (inverse : (a : A) → P a → dec (enc a) ≡ a) where
  pub decode-encode :
      (xs : List A) → All P xs → map dec (chunks (length xs) k (concat (map enc xs))) ≡ xs
  unfolding chunks concat
  decode-encode [] h = refl
  decode-encode (x ∷ xs) h =
      let rest = concat (map enc xs) in
      rw (
        take-append (enc x) rest k (size x h.0),
        drop-append (enc x) rest k (size x h.0),
        inverse x h.0,
        decode-encode xs h.1,
      )

  -- The same with more bytes behind the array.
  pub decode-encode_append :
      (n : ℕ) (xs : List A) (rest : Bytes)
      → length xs ≡ n
      → All P xs
      → map dec (chunks n k (concat (map enc xs) ++ rest)) ≡ xs
  unfolding chunks concat
  decode-encode_append zero [] rest e h = refl
  decode-encode_append zero (x ∷ xs) rest e h = absurd (omega arith)
  decode-encode_append (suc n) [] rest e h = absurd (omega arith)
  decode-encode_append (suc n) (x ∷ xs) rest e h =
      let more = concat (map enc xs) in
      rw (
        append_assoc (enc x) more rest,
        take-append (enc x) (more ++ rest) k (size x h.0),
        drop-append (enc x) (more ++ rest) k (size x h.0),
        inverse x h.0,
        decode-encode_append n xs rest (omega arith) h.1,
      )

  pub length-encode : (xs : List A) → All P xs → length (concat (map enc xs)) ≡ length xs * k
  unfolding concat
  length-encode [] h = omega arith
  length-encode (x ∷ xs) h =
      omega (arith, length-append (enc x) (concat (map enc xs)), size x h.0, length-encode xs h.1)

  pub decode-encode_at :
      (n : ℕ) (xs : List A)
      → length xs ≡ n
      → All P xs
      → map dec (chunks n k (concat (map enc xs))) ≡ xs
  decode-encode_at n xs e h =
      ap (λ m. map dec (chunks m k (concat (map enc xs)))) (sym e) ∙ decode-encode xs h
