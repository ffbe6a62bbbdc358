-- ===== src/Mkfs/Stores.antt =====
-- What a store of mkfs-hw3.c leaves as it was, and what its loop marks.
use file_system_implementati.Base.{
  ℕ, zero, suc, ◌+◌, ◌*◌, ◌≤◌, ◌<◌, ◌≡◌, ◌⊎◌, inl, inr, refl, ap, sym, subst, ◌∙◌, true, [], ◌∷◌,
  ◌++◌, length-take, length-drop, length-append, ◌-◌, length, take, drop, get_elem?, leb, ltb, ◌&&◌,
  if◌then◌else◌, arith, Bool-cases,
}
use file_system_implementati.Outcome.{Outcome, ok, fault, >>=-eq-ok}
use file_system_implementati.Layout.{Bytes, fs_block_size}
use file_system_implementati.Device.{AreBytes}
use file_system_implementati.Memory.Laws.{AreBytes-take, AreBytes-drop, AreBytes-append}
use file_system_implementati.Bitmap.{bit_test}
use file_system_implementati.Bitmap.Laws.{bit_test-bit_set, bit_set-AreBytes}
use file_system_implementati.ReadImg.Ends.{ok-injective}
use file_system_implementati.Mkfs.{store, bit_set_at, mark_blocks}

get_elem?-append : (b c : Bytes) (i j : ℕ) → j ≡ length b + i → get_elem? (b ++ c) j ≡ get_elem? c i
get_elem?-append [] c i j e = ap (get_elem? c) (let e' : j ≡ i = omega arith in e')
get_elem?-append (x ∷ b) c i zero e = absurd (omega arith)
get_elem?-append (x ∷ b) c i (suc j) e = get_elem?-append b c i j (omega arith)

pub get_elem?-drop :
    (n : ℕ) (c : Bytes) (i j : ℕ) → j ≡ n + i → get_elem? (drop n c) i ≡ get_elem? c j
get_elem?-drop zero c i j e = ap (get_elem? c) (let e' : i ≡ j = omega arith in e')
get_elem?-drop (suc n) [] i j e = refl
get_elem?-drop (suc n) (x ∷ c) i zero e = absurd (omega arith)
get_elem?-drop (suc n) (x ∷ c) i (suc j) e = get_elem?-drop n c i j (omega arith)

get_elem?-take :
    (n : ℕ) (b c : Bytes) (i : ℕ)
    → i < n
    → n ≤ length b
    → get_elem? (take n b ++ c) i ≡ get_elem? b i
get_elem?-take zero b c i h k = absurd (omega arith)
get_elem?-take (suc n) [] c i h k = absurd (omega arith)
get_elem?-take (suc n) (x ∷ b) c zero h k = refl
get_elem?-take (suc n) (x ∷ b) c (suc i) h k = get_elem?-take n b c i (omega arith) (omega arith)

pub store-eq-ok :
    (disk : Bytes) (off : ℕ) (b : Bytes) {d : Bytes}
    → store disk off b ≡ ok d
    → (off + length b ≤ length disk) × (take off disk ++ (b ++ drop (off + length b) disk) ≡ d)
unfolding store
store-eq-ok disk off b h = elim (Bool-cases (leb (off + length b) (length disk))) [
  | inl e ↦ (ground arith, ok-injective (rw e at h))
  | inr e ↦ absurd (let h' : ◌≡◌ {A = Outcome Bytes} fault (ok _) = rw e at h in cc)
]

-- A store changes no byte outside it.
pub store_apart :
    (disk : Bytes) (off : ℕ) (b : Bytes) (i : ℕ) {d : Bytes}
    → store disk off b ≡ ok d
    → (i < off) ⊎ (off + length b ≤ i)
    → get_elem? d i ≡ get_elem? disk i
store_apart disk off b i h apart =
    let (fits, e) = store-eq-ok disk off b h in
    sym (ap (λ d. get_elem? d i) e) ∙ elim apart [
      | inl before ↦
          get_elem?-take off disk (b ++ drop (off + length b) disk) i before (omega arith)
      | inr behind ↦
          get_elem?-append (take off disk) (b ++ drop (off + length b) disk) (i - off) i
            (omega (arith, length-take {0} off disk))
          ∙ get_elem?-append b (drop (off + length b) disk) (i - (off + length b)) (i - off)
              (omega arith)
          ∙ get_elem?-drop (off + length b) disk (i - (off + length b)) i (omega arith)
    ]

pub store-AreBytes :
    (disk : Bytes) (off : ℕ) (b : Bytes) {d : Bytes}
    → store disk off b ≡ ok d
    → AreBytes disk
    → AreBytes b
    → AreBytes d × (length d ≡ length disk)
store-AreBytes disk off b h bytes new =
    let (fits, e) = store-eq-ok disk off b h in
    let behind = drop (off + length b) disk in
    (
      subst AreBytes e (
          AreBytes-append (take off disk) (b ++ behind) (AreBytes-take off disk bytes)
            (AreBytes-append b behind new (AreBytes-drop (off + length b) disk bytes))),
      omega (
        arith,
        ap length e,
        length-append {0} (take off disk) (b ++ behind),
        length-append {0} b behind,
        length-take {0} off disk,
        length-drop {0} (off + length b) disk,
      ),
    )

-- The bits of a map that the loop marks, and no other.
pub mark_blocks_lem :
    (n i base : ℕ) (disk : Bytes) (k : ℕ) {d : Bytes}
    → AreBytes disk
    → mark_blocks n i base disk ≡ ok d
    → AreBytes d
      × (length d ≡ length disk)
      × (bit_test d k ≡ (
          if leb (base * 8192 + i) k && ltb k (base * 8192 + (i + n))
          then ok true
          else bit_test disk k))
unfolding mark_blocks bit_set_at
mark_blocks_lem zero i base disk k bytes h =
    subst
      (λ d.
        AreBytes d
        × (length d ≡ length disk)
        × (bit_test d k ≡ (
            if leb (base * 8192 + i) k && ltb k (base * 8192 + (i + 0))
            then ok true
            else bit_test disk k)))
      (ok-injective h) (bytes, refl, ground arith)
mark_blocks_lem (suc n) i base disk k bytes h =
    let (m, e, h') = >>=-eq-ok (bit_set_at disk base i) _ h in
    let (bytes_m, length_m) = bit_set-AreBytes disk (base * fs_block_size * 8 + i) bytes e in
    let (bytes_d, length_d, same) = mark_blocks_lem n (i + 1) base m k bytes_m h' in
    let one = bit_test-bit_set disk (base * fs_block_size * 8 + i) k bytes e in
    (bytes_d, length_d ∙ length_m, ground arith)
