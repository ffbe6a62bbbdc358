-- ===== src/Hw3/Listing.antt =====
-- What hw3_readdir returns, against fs_readdir.
use file_system_implementati.Base.{
  length-map, ℕ, zero, suc, ◌+◌, ◌≤◌, ◌<◌, ◌≡◌, refl, ap, ◌∙◌, List, [], ◌∷◌, ◌++◌, map, take, drop,
  length, min, length-append, length-take, arith, leb, ltb, true, false, ◌-◌, replicate, All,
  get_elem?, set, some,
}
use mathlib.Core.List.{append_assoc, append-nil}
use file_system_implementati.Base.Int.{pos}
use file_system_implementati.Outcome.{ok, ◌>>=◌}
use file_system_implementati.Layout.{Bytes}
use file_system_implementati.Device.{BlockDevice}
use file_system_implementati.Fs.{Fs, c_string}
use file_system_implementati.Attr.{Stat, fs_readdir}
use file_system_implementati.Hw3.{DirEntry, DirState, strncpy, filler, fill, hw3_readdir}

min_zero : (k : ℕ) → min k 0 ≡ 0
min_zero k = omega arith

min_first : (j k : ℕ) → min 0 j ≡ min 0 k
min_first j k = omega arith

min-suc : (k n : ℕ) → min (suc k) (suc n) ≡ suc (min k n)
min-suc k n = omega arith

-- The state after the entries `done`.
abbrev state : ℕ → List DirEntry → List DirEntry → DirState
state m done rest = record { max = pos m; i = length done; de = done ++ rest }

get_elem?-length :
    {A : Type 0} (xs ys : List A) (y : A) → get_elem? (xs ++ (y ∷ ys)) (length xs) ≡ some y
get_elem?-length [] ys y = refl
get_elem?-length (x ∷ xs) ys y = get_elem?-length xs ys y

set-length :
    {A : Type 0} (xs ys : List A) (y z : A) → set (xs ++ (y ∷ ys)) (length xs) z ≡ xs ++ (z ∷ ys)
set-length [] ys y z = refl
set-length (x ∷ xs) ys y z = ap (λ t. x ∷ t) (set-length xs ys y z)

filler_full :
    (m : ℕ) (done rest : List DirEntry) (e : Bytes × Stat)
    → m ≤ length done
    → filler (state m done rest) e ≡ ok (state m done rest)
unfolding filler
filler_full m done rest e full = ground arith

take-zeros : (n m : ℕ) → n ≤ m → take n (replicate {A = ℕ} m 0) ≡ replicate n 0
take-zeros zero m h = refl
take-zeros (suc n) zero h = absurd (omega arith)
take-zeros (suc n) (suc m) h = ap (λ t. 0 ∷ t) (take-zeros n m (omega arith))

take-padded :
    (n m : ℕ) (xs : Bytes)
    → n ≤ m
    → take n (xs ++ replicate m 0) ≡ take n xs ++ replicate (n - length xs) 0
take-padded zero m xs h = let none : 0 - length xs ≡ 0 = omega arith in rw none refl
take-padded (suc n) m [] h =
    let all : suc n - 0 ≡ suc n = omega arith in rw all (take-zeros (suc n) m h)
take-padded (suc n) zero (x ∷ xs) h = absurd (omega arith)
take-padded (suc n) (suc m) (x ∷ xs) h =
    let less : suc n - suc (length xs) ≡ n - length xs = omega arith in
    rw less (ap (λ t. x ∷ t) (take-padded n (suc m) xs (omega arith)))

-- The string ends inside its array.
abbrev pub Ended : Bytes × Stat → Type 0
Ended e = length (c_string e.0) < length e.0

-- The string cut to 64 bytes, or with zeros behind it up to 64.
abbrev pub stored : Bytes × Stat → DirEntry
stored e = record {
  name = take 64 (c_string e.0) ++ replicate (64 - length (c_string e.0)) 0;
  sb = e.1;
}

strncpy-Ended : (e : Bytes × Stat) → Ended e → strncpy 64 e.0 ≡ ok ((stored e).name)
unfolding strncpy
strncpy-Ended e h =
    let inside : ltb (length (c_string e.0)) (length e.0) ≡ true = ground (arith, h) in
    rw inside (ap ok (take-padded 64 64 (c_string e.0) (omega arith)))

filler_room :
    (m : ℕ) (done rest : List DirEntry) (r : DirEntry) (e : Bytes × Stat)
    → length done < m
    → Ended e
    → filler (state m done (r ∷ rest)) e ≡ ok (state m (done ++ (stored e ∷ [])) rest)
unfolding filler
filler_room m done rest r e room ended =
    let not_full : leb m (length done) ≡ false = ground arith in
    rw
      (
        not_full,
        get_elem?-length done rest r,
        strncpy-Ended e ended,
        set-length done rest r (stored e),
        length-append {0} done (stored e ∷ []),
        append_assoc done (stored e ∷ []) rest,
      )
      refl

-- With room for `k` more, the first `k` entries are stored.
fill_lem :
    (es : List (Bytes × Stat)) (m k : ℕ) (done rest : List DirEntry)
    → length done + k ≡ m
    → k ≤ length rest
    → All Ended (take k es)
    → fill (state m done rest) es
      ≡ ok (state m (done ++ map stored (take k es)) (drop (min k (length es)) rest))
unfolding fill
fill_lem [] m zero done rest e h t = rw (append-nil done) refl
fill_lem [] m (suc k) done rest e h t = rw (append-nil done, min_zero (suc k)) refl
fill_lem (x ∷ es) m zero done rest e h t = rw (filler_full m done rest x (omega arith)) (
    fill_lem es m zero done rest e h tt
    ∙ ap (λ j. ok (state m (done ++ []) (drop j rest))) (min_first (length es) (suc (length es))))
fill_lem (x ∷ es) m (suc k) done [] e h t = absurd (omega arith)
fill_lem (x ∷ es) m (suc k) done (r ∷ rest) e h t =
    let next =
      fill_lem es m k (done ++ (stored x ∷ [])) rest
        (omega (arith, length-append {0} done (stored x ∷ []))) (omega arith) t.1 in
    rw
      (
        filler_room m done rest r x (omega arith) t.0,
        min-suc k (length es),
        ← append_assoc done (stored x ∷ []) (map stored (take k es)),
      )
      next

-- Where fs_readdir lists the directory, hw3_readdir into an array with room for `n` entries returns
-- the smaller of `n` and the number of entries, and has stored that many of the first entries, each
-- with its attributes and its name cut to 64 bytes, or with zeros behind it up to 64, at the start of
-- the array and left the rest of it as it was, when the names stored end inside their arrays.
pub hw3_readdir_lem :
    {dev : BlockDevice} (fs : Fs dev) (path : Bytes) (n : ℕ) (de : List DirEntry)
    {es : List (Bytes × Stat)}
    → fs_readdir fs path ≡ ok es
    → n ≤ length de
    → All Ended (take n es)
    → hw3_readdir fs path (pos n) de
      ≡ ok (min n (length es), map stored (take n es) ++ drop (min n (length es)) de)
unfolding hw3_readdir
hw3_readdir_lem fs path n de {es} h room ended =
    let filled = fill_lem es n n [] de (omega arith) room ended in
    rw h (
      ap (λ o. o >>= λ d. ok (d.i, d.de)) filled
      ∙ ap (λ c. ok (c, map stored (take n es) ++ drop (min n (length es)) de))
          (omega (arith, length-map {0, 0} stored (take n es), length-take {0} n es)))
