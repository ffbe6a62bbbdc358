-- ===== src/Bitmap/Search.antt =====
-- The allocator's search for a clear bit, and the count of clear bits.
use file_system_implementati.Base.{
  ℕ, zero, suc, ◌+◌, ◌-◌, ◌*◌, ◌≤◌, ◌<◌, ◌≡◌, refl, inl, inr, Bool, true, false, arith, length,
  ◌==◌, if◌then◌else◌, Bool-cases,
}
use file_system_implementati.Outcome.{Outcome, ok, err, enospc, >>=-eq-ok}
use file_system_implementati.Layout.{Bytes}
use file_system_implementati.Device.{AreBytes}
use file_system_implementati.Bitmap.{bit_set, bit_test, first_clear, count_clear}
use file_system_implementati.Bitmap.Laws.{bit_test-bit_set, bit_test_in_bounds}

-- Bits `i` to `j` (without `j`) are set.
abbrev pub AllSet : Bytes → ℕ → ℕ → Type 0
AllSet map i j = (k : ℕ) → i ≤ k → k < j → bit_test map k ≡ ok true

-- What a search of `n` bits from bit `i` on can return.
pub data Found (map : Bytes) (i n : ℕ) : Outcome ℕ → Type 0 where
  found :
      {r : ℕ}
      → i ≤ r
      → r < i + n
      → bit_test map r ≡ ok false
      → AllSet map i r
      → Found map i n (ok r)
  full : AllSet map i (i + n) → Found map i n (err enospc)

AllSet-step :
    (map : Bytes) (i j : ℕ) → bit_test map i ≡ ok true → AllSet map (i + 1) j → AllSet map i j
AllSet-step map i j e h k lo hi = elim (Bool-cases (i == k)) [
  | inl same ↦ let p : i ≡ k = ground arith in rw (← p) e
  | inr other ↦ h k (ground arith) hi
]

Found-step :
    (map : Bytes) (i n : ℕ) {r : Outcome ℕ}
    → bit_test map i ≡ ok true
    → Found map (i + 1) n r
    → Found map i (suc n) r
Found-step map i n e (found lo hi clear set) =
    found (omega arith) (omega arith) clear (AllSet-step map i _ e set)
Found-step map i n e (full set) = full (AllSet-step map i _ e λ k lo hi. set k lo (omega arith))

Found-split :
    (map : Bytes) (i n : ℕ) (v : Bool)
    → bit_test map i ≡ ok v
    → Found map (i + 1) n (first_clear map n (i + 1))
    → Found map i (suc n) (elim v [ true ↦ first_clear map n (i + 1) | false ↦ ok i ])
Found-split map i n true e rest = Found-step map i n e rest
Found-split map i n false e rest =
    found (omega arith) (omega arith) e λ k lo hi. absurd (omega arith)

-- Inside the map, the search of `n` bits from bit `i` on returns the lowest clear bit of that range,
-- or -ENOSPC when every bit of the range is set; it never faults.
pub first_clear_lem :
    (map : Bytes) (n i : ℕ) → i + n ≤ 8 * length map → Found map i n (first_clear map n i)
unfolding first_clear
first_clear_lem map zero i h = full λ k lo hi. absurd (omega arith)
first_clear_lem map (suc n) i h =
    let (v, e) = bit_test_in_bounds map i (omega arith) in
    rw e (Found-split map i n v e (first_clear_lem map n (i + 1) (omega arith)))

-- The count does not see a bit outside its range.
count_clear-bit_set_apart :
    (map : Bytes) (n i b : ℕ) {m : Bytes}
    → AreBytes map
    → bit_set map b ≡ ok m
    → b < i
    → count_clear m n i ≡ count_clear map n i
unfolding count_clear
count_clear-bit_set_apart map zero i b h e lt = refl
count_clear-bit_set_apart map (suc n) i b h e lt = ground (
  arith,
  bit_test-bit_set map b i h e,
  count_clear-bit_set_apart map n (i + 1) b h e (omega arith),
)

-- The count of the rest of the range, and whether bit `i` is clear.
count_clear-suc :
    (map : Bytes) (n i : ℕ) {c : ℕ}
    → count_clear map (suc n) i ≡ ok c
    → (v : Bool) × (d : ℕ) × (bit_test map i ≡ ok v)
      × (count_clear map n (i + 1) ≡ ok d)
      × (c ≡ (if v then d else d + 1))
unfolding count_clear
count_clear-suc map n i e =
    let (v, at, e') = >>=-eq-ok (bit_test map i) _ e in
    let (d, rest, e'') = >>=-eq-ok (count_clear map n (i + 1)) _ e' in
    (v, d, at, rest, ground arith)

-- In a map of bytes, setting a clear bit of the counted range takes one off the count of clear bits.
pub count_clear-bit_set :
    (map : Bytes) (n i b : ℕ) {m : Bytes} {c : ℕ}
    → AreBytes map
    → bit_set map b ≡ ok m
    → bit_test map b ≡ ok false
    → i ≤ b
    → b < i + n
    → count_clear map n i ≡ ok c
    → (1 ≤ c) × (count_clear m n i ≡ ok (c - 1))
unfolding count_clear
count_clear-bit_set map zero i b h e clear lo hi count = absurd (omega arith)
count_clear-bit_set map (suc n) i b h e clear lo hi count =
    let (v, d, at, rest, sum) = count_clear-suc map n i count in
    elim (Bool-cases (i == b)) [
      | inl same ↦
          let p : i ≡ b = ground arith in
          ground (
            arith,
            p,
            bit_test-bit_set map b i h e,
            count_clear-bit_set_apart map n (i + 1) b h e (omega arith),
          )
      | inr other ↦ ground (
        arith,
        bit_test-bit_set map b i h e,
        count_clear-bit_set map n (i + 1) b h e clear (ground arith) (omega arith) rest,
      )
    ]
