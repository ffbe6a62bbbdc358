-- ===== src/Bitmap/Laws.antt =====
-- What the bitmap functions do to the bits of a map.
use file_system_implementati.Base.{
  ℕ, ◌-◌, ◌*◌, ◌/◌, ◌%◌, ◌^◌, ◌<◌, ◌≡◌, refl, ap, inl, inr, Bool, true, false, not, ◌&&◌, some,
  All-get_elem?, bit_and, bit_or, arith, get_elem?, set, length, ltb, ◌==◌, if◌then◌else◌,
  Bool-cases, Option-cases, all_below, all_below_sound, get_elem?-get_or, get_or, All-set,
  get_elem?-set_self, get_elem?-set_ne, length_of_get_elem?, length-set,
}
use file_system_implementati.Outcome.{ok, in_bounds, ◌>>=◌}
use file_system_implementati.Layout.{Bytes}
use file_system_implementati.Device.{AreBytes}
use file_system_implementati.Bitmap.{mask, bit_set, bit_clear, bit_test}

-- The bits of a byte, by evaluation over all bytes and masks.
abbrev bit : ℕ → ℕ → Bool
bit b k = not (bit_and b (2 ^ k) == 0)

abbrev bool_eq : Bool → Bool → Bool
bool_eq true b = b
bool_eq false b = not b

bool_eq_sound : (a b : Bool) → bool_eq a b ≡ true → a ≡ b
bool_eq_sound a b h = ground arith

-- The byte `c` that replaces `b` has bit `k` at `v`, and the other bits of `b`.
abbrev row : Bool → ℕ → ℕ → ℕ → Bool
row v b c k = ltb c 256 && all_below 8 (λ j. bool_eq (bit c j) (if k == j then v else bit b j))

set_table : all_below 256 (λ b. all_below 8 (λ k. row true b (bit_or b (2 ^ k)) k)) ≡ true
unfolding all_below
set_table = refl

clear_table : all_below 256 (λ b. all_below 8 (λ k. row false b (bit_and b (255 - 2 ^ k)) k)) ≡ true
unfolding all_below
clear_table = refl

&&-true : (a b : Bool) → (a && b) ≡ true → (a ≡ true) × (b ≡ true)
&&-true a b h = ground arith

row_sound :
    (v : Bool) (b c k : ℕ)
    → row v b c k ≡ true
    → (c < 256) × ((j : ℕ) → j < 8 → bit c j ≡ (if k == j then v else bit b j))
row_sound v b c k h =
    let parts = &&-true (ltb c 256) _ h in
    (ground (arith, parts.0), λ j hj. bool_eq_sound _ _ (all_below_sound 8 _ j parts.1 hj))

-- A byte of the map is replaced by one that differs in bit `i % 8` alone.
abbrev Replaces : Bytes → ℕ → Bool → ℕ → ℕ → Type 0
Replaces map i v b c =
    (get_elem? map (i / 8) ≡ some b)
    × (c < 256)
    × ((j : ℕ) → j < 8 → bit c j ≡ (if (i % 8) == j then v else bit b j))

bit_test-replaced :
    (map : Bytes) (i j : ℕ) (v : Bool) (b c : ℕ)
    → Replaces map i v b c
    → bit_test (set map (i / 8) c) j ≡ (if i == j then ok v else bit_test map j)
unfolding bit_test
bit_test-replaced map i j v b c r = elim (Bool-cases ((i / 8) == (j / 8))) [
  | inl same ↦
      let e : i / 8 ≡ j / 8 = ground arith in
      ground (
        arith,
        e,
        r.0,
        r.2 (j % 8) (omega arith),
        get_elem?-set_self map (i / 8) c (length_of_get_elem? map (i / 8) r.0),
      )
  | inr other ↦ ground (arith, get_elem?-set_ne map (i / 8) (j / 8) c (ground arith))
]

Replaces-set :
    (map : Bytes) (i b : ℕ)
    → AreBytes map
    → get_elem? map (i / 8) ≡ some b
    → Replaces map i true b (bit_or b (mask i))
Replaces-set map i b h e =
    let hb = All-get_elem? (λ x. x < 256) map (i / 8) h e in
    let r =
      row_sound true b (bit_or b (mask i)) (i % 8)
        (all_below_sound 8 _ (i % 8) (all_below_sound 256 _ b set_table hb) (omega arith)) in
    (e, r.0, r.1)

Replaces-clear :
    (map : Bytes) (i b : ℕ)
    → AreBytes map
    → get_elem? map (i / 8) ≡ some b
    → Replaces map i false b (bit_and b (255 - mask i))
Replaces-clear map i b h e =
    let hb = All-get_elem? (λ x. x < 256) map (i / 8) h e in
    let r =
      row_sound false b (bit_and b (255 - mask i)) (i % 8)
        (all_below_sound 8 _ (i % 8) (all_below_sound 256 _ b clear_table hb) (omega arith)) in
    (e, r.0, r.1)

-- What a successful bit_set or bit_clear has stored.
pub bit_set-eq-ok :
    (map : Bytes) (i : ℕ) {m : Bytes}
    → bit_set map i ≡ ok m
    → (b : ℕ) × (get_elem? map (i / 8) ≡ some b) × (m ≡ set map (i / 8) (bit_or b (mask i)))
unfolding bit_set
bit_set-eq-ok map i e = elim (Option-cases (get_elem? map (i / 8))) [
  | inl out ↦ absurd (ground arith)
  | inr (b, at) ↦ (b, at, ground arith)
]

bit_clear-eq-ok :
    (map : Bytes) (i : ℕ) {m : Bytes}
    → bit_clear map i ≡ ok m
    → (b : ℕ) × (get_elem? map (i / 8) ≡ some b) × (m ≡ set map (i / 8) (bit_and b (255 - mask i)))
unfolding bit_clear
bit_clear-eq-ok map i e = elim (Option-cases (get_elem? map (i / 8))) [
  | inl out ↦ absurd (ground arith)
  | inr (b, at) ↦ (b, at, ground arith)
]

-- In a map of bytes, after a bit_set that stays in bounds bit `i` is set, and bit_test of every
-- other index, in bounds or not, is as before.
pub bit_test-bit_set :
    (map : Bytes) (i j : ℕ) {m : Bytes}
    → AreBytes map
    → bit_set map i ≡ ok m
    → bit_test m j ≡ (if i == j then ok true else bit_test map j)
bit_test-bit_set map i j h e =
    let (b, at, stored) = bit_set-eq-ok map i e in
    rw stored (bit_test-replaced map i j true b _ (Replaces-set map i b h at))

-- In a map of bytes, after a bit_clear that stays in bounds bit `i` is clear, and bit_test of every
-- other index, in bounds or not, is as before.
pub bit_test-bit_clear :
    (map : Bytes) (i j : ℕ) {m : Bytes}
    → AreBytes map
    → bit_clear map i ≡ ok m
    → bit_test m j ≡ (if i == j then ok false else bit_test map j)
bit_test-bit_clear map i j h e =
    let (b, at, stored) = bit_clear-eq-ok map i e in
    rw stored (bit_test-replaced map i j false b _ (Replaces-clear map i b h at))

-- Both keep a map of bytes of the same length.
pub bit_set-AreBytes :
    (map : Bytes) (i : ℕ) {m : Bytes}
    → AreBytes map
    → bit_set map i ≡ ok m
    → AreBytes m × (length m ≡ length map)
bit_set-AreBytes map i h e =
    let (b, at, stored) = bit_set-eq-ok map i e in
    rw stored (
      All-set (λ x. x < 256) map (i / 8) _ h (Replaces-set map i b h at).1,
      length-set map (i / 8) _,
    )

pub bit_clear-AreBytes :
    (map : Bytes) (i : ℕ) {m : Bytes}
    → AreBytes map
    → bit_clear map i ≡ ok m
    → AreBytes m × (length m ≡ length map)
bit_clear-AreBytes map i h e =
    let (b, at, stored) = bit_clear-eq-ok map i e in
    rw stored (
      All-set (λ x. x < 256) map (i / 8) _ h (Replaces-clear map i b h at).1,
      length-set map (i / 8) _,
    )

-- Inside the map bit_set, bit_clear and bit_test do not fault.
pub bit_test_in_bounds :
    (map : Bytes) (i : ℕ) → i < 8 * length map → (v : Bool) × (bit_test map i ≡ ok v)
unfolding bit_test
bit_test_in_bounds map i h = (
  bit (get_or map (i / 8) 0) (i % 8),
  ap (λ o. in_bounds o >>= λ b. ok (bit b (i % 8))) (get_elem?-get_or map (i / 8) 0 (omega arith)),
)

pub bit_set_in_bounds :
    (map : Bytes) (i : ℕ) → i < 8 * length map → (m : Bytes) × (bit_set map i ≡ ok m)
unfolding bit_set
bit_set_in_bounds map i h = (
  set map (i / 8) (bit_or (get_or map (i / 8) 0) (mask i)),
  ap (λ o. in_bounds o >>= λ b. ok (set map (i / 8) (bit_or b (mask i))))
      (get_elem?-get_or map (i / 8) 0 (omega arith)),
)

pub bit_clear_in_bounds :
    (map : Bytes) (i : ℕ) → i < 8 * length map → (m : Bytes) × (bit_clear map i ≡ ok m)
unfolding bit_clear
bit_clear_in_bounds map i h = (
  set map (i / 8) (bit_and (get_or map (i / 8) 0) (255 - mask i)),
  ap (λ o. in_bounds o >>= λ b. ok (set map (i / 8) (bit_and b (255 - mask i))))
      (get_elem?-get_or map (i / 8) 0 (omega arith)),
)
