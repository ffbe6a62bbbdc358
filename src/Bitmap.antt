-- ===== src/Bitmap.antt =====
-- The bitmap functions of homework.c. A map is an array of bytes; an index outside it is undefined
-- behaviour.
pub mod Laws
pub mod Search
use file_system_implementati.Base.{
  ℕ, zero, suc, ◌+◌, ◌-◌, ◌/◌, ◌%◌, ◌^◌, Bool, true, false, not, bit_and, bit_or, get_elem?, set,
  ◌==◌,
}
use file_system_implementati.Outcome.{Outcome, ok, err, enospc, in_bounds, ◌>>=◌}
use file_system_implementati.Layout.{Bytes}

-- the mask `1 << (i % 8)`
abbrev pub mask : ℕ → ℕ
mask i = 2 ^ (i % 8)

unfoldable pub bit_set : Bytes → ℕ → Outcome Bytes
bit_set map i = in_bounds (get_elem? map (i / 8)) >>= λ b. ok (set map (i / 8) (bit_or b (mask i)))

-- `~mask` cut to a byte is `255 - mask`.
unfoldable pub bit_clear : Bytes → ℕ → Outcome Bytes
bit_clear map i =
    in_bounds (get_elem? map (i / 8)) >>= λ b. ok (set map (i / 8) (bit_and b (255 - mask i)))

unfoldable pub bit_test : Bytes → ℕ → Outcome Bool
bit_test map i = in_bounds (get_elem? map (i / 8)) >>= λ b. ok (not (bit_and b (mask i) == 0))

-- The loop of get_next_inode and get_next_block: `n` rounds from index `i` on.
unfoldable pub first_clear : Bytes → ℕ → ℕ → Outcome ℕ
unfolding bit_test
first_clear map zero i = err enospc
first_clear map (suc n) i =
    bit_test map i >>= λ used. elim used [ true ↦ first_clear map n (i + 1) | false ↦ ok i ]

-- The loop of fs_statfs: how many of the `n` bits from `i` on are clear.
unfoldable pub count_clear : Bytes → ℕ → ℕ → Outcome ℕ
unfolding bit_test
count_clear map zero i = ok 0
count_clear map (suc n) i = bit_test map i >>= λ used.
    count_clear map n (i + 1) >>= λ c. ok (elim used [ true ↦ c | false ↦ c + 1 ])
