-- ===== src/ReadImg/Blocks.antt =====
-- The blocks that read-img.c prints as unreachable.
use mathlib.Core.List.{Memᴰ}
use mathlib.Core.List.Memᴰ
use native.Mathlib.Decide.{dec_lt}
use file_system_implementati.Base.{
  ℕ, zero, suc, ◌+◌, ◌-◌, ◌≤◌, ◌<◌, ◌≡◌, ◌↔◌, ◌⊎◌, inl, inr, refl, ap, sym, subst, Bool, true,
  false, List, ◌∷◌, if◌then◌else◌, arith,
}
use file_system_implementati.Outcome.{Outcome, ok, >>=-eq-ok}
use file_system_implementati.Layout.{Bytes}
use file_system_implementati.Bitmap.{bit_test}
use file_system_implementati.ReadImg.{
  Image, Line, State, next, explore, first_block, marked_free, test_at, unreachable_block,
  unreachable_blocks, block_map_at,
}
use file_system_implementati.ReadImg.Ends.{ok-injective}
use file_system_implementati.ReadImg.Reported.{IsFree, explore-Told}

block_of : Line → ℕ
block_of (unreachable_block i) = i
block_of _ = 0

printed-cases :
    (i j : ℕ) (used : Bool) (rest : List Line)
    → Memᴰ (unreachable_block j) (if used then rest else unreachable_block i ∷ rest)
    → ((j ≡ i) × (used ≡ false)) ⊎ Memᴰ (unreachable_block j) rest
unfolding block_of
printed-cases i j true rest m = inr m
printed-cases i j false rest m = elim (Memᴰ.cases_cons m) [
  | inl e ↦ inl (ap block_of e, refl)
  | inr r ↦ inr r
]

-- What one round prints.
abbrev printed : ℕ → Bool → List Line → List Line
printed i used rest = if used then rest else unreachable_block i ∷ rest

printed-first :
    (i j : ℕ) (used : Bool) (rest : List Line)
    → used ≡ false
    → j ≡ i
    → Memᴰ (unreachable_block j) (printed i used rest)
printed-first i j true rest u e = absurd (cc)
printed-first i j false rest u e = Memᴰ.head (ap unreachable_block e)

printed-rest :
    (i j : ℕ) (used : Bool) (rest : List Line)
    → Memᴰ (unreachable_block j) rest
    → Memᴰ (unreachable_block j) (printed i used rest)
printed-rest i j true rest m = m
printed-rest i j false rest m = Memᴰ.tail m

reached_iff :
    (seen used : Bool) (m n : Outcome Bool)
    → m ≡ ok seen
    → (if seen then n else ok true) ≡ ok used
    → (used ≡ false) ↔ ((m ≡ ok true) × (n ≡ ok false))
reached_iff true false m n e h = (λ u. (e, h), λ _. refl)
reached_iff true true m n e h = (λ u. absurd (cc), λ (_, f). absurd (cc))
reached_iff false used m n e h = (λ u. absurd (cc), λ (t, _). absurd (cc))

module _ (img : Image) (blkmap : Bytes) where
  -- Marked, but not in the map of the disk.
  abbrev IsReached : ℕ → Type 0
  IsReached i = (bit_test blkmap i ≡ ok true) × IsFree img i

  unreachable_blocks-suc :
      (n i : ℕ) {lines : List Line}
      → unreachable_blocks img blkmap (suc n) i ≡ ok lines
      → (used : Bool) × (rest : List Line) × (unreachable_blocks img blkmap n (i + 1) ≡ ok rest)
        × (lines ≡ printed i used rest)
        × ((used ≡ false) ↔ IsReached i)
  unfolding unreachable_blocks
  unreachable_blocks-suc n i h =
      let (seen, e0, h1) = >>=-eq-ok (bit_test blkmap i) _ h in
      let (used, e1, h2) =
        >>=-eq-ok (if seen then test_at img.disk (block_map_at img.sb) i else ok true) _ h1 in
      let (rest, e2, h3) = >>=-eq-ok (unreachable_blocks img blkmap n (i + 1)) _ h2 in
      (used, rest, e2, sym (ok-injective h3), reached_iff seen used _ _ e0 e1)

  unreachable_blocks_iff :
      (n i : ℕ) (lines : List Line) (j : ℕ)
      → unreachable_blocks img blkmap n i ≡ ok lines
      → Memᴰ (unreachable_block j) lines ↔ ((i ≤ j) × (j < i + n) × IsReached j)
  unfolding unreachable_blocks
  unreachable_blocks_iff zero i lines j h = (
    λ m. absurd (Memᴰ.not-nil (subst (λ l. Memᴰ (unreachable_block j) l) (sym (ok-injective h)) m)),
    λ (lo, hi, _). absurd (omega arith),
  )
  unreachable_blocks_iff (suc n) i lines j h =
      let (used, rest, e, is, iff) = unreachable_blocks-suc n i h in
      let (before, behind) = unreachable_blocks_iff n (i + 1) rest j e in
      (
        λ m. elim (printed-cases i j used rest (subst (λ l. Memᴰ (unreachable_block j) l) is m)) [
          | inl (same, l) ↦ (omega arith, omega arith, subst IsReached (sym same) (iff.0 l))
          | inr r ↦ let (lo, hi, l) = before r in (omega arith, omega arith, l)
        ],
        λ (lo, hi, l).
            subst (λ l. Memᴰ (unreachable_block j) l) (sym is)
              (elim (dec_lt i j) [
                | yes lt ↦ printed-rest i j used rest (behind (omega arith, omega arith, l))
                | no ge ↦
                    let same : j ≡ i = omega arith in
                    printed-first i j used rest (iff.1 (subst IsReached same l)) same
              ]),
      )

-- When the walk of read-img.c comes to its end without finding an inode twice, and the loop over the
-- blocks behind the inodes that follows it ends, a block that had not been printed as marked free
-- before the walk is printed by this loop as unreachable exactly when it lies in the range of the loop
-- and the walk has printed, on reaching it, that it is marked free. So each of them is free in the map
-- of the image.
pub unreachable_blocks_lem :
    (img : Image) (out : List Line) (t : State) (lines : List Line) (j : ℕ)
    → ¬ Memᴰ (marked_free j) out
    → explore img out ≡ ok (next t)
    → unreachable_blocks img t.blkmap (img.sb.num_blocks - first_block img.sb) (first_block img.sb)
      ≡ ok lines
    → (Memᴰ (unreachable_block j) lines
        ↔ ((first_block img.sb ≤ j) × (j < img.sb.num_blocks) × Memᴰ (marked_free j) t.out))
      × (Memᴰ (unreachable_block j) lines → test_at img.disk (block_map_at img.sb) j ≡ ok false)
unreachable_blocks_lem img out t lines j none over h =
    let (marked, reported) = (explore-Told img j out none over).iff in
    let (before, behind) = unreachable_blocks_iff img t.blkmap _ (first_block img.sb) lines j h in
    (
      (
        λ m. let (lo, hi, r) = before m in (lo, omega arith, marked r),
        λ (lo, hi, r). behind (lo, omega arith, reported r),
      ),
      λ m. let (_, _, (_, free)) = before m in free,
    )
