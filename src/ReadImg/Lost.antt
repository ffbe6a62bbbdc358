-- ===== src/ReadImg/Lost.antt =====
-- The inodes that read-img.c prints as unreachable.
use mathlib.Core.List.{Memᴰ}
use mathlib.Core.List.Memᴰ
use native.Mathlib.Decide.{dec_lt}
use file_system_implementati.Base.{
  ℕ, zero, suc, ◌+◌, ◌-◌, ◌≤◌, ◌<◌, ◌≡◌, ◌↔◌, ◌⊎◌, inl, inr, refl, ap, sym, subst, ◌∙◌, Bool, true,
  false, List, ◌∷◌, if◌then◌else◌, arith, Bool-cases,
}
use file_system_implementati.Outcome.{Outcome, ok, >>=-eq-ok}
use file_system_implementati.Layout.{Bytes}
use file_system_implementati.Bitmap.{bit_test}
use file_system_implementati.ReadImg.{
  Image, Line, State, next, test_at, unreachable_inode, unreachable_inodes, max_inodes, explore,
  inode_map_at,
}
use file_system_implementati.ReadImg.Ends.{ok-injective}
use file_system_implementati.ReadImg.Tree.{Reachable}
use file_system_implementati.ReadImg.Complete.{explore_iff}

lost_iff :
    (seen lost : Bool) (m n : Outcome Bool)
    → m ≡ ok seen
    → (if seen then ok false else n) ≡ ok lost
    → (lost ≡ true) ↔ ((m ≡ ok false) × (n ≡ ok true))
lost_iff true lost m n e h = (λ l. absurd (cc), λ (f, _). absurd (cc))
lost_iff false true m n e h = (λ l. (e, h), λ _. refl)
lost_iff false false m n e h = (λ l. absurd (cc), λ (_, f). absurd (cc))

inode_of : Line → ℕ
inode_of (unreachable_inode i) = i
inode_of _ = 0

-- What one round prints.
abbrev printed : ℕ → Bool → List Line → List Line
printed i lost rest = if lost then unreachable_inode i ∷ rest else rest

printed-cases :
    (i j : ℕ) (lost : Bool) (rest : List Line)
    → Memᴰ (unreachable_inode j) (printed i lost rest)
    → ((j ≡ i) × (lost ≡ true)) ⊎ Memᴰ (unreachable_inode j) rest
unfolding inode_of
printed-cases i j false rest m = inr m
printed-cases i j true rest m = elim (Memᴰ.cases_cons m) [
  | inl e ↦ inl (ap inode_of e, refl)
  | inr r ↦ inr r
]

printed-first :
    (i j : ℕ) (lost : Bool) (rest : List Line)
    → lost ≡ true
    → j ≡ i
    → Memᴰ (unreachable_inode j) (printed i lost rest)
printed-first i j true rest l e = Memᴰ.head (ap unreachable_inode e)
printed-first i j false rest l e = absurd (cc)

printed-rest :
    (i j : ℕ) (lost : Bool) (rest : List Line)
    → Memᴰ (unreachable_inode j) rest
    → Memᴰ (unreachable_inode j) (printed i lost rest)
printed-rest i j true rest m = Memᴰ.tail m
printed-rest i j false rest m = m

module _ (img : Image) (imap : Bytes) where
  -- In the map of the disk, but not marked.
  abbrev IsLost : ℕ → Type 0
  IsLost i = (bit_test imap i ≡ ok false) × (test_at img.disk inode_map_at i ≡ ok true)

  unreachable_inodes-suc :
      (n i : ℕ) {lines : List Line}
      → unreachable_inodes img imap (suc n) i ≡ ok lines
      → (lost : Bool) × (rest : List Line) × (unreachable_inodes img imap n (i + 1) ≡ ok rest)
        × (lines ≡ printed i lost rest)
        × ((lost ≡ true) ↔ IsLost i)
  unfolding unreachable_inodes
  unreachable_inodes-suc n i h =
      let (seen, e0, h1) = >>=-eq-ok (bit_test imap i) _ h in
      let (lost, e1, h2) =
        >>=-eq-ok (if seen then ok false else test_at img.disk inode_map_at i) _ h1 in
      let (rest, e2, h3) = >>=-eq-ok (unreachable_inodes img imap n (i + 1)) _ h2 in
      (lost, rest, e2, sym (ok-injective h3), lost_iff seen lost _ _ e0 e1)

  unreachable_inodes_iff :
      (n i : ℕ) (lines : List Line) (j : ℕ)
      → unreachable_inodes img imap n i ≡ ok lines
      → Memᴰ (unreachable_inode j) lines ↔ ((i ≤ j) × (j < i + n) × IsLost j)
  unfolding unreachable_inodes
  unreachable_inodes_iff zero i lines j h = (
    λ m. absurd (Memᴰ.not-nil (subst (λ l. Memᴰ (unreachable_inode j) l) (sym (ok-injective h)) m)),
    λ (lo, hi, _). absurd (omega arith),
  )
  unreachable_inodes_iff (suc n) i lines j h =
      let (lost, rest, e, is, iff) = unreachable_inodes-suc n i h in
      let (before, behind) = unreachable_inodes_iff n (i + 1) rest j e in
      (
        λ m. elim (printed-cases i j lost rest (subst (λ l. Memᴰ (unreachable_inode j) l) is m)) [
          | inl (same, l) ↦ (omega arith, omega arith, subst IsLost (sym same) (iff.0 l))
          | inr r ↦ let (lo, hi, l) = before r in (omega arith, omega arith, l)
        ],
        λ (lo, hi, l).
            subst (λ l. Memᴰ (unreachable_inode j) l) (sym is)
              (elim (dec_lt i j) [
                | yes lt ↦ printed-rest i j lost rest (behind (omega arith, omega arith, l))
                | no ge ↦
                    let same : j ≡ i = omega arith in
                    printed-first i j lost rest (iff.1 (subst IsLost same l)) same
              ]),
      )

  -- Every mark in the range has been looked up.
  unreachable_inodes_tested :
      (n i : ℕ) (lines : List Line) (j : ℕ)
      → unreachable_inodes img imap n i ≡ ok lines
      → i ≤ j
      → j < i + n
      → (seen : Bool) × (bit_test imap j ≡ ok seen)
  unfolding unreachable_inodes
  unreachable_inodes_tested zero i lines j h lo hi = absurd (omega arith)
  unreachable_inodes_tested (suc n) i lines j h lo hi =
      let (seen, e, _) = >>=-eq-ok (bit_test imap i) _ h in
      elim (dec_lt i j) [
        | yes lt ↦
            let (_, rest, e, _, _) = unreachable_inodes-suc n i h in
            unreachable_inodes_tested n (i + 1) rest j e (omega arith) (omega arith)
        | no ge ↦ let same : j ≡ i = omega arith in (seen, ap (λ k. bit_test imap k) same ∙ e)
      ]

-- When the walk of read-img.c comes to its end without finding an inode twice, and the loop that
-- follows it ends, the inodes that this loop prints as unreachable are those that the map of the
-- image has as allocated and that cannot be reached from the root directory, and no other. Inode 0
-- is not looked at.
pub unreachable_inodes_lem :
    (img : Image) (out : List Line) (t : State) (lines : List Line) (j : ℕ)
    → explore img out ≡ ok (next t)
    → unreachable_inodes img t.imap (max_inodes img.sb - 1) 1 ≡ ok lines
    → Memᴰ (unreachable_inode j) lines ↔ (
        (1 ≤ j)
        × (j < max_inodes img.sb)
        × (test_at img.disk inode_map_at j ≡ ok true)
        × ((d : Bool) → ¬ Reachable img (record { dir = d; inum = j })))
unreachable_inodes_lem img out t lines j over h =
    let (marked, listed) = explore_iff img out t j over in
    let (before, behind) = unreachable_inodes_iff img t.imap (max_inodes img.sb - 1) 1 lines j h in
    (
      λ m.
          let (lo, hi, (clear, used)) = before m in
          (
            lo,
            omega arith,
            used,
            λ d r.
                let set = listed (d, r) in
                let no : ◌≡◌ {A = Outcome Bool} (ok false) (ok true) = sym clear ∙ set in cc,
          ),
      λ (lo, hi, used, out_of_reach).
          let (seen, e) =
            unreachable_inodes_tested img t.imap (max_inodes img.sb - 1) 1 lines j h lo
              (omega arith) in
          behind (
            lo,
            omega arith,
            (
              elim (Bool-cases seen) [
                | inl yes_seen ↦
                    (let (d, r) = marked (e ∙ ap ok yes_seen) in absurd (out_of_reach d r))
                | inr not_seen ↦ e ∙ ap ok not_seen
              ],
              used,
            ),
          ),
    )
