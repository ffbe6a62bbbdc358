-- ===== src/Directory/Loop.antt =====
-- A loop over the entries of a directory that changes them one by one.
use mathlib.Core.List.{append_assoc}
use file_system_implementati.Base.{
  ℕ, ◌+◌, ◌≡◌, List, [], ◌∷◌, ◌++◌, map, length, All, All-set, All-get_elem?, length-append, arith,
}
use file_system_implementati.Outcome.{ok}
use file_system_implementati.Exec.{Exec}
use file_system_implementati.Layout.{Dirent}
use file_system_implementati.Directory.Entries.{IsEntry}
use file_system_implementati.Exec.Ends.{EndsIn}
use file_system_implementati.Directory.Changed.{get_elem?-append, set-append}

-- One entry is replaced.
pub entries-replaced :
    (done rest : List Dirent) (e e' : Dirent)
    → All IsEntry (done ++ (e ∷ rest)) × (length (done ++ (e ∷ rest)) ≡ 32)
    → (IsEntry e → IsEntry e')
    → All IsEntry (done ++ (e' ∷ rest)) × (length (done ++ (e' ∷ rest)) ≡ 32)
entries-replaced done rest e e' (es, size) h =
    let was =
      All-get_elem? IsEntry (done ++ (e ∷ rest)) (length done) es (get_elem?-append done e rest) in
    (
      rw (set-append done e e' rest) at
          (All-set IsEntry (done ++ (e ∷ rest)) (length done) e' es (h was)),
      omega (arith, length-append done (e' ∷ rest), length-append done (e ∷ rest), size),
    )

-- `P` holds of the entries and the state before each round, `R` of the entries that are still to come.
module _ {S : Type 0} (P : List Dirent → S → Type 0) (R : Dirent → Type 0)
    (loop : ℕ → ℕ → List Dirent → Exec S (Unit {0})) (change : Dirent → Dirent) where
  -- The rounds from entry `i` on, behind the entries `done`.
  abbrev pub Rounds : List Dirent → List Dirent → ℕ → List Dirent → S → Type 0
  Rounds done rest i out = EndsIn (loop (length rest) i (done ++ rest)) (P (done ++ out))

  -- One round, given the rounds that follow.
  abbrev pub Round : Type 0
  Round =
      (e : Dirent) (done rest : List Dirent) (i : ℕ) (s : S)
      → i ≡ length done
      → R e
      → P (done ++ (e ∷ rest)) s
      → ((e' : Dirent) (t : S)
          → P (done ++ (e' ∷ rest)) t
          → EndsIn (loop (length rest) (i + 1) (done ++ (e' ∷ rest)))
              (P (done ++ (e' ∷ map change rest))) t)
      → Rounds done (e ∷ rest) i (change e ∷ map change rest) s

  Rounds-next :
      (done rest out : List Dirent) (i : ℕ) (e' : Dirent) (s : S)
      → Rounds (done ++ (e' ∷ [])) rest (i + 1) out s
      → EndsIn (loop (length rest) (i + 1) (done ++ (e' ∷ rest))) (P (done ++ (e' ∷ out))) s
  Rounds-next done rest out i e' s h =
      rw (append_assoc done (e' ∷ []) rest, append_assoc done (e' ∷ []) out) at h

  pub loop_ends :
      ((i : ℕ) (fd : List Dirent) (s : S) → loop 0 i fd s ≡ (ok tt, s))
      → Round
      → (rest done : List Dirent) (i : ℕ) (s : S) → i ≡ length done
      → All R rest
      → P (done ++ rest) s
      → Rounds done rest i (map change rest) s
  loop_ends stop round [] done i s at r h = (s, stop i _ s, h)
  loop_ends stop round (e ∷ rest) done i s at (r, rs) h = round e done rest i s at r h λ e' t k.
      Rounds-next done rest (map change rest) i e' t (
        loop_ends stop round rest (done ++ (e' ∷ [])) (i + 1) t
          (omega (arith, at, length-append done (e' ∷ []))) rs
          (rw (append_assoc done (e' ∷ []) rest) k))
