-- ===== src/Exec.antt =====
-- Actions on a state. What was written before a return stays written, so the state comes back
-- beside every outcome.
pub mod Bind
pub mod Ends
pub mod Returns
pub mod Triple
use file_system_implementati.Outcome.{Errno, Outcome, ok, err, exit, fault, hang}

abbrev pub Exec {ℓ} : Type ℓ → Type ℓ → Type ℓ
Exec S A = S → Outcome A × S

module _ {ℓ} {S A : Type ℓ} where
  unfoldable pub pure : A → Exec S A
  pure a s = (ok a, s)

  unfoldable pub raise : Errno → Exec S A
  raise e s = (err e, s)

  -- A call that only reads the state.
  unfoldable pub query : (S → Outcome A) → Exec S A
  query f s = (f s, s)

  unfoldable pub lift : Outcome A → Exec S A
  lift r s = (r, s)

module _ {ℓ} {S A B : Type ℓ} where
  abbrev pub continue : Outcome A → (A → Exec S B) → Exec S B
  continue (ok a) f s = f a s
  continue (err e) f s = (err e, s)
  continue exit f s = (exit, s)
  continue fault f s = (fault, s)
  continue hang f s = (hang, s)

  infixl 5 ◌>>=◌ ◌>>◌
  -- To unfold this is to unfold `pure`, `raise`, `query` and `lift` too.
  unfoldable pub ◌>>=◌ : Exec S A → (A → Exec S B) → Exec S B
  unfolding pure raise query lift
  ◌>>=◌ m f s = let (r, s') = m s in continue r f s'

  abbrev pub ◌>>◌ : Exec S A → Exec S B → Exec S B
  m >> n = m >>= λ _. n
