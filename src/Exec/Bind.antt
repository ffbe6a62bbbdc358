-- ===== src/Exec/Bind.antt =====
-- The chain of two actions, rewritten and taken apart.
use file_system_implementati.Base.{◌≡◌, refl, ap, Bool, true, not, if◌then◌else◌}
use file_system_implementati.Outcome.{Outcome, ok, err, exit, fault, hang}
use file_system_implementati.Exec.{Exec, query, lift, pure, continue, ◌>>=◌}

module _ {S A B : Type 0} where
  continue_same :
      (r : Outcome A) (f g : A → Exec S B) (s : S)
      → ((a : A) → r ≡ ok a → f a s ≡ g a s)
      → continue r f s ≡ continue r g s
  continue_same (ok a) f g s h = h a refl
  continue_same (err e) f g s h = refl
  continue_same exit f g s h = refl
  continue_same fault f g s h = refl
  continue_same hang f g s h = refl

  pub bind_same :
      (m : Exec S A) (f g : A → Exec S B) (s : S)
      → ((a : A) → (m s).0 ≡ ok a → f a (m s).1 ≡ g a (m s).1)
      → (m >>= f) s ≡ (m >>= g) s
  unfolding ◌>>=◌
  bind_same m f g s h = continue_same (m s).0 f g (m s).1 h

  continue-eq-ok :
      (r : Outcome A) (f : A → Exec S B) (s : S) {b : B}
      → (continue r f s).0 ≡ ok b
      → (a : A) × (r ≡ ok a) × ((f a s).0 ≡ ok b)
  continue-eq-ok (ok a) f s h = (a, refl, h)
  continue-eq-ok (err e) f s h = absurd (cc)
  continue-eq-ok exit f s h = absurd (cc)
  continue-eq-ok fault f s h = absurd (cc)
  continue-eq-ok hang f s h = absurd (cc)

  pub bind-eq-ok :
      (m : Exec S A) (f : A → Exec S B) (s : S) {b : B}
      → ((m >>= f) s).0 ≡ ok b
      → (a : A) × ((m s).0 ≡ ok a) × ((f a (m s).1).0 ≡ ok b)
  unfolding ◌>>=◌
  bind-eq-ok m f s h = continue-eq-ok (m s).0 f (m s).1 h

module _ {S A B : Type 0} where
  -- What follows an action that has returned a result.
  pub run-bind :
      (m : Exec S A) (f : A → Exec S B) (s : S) {a : A} {s' : S}
      → m s ≡ (ok a, s')
      → (m >>= f) s ≡ f a s'
  unfolding ◌>>=◌
  run-bind m f s e = ap (λ o. continue o.0 f o.1) e

  pub lift-bind : (a : A) (f : A → Exec S B) (s : S) → (lift (ok a) >>= f) s ≡ f a s
  unfolding ◌>>=◌
  lift-bind a f s = refl

  pub lift-bind_ok :
      (r : Outcome A) {a : A} (f : A → Exec S B) (s : S) → r ≡ ok a → (lift r >>= f) s ≡ f a s
  unfolding ◌>>=◌
  lift-bind_ok r f s e = ap (λ r. continue r f s) e

  pub query-bind :
      (q : S → Outcome A) (f : A → Exec S B) (s : S) {a : A}
      → q s ≡ ok a
      → (query q >>= f) s ≡ f a s
  unfolding ◌>>=◌
  query-bind q f s e = ap (λ r. continue r f s) e

continue-pure : {S : Type 0} (r : Outcome (Unit {0})) (s : S) → continue r (λ _. pure tt) s ≡ (r, s)
unfolding pure
continue-pure (ok a) s = refl
continue-pure (err e) s = refl
continue-pure exit s = refl
continue-pure fault s = refl
continue-pure hang s = refl

pub bind-pure : {S : Type 0} (m : Exec S (Unit {0})) (s : S) → (m >>= λ _. pure tt) s ≡ m s
unfolding ◌>>=◌
bind-pure m s = continue-pure (m s).0 (m s).1

-- A check that passes.
pub passed :
    {S A : Type 0} (v : Bool) (m n : Exec S A) (s : S) → v ≡ true → (if not v then m else n) s ≡ n s
passed v m n s e = rw e refl
