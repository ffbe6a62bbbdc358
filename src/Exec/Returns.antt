-- ===== src/Exec/Returns.antt =====
-- What an action that returns an error has done to the state.
use file_system_implementati.Base.{◌≡◌, refl, Bool, true, false, if◌then◌else◌}
use file_system_implementati.Outcome.{Errno, Outcome, ok, err, exit, fault, hang}
use file_system_implementati.Exec.{Exec, pure, raise, query, lift, continue, ◌>>=◌}

-- `m` never returns an error.
pub record NeverErrs {ℓ} {S A : Type ℓ} (m : Exec S A) : Type ℓ where
  pub at : (s : S) (e : Errno) → (m s).0 ≡ err e → ⊥

-- When `m` returns an error, the state is the one that it started from.
pub record ErrKeeps {ℓ} {S A : Type ℓ} (m : Exec S A) : Type ℓ where
  pub at : (s : S) (e : Errno) → (m s).0 ≡ err e → (m s).1 ≡ s

module _ {ℓ} {S A : Type ℓ} where
  pub NeverErrs-pure : (a : A) → NeverErrs {S = S} (pure a)
  unfolding pure
  NeverErrs-pure a = record { at = λ s e h. cc }

  pub NeverErrs-query :
      (f : S → Outcome A) → ((s : S) (e : Errno) → f s ≡ err e → ⊥) → NeverErrs (query f)
  unfolding query
  NeverErrs-query f h = record { at = h }

  pub NeverErrs-lift : (r : Outcome A) → ((e : Errno) → r ≡ err e → ⊥) → NeverErrs {S = S} (lift r)
  unfolding lift
  NeverErrs-lift r h = record { at = λ s. h }

  pub NeverErrs-if :
      (b : Bool) (m n : Exec S A) → NeverErrs m → NeverErrs n → NeverErrs (if b then m else n)
  NeverErrs-if true m n hm hn = hm
  NeverErrs-if false m n hm hn = hn

  pub ErrKeeps-of_NeverErrs : (m : Exec S A) → NeverErrs m → ErrKeeps m
  ErrKeeps-of_NeverErrs m h = record { at = λ s e p. absurd (h.at s e p) }

  pub ErrKeeps-raise : (e : Errno) → ErrKeeps {S = S} {A = A} (raise e)
  unfolding raise
  ErrKeeps-raise e = record { at = λ s e' h. refl }

  pub ErrKeeps-query : (f : S → Outcome A) → ErrKeeps (query f)
  unfolding query
  ErrKeeps-query f = record { at = λ s e h. refl }

  pub ErrKeeps-if :
      (b : Bool) (m n : Exec S A) → ErrKeeps m → ErrKeeps n → ErrKeeps (if b then m else n)
  ErrKeeps-if true m n hm hn = hm
  ErrKeeps-if false m n hm hn = hn

module _ {ℓ} {S A B : Type ℓ} where
  NeverErrs-continue :
      (r : Outcome A) (k : A → Exec S B) (s : S) (e : Errno)
      → (r ≡ err e → ⊥)
      → ((a : A) → NeverErrs (k a))
      → (continue r k s).0 ≡ err e
      → ⊥
  NeverErrs-continue (ok a) k s e hm hk h = (hk a).at s e h
  NeverErrs-continue (err e') k s e hm hk h = hm (cc)
  NeverErrs-continue exit k s e hm hk h = cc
  NeverErrs-continue fault k s e hm hk h = cc
  NeverErrs-continue hang k s e hm hk h = cc

  pub NeverErrs-bind :
      (m : Exec S A) (k : A → Exec S B)
      → NeverErrs m
      → ((a : A) → NeverErrs (k a))
      → NeverErrs (m >>= k)
  unfolding ◌>>=◌
  NeverErrs-bind m k hm hk = record {
    at = λ s e. let (r, s') = m s in NeverErrs-continue r k s' e (hm.at s e) hk;
  }

  ErrKeeps-continue :
      (r : Outcome A) (k : A → Exec S B) (s : S) (e : Errno)
      → ((a : A) → ErrKeeps (k a))
      → (continue r k s).0 ≡ err e
      → (continue r k s).1 ≡ s
  ErrKeeps-continue (ok a) k s e hk h = (hk a).at s e h
  ErrKeeps-continue (err e') k s e hk h = refl
  ErrKeeps-continue exit k s e hk h = refl
  ErrKeeps-continue fault k s e hk h = refl
  ErrKeeps-continue hang k s e hk h = refl

  -- A step that only reads, before what keeps the state on an error.
  pub ErrKeeps-bind_query :
      (f : S → Outcome A) (k : A → Exec S B) → ((a : A) → ErrKeeps (k a)) → ErrKeeps (query f >>= k)
  unfolding ◌>>=◌
  ErrKeeps-bind_query f k hk = record { at = λ s e. ErrKeeps-continue (f s) k s e hk }

  pub ErrKeeps-bind_lift :
      (r : Outcome A) (k : A → Exec S B) → ((a : A) → ErrKeeps (k a)) → ErrKeeps (lift r >>= k)
  unfolding ◌>>=◌
  ErrKeeps-bind_lift r k hk = record { at = λ s e. ErrKeeps-continue r k s e hk }

  ErrKeeps-continue_never :
      (r : Outcome A) (k : A → Exec S B) (s s' : S) (e : Errno)
      → (r ≡ err e → s' ≡ s)
      → ((a : A) → NeverErrs (k a))
      → (continue r k s').0 ≡ err e
      → (continue r k s').1 ≡ s
  ErrKeeps-continue_never (ok a) k s s' e hm hk h = absurd ((hk a).at s' e h)
  ErrKeeps-continue_never (err e') k s s' e hm hk h = hm (cc)
  ErrKeeps-continue_never exit k s s' e hm hk h = cc
  ErrKeeps-continue_never fault k s s' e hm hk h = cc
  ErrKeeps-continue_never hang k s s' e hm hk h = cc

  -- What keeps the state on an error, before what never returns one.
  pub ErrKeeps-bind_never :
      (m : Exec S A) (k : A → Exec S B)
      → ErrKeeps m
      → ((a : A) → NeverErrs (k a))
      → ErrKeeps (m >>= k)
  unfolding ◌>>=◌
  ErrKeeps-bind_never m k hm hk = record {
    at = λ s e. let (r, s') = m s in ErrKeeps-continue_never r k s s' e (hm.at s e) hk;
  }

pub ruleset never_rules =
    (NeverErrs-pure, NeverErrs-query, NeverErrs-lift, NeverErrs-if, NeverErrs-bind)

pub ruleset errkeeps_rules =
    (ErrKeeps-raise, ErrKeeps-query, ErrKeeps-if, ErrKeeps-bind_query, ErrKeeps-bind_lift)
