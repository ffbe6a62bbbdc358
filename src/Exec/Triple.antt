-- ===== src/Exec/Triple.antt =====
-- Hoare triples for actions on a state, with what holds behind every outcome beside what holds behind
-- a result.
use file_system_implementati.Base.{◌≡◌, refl, Bool, true, false, if◌then◌else◌}
use file_system_implementati.Outcome.{Errno, Outcome, ok, err, exit, fault, hang}
use file_system_implementati.Exec.{Exec, pure, raise, query, lift, continue, ◌>>=◌}

-- `Q` of the result, if there is one.
abbrev pub Post {ℓ} : {A : Type ℓ} → (A → Type ℓ) → Outcome A → Type ℓ
Post Q (ok a) = Q a
Post Q _ = Unit

-- From a state in `P` the action ends in a state in `I`, and, when it returns a result, in one in
-- `Q` of it.
pub record Triple {ℓ} {S A : Type ℓ} (I P : S → Type ℓ) (m : Exec S A) (Q : A → S → Type ℓ)
    : Type ℓ where
  pub at : (s : S) → P s → I (m s).1 × Post (λ a. Q a (m s).1) (m s).0

module _ {ℓ} {S A : Type ℓ} {I P : S → Type ℓ} {Q : A → S → Type ℓ} where
  pub Triple-pure : (a : A) → ((s : S) → P s → I s × Q a s) → Triple I P (pure a) Q
  unfolding pure
  Triple-pure a h = record { at = h }

  pub Triple-raise : (e : Errno) → ((s : S) → P s → I s) → Triple I P (raise {A = A} e) Q
  unfolding raise
  Triple-raise e h = record { at = λ s p. (h s p, tt) }

  pub Triple-query :
      (f : S → Outcome A) → ((s : S) → P s → I s × Post (λ a. Q a s) (f s)) → Triple I P (query f) Q
  unfolding query
  Triple-query f h = record { at = h }

  pub Triple-lift :
      (r : Outcome A) → ((s : S) → P s → I s × Post (λ a. Q a s) r) → Triple I P (lift r) Q
  unfolding lift
  Triple-lift r h = record { at = h }

  pub Triple-if :
      (b : Bool) (m n : Exec S A)
      → (b ≡ true → Triple I P m Q)
      → (b ≡ false → Triple I P n Q)
      → Triple I P (if b then m else n) Q
  Triple-if true m n hm hn = hm refl
  Triple-if false m n hm hn = hn refl

  pub Triple-pre :
      (P' : S → Type ℓ) (m : Exec S A) → ((s : S) → P s → P' s) → Triple I P' m Q → Triple I P m Q
  Triple-pre P' m h t = record { at = λ s p. t.at s (h s p) }

module _ {ℓ} {A : Type ℓ} where
  weaken : {R R' : A → Type ℓ} (r : Outcome A) → ((a : A) → R a → R' a) → Post R r → Post R' r
  weaken (ok a) h p = h a p
  weaken (err e) h p = tt
  weaken exit h p = tt
  weaken fault h p = tt
  weaken hang h p = tt

module _ {ℓ} {S A : Type ℓ} {I P : S → Type ℓ} {Q : A → S → Type ℓ} where
  pub Triple-post :
      (Q' : A → S → Type ℓ) (m : Exec S A)
      → ((a : A) (s : S) → Q' a s → Q a s)
      → Triple I P m Q'
      → Triple I P m Q
  Triple-post Q' m h t = record {
    at = λ s p. let (i, q) = t.at s p in (i, weaken (m s).0 (λ a. h a (m s).1) q);
  }

module _ {ℓ} {S A B : Type ℓ} {I : S → Type ℓ} {R : A → S → Type ℓ} {Q : B → S → Type ℓ} where
  Triple-continue :
      (r : Outcome A) (k : A → Exec S B) (s : S)
      → I s
      → Post (λ a. R a s) r
      → ((a : A) → Triple I (R a) (k a) Q)
      → I (continue r k s).1 × Post (λ b. Q b (continue r k s).1) (continue r k s).0
  Triple-continue (ok a) k s i p hk = (hk a).at s p
  Triple-continue (err e) k s i p hk = (i, tt)
  Triple-continue exit k s i p hk = (i, tt)
  Triple-continue fault k s i p hk = (i, tt)
  Triple-continue hang k s i p hk = (i, tt)

  pub Triple-bind :
      {P : S → Type ℓ} (m : Exec S A) (k : A → Exec S B)
      → Triple I P m R
      → ((a : A) → Triple I (R a) (k a) Q)
      → Triple I P (m >>= k) Q
  unfolding ◌>>=◌
  Triple-bind m k hm hk = record {
    at = λ s p. let (r, s') = m s in let (i, q) = hm.at s p in Triple-continue r k s' i q hk;
  }
