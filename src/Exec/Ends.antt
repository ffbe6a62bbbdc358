-- ===== src/Exec/Ends.antt =====
-- Total correctness of actions on a state: the action returns a result.
use file_system_implementati.Base.{◌≡◌, refl, ◌∙◌, Bool, true, false, not, if◌then◌else◌, arith}
use file_system_implementati.Outcome.{Outcome, ok}
use file_system_implementati.Exec.{Exec, query, lift, pure, ◌>>=◌}
use file_system_implementati.Exec.Bind.{run-bind, query-bind, lift-bind_ok}

-- The action returns `a` in a state with a property.
abbrev pub Gives : {S A : Type 0} → Exec S A → A → (S → Type 0) → S → Type 0
Gives {S} m a Q s = (s' : S) × (m s ≡ (ok a, s')) × Q s'

-- The same for an action without a result.
abbrev pub EndsIn : {S : Type 0} → Exec S (Unit {0}) → (S → Type 0) → S → Type 0
EndsIn m Q s = Gives m tt Q s

module _ {S : Type 0} where
  pub Gives-bind :
      {A B : Type 0} {R Q : S → Type 0} (m : Exec S A) (f : A → Exec S B) (a : A) (b : B) (s : S)
      → Gives m a R s
      → ((t : S) → R t → Gives (f a) b Q t)
      → Gives (m >>= f) b Q s
  Gives-bind m f a b s (s', run, r) h =
      let (t, run', q) = h s' r in (t, run-bind m f s run ∙ run', q)

  pub Gives-pure : {A : Type 0} {Q : S → Type 0} (a : A) (s : S) → Q s → Gives (pure a) a Q s
  unfolding pure
  Gives-pure a s q = (s, refl, q)

  pub EndsIn-bind :
      {R Q : S → Type 0} (m n : Exec S (Unit {0})) (s : S)
      → EndsIn m R s
      → ((s : S) → R s → EndsIn n Q s)
      → EndsIn (m >>= λ _. n) Q s
  EndsIn-bind m n s h k = Gives-bind m (λ _. n) tt tt s h k

  pub EndsIn-lift :
      {A : Type 0} {Q : S → Type 0} (r : Outcome A) (a : A) (f : A → Exec S (Unit {0})) (s : S)
      → r ≡ ok a
      → EndsIn (f a) Q s
      → EndsIn (lift r >>= f) Q s
  EndsIn-lift r a f s e (t, run, q) = (t, lift-bind_ok r f s e ∙ run, q)

  pub EndsIn-query :
      {A : Type 0} {Q : S → Type 0} (g : S → Outcome A) (a : A) (f : A → Exec S (Unit {0})) (s : S)
      → g s ≡ ok a
      → EndsIn (f a) Q s
      → EndsIn (query g >>= f) Q s
  EndsIn-query g a f s e (t, run, q) = (t, query-bind g f s e ∙ run, q)

  pub EndsIn-if :
      {Q : S → Type 0} (v : Bool) (m n : Exec S (Unit {0})) (s : S)
      → (v ≡ false → EndsIn m Q s)
      → (v ≡ true → EndsIn n Q s)
      → EndsIn (if not v then m else n) Q s
  EndsIn-if true m n s hm hn = hn refl
  EndsIn-if false m n s hm hn = hm refl

  pub EndsIn-else :
      {Q : S → Type 0} (v : Bool) (m n : Exec S (Unit {0})) (s : S)
      → v ≡ false
      → EndsIn n Q s
      → EndsIn (if v then m else n) Q s
  EndsIn-else true m n s e h = absurd (ground (arith, e))
  EndsIn-else false m n s e h = h
