-- ===== src/Outcome.antt =====
-- What a C function of homework.c can do: return a value, return a negated errno, call exit(1), run
-- into undefined behaviour (an access out of bounds, a buffer overflow), or loop forever.
use file_system_implementati.Base.{◌≡◌, refl, ◌⊎◌, inl, inr, Option, none, some}

pub data Errno : Type 0 where
  enoent enotdir eexist eisdir einval enospc enotempty : Errno

-- `err e` is a return of `-e`; a return of 0 or more is `ok`.
pub data Outcome {ℓ} (A : Type ℓ) : Type ℓ where
  ok : A → Outcome A
  err : Errno → Outcome A
  exit : Outcome A
  fault : Outcome A
  hang : Outcome A

infixl 5 ◌>>=◌
abbrev pub ◌>>=◌ {ℓ κ} : {A : Type ℓ} {B : Type κ} → Outcome A → (A → Outcome B) → Outcome B
ok a >>= f = f a
err e >>= f = err e
exit >>= f = exit
fault >>= f = fault
hang >>= f = hang

-- A read of an array element.
abbrev pub in_bounds {ℓ} : {A : Type ℓ} → Option A → Outcome A
in_bounds none = fault
in_bounds (some a) = ok a

-- A device call whose failure the code answers by exit(1).
abbrev pub or_exit {ℓ} : {A : Type ℓ} → Option A → Outcome A
or_exit none = exit
or_exit (some a) = ok a

-- A chain that returns a value has returned one at its first link.
pub >>=-eq-ok {ℓ κ} :
    {A : Type ℓ} {B : Type κ} (first : Outcome A) (next : A → Outcome B) {out : B}
    → (first >>= next) ≡ ok out
    → (mid : A) × (first ≡ ok mid) × (next mid ≡ ok out)
>>=-eq-ok (ok mid) next returns = (mid, refl, returns)
>>=-eq-ok (err e) next returns = cc
>>=-eq-ok exit next returns = cc
>>=-eq-ok fault next returns = cc
>>=-eq-ok hang next returns = cc

-- A chain that returns an error has met it at the first link or behind it.
pub >>=-eq-err {ℓ κ} :
    {A : Type ℓ} {B : Type κ} (first : Outcome A) (next : A → Outcome B) {e : Errno}
    → (first >>= next) ≡ err e
    → (first ≡ err e) ⊎ ((mid : A) × (first ≡ ok mid) × (next mid ≡ err e))
>>=-eq-err (ok mid) next returns = inr (mid, refl, returns)
>>=-eq-err (err e') next returns = inl (cc)
>>=-eq-err exit next returns = cc
>>=-eq-err fault next returns = cc
>>=-eq-err hang next returns = cc
