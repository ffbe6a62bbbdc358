-- ===== src/ReadImg/Ends.antt =====
-- What the blocks of a file change in the walk of read-img.c, and that their loops end.
use file_system_implementati.Base.{
  ℕ, ◌+◌, ◌≡◌, refl, subst, ◌∙◌, Bool, true, false, not, List, [], ◌∷◌, Option, none, some, length,
  leb, ◌==◌, if◌then◌else◌, inl, inr, Bool-cases, get_elem?, set, ◌/◌, bit_and, bit_or, ◌*◌, ◌%◌,
  ◌^◌,
}
use file_system_implementati.Outcome.{Errno, Outcome, ok, err, exit, fault, in_bounds, ◌>>=◌}
use file_system_implementati.Layout.{Bytes, Inode, fs_block_size, decode_addrs}
use file_system_implementati.Bitmap.{bit_set, bit_test, mask}
use file_system_implementati.ReadImg.{
  Image, State, Flow, onward, next, fail, slice, test_at, reach_block, reach_blocks, reach_indir_2,
  reach_file, block_map_at,
}

pub ok-injective : {A : Type 0} {x y : A} → ◌≡◌ {A = Outcome A} (ok x) (ok y) → x ≡ y
ok-injective h = cc

-- No endless loop, and a returned value has the property.
pub data Ends {A : Type 0} (P : A → Type 0) : Outcome A → Type 0 where
  ends : {a : A} → P a → Ends P (ok a)
  errs : {e : Errno} → Ends P (err e)
  exits : Ends P exit
  faults : Ends P fault

pub Ends-bind :
    {A B : Type 0} {P : A → Type 0} {Q : B → Type 0} (m : Outcome A) (f : A → Outcome B)
    → Ends P m
    → ((a : A) → m ≡ ok a → P a → Ends Q (f a))
    → Ends Q (m >>= f)
Ends-bind m f (ends {a = a} h) k = k a refl h
Ends-bind m f errs k = errs
Ends-bind m f exits k = exits
Ends-bind m f faults k = faults

pub Ends-weaken :
    {A : Type 0} {P Q : A → Type 0} {o : Outcome A} → ((a : A) → P a → Q a) → Ends P o → Ends Q o
Ends-weaken f (ends {a = a} h) = ends (f a h)
Ends-weaken f errs = errs
Ends-weaken f exits = exits
Ends-weaken f faults = faults

abbrev pub Any : {A : Type 0} → A → Type 0
Any a = Unit

Ends-in_bounds :
    {A B : Type 0} (o : Option A) (f : A → B) → Ends Any (in_bounds o >>= λ a. ok (f a))
Ends-in_bounds none f = faults
Ends-in_bounds (some a) f = ends tt

pub Ends-bit_test : (m : Bytes) (i : ℕ) → Ends Any (bit_test m i)
unfolding bit_test
Ends-bit_test m i = Ends-in_bounds (get_elem? m (i / 8)) (λ b. not (bit_and b (mask i) == 0))

pub Ends-bit_set : (m : Bytes) (i : ℕ) → Ends Any (bit_set m i)
unfolding bit_set
Ends-bit_set m i = Ends-in_bounds (get_elem? m (i / 8)) (λ b. set m (i / 8) (bit_or b (mask i)))

pub Ends-slice : (disk : Bytes) (off n : ℕ) → Ends Any (slice disk off n)
unfolding slice
Ends-slice disk off n = elim (Bool-cases (leb (off + n) (length disk))) [
  | inl e ↦ rw e (ends tt)
  | inr e ↦ rw e faults
]

pub Ends-test :
    {A : Type 0} {P : A → Type 0} (b : Bool) (m n : Outcome A)
    → (b ≡ true → Ends P m)
    → (b ≡ false → Ends P n)
    → Ends P (if b then m else n)
Ends-test true m n h k = h refl
Ends-test false m n h k = k refl

pub Ends-both :
    {A : Type 0} {P Q : A → Type 0} {o : Outcome A} → Ends P o → Ends Q o → Ends (λ a. P a × Q a) o
Ends-both (ends h) (ends k) = ends (h, k)
Ends-both errs k = errs
Ends-both exits k = exits
Ends-both faults k = faults

pub Ends-value : {A : Type 0} {P : A → Type 0} {o : Outcome A} {a : A} → Ends P o → o ≡ ok a → P a
Ends-value {P = P} (ends h) e = subst P (ok-injective e) h
Ends-value errs e = absurd (cc)
Ends-value exits e = absurd (cc)
Ends-value faults e = absurd (cc)

-- The same where the property depends on the test.
pub Ends-choice :
    {A X : Type 0} (P : X → A → Type 0) (b : Bool) (x y : X) (m n : Outcome A)
    → (b ≡ true → Ends (P x) m)
    → (b ≡ false → Ends (P y) n)
    → Ends (P (if b then x else y)) (if b then m else n)
Ends-choice P true x y m n h k = h refl
Ends-choice P false x y m n h k = k refl

pub Ends-onward :
    (P : Flow → Type 0) {Q : Flow → Type 0} (rest : State → Outcome Flow) (flow : Flow)
    → P flow
    → ((t : State) → P (next t) → Ends Q (rest t))
    → ((t : State) → P (fail t) → Q (fail t))
    → Ends Q (onward rest flow)
Ends-onward P rest (next t) p h k = h t p
Ends-onward P rest (fail t) p h k = ends (k t p)

pub Ends-if :
    {A : Type 0} {P : A → Type 0} (x y : A) (b : Bool)
    → P x
    → P y
    → Ends P (ok (if b then x else y))
Ends-if x y true h k = ends h
Ends-if x y false h k = ends k

-- The blocks of a file touch neither the queue nor the marks of the inodes.
abbrev pub Kept : State → State → Type 0
Kept s t = (t.imap ≡ s.imap) × (t.queue ≡ s.queue) × (t.head ≡ s.head)

pub reach_block-Kept : (img : Image) (b : ℕ) (s : State) → Ends (Kept s) (reach_block img b s)
unfolding reach_block
reach_block-Kept img b s = Ends-bind (bit_set s.blkmap b) _ (Ends-bit_set s.blkmap b) λ m e h.
    Ends-bind (test_at img.disk (block_map_at img.sb) b) _ (Ends-bit_test img.disk _)
      λ used e h. Ends-if _ _ used (refl, refl, refl) (refl, refl, refl)

Kept-trans : (s t u : State) → Kept s t → Kept t u → Kept s u
Kept-trans s t u h k = (k.0 ∙ h.0, k.1 ∙ h.1, k.2 ∙ h.2)

reach_blocks-Kept : (img : Image) (bs : List ℕ) (s : State) → Ends (Kept s) (reach_blocks img bs s)
unfolding reach_blocks
reach_blocks-Kept img [] s = ends (refl, refl, refl)
reach_blocks-Kept img (b ∷ bs) s = elim (Bool-cases (b == 0)) [
  | inl e ↦ rw e (reach_blocks-Kept img bs s)
  | inr e ↦ rw e (
      Ends-bind (reach_block img b _) _ (reach_block-Kept img b _)
        λ t e h. Ends-weaken (λ u k. Kept-trans s t u h k) (reach_blocks-Kept img bs t))
]

reach_indir_2-Kept :
    (img : Image) (bs : List ℕ) (s : State) → Ends (Kept s) (reach_indir_2 img bs s)
unfolding reach_indir_2
reach_indir_2-Kept img [] s = ends (refl, refl, refl)
reach_indir_2-Kept img (b ∷ bs) s = elim (Bool-cases (b == 0)) [
  | inl e ↦ rw e (reach_indir_2-Kept img bs s)
  | inr e ↦ rw e (
      Ends-bind (slice img.disk (b * fs_block_size) fs_block_size) _ (Ends-slice _ _ _) λ buf e h.
        Ends-bind (reach_blocks img (decode_addrs buf) s) _
          (reach_blocks-Kept img (decode_addrs buf) s)
          λ t e h. Ends-weaken (λ u k. Kept-trans s t u h k) (reach_indir_2-Kept img bs t))
]

-- An indirect block is read if there is one.
Ends-optional :
    (b : ℕ) (s t : State) (m : Outcome State)
    → Kept s t
    → Ends (Kept s) m
    → Ends (Kept s) (if b == 0 then ok t else m)
Ends-optional b s t m k h = elim (Bool-cases (b == 0)) [ inl e ↦ rw e (ends k) | inr e ↦ rw e h ]

pub reach_file-Kept : (img : Image) (i : Inode) (s : State) → Ends (Kept s) (reach_file img i s)
unfolding reach_file
reach_file-Kept img i s =
    Ends-bind (reach_blocks img i.direct s) _ (reach_blocks-Kept img i.direct s) λ t e h.
      Ends-bind
        (if i.indir_1 == 0
          then ok t
          else (slice img.disk (i.indir_1 * fs_block_size % 2 ^ 32) fs_block_size >>= λ buf.
              reach_blocks img (decode_addrs buf) t))
        _
        (Ends-optional i.indir_1 s t _ h (
          Ends-bind (slice img.disk _ fs_block_size) _ (Ends-slice _ _ _) λ buf e g.
            Ends-weaken (λ u k. Kept-trans s t u h k) (reach_blocks-Kept img (decode_addrs buf) t)))
        λ u e g. Ends-optional i.indir_2 s u _ g (
          Ends-bind (slice img.disk _ fs_block_size) _ (Ends-slice _ _ _) λ buf e f.
            Ends-weaken (λ v k. Kept-trans s u v g k) (reach_indir_2-Kept img (decode_addrs buf) u))
