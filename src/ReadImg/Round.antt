-- ===== src/ReadImg/Round.antt =====
-- One round of the walk adds the children of a directory.
use mathlib.Core.List.{Memᴰ}
use mathlib.Core.List.Memᴰ
use file_system_implementati.Base.{
  ◌+◌, ◌*◌, ◌%◌, ◌^◌, ◌<◌, ◌≡◌, ◌⊎◌, inl, inr, refl, ap, sym, subst, ◌∙◌, Bool, true, false, not,
  List, [], ◌∷◌, ◌++◌, leb, if◌then◌else◌, arith,
}
use file_system_implementati.Outcome.{ok}
use file_system_implementati.Layout.{Bytes, Dirent, fs_block_size, decode_dir, decode_inode}
use file_system_implementati.Device.{AreBytes}
use file_system_implementati.Fs.{s_isdir, direct_0}
use file_system_implementati.ReadImg.{
  Image, Entry, State, Flow, next, fail, slice, reach_block, reach_file, reach_dir, visit,
  max_inodes, print, directory, file, inodes_at,
}
use file_system_implementati.ReadImg.Ends.{
  Ends, ends, Ends-bind, Ends-weaken, Ends-slice, Ends-test, ok-injective, Kept, reach_block-Kept,
  reach_file-Kept,
}
use file_system_implementati.ReadImg.Tree.{Child, child}
use file_system_implementati.ReadImg.Adds.{
  Adds, Next, Kept-Adds, entry_of, offered, children_in, reach_entries-Adds, Adds-trans,
}

-- The entries that count.
abbrev Counts : Image → List Dirent → Entry → Type 0
Counts img des p =
    (de : Dirent) × Memᴰ de des
    × (de.valid ≡ true)
    × (de.inode < max_inodes img.sb)
    × (p ≡ entry_of de)

Counts-tail :
    (img : Image) (de : Dirent) (des : List Dirent) (p : Entry)
    → Counts img des p
    → Counts img (de ∷ des) p
Counts-tail img de des p (d, l, v, lt, e) = (d, Memᴰ.tail l, v, lt, e)

if-cases :
    (b : Bool) (xs ys : List Entry) {p : Entry}
    → Memᴰ p (if b then xs else ys)
    → ((b ≡ true) × Memᴰ p xs) ⊎ ((b ≡ false) × Memᴰ p ys)
if-cases true xs ys m = inl (refl, m)
if-cases false xs ys m = inr (refl, m)

children_in-Counts :
    (img : Image) (des : List Dirent) (p : Entry) → Memᴰ p (children_in img des) → Counts img des p
unfolding children_in
children_in-Counts img [] p m = absurd (Memᴰ.not-nil m)
children_in-Counts img (de ∷ des) p m =
    elim (if-cases de.valid (offered img de ++ children_in img des) (children_in img des) m) [
      | inr (_, r) ↦ Counts-tail img de des p (children_in-Counts img des p r)
      | inl (v, l) ↦ elim (Memᴰ.append_cases (offered img de) l) [
        | inr r ↦ Counts-tail img de des p (children_in-Counts img des p r)
        | inl o ↦ elim (if-cases (leb (max_inodes img.sb) de.inode) [] (entry_of de ∷ []) o) [
          | inl (_, n) ↦ absurd (Memᴰ.not-nil n)
          | inr (within, h) ↦ (de, Memᴰ.head refl, v, ground arith, Memᴰ.eq_of_singleton h)
        ]
      ]
    ]

in_then :
    (b : Bool) (xs ys : List Entry) {p : Entry}
    → b ≡ true
    → Memᴰ p xs
    → Memᴰ p (if b then xs else ys)
in_then true xs ys e m = m
in_then false xs ys e m = absurd (cc)

in_else :
    (b : Bool) (xs ys : List Entry) {p : Entry}
    → b ≡ false
    → Memᴰ p ys
    → Memᴰ p (if b then xs else ys)
in_else true xs ys e m = absurd (cc)
in_else false xs ys e m = m

in_rest :
    (b : Bool) (xs ys : List Entry) {p : Entry} → Memᴰ p ys → Memᴰ p (if b then xs ++ ys else ys)
in_rest true xs ys m = Memᴰ.append_right xs m
in_rest false xs ys m = m

Counts-children_in :
    (img : Image) (de : Dirent) (des : List Dirent)
    → Memᴰ de des
    → de.valid ≡ true
    → de.inode < max_inodes img.sb
    → Memᴰ (entry_of de) (children_in img des)
unfolding children_in
Counts-children_in img de [] m v lt = absurd (Memᴰ.not-nil m)
Counts-children_in img de (d ∷ des) m v lt = elim (Memᴰ.cases_cons m) [
  | inr r ↦
      in_rest d.valid (offered img d) (children_in img des) (Counts-children_in img de des r v lt)
  | inl e ↦
      in_then d.valid (offered img d ++ children_in img des) (children_in img des)
        (ap (λ (d : Dirent). d.valid) (sym e) ∙ v)
        (Memᴰ.append_left (children_in img des) (
          in_else (leb (max_inodes img.sb) d.inode) [] (entry_of d ∷ [])
            (ground (arith, ap (λ (d : Dirent). d.inode) e)) (Memᴰ.head (ap entry_of e))))
]

-- One round adds exactly the children of the entry.
abbrev pub Expands : Image → Entry → State → State → Type 0
Expands img e s t =
    (es : List Entry) × Adds s es t
    × ((p : Entry) → Memᴰ p es → Child img e p)
    × ((p : Entry) → Child img e p → Memᴰ p es)

-- An entry without children adds nothing.
Kept-Expands :
    (img : Image) (e : Entry) (s t : State)
    → AreBytes s.imap
    → Kept s t
    → ((p : Entry) → ¬ Child img e p)
    → Expands img e s t
Kept-Expands img e s t bytes kept none =
    ([], Kept-Adds s t bytes kept, λ p m. absurd (Memᴰ.not-nil m), λ p c. absurd (none p c))

pub Next-map : (P Q : State → Type 0) → ((t : State) → P t → Q t) → (f : Flow) → Next P f → Next Q f
Next-map P Q h (next t) p = h t p
Next-map P Q h (fail t) p = tt

-- What makes a child, where the inode of the entry is read.
module _ (img : Image) (e : Entry) {b : Bytes}
    (here : slice img.disk (inodes_at img.sb + e.inum * 64) 64 ≡ ok b) where
  abbrev ChildIn : Bytes → Entry → Type 0
  ChildIn b p =
      (s_isdir (decode_inode b).mode ≡ true)
      × (buf : Bytes) × (slice img.disk (direct_0 (decode_inode b) * fs_block_size % 2 ^ 32)
            fs_block_size
          ≡ ok buf)
      × Counts img (decode_dir buf) p

  Child-inv : (p : Entry) → Child img e p → (e.dir ≡ true) × ChildIn b p
  Child-inv _ (child {b = b'} {buf = buf} de dir there is_dir block m v lt) = (
    dir,
    subst (λ b. ChildIn b (entry_of de)) (ok-injective (sym there ∙ here))
        (is_dir, buf, block, (de, m, v, lt, refl)),
  )

  module _ {buf : Bytes}
      (read : slice img.disk (direct_0 (decode_inode b) * fs_block_size % 2 ^ 32) fs_block_size
        ≡ ok buf) where
    complete : (p : Entry) → Child img e p → Memᴰ p (children_in img (decode_dir buf))
    complete p c =
        let (_, (_, buf', read', (de, m, v, lt, is))) = Child-inv p c in
        subst (λ p. Memᴰ p (children_in img (decode_dir buf))) (sym is)
          (Counts-children_in img de (decode_dir buf)
            (subst (λ b. Memᴰ de (decode_dir b)) (ok-injective (sym read' ∙ read)) m) v lt)

    sound :
        e.dir ≡ true
        → s_isdir (decode_inode b).mode ≡ true
        → (p : Entry) → Memᴰ p (children_in img (decode_dir buf))
        → Child img e p
    sound dir is_dir p m =
        let (de, l, v, lt, is) = children_in-Counts img (decode_dir buf) p m in
        subst (Child img e) (sym is) (child de dir here is_dir read l v lt)

  reach_dir-Expands :
      (s : State)
      → AreBytes s.imap
      → e.dir ≡ true
      → Ends (Next (Expands img e s)) (reach_dir img e.inum (decode_inode b) s)
  unfolding reach_dir
  reach_dir-Expands s bytes dir =
      let i = decode_inode b in
      Ends-test (not (s_isdir i.mode)) _ _
        (λ no. ends (
          Kept-Expands img e s _ bytes (refl, refl, refl)
            (λ p c. let (_, (is, _, _, _)) = Child-inv p c in ground arith)))
        (λ yes.
          let is_dir : s_isdir i.mode ≡ true = ground arith in
          let s' = print (directory e.inum (direct_0 i)) s in
          Ends-bind (reach_block img (direct_0 i) s') _ (reach_block-Kept img (direct_0 i) s')
            λ t _ kept.
              let start = Kept-Adds s t bytes kept in
              Ends-bind (slice img.disk (direct_0 i * fs_block_size % 2 ^ 32) fs_block_size) _
                (Ends-slice _ _ _)
                λ buf read _.
                  Ends-weaken
                    (Next-map _ _ λ u added. (
                      children_in img (decode_dir buf),
                      Adds-trans s t u [] (children_in img (decode_dir buf)) start added,
                      sound read dir is_dir,
                      complete read,
                    ))
                    (reach_entries-Adds img e.inum (decode_dir buf) t start.bytes))

-- What a round that does not leave the walk adds: the children of its entry, all of them.
pub visit-Expands :
    (img : Image) (e : Entry) (s : State)
    → AreBytes s.imap
    → Ends (Next (Expands img e s)) (visit img e s)
unfolding visit
visit-Expands img e s bytes =
    Ends-bind (slice img.disk (inodes_at img.sb + e.inum * 64) 64) _ (Ends-slice _ _ _) λ b here _.
      Ends-test e.dir _ _ (λ dir. reach_dir-Expands img e here s bytes dir)
        (λ no_dir.
          let s' = print (file e.inum (decode_inode b)) s in
          Ends-bind (reach_file img (decode_inode b) s') _ (reach_file-Kept img (decode_inode b) s')
            λ t _ kept. ends (
              Kept-Expands img e s t bytes kept
                (λ p c. let (dir, _) = Child-inv img e here p c in ground arith)))
