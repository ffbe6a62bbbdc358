-- ===== src/ReadImg/Adds.antt =====
-- What the entries of a directory add to the queue and to the marks.
use mathlib.Core.List.{Memᴰ, append_assoc, append-nil}
use mathlib.Core.List.Memᴰ
use file_system_implementati.Base.{
  ℕ, ◌+◌, ◌≡◌, ◌⊎◌, inl, inr, refl, ap, sym, subst, ◌∙◌, true, List, [], ◌∷◌, ◌++◌, leb, ◌==◌,
  if◌then◌else◌, arith, Bool-cases, ==_iff,
}
use file_system_implementati.Outcome.{ok}
use file_system_implementati.Layout.{Bytes, Dirent}
use file_system_implementati.Device.{AreBytes}
use file_system_implementati.Bitmap.{bit_set, bit_test}
use file_system_implementati.Bitmap.Laws.{bit_test-bit_set, bit_set-AreBytes}
use file_system_implementati.ReadImg.{
  Image, Entry, State, Flow, next, fail, test_at, push, reach_entry, reach_entries, max_inodes,
  inode_free, entry, inode_map_at,
}
use file_system_implementati.ReadImg.Ends.{
  Ends, ends, faults, Ends-bind, Ends-weaken, Ends-bit_test, Ends-bit_set, Ends-test, Ends-onward,
  Ends-choice, Kept,
}
use file_system_implementati.ReadImg.Queue.{printed-Kept}

abbrev pub IsMarked : State → ℕ → Type 0
IsMarked s j = bit_test s.imap j ≡ ok true

-- One of the entries has the number.
abbrev pub Named : List Entry → ℕ → Type 0
Named es j = (p : Entry) × Memᴰ p es × (p.inum ≡ j)

-- From `s` to `t` these entries are queued, and their inodes are marked.
pub record Adds (s : State) (es : List Entry) (t : State) : Type 0 where
  pub bytes : AreBytes t.imap
  pub queue : t.queue ≡ s.queue ++ es
  pub marked : (j : ℕ) → IsMarked t j → IsMarked s j ⊎ Named es j
  pub old : (j : ℕ) → IsMarked s j → IsMarked t j
  pub new : (j : ℕ) → Named es j → IsMarked t j

-- The walk has not left.
abbrev pub Next : (State → Type 0) → Flow → Type 0
Next P (next t) = P t
Next P (fail t) = Unit

pub Kept-Adds : (s t : State) → AreBytes s.imap → Kept s t → Adds s [] t
Kept-Adds s t bytes (same_map, same_queue, _) = record {
  bytes = subst AreBytes (sym same_map) bytes;
  queue = same_queue ∙ sym (append-nil s.queue);
  marked = λ j h. inl (ap (λ m. bit_test m j) (sym same_map) ∙ h);
  old = λ j h. ap (λ m. bit_test m j) same_map ∙ h;
  new = λ j (p, m, e). absurd (Memᴰ.not-nil m);
}

pub Named-append : (es fs : List Entry) (j : ℕ) → Named (es ++ fs) j → Named es j ⊎ Named fs j
Named-append es fs j (p, m, e) = elim (Memᴰ.append_cases es m) [
  | inl l ↦ inl (p, l, e)
  | inr r ↦ inr (p, r, e)
]

pub Adds-trans :
    (s t u : State) (es fs : List Entry) → Adds s es t → Adds t fs u → Adds s (es ++ fs) u
Adds-trans s t u es fs h k = record {
  bytes = k.bytes;
  queue = k.queue ∙ ap (λ q. q ++ fs) h.queue ∙ append_assoc s.queue es fs;
  marked = λ j m. elim (k.marked j m) [
    | inr (p, l, e) ↦ inr (p, Memᴰ.append_right es l, e)
    | inl m' ↦ elim (h.marked j m') [
      | inl m'' ↦ inl m''
      | inr (p, l, e) ↦ inr (p, Memᴰ.append_left fs l, e)
    ]
  ];
  old = λ j m. k.old j (h.old j m);
  new = λ j n. elim (Named-append es fs j n) [ inl l ↦ k.old j (h.new j l) | inr r ↦ k.new j r ];
}

Next-trans :
    (s t : State) (es fs : List Entry)
    → Adds s es t
    → (f : Flow) → Next (Adds t fs) f
    → Next (Adds s (es ++ fs)) f
Next-trans s t es fs h (next u) k = Adds-trans s t u es fs h k
Next-trans s t es fs h (fail u) k = tt

-- A mark and a write to inode_list.
push-Adds :
    (img : Image) (e : Entry) (m : Bytes) (s t : State)
    → AreBytes s.imap
    → bit_set s.imap e.inum ≡ ok m
    → Kept (record s { imap = m }) t
    → Ends (λ u. Adds s (e ∷ []) u) (push img e t)
unfolding push
push-Adds img e m s t bytes set_e (same_map, same_queue, _) =
    let same =
      λ (j : ℕ). ap (λ m. bit_test m j) same_map ∙ bit_test-bit_set s.imap e.inum j bytes set_e in
    Ends-test (leb (max_inodes img.sb + 100) t.head) _ _ (λ _. faults)
      (λ _. ends (record {
        bytes = subst AreBytes (sym same_map) (bit_set-AreBytes s.imap e.inum bytes set_e).0;
        queue = ap (λ q. q ++ (e ∷ [])) same_queue;
        marked = λ j h. elim (Bool-cases (e.inum == j)) [
          | inl is_e ↦ inr (e, Memᴰ.head refl, ground arith)
          | inr other ↦ inl (rw other at (sym (same j) ∙ h))
        ];
        old = λ j h. elim (Bool-cases (e.inum == j)) [
          | inl is_e ↦ same j ∙ rw is_e refl
          | inr other ↦ same j ∙ rw other h
        ];
        new = λ j (p, l, is_j).
            same j
            ∙ rw
                ((==_iff e.inum j).1
                  (ap (λ (q : Entry). q.inum) (sym (Memᴰ.eq_of_singleton l)) ∙ is_j))
                refl;
      }))

abbrev pub entry_of : Dirent → Entry
entry_of de = record { dir = de.is_dir; inum = de.inode }

-- What a valid entry adds, and what all entries add.
abbrev pub offered : Image → Dirent → List Entry
offered img de = if leb (max_inodes img.sb) de.inode then [] else entry_of de ∷ []

unfoldable pub children_in : Image → List Dirent → List Entry
children_in img [] = []
children_in img (de ∷ des) =
    if de.valid then offered img de ++ children_in img des else children_in img des

reach_entry-Adds :
    (img : Image) (inum : ℕ) (de : Dirent) (s : State)
    → AreBytes s.imap
    → Ends (Next (Adds s (offered img de))) (reach_entry img inum de s)
unfolding reach_entry
reach_entry-Adds img inum de s bytes =
    let s_1 : State = record s { out = s.out ++ (entry de ∷ []) } in
    Ends-choice (λ es. Next (Adds s es)) (leb (max_inodes img.sb) de.inode) [] (entry_of de ∷ []) _
      _ (λ _. ends (Kept-Adds s _ bytes (refl, refl, refl)))
      (λ _. Ends-bind (bit_test s.imap de.inode) _ (Ends-bit_test s.imap de.inode) λ seen _ _.
        Ends-test seen _ _ (λ _. ends tt)
          (λ _. Ends-bind (bit_set s.imap de.inode) _ (Ends-bit_set s.imap de.inode) λ m set_m _.
            Ends-bind (test_at img.disk inode_map_at de.inode) _ (Ends-bit_test img.disk _)
              λ used _ _.
                Ends-bind (push img (entry_of de) _) _
                  (push-Adds img (entry_of de) m s _ bytes set_m
                    (printed-Kept used (inode_free de.inode) (record s_1 { imap = m })))
                  λ t _ h. ends h))

pub reach_entries-Adds :
    (img : Image) (inum : ℕ) (des : List Dirent) (s : State)
    → AreBytes s.imap
    → Ends (Next (Adds s (children_in img des))) (reach_entries img inum des s)
unfolding reach_entries children_in
reach_entries-Adds img inum [] s bytes = ends (Kept-Adds s s bytes (refl, refl, refl))
reach_entries-Adds img inum (de ∷ des) s bytes =
    Ends-choice (λ es. Next (Adds s es)) de.valid (offered img de ++ children_in img des)
      (children_in img des) _ _
      (λ _.
        Ends-bind (reach_entry img inum de s) _ (reach_entry-Adds img inum de s bytes) λ flow _ h.
          Ends-onward (Next (Adds s (offered img de))) (λ t. reach_entries img inum des t) flow h
            (λ t k.
              Ends-weaken (Next-trans s t (offered img de) (children_in img des) k)
                (reach_entries-Adds img inum des t k.bytes))
            (λ t _. tt))
      (λ _. reach_entries-Adds img inum des s bytes)
