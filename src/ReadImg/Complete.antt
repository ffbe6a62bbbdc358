-- ===== src/ReadImg/Complete.antt =====
-- The walk of read-img.c marks the directory tree.
use mathlib.Core.List.{Memᴰ, append_assoc, append-nil}
use mathlib.Core.List.Memᴰ
use file_system_implementati.Base.{
  ℕ, zero, suc, ◌+◌, ◌/◌, ◌^◌, ◌≤◌, ◌<◌, ◌≡◌, ◌≢◌, ◌↔◌, ◌⊎◌, inl, inr, refl, ap, sym, subst, ◌∙◌,
  Bool, true, false, List, [], ◌∷◌, ◌++◌, length, leb, ◌==◌, arith, Bool-cases, ==_iff, replicate,
  All-replicate, none, some, get_elem?, bit_and,
}
use Prim.Native.Nat.{bit_and-bitwise}
use file_system_implementati.Outcome.{Outcome, ok, fault, hang, ◌>>=◌}
use file_system_implementati.Layout.{Bytes}
use file_system_implementati.Device.{AreBytes}
use file_system_implementati.Bitmap.{bit_set, bit_test, mask}
use file_system_implementati.Bitmap.Laws.{bit_test-bit_set, bit_set-AreBytes}
use file_system_implementati.ReadImg.{
  Image, Entry, Line, State, next, onward, visit, walk_tree, max_inodes, explore, start, empty_map,
}
use file_system_implementati.ReadImg.Ends.{
  Ends, ends, faults, Ends-bind, Ends-bit_set, Ends-test, Ends-onward, Ends-both, Ends-value,
}
use file_system_implementati.ReadImg.Queue.{unseen, unseen-le, FlowMoves, state_of, visit-Moves}
use file_system_implementati.ReadImg.Tree.{Child, Reachable, root, below, root_entry}
use file_system_implementati.ReadImg.Adds.{IsMarked, Named, Next}
use file_system_implementati.ReadImg.Round.{Expands, visit-Expands}

zero_bits :
    (n i : ℕ)
    → (get_elem? (replicate {A = ℕ} n 0) i ≡ none) ⊎ (get_elem? (replicate {A = ℕ} n 0) i ≡ some 0)
zero_bits zero i = inl refl
zero_bits (suc n) zero = inr refl
zero_bits (suc n) (suc i) = zero_bits n i

pub bit_test-zeros : (n j : ℕ) → bit_test (replicate n 0) j ≢ ok true
unfolding bit_test
bit_test-zeros n j h =
    let and_zero : bit_and 0 (mask j) ≡ 0 = bit_and-bitwise 0 (mask j) in
    elim (zero_bits n (j / 8)) [
      | inl e ↦ absurd (let h' : ◌≡◌ {A = Outcome Bool} fault (ok true) = rw e at h in cc)
      | inr e ↦
          absurd
            (let h' : ◌≡◌ {A = Outcome Bool} (ok false) (ok true) = rw (e, and_zero) at h in cc)
    ]

module _ (img : Image) where
  -- `done` are the entries of inode_list before `tail`.
  record Inv (done : List Entry) (s : State) : Type 0 where
    bytes : AreBytes s.imap
    marked : (j : ℕ) → IsMarked s j → Named (done ++ s.queue) j
    listed : (j : ℕ) → Named (done ++ s.queue) j → IsMarked s j
    sound : (p : Entry) → Memᴰ p (done ++ s.queue) → Reachable img p
    closed : (e p : Entry) → Memᴰ e done → Child img e p → Memᴰ p (done ++ s.queue)
    rooted : Memᴰ root_entry (done ++ s.queue)

  Inv-visit :
      (done rest : List Entry) (e : Entry) (s t : State)
      → s.queue ≡ e ∷ rest
      → Inv done s
      → Expands img e (record s { queue = rest }) t
      → Inv (done ++ (e ∷ [])) t
  Inv-visit done rest e s t first inv (es, adds, children, all_children) =
      let all : (done ++ (e ∷ [])) ++ t.queue ≡ (done ++ s.queue) ++ es =
        ap (λ q. (done ++ (e ∷ [])) ++ q) adds.queue
        ∙ append_assoc done (e ∷ []) (rest ++ es)
        ∙ sym (append_assoc done (e ∷ rest) es)
        ∙ ap (λ q. (done ++ q) ++ es) (sym first) in
      let from =
        λ (p : Entry) (m : Memᴰ p ((done ++ s.queue) ++ es)). subst (λ xs. Memᴰ p xs) (sym all) m in
      let to =
        λ (p : Entry) (m : Memᴰ p ((done ++ (e ∷ [])) ++ t.queue)). subst (λ xs. Memᴰ p xs) all m in
      let is_e : Memᴰ e (done ++ s.queue) =
        subst (λ q. Memᴰ e (done ++ q)) (sym first) (Memᴰ.append_right done (Memᴰ.head refl)) in
      record {
        bytes = adds.bytes;
        marked = λ j h. elim (adds.marked j h) [
          | inl old ↦ let (p, m, is) = inv.marked j old in (p, from p (Memᴰ.append_left es m), is)
          | inr (p, m, is) ↦ (p, from p (Memᴰ.append_right (done ++ s.queue) m), is)
        ];
        listed = λ j (p, m, is). elim (Memᴰ.append_cases (done ++ s.queue) (to p m)) [
          | inl l ↦ adds.old j (inv.listed j (p, l, is))
          | inr r ↦ adds.new j (p, r, is)
        ];
        sound = λ p m. elim (Memᴰ.append_cases (done ++ s.queue) (to p m)) [
          | inl l ↦ inv.sound p l
          | inr r ↦ below (inv.sound e is_e) (children p r)
        ];
        closed = λ d p m c. elim (Memᴰ.append_cases done m) [
          | inl l ↦ from p (Memᴰ.append_left es (inv.closed d p l c))
          | inr r ↦ from p (
              Memᴰ.append_right (done ++ s.queue)
                (all_children p (subst (λ d. Child img d p) (Memᴰ.eq_of_singleton r) c)))
        ];
        rooted = from root_entry (Memᴰ.append_left es inv.rooted);
      }

  -- The walk is over.
  abbrev Over : State → Type 0
  Over t = (done : List Entry) × Inv done t × (t.queue ≡ [])

  walk_tree-Over :
      (n : ℕ) (done : List Entry) (s : State)
      → Inv done s
      → length s.queue + unseen s.imap (max_inodes img.sb) ≤ n
      → Ends (Next Over) (walk_tree img n s)
  unfolding walk_tree state_of
  walk_tree-Over zero done s inv work =
      elim s.queue
          as (λ (q : List Entry).
            s.queue ≡ q → Ends (Next Over) (elim q [ [] ↦ ok (next s) | _ ∷ _ ↦ hang ])) [
              | [] ↦ λ empty. ends (done, inv, empty)
              | e ∷ rest ↦ λ first. absurd (omega (arith, ap length first))
            ]
        refl
  walk_tree-Over (suc n) done s inv work =
      elim s.queue
          as (λ (q : List Entry).
            s.queue ≡ q
            → Ends (Next Over) (elim q [
              | [] ↦ ok (next s)
              | e ∷ rest ↦ visit img e (record s { queue = rest }) >>= λ flow.
                  onward (λ s'. walk_tree img n s') flow
            ])) [
              | [] ↦ λ empty. ends (done, inv, empty)
              | e ∷ rest ↦ λ first.
                  let s' : State = record s { queue = rest } in
                  Ends-bind (visit img e s') _
                    (Ends-both (visit-Expands img e s' inv.bytes) (visit-Moves img e s' inv.bytes))
                    λ flow _ both.
                      Ends-onward
                        (λ f. Next (Expands img e s') f × FlowMoves (max_inodes img.sb) s' f)
                        (λ t. walk_tree img n t) flow both
                        (λ t h.
                          walk_tree-Over n (done ++ (e ∷ [])) t
                            (Inv-visit done rest e s t first inv h.0)
                            (let (_, (_, _, moved)) = h in omega (arith, ap length first)))
                        (λ t _. tt)
            ]
        refl

  -- The entries of the tree that have been reached when the walk is over.
  Over-iff :
      (t : State)
      → Over t
      → (j : ℕ) → IsMarked t j ↔ ((d : Bool) × Reachable img (record { dir = d; inum = j }))
  Over-iff t (done, inv, empty) j = (
    λ h.
        let (p, m, is) = inv.marked j h in
        (
          p.dir,
          subst (λ (j : ℕ). Reachable img (record { dir = p.dir; inum = j })) is (inv.sound p m),
        ),
    λ (d, r).
        inv.listed j
          (record { dir = d; inum = j }, complete (record { dir = d; inum = j }) r, refl),
  )
    where
      all : done ++ t.queue ≡ done
      all = ap (λ q. done ++ q) empty ∙ append-nil done

      complete : (p : Entry) → Reachable img p → Memᴰ p (done ++ t.queue)
      complete _ root = inv.rooted
      complete p (below {e = e} r c) = inv.closed e p (subst (λ xs. Memᴰ e xs) all (complete e r)) c

  start-Inv :
      (out : List Line) {m : Bytes}
      → bit_set (empty_map img.disk) 1 ≡ ok m
      → Inv [] (start img m out)
  start-Inv out {m} set_1 =
      let n = length img.disk / 8192 in
      let zeros = All-replicate {0, 0} (λ b. b < 256) n 0 (omega arith) in
      let same = λ (j : ℕ). bit_test-bit_set (empty_map img.disk) 1 j zeros set_1 in
      record {
        bytes = (bit_set-AreBytes (empty_map img.disk) 1 zeros set_1).0;
        marked = λ j h. elim (Bool-cases (1 == j)) [
          | inl e ↦ (root_entry, Memᴰ.head refl, ground arith)
          | inr e ↦ absurd (bit_test-zeros n j (rw e at (sym (same j) ∙ h)))
        ];
        listed = λ j (p, l, is).
            same j
            ∙ rw ((==_iff 1 j).1 (ap (λ (q : Entry). q.inum) (sym (Memᴰ.eq_of_singleton l)) ∙ is))
                refl;
        sound = λ p l. subst (Reachable img) (sym (Memᴰ.eq_of_singleton l)) root;
        closed = λ e p m c. absurd (Memᴰ.not-nil m);
        rooted = Memᴰ.head refl;
      }

  explore-Over : (out : List Line) → Ends (Next Over) (explore img out)
  unfolding explore
  explore-Over out =
      Ends-test (leb (2 ^ 31) (max_inodes img.sb + 100)) _ _ (λ _. faults)
        (λ _.
          Ends-bind (bit_set (empty_map img.disk) 1) _ (Ends-bit_set (empty_map img.disk) 1)
            λ m set_1 _.
              walk_tree-Over (max_inodes img.sb + 1) [] (start img m out) (start-Inv out set_1)
                (omega (arith, unseen-le m (max_inodes img.sb))))

  -- When the walk of read-img.c comes to its end without finding an inode twice, the inodes that it
  -- has marked are those that can be reached from the root directory, inode 1, by valid directory
  -- entries with the number of an inode, and no other.
  pub explore_iff :
      (out : List Line) (t : State) (j : ℕ)
      → explore img out ≡ ok (next t)
      → (bit_test t.imap j ≡ ok true) ↔ ((d : Bool) × Reachable img (record { dir = d; inum = j }))
  explore_iff out t j h = Over-iff t (Ends-value (explore-Over out) h) j
