-- ===== src/Directory/Changed.antt =====
-- The entries of a directory, all those of one name changed in the same way, and what find_entry finds
-- in them.
use file_system_implementati.Base.{
  ◌≡◌, ◌≢◌, refl, ap, sym, ◌∙◌, inl, inr, true, false, some, List, [], ◌∷◌, ◌++◌, map, length,
  get_elem?, set, Bool-cases, if◌then◌else◌, arith,
}
use file_system_implementati.Outcome.{err, enoent}
use file_system_implementati.Layout.{Bytes, Dirent}
use file_system_implementati.Fs.{c_string, strcpy}
use file_system_implementati.Lookup.{matches, find_entry}
use file_system_implementati.Lookup.Tree.{matches-eq-true, matches-named}
use file_system_implementati.Directory.Entries.{
  IsName, c_string-strcpy, matches-free, matches-named_other,
}

abbrev pub cleared : Bytes → Dirent → Dirent
cleared leaf e = if matches leaf e then record e { valid = false } else e

abbrev pub renamed : Bytes → Bytes → Dirent → Dirent
renamed src_leaf dst_leaf e =
    if matches src_leaf e then record e { name = strcpy e.name dst_leaf } else e

module _ {A : Type 0} where
  pub get_elem?-append :
      (xs : List A) (x : A) (ys : List A) → get_elem? (xs ++ (x ∷ ys)) (length xs) ≡ some x
  get_elem?-append [] x ys = refl
  get_elem?-append (y ∷ xs) x ys = get_elem?-append xs x ys

  pub set-append :
      (xs : List A) (x y : A) (ys : List A) → set (xs ++ (x ∷ ys)) (length xs) y ≡ xs ++ (y ∷ ys)
  set-append [] x y ys = refl
  set-append (z ∷ xs) x y ys = ap (λ t. z ∷ t) (set-append xs x y ys)

pub find_entry-cleared :
    (leaf : Bytes) (fd : List Dirent) → find_entry leaf (map (cleared leaf) fd) ≡ err enoent
unfolding find_entry matches
find_entry-cleared leaf [] = refl
find_entry-cleared leaf (e ∷ fd) = elim (Bool-cases (matches leaf e)) [
  | inl hit ↦ rw (hit, find_entry-cleared leaf fd) refl
  | inr miss ↦ rw (miss, miss, find_entry-cleared leaf fd) refl
]

-- An entry that has another name before and after the change.
matches-other :
    (leaf name : Bytes) (e : Dirent) → name ≢ leaf → matches leaf e ≡ true → matches name e ≡ false
matches-other leaf name e other hit =
    matches-named_other name e λ q. other (sym q ∙ (matches-eq-true leaf e hit).1)

pub find_entry-cleared_other :
    (leaf name : Bytes) (fd : List Dirent)
    → name ≢ leaf
    → find_entry name (map (cleared leaf) fd) ≡ find_entry name fd
unfolding find_entry
find_entry-cleared_other leaf name [] other = refl
find_entry-cleared_other leaf name (e ∷ fd) other = elim (Bool-cases (matches leaf e)) [
  | inl hit ↦
      rw
        (
          hit,
          matches-other leaf name e other hit,
          matches-free name (record e { valid = false }) refl,
        )
        (find_entry-cleared_other leaf name fd other)
  | inr miss ↦ rw (miss, find_entry-cleared_other leaf name fd other) refl
]

find_entry-none :
    (name : Bytes) (e : Dirent) (fd : List Dirent)
    → find_entry name (e ∷ fd) ≡ err enoent
    → (matches name e ≡ false) × (find_entry name fd ≡ err enoent)
unfolding find_entry
find_entry-none name e fd none = elim (Bool-cases (matches name e)) [
  | inl hit ↦ absurd (ground (arith, hit))
  | inr miss ↦ (miss, ground (arith, miss))
]

module _ (src_leaf dst_leaf : Bytes) (is_name : IsName dst_leaf) where
  named : (e : Dirent) → c_string (strcpy e.name dst_leaf) ≡ dst_leaf
  named e = c_string-strcpy e.name dst_leaf is_name

  -- The new name finds what the old one found, when it found nothing before.
  pub find_entry-renamed :
      (fd : List Dirent)
      → find_entry dst_leaf fd ≡ err enoent
      → find_entry dst_leaf (map (renamed src_leaf dst_leaf) fd) ≡ find_entry src_leaf fd
  unfolding find_entry
  find_entry-renamed [] none = refl
  find_entry-renamed (e ∷ fd) none = elim (Bool-cases (matches src_leaf e)) [
    | inl hit ↦
        let (used, _) = matches-eq-true src_leaf e hit in
        rw (hit, matches-named dst_leaf (record e { name = strcpy e.name dst_leaf }) used (named e))
          refl
    | inr miss ↦
        let (apart, rest) = find_entry-none dst_leaf e fd none in
        rw (miss, apart, find_entry-renamed fd rest) refl
  ]

  pub find_entry-renamed_other :
      (name : Bytes) (fd : List Dirent)
      → name ≢ src_leaf
      → name ≢ dst_leaf
      → find_entry name (map (renamed src_leaf dst_leaf) fd) ≡ find_entry name fd
  unfolding find_entry
  find_entry-renamed_other name [] ns nd = refl
  find_entry-renamed_other name (e ∷ fd) ns nd = elim (Bool-cases (matches src_leaf e)) [
    | inl hit ↦
        rw
          (
            hit,
            matches-other src_leaf name e ns hit,
            matches-named_other name (record e { name = strcpy e.name dst_leaf })
                (λ q. nd (sym q ∙ named e)),
          )
          (find_entry-renamed_other name fd ns nd)
    | inr miss ↦ rw (miss, find_entry-renamed_other name fd ns nd) refl
  ]

  pub find_entry-renamed_src :
      (fd : List Dirent)
      → src_leaf ≢ dst_leaf
      → find_entry src_leaf (map (renamed src_leaf dst_leaf) fd) ≡ err enoent
  unfolding find_entry
  find_entry-renamed_src [] ne = refl
  find_entry-renamed_src (e ∷ fd) ne = elim (Bool-cases (matches src_leaf e)) [
    | inl hit ↦
        rw
          (
            hit,
            matches-named_other src_leaf (record e { name = strcpy e.name dst_leaf })
                (λ q. ne (sym q ∙ named e)),
          )
          (find_entry-renamed_src fd ne)
    | inr miss ↦ rw (miss, miss, find_entry-renamed_src fd ne) refl
  ]
