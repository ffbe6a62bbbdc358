-- ===== src/Lookup/Missing.antt =====
-- The errors of translate, as a relation on the directory tree that the blocks describe.
use file_system_implementati.Base.{
  ℕ, ◌≡◌, ◌≢◌, ◌↔◌, ◌⊎◌, inl, inr, refl, Option, none, some, true, false, not, List, [], ◌∷◌, All,
  arith, ◌==◌, Bool-cases, if◌then◌else◌, subst, sym,
}
use file_system_implementati.Outcome.{
  Errno, Outcome, ok, err, enoent, enotdir, in_bounds, or_exit, ◌>>=◌, >>=-eq-err,
}
use file_system_implementati.Layout.{Bytes, Dirent, Inode, decode_dir}
use file_system_implementati.Device.{BlockDevice}
use file_system_implementati.FilePath.{parse}
use file_system_implementati.Fs.{Fs, root_inode, s_isdir, direct_0, inode_at, read_block, read_dir}
use file_system_implementati.Lookup.{matches, find_entry, skip_dot, lookup, walk, translate}
use file_system_implementati.Lookup.Tree.{
  IsOther, IsOther-miss, matches-other, Child, lookup-Child, lookup-eq-ok,
}

-- Inode `i` is a directory whose block has no valid entry of this name.
pub record Lacks {dev : BlockDevice} (fs : Fs dev) (i : ℕ) (name : Bytes) : Type 0 where
  pub dir : Inode
  pub fd : List Dirent
  pub inode : inode_at fs i ≡ ok dir
  pub is_dir : s_isdir dir.mode ≡ true
  pub block : read_dir fs (direct_0 dir) ≡ ok fd
  pub others : All (IsOther name) fd

-- Inode `i` is not a directory.
pub record IsFile {dev : BlockDevice} (fs : Fs dev) (i : ℕ) : Type 0 where
  pub file : Inode
  pub inode : inode_at fs i ≡ ok file
  pub not_dir : s_isdir file.mode ≡ false

-- The names lead from an inode to a place where the next name is missing, or where it is looked for in
-- something that is not a directory.
pub data Stuck {dev : BlockDevice} (fs : Fs dev) : ℕ → List Bytes → Errno → Type 0 where
  missing :
      {i : ℕ} {name : Bytes} {names : List Bytes}
      → Lacks fs i name
      → Stuck fs i (name ∷ names) enoent
  in_file :
      {i : ℕ} {name : Bytes} {names : List Bytes} → IsFile fs i → Stuck fs i (name ∷ names) enotdir
  behind :
      {i m : ℕ} {name : Bytes} {names : List Bytes} {e : Errno}
      → Child fs i name m
      → m ≢ 0
      → Stuck fs m names e
      → Stuck fs i (name ∷ names) e

find_entry-eq-err :
    (name : Bytes) (fd : List Dirent) {e : Errno}
    → find_entry name fd ≡ err e
    → (e ≡ enoent) × All (IsOther name) fd
unfolding find_entry
find_entry-eq-err name [] h = (cc, tt)
find_entry-eq-err name (d ∷ fd) h = elim (Bool-cases (matches name d)) [
  | inl hit ↦ absurd (ground (arith, hit))
  | inr miss ↦
      let (e, rest) = find_entry-eq-err name fd (ground (arith, miss)) in
      (e, (IsOther-miss name d miss, rest))
]

find_entry-others :
    (name : Bytes) (fd : List Dirent) → All (IsOther name) fd → find_entry name fd ≡ err enoent
unfolding find_entry
find_entry-others name [] h = refl
find_entry-others name (d ∷ fd) h =
    ground (arith, matches-other name d h.0, find_entry-others name fd h.1)

in_bounds-ne-err : {A : Type 0} (o : Option A) {e : Errno} → in_bounds o ≡ err e → ⊥
in_bounds-ne-err none h = cc
in_bounds-ne-err (some a) h = cc

or_exit-ne-err : {A : Type 0} (o : Option A) {e : Errno} → or_exit o ≡ err e → ⊥
or_exit-ne-err none h = cc
or_exit-ne-err (some a) h = cc

module _ {dev : BlockDevice} (fs : Fs dev) where
  inode_at-ne-err : (i : ℕ) {e : Errno} → inode_at fs i ≡ err e → ⊥
  unfolding inode_at
  inode_at-ne-err i h = in_bounds-ne-err _ h

  read_dir-ne-err : (b : ℕ) {e : Errno} → read_dir fs b ≡ err e → ⊥
  unfolding read_dir read_block
  read_dir-ne-err b h =
      elim (>>=-eq-err (or_exit (dev.block_read fs.disk b 1)) (λ b'. ok (decode_dir b')) h) [
        | inl first ↦ or_exit-ne-err _ first
        | inr (b', read, decoded) ↦ cc
      ]

  lookup-Lacks : (i : ℕ) (name : Bytes) → Lacks fs i name → lookup fs i name ≡ err enoent
  unfolding lookup
  lookup-Lacks i name l =
      ground (arith, l.inode, l.is_dir, l.block, find_entry-others name l.fd l.others)

  lookup-IsFile : (i : ℕ) (name : Bytes) → IsFile fs i → lookup fs i name ≡ err enotdir
  unfolding lookup
  lookup-IsFile i name f = ground (arith, f.inode, f.not_dir)

  directory_fails :
      (dir : Inode) (name : Bytes) {e : Errno}
      → (if not (s_isdir dir.mode)
          then err enotdir
          else (read_dir fs (direct_0 dir) >>= λ fd. find_entry name fd))
        ≡ err e
      → ((s_isdir dir.mode ≡ true)
          × ((read_dir fs (direct_0 dir) >>= λ fd. find_entry name fd) ≡ err e))
        ⊎ ((s_isdir dir.mode ≡ false) × (e ≡ enotdir))
  directory_fails dir name h = elim (Bool-cases (s_isdir dir.mode)) [
    | inl hit ↦ inl (hit, rw hit at h)
    | inr miss ↦ let h' : ◌≡◌ {A = Outcome ℕ} (err enotdir) (err _) = rw miss at h in inr (miss, cc)
  ]

  -- What a lookup without a result has met.
  abbrev Met : ℕ → Bytes → Errno → Type 0
  Met i name e = ((e ≡ enoent) × Lacks fs i name) ⊎ ((e ≡ enotdir) × IsFile fs i)

  read_fails :
      (i : ℕ) (name : Bytes) (dir : Inode) {e : Errno}
      → inode_at fs i ≡ ok dir
      → s_isdir dir.mode ≡ true
      → (read_dir fs (direct_0 dir) >>= λ fd. find_entry name fd) ≡ err e
      → Met i name e
  read_fails i name dir at is_dir h =
      elim (>>=-eq-err (read_dir fs (direct_0 dir)) (find_entry name) h) [
        | inl read ↦ absurd (read_dir-ne-err (direct_0 dir) read)
        | inr (fd, block, miss) ↦
            let (e, others) = find_entry-eq-err name fd miss in
            inl (
              e,
              record {
                dir = dir;
                fd = fd;
                inode = at;
                is_dir = is_dir;
                block = block;
                others = others;
              },
            )
      ]

  lookup-eq-err : (i : ℕ) (name : Bytes) {e : Errno} → lookup fs i name ≡ err e → Met i name e
  unfolding lookup
  lookup-eq-err i name h = elim (>>=-eq-err (inode_at fs i) _ h) [
    | inl first ↦ absurd (inode_at-ne-err i first)
    | inr (dir, at, rest) ↦ elim (directory_fails dir name rest) [
      | inl (is_dir, fails) ↦ read_fails i name dir at is_dir fails
      | inr (file, e) ↦ inr (e, record { file = dir; inode = at; not_dir = file })
    ]
  ]

  walk-Stuck :
      (i : ℕ) (names : List Bytes) (e : Errno) → Stuck fs i names e → walk fs i names ≡ err e
  unfolding walk
  walk-Stuck i [] e s = elim s [ ]
  walk-Stuck i (name ∷ names) e (missing l) = ground (arith, lookup-Lacks i name l)
  walk-Stuck i (name ∷ names) e (in_file f) = ground (arith, lookup-IsFile i name f)
  walk-Stuck i (name ∷ names) e (behind {m = m} c ne s) =
      ground (arith, lookup-Child fs i name m c, ne, walk-Stuck m names e s)

  goes_wrong :
      (r : Outcome ℕ) (m : ℕ) (e : Errno)
      → (elim (m == 0) [ true ↦ ok 0 | false ↦ r ]) ≡ err e
      → (m ≢ 0) × (r ≡ err e)
  goes_wrong r m e h = elim (Bool-cases (m == 0)) [
    | inl at_0 ↦ absurd (ground (arith, at_0))
    | inr more ↦ (ground (arith, more), ground (arith, more))
  ]

  Stuck-here :
      (i : ℕ) (name : Bytes) (names : List Bytes) (e : Errno)
      → Met i name e
      → Stuck fs i (name ∷ names) e
  Stuck-here i name names e (inl (p, l)) = subst (Stuck fs i (name ∷ names)) (sym p) (missing l)
  Stuck-here i name names e (inr (p, f)) = subst (Stuck fs i (name ∷ names)) (sym p) (in_file f)

  walk-eq-err :
      (i : ℕ) (names : List Bytes) (e : Errno) → walk fs i names ≡ err e → Stuck fs i names e
  unfolding walk
  walk-eq-err i [] e h = cc
  walk-eq-err i (name ∷ names) e h = elim (>>=-eq-err (lookup fs i name) _ h) [
    | inl first ↦ Stuck-here i name names e (lookup-eq-err i name first)
    | inr (m, found, rest) ↦
        let (ne, next) = goes_wrong (walk fs m names) m e rest in
        behind (lookup-eq-ok fs i name m found) ne (walk-eq-err m names e next)
  ]

  -- translate returns an error exactly in two cases, each behind components of the path, without a "."
  -- in front, that lead from the root past no inode 0: -ENOENT at a directory that has no valid entry
  -- of the next name, and -ENOTDIR where the next name is looked for in an inode that is not a
  -- directory.
  pub translate-err_iff :
      (path : Bytes) (e : Errno)
      → (translate fs path ≡ err e) ↔ Stuck fs root_inode (skip_dot (parse path)) e
  unfolding translate
  translate-err_iff path e = (walk-eq-err root_inode _ e, walk-Stuck root_inode _ e)
