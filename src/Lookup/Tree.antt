-- ===== src/Lookup/Tree.antt =====
-- The directory tree that the blocks describe, as a relation, and translate against it.
use file_system_implementati.Base.{
  list_eq_refl, list_eq_sound, ℕ, ap, subst, ◌∙◌, ◌≡◌, ◌≢◌, ◌↔◌, inl, inr, refl, true, false, not,
  List, [], ◌∷◌, ◌++◌, All, arith, ◌==◌, Bool-cases, if◌then◌else◌, list_eq,
}
use file_system_implementati.Outcome.{Outcome, ok, err, enotdir, ◌>>=◌, >>=-eq-ok}
use file_system_implementati.Layout.{Bytes, Dirent, Inode}
use file_system_implementati.Device.{BlockDevice}
use file_system_implementati.FilePath.{parse}
use file_system_implementati.Fs.{Fs, root_inode, s_isdir, direct_0, c_string, inode_at, read_dir}
use file_system_implementati.Lookup.{matches, find_entry, skip_dot, lookup, walk, translate}

-- A valid entry with another name, or one that is not valid.
abbrev pub IsOther : Bytes → Dirent → Type 0
IsOther name e = e.valid ≡ true → c_string e.name ≢ name

-- The first valid entry with this name has inode `m`.
pub record Names (fd : List Dirent) (name : Bytes) (m : ℕ) : Type 0 where
  pub before : List Dirent
  pub entry : Dirent
  pub after : List Dirent
  pub split : fd ≡ before ++ (entry ∷ after)
  pub first : All (IsOther name) before
  pub valid : entry.valid ≡ true
  pub name_is : c_string entry.name ≡ name
  pub inode_is : entry.inode ≡ m

pub matches-eq-true :
    (name : Bytes) (e : Dirent)
    → matches name e ≡ true
    → (e.valid ≡ true) × (c_string e.name ≡ name)
unfolding matches
matches-eq-true name e h = (ground arith, list_eq_sound (c_string e.name) name (ground arith))

pub matches-named :
    (name : Bytes) (e : Dirent) → e.valid ≡ true → c_string e.name ≡ name → matches name e ≡ true
unfolding matches
matches-named name e v n =
    ground
      (arith, v, subst (λ s. list_eq (c_string e.name) s ≡ true) n (list_eq_refl (c_string e.name)))

pub matches-other : (name : Bytes) (e : Dirent) → IsOther name e → matches name e ≡ false
matches-other name e o = elim (Bool-cases (matches name e)) [
  | inl hit ↦ let (v, n) = matches-eq-true name e hit in absurd (o v n)
  | inr miss ↦ miss
]

pub IsOther-miss : (name : Bytes) (e : Dirent) → matches name e ≡ false → IsOther name e
IsOther-miss name e miss v n = ground (arith, miss, matches-named name e v n)

find_entry-eq-ok :
    (name : Bytes) (fd : List Dirent) {m : ℕ} → find_entry name fd ≡ ok m → Names fd name m
unfolding find_entry
find_entry-eq-ok name [] h = absurd (ground arith)
find_entry-eq-ok name (e ∷ es) h = elim (Bool-cases (matches name e)) [
  | inl hit ↦
      let (v, n) = matches-eq-true name e hit in
      record {
        before = [];
        entry = e;
        after = es;
        split = refl;
        first = tt;
        valid = v;
        name_is = n;
        inode_is = ground (arith, hit);
      }
  | inr miss ↦
      let rest = find_entry-eq-ok name es (ground (arith, miss)) in
      record {
        before = e ∷ rest.before;
        entry = rest.entry;
        after = rest.after;
        split = ap (λ l. e ∷ l) rest.split;
        first = (IsOther-miss name e miss, rest.first);
        valid = rest.valid;
        name_is = rest.name_is;
        inode_is = rest.inode_is;
      }
]

find_entry-append :
    (name : Bytes) (before after : List Dirent) (e : Dirent)
    → All (IsOther name) before
    → matches name e ≡ true
    → find_entry name (before ++ (e ∷ after)) ≡ ok e.inode
unfolding find_entry
find_entry-append name [] after e h hit = ground arith
find_entry-append name (b ∷ before) after e h hit =
    ground (arith, matches-other name b h.0, find_entry-append name before after e h.1 hit)

find_entry-Names :
    (name : Bytes) (fd : List Dirent) (m : ℕ) → Names fd name m → find_entry name fd ≡ ok m
find_entry-Names name fd m n =
    ap (find_entry name) n.split
    ∙ find_entry-append name n.before n.after n.entry n.first
        (matches-named name n.entry n.valid n.name_is)
    ∙ ap ok n.inode_is

-- Inode `i` is a directory whose block names `m` as `name`.
pub record Child {dev : BlockDevice} (fs : Fs dev) (i : ℕ) (name : Bytes) (m : ℕ) : Type 0 where
  pub dir : Inode
  pub fd : List Dirent
  pub inode : inode_at fs i ≡ ok dir
  pub is_dir : s_isdir dir.mode ≡ true
  pub block : read_dir fs (direct_0 dir) ≡ ok fd
  pub names : Names fd name m

-- The names lead from one inode to another, past no inode 0.
pub data Leads {dev : BlockDevice} (fs : Fs dev) : ℕ → List Bytes → ℕ → Type 0 where
  here : {i : ℕ} → Leads fs i [] i
  there :
      {i m k : ℕ} {name : Bytes} {names : List Bytes}
      → Child fs i name m
      → m ≢ 0
      → Leads fs m names k
      → Leads fs i (name ∷ names) k

module _ {dev : BlockDevice} (fs : Fs dev) where
  pub lookup-Child : (i : ℕ) (name : Bytes) (m : ℕ) → Child fs i name m → lookup fs i name ≡ ok m
  unfolding lookup
  lookup-Child i name m c =
      ground (arith, c.inode, c.is_dir, c.block, find_entry-Names name c.fd m c.names)

  directory_reads :
      (dir : Inode) (name : Bytes) (m : ℕ)
      → (if not (s_isdir dir.mode)
          then err enotdir
          else (read_dir fs (direct_0 dir) >>= λ fd. find_entry name fd))
        ≡ ok m
      → (s_isdir dir.mode ≡ true)
        × ((read_dir fs (direct_0 dir) >>= λ fd. find_entry name fd) ≡ ok m)
  directory_reads dir name m h = elim (Bool-cases (s_isdir dir.mode)) [
    | inl hit ↦ (hit, ground (arith, hit))
    | inr miss ↦ absurd (ground (arith, miss))
  ]

  pub lookup-eq-ok : (i : ℕ) (name : Bytes) (m : ℕ) → lookup fs i name ≡ ok m → Child fs i name m
  unfolding lookup
  lookup-eq-ok i name m h =
      let (dir, at, rest) = >>=-eq-ok (inode_at fs i) _ h in
      let (is_dir, reads) = directory_reads dir name m rest in
      let (fd, block, found) = >>=-eq-ok (read_dir fs (direct_0 dir)) (find_entry name) reads in
      record {
        dir = dir;
        fd = fd;
        inode = at;
        is_dir = is_dir;
        block = block;
        names = find_entry-eq-ok name fd found;
      }

  goes_on :
      (r : Outcome ℕ) (m k : ℕ)
      → k ≢ 0
      → (elim (m == 0) [ true ↦ ok 0 | false ↦ r ]) ≡ ok k
      → (m ≢ 0) × (r ≡ ok k)
  goes_on r m k ne h = elim (Bool-cases (m == 0)) [
    | inl at_0 ↦ absurd (ground (arith, at_0))
    | inr more ↦ (ground (arith, more), ground (arith, more))
  ]

  walk-Leads : (i : ℕ) (names : List Bytes) (k : ℕ) → Leads fs i names k → walk fs i names ≡ ok k
  unfolding walk
  walk-Leads i [] k here = refl
  walk-Leads i (name ∷ names) k (there {m = m} c ne l) =
      ground (arith, lookup-Child i name m c, ne, walk-Leads m names k l)

  walk-eq-ok :
      (i : ℕ) (names : List Bytes) (k : ℕ) → k ≢ 0 → walk fs i names ≡ ok k → Leads fs i names k
  unfolding walk
  walk-eq-ok i [] k ne h = subst (λ j. Leads fs i [] j) (ground arith) here
  walk-eq-ok i (name ∷ names) k ne h =
      let (m, found, rest) = >>=-eq-ok (lookup fs i name) _ h in
      let (ne', next) = goes_on (walk fs m names) m k ne rest in
      there (lookup-eq-ok i name m found) ne' (walk-eq-ok m names k ne next)

  -- translate returns the inode `k`, other than 0, exactly if the components of the path, without a
  -- "." in front, lead from the root directory to `k`: each step goes from a directory by the first
  -- valid entry with the component's name to an inode other than 0.
  pub translate_iff :
      (path : Bytes) (k : ℕ)
      → k ≢ 0
      → (translate fs path ≡ ok k) ↔ Leads fs root_inode (skip_dot (parse path)) k
  unfolding translate
  translate_iff path k ne = (walk-eq-ok root_inode _ k ne, walk-Leads root_inode _ k)
