-- ===== src/Directory/Entries.antt =====
-- The 32 entries of a directory: what find_entry finds after an entry has been added, removed or
-- renamed, and that the entries of a block survive being stored.
use file_system_implementati.Base.{
  ℕ, zero, suc, ◌+◌, ◌-◌, ◌*◌, ◌≤◌, ◌<◌, ◌^◌, ◌≡◌, ◌≢◌, refl, ap, inl, inr, Bool, true, false, some,
  List, [], ◌∷◌, ◌++◌, map, length, take, drop, get_elem?, set, All, ◌==◌, Bool-cases, arith,
  length-append, length-drop, length-take,
}
use file_system_implementati.Outcome.{ok, err, enoent}
use file_system_implementati.Layout.{
  Bytes, Dirent, le_value, chunks, decode_dirent, decode_dir, encode_dirent, encode_dir, le_bytes,
}
use file_system_implementati.Layout.Words.{le_bytes-AreBytes}
use file_system_implementati.Layout.Codec.{IsDirent, AreBytes-concat}
use file_system_implementati.Device.{AreBytes}
use file_system_implementati.Memory.Laws.{AreBytes-take, AreBytes-drop, AreBytes-append}
use file_system_implementati.Fs.{c_string, strcpy}
use file_system_implementati.Lookup.{matches, find_entry}
use file_system_implementati.Lookup.Tree.{matches-eq-true}
use file_system_implementati.Create.{free_entry}

-- A C string that fits into the array of a directory entry.
pub record IsName (leaf : Bytes) : Type 0 where
  pub chars : All (λ c. (c ≢ 0) × (c < 256)) leaf
  pub fits : length leaf ≤ 27

-- What an entry of a block of bytes holds.
pub record IsEntry (e : Dirent) : Type 0 where
  pub dirent : IsDirent e
  pub bytes : AreBytes e.name

c_string-append :
    (leaf rest : Bytes) → All (λ c. (c ≢ 0) × (c < 256)) leaf → c_string (leaf ++ (0 ∷ rest)) ≡ leaf
unfolding c_string
c_string-append [] rest h = refl
c_string-append (c ∷ leaf) rest h =
    let e : (c == 0) ≡ false = ground (arith, h.0.0) in
    ground (arith, e, c_string-append leaf rest h.1)

AreBytes-chars : (leaf : Bytes) → All (λ c. (c ≢ 0) × (c < 256)) leaf → AreBytes leaf
AreBytes-chars [] h = tt
AreBytes-chars (c ∷ leaf) h = (h.0.1, AreBytes-chars leaf h.1)

pub c_string-strcpy : (dst leaf : Bytes) → IsName leaf → c_string (strcpy dst leaf) ≡ leaf
unfolding strcpy
c_string-strcpy dst leaf h = c_string-append leaf (drop (length leaf + 1) dst) h.chars

-- An entry keeps its form when its name is replaced and its number is one of an inode.
pub IsEntry-strcpy :
    (valid is_dir : Bool) (inode : ℕ) (name leaf : Bytes)
    → inode < 2 ^ 30
    → length name ≡ 28
    → AreBytes name
    → IsName leaf
    → IsEntry (record { valid = valid; is_dir = is_dir; inode = inode; name = strcpy name leaf })
unfolding strcpy
IsEntry-strcpy valid is_dir inode name leaf small n b h = record {
  dirent = record {
    inode = small;
    name = omega (
      arith,
      length-append leaf (0 ∷ drop (length leaf + 1) name),
      length-drop (length leaf + 1) name,
      h.fits,
    );
  };
  bytes =
      AreBytes-append leaf _ (AreBytes-chars leaf h.chars)
        (omega arith, AreBytes-drop (length leaf + 1) name b);
}

-- The entries that are read from a block of bytes.
le_value-below : (b : Bytes) → AreBytes b → le_value (take 4 b) < 2 ^ 32
unfolding le_value
le_value-below [] h = omega arith
le_value-below (x ∷ []) h = omega arith
le_value-below (x ∷ y ∷ []) h = omega arith
le_value-below (x ∷ y ∷ z ∷ []) h = omega arith
le_value-below (x ∷ y ∷ z ∷ w ∷ b) h = omega arith

IsEntry-decode_dirent : (b : Bytes) → length b ≡ 32 → AreBytes b → IsEntry (decode_dirent b)
unfolding decode_dirent
IsEntry-decode_dirent b n h = record {
  dirent = record {
    inode = omega (arith, le_value-below b h);
    name = omega (arith, length-take 28 (drop 4 b), length-drop 4 b);
  };
  bytes = AreBytes-take 28 (drop 4 b) (AreBytes-drop 4 b h);
}

entries_of :
    (n : ℕ) (b : Bytes)
    → length b ≡ n * 32
    → AreBytes b
    → All IsEntry (map decode_dirent (chunks n 32 b))
      × (length (map decode_dirent (chunks n 32 b)) ≡ n)
unfolding chunks
entries_of zero b n h = (tt, refl)
entries_of (suc k) b n h =
    let (rest, size) =
      entries_of k (drop 32 b) (omega (arith, length-drop 32 b)) (AreBytes-drop 32 b h) in
    (
      (
        IsEntry-decode_dirent (take 32 b) (omega (arith, length-take 32 b)) (AreBytes-take 32 b h),
        rest,
      ),
      ap suc size,
    )

pub IsEntry-decode_dir :
    (b : Bytes)
    → length b ≡ 1024
    → AreBytes b
    → All IsEntry (decode_dir b) × (length (decode_dir b) ≡ 32)
unfolding decode_dir
IsEntry-decode_dir b n h = entries_of 32 b (omega arith) h

AreBytes-encode_dirent : (e : Dirent) → IsEntry e → AreBytes (encode_dirent e)
unfolding encode_dirent
AreBytes-encode_dirent e h = AreBytes-append (le_bytes 4 _) e.name (le_bytes-AreBytes 4 _) h.bytes

pub AreBytes-encode_dir : (fd : List Dirent) → All IsEntry fd → AreBytes (encode_dir fd)
unfolding encode_dir
AreBytes-encode_dir fd h = AreBytes-concat (map encode_dirent fd) (all_entries fd h)
  where
    all_entries : (fd : List Dirent) → All IsEntry fd → All AreBytes (map encode_dirent fd)
    all_entries [] h = tt
    all_entries (e ∷ fd) h = (AreBytes-encode_dirent e h.0, all_entries fd h.1)

pub all_dirents : (fd : List Dirent) → All IsEntry fd → All IsDirent fd
all_dirents [] h = tt
all_dirents (e ∷ fd) h = (h.0.dirent, all_dirents fd h.1)

-- The entry at `i` is replaced.
pub find_entry-set_apart :
    (name : Bytes) (fd : List Dirent) (i : ℕ) (e e' : Dirent)
    → get_elem? fd i ≡ some e
    → matches name e ≡ false
    → matches name e' ≡ false
    → find_entry name (set fd i e') ≡ find_entry name fd
unfolding find_entry
find_entry-set_apart name [] i e e' at m m' = refl
find_entry-set_apart name (x ∷ fd) zero e e' at m m' = let p : x ≡ e = cc in rw (p, m, m')
find_entry-set_apart name (x ∷ fd) (suc i) e e' at m m' =
    rw (find_entry-set_apart name fd i e e' at m m')

pub find_entry-set_self :
    (name : Bytes) (fd : List Dirent) (i : ℕ) (e e' : Dirent)
    → get_elem? fd i ≡ some e
    → find_entry name fd ≡ err enoent
    → matches name e' ≡ true
    → find_entry name (set fd i e') ≡ ok e'.inode
unfolding find_entry
find_entry-set_self name [] i e e' at none m = absurd (ground arith)
find_entry-set_self name (x ∷ fd) zero e e' at none m = rw m
find_entry-set_self name (x ∷ fd) (suc i) e e' at none m = elim (Bool-cases (matches name x)) [
  | inl hit ↦ absurd (ground (arith, hit))
  | inr miss ↦ ground (arith, miss, find_entry-set_self name fd i e e' at)
]

-- The free entry that create takes.
free_entry-from :
    (fd : List Dirent) (j : ℕ) {i : ℕ}
    → free_entry fd j ≡ ok i
    → (j ≤ i) × (e : Dirent) × (get_elem? fd (i - j) ≡ some e) × (e.valid ≡ false)
unfolding free_entry
free_entry-from [] j h = absurd (ground arith)
free_entry-from (e ∷ fd) j {i} h = elim (Bool-cases e.valid) [
  | inl used ↦
      let (lo, e', at, free) = free_entry-from fd (j + 1) {i = i} (ground (arith, used)) in
      let p : i - j ≡ suc (i - (j + 1)) = omega arith in (omega arith, e', rw p at, free)
  | inr free ↦
      let p : i - j ≡ 0 = ground (arith, free) in (ground (arith, free), e, rw p refl, free)
]

pub free_entry_lem :
    (fd : List Dirent) {i : ℕ}
    → free_entry fd 0 ≡ ok i
    → (e : Dirent) × (get_elem? fd i ≡ some e) × (e.valid ≡ false)
free_entry_lem fd {i} h =
    let (_, e, at, free) = free_entry-from fd 0 h in
    let p : i - 0 ≡ i = omega arith in (e, rw p at at, free)

pub matches-free : (name : Bytes) (e : Dirent) → e.valid ≡ false → matches name e ≡ false
unfolding matches
matches-free name e h = rw h

-- An entry of another name does not match.
pub matches-named_other :
    (name : Bytes) (e : Dirent) → c_string e.name ≢ name → matches name e ≡ false
matches-named_other name e h = elim (Bool-cases (matches name e)) [
  | inl hit ↦ absurd (h (matches-eq-true name e hit).1)
  | inr miss ↦ miss
]
