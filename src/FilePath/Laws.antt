-- ===== src/FilePath/Laws.antt =====
-- How parse and split_path take apart an absolute path.
use mathlib.Core.List.{
  reverse, reverse-append, reverse-cons, reverse-reverse, append_assoc, append-nil,
}
use file_system_implementati.Base.{
  ℕ, zero, suc, ◌≤◌, ◌<◌, ◌≡◌, refl, sym, ap, ◌∙◌, false, some, List, [], ◌∷◌, ◌++◌, map, take,
  length, All, arith, ◌==◌, take_all,
}
use file_system_implementati.Outcome.{ok, fault}
use file_system_implementati.Layout.{Bytes}
use file_system_implementati.FilePath.{
  max_path_len, max_name_len, slash, skip_slashes, until_slash, from_slash, strtok, parse_loop,
  parse, basename, parent_of, dirname, parent_buffer, split_path,
}

-- A path component: not empty, and with no slash.
abbrev pub IsComponent : Bytes → Type 0
IsComponent [] = ⊥
IsComponent (c ∷ cs) = All (λ b. (b == slash) ≡ false) (c ∷ cs)

-- The absolute path of some components: "/a/b".
abbrev pub join : List Bytes → Bytes
join [] = []
join (n ∷ ns) = slash ∷ (n ++ join ns)

-- What stands behind a component: nothing, or a slash.
abbrev AtSlash : Bytes → Type 0
AtSlash [] = Unit
AtSlash (c ∷ cs) = c ≡ slash

AtSlash-join : (ns : List Bytes) → AtSlash (join ns)
AtSlash-join [] = tt
AtSlash-join (n ∷ ns) = refl

until_slash-append :
    (n rest : Bytes)
    → All (λ b. (b == slash) ≡ false) n
    → AtSlash rest
    → until_slash (n ++ rest) ≡ n
unfolding until_slash
until_slash-append [] [] h r = refl
until_slash-append [] (c ∷ rest) h r = ground arith
until_slash-append (x ∷ n) rest h r = ground (arith, until_slash-append n rest h.1 r)

from_slash-append :
    (n rest : Bytes)
    → All (λ b. (b == slash) ≡ false) n
    → AtSlash rest
    → from_slash (n ++ rest) ≡ rest
unfolding from_slash
from_slash-append [] [] h r = refl
from_slash-append [] (c ∷ rest) h r = ground arith
from_slash-append (x ∷ n) rest h r = ground (arith, from_slash-append n rest h.1 r)

skip_slashes-component : (n rest : Bytes) → IsComponent n → skip_slashes (n ++ rest) ≡ n ++ rest
unfolding skip_slashes
skip_slashes-component [] rest h = absurd h
skip_slashes-component (x ∷ n) rest h = ground arith

skip_slashes-slash : (rest : Bytes) → skip_slashes (slash ∷ rest) ≡ skip_slashes rest
unfolding skip_slashes
skip_slashes-slash rest = refl

strtok-join :
    (n : Bytes) (ns : List Bytes) → IsComponent n → strtok (join (n ∷ ns)) ≡ some (n, join ns)
unfolding strtok
strtok-join [] ns h = absurd h
strtok-join (c ∷ cs) ns h = ground (
  arith,
  skip_slashes-slash (c ∷ (cs ++ join ns)),
  skip_slashes-component (c ∷ cs) (join ns) h,
  until_slash-append (c ∷ cs) (join ns) h (AtSlash-join ns),
  from_slash-append (c ∷ cs) (join ns) h (AtSlash-join ns),
)

parse_loop-join :
    (k : ℕ) (ns : List Bytes)
    → All IsComponent ns
    → parse_loop k (join ns) ≡ map (take max_name_len) (take k ns)
unfolding parse_loop
parse_loop-join zero ns h = refl
parse_loop-join (suc k) [] h = unfold strtok skip_slashes in refl
parse_loop-join (suc k) (n ∷ ns) h = ground (arith, strtok-join n ns h.0, parse_loop-join k ns h.1)

-- parse of the absolute path "/n1/n2/…", where no component is empty or holds a slash, returns the
-- components in order: the first ten of them, each cut to 27 bytes.
pub parse-join :
    (ns : List Bytes)
    → All IsComponent ns
    → parse (join ns) ≡ map (take max_name_len) (take max_path_len ns)
unfolding parse
parse-join ns h = parse_loop-join max_path_len ns h

join-append :
    (ns : List Bytes) (leaf : Bytes) → join (ns ++ (leaf ∷ [])) ≡ join ns ++ (slash ∷ leaf)
join-append [] leaf = ap (λ t. slash ∷ t) (append-nil leaf)
join-append (n ∷ ns) leaf =
    ap (λ t. slash ∷ t) (ap (λ t. n ++ t) (join-append ns leaf) ∙ sym (append_assoc n (join ns) _))

-- The reversed path: the reversed leaf, a slash, the reversed rest.
reverse-path :
    (dir leaf : Bytes) → reverse (dir ++ (slash ∷ leaf)) ≡ reverse leaf ++ (slash ∷ reverse dir)
reverse-path dir leaf =
    reverse-append dir (slash ∷ leaf)
    ∙ ap (λ t. t ++ reverse dir) (reverse-cons slash leaf)
    ∙ append_assoc (reverse leaf) (slash ∷ []) (reverse dir)

abbrev NoSlash : Bytes → Type 0
NoSlash = All (λ b. (b == slash) ≡ false)

NoSlash-append : (a b : Bytes) → NoSlash a → NoSlash b → NoSlash (a ++ b)
NoSlash-append [] b h k = k
NoSlash-append (x ∷ a) b h k = (h.0, NoSlash-append a b h.1 k)

NoSlash-reverse : (n : Bytes) → NoSlash n → NoSlash (reverse n)
NoSlash-reverse [] h = tt
NoSlash-reverse (c ∷ cs) h =
    rw reverse-cons (NoSlash-append (reverse cs) (c ∷ []) (NoSlash-reverse cs h.1) (h.0, tt))

IsComponent-snoc :
    (a : Bytes) (c : ℕ) → NoSlash a → (c == slash) ≡ false → IsComponent (a ++ (c ∷ []))
IsComponent-snoc [] c h k = (k, tt)
IsComponent-snoc (x ∷ a) c h k = (h.0, NoSlash-append a (c ∷ []) h.1 (k, tt))

IsComponent-reverse : (n : Bytes) → IsComponent n → IsComponent (reverse n)
IsComponent-reverse [] h = absurd h
IsComponent-reverse (c ∷ cs) h =
    rw reverse-cons (IsComponent-snoc (reverse cs) c (NoSlash-reverse cs h.1) h.0)

NoSlash-of_IsComponent : (n : Bytes) → IsComponent n → NoSlash n
NoSlash-of_IsComponent [] h = tt
NoSlash-of_IsComponent (c ∷ cs) h = h

-- The first byte is there and is no slash.
abbrev Starts : Bytes → Type 0
Starts [] = ⊥
Starts (c ∷ cs) = (c == slash) ≡ false

Starts-append : (a b : Bytes) → Starts a → Starts (a ++ b)
Starts-append [] b h = absurd h
Starts-append (x ∷ a) b h = h

Starts-of_IsComponent : (n : Bytes) → IsComponent n → Starts n
Starts-of_IsComponent [] h = absurd h
Starts-of_IsComponent (c ∷ cs) h = h.0

skip_slashes-Starts : (a : Bytes) → Starts a → skip_slashes a ≡ a
unfolding skip_slashes
skip_slashes-Starts [] h = refl
skip_slashes-Starts (x ∷ a) h = ground arith

reverse-join_cons :
    (n : Bytes) (ns : List Bytes)
    → reverse (join (n ∷ ns)) ≡ (reverse (join ns) ++ reverse n) ++ (slash ∷ [])
reverse-join_cons n ns =
    reverse-cons slash (n ++ join ns) ∙ ap (λ t. t ++ (slash ∷ [])) (reverse-append n (join ns))

Starts-reverse-join :
    (n : Bytes) (ns : List Bytes)
    → IsComponent n
    → All IsComponent ns
    → Starts (reverse (join (n ∷ ns)))
Starts-reverse-join n [] h hs = rw (reverse-join_cons n []) (
    Starts-append (reverse n) (slash ∷ [])
      (Starts-of_IsComponent (reverse n) (IsComponent-reverse n h)))
Starts-reverse-join n (m ∷ ms) h hs = rw (reverse-join_cons n (m ∷ ms)) (
    Starts-append _ (slash ∷ []) (Starts-append _ (reverse n) (Starts-reverse-join m ms hs.0 hs.1)))

basename-rev :
    (path r rest : Bytes)
    → reverse path ≡ r ++ rest
    → IsComponent r
    → AtSlash rest
    → basename path ≡ reverse r
unfolding basename
basename-rev path [] rest e h k = absurd h
basename-rev path (c ∷ cs) rest e h k =
    ground (arith, skip_slashes-component (c ∷ cs) rest h, until_slash-append (c ∷ cs) rest h k)

dirname-rev :
    (path r rest : Bytes)
    → reverse path ≡ r ++ (slash ∷ rest)
    → IsComponent r
    → dirname path ≡ parent_of (skip_slashes rest)
unfolding dirname
dirname-rev path [] rest e h = absurd h
dirname-rev path (c ∷ cs) rest e h = ground (
  arith,
  skip_slashes-component (c ∷ cs) (slash ∷ rest) h,
  from_slash-append (c ∷ cs) (slash ∷ rest) h refl,
  skip_slashes-slash rest,
)

-- The directory part of a path: "/" where there is one component alone.
abbrev pub parent_path : List Bytes → Bytes
parent_path [] = slash ∷ []
parent_path (n ∷ ns) = join (n ∷ ns)

parent_of-join :
    (ns : List Bytes)
    → All IsComponent ns
    → parent_of (skip_slashes (reverse (join ns))) ≡ parent_path ns
parent_of-join [] h = unfold skip_slashes in refl
parent_of-join (n ∷ ns) h =
    let st = Starts-reverse-join n ns h.0 h.1 in
    ap parent_of (skip_slashes-Starts _ st)
    ∙ parent_of_Starts _ st
    ∙ reverse-reverse (join (n ∷ ns))
  where
    parent_of_Starts : (a : Bytes) → Starts a → parent_of a ≡ reverse a
    parent_of_Starts [] h = absurd h
    parent_of_Starts (c ∷ cs) h = refl

split_of :
    (path leaf parent : Bytes)
    → basename path ≡ leaf
    → dirname path ≡ parent
    → length leaf ≤ max_name_len
    → length parent < parent_buffer
    → split_path path ≡ ok (parent, leaf)
unfolding split_path
split_of path leaf parent b d short room =
    rw (b, d) (ground (arith, take_all max_name_len leaf short))

-- split_path takes an absolute path apart into the path of its directory and its last component,
-- where the component has at most 27 bytes and the directory's path at most 999: longer ones do not
-- fit the callers' buffers.
pub split_path-join :
    (ns : List Bytes) (leaf : Bytes)
    → All IsComponent ns
    → IsComponent leaf
    → length leaf ≤ max_name_len
    → length (parent_path ns) < parent_buffer
    → split_path (join (ns ++ (leaf ∷ []))) ≡ ok (parent_path ns, leaf)
split_path-join ns leaf hs h short room =
    let path = join (ns ++ (leaf ∷ [])) in
    let e = ap reverse (join-append ns leaf) ∙ reverse-path (join ns) leaf in
    let hr = IsComponent-reverse leaf h in
    let b =
      basename-rev path (reverse leaf) (slash ∷ reverse (join ns)) e hr refl
      ∙ reverse-reverse leaf in
    let d = dirname-rev path (reverse leaf) (reverse (join ns)) e hr ∙ parent_of-join ns hs in
    split_of path leaf (parent_path ns) b d short room

-- A last component of 28 bytes or more overflows the leaf buffer, before split_path can cut it.
pub split_path_overflow :
    (ns : List Bytes) (leaf : Bytes)
    → IsComponent leaf
    → max_name_len < length leaf
    → split_path (join (ns ++ (leaf ∷ []))) ≡ fault
unfolding split_path
split_path_overflow ns leaf h long =
    let path = join (ns ++ (leaf ∷ [])) in
    let e = ap reverse (join-append ns leaf) ∙ reverse-path (join ns) leaf in
    let b =
      basename-rev path (reverse leaf) (slash ∷ reverse (join ns)) e (IsComponent-reverse leaf h)
        refl
      ∙ reverse-reverse leaf in
    rw b (ground arith)
