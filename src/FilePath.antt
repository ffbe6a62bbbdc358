-- ===== src/FilePath.antt =====
-- Paths: parse and split_path of homework.c, and the string functions of the C library that they
-- call. A string is the list of its bytes, without the closing NUL.
pub mod Laws
use mathlib.Core.List.{reverse}
use file_system_implementati.Base.{
  ℕ, zero, suc, true, false, Option, none, some, List, [], ◌∷◌, leb, ◌==◌, take, if◌then◌else◌,
  length,
}
use file_system_implementati.Outcome.{Outcome, ok, fault}
use file_system_implementati.Layout.{Bytes}

abbrev pub max_path_len : ℕ
max_path_len = 10

abbrev pub max_name_len : ℕ
max_name_len = 27

abbrev pub slash : ℕ
slash = b'/'

abbrev pub dot : Bytes
dot = b'.' ∷ []

unfoldable pub skip_slashes : Bytes → Bytes
skip_slashes [] = []
skip_slashes (c ∷ cs) = elim (c == slash) [ true ↦ skip_slashes cs | false ↦ c ∷ cs ]

-- The bytes up to the first slash, and those from it on.
unfoldable pub until_slash : Bytes → Bytes
until_slash [] = []
until_slash (c ∷ cs) = elim (c == slash) [ true ↦ [] | false ↦ c ∷ until_slash cs ]

unfoldable pub from_slash : Bytes → Bytes
from_slash [] = []
from_slash (c ∷ cs) = elim (c == slash) [ true ↦ c ∷ cs | false ↦ from_slash cs ]

-- strtok(s, "/"): the next token and what the following call goes on from.
unfoldable pub strtok : Bytes → Option (Bytes × Bytes)
strtok s = elim (skip_slashes s) [
  | [] ↦ none
  | c ∷ cs ↦ some (until_slash (c ∷ cs), from_slash (c ∷ cs))
]

-- `n` rounds of the loop of parse
unfoldable pub parse_loop : ℕ → Bytes → List Bytes
parse_loop zero path = []
parse_loop (suc n) path = elim (strtok path) [
  | none ↦ []
  | some (tok, rest) ↦ take max_name_len tok ∷ parse_loop n rest
]

unfoldable pub parse : Bytes → List Bytes
unfolding parse_loop strtok skip_slashes until_slash from_slash
parse path = parse_loop max_path_len path

-- What basename and dirname return for a path of slashes alone.
abbrev pub only_slashes : Bytes → Bytes
only_slashes [] = dot
only_slashes (c ∷ cs) = slash ∷ []

unfoldable pub basename : Bytes → Bytes
basename path = elim (skip_slashes (reverse path)) [
  | [] ↦ only_slashes path
  | c ∷ cs ↦ reverse (until_slash (c ∷ cs))
]

-- The end of dirname: the reversed path before the last component.
abbrev pub parent_of : Bytes → Bytes
parent_of [] = slash ∷ []
parent_of (c ∷ cs) = reverse (c ∷ cs)

unfoldable pub dirname : Bytes → Bytes
dirname path = elim (skip_slashes (reverse path)) [
  | [] ↦ only_slashes path
  | c ∷ cs ↦ elim (from_slash (c ∷ cs)) [ [] ↦ dot | d ∷ ds ↦ parent_of (skip_slashes (d ∷ ds)) ]
]

abbrev pub parent_buffer : ℕ
parent_buffer = 1000

abbrev pub leaf_buffer : ℕ
leaf_buffer = 28

-- Every caller passes buffers of these sizes; each strcpy writes a NUL behind the string.
unfoldable pub split_path : Bytes → Outcome (Bytes × Bytes)
unfolding basename dirname skip_slashes until_slash from_slash
split_path path =
    if leb leaf_buffer (length (basename path))
    then fault
    else if leb parent_buffer (length (dirname path))
    then fault
    else ok (dirname path, take max_name_len (basename path))
