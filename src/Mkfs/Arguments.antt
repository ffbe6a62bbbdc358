-- ===== src/Mkfs/Arguments.antt =====
-- parseint and the argument handling of mkfs-hw3.c.
use file_system_implementati.Base.{
  ℕ, ◌+◌, ◌*◌, ◌^◌, Option, none, some, List, [], ◌∷◌, leb, ltb, ◌==◌, ◌&&◌, list_eq, if◌then◌else◌,
}
use file_system_implementati.Outcome.{Outcome, ok, exit, fault, ◌>>=◌}
use file_system_implementati.Layout.{Bytes}
use file_system_implementati.Mkfs.{mkfs}

-- The C library and the file system of the host. Numbers are not negative.
pub record Host : Type 0 where
  -- strtol(s, &s, 0) as an `int`, and what stands behind the number
  pub strtol : Bytes → ℕ × Bytes
  -- open with O_CREAT, and st_size of the file; `none` when it cannot be opened
  pub open_size : Bytes → Option ℕ

abbrev pub tolower : ℕ → ℕ
tolower c = if leb b'A' c && leb c b'Z' then c + 32 else c

-- A signed product that overflows is undefined behaviour.
abbrev pub int : ℕ → Outcome ℕ
int n = if ltb n (2 ^ 31) then ok n else fault

-- The first character of a string, which is NUL at its end.
abbrev pub first : Bytes → ℕ
first [] = 0
first (c ∷ cs) = c

abbrev size_option : Bytes
size_option = b'-' ∷ b's' ∷ b'i' ∷ b'z' ∷ b'e' ∷ []

module _ (host : Host) where
  unfoldable pub parseint : Bytes → Outcome ℕ
  parseint s =
      let (n, rest) = host.strtol s in
      if tolower (first rest) == b'k'
      then int (n * 1024)
      else if tolower (first rest) == b'm'
      then (int (n * 1024) >>= λ k. int (k * 1024))
      else ok n

  -- The size of an open file, where none was given. An `int` does not hold 2^31.
  abbrev pub size_or : ℕ → ℕ → Outcome ℕ
  size_or size st_size = if size == 0 then int st_size else ok size

  -- `if (argc == 2) {…} if (fd < 0) {…}`, on what is behind argv[0]: the file and the size.
  abbrev pub open_arg : ℕ → List Bytes → Outcome (Bytes × ℕ)
  open_arg size (file ∷ []) = elim (host.open_size file) [
    | none ↦ exit
    | some st_size ↦ size_or size st_size >>= λ n. ok (file, n)
  ]
  open_arg size _ = exit

  -- strcmp reads argv[1] before argc is tested.
  unfoldable pub arguments : List Bytes → Outcome (Bytes × ℕ)
  arguments [] = fault
  arguments (option ∷ []) = open_arg 0 (option ∷ [])
  arguments (option ∷ arg ∷ args) =
      if list_eq option size_option
      then (parseint arg >>= λ size. open_arg size args)
      else open_arg 0 (option ∷ arg ∷ args)

  -- main at time `t`: the name of the file and the image.
  unfoldable pub mkfs_main : ℕ → List Bytes → Outcome (Bytes × Bytes)
  mkfs_main t args = arguments args >>= λ p. mkfs t p.1 >>= λ image. ok (p.0, image)
