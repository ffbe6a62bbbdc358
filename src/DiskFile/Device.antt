-- ===== src/DiskFile/Device.antt =====
-- block_read and block_write of misc.c on a file as POSIX describes it are the device that homework.c
-- relies on.
use file_system_implementati.Base.{
  ℕ, ◌+◌, ◌*◌, ◌/◌, ◌<◌, ◌≤◌, ◌≡◌, refl, sym, ap, ◌∙◌, inl, inr, true, Option, none, some, take,
  drop, length, min, arith, length-take, length-drop, Bool-cases, ◌==◌, if◌then◌else◌,
}
use file_system_implementati.Base.Int.{ℤ, pos, negsuc}
use file_system_implementati.Layout.{Bytes, fs_block_size}
use file_system_implementati.Device.{BlockDevice, IsDevice, AreBytes, max_blocks}
use file_system_implementati.DiskFile.{
  Posix, bytes_of, end_of, size_of, all_read, file_read, file_write,
}
use file_system_implementati.DiskFile.Laws.{
  IsPosix, put, cut, length-put, length-put_behind, take-drop-put_self, slice-put, length-cut,
  cut_self,
}

bytes_of-small : (k : ℕ) → k ≤ max_blocks → bytes_of k ≡ pos (k * fs_block_size)
bytes_of-small k h = ground arith

end_of-small :
    (lba n : ℕ)
    → lba + n ≤ max_blocks
    → end_of lba n ≡ pos (lba * fs_block_size + n * fs_block_size)
end_of-small lba n h = ground arith

all_read-some : (r : Option Bytes) (z : ℤ) {b : Bytes} → all_read r z ≡ some b → r ≡ some b
all_read-some none z h = h
all_read-some (some c) (pos n) h = ground arith
all_read-some (some c) (negsuc n) h = absurd (ground arith)

all_read-length :
    (r : Option Bytes) (n : ℕ) {b : Bytes} → all_read r (pos n) ≡ some b → length b ≡ n
all_read-length none n h = absurd (ground arith)
all_read-length (some c) n h = ground arith

module _ (os : Posix) (p : IsPosix os) where
  -- The image in blocks, as far as they can be addressed.
  abbrev pub file_blocks : os.File → ℕ
  file_blocks f = min (length (p.content f) / fs_block_size) max_blocks

  abbrev pub file_device : BlockDevice
  file_device = record {
    Disk = os.File;
    blocks = file_blocks;
    block_read = λ f lba n. (file_read os f lba n).0;
    block_write = file_write os;
  }

  abbrev stored : os.File → ℕ → ℕ → Bytes
  stored f lba n = take (n * fs_block_size) (drop (lba * fs_block_size) (p.content f))

  file_read-at :
      (f : os.File) (lba n : ℕ)
      → lba + n ≤ max_blocks
      → (file_read os f lba n).0
        ≡ (if length (stored f lba n) == n * fs_block_size then some (stored f lba n) else none)
  unfolding file_read
  file_read-at f lba n h =
      let e = bytes_of-small lba (omega arith) in
      let e' = bytes_of-small n (omega arith) in
      let f' = (os.lseek f (pos (lba * fs_block_size))).1 in
      let (sought, at) = p.lseek-pos f (lba * fs_block_size) (omega arith) in
      let same = p.lseek-content f (pos (lba * fs_block_size)) in
      let got = p.read-all f' (n * fs_block_size) (omega arith) in
      rw (e, e', sought, got, at, same) refl

  file_read-bytes :
      (f : os.File) (lba n : ℕ) {b : Bytes} → (file_read os f lba n).0 ≡ some b → AreBytes b
  unfolding file_read
  file_read-bytes f lba n h =
      let (sought, f') = os.lseek f (bytes_of lba) in
      elim (Bool-cases sought) [
        | inl yes' ↦
            let got =
              all_read-some (os.read f' (size_of (bytes_of n))).0 (bytes_of n)
                (ground (arith, yes', h)) in
            p.read-bytes f' (size_of (bytes_of n)) got
        | inr no' ↦ absurd (ground (arith, no', h))
      ]

  file_read-length :
      (f : os.File) (lba n : ℕ) {b : Bytes}
      → n ≤ max_blocks
      → (file_read os f lba n).0 ≡ some b
      → length b ≡ n * fs_block_size
  unfolding file_read
  file_read-length f lba n small h =
      let (sought, f') = os.lseek f (bytes_of lba) in
      let e = bytes_of-small n small in
      elim (Bool-cases sought) [
        | inl found ↦
            all_read-length (os.read f' (size_of (bytes_of n))).0 (n * fs_block_size) (
              ap (all_read (os.read f' (size_of (bytes_of n))).0) (sym e)
              ∙ ground (arith, found, h))
        | inr lost ↦ absurd (ground (arith, lost, h))
      ]

  file_write-at :
      (f : os.File) (b : Bytes) (lba n : ℕ)
      → lba + n ≤ max_blocks
      → length b ≡ n * fs_block_size
      → ((file_write os f b lba n).0 ≡ true)
        × (p.content (file_write os f b lba n).1 ≡ put (lba * fs_block_size) (cut b) (p.content f))
  unfolding file_write
  file_write-at f b lba n h e =
      let z = pos (lba * fs_block_size + n * fs_block_size) in
      let f' = (os.lseek f z).1 in
      let f'' = (os.lseek f' (pos (lba * fs_block_size))).1 in
      let (fits, _) = p.lseek-pos f (lba * fs_block_size + n * fs_block_size) (omega arith) in
      let (sought, at) = p.lseek-pos f' (lba * fs_block_size) (omega arith) in
      let same = p.lseek-content f' (pos (lba * fs_block_size)) ∙ p.lseek-content f z in
      let (count, wrote) = p.write-all f'' b (n * fs_block_size) (omega arith) e in
      rw
        (
          end_of-small lba n h,
          bytes_of-small lba (omega arith),
          bytes_of-small n (omega arith),
          fits,
          sought,
          count,
        )
        (
          ground arith,
          wrote
              ∙ ap (λ k. put k (cut b) (p.content f'')) at
              ∙ ap (put (lba * fs_block_size) (cut b)) same,
        )

  file_write-grows :
      (f : os.File) (b : Bytes) (lba n : ℕ)
      → length (p.content f) ≤ length (p.content (file_write os f b lba n).1)
  unfolding file_write
  file_write-grows f b lba n =
      let (fits, f') = os.lseek f (end_of lba n) in
      let (sought, f'') = os.lseek f' (bytes_of lba) in
      let same = p.lseek-content f (end_of lba n) in
      let same' = p.lseek-content f' (bytes_of lba) in
      let more = p.write-grows f'' b (size_of (bytes_of n)) in
      elim (Bool-cases fits) [
        | inl fit ↦ elim (Bool-cases sought) [
          | inl found ↦ rw (fit, found) (omega (arith, ap length same, ap length same', more))
          | inr lost ↦ rw (fit, lost) (omega (arith, ap length same, ap length same'))
        ]
        | inr unfit ↦ rw unfit (omega (arith, ap length same))
      ]

  length-stored :
      (f : os.File) (lba n : ℕ)
      → lba + n ≤ file_blocks f
      → length (stored f lba n) ≡ n * fs_block_size
  length-stored f lba n h = omega (
    arith,
    length-take (n * fs_block_size) (drop (lba * fs_block_size) (p.content f)),
    length-drop (lba * fs_block_size) (p.content f),
  )

  -- A read inside the image returns what is stored there.
  file_read-inside :
      (f : os.File) (lba n : ℕ)
      → lba + n ≤ file_blocks f
      → (file_read os f lba n).0 ≡ some (stored f lba n)
  file_read-inside f lba n h =
      file_read-at f lba n (omega arith) ∙ ground (arith, length-stored f lba n h)

  file_read-eq-some :
      (f : os.File) (lba n : ℕ) {b : Bytes}
      → lba + n ≤ max_blocks
      → (file_read os f lba n).0 ≡ some b
      → (b ≡ stored f lba n) × (length b ≡ n * fs_block_size)
  file_read-eq-some f lba n h e =
      let at = file_read-at f lba n h in (ground (arith, at, e), ground (arith, at, e))

  file_write-inside :
      (f : os.File) (b : Bytes) (lba n : ℕ)
      → lba + n ≤ file_blocks f
      → length b ≡ n * fs_block_size
      → file_blocks (file_write os f b lba n).1 ≡ file_blocks f
  file_write-inside f b lba n h e =
      let (_, wrote) = file_write-at f b lba n (omega arith) e in
      omega (
        arith,
        ap length wrote,
        length-put (lba * fs_block_size) (cut b) (p.content f) (omega (arith, length-cut b)),
      )

  stored_again :
      (c : Bytes) (f : os.File) (b : Bytes) (lba n : ℕ)
      → p.content f ≡ put (lba * fs_block_size) (cut b) c
      → length b ≡ n * fs_block_size
      → lba * fs_block_size + n * fs_block_size ≤ length c
      → AreBytes b
      → stored f lba n ≡ b
  stored_again c f b lba n wrote e h k =
      let m : length (cut b) ≡ n * fs_block_size = length-cut b ∙ e in
      ap (λ x. take (n * fs_block_size) (drop (lba * fs_block_size) x)) wrote
      ∙ ap (λ x. take x (drop (lba * fs_block_size) (put (lba * fs_block_size) (cut b) c))) (sym m)
      ∙ take-drop-put_self (lba * fs_block_size) (cut b) c (omega (arith, m))
      ∙ cut_self b k

  -- block_read and block_write of misc.c keep what homework.c relies on, for the blocks of the image
  -- that an `int` byte offset reaches.
  pub file_device-IsDevice : IsDevice file_device
  file_device-IsDevice = record {
    reads = λ f lba n h. (stored f lba n, file_read-inside f lba n h);
    read-inside = λ f lba n some_n small e.
        let (same, long) = file_read-eq-some f lba n small e in
        omega (
          arith,
          long,
          ap length same,
          length-take (n * fs_block_size) (drop (lba * fs_block_size) (p.content f)),
          length-drop (lba * fs_block_size) (p.content f),
        );
    length-read = λ f lba n small e. file_read-length f lba n small e;
    bytes-read = λ f lba n e. file_read-bytes f lba n e;
    writes = λ f b lba n h e. (file_write-at f b lba n (omega arith) e).0;
    blocks-write_any = λ f b lba n. omega (arith, file_write-grows f b lba n);
    blocks-write = λ f b lba n h e. file_write-inside f b lba n h e;
    read-write_self = λ f b lba n h e k.
        let f' = (file_write os f b lba n).1 in
        let (_, wrote) = file_write-at f b lba n (omega arith) e in
        file_read-inside f' lba n (omega (arith, file_write-inside f b lba n h e))
        ∙ ap some (stored_again (p.content f) f' b lba n wrote (omega (arith, e)) (omega arith) k);
    read-write_apart = λ f b lba n i k h e within a.
        let f' = (file_write os f b lba n).1 in
        let (_, wrote) = file_write-at f b lba n (omega arith) e in
        file_read-inside f' i k (omega (arith, file_write-inside f b lba n h e))
        ∙ ap some (
            ap (λ c. take (k * fs_block_size) (drop (i * fs_block_size) c)) wrote
            ∙ slice-put (i * fs_block_size) (k * fs_block_size) (lba * fs_block_size) (cut b)
                (p.content f) (omega (arith, length-cut b)) (ground (arith, length-cut b)))
        ∙ sym (file_read-inside f i k within);
  }

  -- block_write of at least one block, all of them among those that an `int` byte offset reaches, that
  -- end behind the image, which the first lseek is there to refuse, succeeds and makes the image
  -- longer: it ends with the blocks written.
  pub file_write_extends :
      (f : os.File) (b : Bytes) (lba n : ℕ)
      → 0 < n
      → lba + n ≤ max_blocks
      → length b ≡ n * fs_block_size
      → length (p.content f) < (lba + n) * fs_block_size
      → ((file_write os f b lba n).0 ≡ true)
        × (length (p.content (file_write os f b lba n).1) ≡ (lba + n) * fs_block_size)
  file_write_extends f b lba n some_n h e behind =
      let (done, wrote) = file_write-at f b lba n h e in
      (
        done,
        omega (
          arith,
          ap length wrote,
          length-cut b,
          e,
          length-put_behind (lba * fs_block_size) (cut b) (p.content f)
              (omega (arith, length-cut b)),
        ),
      )
