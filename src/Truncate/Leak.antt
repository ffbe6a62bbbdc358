-- ===== src/Truncate/Leak.antt =====
-- The loop of fs_truncate over a double indirect block, when its first indirect block is full.
use file_system_implementati.Base.{
  length-map, ℕ, zero, suc, ◌+◌, ◌≡◌, ◌≢◌, refl, ap, ◌∙◌, true, false, not, List, [], ◌∷◌, length,
  ltb, ◌==◌, All, arith,
}
use file_system_implementati.Outcome.{ok}
use file_system_implementati.Exec.{pure, ◌>>=◌}
use file_system_implementati.Layout.{Bytes, decode_addrs, chunks, le_value}
use file_system_implementati.Device.{BlockDevice}
use file_system_implementati.Fs.{Fs, read_block}
use file_system_implementati.Exec.Bind.{bind_same, bind-eq-ok, lift-bind, query-bind, bind-pure}
use file_system_implementati.ReadImg.Ends.{ok-injective}
use file_system_implementati.Truncate.{release, free_addrs, free_indir_2}

length-chunks : (n k : ℕ) (b : Bytes) → length (chunks n k b) ≡ n
unfolding chunks
length-chunks zero k b = refl
length-chunks (suc n) k b = ap suc (length-chunks n k _)

length-decode_addrs : (b : Bytes) → length (decode_addrs b) ≡ 256
unfolding decode_addrs
length-decode_addrs b = length-map le_value (chunks 256 4 b) ∙ length-chunks 256 4 b

module _ {dev : BlockDevice} where
  -- Over a full table the counter ends at the number of entries.
  free_addrs_count :
      (l : List ℕ) (i : ℕ) (s : Fs dev) {j : ℕ}
      → All (λ a. a ≢ 0) l
      → (free_addrs i l s).0 ≡ ok j
      → j ≡ i + length l
  unfolding free_addrs pure
  free_addrs_count [] i s full h = let e : i ≡ _ = ok-injective h in omega (arith, e)
  free_addrs_count (a ∷ l) i s (nz, full) h =
      let not_zero : (a == 0) ≡ false = ground arith in
      let (_, _, rest) = bind-eq-ok (release a) (λ _. free_addrs (i + 1) l) s (rw not_zero at h) in
      omega (arith, free_addrs_count l (i + 1) (release a s).1 full rest)

  -- When a double indirect block begins with the number of a block that can be read and that holds 256
  -- block numbers, none of them 0, then all that the loop of fs_truncate does with two rounds or more
  -- is to release those 256 blocks and then the block that lists them: it does nothing with the other
  -- entries of the double indirect block, whatever they are.
  pub free_indir_2_leaks :
      (fs : Fs dev) (n a : ℕ) (rest : List ℕ) (block : Bytes)
      → a ≢ 0
      → read_block fs a ≡ ok block
      → All (λ b. b ≢ 0) (decode_addrs block)
      → free_indir_2 (suc (suc n)) 0 (a ∷ rest) fs
        ≡ (free_addrs 0 (decode_addrs block) >>= λ _. release a) fs
  unfolding free_indir_2
  free_indir_2_leaks fs n a rest block nz read full =
      let not_zero : (a == 0) ≡ false = ground arith in
      let l = decode_addrs block in
      lift-bind a _ fs
      ∙ rw not_zero (
          query-bind (λ s. read_block s a) _ fs read
          ∙ bind_same (free_addrs 0 l) _ (λ _. release a) fs
              λ i e.
                let last : not (ltb (i + 1) 256) ≡ true =
                  ground (arith, free_addrs_count l 0 fs full e, length-decode_addrs block) in
                rw last (bind-pure (release a) (free_addrs 0 l fs).1))
