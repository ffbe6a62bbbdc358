-- ===== src/Examples/Naming.antt =====
-- Names made, removed and changed in the root directory of the small disk.
use file_system_implementati.Base.{
  ◌≡◌, refl, true, false, List, [], ◌∷◌, ◌++◌, replicate, arith, take,
}
use file_system_implementati.Outcome.{ok, err, enoent}
use file_system_implementati.Layout.{Bytes, Dirent, encode_dir, decode_dir}
use file_system_implementati.Memory.{memory, memory_read}
use file_system_implementati.Memory.Laws.{memory-IsDevice}
use file_system_implementati.Bitmap.{bit_test, first_clear}
use file_system_implementati.FilePath.{split_path, parse}
use file_system_implementati.Fs.{Fs, inode_at, read_dir, get_next_inode, get_next_block}
use file_system_implementati.Lookup.{translate, walk, skip_dot, lookup, find_entry, matches}
use file_system_implementati.Create.{create, free_entry, must_not_exist}
use file_system_implementati.Directory.Entries.{IsName}
use file_system_implementati.Directory.State.{InDir}
use file_system_implementati.Directory.Create.{Created, create_makes}
use file_system_implementati.Examples.{
  zeros, inode_map, blocks, root, small, small-IsWf, env, a_name, f_name, no_entry,
}

small-InDir : InDir 1 4 (decode_dir zeros) small
unfolding inode_at read_dir memory_read
small-InDir = record {
  wf = small-IsWf;
  dir = root;
  inode = refl;
  is_dir = refl;
  block = refl;
  past = omega arith;
  inside = omega arith;
  reads = refl;
}

a_name-IsName : IsName a_name
a_name-IsName = record { chars = (((omega arith), omega arith), tt); fits = omega arith }

-- The paths "/", "/a" and "/f.c".
abbrev slash : Bytes
slash = b'/' ∷ []

abbrev a_path : Bytes
a_path = b'/' ∷ a_name

abbrev f_path : Bytes
f_path = b'/' ∷ f_name

a_split : split_path a_path ≡ ok (slash, a_name)
unfolding split_path
a_split = refl

root_found : translate small slash ≡ ok 1
unfolding translate walk skip_dot parse
root_found = refl

a_free : must_not_exist (translate small a_path) ≡ ok tt
unfolding translate walk skip_dot parse lookup inode_at read_dir memory_read find_entry decode_dir
    matches must_not_exist
a_free = refl

a_none : lookup small 1 a_name ≡ err enoent
unfolding lookup inode_at read_dir memory_read find_entry decode_dir matches
a_none = refl

first_free : free_entry (decode_dir zeros) 0 ≡ ok 0
unfolding free_entry decode_dir
first_free = refl

next_inode : get_next_inode small ≡ ok 2
unfolding get_next_inode first_clear
next_inode = refl

next_block : get_next_block small ≡ ok 5
unfolding get_next_block first_clear
next_block = refl

root_used : bit_test inode_map 1 ≡ ok true
unfolding bit_test
root_used = refl

create_makes_example :
    (fs' : Fs memory) × (create env.user a_path 0o100644 false small ≡ (ok tt, fs'))
    × Created env.user 0o100644 false 1 4 a_name 2 5 small fs'
create_makes_example =
    create_makes memory-IsDevice small env.user a_path 0o100644 false small-InDir root_used a_split
      a_name-IsName (omega arith) root_found a_free a_none first_free next_inode next_block

-- The disk with a file "a", inode 2, in the root directory.
abbrev a_entry : Dirent
a_entry = record { valid = true; is_dir = false; inode = 2; name = a_name ++ replicate 27 0 }

abbrev listed : List Dirent
listed = a_entry ∷ replicate 31 no_entry

abbrev with_a : Fs memory
with_a = record small { disk = take 4 blocks ++ (encode_dir listed ∷ zeros ∷ []) }
