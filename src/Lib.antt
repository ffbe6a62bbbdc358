-- ===== src/Lib.antt =====
-- fsx600: the FUSE file system of homework.c on 1024-byte blocks, with its image format (fsx600.h),
-- the block device (misc.c), the programs that make an empty image (mkfs-hw3.c) and a test image
-- (mktest.c), the one that checks an image (read-img.c), and the library that exports the operations (libhw3.c).
--
-- The program. A disk image holds a superblock, a map of the inodes in use, a map of the blocks in
-- use, a region of inodes, and data blocks. fs_init reads the superblock, the maps and the inodes
-- into four globals; every operation of fs_ops works on those, reads and writes data blocks through
-- block_read and block_write, and writes the maps and the inodes back by update_disk.
--
-- Files.
--   Base (Tests, Lists, Bits, Int): Boolean tests, lists and integers over the native numbers.
--   Outcome, Exec: what a C function does (a result, a negated errno, exit(1), undefined behaviour, an
--     endless loop), and actions on a state, which comes back beside every outcome.
--     Exec/Bind, Ends: chains of actions, and what they return. Exec/Returns: which actions return no error, and which leave the state alone when they do.
--   Layout: the structures of fsx600.h as records, and the bytes that they are stored as, little-endian
--     (Layout/Words: numbers; Layout/Codec: entries, addresses and inodes; Layout/Bounds: what
--     is decoded).
--   Device: block_read and block_write, a parameter of everything above them, and the laws of a working
--     device. Memory: a device in memory; Memory/Laws: it has those laws; Memory/Slices: a disk
--     that holds an image.
--   DiskFile: block_read, block_write and block_init of misc.c over the system calls (DiskFile/Laws: what
--     POSIX says of those; DiskFile/Device: the image file is a working device; DiskFile/Main: main).
--   Mkfs: main of mkfs-hw3.c from the size on, as a function to the image (Mkfs/Stores: its
--     stores; Mkfs/Maps: the two bitmaps; Mkfs/Bytewise, Blocks, Mounts: what fs_init makes of the image;
--     Mkfs/Arguments: parseint and the arguments).
--   Mktest: the steps of mktest.c (Mktest/Files: its files, and main; Mktest/Steps, Writes, Fits, Maps:
--     they stay inside the disk, and the two bitmaps).
--   Hw3: the exports of libhw3.c (Hw3/Listing: hw3_readdir). ReadImg: main of read-img.c from the image
--     in memory on, with one constructor of Line for each printf (ReadImg/Ends, Queue, Walk: its loops
--     end; ReadImg/Tree: the directory tree as a relation; ReadImg/Adds, Round, Complete: the walk marks
--     that tree; ReadImg/Reported: what it says of a block; ReadImg/Lost, Blocks: what is printed
--     after it).
--   Bitmap: bit_set, bit_clear, bit_test, the searches of get_next_inode and get_next_block, and the
--     count of fs_statfs. Bitmap/Laws: single bits; Bitmap/Search: the loops.
--   FilePath: parse and split_path, with strtok, basename and dirname written out (FilePath/Laws).
--   Fs: the globals (record Fs), fs_init, update_disk and the accesses that are shared. Fs/Sync: the
--     tables in memory and on the disk.
--   Lookup: lookup and translate (Lookup/Tree: the tree as a relation; Lookup/Missing: its
--     errors). Attr: fs_getattr, fs_readdir,
--     fs_chmod, fs_utime, fs_statfs.
--   Create: create, fs_create, fs_mkdir. FileRead: read_helper, fs_read (FileRead/Loops: their loops as
--     one run over bytes; FileRead/Slice: fs_read). FileWrite: write_helper, fs_write
--     (FileWrite/Block: one block). Truncate: fs_truncate (Truncate/Leak: full indirect blocks).
--     Remove: fs_unlink, fs_rmdir. Rename: fs_rename.
--   Ops: fs_ops, as one function from a call to an action. Errors: the error paths of all of them.
--   Directory: a directory as the list of its entries (Directory/Entries: what is found in it, and that it
--     survives being stored; Directory/State: a directory in the state; Directory/Steps, Made, Kept: what
--     the accesses leave of it; Directory/Changed, Loop: all entries of a name changed), and what
--     Directory/Create, Remove, Rmdir and Rename do to it. Directory/Fresh puts mkfs, fs_init
--     and fs_create together.
--   Tables: every function keeps the tables well formed and leaves them saved, as Hoare triples
--     (Exec/Triple) by component. Sessions: sequences of calls from fs_init on.
--   Examples (Reading, Restart, Image, Listing, Walking, Making, Leaking, Naming): the theorems at concrete
--     inputs.
--
-- Correspondence. A function keeps its C name. An `int` that is an inode or block number when it is
-- not negative is an `Outcome ℕ`, with `err e` for `-e`. An array access out of bounds and a strcpy
-- that overflows are `fault`; exit(1) is `exit`. time(NULL) and fuse_get_context are arguments. The
-- lengths and offsets that FUSE passes are not negative. malloc does not fail, and memory that is not
-- freed is not modelled.
--
-- Fuel. The walk of read-img.c has one round more than there are inodes, which is enough. The loop of
-- fs_truncate over a double indirect block, whose counter the loop inside it resets, can run forever
-- on some images: it has 600 rounds, and the outcome `hang` behind them. The other loops are
-- structural.
--
-- Not modelled: the reading of the file and the text of the lines of read-img.c, the usage messages,
-- the inside of the FUSE library, and the tests. The image of read-img.c is shorter than 2^31 bytes,
-- and a structure that is not wholly inside it counts as undefined behaviour. So does a name without
-- an end in its array of 28 bytes where strncpy reads on behind it.
pub mod Base
pub mod Outcome
pub mod Exec
pub mod Layout
pub mod Device
pub mod Memory
pub mod Directory
pub mod DiskFile
pub mod Mkfs
pub mod Mktest
pub mod Hw3
pub mod ReadImg
pub mod Bitmap
pub mod FilePath
pub mod Fs
pub mod Lookup
pub mod Attr
pub mod Create
pub mod FileRead
pub mod FileWrite
pub mod Truncate
pub mod Remove
pub mod Rename
pub mod Ops
pub mod Errors
pub mod Tables
pub mod Sessions
pub mod Examples
