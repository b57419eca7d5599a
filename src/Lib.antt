-- ===== src/Lib.antt =====
-- a1fs: a file system of extents on a disk image, mounted with FUSE.
--
-- An image is an array of 4096-byte blocks: the superblock, the inode bitmap, the block bitmap, the
-- inode table, and the data region, which holds the blocks of files and the entries of directories.
-- a1b/mkfs.c formats an image. a1b/a1fs.c mounts one and answers the callbacks of FUSE, with the
-- helpers of a1b/a1fs_helper.c for paths, directory entries and block allocation, which in turn use
-- the bitmap functions of a1b/util.h. All of them work in place on the image that fs_ctx points to.
--
-- Which file models what. A function of the model has the name of the C function.
-- - Base, Base/*: names from the library, Boolean tests, and the integers over the native naturals.
-- - Types: superblock, extent, inode and fs_ctx (a1b/a1fs.h, a1b/fs_ctx.h). Code that changes them
--   is a `Cmd`: from an fs_ctx to a result and the next fs_ctx, to a fault, or out of fuel.
-- - Bitmap, Bitmap/*: check_bit_usage, get_available_bit, set_bits (a1b/util.h).
-- - Image, Image/*: the bytes of a directory entry (a1fs_dentry of a1b/a1fs.h).
-- - Dir, Dir/*: the loops over the entries of a directory, inode_lookup and get_inode_num
--   (a1b/a1fs_helper.c).
-- - Alloc, Alloc/*: attachable, set_db_extent, set_dirb_extent, allocate_data_blks,
--   make_dentry_block, make_data_blocks (a1b/a1fs_helper.c), create_inode (a1b/util.h).
-- - Entry, Entry/*: add_dentry (a1b/a1fs_helper.c), and the emptying of an entry that a1fs_rmdir and
--   a1fs_unlink share (a1b/a1fs.c).
-- - Ops, Ops/*: the callbacks a1fs_mkdir, a1fs_create, a1fs_rmdir, a1fs_unlink, a1fs_utimens,
--   a1fs_statfs, a1fs_getattr, a1fs_readdir (a1b/a1fs.c).
-- - Contents: truncate_helper, zero_out_blocks and find_offset_extent (a1b/a1fs_helper.c).
--   Contents/Search: what the last one finds.
-- - Io, Io/*: the callbacks a1fs_truncate, a1fs_read and a1fs_write (a1b/a1fs.c).
-- - Mkfs, Mkfs/*: mkfs and main of a1b/mkfs.c, fs_ctx_init of a1b/fs_ctx.c.
-- - Catalog, Catalog/*: a directory as a finite map from names to inode numbers: which entries stand
--   for which names, and scripts of add_dentry and of the emptying of an entry against the map.
-- - Tree, Tree/*: the file system as a tree of such maps and of files, each with the bytes of its
--   block (Tree), the states that stand for a tree (Tree/Shape), and what mkfs and the callbacks
--   make of it. A directory is given its first block when it gets its first entry. A file in the
--   tree has at most one block and fewer than 4096 bytes: of a whole block, zero_out_blocks records
--   a size below 0.
-- - Session, Session/*: the table of callbacks a1fs_ops (a1b/a1fs.c) as one function from requests
--   to answers, and what sequences of requests leave alone, whether the image stands for a tree or not:
--   Frame has the rules, Reads the code that only reads, Layout the allocation, Nodes, Contents
--   and Files the callbacks.
-- - Start: is_powerof2, is_aligned and align_up (a1b/util.h), map_file (a1b/map.c), parse_args and
--   main of a1b/mkfs.c. Start/Mount: a1b/options.c, a1fs_init and main of a1b/a1fs.c. Start/Align,
--   Start/Mapped and Start/Tool are about Start.
-- - Samples, Examples, Examples/*: small images, tests on them, and the theorems at concrete inputs.
--
-- How the state is modelled. The superblock, the two bitmaps and the inode table are objects of
-- their own, the data region is a map from offsets in the image to bytes. In C they are parts of
-- one image, at the block numbers that the superblock names, so the model stands for the program
-- where these regions do not overlap (HasRegions of Session/Layout). That is how mkfs lays them out
-- while the numbers fit their 8 bits; they wrap around beyond, and the regions can overlap then. An
-- index beyond the inode table, beyond the 12 extents of an inode, or an entry that reaches past
-- the end of the image is a fault, as is a failed assert. The bitmaps have no end: an index beyond
-- a bitmap is not a fault, and the model stands for the program as long as the extents of inodes
-- name blocks of the image. Counters and block counts that are an `int` in C are integers without
-- bound, block numbers and the offsets of blocks in the image natural numbers without bound: in C
-- the product of a block number and the block size overflows an `int` from block 2^19 on; the
-- unsigned fields that the code increments or assigns keep their wrap-around (`% 2 ^ w`). A string
-- is the list of its bytes without the final NUL. The readings of the clock and the value of errno
-- are part of the state. The callbacks' diagnostic prints are left out.
--
-- Fuel. The loops over bitmaps, entries and extents are structural recursion on the rounds that
-- are left. The loop of mkfs that sizes the block bitmap runs on `remaining + 1` rounds, since it
-- stops at the latest when the bitmap takes all blocks that are left. The recursion of
-- make_data_blocks runs on fuel, which is explicit in its theorems, since the C code need not end;
-- a1fs_truncate and a1fs_write pass it on. The loops over the extents of a file end with the array
-- of 12 extents, since an access beyond it is a fault.
--
-- Not modelled: get_fs and a1fs_destroy of a1b/a1fs.c, which hand pointers to libfuse and munmap;
-- print_help of a1b/mkfs.c and all other output; the prototypes of a1b/a1fs_helper.h and the
-- scratch program a1b/testing.c. The functions of libfuse, getopt, strtoul and the system calls are
-- arguments.
pub mod Base
pub mod Session
pub mod Start
pub mod Tree
pub mod Types
pub mod Bitmap
pub mod Catalog
pub mod Image
pub mod Dir
pub mod Alloc
pub mod Entry
pub mod Ops
pub mod Contents
pub mod Io
pub mod Mkfs
pub mod Samples
pub mod Examples
