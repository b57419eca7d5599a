-- ===== src/Samples.antt =====
-- A small image: inode 0 is the root directory, with one block of unused entries, and inode 1 a
-- file with one extent of two blocks.
use extent_based_fs.Base.{ℕ, ltb, ◌==◌, ◌%◌, if◌then◌else◌, List, [], ◌∷◌}
use extent_based_fs.Base.Int.{pos, minus_one}
use extent_based_fs.Image.{set_dentry_ino, store_str}
use extent_based_fs.Types.{FsCtx, Superblock, Inode, Extent, Bitmap, Timespec}

abbrev pub second : ℕ → Timespec
second n = record { tv_sec = n; tv_nsec = 0 }

abbrev pub no_extent : ℕ → Extent
no_extent i = record { start = 0; count = pos 0; size = pos 0 }

abbrev pub root : Inode
root = record {
  mode = 0x41FF;
  links = 2;
  size = 256;
  i_mtime = second 0;
  i_extent = λ i. if i == 0 then record { start = 0; count = pos 1; size = pos 0 } else no_extent i;
  last_used_extent = pos 0;
  last_used_indirect = minus_one;
  num_entries = 0;
}

abbrev pub file : Inode
file = record {
  mode = 0x81FF;
  links = 0;
  size = 8192;
  i_mtime = second 0;
  i_extent = λ i. if i == 0 then record { start = 1; count = pos 2; size = pos 0 } else no_extent i;
  last_used_extent = pos 0;
  last_used_indirect = minus_one;
  num_entries = 0;
}

abbrev pub superblock : Superblock
superblock = record {
  magic = 0xC5C369A1C5C369A1;
  size = 65536;
  sb_first_data_block = 4;
  sb_first_empty_db = 0;
  sb_total_data_blocks = 12;
  sb_block_bitmap = 2;
  sb_inode_bitmap = 1;
  sb_inode_table = 3;
  sb_free_blocks_count = pos 9;
  sb_free_inodes_count = pos 14;
  sb_inodes_count = pos 16;
  sb_used_dirs_count = pos 1;
}

-- Bits `0` to `k - 1` of the first byte, as the number `b`.
abbrev pub first_byte : ℕ → Bitmap
first_byte b i = if i == 0 then b else 0

-- Every entry has inode number -1 and an empty name.
abbrev pub unused_entries : ℕ → ℕ
unused_entries x = if ltb (x % 256) 4 then 255 else 0

abbrev pub sample : FsCtx
sample = record {
  image = unused_entries;
  size = 65536;
  sb = superblock;
  inode_bits = first_byte 3;
  block_bits = first_byte 7;
  itable = λ i. if i == 0 then root else file;
  clock = second;
  ticks = 1;
  errno = 0;
}

-- The same, with the block behind the file's extent in use.
abbrev pub crowded : FsCtx
crowded = record sample { block_bits = first_byte 15 }

abbrev pub root_entries : List ℕ
root_entries =
    16384 ∷ 16640 ∷ 16896 ∷ 17152 ∷ 17408 ∷ 17664 ∷ 17920 ∷ 18176 ∷ 18432 ∷ 18688 ∷ 18944 ∷ 19200
    ∷ 19456 ∷ 19712 ∷ 19968 ∷ 20224 ∷ []

abbrev pub name_d : List ℕ
name_d = b'd' ∷ []

abbrev pub name_e : List ℕ
name_e = b'e' ∷ []

abbrev pub path_d : List ℕ
path_d = b'/' ∷ b'd' ∷ []

abbrev pub path_de : List ℕ
path_de = b'/' ∷ b'd' ∷ b'/' ∷ b'e' ∷ []

-- The sample with an entry `d`, for inode 1, in the root directory.
abbrev pub with_d : FsCtx
with_d = record sample {
  image = set_dentry_ino (store_str unused_entries 16388 name_d) 16384 (pos 1);
}
