-- ===== src/Examples/Formats.antt =====
-- Formatting a blank image of 16 blocks, and a session on it.
use extent_based_fs.Base.{ℕ, ◌+◌, ◌-◌, ◌*◌, ◌/◌, ◌≤◌, ◌<◌, ◌≡◌, refl, ◌↔◌, true, false, some, arith}
use extent_based_fs.Base.Int.{pos, ◌-ℤ◌}
use extent_based_fs.Types.{FsCtx, Timespec, ok, inode_capacity, a1fs_block_size, sizeof_inode}
use extent_based_fs.Samples.{sample, second}
use extent_based_fs.Bitmap.{test_bit, check_bit_usage}
use extent_based_fs.Bitmap.Toggle.{IsBytes}
use extent_based_fs.Mkfs.{
  mkfs, mkfs_main, MkfsOpts, fs_ctx_init, dbm_loop, ceil_div, bits_per_block, zero_superblock,
  zero_inode,
}
use extent_based_fs.Mkfs.Sizes.{IsLeastFit, dbm_loop-covers}
use extent_based_fs.Mkfs.Format.{
  CanFormat, root_inode, after_table, mkfs_formats, mkfs_table_short, mkfs_main_present,
}

abbrev blank : FsCtx
blank = record {
  image = λ a. 0;
  size = 65536;
  sb = zero_superblock;
  inode_bits = λ i. 0;
  block_bits = λ i. 0;
  itable = λ i. zero_inode;
  clock = second;
  ticks = 0;
  errno = 0;
}

clear_bit : check_bit_usage blank.inode_bits 0 ≡ false
unfolding check_bit_usage test_bit
clear_bit = refl

one_block : dbm_loop (after_table 65536 32 + 1) (after_table 65536 32) 1 ≡ some 1
unfolding dbm_loop
one_block = refl

can_format : CanFormat blank 65536 32 1
can_format = record {
  absent = omega arith;
  free_blocks = refl;
  first_clear = clear_bit;
  some_inode = omega arith;
  bitmap = one_block;
  some_data = omega arith;
  fits_u8 = omega arith;
}

zeros : IsBytes blank.inode_bits
zeros i = omega arith

mkfs_formats_example :
    (t : FsCtx) × (mkfs 65536 32 blank ≡ ok true t)
    × (fs_ctx_init t ≡ true)
    × (t.sb.sb_inode_bitmap ≡ 1)
    × (t.sb.sb_block_bitmap ≡ t.sb.sb_inode_bitmap + ceil_div 32 bits_per_block)
    × (t.sb.sb_inode_table ≡ t.sb.sb_block_bitmap + 1)
    × (t.sb.sb_first_data_block ≡ t.sb.sb_inode_table + ceil_div 32 sizeof_inode)
    × ((free : ℕ) × (t.sb.sb_free_blocks_count ≡ pos free)
        × (t.sb.sb_first_data_block + free ≡ 65536 / a1fs_block_size))
    × ((now : Timespec) × (t.itable 0 ≡ root_inode (blank.itable 0) now))
    × (check_bit_usage t.inode_bits 0 ≡ true)
    × (t.sb.sb_free_inodes_count ≡ pos 32 -ℤ pos 1)
mkfs_formats_example = mkfs_formats can_format zeros

mkfs_table_short_example :
    (t : FsCtx) × (mkfs 65536 32 blank ≡ ok true t)
    × (t.sb.sb_inodes_count ≡ pos 32)
    × ((inode_capacity t.sb < 32) ↔ (16 < 32))
mkfs_table_short_example = mkfs_table_short can_format

abbrev forced : MkfsOpts
forced = record { n_inodes = 32; force = true; zero = false }

mkfs_main_present_example : mkfs_main 65536 forced sample ≡ ok 1 sample
mkfs_main_present_example = mkfs_main_present sample 65536 forced refl refl

dbm_loop-covers_example :
    (n : ℕ) × (dbm_loop (40000 + 1) 40000 1 ≡ some n)
    × IsLeastFit 40000 1 n
    × (40000 - n ≤ n * bits_per_block)
dbm_loop-covers_example = dbm_loop-covers 40000
