-- ===== src/Examples/Blocks.antt =====
-- Allocation on the sample image, whose inode 1 has the blocks 1 and 2.
use extent_based_fs.Base.{ℕ, ◌+◌, ◌<◌, ◌≡◌, ◌≢◌, refl, ◌↔◌, true, false, not, arith, if◌then◌else◌}
use extent_based_fs.Base.Int.{pos, minus_one, is_neg, ◌-ℤ◌}
use extent_based_fs.Types.{FsCtx, ok, fault, inode_extents}
use extent_based_fs.Samples.{sample, crowded, with_d, name_d}
use extent_based_fs.Dir.{inode_lookup}
use extent_based_fs.Examples.Dirs.{d_there}
use extent_based_fs.Bitmap.{
  test_bit, check_bit_usage, get_available_bit, get_available_block, block_scan,
}
use extent_based_fs.Bitmap.Toggle.{IsBytes}
use extent_based_fs.Bitmap.Range.{in_range}
use extent_based_fs.Alloc.{
  Attach, attachable, allocate_data_blks, make_data_blocks, make_dentry_block,
}
use extent_based_fs.Alloc.Emptied.{make_dentry_block-empties}
use extent_based_fs.Alloc.Neighbours.{HasExtents, UsedIn, block_after, attachable-UsedIn}
use extent_based_fs.Alloc.Extents.{extended, widened, with_inode, allocate_data_blks-data}
use extent_based_fs.Alloc.Rounds.{placed, make_data_blocks-placed, make_data_blocks-Fails, Fails}

one_extent : HasExtents sample 1 0
one_extent = record { in_table = omega arith; last = refl; in_array = omega arith; direct = refl }

crowded_extent : HasExtents crowded 1 0
crowded_extent = record {
  in_table = omega arith;
  last = refl;
  in_array = omega arith;
  direct = refl;
}

attachable-UsedIn_example :
    (at : Attach) × (attachable 1 (pos 2) sample ≡ ok at sample)
    × (at.index_of_last_used_extent ≡ pos 0)
    × (at.index_db_after_last_used_extent ≡ 3)
    × ((at.large_enough ≢ 0) ↔ UsedIn sample.block_bits 3 2)
attachable-UsedIn_example = attachable-UsedIn 2 one_extent

allocate_data_blks-data_example :
    ((sample.itable 1).last_used_extent ≡ minus_one
      → allocate_data_blks 1 5 (pos 2) 0 sample
        ≡ ok (pos 5) (with_inode sample 1 (extended sample 1 0 5 2)))
    × ((k : ℕ)
        → HasExtents sample 1 k
        → (UsedIn sample.block_bits (block_after sample 1 k) 2
            → allocate_data_blks 1 5 (pos 2) 0 sample
              ≡ ok (pos (block_after sample 1 k)) (with_inode sample 1 (widened sample 1 k 2)))
          × ((¬ UsedIn sample.block_bits (block_after sample 1 k) 2)
              → k + 1 < inode_extents
              → allocate_data_blks 1 5 (pos 2) 0 sample
                ≡ ok (pos 5) (with_inode sample 1 (extended sample 1 (k + 1) 5 2)))
          × ((¬ UsedIn sample.block_bits (block_after sample 1 k) 2)
              → k + 1 ≡ inode_extents
              → allocate_data_blks 1 5 (pos 2) 0 sample ≡ fault))
allocate_data_blks-data_example = allocate_data_blks-data {s = sample} 1 5 2 (omega arith)

IsBytes-7 : IsBytes sample.block_bits
IsBytes-7 i = ground arith

IsBytes-15 : IsBytes crowded.block_bits
IsBytes-15 i = ground arith

found_3 : get_available_bit sample.sb sample.block_bits 1 (pos 2) ≡ pos 3
unfolding get_available_bit get_available_block block_scan check_bit_usage test_bit
found_3 = refl

make_data_blocks-placed_example :
    (u : FsCtx) × (make_data_blocks 1 1 (pos 2) sample ≡ ok (pos 2) u)
    × ((j : ℕ)
        → check_bit_usage u.block_bits j ≡ (
            if in_range (placed sample 1 0 3 2) 2 j
            then not (check_bit_usage sample.block_bits j)
            else check_bit_usage sample.block_bits j))
    × (u.sb ≡ record sample.sb { sb_free_blocks_count = sample.sb.sb_free_blocks_count -ℤ pos 2 })
make_data_blocks-placed_example =
    make_data_blocks-placed sample 0 1 2 IsBytes-7 0 3 found_3 one_extent (omega arith)

too_many : is_neg (get_available_bit sample.sb sample.block_bits 1 (pos 10)) ≡ true
unfolding get_available_bit
too_many = refl

make_data_blocks-Fails_example : Fails (make_data_blocks 20 1 (pos 10) sample)
make_data_blocks-Fails_example = make_data_blocks-Fails sample 20 1 9 too_many

root_extent : HasExtents with_d 0 0
root_extent = record { in_table = omega arith; last = refl; in_array = omega arith; direct = refl }

-- The root directory has block 0, and block 1 is the first of inode 1.
block_1_used : check_bit_usage with_d.block_bits 1 ≡ true
unfolding check_bit_usage test_bit
block_1_used = refl

found_3_single : get_available_bit with_d.sb with_d.block_bits 1 (pos 1) ≡ pos 3
unfolding get_available_bit get_available_block block_scan check_bit_usage test_bit
found_3_single = refl

make_dentry_block-empties_example :
    (u : FsCtx) × (make_dentry_block 0 with_d ≡ ok (pos 0) u)
    × (inode_lookup (pos 0) name_d u ≡ ok minus_one u)
    × (check_bit_usage u.block_bits 1 ≡ false)
    × (u.sb ≡ record with_d.sb { sb_free_blocks_count = with_d.sb.sb_free_blocks_count -ℤ pos 1 })
make_dentry_block-empties_example =
    make_dentry_block-empties with_d 0 root_extent refl 3 1 name_d IsBytes-7 (omega arith)
      found_3_single block_1_used (omega arith) d_there
