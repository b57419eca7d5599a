-- ===== src/Examples/Bits.antt =====
-- The bitmap functions of a1b/util.h on single bytes.
use extent_based_fs.Base.{ℕ, ◌≡◌, refl, not, arith, if◌then◌else◌}
use extent_based_fs.Base.Int.{pos, minus_one}
use extent_based_fs.Samples.{superblock, first_byte}
use extent_based_fs.Bitmap.{
  test_bit, check_bit_usage, get_available_bit, get_available_block, set_bits, block_scan,
}
use extent_based_fs.Bitmap.Toggle.{IsBytes}
use extent_based_fs.Bitmap.Range.{in_range, count_after, set_bits-range}
use extent_based_fs.Bitmap.FirstFit.{InodeChoice, get_available_bit-InodeChoice}
use extent_based_fs.Bitmap.Blocks.{SingleChoice, get_available_bit-SingleChoice}

IsBytes-7 : IsBytes (first_byte 7)
IsBytes-7 i = ground arith

third_inode : get_available_bit superblock (first_byte 3) 0 minus_one ≡ pos 2
unfolding get_available_bit
third_inode = refl

fourth_block : get_available_bit superblock (first_byte 7) 1 (pos 2) ≡ pos 3
unfolding get_available_bit
fourth_block = refl

gap_of_two : get_available_bit superblock (first_byte 0x4B) 1 (pos 2) ≡ pos 4
unfolding get_available_bit
gap_of_two = refl

get_available_bit-InodeChoice_example :
    InodeChoice superblock
      (first_byte 3)
      minus_one
      (get_available_bit superblock (first_byte 3) 0 minus_one)
get_available_bit-InodeChoice_example =
    get_available_bit-InodeChoice superblock (first_byte 3) minus_one

two_blocks : get_available_block superblock (first_byte 0x4B) (pos 2) ≡ pos 4
unfolding get_available_block block_scan check_bit_usage test_bit
two_blocks = refl

four_blocks : get_available_block superblock (λ i. 0x88) (pos 4) ≡ minus_one
unfolding get_available_block block_scan check_bit_usage test_bit
four_blocks = refl

get_available_bit-SingleChoice_example :
    SingleChoice superblock (λ i. 255) (get_available_bit superblock (λ i. 255) 1 (pos 1))
get_available_bit-SingleChoice_example =
    get_available_bit-SingleChoice superblock (λ i. 255) (omega arith)

-- Where every block is in use, the search for one block returns the last index.
full_disk : get_available_block superblock (λ i. 255) (pos 1) ≡ pos 15
unfolding get_available_block block_scan check_bit_usage test_bit
full_disk = refl

set_bits-range_example :
    let r = set_bits superblock (first_byte 7) 3 1 (pos 2) 1 in
    ((j : ℕ)
      → check_bit_usage r.bitmap j ≡ (
          if in_range 3 2 j
          then not (check_bit_usage (first_byte 7) j)
          else check_bit_usage (first_byte 7) j))
    × (r.sb ≡ record superblock {
      sb_free_blocks_count = count_after 1 superblock.sb_free_blocks_count 2;
    })
    × (r.result ≡ pos 0)
set_bits-range_example = set_bits-range superblock 3 2 1 IsBytes-7
