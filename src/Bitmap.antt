-- ===== src/Bitmap.antt =====
-- The bitmap functions of a1b/util.h: check_bit_usage, get_available_bit, set_bits.
pub mod Toggle
pub mod Range
pub mod FirstFit
pub mod Count
pub mod Blocks
use Prim.Native.Nat.{bit_and, bit_xor}
use extent_based_fs.Base.{
  ℕ, zero, suc, ◌+◌, ◌-◌, ◌*◌, ◌/◌, ◌%◌, ◌^◌, Bool, true, false, not, ◌&&◌, ltb, ◌==◌,
  if◌then◌else◌,
}
use extent_based_fs.Base.Int.{ℤ, pos, minus_one, pos_part, ltb_ℤ, eq_ℤ, ◌+ℤ◌, ◌-ℤ◌}
use extent_based_fs.Types.{Superblock, Bitmap, a1fs_block_size, update}

-- `byte & (1 << bit)` is not 0.
unfoldable pub test_bit : ℕ → ℕ → Bool
test_bit byte bit = not (bit_and byte (2 ^ bit) == 0)

unfoldable pub check_bit_usage : Bitmap → ℕ → Bool
check_bit_usage bitmap i = test_bit (bitmap (i / 8)) (i % 8)

-- `bitmap[byte] ^= (1 << bit)`.
unfoldable pub flip_bit : Bitmap → ℕ → Bitmap
flip_bit bitmap i = update bitmap (i / 8) (bit_xor (bitmap (i / 8)) (2 ^ (i % 8)))

-- The search for a free inode at index `i`, with `left` rounds to go.
unfoldable pub inode_scan : Bitmap → ℕ → ℕ → ℤ
inode_scan bitmap zero i = minus_one
inode_scan bitmap (suc left) i =
    let rest = inode_scan bitmap left (i + 1) in
    if not (check_bit_usage bitmap i) then pos i else rest

pub record Scan : Type 0 where
  pub i : ℕ
  pub avail : ℕ

-- The search for `extent_size` free blocks in a row. `left` is `max_index - i`.
unfoldable pub block_scan : Bitmap → ℤ → (left i count avail : ℕ) → Scan
block_scan bitmap extent_size zero i count avail = record { i = i; avail = avail }
block_scan bitmap extent_size (suc left) i count avail =
    let occupied = block_scan bitmap extent_size left (i + 1) 0 (i + 1) in
    let free = block_scan bitmap extent_size left (i + 1) (count + 1) avail in
    if eq_ℤ (pos count) extent_size
    then record { i = i; avail = avail }
    else if check_bit_usage bitmap i
    then occupied
    else free

-- `i == max_index` is written `i + 1 == total_blocks`, since `max_index` is -1 on an empty image.
unfoldable pub get_available_block : Superblock → Bitmap → ℤ → ℤ
get_available_block sb bitmap extent_size =
    let total_blocks = sb.size / a1fs_block_size in
    let first = sb.sb_first_empty_db in
    let end = block_scan bitmap extent_size (total_blocks - 1 - first) first 0 first in
    if (end.i + 1 == total_blocks) && not (eq_ℤ extent_size (pos 1))
    then minus_one
    else pos end.avail

unfoldable pub get_available_bit : Superblock → Bitmap → (bm_type : ℕ) → (extent_size : ℤ) → ℤ
unfolding get_available_block inode_scan block_scan check_bit_usage test_bit
get_available_bit sb bitmap bm_type extent_size =
    if ltb_ℤ sb.sb_free_blocks_count extent_size
    then minus_one
    else if bm_type == 0
    then if eq_ℤ sb.sb_free_inodes_count (pos 0)
      then minus_one
      else inode_scan bitmap (pos_part sb.sb_inodes_count) 0
    else if bm_type == 1
    then get_available_block sb bitmap extent_size
    else minus_one

-- `flip_type` 0 gives back, 1 takes.
abbrev pub count_flip : ℕ → ℤ → ℤ
count_flip flip_type n = if flip_type == 0 then n +ℤ pos 1 else n -ℤ pos 1

-- A superblock and a bitmap that belong together, with the returned `int`.
pub record Flip : Type 0 where
  pub sb : Superblock
  pub bitmap : Bitmap
  pub result : ℤ

-- The loop over the blocks `i`, `i + 1`, ... with `left` rounds to go.
unfoldable pub set_block_bits : (left i flip_type : ℕ) → Superblock → Bitmap → Flip
set_block_bits zero i flip_type sb bitmap = record { sb = sb; bitmap = bitmap; result = pos 0 }
set_block_bits (suc left) i flip_type sb bitmap =
    set_block_bits left (i + 1) flip_type
      (record sb { sb_free_blocks_count = count_flip flip_type sb.sb_free_blocks_count })
      (flip_bit bitmap i)

unfoldable pub set_bits :
    Superblock → Bitmap → (index bm_type : ℕ) → (extent_size : ℤ) → (flip_type : ℕ) → Flip
unfolding set_block_bits flip_bit
set_bits sb bitmap index bm_type extent_size flip_type =
    if bm_type == 0
    then record {
      sb = record sb { sb_free_inodes_count = count_flip flip_type sb.sb_free_inodes_count };
      bitmap = flip_bit bitmap index;
      result = pos 0;
    }
    else if bm_type == 1
    then set_block_bits (pos_part extent_size) index flip_type sb bitmap
    else record { sb = sb; bitmap = bitmap; result = minus_one }
