-- ===== src/Bitmap/Range.antt =====
-- What set_bits of a1b/util.h does to a range of blocks and to the free counts.
use extent_based_fs.Base.{
  ℕ, zero, suc, ◌+◌, ◌≡◌, refl, Bool, not, ◌&&◌, arith, ltb, leb, ◌==◌, if◌then◌else◌, ap, ◌∙◌,
}
use extent_based_fs.Base.Int.{ℤ, pos, ◌+ℤ◌, ◌-ℤ◌, int_laws}
use extent_based_fs.Types.{Superblock, Bitmap}
use extent_based_fs.Bitmap.{check_bit_usage, set_block_bits, set_bits, count_flip}
use extent_based_fs.Bitmap.Toggle.{IsBytes, flip_bit-IsBytes, check-flip_bit}

-- `lo ≤ j < lo + n`
abbrev pub in_range : ℕ → ℕ → ℕ → Bool
in_range lo n j = leb lo j && ltb j (lo + n)

-- A free count after `n` blocks are given back (flip_type 0) or taken.
abbrev pub count_after : ℕ → ℤ → ℕ → ℤ
count_after flip_type c n = if flip_type == 0 then c +ℤ pos n else c -ℤ pos n

count_after-zero : (f : ℕ) (c : ℤ) → c ≡ count_after f c 0
unfolding ◌+ℤ◌ ◌-ℤ◌
count_after-zero f c = ground arith

count_after-suc :
    (f : ℕ) (c : ℤ) (n : ℕ) → count_after f (count_flip f c) n ≡ count_after f c (suc n)
unfolding ◌+ℤ◌ ◌-ℤ◌
count_after-suc f c n = ground arith

pub set_block_bits-IsBytes :
    (left i f : ℕ) (sb : Superblock) {b : Bitmap}
    → IsBytes b
    → IsBytes (set_block_bits left i f sb b).bitmap
unfolding set_block_bits
set_block_bits-IsBytes zero i f sb h = h
set_block_bits-IsBytes (suc left) i f sb h =
    set_block_bits-IsBytes left (i + 1) f _ (flip_bit-IsBytes i h)

pub check-set_block_bits :
    (left i f j : ℕ) (sb : Superblock) {b : Bitmap}
    → IsBytes b
    → check_bit_usage (set_block_bits left i f sb b).bitmap j
      ≡ (if in_range i left j then not (check_bit_usage b j) else check_bit_usage b j)
unfolding set_block_bits
check-set_block_bits zero i f j sb h = ground arith
check-set_block_bits (suc left) i f j sb h =
    check-set_block_bits left (i + 1) f j _ (flip_bit-IsBytes i h)
    ∙ ground (arith, check-flip_bit i j h)

pub sb-set_block_bits :
    (left i f : ℕ) (sb : Superblock) (b : Bitmap)
    → (set_block_bits left i f sb b).sb
      ≡ record sb { sb_free_blocks_count = count_after f sb.sb_free_blocks_count left }
unfolding set_block_bits
sb-set_block_bits zero i f sb b =
    ap (λ c. record sb { sb_free_blocks_count = c }) (count_after-zero f sb.sb_free_blocks_count)
sb-set_block_bits (suc left) i f sb b =
    sb-set_block_bits left (i + 1) f _ _
    ∙ ap (λ c. record sb { sb_free_blocks_count = c })
        (count_after-suc f sb.sb_free_blocks_count left)

result-set_block_bits :
    (left i f : ℕ) (sb : Superblock) (b : Bitmap) → (set_block_bits left i f sb b).result ≡ pos 0
unfolding set_block_bits
result-set_block_bits zero i f sb b = refl
result-set_block_bits (suc left) i f sb b = result-set_block_bits left (i + 1) f _ _

-- Setting the bits of `n` data blocks from `i` on inverts the bit of each of these blocks, leaves
-- every other bit alone, moves the free block count by `n` (up if `flip_type` is 0, down
-- otherwise), changes no other field of the superblock and returns 0.
pub set_bits-range :
    (sb : Superblock) {b : Bitmap} (i n f : ℕ)
    → IsBytes b
    → let r = set_bits sb b i 1 (pos n) f in
      ((j : ℕ)
        → check_bit_usage r.bitmap j
          ≡ (if in_range i n j then not (check_bit_usage b j) else check_bit_usage b j))
      × (r.sb ≡ record sb { sb_free_blocks_count = count_after f sb.sb_free_blocks_count n })
      × (r.result ≡ pos 0)
unfolding set_bits
set_bits-range sb {b} i n f h = (
  λ j. check-set_block_bits n i f j sb h,
  sb-set_block_bits n i f sb b,
  result-set_block_bits n i f sb b,
)

-- Taking `n` data blocks and then giving the same blocks back restores the usage of every block
-- and the superblock.
pub set_bits-set_bits :
    (sb : Superblock) {b : Bitmap} (i n : ℕ)
    → IsBytes b
    → let taken = set_bits sb b i 1 (pos n) 1 in
      let back = set_bits taken.sb taken.bitmap i 1 (pos n) 0 in
      ((j : ℕ) → check_bit_usage back.bitmap j ≡ check_bit_usage b j) × (back.sb ≡ sb)
unfolding set_bits
set_bits-set_bits sb {b} i n h = (
  λ j. ground (
    arith,
    check-set_block_bits n i 0 j (set_block_bits n i 1 sb b).sb (set_block_bits-IsBytes n i 1 sb h),
    check-set_block_bits n i 1 j sb h,
  ),
  sb-set_block_bits n i 0 _ _
      ∙ ap {A = Superblock} {B = Superblock}
          (λ s. record s { sb_free_blocks_count = s.sb_free_blocks_count +ℤ pos n })
          (sb-set_block_bits n i 1 sb b)
      ∙ ap {B = Superblock} (λ c. record sb { sb_free_blocks_count = c })
          (cancel sb.sb_free_blocks_count n),
)
  where
    cancel : (c : ℤ) (n : ℕ) → c -ℤ pos n +ℤ pos n ≡ c
    cancel c n = omega int_laws
