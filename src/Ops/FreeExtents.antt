-- ===== src/Ops/FreeExtents.antt =====
-- The loop of a1fs_unlink of a1b/a1fs.c over the extents of a file.
use extent_based_fs.Base.{
  ℕ, zero, suc, ◌+◌, ◌<◌, ◌≡◌, refl, ◌∙◌, Bool, true, false, not, ◌||◌, arith, if◌then◌else◌,
  lt→ltb,
}
use extent_based_fs.Base.Int.{ℤ, pos, pos_part, ◌+ℤ◌, int_laws}
use extent_based_fs.Types.{FsCtx, Superblock, Inode, Bitmap, ok, inode_extents}
use extent_based_fs.Bitmap.{check_bit_usage, set_bits}
use extent_based_fs.Bitmap.Toggle.{IsBytes}
use extent_based_fs.Bitmap.Range.{in_range, set_bits-range, set_block_bits-IsBytes}
use extent_based_fs.Ops.{free_extents}

-- The state with other bits for the blocks and another count of free ones.
abbrev pub with_blocks : FsCtx → ℤ → Bitmap → FsCtx
with_blocks s free bits = record s {
  sb = record s.sb { sb_free_blocks_count = free };
  block_bits = bits;
}

-- Whether block `j` is in one of the extents from `i` on, `left` of them, and how many blocks they
-- have.
abbrev pub in_extents : Inode → (left i j : ℕ) → Bool
in_extents v zero i j = false
in_extents v (suc left) i j =
    in_range (v.i_extent i).start (pos_part (v.i_extent i).count) j || in_extents v left (i + 1) j

abbrev pub blocks_owned : Inode → (left i : ℕ) → ℕ
blocks_owned v zero i = 0
blocks_owned v (suc left) i = pos_part (v.i_extent i).count + blocks_owned v left (i + 1)

-- These extents are in the array, have blocks, and have none in common.
abbrev pub Owned : Inode → (left i : ℕ) → Type 0
Owned v zero i = Unit
Owned v (suc left) i =
    (i < inode_extents)
    × ((c : ℕ) × ((v.i_extent i).count ≡ pos (suc c)))
    × ((j : ℕ)
        → in_range (v.i_extent i).start (pos_part (v.i_extent i).count) j ≡ true
        → in_extents v left (i + 1) j ≡ false)
    × Owned v left (i + 1)

set_bits-IsBytes :
    (sb : Superblock) {b : Bitmap} (i n f : ℕ)
    → IsBytes b
    → IsBytes (set_bits sb b i 1 (pos n) f).bitmap
unfolding set_bits
set_bits-IsBytes sb i n f h = set_block_bits-IsBytes n i f sb h

-- The state once extent `i`, of `n` blocks, is given back.
abbrev pub one_freed : FsCtx → Inode → (i n : ℕ) → FsCtx
one_freed s v i n =
    with_blocks s (s.sb.sb_free_blocks_count +ℤ pos n)
      (set_bits s.sb s.block_bits (v.i_extent i).start 1 (pos n) 0).bitmap

pub free_step :
    (v : Inode) (left i c : ℕ) (s t : FsCtx)
    → i < inode_extents
    → (v.i_extent i).count ≡ pos (suc c)
    → check_bit_usage s.block_bits (v.i_extent i).start ≡ true
    → IsBytes s.block_bits
    → free_extents v left (i + 1) (one_freed s v i (suc c)) ≡ ok true t
    → free_extents v (suc left) i s ≡ ok true t
unfolding free_extents
free_step v left i c s t in_array count used bytes run =
    let spec = set_bits-range s.sb (v.i_extent i).start (suc c) 0 bytes in
    rw (lt→ltb i inode_extents in_array, used, count, spec.2, spec.1) run

pub free_extents-freed :
    (v : Inode) (left i : ℕ) (s : FsCtx)
    → Owned v left i
    → ((j : ℕ) → in_extents v left i j ≡ true → check_bit_usage s.block_bits j ≡ true)
    → IsBytes s.block_bits
    → (free : ℤ) × (bits : Bitmap) × (free_extents v left i s ≡ ok true (with_blocks s free bits))
      × ((j : ℕ)
          → check_bit_usage bits j
            ≡ (if in_extents v left i j then false else check_bit_usage s.block_bits j))
      × (free ≡ s.sb.sb_free_blocks_count +ℤ pos (blocks_owned v left i))
free_extents-freed v zero i s owned used bytes = (
  s.sb.sb_free_blocks_count,
  s.block_bits,
  unfold free_extents in refl,
  λ j. refl,
  omega int_laws,
)
free_extents-freed v (suc left) i s (in_array, (c, count), apart, rest) used bytes =
    let u = one_freed s v i (suc c) in
    let flipped : (j : ℕ)
        → check_bit_usage u.block_bits j ≡ (
            if in_range (v.i_extent i).start (pos_part (v.i_extent i).count) j
            then not (check_bit_usage s.block_bits j)
            else check_bit_usage s.block_bits j) =
      λ j. rw count ((set_bits-range s.sb (v.i_extent i).start (suc c) 0 bytes).0 j) in
    let (free, bits, run, clear, counted) =
      free_extents-freed v left (i + 1) u rest
        (λ j h. still_used _ _ _ _ (apart j) (flipped j) (used j) h)
        (set_bits-IsBytes s.sb (v.i_extent i).start (suc c) 0 bytes) in
    (
      free,
      bits,
      free_step v left i c s (with_blocks s free bits) in_array count
          (used (v.i_extent i).start (rw count (first_in (v.i_extent i).start c _))) bytes run,
      λ j. clear j ∙ both_clear _ _ _ _ (flipped j) (used j),
      counted ∙ rw count (sum s.sb.sb_free_blocks_count (suc c) _),
    )
  where
    still_used :
        (a b x y : Bool)
        → (a ≡ true → b ≡ false)
        → y ≡ (if a then not x else x)
        → ((a || b) ≡ true → x ≡ true)
        → b ≡ true
        → y ≡ true
    still_used true b x y apart e h k = ground arith
    still_used false b x y apart e h k = ground arith

    both_clear :
        (a b x y : Bool)
        → y ≡ (if a then not x else x)
        → ((a || b) ≡ true → x ≡ true)
        → (if b then false else y) ≡ (if a || b then false else x)
    both_clear true true x y e h = refl
    both_clear true false x y e h = ground arith
    both_clear false true x y e h = refl
    both_clear false false x y e h = e

    first_in : (start c : ℕ) (b : Bool) → (in_range start (suc c) start || b) ≡ true
    first_in start c b = ground arith

    sum : (z : ℤ) (a b : ℕ) → z +ℤ pos a +ℤ pos b ≡ z +ℤ pos (a + b)
    sum z a b = omega int_laws
