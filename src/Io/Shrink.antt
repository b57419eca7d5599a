-- ===== src/Io/Shrink.antt =====
-- a1fs_truncate of a1b/a1fs.c on a file in one extent that shrinks.
use extent_based_fs.Base.{
  ℕ, zero, suc, ◌+◌, ◌-◌, ◌/◌, ◌≤◌, ◌<◌, ◌≡◌, refl, ap, ◌∙◌, true, false, not, arith, if◌then◌else◌,
  lt→ltb, List, ◌==◌,
}
use extent_based_fs.Base.Int.{ℤ, pos, minus_one, eq_ℤ, ltb_ℤ, ◌+ℤ◌, ◌-ℤ◌, int_laws}
use extent_based_fs.Types.{FsCtx, Inode, Bitmap, ok, inode_capacity, update}
use extent_based_fs.Bitmap.{check_bit_usage, flip_bit, set_bits, set_block_bits}
use extent_based_fs.Bitmap.Toggle.{IsBytes, check-flip_bit, flip_bit-IsBytes}
use extent_based_fs.Bitmap.Range.{in_range}
use extent_based_fs.Dir.{get_inode_num}
use extent_based_fs.Ops.FreeExtents.{with_blocks}
use extent_based_fs.Io.RoundTrip.{to_int_small}
use extent_based_fs.Io.{
  blocks_of, to_int, unlink_blocks, unlink_extents, truncate_shrink, a1fs_truncate,
}

-- `t` is `s` with the bits of the blocks from `lo` on, `n` of them, inverted and `n` more blocks
-- counted as free.
pub record Freed (s t : FsCtx) (lo n : ℕ) : Type 0 where
  pub bits :
      (j : ℕ)
      → check_bit_usage t.block_bits j ≡ (
          if in_range lo n j
          then not (check_bit_usage s.block_bits j)
          else check_bit_usage s.block_bits j)
  pub counted : t.sb ≡ record s.sb { sb_free_blocks_count = s.sb.sb_free_blocks_count +ℤ pos n }
  pub others : t ≡ record s { sb = t.sb; block_bits = t.block_bits }
  pub bytes : IsBytes t.block_bits

-- One block is given back.
abbrev pub given_back : FsCtx → ℕ → FsCtx
given_back s j = record s {
  sb = record s.sb { sb_free_blocks_count = s.sb.sb_free_blocks_count +ℤ pos 1 };
  block_bits = flip_bit s.block_bits j;
}

suc_not_zero : (m : ℕ) → (suc m == 0) ≡ false
suc_not_zero m = ground arith

-- One round of the loop.
pub unlink_step :
    (start left m j : ℕ) (s t : FsCtx)
    → start + left ≡ j
    → unlink_blocks start left (pos m) (given_back s j) ≡ ok (pos 0) t
    → unlink_blocks start (suc left) (pos (suc m)) s ≡ ok (pos 0) t
unfolding unlink_blocks set_bits set_block_bits
unlink_step start left m j s t at run = rw (suc_not_zero m, at, one_less m) run
  where
    one_less : (m : ℕ) → pos (suc m) -ℤ pos 1 ≡ pos m
    one_less m = omega int_laws

Freed-none : (s : FsCtx) (lo : ℕ) → IsBytes s.block_bits → Freed s s lo 0
Freed-none s lo bytes = record {
  bits = λ j. ground arith;
  counted = ap (λ c. record s.sb { sb_free_blocks_count = c }) (same s.sb.sb_free_blocks_count);
  others = refl;
  bytes = bytes;
}
  where
    same : (c : ℤ) → c ≡ c +ℤ pos 0
    same c = omega int_laws

Freed-suc :
    (s t : FsCtx) (lo m : ℕ)
    → IsBytes s.block_bits
    → Freed (given_back s (lo + m)) t lo m
    → Freed s t lo (suc m)
Freed-suc s t lo m bytes f = record {
  bits = λ j. f.bits j ∙ ground (arith, check-flip_bit (lo + m) j bytes);
  counted =
      f.counted
      ∙ ap (λ c. record s.sb { sb_free_blocks_count = c }) (sum s.sb.sb_free_blocks_count);
  others = f.others;
  bytes = f.bytes;
}
  where
    sum : (c : ℤ) → c +ℤ pos 1 +ℤ pos m ≡ c +ℤ pos (suc m)
    sum c = omega int_laws

pub unlink_blocks-Freed :
    (start left m lo : ℕ) (s : FsCtx)
    → lo + m ≡ start + left
    → m ≤ left
    → IsBytes s.block_bits
    → (t : FsCtx) × (unlink_blocks start left (pos m) s ≡ ok (pos 0) t) × Freed s t lo m
unfolding unlink_blocks
unlink_blocks-Freed start zero zero lo s e le bytes = (s, refl, Freed-none s lo bytes)
unlink_blocks-Freed start zero (suc m) lo s e le bytes = absurd (omega arith)
unlink_blocks-Freed start (suc left) zero lo s e le bytes = (s, refl, Freed-none s lo bytes)
unlink_blocks-Freed start (suc left) (suc m) lo s e le bytes =
    let at : start + left ≡ lo + m = omega arith in
    let (t, run, f) =
      unlink_blocks-Freed start left m lo (given_back s (lo + m)) (omega arith) (omega arith)
        (flip_bit-IsBytes (lo + m) bytes) in
    (t, unlink_step start left m (lo + m) s t at run, Freed-suc s t lo m bytes f)

-- The blocks that `n` bytes take.
abbrev pub ceil_blocks : ℕ → ℕ
ceil_blocks n = (n + 4095) / 4096

pub blocks_of-ceil_blocks : (n : ℕ) → blocks_of (pos n) ≡ pos (ceil_blocks n)
unfolding ◌+ℤ◌
blocks_of-ceil_blocks n = ground arith

unlink_extents-Freed :
    (v : Inode) {count : ℕ} (d lo : ℕ) (s : FsCtx)
    → (v.i_extent 0).count ≡ pos count
    → lo + d ≡ (v.i_extent 0).start + count
    → d ≤ count
    → IsBytes s.block_bits
    → (t : FsCtx) × (unlink_extents v 1 (pos d) s ≡ ok tt t) × Freed s t lo d
unfolding unlink_extents
unlink_extents-Freed v zero lo s c e le bytes = (s, refl, Freed-none s lo bytes)
unlink_extents-Freed v {count} (suc d) lo s c e le bytes =
    let (t, run, f) = unlink_blocks-Freed (v.i_extent 0).start count (suc d) lo s e le bytes in
    (t, rw (suc_not_zero d, c, run) refl, f)

-- A file of all the blocks of its only extent, which are in use, that is to shrink to `size`.
pub record Shrinkable (s : FsCtx) (path : List ℕ) (ino size : ℕ) : Type 0 where
  pub leads : get_inode_num path 0 s ≡ ok (pos ino) s
  pub in_table : ino < inode_capacity s.sb
  pub small : (s.itable ino).size < 2147483648
  pub last : (s.itable ino).last_used_extent ≡ pos 0
  pub count : ((s.itable ino).i_extent 0).count ≡ pos (ceil_blocks (s.itable ino).size)
  pub shrinks : size < (s.itable ino).size
  pub used :
      (j : ℕ)
      → in_range ((s.itable ino).i_extent 0).start (ceil_blocks (s.itable ino).size) j ≡ true
      → check_bit_usage s.block_bits j ≡ true

-- The state with the new size.
abbrev pub shrunk : FsCtx → (ino size : ℕ) → FsCtx
shrunk s ino size = record s {
  itable = update s.itable ino (record (s.itable ino) {
    size = size;
    last_used_extent = if size == 0 then minus_one else (s.itable ino).last_used_extent;
    last_used_indirect = if size == 0 then minus_one else (s.itable ino).last_used_indirect;
  });
}

module _ {s : FsCtx} {path : List ℕ} {ino size : ℕ} (h : Shrinkable s path ino size) where
  difference :
      blocks_of (to_int (s.itable ino).size) -ℤ blocks_of (pos size)
      ≡ pos (ceil_blocks (s.itable ino).size - ceil_blocks size)
  difference =
      let less = h.shrinks in
      rw
        (
          to_int_small (s.itable ino).size h.small,
          blocks_of-ceil_blocks (s.itable ino).size,
          blocks_of-ceil_blocks size,
        )
        (unfold ◌-ℤ◌ in ground arith)

  pub truncate_shrink-shrunk :
      (free : ℤ) (bits : Bitmap)
      → unlink_extents (s.itable ino) 1 (pos (ceil_blocks (s.itable ino).size - ceil_blocks size)) s
        ≡ ok tt (with_blocks s free bits)
      → truncate_shrink ino (to_int (s.itable ino).size) size s
        ≡ ok (pos 0) (shrunk (with_blocks s free bits) ino size)
  unfolding truncate_shrink
  truncate_shrink-shrunk free bits run =
      rw
        (
          lt→ltb ino _ h.in_table,
          h.last,
          difference,
          run,
          lt→ltb ino _ h.in_table,
          lt→ltb ino _ h.in_table,
          h.last,
        )
        refl

  not_same : eq_ℤ (to_int (s.itable ino).size) (pos size) ≡ false
  not_same = let less = h.shrinks in rw (to_int_small (s.itable ino).size h.small) (ground arith)

  not_less : ltb_ℤ (to_int (s.itable ino).size) (pos size) ≡ false
  not_less = let less = h.shrinks in rw (to_int_small (s.itable ino).size h.small) (ground arith)

  pub truncate-shrunk :
      (fuel : ℕ) {t : FsCtx}
      → truncate_shrink ino (to_int (s.itable ino).size) size s ≡ ok (pos 0) t
      → a1fs_truncate fuel path size s ≡ ok (pos 0) t
  unfolding a1fs_truncate
  truncate-shrunk fuel run = rw (h.leads, lt→ltb ino _ h.in_table, not_same, h.last, not_less) run

-- Shrinking such a file returns 0: the blocks that the new size does not need are free afterwards
-- and counted so, every other block is as it was, the inode has the new size, the image is the
-- same, and the file keeps its extents with the counts they had; only a new size of 0 clears the
-- index of the last extent.
pub a1fs_truncate_shrinks :
    {s : FsCtx} {path : List ℕ} {ino size : ℕ} (fuel : ℕ) (h : Shrinkable s path ino size)
    → IsBytes s.block_bits
    → let d = ceil_blocks (s.itable ino).size - ceil_blocks size in
      let lo = ((s.itable ino).i_extent 0).start + ceil_blocks size in
      (t : FsCtx) × (a1fs_truncate fuel path size s ≡ ok (pos 0) t)
      × ((j : ℕ)
          → check_bit_usage t.block_bits j
            ≡ (if in_range lo d j then false else check_bit_usage s.block_bits j))
      × (t.sb ≡ record s.sb { sb_free_blocks_count = s.sb.sb_free_blocks_count +ℤ pos d })
      × ((t.itable ino).size ≡ size)
      × ((t.itable ino).i_extent ≡ (s.itable ino).i_extent)
      × ((t.itable ino).last_used_extent ≡ (if size == 0 then minus_one else pos 0))
      × (t.image ≡ s.image)
a1fs_truncate_shrinks {s} {path} {ino} {size} fuel h bytes =
    let d = ceil_blocks (s.itable ino).size - ceil_blocks size in
    let lo = ((s.itable ino).i_extent 0).start + ceil_blocks size in
    let free = s.sb.sb_free_blocks_count +ℤ pos d in
    let (u, run, f) =
      unlink_extents-Freed (s.itable ino) d lo s h.count (omega (arith, h.shrinks)) (omega arith)
        bytes in
    let same : u ≡ with_blocks s free u.block_bits =
      f.others ∙ ap (λ sb. record s { sb = sb; block_bits = u.block_bits }) f.counted in
    (
      shrunk (with_blocks s free u.block_bits) ino size,
      truncate-shrunk h fuel (truncate_shrink-shrunk h free u.block_bits (run ∙ ap (ok tt) same)),
      λ j. f.bits j ∙ ground (arith, h.used j, h.shrinks),
      refl,
      ground arith,
      ground arith,
      ground (arith, h.last),
      refl,
    )
