-- ===== src/Session/Contents.antt =====
-- What truncate_helper of a1b/a1fs_helper.c leaves alone: the layout of the image.
use extent_based_fs.Base.{ℕ, zero, suc, ◌+◌, refl, not, ◌&&◌, ltb, ◌==◌, if◌then◌else◌}
use extent_based_fs.Base.Int.{ℤ, pos, negsuc, eq_ℤ, ltb_ℤ, neg, ◌+ℤ◌, ◌-ℤ◌}
use extent_based_fs.Types.{Inode, a1fs_block_size}
use extent_based_fs.Dir.{block_addr}
use extent_based_fs.Contents.{
  block_quotient, block_rest, memset, add_extent_size, zero_out_blocks, ZeroStart, zero_start,
  zero_extents, touch_inode, truncate_helper,
}
use extent_based_fs.Session.Frame.{
  Frames, whole, returns, faults, then-Frames, then_reads, if-Frames,
}
use extent_based_fs.Session.Reads.{index_reads, load_inode_reads, extent_index_reads}
use extent_based_fs.Session.Layout.{
  layout, load_inode_keeps, store_inode_keeps, make_data_blocks_keeps,
}

pub memset_keeps : (a : ℕ) (n : ℤ) → Frames layout (memset a n)
unfolding memset
memset_keeps a (pos n) s =
    if-Frames layout s (ltb s.size (a + n)) _ _ (faults layout s) (returns layout s refl)
memset_keeps a (negsuc n) s = faults layout s

add_extent_size_keeps : (i k : ℕ) (n : ℤ) → Frames layout (add_extent_size i k n)
unfolding add_extent_size
add_extent_size_keeps i k n s =
    then_reads layout s _ (load_inode_reads i s) λ inode. store_inode_keeps i _ s

zero_out_blocks_keeps :
    (i k left j : ℕ) (blocks leftover : ℤ)
    → Frames layout (zero_out_blocks i k left j blocks leftover)
unfolding zero_out_blocks
zero_out_blocks_keeps i k zero j blocks leftover s = returns layout s refl
zero_out_blocks_keeps i k (suc left) j blocks leftover s =
    if-Frames layout s (eq_ℤ blocks (pos 1) && not (eq_ℤ leftover (pos 0))) _ _
      (then-Frames layout s (memset_keeps db_addr leftover s) λ x t.
        then-Frames layout t (add_extent_size_keeps i k leftover t) λ y u. returns layout u refl)
      (then-Frames layout s (memset_keeps db_addr (pos a1fs_block_size) s) λ x t.
        then-Frames layout t (add_extent_size_keeps i k (neg a1fs_block_size) t)
          λ y u. zero_out_blocks_keeps i k left (j + 1) (blocks -ℤ pos 1) leftover u)
  where
    db_addr : ℕ
    db_addr = block_addr s.sb.sb_first_data_block j

zero_start_reads : (inode : Inode) (left : ℕ) (n : ℤ) → Frames whole (zero_start inode left n)
unfolding zero_start
zero_start_reads inode zero n s = faults whole s
zero_start_reads inode (suc i) n s = then-Frames whole s (extent_index_reads (pos i) s) λ k t.
    if-Frames whole t (ltb_ℤ (inode.i_extent k).count n) _ _ (zero_start_reads inode i _ t)
      (returns whole t refl)

zero_extents_keeps :
    (cur : ℕ) (from : ZeroStart) (left i : ℕ) (blocks leftover : ℤ)
    → Frames layout (zero_extents cur from left i blocks leftover)
unfolding zero_extents
zero_extents_keeps cur from zero i blocks leftover s = returns layout s refl
zero_extents_keeps cur from (suc left) i blocks leftover s =
    if-Frames layout s (eq_ℤ blocks (pos 0)) _ _ (returns layout s refl) (
      then_reads layout s _ (load_inode_reads cur s) λ inode.
        then_reads layout s _ (extent_index_reads (pos i) s) λ k.
          then_reads layout s _
            (index_reads (if i == from.extent then from.block else pos (inode.i_extent k).start) s)
            λ j. then-Frames layout s (zero_out_blocks_keeps cur k _ j blocks leftover s) λ after t.
              then-Frames layout t (add_extent_size_keeps cur k leftover t)
                λ x u. zero_extents_keeps cur from left (i + 1) after leftover u)

touch_inode_keeps : (i : ℕ) → Frames layout (touch_inode i)
unfolding touch_inode
touch_inode_keeps i s =
    then-Frames layout s (load_inode_keeps i (record s { ticks = s.ticks + 1 }))
      λ inode t. store_inode_keeps i _ t

pub truncate_helper_keeps : (fuel i : ℕ) (size : ℤ) → Frames layout (truncate_helper fuel i size)
unfolding truncate_helper
truncate_helper_keeps fuel i size s =
    then-Frames layout s (make_data_blocks_keeps fuel i blocks s) λ made t.
      if-Frames layout t (not (eq_ℤ blocks made)) _ _ (returns layout t refl) (
        then-Frames layout t (touch_inode_keeps i t) λ x u.
          then_reads layout u _ (load_inode_reads i u) λ inode.
            then_reads layout u _ (zero_start_reads inode _ blocks u) λ from.
              then-Frames layout u (zero_extents_keeps i from _ from.extent blocks rest u)
                λ y v. then-Frames layout v (touch_inode_keeps i v) λ z w. returns layout w refl)
  where
    rest : ℤ
    rest = block_rest size

    blocks : ℤ
    blocks = if eq_ℤ rest (pos 0) then block_quotient size else block_quotient size +ℤ pos 1
