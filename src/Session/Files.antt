-- ===== src/Session/Files.antt =====
-- What a1fs_truncate and a1fs_write of a1b/a1fs.c leave alone: the layout of the image.
use extent_based_fs.Base.{ℕ, zero, suc, ◌+◌, ◌-◌, refl, List, not, ltb, if◌then◌else◌}
use extent_based_fs.Base.Int.{ℤ, pos, minus_one, is_neg, eq_ℤ, ltb_ℤ, pos_part, ◌+ℤ◌, ◌-ℤ◌}
use extent_based_fs.Types.{FsCtx, Inode, ok, a1fs_block_size, inode_extents}
use extent_based_fs.Bitmap.{set_bits, Flip}
use extent_based_fs.Image.{Bytes}
use extent_based_fs.Dir.{extents_used, block_addr}
use extent_based_fs.Contents.{block_rest, truncate_helper}
use extent_based_fs.Io.{
  to_int, size_minus, add_size, truncate_empty, truncate_extend, unlink_blocks, unlink_extents,
  blocks_of, truncate_shrink, a1fs_truncate, copy, extent_bytes, write_loop, a1fs_write,
}
use extent_based_fs.Session.Frame.{
  Frames, returns, faults, then-Frames, then_reads, if-Frames, moved,
}
use extent_based_fs.Session.Reads.{
  index_reads, load_inode_reads, extent_index_reads, get_inode_num_reads, find_offset_extent_reads,
  in_image_reads,
}
use extent_based_fs.Session.Layout.{layout, store_inode_keeps, layout-set_block_range}
use extent_based_fs.Session.Contents.{memset_keeps, truncate_helper_keeps}

add_size_keeps : (i : ℕ) (n : ℤ) → Frames layout (add_size i n)
unfolding add_size
add_size_keeps i n s = then_reads layout s _ (load_inode_reads i s) λ inode. store_inode_keeps i _ s

truncate_empty_keeps : (fuel i size : ℕ) → Frames layout (truncate_empty fuel i size)
unfolding truncate_empty
truncate_empty_keeps fuel i size s =
    then-Frames layout s (truncate_helper_keeps fuel i (pos size) s) λ r t.
      if-Frames layout t (is_neg r) _ _ (returns layout t refl) (
        then_reads layout t _ (load_inode_reads i t)
          λ inode. then-Frames layout t (store_inode_keeps i _ t) λ x u. returns layout u refl)

truncate_extend_keeps :
    (fuel i : ℕ) (cur_size : ℤ) (size : ℕ) → Frames layout (truncate_extend fuel i cur_size size)
unfolding truncate_extend
truncate_extend_keeps fuel i cur_size size s =
    if-Frames layout s (ltb_ℤ (pos size) til_full) _ _
      (then-Frames layout s (truncate_helper_keeps fuel i (pos size) s) λ r t.
        if-Frames layout t (is_neg r) _ _ (returns layout t refl) (
          then-Frames layout t (add_size_keeps i (pos size -ℤ cur_size) t)
            λ x u. returns layout u refl))
      (if-Frames layout s (ltb_ℤ til_full (pos size)) _ _
        (then_reads layout s _ (load_inode_reads i s) λ inode.
          then_reads layout s _ (extent_index_reads inode.last_used_extent s) λ k.
            then_reads layout s _ (index_reads (last_block inode k) s) λ last_db.
              then_reads layout s _ (index_reads (fill_addr last_db) s) λ db_addr.
                then-Frames layout s (memset_keeps db_addr til_full s) λ x t.
                  then-Frames layout t (helped inode t) λ r u.
                    if-Frames layout u (is_neg r) _ _ (returns layout u refl) (
                      then_reads layout u _ (load_inode_reads i u) λ grown.
                        then-Frames layout u (add_size_keeps i (size_minus size grown.size) u)
                          λ y v. returns layout v refl))
        (returns layout s refl))
  where
    til_full : ℤ
    til_full = pos a1fs_block_size -ℤ block_rest cur_size

    last_block : Inode → ℕ → ℤ
    last_block inode k = (pos (inode.i_extent k).start +ℤ (inode.i_extent k).count) -ℤ pos 1

    fill_addr : ℕ → ℤ
    fill_addr last_db = pos (block_addr s.sb.sb_first_data_block last_db) +ℤ block_rest cur_size

    remaining : Inode → ℤ
    remaining inode = size_minus size inode.size -ℤ til_full

    helped :
        (inode : Inode)
        → Frames layout (
            if eq_ℤ (remaining inode) (pos 0)
            then ok (pos 0)
            else truncate_helper fuel i (remaining inode))
    helped inode t =
        if-Frames layout t (eq_ℤ (remaining inode) (pos 0)) _ _ (returns layout t refl)
          (truncate_helper_keeps fuel i (remaining inode) t)

unlink_blocks_keeps : (start left : ℕ) (n : ℤ) → Frames layout (unlink_blocks start left n)
unfolding unlink_blocks
unlink_blocks_keeps start zero n s = returns layout s refl
unlink_blocks_keeps start (suc left) n s =
    if-Frames layout s (eq_ℤ n (pos 0)) _ _ (returns layout s refl) (
      moved layout s freed (layout-set_block_range (start + left) (pos 1) 0 s)
        (unlink_blocks_keeps start left (n -ℤ pos 1) freed))
  where
    bits : Flip
    bits = set_bits s.sb s.block_bits (start + left) 1 (pos 1) 0

    freed : FsCtx
    freed = record s { sb = bits.sb; block_bits = bits.bitmap }

unlink_extents_keeps :
    (inode : Inode) (left : ℕ) (n : ℤ) → Frames layout (unlink_extents inode left n)
unfolding unlink_extents
unlink_extents_keeps inode zero n s = returns layout s refl
unlink_extents_keeps inode (suc i) n s =
    if-Frames layout s (eq_ℤ n (pos 0)) _ _ (returns layout s refl) (
      then_reads layout s _ (extent_index_reads (pos i) s) λ k.
        then-Frames layout s
          (unlink_blocks_keeps (inode.i_extent k).start (pos_part (inode.i_extent k).count) n s)
          λ rest t. unlink_extents_keeps inode i rest t)

truncate_shrink_keeps :
    (i : ℕ) (cur_size : ℤ) (size : ℕ) → Frames layout (truncate_shrink i cur_size size)
unfolding truncate_shrink
truncate_shrink_keeps i cur_size size s = then_reads layout s _ (load_inode_reads i s) λ before.
    then-Frames layout s
      (unlink_extents_keeps before (extents_used before.last_used_extent)
        (blocks_of cur_size -ℤ blocks_of (pos size)) s)
      λ x t.
        then_reads layout t _ (load_inode_reads i t)
          λ inode. then-Frames layout t (store_inode_keeps i _ t) λ y u. returns layout u refl

pub a1fs_truncate_keeps :
    (fuel : ℕ) (path : List ℕ) (size : ℕ) → Frames layout (a1fs_truncate fuel path size)
unfolding a1fs_truncate
a1fs_truncate_keeps fuel path size s = then_reads layout s _ (get_inode_num_reads path 0 s) λ found.
    then_reads layout s _ (index_reads found s) λ i.
      then_reads layout s _ (load_inode_reads i s) λ inode.
        if-Frames layout s (eq_ℤ (to_int inode.size) (pos size)) _ _ (returns layout s refl) (
          if-Frames layout s (eq_ℤ inode.last_used_extent minus_one) _ _
            (truncate_empty_keeps fuel i size s)
            (if-Frames layout s (ltb_ℤ (to_int inode.size) (pos size)) _ _
              (truncate_extend_keeps fuel i (to_int inode.size) size s)
              (truncate_shrink_keeps i (to_int inode.size) size s)))

write_loop_keeps :
    (inode : Inode) (buf : Bytes) (size left k : ℕ) (remaining : ℤ) (offset : ℕ) (written : ℤ)
    → Frames layout (write_loop inode buf size left k remaining offset written)
unfolding write_loop
write_loop_keeps inode buf size zero k remaining offset written s =
    if-Frames layout s (ltb_ℤ (pos 0) remaining) _ _ (faults layout s) (returns layout s refl)
write_loop_keeps inode buf size (suc left) k remaining offset written s =
    if-Frames layout s (not (ltb_ℤ (pos 0) remaining)) _ _ (returns layout s refl) (
      if-Frames layout s (ltb_ℤ available remaining) _ _
        (then_reads layout s _ (in_image_reads (dst + offset) available s) λ n.
          moved layout s (stored (dst + offset) 0 n) refl (
            write_loop_keeps inode buf size left (k + 1) (remaining -ℤ available) 0 available
              (stored (dst + offset) 0 n)))
        (then_reads layout s _ (in_image_reads dst remaining s)
          λ n. then_reads layout s _ (index_reads written s) λ from. returns layout s refl))
  where
    available : ℤ
    available = extent_bytes (inode.i_extent k).count -ℤ pos offset

    dst : ℕ
    dst = block_addr s.sb.sb_first_data_block (inode.i_extent k).start + offset

    stored : (to from n : ℕ) → FsCtx
    stored to from n = record s { image = copy s.image buf to from n }

pub a1fs_write_keeps :
    (fuel : ℕ) (path : List ℕ) (buf : Bytes) (size offset : ℕ)
    → Frames layout (a1fs_write fuel path buf size offset)
unfolding a1fs_write
a1fs_write_keeps fuel path buf size offset s =
    then_reads layout s _ (get_inode_num_reads path 0 s) λ found.
      if-Frames layout s (is_neg found) _ _ (returns layout s refl) (
        then_reads layout s _ (index_reads found s) λ i.
          then_reads layout s _ (load_inode_reads i s) λ before.
            then-Frames layout s
              (if-Frames layout s (ltb before.size (offset + size)) _ _
                (a1fs_truncate_keeps fuel path (size + offset) s) (returns layout s refl))
              λ grown t. if-Frames layout t (not (eq_ℤ grown (pos 0))) _ _ (returns layout t refl) (
                then_reads layout t _ (find_offset_extent_reads i (pos offset) t) λ cur.
                  if-Frames layout t (is_neg cur) _ _ (returns layout t refl) (
                    then_reads layout t _ (index_reads cur t) λ k.
                      then_reads layout t _ (load_inode_reads i t) λ inode.
                        write_loop_keeps inode buf size (inode_extents - k) k (pos size) offset
                          (pos 0) t)))
