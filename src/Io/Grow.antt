-- ===== src/Io/Grow.antt =====
-- a1fs_truncate of a1b/a1fs.c on a file without extents that grows.
use extent_based_fs.Base.{
  ℕ, suc, ◌+◌, ◌*◌, ◌%◌, ◌≤◌, ◌<◌, ◌≡◌, ◌≢◌, refl, ap, ◌∙◌, true, false, arith, if◌then◌else◌,
  lt→ltb, List,
}
use extent_based_fs.Base.Int.{pos, minus_one, eq_ℤ, ne→eq_ℤ, ◌-ℤ◌}
use extent_based_fs.Types.{FsCtx, Inode, ok, inode_capacity, update, a1fs_block_size}
use extent_based_fs.Bitmap.{check_bit_usage, set_bits, get_available_bit}
use extent_based_fs.Bitmap.Toggle.{IsBytes}
use extent_based_fs.Bitmap.Range.{in_range, set_bits-range}
use extent_based_fs.Dir.{block_addr, get_inode_num}
use extent_based_fs.Alloc.{make_data_blocks}
use extent_based_fs.Alloc.Extents.{allocate_data_blks-data, extended, with_inode}
use extent_based_fs.Contents.{touch_inode, zero_extents, truncate_helper}
use extent_based_fs.Io.{to_int, truncate_empty, a1fs_truncate}
use extent_based_fs.Io.Shrink.{ceil_blocks, blocks_of-ceil_blocks}
use extent_based_fs.Io.ZeroedExtent.{
  from_first, zero_start-first, zero_extents-positive, bytes_total,
}

-- The state with `n` blocks from `first` on as the only extent of inode `i`.
abbrev pub grown : FsCtx → (i first n : ℕ) → FsCtx
grown s i first n = record (with_inode s i (extended s i 0 first n)) {
  sb = record s.sb { sb_free_blocks_count = s.sb.sb_free_blocks_count -ℤ pos n };
  block_bits = (set_bits s.sb s.block_bits first 1 (pos n) 1).bitmap;
}

pub make_data_blocks-grown :
    (s : FsCtx) (fuel i first n : ℕ)
    → IsBytes s.block_bits
    → i < inode_capacity s.sb
    → (s.itable i).last_used_extent ≡ minus_one
    → get_available_bit s.sb s.block_bits 1 (pos n) ≡ pos first
    → make_data_blocks (suc fuel) i (pos n) s ≡ ok (pos n) (grown s i first n)
unfolding make_data_blocks
make_data_blocks-grown s fuel i first n bytes in_table empty found =
    let spec = set_bits-range s.sb first n 1 bytes in
    rw (found, (allocate_data_blks-data {s = s} i first n in_table).0 empty, spec.2, spec.1) refl

-- The state with the time of inode `i` set.
abbrev pub touched : FsCtx → (i : ℕ) → FsCtx
touched s i = record s {
  itable = update s.itable i (record (s.itable i) { i_mtime = s.clock s.ticks });
  ticks = s.ticks + 1;
}

touch_inode-touched :
    (s : FsCtx) (i : ℕ) → i < inode_capacity s.sb → touch_inode i s ≡ ok tt (touched s i)
unfolding touch_inode
touch_inode-touched s i h = rw (lt→ltb i _ h, lt→ltb i _ h) refl

-- A file `i` at the path without extents, and room for `size` bytes at block `first`.
pub record Growable (s : FsCtx) (path : List ℕ) (i first size : ℕ) : Type 0 where
  pub leads : get_inode_num path 0 s ≡ ok (pos i) s
  pub in_table : i < inode_capacity s.sb
  pub differs : to_int (s.itable i).size ≢ pos size
  pub empty : (s.itable i).last_used_extent ≡ minus_one
  pub found : get_available_bit s.sb s.block_bits 1 (pos (ceil_blocks size)) ≡ pos first
  pub inside :
      block_addr s.sb.sb_first_data_block first + a1fs_block_size * ceil_blocks size ≤ s.size
  pub positive : 0 < size

module _ {s : FsCtx} {path : List ℕ} {i first size : ℕ} (fuel : ℕ)
    (h : Growable s path i first size) (bytes : IsBytes s.block_bits) where
  -- The state before the blocks are zeroed.
  abbrev pub ready : FsCtx
  ready = touched (grown s i first (ceil_blocks size)) i

  ready_inode :
      ready.itable i
      ≡ record (extended s i 0 first (ceil_blocks size)) { i_mtime = s.clock (s.ticks + 1) }
  ready_inode = ground arith

  last_ready : (ready.itable i).last_used_extent ≡ pos 0
  last_ready = ground arith

  start_ready : ((ready.itable i).i_extent 0).start ≡ first
  start_ready = ground arith

  count_ready : ((ready.itable i).i_extent 0).count ≡ pos (ceil_blocks size)
  count_ready = ground arith

  same_count : (n : ℕ) → eq_ℤ (pos n) (pos n) ≡ true
  same_count n = ground arith

  truncate_helper-steps :
      (t : FsCtx)
      → t.sb ≡ ready.sb
      → zero_extents i (from_first first) 1 0 (pos (ceil_blocks size)) (pos (size % 4096)) ready
        ≡ ok tt t
      → truncate_helper (suc fuel) i (pos size) s ≡ ok (pos 0) (touched t i)
  unfolding truncate_helper
  truncate_helper-steps t same run =
      rw
        (
          blocks_of-ceil_blocks size,
          make_data_blocks-grown s fuel i first (ceil_blocks size) bytes h.in_table h.empty h.found,
          same_count (ceil_blocks size),
          touch_inode-touched (grown s i first (ceil_blocks size)) i h.in_table,
          lt→ltb i _ h.in_table,
          last_ready,
          zero_start-first (ready.itable i) ready start_ready count_ready,
          run,
          touch_inode-touched t i (rw same h.in_table),
        )
        refl

  -- The state at the end, from that once the blocks are zeroed.
  abbrev pub finished : FsCtx → FsCtx
  finished t = record (touched t i) {
    itable = update (touched t i).itable i (record ((touched t i).itable i) { size = size });
  }

  finished_inode :
      (t : FsCtx)
      → (finished t).itable i ≡ record (t.itable i) { i_mtime = t.clock t.ticks; size = size }
  finished_inode t = ground arith

  finished_other : (t : FsCtx) (j : ℕ) → j ≢ i → (finished t).itable j ≡ t.itable j
  finished_other t j ne = ground arith

  ready_other : (j : ℕ) → j ≢ i → ready.itable j ≡ s.itable j
  ready_other j ne = ground arith

  pub truncate-finished :
      (t : FsCtx)
      → t.sb ≡ ready.sb
      → zero_extents i (from_first first) 1 0 (pos (ceil_blocks size)) (pos (size % 4096)) ready
        ≡ ok tt t
      → a1fs_truncate (suc fuel) path size s ≡ ok (pos 0) (finished t)
  unfolding a1fs_truncate truncate_empty
  truncate-finished t same run =
      let here : i < inode_capacity t.sb = rw same h.in_table in
      rw
        (
          h.leads,
          lt→ltb i _ h.in_table,
          ne→eq_ℤ _ _ h.differs,
          h.empty,
          truncate_helper-steps t same run,
          lt→ltb i _ here,
          lt→ltb i _ here,
        )
        refl

  -- Growing a file without extents to a size other than 0, where the search finds room for its
  -- blocks at a run of free blocks in the image: returns 0, the file has the new size and these
  -- blocks as its only extent, they are in use and off the count of free blocks, the bytes of the
  -- file are 0, and no other byte of the image, bit of a block or inode has changed.
  pub a1fs_truncate_grows :
      ((j : ℕ)
        → in_range first (ceil_blocks size) j ≡ true
        → check_bit_usage s.block_bits j ≡ false)
      → (t : FsCtx) × (a1fs_truncate (suc fuel) path size s ≡ ok (pos 0) t)
        × ((x : ℕ)
            → t.image x ≡ (
                if in_range (block_addr s.sb.sb_first_data_block first) size x
                then 0
                else s.image x))
        × ((j : ℕ)
            → check_bit_usage t.block_bits j ≡ (
                if in_range first (ceil_blocks size) j
                then true
                else check_bit_usage s.block_bits j))
        × (t.sb.sb_free_blocks_count ≡ s.sb.sb_free_blocks_count -ℤ pos (ceil_blocks size))
        × ((t.itable i).size ≡ size)
        × ((t.itable i).last_used_extent ≡ pos 0)
        × (((t.itable i).i_extent 0).start ≡ first)
        × (((t.itable i).i_extent 0).count ≡ pos (ceil_blocks size))
        × ((j : ℕ) → j ≢ i → t.itable j ≡ s.itable j)
  a1fs_truncate_grows free =
      let n = ceil_blocks size in
      let (t, run, same, z) =
        zero_extents-positive i first n (size % 4096) ready (omega (arith, h.positive)) h.in_table
          count_ready (omega arith) h.inside in
      let total = bytes_total n size refl h.positive in
      (
        finished t,
        truncate-finished t same run,
        λ x. z.image x ∙ rw total refl,
        λ j.
            ap (λ u. check_bit_usage u.block_bits j) z.others
            ∙ (set_bits-range s.sb first n 1 bytes).0 j
            ∙ ground (arith, free j),
        ap (λ sb. sb.sb_free_blocks_count) same,
        ap {A = Inode} (λ v. v.size) (finished_inode t),
        ap {A = Inode} (λ v. v.last_used_extent) (finished_inode t)
            ∙ ap {A = Inode} (λ v. v.last_used_extent) z.inode
            ∙ last_ready,
        ap {A = Inode} (λ v. (v.i_extent 0).start) (finished_inode t) ∙ z.starts 0 ∙ start_ready,
        ap {A = Inode} (λ v. (v.i_extent 0).count) (finished_inode t) ∙ z.counts 0 ∙ count_ready,
        λ j ne. finished_other t j ne ∙ z.itable j ne ∙ ready_other j ne,
      )
